-- ===== src/Examples/Client.antt =====
-- The whole client: signing in until a channel is open, and signing out in a call.
use voxter.Common.{
  ℕ, ◌++◌, List, ◌≡◌, ◌∙◌, sym, inl, refl, zero, suc, true, false, [], ◌∷◌, string_dec, differ,
  some,
}
use voxter.Variant
use voxter.Variant.{
  Value, text, field, list, end, nil, cons, value, value_or, to_map, to_list, of_values, to_string,
  json_string,
}
use voxter.Api.{ApiCall, ok}
use voxter.Store
use voxter.Gateway
use voxter.Auth
use voxter.Guild
use voxter.Guild.{first_id, first_text_channel}
use voxter.Chat
use voxter.App.{App, take_nth}
use voxter.App.Run.{
  World, Wish, Action, signs_out, auth_answers, guild_answers, wishes, selects_guild, run,
}
use voxter.App.Call.{hang_up, mute, presses, sign_out_keeps_call}
use voxter.App.Start.{sign_in_opens_channel}
use voxter.App.Late.{late_guilds_shown, late_channels_shown}
use voxter.App.Shapes.Run.{run-ShowsMaps}
use voxter.Chat.Shapes.{ShowsMaps}
use voxter.App.Place.{IsExclusive}
use voxter.App.Place.Moves.{run-IsExclusive}
use voxter.App.Url.{
  codes, starts_with, turned, chop_slashes, without_slashes, with_scheme, normalize_api_url,
  resolve_api_url, slashes, resolve_api_url-slashes,
}
use voxter.Examples.Local.{letters, fresh}
use voxter.Examples.Guilds.{guild, channel}
use voxter.Examples.Microphone.{on_air}

abbrev pub world : World
world = record {
  codec = letters;
  to_lower = λ s. s;
  trimmed = λ s. s;
  local = λ s. s;
  exists = λ s. true;
  from_json = λ s. some (text s);
}

abbrev pub client : App
client = record {
  api = fresh.api;
  settings = fresh.settings;
  gateway = Gateway.init;
  store = Store.init;
  auth = record fresh { pending = (ApiCall.login "a" "b", Auth.Handler.signing_in) ∷ [] };
  guild = guild;
  chat = record {
    store = Store.init;
    channel_cursor = "";
    dm_cursor = "";
    busy = false;
    error = "";
    pending = [];
  };
  voice = on_air;
  profile = record { store = Store.init; busy = false; error = ""; saves = zero; pending = [] };
  shutting_down = false;
}

sign_out_keeps_call_example :
    let b = run world (signs_out ∷ presses (mute ∷ hang_up ∷ [])) client in
    (b.store.authenticated ≡ false)
    × (b.gateway.access_token ≡ "")
    × (b.voice.engine ≡ on_air.engine)
    × (b.voice.view ≡ on_air.view)
    × (b.voice.pending ≡ on_air.pending)
sign_out_keeps_call_example = sign_out_keeps_call world (mute ∷ hang_up ∷ []) client

abbrev guilds : Value
guilds = list (cons (channel "g" "") nil)

abbrev channels : Value
channels = list (cons (channel "lounge" "VOICE") (cons (channel "news" "TEXT") nil))

first_guild : first_id (to_list guilds) ≡ "g"
unfolding first_id to_list of_values to_map value value_or json_string string_dec
first_guild = refl

first_text : first_text_channel (to_list channels) ≡ "news"
unfolding first_text_channel to_list of_values to_map value value_or json_string string_dec
first_text = refl

sign_in_opens_channel_example :
    let d =
      run world
        (auth_answers zero (ok (Variant.map end))
          ∷ guild_answers (suc zero) (ok guilds)
          ∷ guild_answers (suc zero) (ok channels)
          ∷ [])
        client in
    (d.store.authenticated ≡ true)
    × (d.store.current_guild_id ≡ first_id (to_list guilds))
    × (d.store.current_channel_id ≡ first_text_channel (to_list channels))
    × (d.chat.pending
        ≡ (
          ApiCall.list_messages (first_text_channel (to_list channels)) "" "",
          Chat.channel_page true,
        )
          ∷ [])
unfolding Store.init string_dec
sign_in_opens_channel_example =
    sign_in_opens_channel world client (Variant.map end) guilds channels (ApiCall.login "a" "b") []
      refl refl refl (λ e. differ "g" "" refl (sym first_guild ∙ e))
      (λ e. differ "news" "" refl (sym first_text ∙ e))

run-IsExclusive_example :
    IsExclusive
      (run world
        (Action.wishes (Wish.opens_channel "news") ∷ Action.wishes (Wish.opens_thread "t") ∷ [])
        client).store
run-IsExclusive_example =
    run-IsExclusive world
      (Action.wishes (Wish.opens_channel "news") ∷ Action.wishes (Wish.opens_thread "t") ∷ [])
      client (inl (unfold Store.init in refl))

-- A page whose first item is a text and no map.
abbrev page : Value
page = Variant.map (field "items" (list (cons (text "x") (cons (channel "m" "") nil))) end)

run-ShowsMaps_example :
    ShowsMaps
      (run world
        (Action.wishes (Wish.opens_channel "news") ∷ Action.chat_answers zero (ok page) ∷ [])
        client).store
run-ShowsMaps_example =
    run-ShowsMaps world
      (Action.wishes (Wish.opens_channel "news") ∷ Action.chat_answers zero (ok page) ∷ []) client
      (unfold Store.init in tt)

-- QString::trimmed, as far as these texts have nothing to trim
abbrev untrimmed : List ℕ → List ℕ
untrimmed s = s

normalize_api_url_test : normalize_api_url untrimmed (codes "host//") ≡ codes "http://host"
unfolding normalize_api_url with_scheme without_slashes chop_slashes turned starts_with
normalize_api_url_test = refl

resolve_api_url-slashes_example :
    (resolve_api_url untrimmed (slashes 1 []) (codes "host") ≡ codes "http:")
    × (resolve_api_url untrimmed (codes "http:" ++ slashes 2 []) (codes "host") ≡ codes "http:")
resolve_api_url-slashes_example = resolve_api_url-slashes untrimmed zero (codes "host") refl refl

-- A client whose user signs out while the guilds are asked for.
abbrev asking : App
asking = record client {
  guild = record guild { pending = (ApiCall.list_guilds, Guild.guilds) ∷ [] };
}

late_guilds_shown_example :
    let b = run world (signs_out ∷ guild_answers zero (ok guilds) ∷ []) asking in
    let first = first_id (to_list guilds) in
    (b.store.authenticated ≡ false)
    × (b.api.access_token ≡ "")
    × (b.store.guilds ≡ to_list guilds)
    × (b.store.current_guild_id ≡ first)
    × (b.guild.pending
        ≡ (ApiCall.list_guild_presence first, Guild.members)
          ∷ (ApiCall.list_channels first, Guild.channels)
          ∷ [])
unfolding take_nth string_dec
late_guilds_shown_example =
    late_guilds_shown world zero guilds asking ApiCall.list_guilds [] refl
      (λ e. differ "g" "" refl (sym first_guild ∙ e))

-- A client that has asked for the channels of the guild "old".
abbrev leaving : App
leaving = record client {
  guild = record guild { pending = (ApiCall.list_channels "old", Guild.channels) ∷ [] };
}

late_channels_shown_example :
    let b =
      run world
        (wishes (selects_guild "new") ∷ guild_answers (suc (suc zero)) (ok channels) ∷ [])
        leaving in
    (b.store.current_guild_id ≡ "new")
    × (b.store.channels ≡ to_list channels)
    × (b.store.current_channel_id ≡ first_text_channel (to_list channels))
unfolding take_nth string_dec first_text_channel Store.init
late_channels_shown_example =
    late_channels_shown world zero "old" "new" channels leaving [] refl (differ "new" "" refl)
