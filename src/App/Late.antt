-- ===== src/App/Late.antt =====
-- Answers of the server that come when what they were asked for is no longer wanted.
use voxter.Common.{
  ◌≡◌, ◌≢◌, refl, ◌∙◌, ap, ℕ, suc, String, false, List, [], ◌∷◌, some, arith, is_empty,
  if◌then◌else◌,
}
use voxter.Variant.{Value, to_list}
use voxter.Api.{ApiCall, ok, clear_tokens}
use voxter.Store.{
  AppStore, set_channels, set_current_guild_id, clear_session, set_current_channel_id,
  set_current_dm_thread_id,
}
use voxter.Auth
use voxter.Auth.{logout}
use voxter.Guild
use voxter.Guild.{
  on_guilds, first_id, select_guild, load_channels, load_guild_members, on_channels,
  first_text_channel, send_previews, choose_channel,
}
use voxter.Guild.Channels.{store-send_previews}
use voxter.App.{App, with_auth, with_guild, with_chat, take_nth}
use voxter.Chat.{load_channel_messages}
use voxter.App.Start.Guilds.{on_guilds-Picked}
use voxter.App.Start.Session.{with_guild-still}
use voxter.App.Run.{
  World, guild_answers, signs_out, wishes, selects_guild, grant, act, on_guild_answer, run,
}

-- A list of guilds that was asked for before signing out and arrives behind it is taken all the
-- same: the store shows the guilds again although nobody is signed in, the first one becomes the
-- current guild, and its channels and members are asked for, without a token.
pub late_guilds_shown :
    (world : World) (n : ℕ) (gs : Value) (a : App) (call : ApiCall)
    (rest : List (ApiCall × Guild.Handler))
    → take_nth n a.guild.pending ≡ some ((call, Guild.guilds), rest)
    → first_id (to_list gs) ≢ ""
    → let b = run world (signs_out ∷ guild_answers n (ok gs) ∷ []) a in
      let guild = first_id (to_list gs) in
      (b.store.authenticated ≡ false)
      × (b.api.access_token ≡ "")
      × (b.store.guilds ≡ to_list gs)
      × (b.store.current_guild_id ≡ guild)
      × (b.guild.pending
          ≡ (ApiCall.list_guild_presence guild, Guild.members)
            ∷ (ApiCall.list_channels guild, Guild.channels)
            ∷ rest)
unfolding run act on_guild_answer Guild.resume with_auth logout clear_session clear_tokens
    Auth.set_error
late_guilds_shown world n gs a call rest e some_id =
    let b = with_auth logout a in
    let f = λ (g : Guild.Guild). on_guilds (ok (to_list gs)) (record g { pending = rest }) in
    let h =
      on_guilds-Picked (to_list gs)
        (record b.guild { store = b.store; gateway = b.gateway; pending = rest }) refl some_id in
    rw (e, on_guild_answer)
      (rw (with_guild-still f b h.no_channel) (h.authenticated, refl, h.shown, h.picked, h.asked))

take_nth-behind_two :
    {c d : ApiCall × Guild.Handler} (n : ℕ) (l : List (ApiCall × Guild.Handler))
    {p : ApiCall × Guild.Handler} {rest : List (ApiCall × Guild.Handler)}
    → take_nth n l ≡ some (p, rest)
    → take_nth (suc (suc n)) (c ∷ d ∷ l) ≡ some (p, c ∷ d ∷ rest)
unfolding take_nth
take_nth-behind_two n l e = ground (arith, e)

-- what the list of another guild's channels does
record Mixed (l : List Value) (g h : Guild.Guild) : Type 0 where
  shown : h.store.channels ≡ l
  guild : h.store.current_guild_id ≡ g.store.current_guild_id
  opened : h.store.current_channel_id ≡ (
      if is_empty g.store.current_channel_id
      then first_text_channel l
      else g.store.current_channel_id)

on_channels-Mixed : (l : List Value) (g : Guild.Guild) → Mixed l g (on_channels (ok l) g)
unfolding on_channels choose_channel set_current_channel_id set_current_dm_thread_id set_channels
    Guild.set_error
on_channels-Mixed l g =
    let s = store-send_previews l (record g { store = set_channels l g.store }) in
    record { shown = ground (arith, s); guild = ground (arith, s); opened = ground (arith, s) }

store-with_guild :
    (f : Guild.Guild → Guild.Guild) (a : App)
    → (with_guild f a).store ≡ (f (record a.guild { store = a.store; gateway = a.gateway })).store
unfolding with_guild with_chat load_channel_messages
store-with_guild f a = ground arith

-- what selecting a guild does
record Selected (guild : String) (g h : Guild.Guild) : Type 0 where
  picked : h.store.current_guild_id ≡ guild
  same_channel : h.store.current_channel_id ≡ g.store.current_channel_id
  asked :
      h.pending
      ≡ (ApiCall.list_guild_presence guild, Guild.members)
        ∷ (ApiCall.list_channels guild, Guild.channels)
        ∷ g.pending

select_guild-Selected :
    (guild : String) (g : Guild.Guild) → guild ≢ "" → Selected guild g (select_guild guild g)
unfolding select_guild load_channels load_guild_members set_current_guild_id
select_guild-Selected guild g n = record {
  picked = ground (arith, n);
  same_channel = ground (arith, n);
  asked = ground (arith, n);
}

-- Where the channels of a guild are on their way and the user selects another guild, the list that
-- arrives late is shown as the channels of the guild that is now selected, and if no channel is
-- open, the first text channel of the guild that was left is opened in it.
pub late_channels_shown :
    (world : World) (n : ℕ) (left guild : String) (cs : Value) (a : App)
    (rest : List (ApiCall × Guild.Handler))
    → take_nth n a.guild.pending ≡ some ((ApiCall.list_channels left, Guild.channels), rest)
    → guild ≢ ""
    → let b =
        run world (wishes (selects_guild guild) ∷ guild_answers (suc (suc n)) (ok cs) ∷ []) a in
      (b.store.current_guild_id ≡ guild)
      × (b.store.channels ≡ to_list cs)
      × (b.store.current_channel_id ≡ (
          if is_empty a.store.current_channel_id
          then first_text_channel (to_list cs)
          else a.store.current_channel_id))
unfolding run act grant on_guild_answer Guild.resume
late_channels_shown world n left guild cs a rest e some_id =
    let g : Guild.Guild = record a.guild { store = a.store; gateway = a.gateway } in
    let s = select_guild-Selected guild g some_id in
    let b = with_guild (select_guild guild) a in
    let still = with_guild-still (select_guild guild) a s.same_channel in
    let asked = ap (λ (x : App). x.guild.pending) still ∙ s.asked in
    let stored = ap (λ (x : App). x.store) still in
    let later =
      (ApiCall.list_guild_presence guild, Guild.members)
      ∷ (ApiCall.list_channels guild, Guild.channels)
      ∷ rest in
    let found : take_nth (suc (suc n)) b.guild.pending
        ≡ some ((ApiCall.list_channels left, Guild.channels), later) =
      ap (take_nth (suc (suc n))) asked ∙ take_nth-behind_two n a.guild.pending e in
    let f = λ (h : Guild.Guild). on_channels (ok (to_list cs)) (record h { pending = later }) in
    let m =
      on_channels-Mixed (to_list cs)
        (record b.guild { store = b.store; gateway = b.gateway; pending = later }) in
    rw (found, on_guild_answer)
      (rw (store-with_guild f b) (
        m.guild ∙ ap (λ (x : AppStore). x.current_guild_id) stored ∙ s.picked,
        m.shown,
        m.opened
            ∙ ap
                (λ (x : AppStore).
                  if is_empty x.current_channel_id
                  then first_text_channel (to_list cs)
                  else x.current_channel_id)
                stored
            ∙ ap (λ (c : String). if is_empty c then first_text_channel (to_list cs) else c)
                s.same_channel,
      ))
