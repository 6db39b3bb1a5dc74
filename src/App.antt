-- ===== src/App.antt =====
-- client/src/app/Application: the objects that the view models share, and the slots that connect
-- them. Each view model has its own record, whose copies of the shared objects are renewed before
-- it runs and taken over behind it.
pub mod Run
pub mod Url
pub mod Call
pub mod Start
pub mod Place
pub mod Late
pub mod Shapes
use voxter.Common.{
  ℕ, zero, suc, String, Bool, true, false, not, ◌&&◌, List, [], ◌∷◌, Option, none, some, ◌==◌,
  is_empty, if◌then◌else◌, string_dec,
}
use voxter.Variant.{Value, Fields, text, value, insert, json_string, to_map, to_string}
use voxter.Api.{ApiClient, set_base_url}
use voxter.Store.{AppStore, set_current_user}
use voxter.Gateway
use voxter.Gateway.{Gateway, set_api_base_url, disconnect_from_gateway}
use voxter.Storage.{Settings, Codec}
use voxter.Auth
use voxter.Auth.{Auth}
use voxter.Guild
use voxter.Guild.Events as GuildEvents
use voxter.Guild.{Guild}
use voxter.Chat
use voxter.Chat.Events as ChatEvents
use voxter.Chat.{Chat}
use voxter.Voice.{Voice}
use voxter.Voice.Events as VoiceEvents
use voxter.Voice.Run.{Input, step}
use voxter.Profile.{Profile, save_profile, on_saved}

pub record App : Type 0 where
  pub api : ApiClient
  pub settings : Settings
  pub gateway : Gateway
  pub store : AppStore
  pub auth : Auth
  pub guild : Guild
  pub chat : Chat
  pub voice : Voice
  pub profile : Profile
  pub shutting_down : Bool

-- what the constructor does with the URL
unfoldable pub use_url : String → App → App
use_url url a = record a { api = set_base_url url a.api; gateway = set_api_base_url url a.gateway }

-- Where each view model runs.

unfoldable pub with_auth : (Auth → Auth) → App → App
with_auth f a =
    let r = f (record a.auth {
      api = a.api;
      settings = a.settings;
      gateway = a.gateway;
      store = a.store;
    }) in
    record a { api = r.api; settings = r.settings; gateway = r.gateway; store = r.store; auth = r }

unfoldable pub with_chat : (Chat → Chat) → App → App
with_chat f a =
    let r = f (record a.chat { store = a.store }) in record a { store = r.store; chat = r }

unfoldable pub with_voice : (Voice → Voice) → App → App
with_voice f a =
    let r = f (record a.voice { store = a.store }) in record a { store = r.store; voice = r }

unfoldable pub with_profile : (Profile → Profile) → App → App
with_profile f a =
    let r = f (record a.profile { store = a.store }) in record a { store = r.store; profile = r }

-- The guilds may open a channel: the slot on currentChannelIdChanged makes the messages load.
unfoldable pub with_guild : (Guild → Guild) → App → App
with_guild f a =
    let r = f (record a.guild { store = a.store; gateway = a.gateway }) in
    let after = record a { store = r.store; gateway = r.gateway; guild = r } in
    if r.store.current_channel_id == a.store.current_channel_id
    then after
    else with_chat (Chat.load_channel_messages true) after

-- the n-th call in flight and the others
unfoldable pub take_nth {ℓ} : {A : Type ℓ} → ℕ → List A → Option (A × List A)
take_nth n [] = none
take_nth zero (c ∷ cs) = some (c, cs)
take_nth (suc n) (c ∷ cs) = elim (take_nth n cs) [ none ↦ none | some (b, r) ↦ some (b, c ∷ r) ]

-- the slot on sessionReady
unfoldable pub on_session_ready : App → App
unfolding with_guild
on_session_ready a = with_guild Guild.load_dm_threads (with_guild Guild.load_guilds a)

-- the slot on eventReceived
unfoldable pub own_presence : Fields → AppStore → AppStore
own_presence payload s =
    let self = to_string (value s.current_user "id") in
    if not (is_empty self) && json_string (value payload "userId") == self
    then set_current_user
        (insert "presence" (text (json_string (value payload "status"))) s.current_user) s
    else s

unfoldable pub on_event : String → Fields → App → App
unfolding with_guild with_chat with_voice
on_event event payload a =
    let marked =
      if event == "presence_update" then record a { store = own_presence payload a.store } else a in
    with_voice (VoiceEvents.handle_gateway_event event payload) (
      with_chat (ChatEvents.handle_gateway_event event payload)
        (with_guild (GuildEvents.handle_gateway_event event payload) marked))

unfoldable pub shutdown : App → App
shutdown a =
    if a.shutting_down
    then a
    else record a { shutting_down = true; gateway = disconnect_from_gateway a.gateway }
