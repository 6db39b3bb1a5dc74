-- ===== src/App/Run.antt =====
-- What can happen to the client, one step at a time.
use voxter.Common.{ℕ, String, Bool, false, List, [], ◌∷◌, Option, none, some}
use voxter.Variant.{Value, Fields, to_map}
use voxter.Api.{ApiCall, Answer, ok, failed}
use voxter.Store.{set_current_dm_thread_id}
use voxter.Gateway
use voxter.Gateway.Messages.{on_text_message}
use voxter.Storage.{Codec}
use voxter.Auth
use voxter.Auth.{Auth, logout, bootstrap_session, on_restored, on_signed_in}
use voxter.Guild
use voxter.Guild.{Guild}
use voxter.Chat
use voxter.Chat.{Chat}
use voxter.Voice.Run.{Input, store_changes, step}
use voxter.Profile.{save_profile, on_saved}
use voxter.App.{
  App, with_auth, with_guild, with_chat, with_voice, with_profile, take_nth, on_session_ready,
  on_event, shutdown,
}

-- What a user asks of the channels and messages.
pub data Wish : Type 0 where
  selects_guild opens_channel opens_thread : String → Wish
  creates_guild joins_invite saves_profile : String → Wish
  creates_channel : String → String → Wish
  creates_dm_thread : List String → String → Wish
  closes_thread invites loads_older loads_older_dm types : Wish
  writes writes_dm deletes : String → Wish
  edits reacts attaches : String → String → Wish

-- What the model is given: Base64, UTF-8 and the key of the token storage, lower case, trimming, the
-- path of a file's URL, whether there is a file, and the JSON parser.
pub record World : Type 0 where
  pub codec : Codec
  pub to_lower : String → String
  pub trimmed : String → String
  pub local : String → String
  pub exists : String → Bool
  pub from_json : String → Option Value

pub data Action : Type 0 where
  starts closes signs_out : Action
  signs_in : String → String → Action
  registers : String → String → String → Action
  wishes : Wish → Action
  -- a step of the voice part that comes from the user, LiveKit, the devices or the server
  voice_input : Input → Action
  -- the socket, and a text that it brings
  socket : Gateway.Event → Action
  receives : String → Action
  -- the server answers the n-th call in flight of a view model
  auth_answers guild_answers chat_answers profile_answers : ℕ → Answer Value → Action

abbrev pub as_object : Answer Value → Answer Fields
as_object (ok v) = ok (to_map v)
as_object (failed e) = failed e

abbrev pub ready_if_ok : Answer Fields → App → App
ready_if_ok (ok _) a = on_session_ready a
ready_if_ok (failed _) a = a

abbrev without_call : List (ApiCall × Auth.Handler) → Auth → Auth
without_call rest a = record a { pending = rest }

module _ (world : World) where
  -- sessionReady is emitted inside the callback, whose last line then clears the error
  unfoldable pub resume_auth :
      Auth.Handler → Answer Fields → List (ApiCall × Auth.Handler) → App → App
  unfolding on_session_ready with_auth
  resume_auth Auth.Handler.restoring r rest a =
      ready_if_ok r (with_auth (λ u. on_restored world.codec r (without_call rest u)) a)
  resume_auth Auth.Handler.signing_in r rest a =
      ready_if_ok r (with_auth (λ u. on_signed_in world.codec r (without_call rest u)) a)
  resume_auth Auth.Handler.presence r rest a =
      with_auth (λ u. Auth.on_presence r (without_call rest u)) a

  unfoldable pub on_auth_answer : ℕ → Answer Value → App → App
  unfolding resume_auth
  on_auth_answer n r a = elim (take_nth n a.auth.pending) [
    | none ↦ a
    | some ((call, handler), rest) ↦ resume_auth handler (as_object r) rest a
  ]

  unfoldable pub on_guild_answer : ℕ → Answer Value → App → App
  unfolding with_guild
  on_guild_answer n r a = elim (take_nth n a.guild.pending) [
    | none ↦ a
    | some ((call, handler), rest) ↦
        with_guild (λ g. Guild.resume handler r (record g { pending = rest })) a
  ]

  unfoldable pub on_profile_answer : ℕ → Answer Value → App → App
  unfolding with_profile
  on_profile_answer n r a = elim (take_nth n a.profile.pending) [
    | none ↦ a
    | some (call, rest) ↦ with_profile (λ p. on_saved (as_object r) (record p { pending = rest })) a
  ]

  unfoldable pub grant : Wish → App → App
  unfolding with_guild with_chat with_profile
  grant (selects_guild id) = with_guild (Guild.select_guild id)
  grant (opens_channel id) = with_chat (Chat.open_channel id)
  grant (opens_thread id) = with_chat (Chat.select_dm_thread id)
  grant (creates_guild name) = with_guild (Guild.create_guild world.trimmed name)
  grant (joins_invite code) = with_guild (Guild.join_invite world.trimmed code)
  grant (saves_profile name) = with_profile (save_profile world.trimmed name)
  grant (creates_channel name type) = with_guild (Guild.create_channel world.trimmed name type)
  grant (creates_dm_thread users name) = with_guild (Guild.create_dm_thread users name)
  grant closes_thread = with_chat (Chat.on_store (set_current_dm_thread_id ""))
  grant invites = with_guild Guild.create_invite
  grant loads_older = with_chat (Chat.load_channel_messages false)
  grant loads_older_dm = with_chat (Chat.load_dm_messages false)
  grant types = with_chat Chat.send_typing
  grant (writes content) = with_chat (Chat.send_message world.trimmed content)
  grant (writes_dm content) = with_chat (Chat.send_dm_message world.trimmed content)
  grant (deletes id) = with_chat (Chat.delete_message id)
  grant (edits id content) = with_chat (Chat.edit_message world.trimmed id content)
  grant (attaches file content) =
      with_chat (Chat.upload_attachment world.local world.exists file content)
  grant (reacts id emoji) = with_chat (Chat.react_to_message id emoji)

  -- The changes of the store come from the other steps, so the voice part's own step is none here.
  unfoldable pub voice_step : Input → App → App
  unfolding with_voice
  voice_step (store_changes s) a = a
  voice_step i a = with_voice (step world.to_lower i) a

  -- the slot on eventReceived, for a text that is an event
  unfoldable pub on_message : String → App → App
  on_message message a = elim (on_text_message world.from_json message) [
    | none ↦ a
    | some (name, payload) ↦ on_event name payload a
  ]

  unfoldable pub act : Action → App → App
  unfolding with_auth with_chat voice_step on_message
  act starts = with_auth (bootstrap_session world.codec)
  act closes = shutdown
  act signs_out = with_auth logout
  act (signs_in email password) = with_auth (Auth.login email password)
  act (registers email password name) = with_auth (Auth.register_user email password name)
  act (wishes w) = grant w
  act (voice_input i) = voice_step i
  act (socket e) = λ a. record a { gateway = Gateway.handle e a.gateway }
  act (receives message) = on_message message
  act (auth_answers n r) = on_auth_answer n r
  act (guild_answers n r) = on_guild_answer n r
  act (chat_answers n r) = with_chat (Chat.on_answer n (as_object r))
  act (profile_answers n r) = on_profile_answer n r

  unfoldable pub run : List Action → App → App
  run [] a = a
  run (x ∷ xs) a = run xs (act x a)
