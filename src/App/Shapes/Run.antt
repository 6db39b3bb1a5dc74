-- ===== src/App/Shapes/Run.antt =====
-- Whatever happens, the messages that the client shows are maps.
use voxter.Common.{
  Option-cases, inl, inr, ◌≡◌, refl, ◌∙◌, String, Bool, true, false, List, [], ◌∷◌, arith, ◌==◌,
  if◌then◌else◌,
}
use voxter.Variant.{Fields}
use voxter.Store.{
  set_current_user, set_guild_members, set_current_channel_id, set_current_dm_thread_id,
  clear_session,
}
use voxter.Auth.{Auth, logout, bootstrap_session, login, register_user}
use voxter.Auth
use voxter.Guild
use voxter.Guild.Events as GuildEvents
use voxter.Chat
use voxter.Chat.{
  Chat, load_channel_messages, load_dm_messages, open_channel, select_dm_thread, on_channel_changed,
}
use voxter.Chat.Events as ChatEvents
use voxter.Chat.Shapes.{ShowsMaps, on_answer-ShowsMaps, handle_gateway_event-ShowsMaps}
use voxter.Profile
use voxter.Profile.{Profile, save_profile}
use voxter.Voice.Place.Run.{at-event}
use voxter.App.{
  App, with_auth, with_guild, with_chat, with_voice, with_profile, own_presence, on_event, shutdown,
}
use voxter.Gateway.Messages.{on_text_message}
use voxter.App.Run.{on_message, World, Wish, Action, act, run, grant, as_object}
use voxter.App.Place.Own.{elsewhere-voice_step}
use voxter.App.Shapes.{
  Spares, by_messages, messages-elsewhere, messages-with_guild, auth_answer-ShowsMaps,
  messages-guild_answer, messages-profile_answer, select_guild-Spares,
}

-- The events.

guild_event-Spares : (e : String) (p : Fields) → Spares (GuildEvents.handle_gateway_event e p)
unfolding GuildEvents.handle_gateway_event Guild.load_guild_members GuildEvents.on_presence
    set_guild_members
guild_event-Spares e p g = ground arith

marked-messages :
    (b : Bool) (p : Fields) (a : App)
    → (if b then record a { store = own_presence p a.store } else a).store.messages
      ≡ a.store.messages
unfolding own_presence set_current_user
marked-messages true p a = ground arith
marked-messages false p a = refl

on_event-ShowsMaps :
    (e : String) (p : Fields) (a : App) → ShowsMaps a.store → ShowsMaps (on_event e p a).store
unfolding on_event with_voice with_chat
on_event-ShowsMaps e p a h =
    let marked =
      if e == "presence_update" then record a { store = own_presence p a.store } else a in
    let guilds = with_guild (GuildEvents.handle_gateway_event e p) marked in
    let shown =
      by_messages
        (messages-with_guild (GuildEvents.handle_gateway_event e p) (guild_event-Spares e p) marked
          ∙ marked-messages (e == "presence_update") p a)
        h in
    let chats = with_chat (ChatEvents.handle_gateway_event e p) guilds in
    by_messages
      (messages-elsewhere _ chats.store (at-event e p (record chats.voice { store = chats.store })))
      (handle_gateway_event-ShowsMaps e p (record guilds.chat { store = guilds.store }) shown)

-- The user.

messages-with_chat :
    (f : Chat → Chat)
    → ((c : Chat) → (f c).store.messages ≡ c.store.messages)
    → (a : App) → (with_chat f a).store.messages ≡ a.store.messages
unfolding with_chat
messages-with_chat f k a = k (record a.chat { store = a.store })

messages-save_profile :
    (trimmed : String → String) (name : String) (p : Profile)
    → (save_profile trimmed name p).store.messages ≡ p.store.messages
unfolding save_profile Profile.set_error Profile.set_busy
messages-save_profile trimmed name p = ground arith

module _ (world : World) where
  messages-grant : (w : Wish) (a : App) → (grant world w a).store.messages ≡ a.store.messages
  unfolding grant with_profile
  messages-grant (Wish.selects_guild id) =
      messages-with_guild (Guild.select_guild id) (select_guild-Spares id)
  messages-grant (Wish.opens_channel id) = messages-with_chat (open_channel id) (
      unfold open_channel on_channel_changed load_channel_messages set_current_channel_id
        set_current_dm_thread_id in
      λ c. ground arith)
  messages-grant (Wish.opens_thread id) = messages-with_chat (select_dm_thread id) (
      unfold select_dm_thread load_dm_messages open_channel on_channel_changed load_channel_messages
        set_current_channel_id set_current_dm_thread_id in
      λ c. ground arith)
  messages-grant (Wish.creates_guild name) =
      messages-with_guild (Guild.create_guild world.trimmed name)
        (unfold Guild.create_guild in λ g. ground arith)
  messages-grant (Wish.joins_invite code) =
      messages-with_guild (Guild.join_invite world.trimmed code)
        (unfold Guild.join_invite in λ g. ground arith)
  messages-grant (Wish.saves_profile name) =
      λ a. messages-save_profile world.trimmed name (record a.profile { store = a.store })
  messages-grant (Wish.creates_channel name type) =
      messages-with_guild (Guild.create_channel world.trimmed name type)
        (unfold Guild.create_channel in λ g. ground arith)
  messages-grant (Wish.creates_dm_thread [] name) =
      messages-with_guild (Guild.create_dm_thread [] name)
        (unfold Guild.create_dm_thread in λ g. refl)
  messages-grant (Wish.creates_dm_thread (u ∷ us) name) =
      messages-with_guild (Guild.create_dm_thread (u ∷ us) name)
        (unfold Guild.create_dm_thread in λ g. refl)
  messages-grant Wish.closes_thread =
      messages-with_chat (Chat.on_store (set_current_dm_thread_id ""))
        (unfold set_current_dm_thread_id in λ c. ground arith)
  messages-grant Wish.invites =
      messages-with_guild Guild.create_invite (unfold Guild.create_invite in λ g. ground arith)
  messages-grant Wish.loads_older =
      messages-with_chat (load_channel_messages false)
        (unfold load_channel_messages in λ c. ground arith)
  messages-grant Wish.loads_older_dm =
      messages-with_chat (load_dm_messages false) (unfold load_dm_messages in λ c. ground arith)
  messages-grant Wish.types =
      messages-with_chat Chat.send_typing (unfold Chat.send_typing in λ c. ground arith)
  messages-grant (Wish.writes content) =
      messages-with_chat (Chat.send_message world.trimmed content)
        (unfold Chat.send_message in λ c. ground arith)
  messages-grant (Wish.writes_dm content) =
      messages-with_chat (Chat.send_dm_message world.trimmed content)
        (unfold Chat.send_dm_message in λ c. ground arith)
  messages-grant (Wish.deletes id) =
      messages-with_chat (Chat.delete_message id) (unfold Chat.delete_message in λ c. ground arith)
  messages-grant (Wish.edits id content) =
      messages-with_chat (Chat.edit_message world.trimmed id content)
        (unfold Chat.edit_message in λ c. ground arith)
  messages-grant (Wish.reacts id emoji) =
      messages-with_chat (Chat.react_to_message id emoji)
        (unfold Chat.react_to_message in λ c. ground arith)
  messages-grant (Wish.attaches file content) =
      messages-with_chat (Chat.upload_attachment world.local world.exists file content)
        (unfold Chat.upload_attachment Chat.set_error in λ c. ground arith)

  on_message-ShowsMaps :
      (message : String) (a : App)
      → ShowsMaps a.store
      → ShowsMaps (on_message world message a).store
  unfolding on_message
  on_message-ShowsMaps message a h = elim (Option-cases (on_text_message world.from_json message)) [
    | inl e ↦ rw (e, on_message) h
    | inr ((name, payload), e) ↦ rw (e, on_message) (on_event-ShowsMaps name payload a h)
  ]

  act-ShowsMaps : (x : Action) (a : App) → ShowsMaps a.store → ShowsMaps (act world x a).store
  unfolding act with_auth with_chat logout clear_session Auth.set_error login register_user
      bootstrap_session shutdown
  act-ShowsMaps Action.starts a h = by_messages (ground arith) h
  act-ShowsMaps Action.closes a h = by_messages (ground arith) h
  act-ShowsMaps Action.signs_out a h = tt
  act-ShowsMaps (Action.signs_in email password) a h = h
  act-ShowsMaps (Action.registers email password name) a h = h
  act-ShowsMaps (Action.wishes w) a h = by_messages (messages-grant w a) h
  act-ShowsMaps (Action.voice_input i) a h =
      by_messages (messages-elsewhere _ a.store (elsewhere-voice_step world i a)) h
  act-ShowsMaps (Action.socket e) a h = h
  act-ShowsMaps (Action.receives message) a h = on_message-ShowsMaps message a h
  act-ShowsMaps (Action.auth_answers n r) a h = auth_answer-ShowsMaps world n r a h
  act-ShowsMaps (Action.guild_answers n r) a h = by_messages (messages-guild_answer world n r a) h
  act-ShowsMaps (Action.chat_answers n r) a h =
      on_answer-ShowsMaps n (as_object r) (record a.chat { store = a.store }) h
  act-ShowsMaps (Action.profile_answers n r) a h =
      by_messages (messages-profile_answer world n r a) h

  -- If every message that is shown is a map, then they are at any time, whatever the user, the
  -- server, the socket, LiveKit and the devices do, and in whatever order: pages of anything, edits,
  -- removals and reactions leave only maps behind.
  pub run-ShowsMaps :
      (xs : List Action) (a : App) → ShowsMaps a.store → ShowsMaps (run world xs a).store
  unfolding run
  run-ShowsMaps [] a h = h
  run-ShowsMaps (x ∷ xs) a h = run-ShowsMaps xs (act world x a) (act-ShowsMaps x a h)
