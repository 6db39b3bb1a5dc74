-- ===== src/App/Place/Moves.antt =====
-- A channel and a direct thread are never open together, whatever happens.
use voxter.Common.{Option-cases, inl, inr, ◌≡◌, refl, ap, String, false, List, [], ◌∷◌, arith}
use voxter.Store.{set_current_dm_thread_id, clear_session}
use voxter.Auth
use voxter.Auth.{
  Auth, on_signed_in, on_restored, apply_auth_response, logout, bootstrap_session, login,
  register_user,
}
use voxter.Guild
use voxter.Chat
use voxter.Chat.{
  Chat, load_channel_messages, load_dm_messages, show_page, on_channel_changed, open_channel,
  select_dm_thread,
}
use voxter.Profile.{Profile, save_profile, on_saved}
use voxter.Profile
use voxter.Voice.Run.{Input}
use voxter.App.{App, with_auth, with_guild, with_chat, with_profile, shutdown}
use voxter.Gateway.Messages.{on_text_message}
use voxter.App.Run.{on_message, World, Wish, Action, act, run, voice_step, grant, as_object}
use voxter.App.Place.{IsExclusive, place, place-elsewhere, by_place, select_guild-IsExclusive}
use voxter.App.Place.Own.{elsewhere-voice_step}
use voxter.App.Place.Exclusive.{
  chat_answer-IsExclusive, open_channel-IsExclusive, select_dm_thread-IsExclusive,
  with_guild-IsExclusive, with_chat-IsExclusive, on_event-IsExclusive,
}
use voxter.App.Place.Answers.{
  auth_answer-IsExclusive, guild_answer-IsExclusive, profile_answer-IsExclusive,
}

-- an operation that leaves the store alone
by_guild :
    (f : Guild.Guild → Guild.Guild)
    → ((g : Guild.Guild) → (f g).store ≡ g.store)
    → (a : App) → IsExclusive a.store
    → IsExclusive (with_guild f a).store
by_guild f k = with_guild-IsExclusive f (λ g h. by_place (f g).store g.store (ap place (k g)) h)

by_chat :
    (f : Chat → Chat)
    → ((c : Chat) → (f c).store ≡ c.store)
    → (a : App) → IsExclusive a.store
    → IsExclusive (with_chat f a).store
by_chat f k = with_chat-IsExclusive f (λ c h. by_place (f c).store c.store (ap place (k c)) h)

closed-IsExclusive :
    (c : Chat) → IsExclusive c.store → IsExclusive (set_current_dm_thread_id "" c.store)
unfolding set_current_dm_thread_id
closed-IsExclusive c h = ground (arith, h)

save_profile-IsExclusive :
    (trimmed : String → String) (name : String) (p : Profile)
    → IsExclusive p.store
    → IsExclusive (save_profile trimmed name p).store
unfolding save_profile Profile.set_error Profile.set_busy
save_profile-IsExclusive trimmed name p h = ground (arith, h)

module _ (world : World) where
  grant-IsExclusive :
      (w : Wish) (a : App) → IsExclusive a.store → IsExclusive (grant world w a).store
  unfolding grant with_profile
  grant-IsExclusive (Wish.selects_guild id) a h =
      with_guild-IsExclusive (Guild.select_guild id) (select_guild-IsExclusive id) a h
  grant-IsExclusive (Wish.opens_channel id) a h =
      with_chat-IsExclusive (open_channel id) (open_channel-IsExclusive id) a h
  grant-IsExclusive (Wish.opens_thread id) a h =
      with_chat-IsExclusive (select_dm_thread id) (select_dm_thread-IsExclusive id) a h
  grant-IsExclusive (Wish.creates_guild name) a h =
      by_guild (Guild.create_guild world.trimmed name)
        (unfold Guild.create_guild in λ g. ground arith) a h
  grant-IsExclusive (Wish.joins_invite code) a h =
      by_guild (Guild.join_invite world.trimmed code)
        (unfold Guild.join_invite in λ g. ground arith) a h
  grant-IsExclusive (Wish.saves_profile name) a h =
      save_profile-IsExclusive world.trimmed name (record a.profile { store = a.store }) h
  grant-IsExclusive (Wish.creates_channel name type) a h =
      by_guild (Guild.create_channel world.trimmed name type)
        (unfold Guild.create_channel in λ g. ground arith) a h
  grant-IsExclusive (Wish.creates_dm_thread [] name) a h =
      by_guild (Guild.create_dm_thread [] name) (unfold Guild.create_dm_thread in λ g. refl) a h
  grant-IsExclusive (Wish.creates_dm_thread (u ∷ us) name) a h =
      by_guild (Guild.create_dm_thread (u ∷ us) name) (unfold Guild.create_dm_thread in λ g. refl) a
        h
  grant-IsExclusive Wish.closes_thread a h =
      with_chat-IsExclusive (Chat.on_store (set_current_dm_thread_id "")) closed-IsExclusive a h
  grant-IsExclusive Wish.invites a h =
      by_guild Guild.create_invite (unfold Guild.create_invite in λ g. ground arith) a h
  grant-IsExclusive Wish.loads_older a h =
      by_chat (load_channel_messages false) (unfold load_channel_messages in λ c. ground arith) a h
  grant-IsExclusive Wish.loads_older_dm a h =
      by_chat (load_dm_messages false) (unfold load_dm_messages in λ c. ground arith) a h
  grant-IsExclusive Wish.types a h =
      by_chat Chat.send_typing (unfold Chat.send_typing in λ c. ground arith) a h
  grant-IsExclusive (Wish.writes content) a h =
      by_chat (Chat.send_message world.trimmed content)
        (unfold Chat.send_message in λ c. ground arith) a h
  grant-IsExclusive (Wish.writes_dm content) a h =
      by_chat (Chat.send_dm_message world.trimmed content)
        (unfold Chat.send_dm_message in λ c. ground arith) a h
  grant-IsExclusive (Wish.deletes id) a h =
      by_chat (Chat.delete_message id) (unfold Chat.delete_message in λ c. ground arith) a h
  grant-IsExclusive (Wish.edits id content) a h =
      by_chat (Chat.edit_message world.trimmed id content)
        (unfold Chat.edit_message in λ c. ground arith) a h
  grant-IsExclusive (Wish.reacts id emoji) a h =
      by_chat (Chat.react_to_message id emoji) (unfold Chat.react_to_message in λ c. ground arith) a
        h
  grant-IsExclusive (Wish.attaches file content) a h =
      by_chat (Chat.upload_attachment world.local world.exists file content)
        (unfold Chat.upload_attachment Chat.set_error in λ c. ground arith) a h

  voice_step-IsExclusive :
      (i : Input) (a : App) → IsExclusive a.store → IsExclusive (voice_step world i a).store
  voice_step-IsExclusive i a h =
      by_place _ _ (place-elsewhere _ _ (elsewhere-voice_step world i a)) h

  on_message-IsExclusive :
      (message : String) (a : App)
      → IsExclusive a.store
      → IsExclusive (on_message world message a).store
  unfolding on_message
  on_message-IsExclusive message a h =
      elim (Option-cases (on_text_message world.from_json message)) [
        | inl e ↦ rw (e, on_message) h
        | inr ((name, payload), e) ↦ rw (e, on_message) (on_event-IsExclusive name payload a h)
      ]

  act-IsExclusive : (x : Action) (a : App) → IsExclusive a.store → IsExclusive (act world x a).store
  unfolding act with_auth logout clear_session Auth.set_error login register_user bootstrap_session
      shutdown
  act-IsExclusive Action.starts a h = ground (arith, h)
  act-IsExclusive Action.closes a h = ground (arith, h)
  act-IsExclusive Action.signs_out a h = inl refl
  act-IsExclusive (Action.signs_in email password) a h = h
  act-IsExclusive (Action.registers email password name) a h = h
  act-IsExclusive (Action.wishes w) a h = grant-IsExclusive w a h
  act-IsExclusive (Action.voice_input i) a h = voice_step-IsExclusive i a h
  act-IsExclusive (Action.socket e) a h = h
  act-IsExclusive (Action.receives message) a h = on_message-IsExclusive message a h
  act-IsExclusive (Action.auth_answers n r) a h = auth_answer-IsExclusive world n r a h
  act-IsExclusive (Action.guild_answers n r) a h = guild_answer-IsExclusive world n r a h
  act-IsExclusive (Action.chat_answers n r) a h =
      with_chat-IsExclusive (Chat.on_answer n (as_object r))
        (chat_answer-IsExclusive n (as_object r)) a h
  act-IsExclusive (Action.profile_answers n r) a h = profile_answer-IsExclusive world n r a h

  -- If a channel and a direct thread are not open together, then they never are, whatever the user,
  -- the server, the socket, LiveKit and the devices do, and in whatever order.
  pub run-IsExclusive :
      (xs : List Action) (a : App) → IsExclusive a.store → IsExclusive (run world xs a).store
  unfolding run
  run-IsExclusive [] a h = h
  run-IsExclusive (x ∷ xs) a h = run-IsExclusive xs (act world x a) (act-IsExclusive x a h)
