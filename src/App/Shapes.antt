-- ===== src/App/Shapes.antt =====
-- The messages that the client shows are maps: what the guilds, the account and the profile leave
-- alone, and the server's answers.
pub mod Run
use voxter.Common.{
  ℕ, ◌≡◌, refl, ap, ◌∙◌, sym, subst, inl, inr, String, Bool, true, false, List, [], ◌∷◌, arith, All,
  ◌==◌, if◌then◌else◌, Option-cases,
}
use voxter.Variant.{Value, Fields}
use voxter.Api.{ApiCall, Answer, ok, failed}
use voxter.Store.{
  AppStore, set_current_user, set_authenticated, set_guilds, set_channels, set_dm_threads,
  set_guild_members, set_current_guild_id, set_current_channel_id, set_current_dm_thread_id,
  clear_session,
}
use voxter.Auth
use voxter.Auth.{Auth, on_signed_in, on_restored, apply_auth_response}
use voxter.Guild
use voxter.Guild.{
  load_guilds, load_dm_threads, on_guilds, select_guild, load_channels, load_guild_members,
  on_channels, choose_channel, on_guild_made, on_channel_made, on_dm_made, on_invite, on_members,
  on_preview, on_dm_threads,
}
use voxter.Guild.Channels.{store-send_previews}
use voxter.Chat.{load_channel_messages}
use voxter.Chat.Shapes.{IsMap, ShowsMaps}
use voxter.Profile
use voxter.Profile.{Profile, on_saved}
use voxter.Voice.Place.{Elsewhere, elsewhere, elsewhere-set_for_channel}
use voxter.App.{App, with_auth, with_guild, with_chat, with_profile, take_nth, on_session_ready}
use voxter.App.Run.{
  World, resume_auth, on_auth_answer, on_guild_answer, on_profile_answer, as_object, ready_if_ok,
}

-- the same messages, so maps again
pub by_messages : {k l : List Value} → k ≡ l → All IsMap l → All IsMap k
by_messages e h = subst (All IsMap) (sym e) h

pub messages-elsewhere : (s t : AppStore) → elsewhere s ≡ elsewhere t → s.messages ≡ t.messages
unfolding elsewhere
messages-elsewhere s t e = ap (λ (x : Elsewhere). x.messages) e

-- The guilds.

abbrev pub Spares : (Guild.Guild → Guild.Guild) → Type 0
Spares f = (g : Guild.Guild) → (f g).store.messages ≡ g.store.messages

pub select_guild-Spares : (id : String) → Spares (select_guild id)
unfolding select_guild load_channels load_guild_members set_current_guild_id
select_guild-Spares id g = ground arith

on_guilds-Spares : (a : Answer (List Value)) → Spares (on_guilds a)
unfolding on_guilds set_guilds Guild.set_error load_channels load_guild_members
on_guilds-Spares (failed e) g = refl
on_guilds-Spares (ok []) g = ground arith
on_guilds-Spares (ok (v ∷ l)) g = ground (
  arith,
  select_guild-Spares (Guild.first_id (v ∷ l))
      (record g { busy = false; store = set_guilds (v ∷ l) g.store }),
)

on_channels-Spares : (a : Answer (List Value)) → Spares (on_channels a)
unfolding on_channels choose_channel set_current_channel_id set_current_dm_thread_id set_channels
    Guild.set_error
on_channels-Spares (failed e) g = refl
on_channels-Spares (ok l) g =
    ground (arith, store-send_previews l (record g { store = set_channels l g.store }))

on_preview-Spares : (c : String) (a : Answer (List Value)) → Spares (on_preview c a)
unfolding on_preview
on_preview-Spares c (failed e) g = refl
on_preview-Spares c (ok l) g = messages-elsewhere _ g.store (elsewhere-set_for_channel c l g.store)

pub guild_resume-Spares : (k : Guild.Handler) (a : Answer Value) → Spares (Guild.resume k a)
unfolding Guild.resume on_guild_made on_channel_made on_dm_made on_invite on_members on_dm_threads
    load_guilds load_dm_threads load_channels set_dm_threads set_guild_members Guild.set_error
guild_resume-Spares Guild.guilds a g = on_guilds-Spares _ g
guild_resume-Spares Guild.guild_made (ok v) g = refl
guild_resume-Spares Guild.guild_made (failed e) g = refl
guild_resume-Spares Guild.channel_made (ok v) g = ground arith
guild_resume-Spares Guild.channel_made (failed e) g = refl
guild_resume-Spares Guild.invite (ok v) g = refl
guild_resume-Spares Guild.invite (failed e) g = refl
guild_resume-Spares Guild.invite_joined (ok v) g = refl
guild_resume-Spares Guild.invite_joined (failed e) g = refl
guild_resume-Spares Guild.dm_threads (ok v) g = refl
guild_resume-Spares Guild.dm_threads (failed e) g = refl
guild_resume-Spares Guild.dm_made (ok v) g = refl
guild_resume-Spares Guild.dm_made (failed e) g = refl
guild_resume-Spares Guild.channels a g = on_channels-Spares _ g
guild_resume-Spares Guild.members (ok v) g = refl
guild_resume-Spares Guild.members (failed e) g = refl
guild_resume-Spares (Guild.preview c) a g = on_preview-Spares c _ g

pub messages-with_guild :
    (f : Guild.Guild → Guild.Guild)
    → Spares f
    → (a : App) → (with_guild f a).store.messages ≡ a.store.messages
unfolding with_guild with_chat load_channel_messages
messages-with_guild f k a =
    ground (arith, k (record a.guild { store = a.store; gateway = a.gateway }))

pub messages-session_ready : (a : App) → (on_session_ready a).store.messages ≡ a.store.messages
unfolding on_session_ready load_guilds load_dm_threads
messages-session_ready a =
    messages-with_guild load_dm_threads (λ g. refl) (with_guild load_guilds a)
    ∙ messages-with_guild load_guilds (λ g. refl) a

-- The account: a session that is not restored leaves no messages.

authenticated-messages :
    (world : World) (r : Fields) (u : Auth)
    → (apply_auth_response world.codec r u).store.messages ≡ u.store.messages
unfolding apply_auth_response set_authenticated set_current_user
authenticated-messages world r u = ground arith

on_restored-ShowsMaps :
    (world : World) (a : Answer Fields) (u : Auth)
    → ShowsMaps u.store
    → ShowsMaps (on_restored world.codec a u).store
unfolding on_restored Auth.set_error clear_session
on_restored-ShowsMaps world (failed e) u h = tt
on_restored-ShowsMaps world (ok r) u h =
    by_messages (authenticated-messages world r (record u { busy = false })) h

on_signed_in-ShowsMaps :
    (world : World) (a : Answer Fields) (u : Auth)
    → ShowsMaps u.store
    → ShowsMaps (on_signed_in world.codec a u).store
unfolding on_signed_in Auth.set_error
on_signed_in-ShowsMaps world (failed e) u h = h
on_signed_in-ShowsMaps world (ok r) u h =
    by_messages (authenticated-messages world r (record u { busy = false })) h

on_presence-ShowsMaps :
    (r : Answer Fields) (u : Auth) → ShowsMaps u.store → ShowsMaps (Auth.on_presence r u).store
unfolding Auth.on_presence set_current_user
on_presence-ShowsMaps (ok r) u h = by_messages (ground arith) h
on_presence-ShowsMaps (failed e) u h = h

ready-ShowsMaps :
    (r : Answer Fields) (a : App) → ShowsMaps a.store → ShowsMaps (ready_if_ok r a).store
ready-ShowsMaps (ok _) a h = by_messages (messages-session_ready a) h
ready-ShowsMaps (failed _) a h = h

-- The answers.

module _ (world : World) where
  resume_auth-ShowsMaps :
      (k : Auth.Handler) (r : Answer Fields) (rest : List (ApiCall × Auth.Handler)) (a : App)
      → ShowsMaps a.store
      → ShowsMaps (resume_auth world k r rest a).store
  unfolding resume_auth with_auth
  resume_auth-ShowsMaps Auth.Handler.restoring r rest a h =
      ready-ShowsMaps r _ (on_restored-ShowsMaps world r _ h)
  resume_auth-ShowsMaps Auth.Handler.signing_in r rest a h =
      ready-ShowsMaps r _ (on_signed_in-ShowsMaps world r _ h)
  resume_auth-ShowsMaps Auth.Handler.presence r rest a h = on_presence-ShowsMaps r _ h

  pub auth_answer-ShowsMaps :
      (n : ℕ) (r : Answer Value) (a : App)
      → ShowsMaps a.store
      → ShowsMaps (on_auth_answer world n r a).store
  unfolding on_auth_answer
  auth_answer-ShowsMaps n r a h = elim (Option-cases (take_nth n a.auth.pending)) [
    | inl e ↦ rw (e, on_auth_answer) h
    | inr (((c, k), rest), e) ↦
        rw (e, on_auth_answer) (resume_auth-ShowsMaps k (as_object r) rest a h)
  ]

  pub messages-guild_answer :
      (n : ℕ) (r : Answer Value) (a : App)
      → (on_guild_answer world n r a).store.messages ≡ a.store.messages
  unfolding on_guild_answer
  messages-guild_answer n r a = elim (Option-cases (take_nth n a.guild.pending)) [
    | inl e ↦ rw (e, on_guild_answer) refl
    | inr (((c, k), rest), e) ↦
        rw (e, on_guild_answer)
          (messages-with_guild (λ g. Guild.resume k r (record g { pending = rest }))
            (λ g. guild_resume-Spares k r (record g { pending = rest })) a)
  ]

  on_saved-messages :
      (r : Answer Fields) (p : Profile) → (on_saved r p).store.messages ≡ p.store.messages
  unfolding on_saved Profile.set_error Profile.set_busy set_current_user
  on_saved-messages (ok r) p = ground arith
  on_saved-messages (failed e) p = ground arith

  pub messages-profile_answer :
      (n : ℕ) (r : Answer Value) (a : App)
      → (on_profile_answer world n r a).store.messages ≡ a.store.messages
  unfolding with_profile on_profile_answer
  messages-profile_answer n r a = elim (Option-cases (take_nth n a.profile.pending)) [
    | inl e ↦ rw (e, on_profile_answer) refl
    | inr ((c, rest), e) ↦
        rw (e, on_profile_answer)
          (on_saved-messages (as_object r) (record a.profile { store = a.store; pending = rest }))
  ]
