-- ===== src/App/Place/Answers.antt =====
-- The answers of the server keep a channel and a direct thread apart.
use voxter.Common.{ℕ, refl, inl, inr, false, List, arith, Option-cases}
use voxter.Variant.{Value, Fields}
use voxter.Api.{ApiCall, Answer, ok, failed}
use voxter.Store.{set_current_user, clear_session}
use voxter.Auth
use voxter.Auth.{
  Auth, on_signed_in, on_restored, apply_auth_response, logout, bootstrap_session, login,
  register_user,
}
use voxter.Guild
use voxter.Profile.{Profile, save_profile, on_saved}
use voxter.Profile
use voxter.App.{App, with_profile, take_nth}
use voxter.App.Run.{
  World, resume_auth, on_auth_answer, on_guild_answer, on_profile_answer, as_object, ready_if_ok,
}
use voxter.App.Place.{IsExclusive, guild_resume-IsExclusive}
use voxter.App.Place.Exclusive.{
  authenticated-IsExclusive, with_guild-IsExclusive, with_auth-IsExclusive,
  session_ready-IsExclusive,
}

-- The answers.

restored-IsExclusive :
    (world : World) (a : Answer Fields) (u : Auth)
    → IsExclusive u.store
    → IsExclusive (on_restored world.codec a u).store
      × IsExclusive (on_signed_in world.codec a u).store
unfolding on_restored on_signed_in Auth.set_error clear_session
restored-IsExclusive world (failed e) u h = (inl refl, h)
restored-IsExclusive world (ok r) u h = (
  authenticated-IsExclusive r world (record u { busy = false }) h,
  authenticated-IsExclusive r world (record u { busy = false }) h,
)

ready-IsExclusive :
    (r : Answer Fields) (a : App) → IsExclusive a.store → IsExclusive (ready_if_ok r a).store
ready-IsExclusive (ok _) a h = session_ready-IsExclusive a h
ready-IsExclusive (failed _) a h = h

presence-IsExclusive :
    (r : Answer Fields) (u : Auth) → IsExclusive u.store → IsExclusive (Auth.on_presence r u).store
unfolding Auth.on_presence set_current_user
presence-IsExclusive (ok r) u h = ground (arith, h)
presence-IsExclusive (failed e) u h = h

module _ (world : World) where
  resume_auth-IsExclusive :
      (k : Auth.Handler) (r : Answer Fields) (rest : List (ApiCall × Auth.Handler)) (a : App)
      → IsExclusive a.store
      → IsExclusive (resume_auth world k r rest a).store
  unfolding resume_auth
  resume_auth-IsExclusive Auth.Handler.restoring r rest a h = ready-IsExclusive r _ (
      with_auth-IsExclusive (λ u. on_restored world.codec r (record u { pending = rest }))
        (λ u e. (restored-IsExclusive world r (record u { pending = rest }) e).0) a h)
  resume_auth-IsExclusive Auth.Handler.signing_in r rest a h = ready-IsExclusive r _ (
      with_auth-IsExclusive (λ u. on_signed_in world.codec r (record u { pending = rest }))
        (λ u e. (restored-IsExclusive world r (record u { pending = rest }) e).1) a h)
  resume_auth-IsExclusive Auth.Handler.presence r rest a h =
      with_auth-IsExclusive (λ u. Auth.on_presence r (record u { pending = rest }))
        (λ u e. presence-IsExclusive r (record u { pending = rest }) e) a h

  pub auth_answer-IsExclusive :
      (n : ℕ) (r : Answer Value) (a : App)
      → IsExclusive a.store
      → IsExclusive (on_auth_answer world n r a).store
  unfolding on_auth_answer
  auth_answer-IsExclusive n r a h = elim (Option-cases (take_nth n a.auth.pending)) [
    | inl e ↦ rw (e, on_auth_answer) h
    | inr (((c, k), rest), e) ↦
        rw (e, on_auth_answer) (resume_auth-IsExclusive k (as_object r) rest a h)
  ]

  pub guild_answer-IsExclusive :
      (n : ℕ) (r : Answer Value) (a : App)
      → IsExclusive a.store
      → IsExclusive (on_guild_answer world n r a).store
  unfolding on_guild_answer
  guild_answer-IsExclusive n r a h = elim (Option-cases (take_nth n a.guild.pending)) [
    | inl e ↦ rw (e, on_guild_answer) h
    | inr (((c, k), rest), e) ↦
        rw (e, on_guild_answer)
          (with_guild-IsExclusive (λ g. Guild.resume k r (record g { pending = rest }))
            (λ g x. guild_resume-IsExclusive k r (record g { pending = rest }) x) a h)
  ]

  on_saved-IsExclusive :
      (r : Answer Fields) (p : Profile) → IsExclusive p.store → IsExclusive (on_saved r p).store
  unfolding on_saved Profile.set_error Profile.set_busy set_current_user
  on_saved-IsExclusive (ok r) p h = ground (arith, h)
  on_saved-IsExclusive (failed e) p h = ground (arith, h)

  pub profile_answer-IsExclusive :
      (n : ℕ) (r : Answer Value) (a : App)
      → IsExclusive a.store
      → IsExclusive (on_profile_answer world n r a).store
  unfolding with_profile on_profile_answer
  profile_answer-IsExclusive n r a h = elim (Option-cases (take_nth n a.profile.pending)) [
    | inl e ↦ rw (e, on_profile_answer) h
    | inr ((c, rest), e) ↦
        rw (e, on_profile_answer)
          (on_saved-IsExclusive (as_object r) (record a.profile { store = a.store; pending = rest })
            h)
  ]
