-- ===== src/Profile.antt =====
-- client/src/viewmodels/ProfileViewModel: saving the user's display name. `trimmed` is
-- QString::trimmed. `saves` counts how often the signal saved was emitted.
use voxter.Common.{ℕ, ◌+◌, String, Bool, true, false, List, ◌∷◌, ◌==◌, if◌then◌else◌}
use voxter.Variant.{Fields}
use voxter.Api.{ApiCall, Answer, ok, failed}
use voxter.Store.{AppStore, set_current_user}

pub record Profile : Type 0 where
  pub store : AppStore
  pub busy : Bool
  pub error : String
  pub saves : ℕ
  pub pending : List ApiCall

unfoldable pub set_error : String → Profile → Profile
set_error e p = if p.error == e then p else record p { error = e }

unfoldable pub set_busy : Bool → Profile → Profile
set_busy b p = record p { busy = b }

unfoldable pub on_saved : Answer Fields → Profile → Profile
unfolding set_error set_busy
on_saved (failed e) p = set_error e (set_busy false p)
on_saved (ok response) p =
    let idle = set_busy false p in
    let shown = set_error "" (record idle { store = set_current_user response idle.store }) in
    record shown { saves = shown.saves + 1 }

unfoldable pub save_profile : (String → String) → String → Profile → Profile
unfolding set_error set_busy
save_profile trimmed name p =
    let asked = set_busy true (set_error "" p) in
    record asked { pending = ApiCall.update_profile (trimmed name) ∷ asked.pending }
