-- ===== src/Voice/Abandoned.antt =====
-- Joining a channel again after the server gave no token for one.
use voxter.Common.{ℕ, ◌≡◌, ◌≢◌, refl, ◌∙◌, String, false, List, [], ◌∷◌, some, arith, string_dec}
use voxter.Api.{Answer, failed}
use voxter.Variant.{Value}
use voxter.Voice.{Voice, Pending, token, joining, abandoning}
use voxter.Voice.Media.{set_error}
use voxter.Voice.Session.{join_voice, enter_channel, on_token}
use voxter.Voice.Run.{answers, joins, answer, on_answer, resume, step, run}
use voxter.Voice.Calls.{on_answer-some}

module _ (to_lower : String → String) where
  -- a voice part that has given up joining a channel
  abbrev gave_up : String → String → List Pending → Voice → Voice
  gave_up guild error rest v = record v {
    view = record v.view { joining_channel_id = ""; error = error };
    pending = abandoning guild ∷ rest;
  }

  abandoned :
      (n : ℕ) (guild c error : String) (v : Voice) (rest : List Pending)
      → answer to_lower n v.pending ≡ some (token guild c, rest)
      → on_answer to_lower n (failed error) v ≡ gave_up guild error rest v
  unfolding resume on_token set_error
  abandoned n guild c error v rest e = on_answer-some to_lower n (failed error) v e ∙ refl

  -- and one that has then begun to join another
  abbrev joins_next : String → String → String → List Pending → Voice → Voice
  joins_next guild d error rest v = record v {
    view = record v.view { joining_channel_id = d; error = error };
    pending = joining v.store.current_guild_id d ∷ abandoning guild ∷ rest;
  }

  joined_next :
      (guild d error : String) (rest : List Pending) (v : Voice)
      → v.view.leave_in_progress ≡ false
      → v.view.connected ≡ false
      → v.store.current_guild_id ≢ ""
      → d ≢ ""
      → join_voice d (gave_up guild error rest v) ≡ joins_next guild d error rest v
  unfolding join_voice enter_channel string_dec
  joined_next guild d error rest v free apart some_guild some_id = ground arith

  -- If the server gives no token for a channel, and the user, who is in no channel and not about to
  -- leave one, then joins a channel, the call that takes the user out of the first channel is still
  -- in flight beside the call that puts the user into the second. Nothing waits for its answer:
  -- whatever the server answers, only the call itself is gone, and the client goes on joining.
  pub abandoned_leave_overlaps :
      (n : ℕ) (guild c d error : String) (a : Answer Value) (v : Voice) (rest : List Pending)
      → answer to_lower n v.pending ≡ some (token guild c, rest)
      → v.view.leave_in_progress ≡ false
      → v.view.connected ≡ false
      → v.store.current_guild_id ≢ ""
      → d ≢ ""
      → let w = run to_lower (answers n (failed error) ∷ joins d ∷ []) v in
        (w.pending ≡ joining v.store.current_guild_id d ∷ abandoning guild ∷ rest)
        × (w.view.joining_channel_id ≡ d)
        × (run to_lower (answers 1 a ∷ []) w
            ≡ record w { pending = joining v.store.current_guild_id d ∷ rest })
  unfolding run step answer on_answer resume
  abandoned_leave_overlaps n guild c d error a v rest e free apart some_guild some_id =
      rw (abandoned n guild c error v rest e)
        (rw (joined_next guild d error rest v free apart some_guild some_id) (refl, refl, refl))
