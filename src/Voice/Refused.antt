-- ===== src/Voice/Refused.antt =====
-- A call for the participants of a channel that the server refuses because there were too many, and
-- the 900 ms timer behind it.
use voxter.Common.{
  ℕ, ◌≡◌, ◌≢◌, refl, ◌∙◌, String, Bool, true, List, [], ◌∷◌, some, arith, ◌==◌, contains,
}
use voxter.Api.{failed}
use voxter.Api.Errors.{is_too_many_requests_error}
use voxter.Voice.{Voice, Pending, fetching}
use voxter.Voice.Fetch.{without_timer, land, on_fetched, on_retry_timer}
use voxter.Voice.Fetch.Hashes.{contains-set_remove}
use voxter.Voice.Fetch.Merging.{forced-Fetches}
use voxter.Voice.Run.{answers, retry_timer, answer, on_answer, resume, step, run}
use voxter.Voice.Calls.{on_answer-some}

module _ (to_lower : String → String) where
  -- a voice part that waits for the timer
  abbrev waiting : String → List Pending → Voice → Voice
  waiting c rest v =
      let landed = land c (record v { pending = rest }) in
      record landed { retry_timers = c ∷ landed.retry_timers }

  refused :
      (n : ℕ) (c error : String) (sync : Bool) (v : Voice) (rest : List Pending)
      → answer to_lower n v.pending ≡ some (fetching c sync, rest)
      → is_too_many_requests_error to_lower error ≡ true
      → on_answer to_lower n (failed error) v ≡ waiting c rest v
  unfolding resume on_fetched
  refused n c error sync v rest e h =
      on_answer-some to_lower n (failed error) v e ∙ ground (arith, h)

  -- Where the server answers a call for a channel's participants with a message that says there were
  -- too many, the call is gone, the store and the error that is shown stay as they were, and a timer
  -- is left. When it fires next, the call is sent again at once, whatever the time since the last
  -- one.
  pub refused_asked_again :
      (n : ℕ) (c error : String) (sync : Bool) (v : Voice) (rest : List Pending)
      → answer to_lower n v.pending ≡ some (fetching c sync, rest)
      → is_too_many_requests_error to_lower error ≡ true
      → c ≢ ""
      → let w = run to_lower (answers n (failed error) ∷ []) v in
        let u = run to_lower (answers n (failed error) ∷ retry_timer c ∷ []) v in
        (w.pending ≡ rest)
        × (w.retry_timers ≡ c ∷ v.retry_timers)
        × (w.store ≡ v.store)
        × (w.view.error ≡ v.view.error)
        × (u.pending ≡ fetching c (c == v.view.active_channel_id) ∷ rest)
        × (contains u.view.participant_fetch_in_flight c ≡ true)
        × (u.store ≡ v.store)
        × (u.view.error ≡ v.view.error)
  unfolding run step on_retry_timer land
  refused_asked_again n c error sync v rest e h some_id =
      let gone = contains-set_remove c v.view.participant_fetch_in_flight in
      let w = waiting c rest v in
      let k =
        forced-Fetches c (record w { retry_timers = without_timer c w.retry_timers }) some_id
          gone in
      rw (refused n c error sync v rest e h)
        (refl, refl, refl, refl, k.asked, k.in_flight, k.same_store, k.same_error)
