-- ===== src/Voice/Answered.antt =====
-- The answers of the server and the flags that count the calls in flight.
use voxter.Common.{
  ℕ, refl, sym, ap, ◌∙◌, inl, inr, String, Bool, true, false, List, ◌∷◌, arith, if◌then◌else◌,
  Option-cases,
}
use voxter.Api.{Answer, ok, failed}
use voxter.Variant.{Value, Fields, value, json_string}
use voxter.Voice.{
  Voice, Pending, switching, joining, token, abandoning, leaving, muting, deafening, fetching,
}
use voxter.Voice.Media.{set_error, set_session_context, set_sfu_connection}
use voxter.Voice.Bridge.{set_active_channel_id}
use voxter.Voice.Fetch.{
  load_participants, refresh_channel_participants, land, store_participants, on_fetched, hash_value,
}
use voxter.Voice.Session.{
  on_switched, on_joined, open_line, on_token, on_left, on_mute_toggled, on_deafen_toggled,
}
use voxter.Voice.Core.{core}
use voxter.Voice.Machine.{core-set_view_muted, core-set_view_deafened}
use voxter.Voice.Privacy.{Jobs, jobs, jobs-mute_view, jobs-deafen_view}
use voxter.Voice.Run.{resume, answer, on_answer, as_object, as_array}
use voxter.Voice.Calls.{
  calls, enters, awaited_leaves, fetches, calls-answer, on_answer-none, on_answer-some, Counted,
  jobs_of, contains-set_remove, Exact, fetch-Exact, refresh-Exact, join_voice-Exact, by_jobs,
  forget_channel-Exact,
}
use voxter.Voice.Untouched.{jobs-tear_down, jobs-start, jobs-told}

-- The state with one more call in flight.
abbrev with_call : Pending → Voice → Jobs
with_call p v = record (jobs_of v) { pending = p ∷ v.pending }

abbrev stop_joining : Jobs → Jobs
stop_joining j = record j { joining_channel_id = "" }

module _ (channel : String) where
  -- Each callback, with its own call counted before and no longer after.
  on_switched-Exact :
      (guild c previous : String) (a : Answer Fields) (v : Voice)
      → Counted channel (with_call (switching guild c previous) v)
      → Exact channel (on_switched c previous a v)
  unfolding on_switched set_error calls
  on_switched-Exact guild c previous (failed e) v h = ground arith
  on_switched-Exact guild c previous (ok _) v h =
      join_voice-Exact channel c _ (
        forget_channel-Exact channel previous _ (by_jobs channel (jobs-tear_down _) (ground arith)))

  on_joined-Exact :
      (guild c : String) (a : Answer Fields) (v : Voice)
      → Counted channel (with_call (joining guild c) v)
      → Exact channel (on_joined guild c a v)
  unfolding on_joined set_error calls
  on_joined-Exact guild c (failed e) v h = ground arith
  on_joined-Exact guild c (ok _) v h = ground arith

  open_line-Exact :
      (guild c url sfu_token : String) (v : Voice)
      → Counted channel (with_call (token guild c) v)
      → Exact channel (open_line guild c url sfu_token v)
  unfolding open_line set_session_context set_sfu_connection set_active_channel_id load_participants
      set_error calls
  open_line-Exact guild c url sfu_token v h =
      fetch-Exact channel _ true _ (by_jobs channel (jobs-start _ ∙ jobs-told _) (ground arith))

  on_token-Exact :
      (guild c : String) (a : Answer Fields) (v : Voice)
      → Counted channel (with_call (token guild c) v)
      → Exact channel (on_token guild c a v)
  unfolding on_token set_error calls
  on_token-Exact guild c (failed e) v h = ground arith
  on_token-Exact guild c (ok payload) v h = ground (
    arith,
    open_line-Exact guild c (json_string (value payload "url"))
        (json_string (value payload "token")) v h,
  )

  on_left-Exact :
      (guild c : String) (a : Answer Fields) (v : Voice)
      → Counted channel (with_call (leaving guild c) v)
      → Exact channel (on_left c a v)
  unfolding on_left set_error calls
  on_left-Exact guild c (failed e) v h = ground arith
  on_left-Exact guild c (ok _) v h =
      forget_channel-Exact channel c _
        (by_jobs channel (ap stop_joining (jobs-tear_down _)) (ground arith))

  toggled-Exact :
      (muted deafened : Bool) (a : Answer Fields) (v : Voice)
      → Exact channel v
      → Exact channel (on_mute_toggled muted a v) × Exact channel (on_deafen_toggled deafened a v)
  unfolding on_mute_toggled on_deafen_toggled set_error
  toggled-Exact muted deafened (failed e) v h = (ground arith, ground arith)
  toggled-Exact muted deafened (ok _) v h = (
    by_jobs channel (ap jobs (core-set_view_muted muted v) ∙ jobs-mute_view muted (core v)) h,
    by_jobs channel
        (ap jobs (core-set_view_deafened deafened v) ∙ jobs-deafen_view deafened (core v)) h,
  )

  refresh_if-Exact :
      (force : Bool) (c : String) (v : Voice)
      → Exact channel v
      → Exact channel (if force then refresh_channel_participants c true v else v)
  refresh_if-Exact true c v h = refresh-Exact channel c true v h
  refresh_if-Exact false c v h = h

  land-Exact :
      (c : String) (sync : Bool) (v : Voice)
      → Counted channel (with_call (fetching c sync) v)
      → Exact channel (land c v)
  unfolding land calls
  land-Exact c sync v h =
      ground (arith, contains-set_remove c channel v.view.participant_fetch_in_flight)

  on_fetched-Exact :
      (to_lower : String → String) (c : String) (sync : Bool) (a : Answer (List Value)) (v : Voice)
      → Counted channel (with_call (fetching c sync) v)
      → Exact channel (on_fetched to_lower c sync a v)
  unfolding on_fetched set_error store_participants
  on_fetched-Exact to_lower c sync (ok participants) v h =
      refresh_if-Exact _ c _ (by_jobs channel refl (land-Exact c sync v h))
  on_fetched-Exact to_lower c sync (failed e) v h =
      let landed = land-Exact c sync v h in
      let forced = hash_value v.view.pending_participant_fetch_force c false in
      ground (
        arith,
        landed,
        refresh_if-Exact forced c (set_error e (land c v)) (by_jobs channel refl landed),
      )

  resume-Exact :
      (to_lower : String → String) (p : Pending) (a : Answer Value) (v : Voice)
      → Counted channel (with_call p v)
      → Exact channel (resume to_lower p a v)
  unfolding resume calls
  resume-Exact to_lower (switching guild c previous) a v h =
      on_switched-Exact guild c previous (as_object a) v h
  resume-Exact to_lower (joining guild c) a v h = on_joined-Exact guild c (as_object a) v h
  resume-Exact to_lower (token guild c) a v h = on_token-Exact guild c (as_object a) v h
  resume-Exact to_lower (abandoning guild) a v h = ground arith
  resume-Exact to_lower (leaving guild c) a v h = on_left-Exact guild c (as_object a) v h
  resume-Exact to_lower (muting guild m d) a v h =
      (toggled-Exact m d (as_object a) v (ground arith)).0
  resume-Exact to_lower (deafening guild m d) a v h =
      (toggled-Exact m d (as_object a) v (ground arith)).1
  resume-Exact to_lower (fetching c sync) a v h = on_fetched-Exact to_lower c sync (as_array a) v h

  pub on_answer-Exact :
      (to_lower : String → String) (n : ℕ) (a : Answer Value) (v : Voice)
      → Exact channel v
      → Exact channel (on_answer to_lower n a v)
  unfolding on_answer
  on_answer-Exact to_lower n a v h = elim (Option-cases (answer to_lower n v.pending)) [
    | inl e ↦ by_jobs channel (ap jobs_of (on_answer-none to_lower n a v e)) h
    | inr ((p, rest), e) ↦ by_jobs channel (ap jobs_of (on_answer-some to_lower n a v e)) (
        resume-Exact to_lower p a (record v { pending = rest })
          (record {
            leave = sym (calls-answer to_lower awaited_leaves n v.pending e) ∙ h.leave;
            enter = sym (calls-answer to_lower enters n v.pending e) ∙ h.enter;
            apart = h.apart;
            fetch = sym (calls-answer to_lower (fetches channel) n v.pending e) ∙ h.fetch;
          }))
  ]
