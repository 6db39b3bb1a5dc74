-- ===== src/Voice/Traffic.antt =====
-- The calls in flight that move the user, and those for the participants of each channel.
use voxter.Common.{
  ℕ, ◌+◌, ◌≤◌, ◌≡◌, ap, ◌∙◌, String, false, [], is_empty, arith, if◌then◌else◌, List,
}
use voxter.Store.{AppStore}
use voxter.Voice.{Host, AudioSettings}
use voxter.Voice.Core.{core-dispatch}
use voxter.Voice.Privacy.{Jobs, jobs, jobs-dispatch}
use voxter.Voice.Effects.{core-recompute, core-request_audio_devices}
use voxter.Voice.Boot.{
  SavedSettings, new_voice, set_up, restore_audio_settings, new_engine, new_view_model,
}
use voxter.Voice.Calls.{
  calls, enters, leaves, abandons, calls-leaves, fetches, Counted, jobs_of, Exact, by_jobs,
}
use voxter.Voice.Run.{Input, run}
use voxter.Voice.Exclusion.{run-Exact}

abbrev idle : Jobs
idle = record {
  joining_channel_id = "";
  leave_in_progress = false;
  participant_fetch_in_flight = [];
  pending = [];
}

idle-Counted : (channel : String) → Counted channel idle
unfolding calls
idle-Counted channel = ground arith

jobs-new_voice :
    (host : Host) (store : AppStore) (saved : AudioSettings)
    → jobs_of (new_voice host store saved) ≡ idle
unfolding new_voice new_engine new_view_model
jobs-new_voice host store saved = ap jobs (core-recompute _)

module _ (to_lower clean : String → String) (size : String → ℕ) where
  boot-Exact :
      (channel : String) (host : Host) (store : AppStore) (saved : AudioSettings)
      (s : SavedSettings)
      → Exact channel (set_up clean size s (new_voice host store saved))
  unfolding set_up restore_audio_settings
  boot-Exact channel host store saved s =
      by_jobs channel
        (ap jobs (core-dispatch _)
          ∙ jobs-dispatch _
          ∙ ap jobs (core-recompute _ ∙ core-request_audio_devices _))
        (by_jobs channel (jobs-new_voice host store saved) (idle-Counted channel))

  -- From the start of the program, whatever the user, the server, LiveKit and the devices do, there
  -- is never more than one call in flight that puts the user into a channel or takes them out of
  -- one, apart from the calls that take them back out of a channel whose token could not be had,
  -- and never more than one for the participants of a channel. A call that puts the user into a
  -- channel is in flight exactly while a channel is being joined, and, apart from the same calls,
  -- one that takes them out exactly while leaving is in progress.
  pub calls_exclude_each_other :
      (host : Host) (store : AppStore) (saved : AudioSettings) (s : SavedSettings) (is : List Input)
      (channel : String)
      → let v = run to_lower is (set_up clean size s (new_voice host store saved)) in
        (calls enters v.pending + calls leaves v.pending ≤ 1 + calls abandons v.pending)
        × (calls (fetches channel) v.pending ≤ 1)
        × (calls enters v.pending ≡ (if is_empty v.view.joining_channel_id then 0 else 1))
        × (calls leaves v.pending
            ≡ (if v.view.leave_in_progress then 1 else 0) + calls abandons v.pending)
  calls_exclude_each_other host store saved s is channel =
      let v = run to_lower is (set_up clean size s (new_voice host store saved)) in
      let h = run-Exact channel to_lower is _ (boot-Exact channel host store saved s) in
      let split = calls-leaves v.pending in
      (ground (arith, split), ground arith, h.enter, omega (arith, split, h.leave))
