-- ===== src/Voice/Exclusion.antt =====
-- The calls of the voice part exclude each other: whatever happens, the flags count them.
use voxter.Common.{
  ℕ, refl, ap, ◌∙◌, String, Bool, true, false, ◌&&◌, List, [], ◌∷◌, arith, ◌==◌, if◌then◌else◌,
}
use voxter.Variant.{Fields, value, json_bool, insert, end, boolean}
use voxter.Store.Participants.{update_voice_participant_state}
use voxter.Voice.{Voice, on_store}
use voxter.Voice.Fetch.{refresh_channel_participants, on_retry_timer}
use voxter.Voice.Session.{leave_voice, toggle_mute, toggle_deafen}
use voxter.Voice.Events.{
  handle_gateway_event, on_speaking_update, on_voice_state_update, on_self_leave, text_of, is_self,
  apply_voice_state,
}
use voxter.Voice.Devices.{normalize_activation_mode}
use voxter.Voice.Connection.{Report, report}
use voxter.Voice.Core.{core}
use voxter.Voice.Machine.{core-set_ptt_pressed}
use voxter.Voice.Privacy.{jobs, jobs-press_ptt}
use voxter.Voice.Effects
use voxter.Voice.Run.{
  Input, step, run, host_changes, store_changes, livekit_reports, retry_timer, audio_inputs_change,
  audio_outputs_change, gateway_event, answers, joins, leaves, toggles_mute, toggles_deafen,
  asks_for_devices, refreshes, presses_ptt, chooses_input, chooses_output, chooses_mode,
  chooses_volume, microphone_ready,
}
use voxter.Voice.Calls.{calls, Exact, refresh-Exact, join_voice-Exact, by_jobs}
use voxter.Voice.Untouched.{jobs-on_self_leave, jobs-report, jobs-show_active, jobs-bridge}
use voxter.Voice.Answered.{on_answer-Exact}

module _ (channel : String) where
  toggles-Exact :
      (v : Voice)
      → Exact channel v
      → Exact channel (toggle_mute v) × Exact channel (toggle_deafen v)
  unfolding toggle_mute toggle_deafen calls
  toggles-Exact v h = (ground arith, ground arith)

  leave_voice-Exact : (v : Voice) → Exact channel v → Exact channel (leave_voice v)
  unfolding leave_voice calls
  leave_voice-Exact v h = ground arith

  speaking-Exact :
      (payload : Fields) (v : Voice)
      → Exact channel v
      → Exact channel (on_speaking_update payload v)
  unfolding on_speaking_update
  speaking-Exact payload v h =
      let c = text_of payload "channelId" in
      let patch = insert "speaking" (boolean (json_bool (value payload "speaking"))) end in
      let marked =
        on_store (update_voice_participant_state c (text_of payload "userId") patch false) v in
      ground (arith, by_jobs channel (jobs-show_active c marked) h)

  settled-Exact :
      (b : Bool) (v : Voice) → Exact channel v → Exact channel (if b then on_self_leave v else v)
  settled-Exact true v h = by_jobs channel (jobs-on_self_leave v) h
  settled-Exact false v h = h

  state_update-Exact :
      (payload : Fields) (v : Voice)
      → Exact channel v
      → Exact channel (on_voice_state_update payload v)
  unfolding on_voice_state_update
  state_update-Exact payload v h =
      let c = text_of payload "channelId" in
      let self = is_self payload v.store in
      let applied = on_store (apply_voice_state payload) v in
      let settled =
        if self && text_of payload "action" == "leave" then on_self_leave applied else applied in
      let kept = refresh-Exact channel c self settled (settled-Exact _ applied h) in
      ground (
        arith,
        by_jobs channel (jobs-show_active c (refresh_channel_participants c self settled)) kept,
      )

  event-Exact :
      (event : String) (payload : Fields) (v : Voice)
      → Exact channel v
      → Exact channel (handle_gateway_event event payload v)
  unfolding handle_gateway_event
  event-Exact event payload v h =
      ground (arith, speaking-Exact payload v h, state_update-Exact payload v h)

  report-Exact : (n : ℕ) (r : Report) (v : Voice) → Exact channel v → Exact channel (report n r v)
  report-Exact n r v h = by_jobs channel (jobs-report n r v) h

  step-Exact :
      (to_lower : String → String) (i : Input) (v : Voice)
      → Exact channel v
      → Exact channel (step to_lower i v)
  unfolding step on_retry_timer
  step-Exact to_lower (host_changes e) v h = h
  step-Exact to_lower (store_changes s) v h = h
  step-Exact to_lower (livekit_reports n r) v h = report-Exact n r v h
  step-Exact to_lower (retry_timer c) v h = refresh-Exact channel c true _ (by_jobs channel refl h)
  step-Exact to_lower audio_inputs_change v h =
      by_jobs channel (ap jobs (Effects.core-on_audio_inputs_changed v)) h
  step-Exact to_lower audio_outputs_change v h =
      by_jobs channel (ap jobs (Effects.core-on_audio_outputs_changed v)) h
  step-Exact to_lower (microphone_ready verdicts chunk) v h =
      by_jobs channel (ap jobs (Effects.core-on_input_ready_read verdicts chunk v)) h
  step-Exact to_lower (gateway_event event payload) v h = event-Exact event payload v h
  step-Exact to_lower (answers n a) v h = on_answer-Exact channel to_lower n a v h
  step-Exact to_lower (joins c) v h = join_voice-Exact channel c v h
  step-Exact to_lower leaves v h = leave_voice-Exact v h
  step-Exact to_lower toggles_mute v h = (toggles-Exact v h).0
  step-Exact to_lower toggles_deafen v h = (toggles-Exact v h).1
  step-Exact to_lower asks_for_devices v h =
      by_jobs channel (ap jobs (Effects.core-request_audio_devices v)) h
  step-Exact to_lower (refreshes c force) v h = refresh-Exact channel c force v h
  step-Exact to_lower (presses_ptt b) v h =
      by_jobs channel (ap jobs (core-set_ptt_pressed b v) ∙ jobs-press_ptt b (core v)) h
  step-Exact to_lower (chooses_input id) v h =
      by_jobs channel (jobs-bridge (core v) (Effects.core-set_selected_input_device_id id v) refl) h
  step-Exact to_lower (chooses_output id) v h =
      by_jobs channel (jobs-bridge (core v) (Effects.core-set_selected_output_device_id id v) refl)
        h
  step-Exact to_lower (chooses_mode mode) v h =
      by_jobs channel
        (jobs-bridge (Effects.choose_mode (normalize_activation_mode mode) (core v))
          (Effects.core-set_activation_mode mode v) refl)
        h
  step-Exact to_lower (chooses_volume n) v h =
      by_jobs channel (jobs-bridge (core v) (Effects.core-set_microphone_volume n v) refl) h

  pub run-Exact :
      (to_lower : String → String) (is : List Input) (v : Voice)
      → Exact channel v
      → Exact channel (run to_lower is v)
  unfolding run
  run-Exact to_lower [] v h = h
  run-Exact to_lower (i ∷ is) v h = run-Exact to_lower is _ (step-Exact to_lower i v h)
