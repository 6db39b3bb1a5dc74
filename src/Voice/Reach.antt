-- ===== src/Voice/Reach.antt =====
-- Sound leaves the client only while the user's settings allow it: whatever happens.
use voxter.Common.{
  ℕ, ◌≡◌, ◌⊎◌, inl, inr, String, Bool, true, false, ◌&&◌, List, [], ◌∷◌, none, some, arith, ◌==◌,
  if◌then◌else◌,
}
use voxter.Variant.{Value, Fields, value, json_bool, insert, end, boolean}
use voxter.Store.Participants.{update_voice_participant_state}
use voxter.Api.{Answer}
use voxter.Voice.{
  Voice, Pending, switching, joining, token, abandoning, leaving, muting, deafening, fetching,
  on_store,
}
use voxter.Voice.Fetch.{refresh_channel_participants}
use voxter.Voice.Events.{
  handle_gateway_event, on_speaking_update, on_voice_state_update, show_active, on_self_leave,
  text_of, is_self, apply_voice_state,
}
use voxter.Voice.Connection.{Report, report, accept}
use voxter.Voice.Core.{Core, core, dispatch}
use voxter.Voice.Machine.{
  core-handle_connected, core-handle_disconnected, core-set_engine_connected,
  core-on_active_speakers, core-set_ptt_pressed,
}
use voxter.Voice.Privacy.{
  Quiet, IsPrivate, dispatch-IsPrivate, press_ptt-IsPrivate, connect_engine-IsPrivate,
  stop_core-IsPrivate, connected_core-IsPrivate,
}
use voxter.Voice.Effects
use voxter.Voice.Sending.{
  Private, by_core, by_frame, on_self_leave-Private, refresh-Private, join_voice-Private,
  on_switched-Private, on_left-Private,
}
use voxter.Voice.Run.{
  Input, resume, answer, on_answer, step, run, host_changes, store_changes, livekit_reports,
  retry_timer, audio_inputs_change, audio_outputs_change, gateway_event, answers, joins, leaves,
  toggles_mute, toggles_deafen, asks_for_devices, refreshes, presses_ptt, chooses_input,
  chooses_output, chooses_mode, chooses_volume, microphone_ready, as_object, as_array,
}
use voxter.Voice.Connection.{
  connect_failed, room_ready, state_changed, connected, disconnected, reconnecting,
  room_disconnected, track_subscribed, track_unsubscribed, speakers_changed,
}
use voxter.Voice.Devices.{normalize_activation_mode}
use voxter.Voice.Replies.{
  on_token-Private, on_joined-Private, leave_voice-Private, toggle_mute-Private,
  toggle_deafen-Private, on_mute_toggled-Private, on_deafen_toggled-Private, on_retry_timer-Private,
  on_fetched-Private,
}

show_active-Private : (channel : String) (v : Voice) → Private v → Private (show_active channel v)
unfolding show_active
show_active-Private channel v h = ground arith

on_speaking_update-Private :
    (payload : Fields) (v : Voice) → Private v → Private (on_speaking_update payload v)
unfolding on_speaking_update
on_speaking_update-Private payload v h =
    let channel = text_of payload "channelId" in
    let patch = insert "speaking" (boolean (json_bool (value payload "speaking"))) end in
    ground (
      arith,
      show_active-Private channel
          (on_store (update_voice_participant_state channel (text_of payload "userId") patch false)
            v)
          h,
    )

settled-Private : (b : Bool) (v : Voice) → Private v → Private (if b then on_self_leave v else v)
settled-Private true v h = on_self_leave-Private v h
settled-Private false v h = h

on_voice_state_update-Private :
    (payload : Fields) (v : Voice) → Private v → Private (on_voice_state_update payload v)
unfolding on_voice_state_update
on_voice_state_update-Private payload v h =
    let channel = text_of payload "channelId" in
    let self = is_self payload v.store in
    let applied = on_store (apply_voice_state payload) v in
    let settled =
      if self && text_of payload "action" == "leave" then on_self_leave applied else applied in
    ground (
      arith,
      show_active-Private channel (refresh_channel_participants channel self settled)
          (refresh-Private channel self settled (settled-Private _ applied h)),
    )

event-Private :
    (event : String) (payload : Fields) (v : Voice)
    → Private v
    → Private (handle_gateway_event event payload v)
unfolding handle_gateway_event
event-Private event payload v h =
    ground
      (arith, on_speaking_update-Private payload v h, on_voice_state_update-Private payload v h)

accept-Private : (r : Report) (v : Voice) → Private v → Private (accept r v)
unfolding accept
accept-Private (connect_failed e) v h =
    by_core (core-handle_disconnected e v) (stop_core-IsPrivate (core v) h)
accept-Private room_ready v h =
    by_core (core-handle_connected _) (connected_core-IsPrivate (core v) h)
accept-Private (state_changed connected) v h =
    by_core (core-handle_connected v) (connected_core-IsPrivate (core v) h)
accept-Private (state_changed disconnected) v h =
    by_core (core-handle_disconnected _ v) (stop_core-IsPrivate (core v) h)
accept-Private (state_changed reconnecting) v h =
    by_core (core-set_engine_connected false v) (connect_engine-IsPrivate false (core v) h)
accept-Private room_disconnected v h =
    by_core (core-handle_disconnected _ v) (stop_core-IsPrivate (core v) h)
accept-Private (track_subscribed sid participant) v h =
    by_core (Effects.core-handle_track_subscribed sid participant v) h
accept-Private (track_unsubscribed sid) v h =
    by_core (Effects.core-handle_track_unsubscribed sid v) h
accept-Private (speakers_changed users) v h = by_core (core-on_active_speakers _ v) h

report-Private : (n : ℕ) (r : Report) (v : Voice) → Private v → Private (report n r v)
unfolding report
report-Private n r v h = ground (arith, accept-Private r v h)

-- A setter that ends with the bridge or changes nothing.
by_bridge :
    {before after : Core} (c : Core)
    → (after ≡ before) ⊎ (after ≡ dispatch c)
    → Quiet c
    → IsPrivate before
    → IsPrivate after
by_bridge c (inl e) q h = by_core e h
by_bridge c (inr e) q h = by_core e (dispatch-IsPrivate c q)

module _ (to_lower : String → String) where
  resume-Private :
      (p : Pending) (a : Answer Value) (v : Voice) → Private v → Private (resume to_lower p a v)
  unfolding resume
  resume-Private (switching guild channel previous) a v h =
      on_switched-Private channel previous (as_object a) v h
  resume-Private (joining guild channel) a v h = on_joined-Private guild channel (as_object a) v h
  resume-Private (token guild channel) a v h = on_token-Private guild channel (as_object a) v h
  resume-Private (abandoning guild) a v h = h
  resume-Private (leaving guild channel) a v h = on_left-Private channel (as_object a) v h
  resume-Private (muting guild m d) a v h = on_mute_toggled-Private m (as_object a) v h
  resume-Private (deafening guild m d) a v h = on_deafen_toggled-Private d (as_object a) v h
  resume-Private (fetching channel sync) a v h =
      on_fetched-Private to_lower channel sync (as_array a) v h

  on_answer-Private :
      (n : ℕ) (a : Answer Value) (v : Voice) → Private v → Private (on_answer to_lower n a v)
  unfolding on_answer
  on_answer-Private n a v h =
      elim (answer to_lower n v.pending)
        as (λ x. Private (elim x [
          | none ↦ v
          | some (p, rest) ↦ resume to_lower p a (record v { pending = rest })
        ])) [ none ↦ h | some (p, rest) ↦ resume-Private p a _ (by_frame h) ]

  pub step-Private : (i : Input) (v : Voice) → Private v → Private (step to_lower i v)
  unfolding step
  step-Private (host_changes e) v h = h
  step-Private (store_changes s) v h = h
  step-Private (livekit_reports n r) v h = report-Private n r v h
  step-Private (retry_timer channel) v h = on_retry_timer-Private channel v h
  step-Private audio_inputs_change v h = by_core (Effects.core-on_audio_inputs_changed v) h
  step-Private audio_outputs_change v h = by_core (Effects.core-on_audio_outputs_changed v) h
  step-Private (microphone_ready verdicts chunk) v h =
      by_core (Effects.core-on_input_ready_read verdicts chunk v) h
  step-Private (gateway_event event payload) v h = event-Private event payload v h
  step-Private (answers n a) v h = on_answer-Private n a v h
  step-Private (joins channel) v h = join_voice-Private channel v h
  step-Private leaves v h = leave_voice-Private v h
  step-Private toggles_mute v h = toggle_mute-Private v h
  step-Private toggles_deafen v h = toggle_deafen-Private v h
  step-Private asks_for_devices v h = by_core (Effects.core-request_audio_devices v) h
  step-Private (refreshes channel force) v h = refresh-Private channel force v h
  step-Private (presses_ptt b) v h =
      by_core (core-set_ptt_pressed b v) (press_ptt-IsPrivate b (core v) h)
  step-Private (chooses_input id) v h =
      by_bridge (core v) (Effects.core-set_selected_input_device_id id v) h.quiet h
  step-Private (chooses_output id) v h =
      by_bridge (core v) (Effects.core-set_selected_output_device_id id v) h.quiet h
  step-Private (chooses_mode mode) v h =
      by_bridge (Effects.choose_mode (normalize_activation_mode mode) (core v))
        (Effects.core-set_activation_mode mode v) h.quiet h
  step-Private (chooses_volume n) v h =
      by_bridge (core v) (Effects.core-set_microphone_volume n v) h.quiet h

  pub run-Private : (is : List Input) (v : Voice) → Private v → Private (run to_lower is v)
  unfolding run
  run-Private [] v h = h
  run-Private (i ∷ is) v h = run-Private is _ (step-Private i v h)
