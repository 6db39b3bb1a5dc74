-- ===== src/Voice/Effects.antt =====
-- The view model's functions on what decides.
use voxter.Common.{
  ℤ, ◌≡◌, ap, ◌∙◌, ◌⊎◌, String, false, List, arith, if◌then◌else◌, ℕ, Option, none, some, refl,
}
use voxter.Variant.{Value}
use voxter.Voice.{Voice, on_engine, on_view, ActivationMode}
use voxter.Voice.Media.{
  clear_session_context, restart_input_capture, keep_track, handle_track_subscribed,
  handle_track_unsubscribed, stop_remote_playback,
}
use voxter.Voice.Bridge.{is_push_to_talk, set_active_channel_id}
use voxter.Voice.Fetch.{prune_current_user_from_channel}
use voxter.Voice.Session.{tear_down}
use voxter.Voice.Events.{on_self_leave}
use voxter.Voice.Devices.{
  recompute_audio_device_lists, persist_audio_settings, keep_selection, adopt_inputs, adopt_outputs,
  refresh_device_lists, on_audio_inputs_changed, on_audio_outputs_changed, request_audio_devices,
  set_audio_permission_probe_active, set_selected_input_device_id, set_selected_output_device_id,
  set_microphone_volume, set_activation_mode, normalize_activation_mode,
  normalize_microphone_volume, build_device_list,
}
use voxter.Voice.Capture.{
  Verdict, capture_frames, settle, with_buffer, filled, frame_count, on_input_ready_read,
}
use voxter.Voice.Core.{
  core-set_engine_error, Core, core, dispatch, core-dispatch, core-restart_input_capture,
  core-rebuild_remote_playbacks, core-start_remote_playback,
}
use voxter.Voice.Machine.{
  press_ptt, connect_view, stop_core, core-set_ptt_pressed, core-set_view_connected, core-stop,
}

abbrev pub leave_channel : Core → Core
leave_channel c = record c { active_channel_id = "" }

pub core-tear_down :
    (v : Voice)
    → core (tear_down v) ≡ stop_core (leave_channel (press_ptt false (connect_view false (core v))))
unfolding tear_down clear_session_context set_active_channel_id
core-tear_down v =
    core-stop _
    ∙ ap (λ c. stop_core (leave_channel c))
        (core-set_ptt_pressed false _ ∙ ap (press_ptt false) (core-set_view_connected false v))

pub core-on_self_leave :
    (v : Voice)
    → core (on_self_leave v)
      ≡ leave_channel (stop_core (press_ptt false (connect_view false (core v))))
unfolding on_self_leave clear_session_context set_active_channel_id
core-on_self_leave v = ap leave_channel (
    core-stop _
    ∙ ap stop_core
        (core-set_ptt_pressed false _ ∙ ap (press_ptt false) (core-set_view_connected false v)))

pub core-prune :
    (channel : String) (v : Voice) → core (prune_current_user_from_channel channel v) ≡ core v
unfolding prune_current_user_from_channel
core-prune channel v = ground arith

pub core-recompute : (v : Voice) → core (recompute_audio_device_lists v) ≡ core v
unfolding recompute_audio_device_lists persist_audio_settings
core-recompute v = ground arith

core-adopt_inputs : (l : List Value) (v : Voice) → core (adopt_inputs l v) ≡ core v
unfolding adopt_inputs
core-adopt_inputs l v =
    ground (arith, core-recompute (on_engine (λ g. record g { input_devices = l }) v))

core-adopt_outputs : (l : List Value) (v : Voice) → core (adopt_outputs l v) ≡ core v
unfolding adopt_outputs
core-adopt_outputs l v =
    ground (arith, core-recompute (on_engine (λ g. record g { output_devices = l }) v))

core-adopt :
    (i o : List Value) (v : Voice)
    → core (adopt_outputs o (adopt_inputs i (keep_selection i o v))) ≡ core v
unfolding keep_selection
core-adopt i o v = core-adopt_outputs o _ ∙ core-adopt_inputs i _

pub core-refresh_device_lists : (v : Voice) → core (refresh_device_lists v) ≡ core v
unfolding refresh_device_lists
core-refresh_device_lists v =
    let i = build_device_list "Microphone" v.host.audio_inputs in
    let o = build_device_list "Speaker" v.host.audio_outputs in
    let w = adopt_outputs o (adopt_inputs i (keep_selection i o v)) in
    ground (
      arith,
      core-adopt i o v,
      core-restart_input_capture w,
      core-rebuild_remote_playbacks (restart_input_capture w),
    )

pub core-on_audio_inputs_changed : (v : Voice) → core (on_audio_inputs_changed v) ≡ core v
unfolding on_audio_inputs_changed
core-on_audio_inputs_changed v =
    ground (arith, core-refresh_device_lists v, core-restart_input_capture (refresh_device_lists v))

pub core-on_audio_outputs_changed : (v : Voice) → core (on_audio_outputs_changed v) ≡ core v
unfolding on_audio_outputs_changed
core-on_audio_outputs_changed v =
    ground
      (arith, core-refresh_device_lists v, core-rebuild_remote_playbacks (refresh_device_lists v))

pub core-request_audio_devices : (v : Voice) → core (request_audio_devices v) ≡ core v
unfolding request_audio_devices set_audio_permission_probe_active
core-request_audio_devices v =
    core-recompute _ ∙ core-refresh_device_lists (set_audio_permission_probe_active false v)

-- A setter either changes nothing or ends with the bridge.
pub core-set_selected_input_device_id :
    (id : String) (v : Voice)
    → (core (set_selected_input_device_id id v) ≡ core v)
      ⊎ (core (set_selected_input_device_id id v) ≡ dispatch (core v))
unfolding set_selected_input_device_id persist_audio_settings
core-set_selected_input_device_id id v = ground (
  arith,
  core-dispatch
      (persist_audio_settings (on_view (λ m. record m { selected_input_device_id = id }) v)),
)

pub core-set_selected_output_device_id :
    (id : String) (v : Voice)
    → (core (set_selected_output_device_id id v) ≡ core v)
      ⊎ (core (set_selected_output_device_id id v) ≡ dispatch (core v))
unfolding set_selected_output_device_id persist_audio_settings
core-set_selected_output_device_id id v = ground (
  arith,
  core-dispatch
      (persist_audio_settings (on_view (λ m. record m { selected_output_device_id = id }) v)),
)

pub core-set_microphone_volume :
    (n : ℤ) (v : Voice)
    → (core (set_microphone_volume n v) ≡ core v)
      ⊎ (core (set_microphone_volume n v) ≡ dispatch (core v))
unfolding set_microphone_volume persist_audio_settings
core-set_microphone_volume n v = ground (
  arith,
  core-dispatch (
      persist_audio_settings
        (on_view (λ m. record m { microphone_volume = normalize_microphone_volume n }) v)),
)

abbrev pub choose_mode : ActivationMode → Core → Core
choose_mode mode c = record c {
  activation_mode = mode;
  ptt_pressed = if is_push_to_talk mode then c.ptt_pressed else false;
}

pub core-set_activation_mode :
    (mode : String) (v : Voice)
    → (core (set_activation_mode mode v) ≡ core v)
      ⊎ (core (set_activation_mode mode v)
          ≡ dispatch (choose_mode (normalize_activation_mode mode) (core v)))
unfolding set_activation_mode persist_audio_settings
core-set_activation_mode mode v = ground (
  arith,
  core-dispatch (
      persist_audio_settings (
        on_view
          (λ m. record m {
            activation_mode = normalize_activation_mode mode;
            ptt_pressed =
                if is_push_to_talk (normalize_activation_mode mode) then m.ptt_pressed else false;
          })
          v)),
)

pub core-handle_track_subscribed :
    (sid participant : String) (v : Voice)
    → core (handle_track_subscribed sid participant v) ≡ core v
unfolding handle_track_subscribed keep_track
core-handle_track_subscribed sid participant v =
    ground (arith, core-start_remote_playback sid (keep_track sid participant v))

pub core-handle_track_unsubscribed :
    (sid : String) (v : Voice) → core (handle_track_unsubscribed sid v) ≡ core v
unfolding handle_track_unsubscribed stop_remote_playback
core-handle_track_unsubscribed sid v = ground arith

core-settle : (e : Option String) (bytes : List ℕ) (v : Voice) → core (settle e bytes v) ≡ core v
unfolding settle
core-settle none bytes v = refl
core-settle (some e) bytes v = core-set_engine_error e (with_buffer bytes v)

pub core-on_input_ready_read :
    (verdicts : ℕ → Verdict) (chunk : List ℕ) (v : Voice)
    → core (on_input_ready_read verdicts chunk v) ≡ core v
unfolding on_input_ready_read
core-on_input_ready_read verdicts chunk v =
    let bytes = filled chunk v in
    let loop = capture_frames (λ (b : List ℕ). b) verdicts 0 (frame_count bytes) bytes in
    ground (arith, core-settle loop.1 bytes v)
