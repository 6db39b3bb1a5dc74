-- ===== src/Voice/Place/Devices.antt =====
-- The devices and the microphone leave the store alone.
use voxter.Common.{ℕ, ◌≡◌, refl, String, arith, ℤ, List, Option, none, some}
use voxter.Voice.{Voice}
use voxter.Voice.Devices.{
  persist_audio_settings, recompute_audio_device_lists, keep_selection, adopt_inputs, adopt_outputs,
  refresh_device_lists, on_audio_inputs_changed, on_audio_outputs_changed,
  set_selected_input_device_id, set_selected_output_device_id, set_microphone_volume,
  set_activation_mode,
}
use voxter.Voice.Capture.{
  Verdict, capture_frames, settle, with_buffer, filled, frame_count, on_input_ready_read,
}
use voxter.Voice.Place.{
  store-set_engine_error, store-restart_capture, store-rebuild, store-dispatch,
}

pub store-recompute : (v : Voice) → (recompute_audio_device_lists v).store ≡ v.store
unfolding recompute_audio_device_lists persist_audio_settings
store-recompute v = ground arith

pub store-refresh_lists : (v : Voice) → (refresh_device_lists v).store ≡ v.store
unfolding refresh_device_lists adopt_inputs adopt_outputs keep_selection
store-refresh_lists v = grind (arith, store-recompute, store-rebuild, store-restart_capture)

pub store-inputs : (v : Voice) → (on_audio_inputs_changed v).store ≡ v.store
unfolding on_audio_inputs_changed
store-inputs v =
    ground (arith, store-refresh_lists v, store-restart_capture (refresh_device_lists v))

pub store-outputs : (v : Voice) → (on_audio_outputs_changed v).store ≡ v.store
unfolding on_audio_outputs_changed
store-outputs v = ground (arith, store-refresh_lists v, store-rebuild (refresh_device_lists v))

pub store-choices :
    (i o m : String) (n : ℤ) (v : Voice)
    → ((set_selected_input_device_id i v).store ≡ v.store)
      × ((set_selected_output_device_id o v).store ≡ v.store)
      × ((set_activation_mode m v).store ≡ v.store)
      × ((set_microphone_volume n v).store ≡ v.store)
unfolding set_selected_input_device_id set_selected_output_device_id set_activation_mode
    set_microphone_volume persist_audio_settings
store-choices i o m n v = (
  grind (arith, store-dispatch),
  grind (arith, store-dispatch),
  grind (arith, store-dispatch),
  grind (arith, store-dispatch),
)

-- The microphone.

pub store-settle :
    (e : Option String) (bytes : List ℕ) (v : Voice) → (settle e bytes v).store ≡ v.store
unfolding settle
store-settle none bytes v = refl
store-settle (some e) bytes v = store-set_engine_error e (with_buffer bytes v)

pub store-microphone :
    (verdicts : ℕ → Verdict) (chunk : List ℕ) (v : Voice)
    → (on_input_ready_read verdicts chunk v).store ≡ v.store
unfolding on_input_ready_read
store-microphone verdicts chunk v =
    let bytes = filled chunk v in
    let loop = capture_frames (λ (b : List ℕ). b) verdicts 0 (frame_count bytes) bytes in
    ground (arith, store-settle loop.1 bytes v)
