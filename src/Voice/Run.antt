-- ===== src/Voice/Run.antt =====
-- What can happen to the voice part of the client, one step at a time. The settings of the hotkey,
-- which only the screens read, are set in Devices and have no step.
use voxter.Common.{ℕ, zero, suc, ℤ, String, Bool, List, [], ◌∷◌, Option, none, some}
use voxter.Variant.{Value, Fields, to_map, to_list}
use voxter.Api.{Answer, ok, failed}
use voxter.Store.{AppStore}
use voxter.Voice.{
  Host, Voice, Pending, switching, joining, token, abandoning, leaving, muting, deafening, fetching,
}
use voxter.Voice.Bridge.{set_ptt_pressed}
use voxter.Voice.Fetch.{refresh_channel_participants, on_fetched, on_retry_timer}
use voxter.Voice.Session.{
  join_voice, leave_voice, toggle_mute, toggle_deafen, on_switched, on_joined, on_token, on_left,
  on_mute_toggled, on_deafen_toggled,
}
use voxter.Voice.Events.{handle_gateway_event}
use voxter.Voice.Devices.{
  on_audio_inputs_changed, on_audio_outputs_changed, request_audio_devices,
  set_selected_input_device_id, set_selected_output_device_id, set_microphone_volume,
  set_activation_mode,
}
use voxter.Voice.Capture.{Verdict, on_input_ready_read}
use voxter.Voice.Connection.{Report, report}

-- QJsonDocument::object and QJsonDocument::array of a response
abbrev pub as_object : Answer Value → Answer Fields
as_object (ok v) = ok (to_map v)
as_object (failed e) = failed e

abbrev pub as_array : Answer Value → Answer (List Value)
as_array (ok v) = ok (to_list v)
as_array (failed e) = failed e

pub data Input : Type 0 where
  -- the environment: its devices and clock, the rest of the client at the store, LiveKit, a timer
  host_changes : Host → Input
  store_changes : AppStore → Input
  livekit_reports : ℕ → Report → Input
  retry_timer : String → Input
  audio_inputs_change audio_outputs_change : Input
  -- the microphone has bytes, and what LiveKit says to the frames
  microphone_ready : (ℕ → Verdict) → List ℕ → Input
  gateway_event : String → Fields → Input
  -- the server answers the n-th call in flight
  answers : ℕ → Answer Value → Input
  -- the user
  joins : String → Input
  leaves toggles_mute toggles_deafen asks_for_devices : Input
  refreshes : String → Bool → Input
  presses_ptt : Bool → Input
  chooses_input chooses_output chooses_mode : String → Input
  chooses_volume : ℤ → Input

module _ (to_lower : String → String) where
  unfoldable pub resume : Pending → Answer Value → Voice → Voice
  resume (switching guild channel previous) a v = on_switched channel previous (as_object a) v
  resume (joining guild channel) a v = on_joined guild channel (as_object a) v
  resume (token guild channel) a v = on_token guild channel (as_object a) v
  resume (abandoning guild) a v = v
  resume (leaving guild channel) a v = on_left channel (as_object a) v
  resume (muting guild muted deafened) a v = on_mute_toggled muted (as_object a) v
  resume (deafening guild muted deafened) a v = on_deafen_toggled deafened (as_object a) v
  resume (fetching channel sync) a v = on_fetched to_lower channel sync (as_array a) v

  -- the calls in front of the answered one are kept
  unfoldable pub answer : ℕ → List Pending → Option (Pending × List Pending)
  answer n [] = none
  answer zero (p ∷ ps) = some (p, ps)
  answer (suc n) (p ∷ ps) = elim (answer n ps) [ none ↦ none | some (q, r) ↦ some (q, p ∷ r) ]

  unfoldable pub on_answer : ℕ → Answer Value → Voice → Voice
  on_answer n a v = elim (answer n v.pending) [
    | none ↦ v
    | some (p, rest) ↦ resume p a (record v { pending = rest })
  ]

  unfoldable pub step : Input → Voice → Voice
  step (host_changes h) v = record v { host = h }
  step (store_changes s) v = record v { store = s }
  step (livekit_reports generation r) v = report generation r v
  step (retry_timer channel) v = on_retry_timer channel v
  step audio_inputs_change v = on_audio_inputs_changed v
  step audio_outputs_change v = on_audio_outputs_changed v
  step (microphone_ready verdicts chunk) v = on_input_ready_read verdicts chunk v
  step (gateway_event event payload) v = handle_gateway_event event payload v
  step (answers n a) v = on_answer n a v
  step (joins channel) v = join_voice channel v
  step leaves v = leave_voice v
  step toggles_mute v = toggle_mute v
  step toggles_deafen v = toggle_deafen v
  step asks_for_devices v = request_audio_devices v
  step (refreshes channel force) v = refresh_channel_participants channel force v
  step (presses_ptt pressed) v = set_ptt_pressed pressed v
  step (chooses_input id) v = set_selected_input_device_id id v
  step (chooses_output id) v = set_selected_output_device_id id v
  step (chooses_mode mode) v = set_activation_mode mode v
  step (chooses_volume volume) v = set_microphone_volume volume v

  unfoldable pub run : List Input → Voice → Voice
  run [] v = v
  run (i ∷ is) v = run is (step i v)
