-- ===== src/Voice/Devices.antt =====
-- Audio devices and the saved audio settings, on both sides. `clean` is trimmed().toUpper(), and
-- `size` the length of a QString.
use voxter.Common.{
  ℕ, ℤ, pos, negsuc, String, Bool, false, not, ◌&&◌, ◌||◌, List, [], ◌∷◌, ite, ◌==◌, is_empty,
  if◌then◌else◌, ltb, eqb,
}
use mathlib.Core.Bool.{Bool-discrete}
use voxter.Variant.{Value, map, text, end, insert, value, to_map, to_string}
use voxter.Store.{list_dec}
use voxter.Voice.{Voice, ActivationMode, voice_activity, push_to_talk, on_engine, on_view}
use voxter.Voice.Media.{restart_input_capture, rebuild_remote_playbacks}
use voxter.Voice.Bridge.{is_push_to_talk, dispatch_audio_settings}

-- normalizeMicrophoneVolume
unfoldable pub normalize_microphone_volume : ℤ → ℕ
normalize_microphone_volume (negsuc _) = 0
normalize_microphone_volume (pos n) = if ltb 200 n then 200 else n

unfoldable pub normalize_activation_mode : String → ActivationMode
normalize_activation_mode mode = if mode == "PUSH_TO_TALK" then push_to_talk else voice_activity

unfoldable pub has_device : List Value → String → Bool
has_device [] id = false
has_device (d ∷ ds) id = to_string (value (to_map d) "id") == id || has_device ds id

unfoldable pub list_contains_device_id : List Value → String → Bool
unfolding has_device
list_contains_device_id devices id = is_empty id || has_device devices id

-- buildInputDeviceList and buildOutputDeviceList, by the label of a device without a description
unfoldable pub device : String → String → Value
device id label = map (insert "id" (text id) (insert "label" (text label) end))

unfoldable pub list_devices : String → List (String × String) → List Value
list_devices unnamed [] = []
list_devices unnamed ((id, label) ∷ r) =
    let rest = list_devices unnamed r in
    if is_empty id then rest else device id (if is_empty label then unnamed else label) ∷ rest

unfoldable pub build_device_list : String → List (String × String) → List Value
build_device_list unnamed host_devices =
    device "" "System Default" ∷ list_devices unnamed host_devices

unfoldable pub persist_audio_settings : Voice → Voice
persist_audio_settings v = record v {
  saved = record {
    input_device_id = v.view.selected_input_device_id;
    output_device_id = v.view.selected_output_device_id;
    microphone_volume = v.view.microphone_volume;
    activation_mode = v.view.activation_mode;
    ptt_hotkey = v.view.ptt_hotkey;
    ptt_hotkey_enabled = v.view.ptt_hotkey_enabled;
  };
}

-- a selection that is no longer in the list is dropped
abbrev keep_if_listed : List Value → String → String
keep_if_listed devices id = if list_contains_device_id devices id then id else ""

unfoldable pub recompute_audio_device_lists : Voice → Voice
recompute_audio_device_lists v =
    let g = v.engine in
    let m = v.view in
    let kept =
      on_view
        (λ n. record n {
          selected_input_device_id = keep_if_listed g.input_devices m.selected_input_device_id;
          selected_output_device_id = keep_if_listed g.output_devices m.selected_output_device_id;
          input_devices = g.input_devices;
          output_devices = g.output_devices;
        })
        v in
    if list_contains_device_id g.input_devices m.selected_input_device_id
      && list_contains_device_id g.output_devices m.selected_output_device_id
    then kept
    else persist_audio_settings kept

-- NativeVoiceEngine::refreshDeviceLists in its four parts. Where a list changes, its signal makes
-- the view model compute its lists anew.
unfoldable pub keep_selection : List Value → List Value → Voice → Voice
keep_selection inputs outputs = on_engine (λ g. record g {
  selected_input_device_id = keep_if_listed inputs g.selected_input_device_id;
  selected_output_device_id = keep_if_listed outputs g.selected_output_device_id;
})

unfoldable pub adopt_inputs : List Value → Voice → Voice
adopt_inputs inputs v =
    ite (list_dec v.engine.input_devices inputs) v
      (recompute_audio_device_lists (on_engine (λ g. record g { input_devices = inputs }) v))

unfoldable pub adopt_outputs : List Value → Voice → Voice
adopt_outputs outputs v =
    ite (list_dec v.engine.output_devices outputs) v
      (recompute_audio_device_lists (on_engine (λ g. record g { output_devices = outputs }) v))

unfoldable pub refresh_device_lists : Voice → Voice
refresh_device_lists v =
    let inputs = build_device_list "Microphone" v.host.audio_inputs in
    let outputs = build_device_list "Speaker" v.host.audio_outputs in
    let listed =
      list_contains_device_id inputs v.engine.selected_input_device_id
      && list_contains_device_id outputs v.engine.selected_output_device_id in
    let adopted = adopt_outputs outputs (adopt_inputs inputs (keep_selection inputs outputs v)) in
    if not listed && v.engine.started
    then rebuild_remote_playbacks (restart_input_capture adopted)
    else adopted

-- the slots on audioInputsChanged and audioOutputsChanged of QMediaDevices
unfoldable pub on_audio_inputs_changed : Voice → Voice
on_audio_inputs_changed v =
    let refreshed = refresh_device_lists v in
    if refreshed.engine.started then restart_input_capture refreshed else refreshed

unfoldable pub on_audio_outputs_changed : Voice → Voice
on_audio_outputs_changed v =
    let refreshed = refresh_device_lists v in
    if refreshed.engine.started then rebuild_remote_playbacks refreshed else refreshed

unfoldable pub set_audio_permission_probe_active : Bool → Voice → Voice
set_audio_permission_probe_active active =
    on_view (λ m. record m { audio_permission_probe_active = active })

unfoldable pub request_audio_devices : Voice → Voice
unfolding set_audio_permission_probe_active
request_audio_devices v =
    recompute_audio_device_lists (refresh_device_lists (set_audio_permission_probe_active false v))

-- These two have no caller.
unfoldable pub refresh_audio_devices_from_bridge : Voice → Voice
unfolding set_audio_permission_probe_active
refresh_audio_devices_from_bridge v =
    set_audio_permission_probe_active false (recompute_audio_device_lists (refresh_device_lists v))

unfoldable pub apply_audio_devices_from_bridge : Voice → Voice
unfolding set_audio_permission_probe_active
apply_audio_devices_from_bridge v =
    let listed = recompute_audio_device_lists v in
    dispatch_audio_settings (
      if listed.view.audio_permission_probe_active
      then set_audio_permission_probe_active false listed
      else listed)

-- The setters of the settings dialog.

unfoldable pub set_selected_input_device_id : String → Voice → Voice
set_selected_input_device_id id v =
    if v.view.selected_input_device_id == id
    then v
    else dispatch_audio_settings
        (persist_audio_settings (on_view (λ m. record m { selected_input_device_id = id }) v))

unfoldable pub set_selected_output_device_id : String → Voice → Voice
set_selected_output_device_id id v =
    if v.view.selected_output_device_id == id
    then v
    else dispatch_audio_settings
        (persist_audio_settings (on_view (λ m. record m { selected_output_device_id = id }) v))

unfoldable pub set_microphone_volume : ℤ → Voice → Voice
set_microphone_volume volume v =
    let normalized = normalize_microphone_volume volume in
    if eqb v.view.microphone_volume normalized
    then v
    else dispatch_audio_settings
        (persist_audio_settings (on_view (λ m. record m { microphone_volume = normalized }) v))

unfoldable pub set_activation_mode : String → Voice → Voice
set_activation_mode mode v =
    let normalized = normalize_activation_mode mode in
    let same =
      is_push_to_talk normalized && is_push_to_talk v.view.activation_mode
      || not (is_push_to_talk normalized) && not (is_push_to_talk v.view.activation_mode) in
    if same
    then v
    else dispatch_audio_settings (
        persist_audio_settings (
          on_view
            (λ m. record m {
              activation_mode = normalized;
              ptt_pressed = if is_push_to_talk normalized then m.ptt_pressed else false;
            })
            v))

unfoldable pub set_ptt_hotkey_enabled : Bool → Voice → Voice
set_ptt_hotkey_enabled enabled v =
    ite (Bool-discrete v.view.ptt_hotkey_enabled enabled) v
      (persist_audio_settings (on_view (λ m. record m { ptt_hotkey_enabled = enabled }) v))

module _ (clean : String → String) (size : String → ℕ) where
  unfoldable pub normalize_ptt_hotkey : String → String
  normalize_ptt_hotkey hotkey =
      let trimmed = clean hotkey in
      if is_empty trimmed
      then "V"
      else if trimmed == "SPACE"
      then "SPACE"
      else if eqb (size trimmed) 1
      then trimmed
      else "V"

  unfoldable pub set_ptt_hotkey : String → Voice → Voice
  set_ptt_hotkey hotkey v =
      let normalized = normalize_ptt_hotkey hotkey in
      if v.view.ptt_hotkey == normalized
      then v
      else persist_audio_settings (on_view (λ m. record m { ptt_hotkey = normalized }) v)
