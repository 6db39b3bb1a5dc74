-- ===== src/Voice/Bridge.antt =====
-- The two sides together: the view model's settings go to the engine, and the engine's connection
-- goes to the view model.
use mathlib.Core.Bool.{Bool-discrete}
use voxter.Common.{
  ℕ, ◌+◌, ◌%◌, ◌^◌, String, Bool, true, false, not, ◌&&◌, ◌||◌, List, [], ite, is_empty,
  if◌then◌else◌,
}
use voxter.Store.{set_voice_participants}
use voxter.Store.Participants.{set_voice_speaking_users, voice_participants_for_channel}
use voxter.Voice.{
  Engine, no_track, ActivationMode, voice_activity, push_to_talk, ViewModel, Voice, on_engine,
  on_view, on_store,
}
use voxter.Voice.Media.{
  set_engine_error, update_track_mute_state, start_input_capture, stop_input_capture,
  stop_all_remote_playbacks, set_engine_input, set_engine_output, set_microphone_gain,
  set_engine_muted, set_engine_deafened, set_transmit_enabled,
}

abbrev pub is_push_to_talk : ActivationMode → Bool
is_push_to_talk push_to_talk = true
is_push_to_talk voice_activity = false

-- the flag that dispatchAudioSettingsToBridge computes
unfoldable pub transmit_wanted : ViewModel → Bool
transmit_wanted m =
    let open_line =
      m.connected && not (is_empty m.active_channel_id) && not m.muted && not m.deafened in
    if is_push_to_talk m.activation_mode then open_line && m.ptt_pressed else open_line

unfoldable pub dispatch_audio_settings : Voice → Voice
dispatch_audio_settings v =
    let m = v.view in
    set_transmit_enabled (transmit_wanted m) (
      set_engine_deafened m.deafened (
        set_engine_muted m.muted (
          set_microphone_gain m.microphone_volume (
            set_engine_output m.selected_output_device_id
              (set_engine_input m.selected_input_device_id v)))))

unfoldable pub set_ptt_pressed : Bool → Voice → Voice
set_ptt_pressed pressed v =
    let normalized = is_push_to_talk v.view.activation_mode && pressed in
    ite (Bool-discrete v.view.ptt_pressed normalized) v
      (dispatch_audio_settings (on_view (λ m. record m { ptt_pressed = normalized }) v))

-- VoiceViewModel::setConnected
unfoldable pub set_view_connected : Bool → Voice → Voice
set_view_connected connected v = ite (Bool-discrete v.view.connected connected) v (
    dispatch_audio_settings (
      on_view
        (λ m. record m {
          connected = connected;
          ptt_pressed = if connected then m.ptt_pressed else false;
        })
        v))

unfoldable pub set_view_muted : Bool → Voice → Voice
set_view_muted muted v =
    ite (Bool-discrete v.view.muted muted) v
      (dispatch_audio_settings (on_view (λ m. record m { muted = muted }) v))

unfoldable pub set_view_deafened : Bool → Voice → Voice
set_view_deafened deafened v =
    ite (Bool-discrete v.view.deafened deafened) v
      (dispatch_audio_settings (on_view (λ m. record m { deafened = deafened }) v))

unfoldable pub set_active_channel_id : String → Voice → Voice
set_active_channel_id channel = on_view (λ m. record m { active_channel_id = channel })

-- the slot on connectedChanged
unfoldable pub on_connected_changed : Bool → Voice → Voice
on_connected_changed connected v =
    let told = set_view_connected connected v in
    if connected then told else set_ptt_pressed false told

-- NativeVoiceEngine::setConnected
unfoldable pub set_engine_connected : Bool → Voice → Voice
set_engine_connected connected v =
    ite (Bool-discrete v.engine.connected connected) v
      (on_connected_changed connected (on_engine (λ g. record g { connected = connected }) v))

-- the slot on activeSpeakersChanged
unfoldable pub on_active_speakers : List String → Voice → Voice
on_active_speakers users v =
    let channel = v.view.active_channel_id in
    let marked = on_store (set_voice_speaking_users channel users) v in
    if is_empty channel
    then v
    else on_store (set_voice_participants (voice_participants_for_channel channel marked.store))
        marked

abbrev drop_room : Engine → Engine
drop_room g = record g { local_track = no_track; has_source = false; remote_tracks = [] }

unfoldable pub stop_room : Voice → Voice
stop_room v = on_engine drop_room (stop_all_remote_playbacks (stop_input_capture v))

abbrev next_generation : ℕ → ℕ
next_generation n = (n + 1) % 2 ^ 64

-- NativeVoiceEngine::start. The connect thread that it starts answers by a report of Connection.
unfoldable pub start : Voice → Voice
start v =
    if v.engine.started
    then update_track_mute_state v
    else if is_empty v.engine.sfu_url || is_empty v.engine.sfu_token
    then set_engine_error "Missing SFU token" v
    else set_engine_error ""
        (on_engine (λ g. record g { started = true; generation = next_generation g.generation }) v)

unfoldable pub stop : Voice → Voice
stop v = on_active_speakers [] (
    set_engine_connected false (
      stop_room (
        on_engine
          (λ g. record g {
            started = false;
            transmitting_now = false;
            generation = next_generation g.generation;
          })
          v)))

unfoldable pub handle_connected : Voice → Voice
handle_connected v =
    if v.engine.started
    then update_track_mute_state
        (start_input_capture (set_engine_error "" (set_engine_connected true v)))
    else v

unfoldable pub take_down : Voice → Voice
take_down v = on_active_speakers [] (
    set_engine_connected false
      (on_engine (λ g. record g { started = false; transmitting_now = false }) (stop_room v)))

unfoldable pub handle_disconnected : String → Voice → Voice
handle_disconnected error v =
    if is_empty error then take_down v else set_engine_error error (take_down v)
