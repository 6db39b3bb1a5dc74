-- ===== src/Voice/Core.antt =====
-- The part of the state that decides about sending and about the calls in flight, and what the
-- engine's functions and the bridge do to it.
use mathlib.Core.Bool.{Bool-discrete}
use voxter.Common.{
  ◌≡◌, refl, ap, ◌∙◌, String, Bool, not, ◌&&◌, List, [], ◌∷◌, arith, ite, is_empty, if◌then◌else◌,
}
use voxter.Voice.{Engine, ActivationMode, ViewModel, Voice, Pending, on_engine}
use voxter.Voice.Media.{
  set_engine_error, update_track_mute_state, start_input_capture, stop_input_capture,
  restart_input_capture, start_playbacks, start_remote_playback, rebuild_remote_playbacks,
  stop_all_remote_playbacks, set_engine_input, set_engine_output, set_microphone_gain,
  set_engine_muted, set_engine_deafened, set_transmit_enabled,
}
use voxter.Voice.Bridge.{is_push_to_talk, transmit_wanted, dispatch_audio_settings}

-- What decides.
pub record Core : Type 0 where
  pub muted : Bool
  pub deafened : Bool
  pub transmit_enabled : Bool
  pub started : Bool
  pub connected : Bool
  pub transmitting_now : Bool
  pub view_connected : Bool
  pub view_muted : Bool
  pub view_deafened : Bool
  pub active_channel_id : String
  pub activation_mode : ActivationMode
  pub ptt_pressed : Bool
  pub joining_channel_id : String
  pub leave_in_progress : Bool
  pub participant_fetch_in_flight : List String
  pub pending : List Pending

abbrev pub core_of : Engine → ViewModel → List Pending → Core
core_of g m pending = record {
  muted = g.muted;
  deafened = g.deafened;
  transmit_enabled = g.transmit_enabled;
  started = g.started;
  connected = g.connected;
  transmitting_now = g.transmitting_now;
  view_connected = m.connected;
  view_muted = m.muted;
  view_deafened = m.deafened;
  active_channel_id = m.active_channel_id;
  activation_mode = m.activation_mode;
  ptt_pressed = m.ptt_pressed;
  joining_channel_id = m.joining_channel_id;
  leave_in_progress = m.leave_in_progress;
  participant_fetch_in_flight = m.participant_fetch_in_flight;
  pending = pending;
}

abbrev pub core : Voice → Core
core v = core_of v.engine v.view v.pending

abbrev pub live : Core → Bool
live c = c.started && c.connected && c.transmit_enabled && not c.muted && not c.deafened

abbrev pub wanted : Core → Bool
wanted c =
    let open_line =
      c.view_connected
      && not (is_empty c.active_channel_id)
      && not c.view_muted
      && not c.view_deafened in
    if is_push_to_talk c.activation_mode then open_line && c.ptt_pressed else open_line

pub core-set_engine_error : (e : String) (v : Voice) → core (set_engine_error e v) ≡ core v
unfolding set_engine_error
core-set_engine_error e v = ground arith

pub core-update_track_mute_state :
    (v : Voice)
    → core (update_track_mute_state v) ≡ record (core v) { transmitting_now = live (core v) }
unfolding update_track_mute_state
core-update_track_mute_state v = ground (arith)

pub core-start_input_capture : (v : Voice) → core (start_input_capture v) ≡ core v
unfolding start_input_capture
core-start_input_capture v = ground arith

pub core-restart_input_capture : (v : Voice) → core (restart_input_capture v) ≡ core v
unfolding restart_input_capture stop_input_capture
core-restart_input_capture v = core-start_input_capture _

pub core-start_remote_playback :
    (sid : String) (v : Voice) → core (start_remote_playback sid v) ≡ core v
unfolding start_remote_playback
core-start_remote_playback sid v = ground arith

core-start_playbacks :
    (l : List (String × String)) (v : Voice) → core (start_playbacks l v) ≡ core v
unfolding start_playbacks
core-start_playbacks [] v = refl
core-start_playbacks ((sid, _) ∷ l) v =
    core-start_playbacks l (start_remote_playback sid v) ∙ core-start_remote_playback sid v

pub core-rebuild_remote_playbacks : (v : Voice) → core (rebuild_remote_playbacks v) ≡ core v
unfolding rebuild_remote_playbacks stop_all_remote_playbacks
core-rebuild_remote_playbacks v = core-start_playbacks v.engine.remote_tracks _

core-set_engine_input : (id : String) (v : Voice) → core (set_engine_input id v) ≡ core v
unfolding set_engine_input
core-set_engine_input id v = ground (
  arith,
  core-restart_input_capture (on_engine (λ g. record g { selected_input_device_id = id }) v),
)

core-set_engine_output : (id : String) (v : Voice) → core (set_engine_output id v) ≡ core v
unfolding set_engine_output
core-set_engine_output id v = ground (
  arith,
  core-rebuild_remote_playbacks (on_engine (λ g. record g { selected_output_device_id = id }) v),
)

-- The same functions on what decides.
abbrev pub refresh : Core → Core
refresh c = record c { transmitting_now = live c }

unfoldable pub set_muted : Bool → Core → Core
set_muted b c = ite (Bool-discrete c.muted b) c (refresh (record c { muted = b }))

unfoldable pub set_deafened : Bool → Core → Core
set_deafened b c = ite (Bool-discrete c.deafened b) c (refresh (record c { deafened = b }))

unfoldable pub set_transmit : Bool → Core → Core
set_transmit b c =
    ite (Bool-discrete c.transmit_enabled b) c (refresh (record c { transmit_enabled = b }))

unfoldable pub dispatch : Core → Core
dispatch c = set_transmit (wanted c) (set_deafened c.view_deafened (set_muted c.view_muted c))

pub core-set_engine_muted :
    (b : Bool) (v : Voice) → core (set_engine_muted b v) ≡ set_muted b (core v)
unfolding set_engine_muted set_muted
core-set_engine_muted b v =
    ground (arith, core-update_track_mute_state (on_engine (λ g. record g { muted = b }) v))

pub core-set_engine_deafened :
    (b : Bool) (v : Voice) → core (set_engine_deafened b v) ≡ set_deafened b (core v)
unfolding set_engine_deafened set_deafened
core-set_engine_deafened b v = ground (
  arith,
  core-update_track_mute_state (on_engine (λ g. record g { deafened = b; deafened_now = b }) v),
)

core-set_transmit_enabled :
    (b : Bool) (v : Voice) → core (set_transmit_enabled b v) ≡ set_transmit b (core v)
unfolding set_transmit_enabled set_transmit
core-set_transmit_enabled b v =
    ground
      (arith, core-update_track_mute_state (on_engine (λ g. record g { transmit_enabled = b }) v))

-- What the bridge sends to the engine before the three flags changes nothing that decides.
abbrev before_flags : Voice → Voice
before_flags v = set_microphone_gain v.view.microphone_volume (
    set_engine_output v.view.selected_output_device_id
      (set_engine_input v.view.selected_input_device_id v))

core-before_flags : (v : Voice) → core (before_flags v) ≡ core v
unfolding set_microphone_gain
core-before_flags v = core-set_engine_output _ _ ∙ core-set_engine_input _ v

pub core-dispatch : (v : Voice) → core (dispatch_audio_settings v) ≡ dispatch (core v)
unfolding dispatch_audio_settings dispatch transmit_wanted
core-dispatch v =
    let m = v.view in
    let flag = transmit_wanted m in
    core-set_transmit_enabled flag _
    ∙ ap (set_transmit flag) (
        core-set_engine_deafened m.deafened _
        ∙ ap (set_deafened m.deafened) (
            core-set_engine_muted m.muted (before_flags v)
            ∙ ap (set_muted m.muted) (core-before_flags v)))
