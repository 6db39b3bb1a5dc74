-- ===== src/Voice/Machine.antt =====
-- The bridge's functions on what decides: each is a function on `Core`.
use mathlib.Core.Bool.{Bool-discrete}
use voxter.Common.{
  ◌≡◌, ap, ◌∙◌, String, Bool, true, false, ◌&&◌, List, [], arith, ite, if◌then◌else◌,
}
use voxter.Voice.{Voice, on_engine, on_view}
use voxter.Voice.Media.{
  set_engine_error, update_track_mute_state, start_input_capture, stop_input_capture,
  stop_all_remote_playbacks,
}
use voxter.Voice.Bridge.{
  is_push_to_talk, set_ptt_pressed, set_view_connected, set_view_muted, set_view_deafened,
  on_connected_changed, set_engine_connected, on_active_speakers, stop, stop_room, handle_connected,
  take_down, handle_disconnected,
}
use voxter.Voice.Core.{
  Core, core, refresh, dispatch, core-set_engine_error, core-update_track_mute_state,
  core-start_input_capture, core-dispatch,
}

unfoldable pub press_ptt : Bool → Core → Core
press_ptt pressed c =
    let normalized = is_push_to_talk c.activation_mode && pressed in
    ite (Bool-discrete c.ptt_pressed normalized) c
      (dispatch (record c { ptt_pressed = normalized }))

unfoldable pub connect_view : Bool → Core → Core
connect_view b c =
    ite (Bool-discrete c.view_connected b) c
      (dispatch (record c { view_connected = b; ptt_pressed = if b then c.ptt_pressed else false }))

unfoldable pub mute_view : Bool → Core → Core
mute_view b c = ite (Bool-discrete c.view_muted b) c (dispatch (record c { view_muted = b }))

unfoldable pub deafen_view : Bool → Core → Core
deafen_view b c =
    ite (Bool-discrete c.view_deafened b) c (dispatch (record c { view_deafened = b }))

unfoldable pub connect_engine : Bool → Core → Core
connect_engine b c =
    let told = connect_view b (record c { connected = b }) in
    ite (Bool-discrete c.connected b) c (if b then told else press_ptt false told)

pub core-set_ptt_pressed :
    (b : Bool) (v : Voice) → core (set_ptt_pressed b v) ≡ press_ptt b (core v)
unfolding set_ptt_pressed press_ptt
core-set_ptt_pressed b v = ground (
  arith,
  core-dispatch
      (on_view (λ m. record m { ptt_pressed = is_push_to_talk m.activation_mode && b }) v),
)

pub core-set_view_connected :
    (b : Bool) (v : Voice) → core (set_view_connected b v) ≡ connect_view b (core v)
unfolding set_view_connected connect_view
core-set_view_connected b v = ground (
  arith,
  core-dispatch (
      on_view (λ m. record m { connected = b; ptt_pressed = if b then m.ptt_pressed else false })
        v),
)

pub core-set_view_muted : (b : Bool) (v : Voice) → core (set_view_muted b v) ≡ mute_view b (core v)
unfolding set_view_muted mute_view
core-set_view_muted b v = ground (arith, core-dispatch (on_view (λ m. record m { muted = b }) v))

pub core-set_view_deafened :
    (b : Bool) (v : Voice) → core (set_view_deafened b v) ≡ deafen_view b (core v)
unfolding set_view_deafened deafen_view
core-set_view_deafened b v =
    ground (arith, core-dispatch (on_view (λ m. record m { deafened = b }) v))

pub core-on_connected_changed :
    (b : Bool) (v : Voice)
    → core (on_connected_changed b v)
      ≡ (if b then connect_view b (core v) else press_ptt false (connect_view b (core v)))
unfolding on_connected_changed
core-on_connected_changed true v = core-set_view_connected true v
core-on_connected_changed false v =
    core-set_ptt_pressed false _ ∙ ap (press_ptt false) (core-set_view_connected false v)

pub core-set_engine_connected :
    (b : Bool) (v : Voice) → core (set_engine_connected b v) ≡ connect_engine b (core v)
unfolding set_engine_connected connect_engine
core-set_engine_connected b v =
    ground (arith, core-on_connected_changed b (on_engine (λ g. record g { connected = b }) v))

pub core-on_active_speakers :
    (users : List String) (v : Voice) → core (on_active_speakers users v) ≡ core v
unfolding on_active_speakers
core-on_active_speakers users v = ground arith

unfoldable pub start_core : Core → Core
start_core c = if c.started then refresh c else c

unfoldable pub stop_core : Core → Core
stop_core c = connect_engine false (record c { started = false; transmitting_now = false })

unfoldable pub connected_core : Core → Core
connected_core c = if c.started then refresh (connect_engine true c) else c

pub core-stop : (v : Voice) → core (stop v) ≡ stop_core (core v)
unfolding stop stop_core stop_room stop_input_capture stop_all_remote_playbacks
core-stop v = core-on_active_speakers [] _ ∙ core-set_engine_connected false _

pub core-take_down : (v : Voice) → core (take_down v) ≡ stop_core (core v)
unfolding take_down stop_core stop_room stop_input_capture stop_all_remote_playbacks
core-take_down v = core-on_active_speakers [] _ ∙ core-set_engine_connected false _

pub core-handle_disconnected :
    (e : String) (v : Voice) → core (handle_disconnected e v) ≡ stop_core (core v)
unfolding handle_disconnected
core-handle_disconnected e v =
    ground (arith, core-take_down v, core-set_engine_error e (take_down v))

pub core-settle :
    (v : Voice)
    → core (
        update_track_mute_state
          (start_input_capture (set_engine_error "" (set_engine_connected true v))))
      ≡ refresh (connect_engine true (core v))
core-settle v =
    core-update_track_mute_state _
    ∙ ap refresh (
        core-start_input_capture _
        ∙ core-set_engine_error "" (set_engine_connected true v)
        ∙ core-set_engine_connected true v)

pub core-handle_connected : (v : Voice) → core (handle_connected v) ≡ connected_core (core v)
unfolding handle_connected connected_core
core-handle_connected v = ground (arith, core-settle v)
