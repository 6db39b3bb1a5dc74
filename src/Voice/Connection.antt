-- ===== src/Voice/Connection.antt =====
-- What LiveKit reports to the engine. A report carries the generation of the start that asked for
-- the room, and one of another generation is dropped.
use voxter.Common.{ℕ, String, true, false, List, [], ◌∷◌, is_empty, if◌then◌else◌, eqb}
use voxter.Voice.{Voice, live_track, on_engine}
use voxter.Voice.Media.{handle_track_subscribed, handle_track_unsubscribed}
use voxter.Voice.Bridge.{
  set_engine_connected, handle_connected, handle_disconnected, on_active_speakers,
}

pub data ConnectionState : Type 0 where
  connected disconnected reconnecting : ConnectionState

pub data Report : Type 0 where
  -- the connect thread: an error, or a room with a published track
  connect_failed : String → Report
  room_ready : Report
  -- RoomDelegateImpl
  state_changed : ConnectionState → Report
  room_disconnected : Report
  track_subscribed : String → String → Report
  track_unsubscribed : String → Report
  speakers_changed : List String → Report

without_empty : List String → List String
without_empty [] = []
without_empty (s ∷ r) = if is_empty s then without_empty r else s ∷ without_empty r

unfoldable pub accept : Report → Voice → Voice
unfolding without_empty
accept (connect_failed error) v = handle_disconnected error v
accept room_ready v =
    handle_connected (on_engine (λ g. record g { has_source = true; local_track = live_track }) v)
accept (state_changed connected) v = handle_connected v
accept (state_changed disconnected) v = handle_disconnected "voice-disconnected" v
accept (state_changed reconnecting) v = set_engine_connected false v
accept room_disconnected v = handle_disconnected "voice-disconnected" v
accept (track_subscribed sid participant) v = handle_track_subscribed sid participant v
accept (track_unsubscribed sid) v = handle_track_unsubscribed sid v
accept (speakers_changed users) v = on_active_speakers (without_empty users) v

unfoldable pub report : ℕ → Report → Voice → Voice
report generation r v = if eqb generation v.engine.generation then accept r v else v
