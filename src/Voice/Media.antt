-- ===== src/Voice/Media.antt =====
-- NativeVoiceEngine: capture, playback and the state of the local track.
use voxter.Common.{
  ℕ, String, Bool, true, false, not, ◌&&◌, ◌||◌, List, [], ◌∷◌, Option, none, some, ite, ◌==◌,
  is_empty, if◌then◌else◌, ltb, ◌<>◌,
}
use mathlib.Core.Bool.{Bool-discrete}
use voxter.Voice.{Engine, LocalTrack, no_track, muted_track, live_track, Voice, on_engine, on_view}

-- VoiceViewModel::setError, which the engine's errorChanged also calls
unfoldable pub set_error : String → Voice → Voice
set_error e = on_view (λ m. record m { error = e })

-- NativeVoiceEngine::setError
unfoldable pub set_engine_error : String → Voice → Voice
unfolding set_error
set_engine_error e v =
    if v.engine.error == e then v else set_error e (on_engine (λ g. record g { error = e }) v)

abbrev should_transmit : Engine → Bool
should_transmit g = g.started && g.connected && g.transmit_enabled && not g.muted && not g.deafened

abbrev has_track : LocalTrack → Bool
has_track no_track = false
has_track _ = true

-- the calls of LiveKit on the local track
abbrev apply_mute : Option String → Bool → Voice → Voice
apply_mute (some message) live v = set_engine_error ("voice-error:" <> message) v
apply_mute none live v =
    on_engine (λ g. record g { local_track = if live then live_track else muted_track }) v

unfoldable pub update_track_mute_state : Voice → Voice
unfolding set_engine_error
update_track_mute_state v =
    let live = should_transmit v.engine in
    let marked =
      on_engine (λ g. record g { transmitting_now = live; deafened_now = g.deafened }) v in
    if has_track v.engine.local_track then apply_mute v.host.mute_fault live marked else marked

unfoldable pub stop_input_capture : Voice → Voice
stop_input_capture = on_engine (λ g. record g { capturing = false; input_buffer = [] })

unfoldable pub start_input_capture : Voice → Voice
unfolding set_engine_error
start_input_capture v =
    if not v.engine.started || not v.engine.connected || not v.engine.has_source
    then v
    else if not v.host.format_supported
    then set_engine_error "voice-error:microphone format is not supported" v
    else if not v.host.microphone_starts
    then set_engine_error "voice-error:failed to start microphone"
        (on_engine (λ g. record g { capturing = false }) v)
    else on_engine (λ g. record g { capturing = true; input_buffer = [] }) v

unfoldable pub restart_input_capture : Voice → Voice
unfolding stop_input_capture start_input_capture
restart_input_capture v = start_input_capture (stop_input_capture v)

-- a map keyed by the id of a track
abbrev erase_track : String → List (String × String) → List (String × String)
erase_track sid [] = []
erase_track sid ((s, p) ∷ r) = if s == sid then erase_track sid r else (s, p) ∷ erase_track sid r

abbrev erase_playback : String → List String → List String
erase_playback sid [] = []
erase_playback sid (s ∷ r) = if s == sid then erase_playback sid r else s ∷ erase_playback sid r

unfoldable pub stop_remote_playback : String → Voice → Voice
stop_remote_playback sid =
    on_engine (λ g. record g { remote_playbacks = erase_playback sid g.remote_playbacks })

unfoldable pub stop_all_remote_playbacks : Voice → Voice
stop_all_remote_playbacks = on_engine (λ g. record g { remote_playbacks = [] })

abbrev start_stream : Option String → String → Voice → Voice
start_stream (some message) sid v = set_engine_error ("voice-error:" <> message) v
start_stream none sid v =
    on_engine (λ g. record g { remote_playbacks = sid ∷ g.remote_playbacks }) v

-- only audio tracks are kept, so the test on the kind of the track holds here
unfoldable pub start_remote_playback : String → Voice → Voice
unfolding stop_remote_playback set_engine_error
start_remote_playback sid v = start_stream v.host.stream_fault sid (stop_remote_playback sid v)

unfoldable pub start_playbacks : List (String × String) → Voice → Voice
start_playbacks [] v = v
start_playbacks ((sid, _) ∷ r) v = start_playbacks r (start_remote_playback sid v)

unfoldable pub rebuild_remote_playbacks : Voice → Voice
unfolding stop_all_remote_playbacks start_playbacks start_remote_playback
rebuild_remote_playbacks v = start_playbacks v.engine.remote_tracks (stop_all_remote_playbacks v)

unfoldable pub keep_track : String → String → Voice → Voice
keep_track sid participant =
    on_engine
      (λ g. record g { remote_tracks = (sid, participant) ∷ erase_track sid g.remote_tracks })

unfoldable pub handle_track_subscribed : String → String → Voice → Voice
handle_track_subscribed sid participant v =
    if is_empty sid then v else start_remote_playback sid (keep_track sid participant v)

unfoldable pub handle_track_unsubscribed : String → Voice → Voice
unfolding stop_remote_playback
handle_track_unsubscribed sid v =
    if is_empty sid
    then v
    else stop_remote_playback sid
        (on_engine (λ g. record g { remote_tracks = erase_track sid g.remote_tracks }) v)

-- The setters that the view model calls.

unfoldable pub set_engine_input : String → Voice → Voice
unfolding restart_input_capture
set_engine_input id v =
    let chosen = on_engine (λ g. record g { selected_input_device_id = id }) v in
    if v.engine.selected_input_device_id == id
    then v
    else if v.engine.started
    then restart_input_capture chosen
    else chosen

unfoldable pub set_engine_output : String → Voice → Voice
unfolding rebuild_remote_playbacks
set_engine_output id v =
    let chosen = on_engine (λ g. record g { selected_output_device_id = id }) v in
    if v.engine.selected_output_device_id == id
    then v
    else if v.engine.started
    then rebuild_remote_playbacks chosen
    else chosen

unfoldable pub set_session_context : String → String → Voice → Voice
set_session_context guild channel =
    on_engine (λ g. record g { guild_id = guild; channel_id = channel })

unfoldable pub clear_session_context : Voice → Voice
clear_session_context = on_engine (λ g. record g { guild_id = ""; channel_id = "" })

unfoldable pub set_sfu_connection : String → String → Voice → Voice
set_sfu_connection url token = on_engine (λ g. record g { sfu_url = url; sfu_token = token })

-- in hundredths, of which the view model sends 0 to 200
unfoldable pub normalize_microphone_gain : ℕ → ℕ
normalize_microphone_gain gain = if ltb 300 gain then 300 else gain

unfoldable pub set_microphone_gain : ℕ → Voice → Voice
unfolding normalize_microphone_gain
set_microphone_gain gain =
    on_engine (λ g. record g { microphone_gain = normalize_microphone_gain gain })

unfoldable pub set_engine_muted : Bool → Voice → Voice
unfolding update_track_mute_state
set_engine_muted muted v =
    ite (Bool-discrete v.engine.muted muted) v
      (update_track_mute_state (on_engine (λ g. record g { muted = muted }) v))

unfoldable pub set_engine_deafened : Bool → Voice → Voice
unfolding update_track_mute_state
set_engine_deafened deafened v = ite (Bool-discrete v.engine.deafened deafened) v (
    update_track_mute_state
      (on_engine (λ g. record g { deafened = deafened; deafened_now = deafened }) v))

unfoldable pub set_transmit_enabled : Bool → Voice → Voice
unfolding update_track_mute_state
set_transmit_enabled enabled v =
    ite (Bool-discrete v.engine.transmit_enabled enabled) v
      (update_track_mute_state (on_engine (λ g. record g { transmit_enabled = enabled }) v))
