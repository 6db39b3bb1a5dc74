-- ===== src/Voice/Place.antt =====
-- The voice part never changes where the user is: which guild, channel and direct thread are open.
pub mod Steps
pub mod Devices
pub mod Run
use mathlib.Core.Bool.{Bool-discrete}
use voxter.Common.{
  ℕ, ◌≡◌, refl, ap, ◌∙◌, String, Bool, true, false, not, ◌&&◌, ◌||◌, List, [], ◌∷◌, Option, none,
  some, arith, ite, ◌==◌, is_empty, if◌then◌else◌, string_dec, ℤ,
}
use voxter.Variant.{Value, Fields}
use voxter.Store.{AppStore, set_voice_participants}
use voxter.Store.Participants.{
  set_voice_participants_for_channel, set_voice_speaking_users, update_voice_participant_state,
  remove_voice_participant_from_all_channels, voice_participants_for_channel,
}
use voxter.Voice.{Voice, on_store, on_engine}
use voxter.Voice.Media.{
  set_error, set_engine_error, update_track_mute_state, start_input_capture, stop_input_capture,
  restart_input_capture, stop_remote_playback, stop_all_remote_playbacks, start_remote_playback,
  start_playbacks, rebuild_remote_playbacks, keep_track, handle_track_subscribed,
  handle_track_unsubscribed, set_engine_input, set_engine_output, set_session_context,
  clear_session_context, set_sfu_connection, set_microphone_gain, set_engine_muted,
  set_engine_deafened, set_transmit_enabled,
}
use voxter.Voice.Bridge.{
  dispatch_audio_settings, set_ptt_pressed, set_view_connected, set_view_muted, set_view_deafened,
  set_active_channel_id, on_connected_changed, set_engine_connected, on_active_speakers, stop_room,
  start, stop, handle_connected, take_down, handle_disconnected,
}

pub record Elsewhere : Type 0 where
  pub guild : String
  pub channel : String
  pub thread : String
  pub messages : List Value

unfoldable pub elsewhere : AppStore → Elsewhere
elsewhere s = record {
  guild = s.current_guild_id;
  channel = s.current_channel_id;
  thread = s.current_dm_thread_id;
  messages = s.messages;
}

-- The store's functions for the participants.

pub elsewhere-set_voice_participants :
    (l : List Value) (s : AppStore) → elsewhere (set_voice_participants l s) ≡ elsewhere s
unfolding elsewhere set_voice_participants
elsewhere-set_voice_participants l s = ground arith

pub elsewhere-set_for_channel :
    (c : String) (l : List Value) (s : AppStore)
    → elsewhere (set_voice_participants_for_channel c l s) ≡ elsewhere s
unfolding elsewhere set_voice_participants_for_channel
elsewhere-set_for_channel c l s = ground arith

pub elsewhere-set_speaking :
    (c : String) (l : List String) (s : AppStore)
    → elsewhere (set_voice_speaking_users c l s) ≡ elsewhere s
unfolding elsewhere set_voice_speaking_users
elsewhere-set_speaking c l s = ground arith

pub elsewhere-update :
    (c u : String) (p : Fields) (b : Bool) (s : AppStore)
    → elsewhere (update_voice_participant_state c u p b s) ≡ elsewhere s
unfolding elsewhere update_voice_participant_state
elsewhere-update c u p b s = ground arith

pub elsewhere-remove :
    (u c : String) (s : AppStore)
    → elsewhere (remove_voice_participant_from_all_channels u c s) ≡ elsewhere s
unfolding elsewhere remove_voice_participant_from_all_channels
elsewhere-remove u c s = ground arith

-- What leaves the whole store as it is.

pub store-set_engine_error : (e : String) (v : Voice) → (set_engine_error e v).store ≡ v.store
unfolding set_engine_error set_error
store-set_engine_error e v = ground arith

pub store-update_track : (v : Voice) → (update_track_mute_state v).store ≡ v.store
unfolding update_track_mute_state set_engine_error set_error
store-update_track v = ground arith

pub store-start_capture : (v : Voice) → (start_input_capture v).store ≡ v.store
unfolding start_input_capture set_engine_error set_error
store-start_capture v = ground arith

pub store-restart_capture : (v : Voice) → (restart_input_capture v).store ≡ v.store
unfolding restart_input_capture stop_input_capture
store-restart_capture v = store-start_capture (stop_input_capture v)

pub store-start_playback :
    (sid : String) (v : Voice) → (start_remote_playback sid v).store ≡ v.store
unfolding start_remote_playback stop_remote_playback set_engine_error set_error
store-start_playback sid v = ground arith

pub store-start_playbacks :
    (l : List (String × String)) (v : Voice) → (start_playbacks l v).store ≡ v.store
unfolding start_playbacks
store-start_playbacks [] v = refl
store-start_playbacks ((sid, p) ∷ l) v = store-start_playbacks l _ ∙ store-start_playback sid v

pub store-rebuild : (v : Voice) → (rebuild_remote_playbacks v).store ≡ v.store
unfolding rebuild_remote_playbacks stop_all_remote_playbacks
store-rebuild v = store-start_playbacks v.engine.remote_tracks (stop_all_remote_playbacks v)

pub store-set_input : (id : String) (v : Voice) → (set_engine_input id v).store ≡ v.store
unfolding set_engine_input
store-set_input id v = grind (arith, store-restart_capture)

pub store-set_output : (id : String) (v : Voice) → (set_engine_output id v).store ≡ v.store
unfolding set_engine_output
store-set_output id v =
    ground (arith, store-rebuild (on_engine (λ g. record g { selected_output_device_id = id }) v))

pub store-set_muted : (b : Bool) (v : Voice) → (set_engine_muted b v).store ≡ v.store
unfolding set_engine_muted
store-set_muted b v = grind (arith, store-update_track)

pub store-set_deafened : (b : Bool) (v : Voice) → (set_engine_deafened b v).store ≡ v.store
unfolding set_engine_deafened
store-set_deafened b v = grind (arith, store-update_track)

pub store-set_transmit : (b : Bool) (v : Voice) → (set_transmit_enabled b v).store ≡ v.store
unfolding set_transmit_enabled
store-set_transmit b v = grind (arith, store-update_track)

pub store-dispatch : (v : Voice) → (dispatch_audio_settings v).store ≡ v.store
unfolding dispatch_audio_settings set_microphone_gain
store-dispatch v =
    store-set_transmit _ _
    ∙ store-set_deafened _ _
    ∙ store-set_muted _ _
    ∙ store-set_output _ _
    ∙ store-set_input _ v

pub store-ptt : (b : Bool) (v : Voice) → (set_ptt_pressed b v).store ≡ v.store
unfolding set_ptt_pressed
store-ptt b v = grind (arith, store-dispatch)

pub store-view_connected : (b : Bool) (v : Voice) → (set_view_connected b v).store ≡ v.store
unfolding set_view_connected
store-view_connected b v = grind (arith, store-dispatch)

pub store-view_muted : (b : Bool) (v : Voice) → (set_view_muted b v).store ≡ v.store
unfolding set_view_muted
store-view_muted b v = grind (arith, store-dispatch)

pub store-view_deafened : (b : Bool) (v : Voice) → (set_view_deafened b v).store ≡ v.store
unfolding set_view_deafened
store-view_deafened b v = grind (arith, store-dispatch)

pub store-connected_changed : (b : Bool) (v : Voice) → (on_connected_changed b v).store ≡ v.store
unfolding on_connected_changed
store-connected_changed true v = store-view_connected true v
store-connected_changed false v = store-ptt false _ ∙ store-view_connected false v

pub store-engine_connected : (b : Bool) (v : Voice) → (set_engine_connected b v).store ≡ v.store
unfolding set_engine_connected
store-engine_connected b v = grind (arith, store-connected_changed)
