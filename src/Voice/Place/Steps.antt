-- ===== src/Voice/Place/Steps.antt =====
-- What LiveKit reports and the answers about participants do not change the elsewhere.
use voxter.Common.{ℕ, ◌≡◌, refl, ap, ◌∙◌, String, Bool, true, false, List, [], arith, if◌then◌else◌}
use voxter.Variant.{Value}
use voxter.Api.{Answer, ok, failed}
use voxter.Store.Participants.{
  set_voice_participants_for_channel, set_voice_speaking_users, voice_participants_for_channel,
}
use voxter.Voice.{Voice}
use voxter.Voice.Media.{
  set_error, set_engine_error, start_input_capture, handle_track_subscribed,
  handle_track_unsubscribed, keep_track, stop_remote_playback, stop_input_capture,
  stop_all_remote_playbacks,
}
use voxter.Voice.Bridge.{
  set_engine_connected, on_active_speakers, stop_room, stop, handle_connected, take_down,
  handle_disconnected,
}
use voxter.Voice.Fetch.{
  fetch_channel_participants, refresh_channel_participants, land, store_participants, on_fetched,
  prune_current_user_from_channel, hash_value,
}
use voxter.Voice.Session.{forget_channel}
use voxter.Voice.Connection.{
  Report, report, accept, connect_failed, room_ready, state_changed, connected, disconnected,
  reconnecting, room_disconnected, track_subscribed, track_unsubscribed, speakers_changed,
}
use voxter.Voice.Place.{
  Elsewhere, elsewhere, elsewhere-set_voice_participants, elsewhere-set_for_channel,
  elsewhere-set_speaking, store-set_engine_error, store-update_track, store-start_capture,
  store-start_playback, store-engine_connected,
}

-- where the user of a voice part is
abbrev pub at : Voice → Elsewhere
at v = elsewhere v.store

pub at-speakers : (l : List String) (v : Voice) → at (on_active_speakers l v) ≡ at v
unfolding on_active_speakers
at-speakers l v =
    let c = v.view.active_channel_id in
    let marked = set_voice_speaking_users c l v.store in
    ground (
      arith,
      elsewhere-set_speaking c l v.store,
      elsewhere-set_voice_participants (voice_participants_for_channel c marked) marked,
    )

pub store-stop_room : (v : Voice) → (stop_room v).store ≡ v.store
unfolding stop_room stop_all_remote_playbacks stop_input_capture
store-stop_room v = refl

pub at-stop : (v : Voice) → at (stop v) ≡ at v
unfolding stop
at-stop v = at-speakers [] _ ∙ ap elsewhere (store-engine_connected false _ ∙ store-stop_room _)

pub at-take_down : (v : Voice) → at (take_down v) ≡ at v
unfolding take_down
at-take_down v =
    at-speakers [] _ ∙ ap elsewhere (store-engine_connected false _ ∙ store-stop_room v)

pub at-disconnected : (e : String) (v : Voice) → at (handle_disconnected e v) ≡ at v
unfolding handle_disconnected
at-disconnected e v = ground (arith, at-take_down v, store-set_engine_error e (take_down v))

pub store-connected : (v : Voice) → (handle_connected v).store ≡ v.store
unfolding handle_connected
store-connected v =
    let w = set_engine_error "" (set_engine_connected true v) in
    ground (
      arith,
      store-update_track (start_input_capture w),
      store-start_capture w,
      store-set_engine_error "" (set_engine_connected true v),
      store-engine_connected true v,
    )

pub store-subscribed :
    (sid p : String) (v : Voice) → (handle_track_subscribed sid p v).store ≡ v.store
unfolding handle_track_subscribed keep_track
store-subscribed sid p v = ground (arith, store-start_playback sid (keep_track sid p v))

pub store-unsubscribed :
    (sid : String) (v : Voice) → (handle_track_unsubscribed sid v).store ≡ v.store
unfolding handle_track_unsubscribed stop_remote_playback
store-unsubscribed sid v = ground arith

pub at-accept : (r : Report) (v : Voice) → at (accept r v) ≡ at v
unfolding accept
at-accept (connect_failed e) v = at-disconnected e v
at-accept room_ready v = ap elsewhere (store-connected _)
at-accept (state_changed connected) v = ap elsewhere (store-connected v)
at-accept (state_changed disconnected) v = at-disconnected _ v
at-accept (state_changed reconnecting) v = ap elsewhere (store-engine_connected false v)
at-accept room_disconnected v = at-disconnected _ v
at-accept (track_subscribed sid p) v = ap elsewhere (store-subscribed sid p v)
at-accept (track_unsubscribed sid) v = ap elsewhere (store-unsubscribed sid v)
at-accept (speakers_changed l) v = at-speakers _ v

pub at-report : (n : ℕ) (r : Report) (v : Voice) → at (report n r v) ≡ at v
unfolding report
at-report n r v = ground (arith, at-accept r v)

-- The participants.

pub at-fetch : (c : String) (b : Bool) (v : Voice) → at (fetch_channel_participants c b v) ≡ at v
unfolding fetch_channel_participants
at-fetch c b v = ground arith

pub at-refresh :
    (c : String) (b : Bool) (v : Voice) → at (refresh_channel_participants c b v) ≡ at v
unfolding refresh_channel_participants fetch_channel_participants
at-refresh c b v = ground arith

pub at-prune : (c : String) (v : Voice) → at (prune_current_user_from_channel c v) ≡ at v
unfolding prune_current_user_from_channel
at-prune c v = grind (arith, elsewhere-set_for_channel)

pub at-forget : (c : String) (v : Voice) → at (forget_channel c v) ≡ at v
unfolding forget_channel
at-forget c v = at-refresh c true _ ∙ at-prune c _ ∙ elsewhere-set_voice_participants [] v.store

pub at-store_participants :
    (c : String) (b : Bool) (l : List Value) (v : Voice) → at (store_participants c b l v) ≡ at v
unfolding store_participants
at-store_participants c b l v =
    let kept = set_voice_participants_for_channel c l v.store in
    ground (arith, elsewhere-set_for_channel c l v.store, elsewhere-set_voice_participants l kept)

pub at-refresh_if :
    (b : Bool) (c : String) (v : Voice)
    → at (if b then refresh_channel_participants c true v else v) ≡ at v
at-refresh_if true c v = at-refresh c true v
at-refresh_if false c v = refl

pub at-fetched :
    (to_lower : String → String) (c : String) (b : Bool) (a : Answer (List Value)) (v : Voice)
    → at (on_fetched to_lower c b a v) ≡ at v
unfolding on_fetched set_error land
at-fetched to_lower c b (ok l) v = at-refresh_if _ c _ ∙ at-store_participants c b l (land c v)
at-fetched to_lower c b (failed e) v =
    let forced = hash_value v.view.pending_participant_fetch_force c false in
    ground (arith, at-refresh_if forced c (set_error e (land c v)))
