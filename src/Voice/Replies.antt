-- ===== src/Voice/Replies.antt =====
-- The calls and their answers leave the client private.
use voxter.Common.{String, Bool, true, false, List, arith, if◌then◌else◌}
use voxter.Variant.{Value, Fields, value, json_string}
use voxter.Api.{Answer, ok, failed}
use voxter.Voice.{Voice}
use voxter.Voice.Media.{set_error}
use voxter.Voice.Fetch.{
  hash_value, refresh_channel_participants, land, store_participants, on_fetched, on_retry_timer,
}
use voxter.Voice.Session.{
  leave_voice, toggle_mute, toggle_deafen, on_joined, on_token, on_mute_toggled, on_deafen_toggled,
}
use voxter.Voice.Core.{core}
use voxter.Voice.Machine.{core-set_view_muted, core-set_view_deafened}
use voxter.Voice.Privacy.{mute_view-IsPrivate, deafen_view-IsPrivate}
use voxter.Voice.Sending.{Private, by_core, by_frame, refresh-Private, open_line-Private}

pub on_token-Private :
    (guild channel : String) (a : Answer Fields) (v : Voice)
    → Private v
    → Private (on_token guild channel a v)
unfolding on_token set_error
on_token-Private guild channel (failed e) v h = by_frame h
on_token-Private guild channel (ok payload) v h = ground (
  arith,
  open_line-Private guild channel (json_string (value payload "url"))
      (json_string (value payload "token")) v h,
)

pub on_joined-Private :
    (guild channel : String) (a : Answer Fields) (v : Voice)
    → Private v
    → Private (on_joined guild channel a v)
unfolding on_joined set_error
on_joined-Private guild channel (failed e) v h = by_frame h
on_joined-Private guild channel (ok _) v h = by_frame h

pub leave_voice-Private : (v : Voice) → Private v → Private (leave_voice v)
unfolding leave_voice
leave_voice-Private v h = ground arith

pub toggle_mute-Private : (v : Voice) → Private v → Private (toggle_mute v)
unfolding toggle_mute
toggle_mute-Private v h = ground arith

pub toggle_deafen-Private : (v : Voice) → Private v → Private (toggle_deafen v)
unfolding toggle_deafen
toggle_deafen-Private v h = ground arith

pub on_mute_toggled-Private :
    (b : Bool) (a : Answer Fields) (v : Voice) → Private v → Private (on_mute_toggled b a v)
unfolding on_mute_toggled set_error
on_mute_toggled-Private b (failed e) v h = by_frame h
on_mute_toggled-Private b (ok _) v h =
    by_core (core-set_view_muted b v) (mute_view-IsPrivate b (core v) h)

pub on_deafen_toggled-Private :
    (b : Bool) (a : Answer Fields) (v : Voice) → Private v → Private (on_deafen_toggled b a v)
unfolding on_deafen_toggled set_error
on_deafen_toggled-Private b (failed e) v h = by_frame h
on_deafen_toggled-Private b (ok _) v h =
    by_core (core-set_view_deafened b v) (deafen_view-IsPrivate b (core v) h)

pub on_retry_timer-Private :
    (channel : String) (v : Voice) → Private v → Private (on_retry_timer channel v)
unfolding on_retry_timer
on_retry_timer-Private channel v h = refresh-Private channel true _ (by_frame h)

pub refresh_if-Private :
    (force : Bool) (channel : String) (v : Voice)
    → Private v
    → Private (if force then refresh_channel_participants channel true v else v)
refresh_if-Private true channel v h = refresh-Private channel true v h
refresh_if-Private false channel v h = h

module _ (to_lower : String → String) where
  pub on_fetched-Private :
      (channel : String) (sync : Bool) (a : Answer (List Value)) (v : Voice)
      → Private v
      → Private (on_fetched to_lower channel sync a v)
  unfolding on_fetched set_error land store_participants
  on_fetched-Private channel sync (ok participants) v h =
      refresh_if-Private _ channel _ (by_frame h)
  on_fetched-Private channel sync (failed e) v h =
      let forced = hash_value v.view.pending_participant_fetch_force channel false in
      ground (arith, refresh_if-Private forced channel (set_error e (land channel v)) (by_frame h))
