-- ===== src/Voice/Sending.antt =====
-- Sound leaves the client only while the user's settings allow it: joining and leaving.
use voxter.Common.{◌≡◌, sym, ap, ◌∙◌, ◌+◌, ◌%◌, ◌^◌, String, Bool, true, false, List, arith, subst}
use voxter.Variant.{Fields}
use voxter.Api.{Answer, ok, failed}
use voxter.Voice.{Voice, Pending, on_engine}
use voxter.Voice.Media.{
  set_error, set_session_context, set_sfu_connection, set_engine_muted, set_engine_deafened,
}
use voxter.Voice.Bridge.{dispatch_audio_settings, set_active_channel_id, start}
use voxter.Voice.Fetch.{fetch_channel_participants, load_participants, refresh_channel_participants}
use voxter.Voice.Session.{
  join_voice, enter_channel, tear_down, forget_channel, on_switched, open_line, on_left,
}
use voxter.Voice.Events.{on_self_leave}
use voxter.Voice.Core.{
  Core, core, dispatch, set_muted, set_deafened, core-dispatch, core-set_engine_muted,
  core-set_engine_deafened, core-update_track_mute_state, core-set_engine_error,
}
use voxter.Voice.Machine.{press_ptt, connect_view}
use voxter.Voice.Privacy.{
  Quiet, IsPrivate, dispatch-IsPrivate, press_ptt-IsPrivate, connect_view-IsPrivate,
  refresh-IsPrivate, stop_core-IsPrivate, clear_channel-IsPrivate, press_ptt-view_connected,
  connect_view-view_connected, stop_core-view_connected,
}
use voxter.Voice.Effects

-- The property on the whole state.
abbrev pub Private : Voice → Type 0
Private v = IsPrivate (core v)

-- A function that does to `core` what keeps the property.
pub by_core : {c d : Core} → d ≡ c → IsPrivate c → IsPrivate d
by_core e h = subst IsPrivate (sym e) h

-- The fields of the calls are not looked at.
pub by_frame :
    {c : Core} {j : String} {b : Bool} {l : List String} {p : List Pending}
    → IsPrivate c
    → IsPrivate (record c {
      joining_channel_id = j;
      leave_in_progress = b;
      participant_fetch_in_flight = l;
      pending = p;
    })
by_frame h = record {
  same_muted = h.same_muted;
  same_deafened = h.same_deafened;
  same_transmit = h.same_transmit;
  quiet = h.quiet;
}

hang_up : (c : Core) → IsPrivate c → IsPrivate (press_ptt false (connect_view false c))
hang_up c h = press_ptt-IsPrivate false _ (connect_view-IsPrivate false c h)

hung_up : (c : Core) → (press_ptt false (connect_view false c)).view_connected ≡ false
hung_up c = press_ptt-view_connected false _ ∙ connect_view-view_connected false c

pub tear_down-Private : (v : Voice) → Private v → Private (tear_down v)
tear_down-Private v h =
    by_core (Effects.core-tear_down v)
      (stop_core-IsPrivate _ (clear_channel-IsPrivate _ (hung_up (core v)) (hang_up (core v) h)))

pub on_self_leave-Private : (v : Voice) → Private v → Private (on_self_leave v)
on_self_leave-Private v h = by_core (Effects.core-on_self_leave v) (
    clear_channel-IsPrivate _ (stop_core-view_connected _ (hung_up (core v)))
      (stop_core-IsPrivate _ (hang_up (core v) h)))

fetch-Private :
    (channel : String) (sync : Bool) (v : Voice)
    → Private v
    → Private (fetch_channel_participants channel sync v)
unfolding fetch_channel_participants
fetch-Private channel sync v h = ground arith

pub refresh-Private :
    (channel : String) (force : Bool) (v : Voice)
    → Private v
    → Private (refresh_channel_participants channel force v)
unfolding refresh_channel_participants fetch_channel_participants
refresh-Private channel force v h = ground arith

pub forget_channel-Private :
    (channel : String) (v : Voice) → Private v → Private (forget_channel channel v)
unfolding forget_channel
forget_channel-Private channel v h =
    refresh-Private channel true _ (by_core (Effects.core-prune channel _) h)

pub join_voice-Private : (channel : String) (v : Voice) → Private v → Private (join_voice channel v)
unfolding join_voice enter_channel set_error
join_voice-Private channel v h = ground arith

pub on_switched-Private :
    (channel previous : String) (a : Answer Fields) (v : Voice)
    → Private v
    → Private (on_switched channel previous a v)
unfolding on_switched set_error
on_switched-Private channel previous (failed e) v h = ground arith
on_switched-Private channel previous (ok _) v h =
    join_voice-Private channel _
      (forget_channel-Private previous _ (tear_down-Private _ (by_frame h)))

pub on_left-Private :
    (channel : String) (a : Answer Fields) (v : Voice) → Private v → Private (on_left channel a v)
unfolding on_left set_error
on_left-Private channel (failed e) v h = ground arith
on_left-Private channel (ok _) v h =
    by_frame (forget_channel-Private channel _ (by_frame (tear_down-Private _ (by_frame h))))

set_flags-Quiet : (b d : Bool) (c : Core) → Quiet c → Quiet (set_deafened d (set_muted b c))
unfolding set_deafened set_muted
set_flags-Quiet b d c q = ground arith

abbrev begin : Core → Core
begin c = record c { started = true }

begin-IsPrivate : (c : Core) → IsPrivate c → IsPrivate (begin c)
begin-IsPrivate c h = record {
  same_muted = h.same_muted;
  same_deafened = h.same_deafened;
  same_transmit = h.same_transmit;
  quiet = ground arith;
}

abbrev begin_engine : Voice → Voice
begin_engine =
    on_engine (λ g. record g { started = true; generation = (g.generation + 1) % 2 ^ 64 })

start-Private : (v : Voice) → Private v → Private (start v)
unfolding start
start-Private v h = ground (
  arith,
  by_core (core-update_track_mute_state v) (refresh-IsPrivate (core v) h),
  by_core (core-set_engine_error "Missing SFU token" v) h,
  by_core (core-set_engine_error "" (begin_engine v)) (begin-IsPrivate (core v) h),
)

-- the flags that the engine is told before it starts
told-Private :
    (v : Voice)
    → Quiet (core v)
    → Private (
        dispatch_audio_settings
          (set_engine_deafened v.view.deafened (set_engine_muted v.view.muted v)))
told-Private v q =
    by_core
      (core-dispatch _
        ∙ ap dispatch (
            core-set_engine_deafened v.view.deafened _
            ∙ ap (set_deafened v.view.deafened) (core-set_engine_muted v.view.muted v)))
      (dispatch-IsPrivate _ (set_flags-Quiet v.view.muted v.view.deafened (core v) q))

pub open_line-Private :
    (guild channel url sfu_token : String) (v : Voice)
    → Private v
    → Private (open_line guild channel url sfu_token v)
unfolding open_line set_session_context set_sfu_connection set_active_channel_id load_participants
    set_error
open_line-Private guild channel url sfu_token v h =
    by_frame (fetch-Private _ true _ (start-Private _ (told-Private _ h.quiet)))
