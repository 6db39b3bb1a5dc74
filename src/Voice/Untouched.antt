-- ===== src/Voice/Untouched.antt =====
-- What of the voice part leaves the calls in flight and their flags alone.
use voxter.Common.{ℕ, ◌+◌, ◌%◌, ◌^◌, ◌≡◌, ap, ◌∙◌, ◌⊎◌, inl, inr, String, Bool, true, false, arith}
use voxter.Voice.{Voice, on_engine}
use voxter.Voice.Media.{set_engine_muted, set_engine_deafened}
use voxter.Voice.Bridge.{dispatch_audio_settings, start}
use voxter.Voice.Session.{tear_down}
use voxter.Voice.Events.{show_active, on_self_leave}
use voxter.Voice.Connection.{Report, report, accept}
use voxter.Voice.Core.{
  Core, core, dispatch, set_muted, set_deafened, core-dispatch, core-set_engine_muted,
  core-set_engine_deafened, core-update_track_mute_state, core-set_engine_error,
}
use voxter.Voice.Machine.{
  core-handle_connected, core-handle_disconnected, core-set_engine_connected,
  core-on_active_speakers,
}
use voxter.Voice.Privacy.{
  jobs, jobs-dispatch, jobs-press_ptt, jobs-connect_view, jobs-connect_engine, jobs-stop_core,
  jobs-connected_core,
}
use voxter.Voice.Effects
use voxter.Voice.Connection.{
  connect_failed, room_ready, state_changed, connected, disconnected, reconnecting,
  room_disconnected, track_subscribed, track_unsubscribed, speakers_changed,
}
use voxter.Voice.Calls.{jobs_of}

pub jobs-tear_down : (v : Voice) → jobs_of (tear_down v) ≡ jobs_of v
jobs-tear_down v =
    ap jobs (Effects.core-tear_down v)
    ∙ jobs-stop_core _
    ∙ jobs-press_ptt false _
    ∙ jobs-connect_view false (core v)

pub jobs-on_self_leave : (v : Voice) → jobs_of (on_self_leave v) ≡ jobs_of v
jobs-on_self_leave v =
    ap jobs (Effects.core-on_self_leave v)
    ∙ jobs-stop_core _
    ∙ jobs-press_ptt false _
    ∙ jobs-connect_view false (core v)

pub jobs-start : (v : Voice) → jobs_of (start v) ≡ jobs_of v
unfolding start
jobs-start v = ground (
  arith,
  core-update_track_mute_state v,
  core-set_engine_error "Missing SFU token" v,
  core-set_engine_error ""
      (on_engine (λ g. record g { started = true; generation = (g.generation + 1) % 2 ^ 64 }) v),
)

jobs-accept : (r : Report) (v : Voice) → jobs_of (accept r v) ≡ jobs_of v
unfolding accept
jobs-accept (connect_failed e) v = ap jobs (core-handle_disconnected e v) ∙ jobs-stop_core (core v)
jobs-accept room_ready v = ap jobs (core-handle_connected _) ∙ jobs-connected_core (core v)
jobs-accept (state_changed connected) v =
    ap jobs (core-handle_connected v) ∙ jobs-connected_core (core v)
jobs-accept (state_changed disconnected) v =
    ap jobs (core-handle_disconnected _ v) ∙ jobs-stop_core (core v)
jobs-accept (state_changed reconnecting) v =
    ap jobs (core-set_engine_connected false v) ∙ jobs-connect_engine false (core v)
jobs-accept room_disconnected v = ap jobs (core-handle_disconnected _ v) ∙ jobs-stop_core (core v)
jobs-accept (track_subscribed sid participant) v =
    ap jobs (Effects.core-handle_track_subscribed sid participant v)
jobs-accept (track_unsubscribed sid) v = ap jobs (Effects.core-handle_track_unsubscribed sid v)
jobs-accept (speakers_changed users) v = ap jobs (core-on_active_speakers _ v)

pub jobs-report : (n : ℕ) (r : Report) (v : Voice) → jobs_of (report n r v) ≡ jobs_of v
unfolding report
jobs-report n r v = ground (arith, jobs-accept r v)

pub jobs-show_active : (c : String) (v : Voice) → jobs_of (show_active c v) ≡ jobs_of v
unfolding show_active
jobs-show_active c v = ground arith

-- A setter that ends with the bridge or changes nothing.
pub jobs-bridge :
    {before after : Core} (c : Core)
    → (after ≡ before) ⊎ (after ≡ dispatch c)
    → jobs c ≡ jobs before
    → jobs after ≡ jobs before
jobs-bridge c (inl e) k = ap jobs e
jobs-bridge c (inr e) k = ap jobs e ∙ jobs-dispatch c ∙ k

jobs-flags : (b d : Bool) (c : Core) → jobs (set_deafened d (set_muted b c)) ≡ jobs c
unfolding set_deafened set_muted
jobs-flags b d c = ground arith

pub jobs-told :
    (v : Voice)
    → jobs_of (
        dispatch_audio_settings
          (set_engine_deafened v.view.deafened (set_engine_muted v.view.muted v)))
      ≡ jobs_of v
jobs-told v =
    ap jobs (
      core-dispatch _
      ∙ ap dispatch (
          core-set_engine_deafened v.view.deafened _
          ∙ ap (set_deafened v.view.deafened) (core-set_engine_muted v.view.muted v)))
    ∙ jobs-dispatch _
    ∙ jobs-flags v.view.muted v.view.deafened (core v)
