-- ===== src/Voice/Privacy.antt =====
-- Sound leaves the client only while the user's settings allow it: what each function on `Core`
-- keeps.
use voxter.Common.{◌≡◌, refl, ◌⊎◌, inl, String, Bool, true, false, ◌&&◌, List, arith, if◌then◌else◌}
use voxter.Voice.{Pending}
use voxter.Voice.Bridge.{is_push_to_talk}
use voxter.Voice.Core.{Core, refresh, wanted, dispatch, set_muted, set_deafened, set_transmit}
use voxter.Voice.Machine.{
  press_ptt, connect_view, mute_view, deafen_view, connect_engine, stop_core, connected_core,
}

-- Sending implies that the engine is started, may transmit, and is neither muted nor deafened.
abbrev pub Quiet : Core → Type 0
Quiet c =
    (c.transmitting_now ≡ false)
    ⊎ ((c.started ≡ true) × (c.transmit_enabled ≡ true) × (c.muted ≡ false) × (c.deafened ≡ false))

-- The engine has the settings of the view model, and sends only under them.
pub record IsPrivate (c : Core) : Type 0 where
  pub same_muted : c.muted ≡ c.view_muted
  pub same_deafened : c.deafened ≡ c.view_deafened
  pub same_transmit : c.transmit_enabled ≡ wanted c
  pub quiet : Quiet c

dispatch-eq :
    (c : Core)
    → dispatch c ≡ record c {
      muted = c.view_muted;
      deafened = c.view_deafened;
      transmit_enabled = wanted c;
      transmitting_now = (dispatch c).transmitting_now;
    }
unfolding dispatch set_muted set_deafened set_transmit
dispatch-eq c = ground arith

dispatch-Quiet : (c : Core) → Quiet c → Quiet (dispatch c)
unfolding dispatch set_muted set_deafened set_transmit
dispatch-Quiet c q = ground arith

-- From any settings, the bridge makes them the same on both sides.
pub dispatch-IsPrivate : (c : Core) → Quiet c → IsPrivate (dispatch c)
dispatch-IsPrivate c q = record {
  same_muted = cc (dispatch-eq c);
  same_deafened = cc (dispatch-eq c);
  same_transmit = rw dispatch-eq refl;
  quiet = dispatch-Quiet c q;
}

pub press_ptt-IsPrivate : (b : Bool) (c : Core) → IsPrivate c → IsPrivate (press_ptt b c)
unfolding press_ptt
press_ptt-IsPrivate b c h = ground (
  arith,
  dispatch-IsPrivate (record c { ptt_pressed = is_push_to_talk c.activation_mode && b }) h.quiet,
)

pub connect_view-IsPrivate : (b : Bool) (c : Core) → IsPrivate c → IsPrivate (connect_view b c)
unfolding connect_view
connect_view-IsPrivate b c h = ground (
  arith,
  dispatch-IsPrivate
      (record c { view_connected = b; ptt_pressed = if b then c.ptt_pressed else false }) h.quiet,
)

pub mute_view-IsPrivate : (b : Bool) (c : Core) → IsPrivate c → IsPrivate (mute_view b c)
unfolding mute_view
mute_view-IsPrivate b c h = ground (arith, dispatch-IsPrivate (record c { view_muted = b }) h.quiet)

pub deafen_view-IsPrivate : (b : Bool) (c : Core) → IsPrivate c → IsPrivate (deafen_view b c)
unfolding deafen_view
deafen_view-IsPrivate b c h =
    ground (arith, dispatch-IsPrivate (record c { view_deafened = b }) h.quiet)

abbrev link : Bool → Core → Core
link b c = record c { connected = b }

link-IsPrivate : (b : Bool) (c : Core) → IsPrivate c → IsPrivate (link b c)
link-IsPrivate b c h = record {
  same_muted = h.same_muted;
  same_deafened = h.same_deafened;
  same_transmit = h.same_transmit;
  quiet = h.quiet;
}

pub connect_engine-IsPrivate : (b : Bool) (c : Core) → IsPrivate c → IsPrivate (connect_engine b c)
unfolding connect_engine
connect_engine-IsPrivate true c h =
    ground (arith, connect_view-IsPrivate true (link true c) (link-IsPrivate true c h))
connect_engine-IsPrivate false c h = ground (
  arith,
  press_ptt-IsPrivate false (connect_view false (link false c))
      (connect_view-IsPrivate false (link false c) (link-IsPrivate false c h)),
)

pub refresh-IsPrivate : (c : Core) → IsPrivate c → IsPrivate (refresh c)
refresh-IsPrivate c h = record {
  same_muted = h.same_muted;
  same_deafened = h.same_deafened;
  same_transmit = h.same_transmit;
  quiet = ground arith;
}

abbrev halt : Core → Core
halt c = record c { started = false; transmitting_now = false }

halt-IsPrivate : (c : Core) → IsPrivate c → IsPrivate (halt c)
halt-IsPrivate c h = record {
  same_muted = h.same_muted;
  same_deafened = h.same_deafened;
  same_transmit = h.same_transmit;
  quiet = inl refl;
}

pub stop_core-IsPrivate : (c : Core) → IsPrivate c → IsPrivate (stop_core c)
unfolding stop_core
stop_core-IsPrivate c h = connect_engine-IsPrivate false (halt c) (halt-IsPrivate c h)

pub connected_core-IsPrivate : (c : Core) → IsPrivate c → IsPrivate (connected_core c)
unfolding connected_core
connected_core-IsPrivate c h =
    ground (arith, refresh-IsPrivate (connect_engine true c) (connect_engine-IsPrivate true c h))

-- The active channel counts only while the view model is connected.
pub clear_channel-IsPrivate :
    (c : Core)
    → c.view_connected ≡ false
    → IsPrivate c
    → IsPrivate (record c { active_channel_id = "" })
clear_channel-IsPrivate c d h = ground arith

-- A view model that has hung up stays so while the engine stops.
dispatch-view_connected : (c : Core) → (dispatch c).view_connected ≡ c.view_connected
dispatch-view_connected c = cc (dispatch-eq c)

pub press_ptt-view_connected :
    (b : Bool) (c : Core) → (press_ptt b c).view_connected ≡ c.view_connected
unfolding press_ptt
press_ptt-view_connected b c = ground (
  arith,
  dispatch-view_connected (record c { ptt_pressed = is_push_to_talk c.activation_mode && b }),
)

pub connect_view-view_connected : (b : Bool) (c : Core) → (connect_view b c).view_connected ≡ b
unfolding connect_view
connect_view-view_connected b c = ground (
  arith,
  dispatch-view_connected
      (record c { view_connected = b; ptt_pressed = if b then c.ptt_pressed else false }),
)

pub stop_core-view_connected :
    (c : Core) → c.view_connected ≡ false → (stop_core c).view_connected ≡ false
unfolding stop_core connect_engine
stop_core-view_connected c d = ground (
  arith,
  press_ptt-view_connected false (connect_view false (link false (halt c))),
  connect_view-view_connected false (link false (halt c)),
)

-- The part about the calls, which the bridge leaves alone.
pub record Jobs : Type 0 where
  pub joining_channel_id : String
  pub leave_in_progress : Bool
  pub participant_fetch_in_flight : List String
  pub pending : List Pending

abbrev pub jobs : Core → Jobs
jobs c = record {
  joining_channel_id = c.joining_channel_id;
  leave_in_progress = c.leave_in_progress;
  participant_fetch_in_flight = c.participant_fetch_in_flight;
  pending = c.pending;
}

pub jobs-dispatch : (c : Core) → jobs (dispatch c) ≡ jobs c
jobs-dispatch c = cc (dispatch-eq c)

pub jobs-press_ptt : (b : Bool) (c : Core) → jobs (press_ptt b c) ≡ jobs c
unfolding press_ptt
jobs-press_ptt b c =
    ground
      (arith, jobs-dispatch (record c { ptt_pressed = is_push_to_talk c.activation_mode && b }))

pub jobs-connect_view : (b : Bool) (c : Core) → jobs (connect_view b c) ≡ jobs c
unfolding connect_view
jobs-connect_view b c = ground (
  arith,
  jobs-dispatch (record c { view_connected = b; ptt_pressed = if b then c.ptt_pressed else false }),
)

pub jobs-mute_view : (b : Bool) (c : Core) → jobs (mute_view b c) ≡ jobs c
unfolding mute_view
jobs-mute_view b c = ground (arith, jobs-dispatch (record c { view_muted = b }))

pub jobs-deafen_view : (b : Bool) (c : Core) → jobs (deafen_view b c) ≡ jobs c
unfolding deafen_view
jobs-deafen_view b c = ground (arith, jobs-dispatch (record c { view_deafened = b }))

pub jobs-connect_engine : (b : Bool) (c : Core) → jobs (connect_engine b c) ≡ jobs c
unfolding connect_engine
jobs-connect_engine b c =
    ground (arith, jobs-connect_view b (link b c), jobs-press_ptt false (connect_view b (link b c)))

pub jobs-stop_core : (c : Core) → jobs (stop_core c) ≡ jobs c
unfolding stop_core
jobs-stop_core c = jobs-connect_engine false (halt c)

pub jobs-connected_core : (c : Core) → jobs (connected_core c) ≡ jobs c
unfolding connected_core
jobs-connected_core c = ground (arith, jobs-connect_engine true c)
