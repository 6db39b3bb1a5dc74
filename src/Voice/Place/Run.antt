-- ===== src/Voice/Place/Run.antt =====
-- Whatever happens to the voice part, the user stays where they are.
use voxter.Common.{
  ℕ, ◌+◌, ◌%◌, ◌^◌, ◌≡◌, refl, ap, ◌∙◌, inl, inr, String, Bool, true, false, ◌&&◌, arith, ◌==◌,
  if◌then◌else◌, ℤ, Option-cases,
}
use voxter.Variant.{Value, Fields, value, json_string, json_bool, insert, end, boolean}
use voxter.Api.{Answer, ok, failed}
use voxter.Store.{AppStore}
use voxter.Store.Participants.{update_voice_participant_state, voice_participants_for_channel}
use voxter.Voice.{
  Voice, Pending, switching, joining, token, abandoning, leaving, muting, deafening, fetching,
  on_store, on_engine,
}
use voxter.Voice.Media.{set_error, set_session_context, clear_session_context, set_sfu_connection}
use voxter.Voice.Bridge.{set_active_channel_id, start}
use voxter.Voice.Fetch.{load_participants, refresh_channel_participants, on_retry_timer}
use voxter.Voice.Session.{
  enter_channel, join_voice, leave_voice, toggle_mute, toggle_deafen, tear_down, on_switched,
  on_joined, open_line, on_token, on_left, on_mute_toggled, on_deafen_toggled,
}
use voxter.Voice.Events.{
  handle_gateway_event, on_speaking_update, on_voice_state_update, show_active, on_self_leave,
  text_of, is_self, apply_voice_state,
}
use voxter.Voice.Devices.{request_audio_devices, set_audio_permission_probe_active}
use voxter.Voice.Run.{
  Input, resume, answer, on_answer, step, host_changes, store_changes, livekit_reports, retry_timer,
  audio_inputs_change, audio_outputs_change, gateway_event, answers, joins, leaves, toggles_mute,
  toggles_deafen, asks_for_devices, refreshes, presses_ptt, chooses_input, chooses_output,
  chooses_mode, chooses_volume, microphone_ready, as_object, as_array,
}
use voxter.Voice.Calls.{on_answer-none, on_answer-some}
use voxter.Voice.Place.{
  elsewhere, elsewhere-set_voice_participants, elsewhere-update, elsewhere-remove,
  store-set_engine_error, store-update_track, store-dispatch, store-ptt, store-view_connected,
  store-view_muted, store-view_deafened, store-set_muted, store-set_deafened,
}
use voxter.Voice.Place.Steps.{at, at-stop, at-report, at-fetch, at-refresh, at-forget, at-fetched}
use voxter.Voice.Place.Devices.{
  store-recompute, store-refresh_lists, store-inputs, store-outputs, store-choices,
  store-microphone,
}

-- Joining and leaving.

at-join : (c : String) (v : Voice) → at (join_voice c v) ≡ at v
unfolding join_voice enter_channel set_error
at-join c v = ground arith

store-start : (v : Voice) → (start v).store ≡ v.store
unfolding start
store-start v = ground (
  arith,
  store-update_track v,
  store-set_engine_error "Missing SFU token" v,
  store-set_engine_error ""
      (on_engine (λ g. record g { started = true; generation = (g.generation + 1) % 2 ^ 64 }) v),
)

at-tear_down : (v : Voice) → at (tear_down v) ≡ at v
unfolding tear_down clear_session_context set_active_channel_id
at-tear_down v = at-stop _ ∙ ap elsewhere (store-ptt false _ ∙ store-view_connected false v)

at-self_leave : (v : Voice) → at (on_self_leave v) ≡ at v
unfolding on_self_leave clear_session_context set_active_channel_id
at-self_leave v = at-stop _ ∙ ap elsewhere (store-ptt false _ ∙ store-view_connected false v)

at-switched : (c p : String) (a : Answer Fields) (v : Voice) → at (on_switched c p a v) ≡ at v
unfolding on_switched set_error
at-switched c p (failed e) v = refl
at-switched c p (ok _) v = at-join c _ ∙ at-forget p _ ∙ at-tear_down _

at-joined : (g c : String) (a : Answer Fields) (v : Voice) → at (on_joined g c a v) ≡ at v
unfolding on_joined set_error
at-joined g c (failed e) v = refl
at-joined g c (ok _) v = refl

at-open_line : (g c u t : String) (v : Voice) → at (open_line g c u t v) ≡ at v
unfolding open_line set_error load_participants set_session_context set_sfu_connection
    set_active_channel_id
at-open_line g c u t v =
    at-fetch _ true _
    ∙ ap elsewhere (store-start _ ∙ store-dispatch _ ∙ store-set_deafened _ _ ∙ store-set_muted _ _)

at-token : (g c : String) (a : Answer Fields) (v : Voice) → at (on_token g c a v) ≡ at v
unfolding on_token set_error
at-token g c (failed e) v = refl
at-token g c (ok p) v =
    ground (arith, at-open_line g c (json_string (value p "url")) (json_string (value p "token")) v)

at-left : (c : String) (a : Answer Fields) (v : Voice) → at (on_left c a v) ≡ at v
unfolding on_left set_error
at-left c (failed e) v = refl
at-left c (ok _) v = at-forget c _ ∙ at-tear_down _

at-resume :
    (to_lower : String → String) (p : Pending) (a : Answer Value) (v : Voice)
    → at (resume to_lower p a v) ≡ at v
unfolding resume on_mute_toggled on_deafen_toggled set_error
at-resume l (switching g c p) a v = at-switched c p (as_object a) v
at-resume l (joining g c) a v = at-joined g c (as_object a) v
at-resume l (token g c) a v = at-token g c (as_object a) v
at-resume l (abandoning g) a v = refl
at-resume l (leaving g c) a v = at-left c (as_object a) v
at-resume l (muting g m d) (ok _) v = ap elsewhere (store-view_muted m v)
at-resume l (muting g m d) (failed e) v = refl
at-resume l (deafening g m d) (ok _) v = ap elsewhere (store-view_deafened d v)
at-resume l (deafening g m d) (failed e) v = refl
at-resume l (fetching c b) a v = at-fetched l c b (as_array a) v

at-answer :
    (to_lower : String → String) (n : ℕ) (a : Answer Value) (v : Voice)
    → at (on_answer to_lower n a v) ≡ at v
at-answer l n a v = elim (Option-cases (answer l n v.pending)) [
  | inl e ↦ ap at (on_answer-none l n a v e)
  | inr ((p, rest), e) ↦
      ap at (on_answer-some l n a v e) ∙ at-resume l p a (record v { pending = rest })
]

-- The gateway's events.

at-show_active : (c : String) (v : Voice) → at (show_active c v) ≡ at v
unfolding show_active
at-show_active c v =
    ground
      (arith, elsewhere-set_voice_participants (voice_participants_for_channel c v.store) v.store)

at-speaking : (p : Fields) (v : Voice) → at (on_speaking_update p v) ≡ at v
unfolding on_speaking_update
at-speaking p v =
    let c = text_of p "channelId" in
    let u = text_of p "userId" in
    let patch = insert "speaking" (boolean (json_bool (value p "speaking"))) end in
    ground (
      arith,
      elsewhere-update c u patch false v.store,
      at-show_active c (on_store (update_voice_participant_state c u patch false) v),
    )

elsewhere-voice_state :
    (p : Fields) (s : AppStore) → elsewhere (apply_voice_state p s) ≡ elsewhere s
unfolding apply_voice_state
elsewhere-voice_state p s = grind (arith, elsewhere-update, elsewhere-remove)

at-settled : (b : Bool) (v : Voice) → at (if b then on_self_leave v else v) ≡ at v
at-settled true v = at-self_leave v
at-settled false v = refl

at-state_update : (p : Fields) (v : Voice) → at (on_voice_state_update p v) ≡ at v
unfolding on_voice_state_update
at-state_update p v =
    let c = text_of p "channelId" in
    let self = is_self p v.store in
    let applied = on_store (apply_voice_state p) v in
    let leaves = self && text_of p "action" == "leave" in
    let settled = if leaves then on_self_leave applied else applied in
    ground (
      arith,
      at-show_active c (refresh_channel_participants c self settled)
          ∙ at-refresh c self settled
          ∙ at-settled leaves applied
          ∙ elsewhere-voice_state p v.store,
    )

pub at-event : (e : String) (p : Fields) (v : Voice) → at (handle_gateway_event e p v) ≡ at v
unfolding handle_gateway_event
at-event e p v = ground (arith, at-speaking p v, at-state_update p v)

-- a step of the voice part itself, and not of what it shares with the others
abbrev pub IsOwn : Input → Type 0
IsOwn (store_changes s) = ⊥
IsOwn _ = Unit

pub at-step :
    (to_lower : String → String) (i : Input) (v : Voice) → IsOwn i → at (step to_lower i v) ≡ at v
unfolding step on_retry_timer toggle_mute toggle_deafen leave_voice request_audio_devices
    set_audio_permission_probe_active
at-step l (host_changes e) v h = refl
at-step l (store_changes s) v h = elim h [ ]
at-step l (livekit_reports n r) v h = at-report n r v
at-step l (retry_timer c) v h = at-refresh c true _
at-step l audio_inputs_change v h = ap elsewhere (store-inputs v)
at-step l audio_outputs_change v h = ap elsewhere (store-outputs v)
at-step l (microphone_ready verdicts chunk) v h = ap elsewhere (store-microphone verdicts chunk v)
at-step l (gateway_event e p) v h = at-event e p v
at-step l (answers n a) v h = at-answer l n a v
at-step l (joins c) v h = at-join c v
at-step l leaves v h = ground arith
at-step l toggles_mute v h = ground arith
at-step l toggles_deafen v h = ground arith
at-step l asks_for_devices v h =
    ap elsewhere
      (store-recompute _ ∙ store-refresh_lists (set_audio_permission_probe_active false v))
at-step l (refreshes c b) v h = at-refresh c b v
at-step l (presses_ptt b) v h = ap elsewhere (store-ptt b v)
at-step l (chooses_input id) v h = ap elsewhere (store-choices id "" "" (ℤ.pos 0) v).0
at-step l (chooses_output id) v h = ap elsewhere (store-choices "" id "" (ℤ.pos 0) v).1
at-step l (chooses_mode m) v h = ap elsewhere (store-choices "" "" m (ℤ.pos 0) v).2
at-step l (chooses_volume n) v h = ap elsewhere (store-choices "" "" "" n v).3
