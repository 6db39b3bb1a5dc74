-- ===== src/Voice/Session.antt =====
-- VoiceViewModel: joining, leaving and switching voice channels, and the mute switches. A method
-- sends a call, and `on_…` is the callback of that call.
use voxter.Common.{String, Bool, true, false, not, ◌&&◌, ◌||◌, [], ◌==◌, is_empty, if◌then◌else◌}
use voxter.Variant.{Fields, value, json_string}
use voxter.Api.{Answer, ok, failed}
use voxter.Store.{set_voice_participants}
use voxter.Voice.{
  Voice, switching, joining, token, abandoning, leaving, muting, deafening, on_view, on_store, call,
}
use voxter.Voice.Media.{
  set_error, clear_session_context, set_session_context, set_sfu_connection, set_engine_muted,
  set_engine_deafened,
}
use voxter.Voice.Bridge.{
  dispatch_audio_settings, set_view_connected, set_view_muted, set_view_deafened, set_ptt_pressed,
  set_active_channel_id, start, stop,
}
use voxter.Voice.Fetch.{
  refresh_channel_participants, prune_current_user_from_channel, load_participants,
}

abbrev pub set_joining : String → Voice → Voice
set_joining channel = on_view (λ m. record m { joining_channel_id = channel })

abbrev pub set_leaving : Bool → Voice → Voice
set_leaving b = on_view (λ m. record m { leave_in_progress = b })

-- joinVoice behind its tests of the guild and the channel
unfoldable pub enter_channel : String → String → Voice → Voice
enter_channel guild channel v =
    let m = v.view in
    let other = not (channel == m.active_channel_id) in
    if not (is_empty m.joining_channel_id) || m.leave_in_progress
    then v
    else if m.connected && channel == m.active_channel_id
    then set_error "" v
    else if m.connected && not (is_empty m.active_channel_id) && other
    then call (switching guild channel m.active_channel_id) (set_leaving true v)
    else call (joining guild channel) (set_joining channel v)

unfoldable pub join_voice : String → Voice → Voice
join_voice channel v =
    let guild = v.store.current_guild_id in
    if is_empty guild
    then set_error "No guild selected" v
    else if is_empty channel
    then set_error "No voice channel selected" v
    else enter_channel guild channel v

-- what both callbacks of leaveVoice do once the server has let the user go
unfoldable pub tear_down : Voice → Voice
tear_down v =
    clear_session_context
      (stop (set_active_channel_id "" (set_ptt_pressed false (set_view_connected false v))))

unfoldable pub forget_channel : String → Voice → Voice
forget_channel channel v =
    refresh_channel_participants channel true
      (prune_current_user_from_channel channel (on_store (set_voice_participants []) v))

-- the callback of the call that joinVoice sends to leave the previous channel
unfoldable pub on_switched : String → String → Answer Fields → Voice → Voice
on_switched channel previous (failed error) v = set_error error (set_leaving false v)
on_switched channel previous (ok _) v =
    join_voice channel (forget_channel previous (tear_down (set_leaving false v)))

unfoldable pub on_joined : String → String → Answer Fields → Voice → Voice
on_joined guild channel (failed error) v = set_error error (set_joining "" v)
on_joined guild channel (ok _) v = call (token guild channel) v

abbrev abandon : String → String → Voice → Voice
abandon guild error v = call (abandoning guild) (set_error error (set_joining "" v))

-- the engine gets the room, and the participants are loaded
unfoldable pub open_line : String → String → String → String → Voice → Voice
open_line guild channel url sfu_token v =
    let ready =
      set_sfu_connection url sfu_token
        (set_session_context guild channel (set_joining "" (set_active_channel_id channel v))) in
    let told =
      dispatch_audio_settings
        (set_engine_deafened ready.view.deafened (set_engine_muted ready.view.muted ready)) in
    set_error "" (load_participants (start told))

unfoldable pub on_token : String → String → Answer Fields → Voice → Voice
on_token guild channel (failed error) v = abandon guild error v
on_token guild channel (ok payload) v =
    let url = json_string (value payload "url") in
    let sfu_token = json_string (value payload "token") in
    if is_empty url || is_empty sfu_token
    then abandon guild "voice-error:missing sfu token" v
    else open_line guild channel url sfu_token v

unfoldable pub leave_voice : Voice → Voice
leave_voice v =
    let m = v.view in
    if is_empty m.active_channel_id
      || is_empty v.store.current_guild_id
      || m.leave_in_progress
      || not (is_empty m.joining_channel_id)
    then v
    else call (leaving v.store.current_guild_id m.active_channel_id) (set_leaving true v)

unfoldable pub on_left : String → Answer Fields → Voice → Voice
on_left channel (failed error) v = set_error error (set_leaving false v)
on_left channel (ok _) v =
    set_error "" (forget_channel channel (set_joining "" (tear_down (set_leaving false v))))

abbrev can_toggle : Voice → Bool
can_toggle v = v.view.connected && not (is_empty v.store.current_guild_id)

unfoldable pub toggle_mute : Voice → Voice
toggle_mute v =
    if can_toggle v
    then call (muting v.store.current_guild_id (not v.view.muted) v.view.deafened) v
    else v

unfoldable pub on_mute_toggled : Bool → Answer Fields → Voice → Voice
on_mute_toggled next (failed error) v = set_error error v
on_mute_toggled next (ok _) v = set_error "" (set_view_muted next v)

unfoldable pub toggle_deafen : Voice → Voice
toggle_deafen v =
    if can_toggle v
    then call (deafening v.store.current_guild_id v.view.muted (not v.view.deafened)) v
    else v

unfoldable pub on_deafen_toggled : Bool → Answer Fields → Voice → Voice
on_deafen_toggled next (failed error) v = set_error error v
on_deafen_toggled next (ok _) v = set_error "" (set_view_deafened next v)
