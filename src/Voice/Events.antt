-- ===== src/Voice/Events.antt =====
-- VoiceViewModel::handleGatewayEvent. The event voice_audio ends in playRemotePcm, which has no
-- effect.
use voxter.Common.{String, Bool, true, false, not, ◌&&◌, ◌||◌, ◌==◌, is_empty, if◌then◌else◌}
use voxter.Variant.{
  Fields, map, boolean, end, field, value, has_key, insert, json_string, json_bool, to_map,
  to_string, is_object,
}
use voxter.Store.{AppStore, set_voice_participants}
use voxter.Store.Participants.{
  update_voice_participant_state, remove_voice_participant_from_all_channels,
  voice_participants_for_channel,
}
use voxter.Voice.{Voice, on_store}
use voxter.Voice.Media.{clear_session_context}
use voxter.Voice.Bridge.{set_view_connected, set_ptt_pressed, set_active_channel_id, stop}
use voxter.Voice.Fetch.{refresh_channel_participants}

abbrev pub text_of : Fields → String → String
text_of payload k = json_string (value payload k)

-- the list that is shown follows the active channel
unfoldable pub show_active : String → Voice → Voice
show_active channel v =
    if channel == v.view.active_channel_id
    then on_store (λ s. set_voice_participants (voice_participants_for_channel channel s) s) v
    else v

unfoldable pub on_speaking_update : Fields → Voice → Voice
on_speaking_update payload v =
    let channel = text_of payload "channelId" in
    let user = text_of payload "userId" in
    let patch = insert "speaking" (boolean (json_bool (value payload "speaking"))) end in
    if is_empty channel || is_empty user
    then v
    else show_active channel (on_store (update_voice_participant_state channel user patch false) v)

abbrev copy_flag : String → Fields → Fields → Fields
copy_flag k payload patch =
    if has_key payload k then insert k (boolean (json_bool (value payload k))) patch else patch

-- the patch of a voice state that the user does not leave
unfoldable pub patch_of : Fields → Fields
patch_of payload =
    let flags = copy_flag "deafened" payload (copy_flag "muted" payload end) in
    if has_key payload "user" && is_object (value payload "user")
    then insert "user" (map (to_map (value payload "user"))) flags
    else flags

abbrev has_entry : Fields → Bool
has_entry end = false
has_entry (field _ _ _) = true

-- what a voice state does to the lists of the channels
unfoldable pub apply_voice_state : Fields → AppStore → AppStore
apply_voice_state payload s =
    let channel = text_of payload "channelId" in
    let user = text_of payload "userId" in
    let action = text_of payload "action" in
    let patch = patch_of payload in
    if is_empty user
    then s
    else if action == "leave"
    then update_voice_participant_state channel user end true s
    else if has_entry patch
    then update_voice_participant_state channel user (insert "speaking" (boolean false) patch) false
        (if action == "join" then remove_voice_participant_from_all_channels user channel s else s)
    else s

unfoldable pub is_self : Fields → AppStore → Bool
is_self payload s =
    let self = to_string (value s.current_user "id") in
    not (is_empty self) && text_of payload "userId" == self

-- the server has taken the user out of the channel
unfoldable pub on_self_leave : Voice → Voice
on_self_leave v =
    set_active_channel_id ""
      (clear_session_context (stop (set_ptt_pressed false (set_view_connected false v))))

unfoldable pub on_voice_state_update : Fields → Voice → Voice
on_voice_state_update payload v =
    let channel = text_of payload "channelId" in
    let self = is_self payload v.store in
    let applied = on_store (apply_voice_state payload) v in
    let settled =
      if self && text_of payload "action" == "leave" then on_self_leave applied else applied in
    if is_empty channel
    then v
    else show_active channel (refresh_channel_participants channel self settled)

unfoldable pub handle_gateway_event : String → Fields → Voice → Voice
handle_gateway_event event payload v =
    if event == "voice_speaking_update"
    then on_speaking_update payload v
    else if event == "voice_state_update"
    then on_voice_state_update payload v
    else v
