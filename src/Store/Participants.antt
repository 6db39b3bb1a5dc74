-- ===== src/Store/Participants.antt =====
-- The participant lists of the voice channels in AppStore.
pub mod Speaking
pub mod Updates
pub mod Effects
pub mod Removal
use mathlib.Core.Bool.{Bool-discrete}
use voxter.Common.{
  String, Bool, true, false, not, ◌&&◌, ◌||◌, List, [], ◌∷◌, ◌++◌, Option, none, some, ite, ◌==◌,
  is_empty, if◌then◌else◌, string_dec, contains,
}
use voxter.Variant.{
  Value, Fields, map, null, text, boolean, end, field, value, value_or, has_key, insert, to_map,
  to_string, to_bool, fields_dec,
}
use voxter.Store.{
  AppStore, ChannelMap, none_left, channel, emit, voice_participants_by_channel_changed, list_dec,
}

-- QMap::value on m_voiceParticipantsByChannel, then toList
unfoldable pub entry : String → ChannelMap → List Value
entry id none_left = []
entry id (channel c l m) = if c == id then l else entry id m

-- QMap::insert on m_voiceParticipantsByChannel
unfoldable pub set_entry : String → List Value → ChannelMap → ChannelMap
set_entry id l none_left = channel id l none_left
set_entry id l (channel c k m) = if c == id then channel id l m else channel c k (set_entry id l m)

unfoldable pub voice_participants_for_channel : String → AppStore → List Value
voice_participants_for_channel id s = entry id s.voice_participants_by_channel

abbrev write : String → List Value → AppStore → AppStore
write id l s =
    emit voice_participants_by_channel_changed
      (record s { voice_participants_by_channel = set_entry id l s.voice_participants_by_channel })

unfoldable pub set_voice_participants_for_channel : String → List Value → AppStore → AppStore
set_voice_participants_for_channel id l s =
    if is_empty id
    then s
    else ite (list_dec (entry id s.voice_participants_by_channel) l) s (write id l s)

-- participantUser.value("id").toString()
unfoldable pub nested_id : Fields → String
nested_id p = to_string (value (to_map (value p "user")) "id")

-- participantUserId: the id of the nested user, or userId where that is empty
unfoldable pub user_id_of : Fields → String
user_id_of p = if is_empty (nested_id p) then to_string (value p "userId") else nested_id p

unfoldable pub user_id : Value → String
user_id v = user_id_of (to_map v)

unfoldable pub is_speaking : Fields → Bool
is_speaking p = to_bool (value_or p "speaking" (boolean false))

-- one round of the loop of setVoiceSpeakingUsers: the entry, and whether it changed
unfoldable pub mark_speaking : List String → Value → Value × Bool
mark_speaking speakers v =
    let p = to_map v in
    let should_speak = contains speakers (user_id v) in
    if is_empty (user_id v)
    then (v, false)
    else ite (Bool-discrete (is_speaking p) should_speak) (v, false)
        (map (insert "speaking" (boolean should_speak) p), true)

unfoldable pub mark_all : List String → List Value → List Value × Bool
mark_all speakers [] = ([], false)
mark_all speakers (v ∷ vs) =
    let rest = mark_all speakers vs in
    let head = mark_speaking speakers v in (head.0 ∷ rest.0, head.1 || rest.1)

unfoldable pub set_voice_speaking_users : String → List String → AppStore → AppStore
set_voice_speaking_users id speakers s =
    let marked = mark_all speakers (entry id s.voice_participants_by_channel) in
    if is_empty id then s else if marked.1 then write id marked.0 s else s

-- the loop over the patch
unfoldable pub insert_all : Fields → Fields → Fields
insert_all end p = p
insert_all (field k v patch) p = insert_all patch (insert k v p)

-- the loop of updateVoiceParticipantState: the list, and `changed`
unfoldable pub update_first : String → Fields → Bool → List Value → List Value × Bool
update_first user patch removing [] = ([], false)
update_first user patch removing (v ∷ vs) =
    let rest = update_first user patch removing vs in
    let merged = insert_all patch (to_map v) in
    if user_id v == user
    then if removing
      then (vs, true)
      else ite (fields_dec merged (to_map v)) (v ∷ vs, false) (map merged ∷ vs, true)
    else (v ∷ rest.0, rest.1)

-- the patch with a user id, where it names no user
unfoldable pub with_user_id : String → Fields → Fields
with_user_id user patch =
    if has_key patch "userId" then patch else insert "userId" (text user) patch

unfoldable pub named_participant : String → Fields → Fields
named_participant user p =
    if is_empty (nested_id p) && is_empty (to_string (value p "userId"))
    then insert "userId" (text user) p
    else p

-- the entry that is appended where the loop has changed nothing
unfoldable pub new_participant : String → Fields → Fields
new_participant user patch =
    let p = named_participant user (with_user_id user patch) in
    insert "speaking" (value_or p "speaking" (boolean false)) p

unfoldable pub updated_list : String → Fields → Bool → List Value → List Value × Bool
updated_list user patch removing l =
    let looped = update_first user patch removing l in
    if not looped.1 && not removing
    then (looped.0 ++ map (new_participant user patch) ∷ [], true)
    else looped

unfoldable pub update_voice_participant_state :
    String → String → Fields → Bool → AppStore → AppStore
update_voice_participant_state id user patch removing s =
    let updated = updated_list user patch removing (entry id s.voice_participants_by_channel) in
    if is_empty id || is_empty user then s else if updated.1 then write id updated.0 s else s

-- the inner loop of removeVoiceParticipantFromAllChannels
unfoldable pub without_user : String → List Value → List Value × Bool
without_user user [] = ([], false)
without_user user (v ∷ vs) =
    let rest = without_user user vs in
    if user_id v == user then (rest.0, true) else (v ∷ rest.0, rest.1)

unfoldable pub without_user_in_channels : String → String → ChannelMap → ChannelMap × Bool
without_user_in_channels user except none_left = (none_left, false)
without_user_in_channels user except (channel c l m) =
    let rest = without_user_in_channels user except m in
    let kept = without_user user l in
    if not (is_empty except) && c == except
    then (channel c l rest.0, rest.1)
    else if kept.1
    then (channel c kept.0 rest.0, true)
    else (channel c l rest.0, rest.1)

unfoldable pub remove_voice_participant_from_all_channels : String → String → AppStore → AppStore
remove_voice_participant_from_all_channels user except s =
    let swept = without_user_in_channels user except s.voice_participants_by_channel in
    if is_empty user
    then s
    else if swept.1
    then emit voice_participants_by_channel_changed
        (record s { voice_participants_by_channel = swept.0 })
    else s
