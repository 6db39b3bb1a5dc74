-- ===== src/Examples/Participants.antt =====
-- The participant lists of the store at concrete inputs.
use voxter.Common.{
  ◌≡◌, ◌≢◌, inl, refl, ap, String, Bool, true, false, [], ◌∷◌, string_dec, map, differ,
}
use mathlib.Core.Bool.{false≢true}
use voxter.Variant
use voxter.Variant.{
  Value, Fields, text, boolean, field, end, value, to_map, to_string, to_bool, value_or, insert,
  has_key, fields_dec,
}
use voxter.Store.{AppStore, init, channel, none_left}
use voxter.Store.Participants.{
  entry, user_id, user_id_of, nested_id, insert_all, update_voice_participant_state,
  set_voice_speaking_users, voice_participants_for_channel,
  remove_voice_participant_from_all_channels,
}
use voxter.Store.Participants.Updates.{find_user, count_user}
use voxter.Store.Participants.Speaking.{flag, wanted, set_voice_speaking_users_lem}
use voxter.Store.Participants.Effects.{update_merges, update_idle_duplicates}
use voxter.Store.Participants.Removal.{others, remove_from_all_channels_lem}

abbrev person : String → Bool → Fields
person id speaking = field "speaking" (boolean speaking) (field "userId" (text id) end)

-- The channel "c" with two people, and "d" with one.
abbrev room : AppStore
room = record init {
  voice_participants_by_channel =
      channel "c" (Variant.map (person "u" false) ∷ Variant.map (person "w" true) ∷ [])
        (channel "d" (Variant.map (person "u" true) ∷ []) none_left);
}

abbrev speaking_patch : Bool → Fields
speaking_patch b = field "speaking" (boolean b) end

named_c : ◌≢◌ {A = String} "c" ""
unfolding string_dec
named_c = differ "c" "" refl

named_u : ◌≢◌ {A = String} "u" ""
unfolding string_dec
named_u = differ "u" "" refl

-- A patch that the entry does not hold yet.
merged-changes : insert_all (speaking_patch false) (person "w" true) ≢ person "w" true
unfolding insert_all insert value value_or to_bool string_dec
merged-changes p = false≢true (ap (λ f. to_bool (value f "speaking")) p)

set_voice_speaking_users_lem_example :
    map flag (voice_participants_for_channel "c" (set_voice_speaking_users "c" ("u" ∷ []) room))
    ≡ map (wanted ("u" ∷ [])) (voice_participants_for_channel "c" room)
set_voice_speaking_users_lem_example =
    (set_voice_speaking_users_lem ("u" ∷ []) "c" "d" room named_c).0

-- The second of two people falls silent.
update_merges_example :
    (voice_participants_for_channel "c"
        (update_voice_participant_state "c" "w" (speaking_patch false) false room)
      ≡ Variant.map (person "u" false)
        ∷ Variant.map (insert_all (speaking_patch false) (person "w" true))
        ∷ [])
    × (voice_participants_for_channel "d"
          (update_voice_participant_state "c" "w" (speaking_patch false) false room)
        ≡ voice_participants_for_channel "d" room)
unfolding find_user init voice_participants_for_channel entry user_id user_id_of nested_id to_map
    to_string value value_or string_dec
update_merges_example =
    update_merges "c" "w" (speaking_patch false) room named_c (differ "w" "" refl)
      (Variant.map (person "u" false) ∷ []) (Variant.map (person "w" true)) [] "d" refl refl refl
      merged-changes (differ "c" "d" refl)

update_idle_duplicates_example :
    count_user "u" (
      voice_participants_for_channel "c"
        (update_voice_participant_state "c" "u" (speaking_patch false) false room))
    ≡ 2
unfolding find_user count_user init voice_participants_for_channel entry user_id user_id_of
    nested_id to_map to_string value value_or string_dec insert_all insert
update_idle_duplicates_example =
    (update_idle_duplicates "c" "u" (speaking_patch false) room named_c named_u
      (Variant.map (person "u" false)) refl refl (inl refl)).1

remove_from_all_channels_lem_example :
    voice_participants_for_channel "d" (remove_voice_participant_from_all_channels "u" "c" room)
    ≡ []
unfolding others init voice_participants_for_channel entry user_id user_id_of nested_id to_map
    to_string value value_or string_dec
remove_from_all_channels_lem_example = remove_from_all_channels_lem "u" "c" "d" room named_u
