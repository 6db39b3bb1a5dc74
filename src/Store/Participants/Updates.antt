-- ===== src/Store/Participants/Updates.antt =====
-- AppStore::updateVoiceParticipantState: merging, appending, removing, and an update that is
-- already in place.
use voxter.Common.{
  ℕ, ◌+◌, ◌-◌, ◌≡◌, ◌≢◌, refl, ◌∙◌, ◌⊎◌, String, Bool, true, false, List, [], ◌∷◌, ◌++◌, arith,
  ◌==◌, Option, none, some, if◌then◌else◌, string_dec,
}
use voxter.Variant.{
  Value, Fields, end, field, null, text, boolean, value, value_or, has_key, insert, to_map,
  to_string, fields_dec,
}
use voxter.Variant
use voxter.Variant.Laws.{value_or-insert}
use voxter.Store.{AppStore}
use voxter.Store.Participants.{
  entry, user_id, user_id_of, nested_id, insert_all, update_first, new_participant,
  named_participant, with_user_id, updated_list, update_voice_participant_state,
  voice_participants_for_channel,
}
use voxter.Store.Participants.Speaking.{entry-set_entry, user_id_of-insert_speaking}

-- The first participant with a user id.
unfoldable pub find_user : String → List Value → Option Value
find_user user [] = none
find_user user (v ∷ vs) = if user_id v == user then some v else find_user user vs

-- How many participants have a user id.
unfoldable pub count_user : String → List Value → ℕ
count_user user [] = 0
count_user user (v ∷ vs) = if user_id v == user then count_user user vs + 1 else count_user user vs

nested_id-insert_user_id : (v : Value) (p : Fields) → nested_id (insert "userId" v p) ≡ nested_id p
unfolding nested_id value string_dec
nested_id-insert_user_id v p = simp value_or-insert

user_id-insert_user_id :
    (user : String) (p : Fields) → to_string (value (insert "userId" (text user) p) "userId") ≡ user
unfolding value to_string string_dec
user_id-insert_user_id user p = simp value_or-insert

user_id_of-with_user_id :
    (user : String) (patch : Fields)
    → (user_id_of patch ≡ "") ⊎ (user_id_of patch ≡ user)
    → (user_id_of (with_user_id user patch) ≡ "") ⊎ (user_id_of (with_user_id user patch) ≡ user)
unfolding with_user_id user_id_of
user_id_of-with_user_id user patch e =
    ground (arith, nested_id-insert_user_id (text user) patch, user_id-insert_user_id user patch)

user_id_of-named_participant :
    (user : String) (p : Fields)
    → (user_id_of p ≡ "") ⊎ (user_id_of p ≡ user)
    → user_id_of (named_participant user p) ≡ user
unfolding named_participant user_id_of
user_id_of-named_participant user p e =
    ground (arith, nested_id-insert_user_id (text user) p, user_id-insert_user_id user p)

-- A patch that names nobody or the user yields an entry of the user.
pub user_id-new_participant :
    (user : String) (patch : Fields)
    → (user_id_of patch ≡ "") ⊎ (user_id_of patch ≡ user)
    → user_id (Variant.map (new_participant user patch)) ≡ user
unfolding user_id new_participant to_map
user_id-new_participant user patch e =
    user_id_of-insert_speaking _ (named_participant user (with_user_id user patch))
    ∙ user_id_of-named_participant user _ (user_id_of-with_user_id user patch e)

pub update_first_absent :
    (user : String) (patch : Fields) (removing : Bool) (l : List Value)
    → find_user user l ≡ none
    → update_first user patch removing l ≡ (l, false)
unfolding update_first find_user
update_first_absent user patch removing [] h = refl
update_first_absent user patch removing (v ∷ l) h =
    ground (arith, update_first_absent user patch removing l)

pub update_first_idle :
    (user : String) (patch : Fields) (l : List Value) (v : Value)
    → find_user user l ≡ some v
    → insert_all patch (to_map v) ≡ to_map v
    → update_first user patch false l ≡ (l, false)
unfolding update_first find_user
update_first_idle user patch [] v h e = cc
update_first_idle user patch (w ∷ l) v h e = ground (arith, update_first_idle user patch l v)

update_first_unchanged :
    (user : String) (patch : Fields) (removing : Bool) (l : List Value)
    → (update_first user patch removing l).1 ≡ false
    → (update_first user patch removing l).0 ≡ l
unfolding update_first
update_first_unchanged user patch removing [] h = refl
update_first_unchanged user patch removing (v ∷ l) h =
    ground (arith, update_first_unchanged user patch removing l)

updated_list_unchanged :
    (user : String) (patch : Fields) (removing : Bool) (l : List Value)
    → (updated_list user patch removing l).1 ≡ false
    → (updated_list user patch removing l).0 ≡ l
unfolding updated_list
updated_list_unchanged user patch removing l h =
    ground (arith, update_first_unchanged user patch removing l)

-- For ids that are not empty, an update rewrites the list of its channel and no other.
pub update_voice_participant_state_lem :
    (id user j : String) (patch : Fields) (removing : Bool) (s : AppStore)
    → id ≢ ""
    → user ≢ ""
    → voice_participants_for_channel j (update_voice_participant_state id user patch removing s) ≡ (
        if id == j
        then (updated_list user patch removing (voice_participants_for_channel id s)).0
        else voice_participants_for_channel j s)
unfolding update_voice_participant_state voice_participants_for_channel
update_voice_participant_state_lem id user j patch removing s h k = ground (
  arith,
  updated_list_unchanged user patch removing (entry id s.voice_participants_by_channel),
  entry-set_entry id j
      (updated_list user patch removing (entry id s.voice_participants_by_channel)).0
      s.voice_participants_by_channel,
)

pub count_user-append :
    (user : String) (l k : List Value)
    → count_user user (l ++ k) ≡ count_user user l + count_user user k
unfolding count_user
count_user-append user [] k = omega arith
count_user-append user (v ∷ l) k = ground (arith, count_user-append user l k)

pub count_user-update_first :
    (user j : String) (patch : Fields) (l : List Value)
    → count_user j (update_first user patch true l).0
      ≡ (if user == j then count_user j l - 1 else count_user j l)
unfolding count_user update_first
count_user-update_first user j patch [] = ground arith
count_user-update_first user j patch (v ∷ l) =
    ground (arith, count_user-update_first user j patch l)

pub update_first-append :
    (user : String) (patch : Fields) (front : List Value) (v : Value) (back : List Value)
    → find_user user front ≡ none
    → user_id v ≡ user
    → insert_all patch (to_map v) ≢ to_map v
    → update_first user patch false (front ++ v ∷ back)
      ≡ (front ++ Variant.map (insert_all patch (to_map v)) ∷ back, true)
unfolding find_user update_first
update_first-append user patch [] v back h k e = ground arith
update_first-append user patch (w ∷ front) v back h k e =
    ground (arith, update_first-append user patch front v back)
