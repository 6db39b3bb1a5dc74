-- ===== src/Store/Participants/Effects.antt =====
-- What a client sees of AppStore::updateVoiceParticipantState, case by case.
use voxter.Common.{
  ◌+◌, ◌-◌, ◌≡◌, ◌≢◌, ◌⊎◌, String, true, false, List, [], ◌∷◌, ◌++◌, arith, ◌==◌, none, some,
  if◌then◌else◌,
}
use voxter.Variant.{Fields, Value, to_map}
use voxter.Variant
use voxter.Store.{AppStore}
use voxter.Store.Participants.{
  user_id, user_id_of, insert_all, new_participant, updated_list, update_voice_participant_state,
  voice_participants_for_channel,
}
use voxter.Store.Participants.Updates.{
  find_user, count_user, user_id-new_participant, update_first_absent, update_first_idle,
  update_voice_participant_state_lem, count_user-append, count_user-update_first,
  update_first-append,
}

-- The list of a channel, and after an update.
module _ (id user : String) (patch : Fields) (s : AppStore) (h : id ≢ "") (k : user ≢ "") where
  abbrev before : List Value
  before = voice_participants_for_channel id s

  abbrev after : List Value
  after = voice_participants_for_channel id (update_voice_participant_state id user patch false s)

  abbrev after_removal : List Value
  after_removal =
      voice_participants_for_channel id (update_voice_participant_state id user patch true s)

  after-eq : after ≡ (updated_list user patch false before).0
  after-eq = ground (arith, update_voice_participant_state_lem id user id patch false s h k)

  -- A user who is not in the channel is appended, as an entry of that user if the patch names
  -- nobody else.
  pub update_appends :
      find_user user (voice_participants_for_channel id s) ≡ none
      → (user_id_of patch ≡ "") ⊎ (user_id_of patch ≡ user)
      → (voice_participants_for_channel id (update_voice_participant_state id user patch false s)
          ≡ voice_participants_for_channel id s ++ Variant.map (new_participant user patch) ∷ [])
        × (user_id (Variant.map (new_participant user patch)) ≡ user)
  unfolding updated_list
  update_appends e n = (
    ground (arith, after-eq, update_first_absent user patch false before),
    user_id-new_participant user patch n,
  )

  -- For ids that are not empty: if the patch changes the first entry of the user, that entry and the
  -- patch are merged in its place; the entries before and behind it, and the lists of the other
  -- channels, stay as they were.
  pub update_merges :
      (front : List Value) (v : Value) (back : List Value) (j : String)
      → voice_participants_for_channel id s ≡ front ++ v ∷ back
      → find_user user front ≡ none
      → user_id v ≡ user
      → insert_all patch (to_map v) ≢ to_map v
      → id ≢ j
      → (voice_participants_for_channel id (update_voice_participant_state id user patch false s)
          ≡ front ++ Variant.map (insert_all patch (to_map v)) ∷ back)
        × (voice_participants_for_channel j (update_voice_participant_state id user patch false s)
            ≡ voice_participants_for_channel j s)
  unfolding updated_list
  update_merges front v back j e n u c other = ground (
    arith,
    after-eq,
    update_first-append user patch front v back n u c,
    update_voice_participant_state_lem id user j patch false s h k,
  )

  -- A removal takes away one entry of the user and no entry of anyone else.
  pub update_removes :
      (j : String)
      → count_user j
          (voice_participants_for_channel id (update_voice_participant_state id user patch true s))
        ≡ (if user == j
            then count_user j (voice_participants_for_channel id s) - 1
            else count_user j (voice_participants_for_channel id s))
  unfolding updated_list
  update_removes j = ground (
    arith,
    update_voice_participant_state_lem id user id patch true s h k,
    count_user-update_first user j patch before,
  )

  -- A patch that the first entry of its user already holds does not leave the channel as it is: the
  -- user gets one entry more, if the patch names nobody else.
  pub update_idle_duplicates :
      (v : Value)
      → find_user user (voice_participants_for_channel id s) ≡ some v
      → insert_all patch (to_map v) ≡ to_map v
      → (user_id_of patch ≡ "") ⊎ (user_id_of patch ≡ user)
      → (voice_participants_for_channel id (update_voice_participant_state id user patch false s)
          ≡ voice_participants_for_channel id s ++ Variant.map (new_participant user patch) ∷ [])
        × (count_user user (
              voice_participants_for_channel id
                (update_voice_participant_state id user patch false s))
            ≡ count_user user (voice_participants_for_channel id s) + 1)
  unfolding updated_list count_user
  update_idle_duplicates v e c n = ground (
    arith,
    after-eq,
    update_first_idle user patch before v e c,
    user_id-new_participant user patch n,
    count_user-append user before (Variant.map (new_participant user patch) ∷ []),
  )
