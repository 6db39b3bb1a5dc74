-- ===== src/Store/Participants/Speaking.antt =====
-- What AppStore::setVoiceSpeakingUsers does to each participant of the channel.
use voxter.Common.{
  ◌≡◌, ◌≢◌, refl, String, Bool, false, List, [], ◌∷◌, arith, ◌==◌, is_empty, if◌then◌else◌,
  string_dec, contains, map,
}
use voxter.Variant.{Value, Fields, boolean, value, insert, to_map, to_bool}
use voxter.Variant.Laws.{value_or-insert}
use voxter.Store.{AppStore, ChannelMap, none_left, channel}
use voxter.Store.Participants.{
  entry, set_entry, user_id, user_id_of, is_speaking, mark_speaking, mark_all, nested_id,
  set_voice_speaking_users, voice_participants_for_channel,
}

pub user_id_of-insert_speaking :
    (v : Value) (p : Fields) → user_id_of (insert "speaking" v p) ≡ user_id_of p
unfolding user_id_of nested_id value string_dec
user_id_of-insert_speaking v p = simp value_or-insert

is_speaking-insert_speaking :
    (b : Bool) (p : Fields) → is_speaking (insert "speaking" (boolean b) p) ≡ b
unfolding is_speaking to_bool string_dec
is_speaking-insert_speaking b p = simp value_or-insert

pub entry-set_entry :
    (id j : String) (l : List Value) (m : ChannelMap)
    → entry j (set_entry id l m) ≡ (if id == j then l else entry j m)
unfolding entry set_entry
entry-set_entry id j l none_left = refl
entry-set_entry id j l (channel c k m) = ground (arith, entry-set_entry id j l m)

-- The flag that a participant should have: whoever has no user id keeps the flag.
abbrev pub wanted : List String → Value → Bool
wanted speakers v =
    if is_empty (user_id v) then is_speaking (to_map v) else contains speakers (user_id v)

abbrev pub flag : Value → Bool
flag v = is_speaking (to_map v)

module _ (speakers : List String) where
  flag-mark_speaking : (v : Value) → flag (mark_speaking speakers v).0 ≡ wanted speakers v
  unfolding mark_speaking to_map
  flag-mark_speaking v =
      ground (arith, is_speaking-insert_speaking (contains speakers (user_id v)) (to_map v))

  user_id-mark_speaking : (v : Value) → user_id (mark_speaking speakers v).0 ≡ user_id v
  unfolding mark_speaking user_id to_map
  user_id-mark_speaking v =
      ground
        (arith, user_id_of-insert_speaking (boolean (contains speakers (user_id v))) (to_map v))

  mark_speaking_idle :
      (v : Value) → (mark_speaking speakers v).1 ≡ false → (mark_speaking speakers v).0 ≡ v
  unfolding mark_speaking
  mark_speaking_idle v h = ground arith

  mark_all_idle : (l : List Value) → (mark_all speakers l).1 ≡ false → (mark_all speakers l).0 ≡ l
  unfolding mark_all
  mark_all_idle [] h = refl
  mark_all_idle (v ∷ l) h = ground (arith, mark_all_idle l, mark_speaking_idle v)

  flags-mark_all : (l : List Value) → map flag (mark_all speakers l).0 ≡ map (wanted speakers) l
  unfolding mark_all
  flags-mark_all [] = refl
  flags-mark_all (v ∷ l) = cc (flag-mark_speaking v, flags-mark_all l)

  user_ids-mark_all : (l : List Value) → map user_id (mark_all speakers l).0 ≡ map user_id l
  unfolding mark_all
  user_ids-mark_all [] = refl
  user_ids-mark_all (v ∷ l) = cc (user_id-mark_speaking v, user_ids-mark_all l)

  entry-set_voice_speaking_users :
      (id j : String) (s : AppStore)
      → id ≢ ""
      → voice_participants_for_channel j (set_voice_speaking_users id speakers s) ≡ (
          if id == j
          then (mark_all speakers (voice_participants_for_channel id s)).0
          else voice_participants_for_channel j s)
  unfolding set_voice_speaking_users voice_participants_for_channel
  entry-set_voice_speaking_users id j s h = ground (
    arith,
    mark_all_idle (entry id s.voice_participants_by_channel),
    entry-set_entry id j (mark_all speakers (entry id s.voice_participants_by_channel)).0
        s.voice_participants_by_channel,
  )

  -- For a channel id that is not empty, every participant of the channel that has a user id is
  -- marked as speaking exactly if the id is among the speakers, and the others keep their mark; the
  -- user ids and their order stay; and the list of any other channel stays.
  pub set_voice_speaking_users_lem :
      (id j : String) (s : AppStore)
      → id ≢ ""
      → let after = set_voice_speaking_users id speakers s in
        (map flag (voice_participants_for_channel id after)
          ≡ map (wanted speakers) (voice_participants_for_channel id s))
        × (map user_id (voice_participants_for_channel id after)
            ≡ map user_id (voice_participants_for_channel id s))
        × (voice_participants_for_channel j after ≡ (
            if id == j
            then voice_participants_for_channel id after
            else voice_participants_for_channel j s))
  set_voice_speaking_users_lem id j s h = ground (
    arith,
    entry-set_voice_speaking_users id id s h,
    entry-set_voice_speaking_users id j s h,
    flags-mark_all (voice_participants_for_channel id s),
    user_ids-mark_all (voice_participants_for_channel id s),
  )
