-- ===== src/Store/Participants/Removal.antt =====
-- AppStore::removeVoiceParticipantFromAllChannels.
use voxter.Common.{
  ◌≡◌, ◌≢◌, refl, String, false, not, ◌&&◌, List, [], ◌∷◌, arith, ◌==◌, is_empty, if◌then◌else◌,
}
use voxter.Variant.{Value}
use voxter.Store.{AppStore, ChannelMap, none_left, channel}
use voxter.Store.Participants.{
  entry, user_id, without_user, without_user_in_channels,
  remove_voice_participant_from_all_channels, voice_participants_for_channel,
}

-- The list with every entry of a user left out.
unfoldable pub others : String → List Value → List Value
others user [] = []
others user (v ∷ vs) = let rest = others user vs in if user_id v == user then rest else v ∷ rest

without_user-eq-others : (user : String) (l : List Value) → (without_user user l).0 ≡ others user l
unfolding without_user others
without_user-eq-others user [] = refl
without_user-eq-others user (v ∷ l) = ground (arith, without_user-eq-others user l)

without_user_idle :
    (user : String) (l : List Value) → (without_user user l).1 ≡ false → (without_user user l).0 ≡ l
unfolding without_user
without_user_idle user [] h = refl
without_user_idle user (v ∷ l) h = ground (arith, without_user_idle user l)

module _ (user except : String) where
  entry-without_user_in_channels :
      (j : String) (m : ChannelMap)
      → entry j (without_user_in_channels user except m).0
        ≡ (if not (is_empty except) && j == except then entry j m else others user (entry j m))
  unfolding entry without_user_in_channels others
  entry-without_user_in_channels j none_left = ground arith
  entry-without_user_in_channels j (channel c l m) = ground (
    arith,
    entry-without_user_in_channels j m,
    without_user-eq-others user l,
    without_user_idle user l,
  )

  without_user_in_channels_idle :
      (m : ChannelMap)
      → (without_user_in_channels user except m).1 ≡ false
      → (without_user_in_channels user except m).0 ≡ m
  unfolding without_user_in_channels
  without_user_in_channels_idle none_left h = refl
  without_user_in_channels_idle (channel c l m) h = ground (arith, without_user_in_channels_idle m)

  -- Removing a user from all channels leaves out exactly the entries of that user, in every channel
  -- but the excepted one, which stays as it is; an empty excepted id excepts none.
  pub remove_from_all_channels_lem :
      (j : String) (s : AppStore)
      → user ≢ ""
      → voice_participants_for_channel j (remove_voice_participant_from_all_channels user except s)
        ≡ (if not (is_empty except) && j == except
            then voice_participants_for_channel j s
            else others user (voice_participants_for_channel j s))
  unfolding voice_participants_for_channel remove_voice_participant_from_all_channels
  remove_from_all_channels_lem j s h = ground (
    arith,
    entry-without_user_in_channels j s.voice_participants_by_channel,
    without_user_in_channels_idle s.voice_participants_by_channel,
  )
