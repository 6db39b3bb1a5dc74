-- ===== src/Voice/Fetch.antt =====
-- VoiceViewModel: loading the participants of a channel, one call in flight for each channel.
pub mod Hashes
pub mod Merging
use voxter.Common.{
  ℕ, ◌-◌, String, Bool, true, false, not, ◌&&◌, ◌||◌, List, [], ◌∷◌, ◌==◌, is_empty, contains,
  if◌then◌else◌, ltb,
}
use voxter.Variant.{Value, map, value, to_map, to_string}
use voxter.Api.{Answer, ok, failed}
use voxter.Api.Errors.{is_too_many_requests_error}
use voxter.Store.{set_voice_participants}
use voxter.Store.Participants.{
  set_voice_participants_for_channel, voice_participants_for_channel, user_id,
}
use voxter.Voice.{ViewModel, Voice, fetching, on_view, on_store, call}
use voxter.Voice.Media.{set_error}

-- QHash::value with a default, QHash::insert and the removal of QHash::take
unfoldable pub hash_value {ℓ} : {A : Type ℓ} → List (String × A) → String → A → A
hash_value [] k d = d
hash_value ((j, a) ∷ r) k d = if j == k then a else hash_value r k d

unfoldable pub hash_insert {ℓ} : {A : Type ℓ} → String → A → List (String × A) → List (String × A)
hash_insert k a [] = (k, a) ∷ []
hash_insert k a ((j, b) ∷ r) = if j == k then (k, a) ∷ r else (j, b) ∷ hash_insert k a r

unfoldable pub hash_remove {ℓ} : {A : Type ℓ} → String → List (String × A) → List (String × A)
hash_remove k [] = []
hash_remove k ((j, a) ∷ r) = if j == k then hash_remove k r else (j, a) ∷ hash_remove k r

-- QSet::remove
unfoldable pub set_remove : String → List String → List String
set_remove k [] = []
set_remove k (j ∷ r) = if j == k then set_remove k r else j ∷ set_remove k r

unfoldable pub fetch_channel_participants : String → Bool → Voice → Voice
fetch_channel_participants channel sync v =
    if is_empty channel || contains v.view.participant_fetch_in_flight channel
    then v
    else call (fetching channel sync) (
        on_view
          (λ m. record m { participant_fetch_in_flight = channel ∷ m.participant_fetch_in_flight })
          v)

unfoldable pub load_participants : Voice → Voice
load_participants v = fetch_channel_participants v.view.active_channel_id true v

abbrev remember_force : String → Bool → ViewModel → ViewModel
remember_force channel force m = record m {
  pending_participant_fetch_force =
      hash_insert channel (hash_value m.pending_participant_fetch_force channel false || force)
        m.pending_participant_fetch_force;
}

abbrev remember_time : String → ℕ → ViewModel → ViewModel
remember_time channel now m = record m {
  last_participant_fetch_at_ms = hash_insert channel now m.last_participant_fetch_at_ms;
}

unfoldable pub refresh_channel_participants : String → Bool → Voice → Voice
refresh_channel_participants channel force v =
    if is_empty channel
    then v
    else if contains v.view.participant_fetch_in_flight channel
    then on_view (remember_force channel force) v
    else if not force
        && ltb (v.host.now - hash_value v.view.last_participant_fetch_at_ms channel 0) 1200
    then v
    else fetch_channel_participants channel (channel == v.view.active_channel_id)
        (on_view (remember_time channel v.host.now) v)

-- the first two lines of the callback of listVoiceParticipants
unfoldable pub land : String → Voice → Voice
land channel = on_view (λ m. record m {
  participant_fetch_in_flight = set_remove channel m.participant_fetch_in_flight;
  pending_participant_fetch_force = hash_remove channel m.pending_participant_fetch_force;
})

abbrev refresh_if : Bool → String → Voice → Voice
refresh_if force channel v = if force then refresh_channel_participants channel true v else v

-- what the callback stores
unfoldable pub store_participants : String → Bool → List Value → Voice → Voice
store_participants channel sync participants v =
    on_store
      (λ s.
        let kept = set_voice_participants_for_channel channel participants s in
        if sync && channel == v.view.active_channel_id
        then set_voice_participants participants kept
        else kept)
      v

module _ (to_lower : String → String) where
  unfoldable pub on_fetched : String → Bool → Answer (List Value) → Voice → Voice
  on_fetched channel sync (failed error) v =
      let pending_force = hash_value v.view.pending_participant_fetch_force channel false in
      let landed = land channel v in
      if is_too_many_requests_error to_lower error
      then record landed { retry_timers = channel ∷ landed.retry_timers }
      else refresh_if pending_force channel (set_error error landed)
  on_fetched channel sync (ok participants) v =
      let pending_force = hash_value v.view.pending_participant_fetch_force channel false in
      refresh_if pending_force channel
        (set_error "" (store_participants channel sync participants (land channel v)))

-- a timer that has fired is one less, also if there are others for the same channel
abbrev pub without_timer : String → List String → List String
without_timer k [] = []
without_timer k (j ∷ r) = let rest = without_timer k r in if j == k then r else j ∷ rest

-- the 900 ms timer
unfoldable pub on_retry_timer : String → Voice → Voice
on_retry_timer channel v =
    refresh_channel_participants channel true
      (record v { retry_timers = without_timer channel v.retry_timers })

-- filtered.append(participant): the entry as a map
abbrev as_map : Value → Value
as_map p = map (to_map p)

-- the loop of pruneCurrentUserFromChannel: the entries of others, and whether one was left out
unfoldable pub prune : String → List Value → List Value × Bool
prune user [] = ([], false)
prune user (p ∷ ps) =
    let rest = prune user ps in
    if user_id p == user then (rest.0, true) else (as_map p ∷ rest.0, rest.1)

unfoldable pub prune_current_user_from_channel : String → Voice → Voice
prune_current_user_from_channel channel v =
    let self = to_string (value v.store.current_user "id") in
    let pruned = prune self (voice_participants_for_channel channel v.store) in
    if is_empty channel || is_empty self
    then v
    else if pruned.1
    then on_store (set_voice_participants_for_channel channel pruned.0) v
    else v
