-- ===== src/Voice/Fetch/Merging.antt =====
-- Refreshes of a channel's participants that come while a call for them is in flight.
use voxter.Common.{
  ◌≡◌, ◌≢◌, refl, ap, ◌∙◌, String, Bool, true, false, ◌||◌, List, [], ◌∷◌, arith, ◌==◌, contains,
  if◌then◌else◌, Bool-cases, inl, inr,
}
use voxter.Variant.{Value}
use voxter.Api.{ok}
use voxter.Voice.{Voice, Pending, fetching}
use voxter.Voice.Media.{set_error}
use voxter.Voice.Fetch.Hashes.{
  hash_value-insert, hash_value-remove, contains-set_remove, contains_self,
}
use voxter.Voice.Fetch.{
  hash_value, fetch_channel_participants, refresh_channel_participants, land, store_participants,
  on_fetched,
}

-- refreshes of one channel, each with its `force`
abbrev pub refreshes : String → List Bool → Voice → Voice
refreshes c [] v = v
refreshes c (b ∷ bs) v = refreshes c bs (refresh_channel_participants c b v)

abbrev pub any : List Bool → Bool
any [] = false
any (b ∷ bs) = b || any bs

-- what refreshes change while a call for the channel is in flight
record Waits (c : String) (force : Bool) (v w : Voice) : Type 0 where
  same_pending : w.pending ≡ v.pending
  same_store : w.store ≡ v.store
  same_host : w.host ≡ v.host
  same_active : w.view.active_channel_id ≡ v.view.active_channel_id
  in_flight : w.view.participant_fetch_in_flight ≡ v.view.participant_fetch_in_flight
  forced :
      hash_value w.view.pending_participant_fetch_force c false
      ≡ hash_value v.view.pending_participant_fetch_force c false || force

refresh-Waits :
    (c : String) (b : Bool) (v : Voice)
    → c ≢ ""
    → contains v.view.participant_fetch_in_flight c ≡ true
    → Waits c b v (refresh_channel_participants c b v)
unfolding refresh_channel_participants
refresh-Waits c b v n h =
    let was = hash_value v.view.pending_participant_fetch_force c false in
    let held = hash_value-insert c (was || b) false v.view.pending_participant_fetch_force in
    record {
      same_pending = ground (arith, n, h);
      same_store = ground (arith, n, h);
      same_host = ground (arith, n, h);
      same_active = ground (arith, n, h);
      in_flight = ground (arith, n, h);
      forced = ground (arith, n, h, held);
    }

refreshes-Waits :
    (c : String) (bs : List Bool) (v : Voice)
    → c ≢ ""
    → contains v.view.participant_fetch_in_flight c ≡ true
    → Waits c (any bs) v (refreshes c bs v)
refreshes-Waits c [] v n h = record {
  same_pending = refl;
  same_store = refl;
  same_host = refl;
  same_active = refl;
  in_flight = refl;
  forced = ground arith;
}
refreshes-Waits c (b ∷ bs) v n h =
    let one = refresh-Waits c b v n h in
    let w = refresh_channel_participants c b v in
    let more =
      refreshes-Waits c bs w n (ap (λ (l : List String). contains l c) one.in_flight ∙ h) in
    record {
      same_pending = more.same_pending ∙ one.same_pending;
      same_store = more.same_store ∙ one.same_store;
      same_host = more.same_host ∙ one.same_host;
      same_active = more.same_active ∙ one.same_active;
      in_flight = more.in_flight ∙ one.in_flight;
      forced = ground (arith, more.forced, one.forced);
    }

-- a call for the participants that is sent
pub record Fetches (c : String) (u w : Voice) : Type 0 where
  pub asked : w.pending ≡ fetching c (c == u.view.active_channel_id) ∷ u.pending
  pub in_flight : contains w.view.participant_fetch_in_flight c ≡ true
  pub same_forced : w.view.pending_participant_fetch_force ≡ u.view.pending_participant_fetch_force
  pub same_store : w.store ≡ u.store
  pub same_error : w.view.error ≡ u.view.error

pub forced-Fetches :
    (c : String) (u : Voice)
    → c ≢ ""
    → contains u.view.participant_fetch_in_flight c ≡ false
    → Fetches c u (refresh_channel_participants c true u)
unfolding refresh_channel_participants fetch_channel_participants
forced-Fetches c u n h =
    let self = contains_self c u.view.participant_fetch_in_flight in
    record {
      asked = ground (arith, n, h);
      in_flight = ground (arith, n, h, self);
      same_forced = ground (arith, n, h);
      same_store = ground (arith, n, h);
      same_error = ground (arith, n, h);
    }

-- the answer, as far as the next call goes
abbrev landed_ok : String → Bool → List Value → Voice → Voice
landed_ok c sync ps w = set_error "" (store_participants c sync ps (land c w))

on_fetched-ok :
    (to_lower : String → String) (c : String) (sync : Bool) (ps : List Value) (w : Voice) (b : Bool)
    → hash_value w.view.pending_participant_fetch_force c false ≡ b
    → on_fetched to_lower c sync (ok ps) w ≡ (
        if b
        then refresh_channel_participants c true (landed_ok c sync ps w)
        else landed_ok c sync ps w)
unfolding on_fetched
on_fetched-ok to_lower c sync ps w b e = ground (arith, e)

asked_alike :
    (c : String) {a b : String} {k l : List Pending}
    → a ≡ b
    → k ≡ l
    → fetching c (c == a) ∷ k ≡ fetching c (c == b) ∷ l
asked_alike c p q = cc

-- While a call for a channel's participants is in flight, refreshes of the channel send nothing.
-- When the answer comes, its list is stored, and one call more is sent if any of the refreshes was
-- forced, however many there were, and none otherwise; nothing is left over for a later answer.
pub refreshes_merge :
    (to_lower : String → String) (c : String) (sync : Bool) (ps : List Value) (bs : List Bool)
    (v : Voice)
    → c ≢ ""
    → contains v.view.participant_fetch_in_flight c ≡ true
    → hash_value v.view.pending_participant_fetch_force c false ≡ false
    → let w = on_fetched to_lower c sync (ok ps) (refreshes c bs v) in
      let next = fetching c (c == v.view.active_channel_id) in
      ((refreshes c bs v).pending ≡ v.pending)
      × (w.pending ≡ (if any bs then next ∷ v.pending else v.pending))
      × (contains w.view.participant_fetch_in_flight c ≡ any bs)
      × (hash_value w.view.pending_participant_fetch_force c false ≡ false)
      × (w.store ≡ (store_participants c sync ps v).store)
      × (w.view.error ≡ "")
unfolding set_error store_participants land
refreshes_merge to_lower c sync ps bs v n h e =
    let w = refreshes c bs v in
    let k = refreshes-Waits c bs v n h in
    let flag : hash_value w.view.pending_participant_fetch_force c false ≡ any bs =
      ground (arith, k.forced, e) in
    let free = contains-set_remove c w.view.participant_fetch_in_flight in
    let taken = hash_value-remove c false w.view.pending_participant_fetch_force in
    let landed = landed_ok c sync ps w in
    let next = forced-Fetches c landed n free in
    let stored : landed.store ≡ (store_participants c sync ps v).store =
      ground (arith, k.same_store, k.same_active) in
    elim (Bool-cases (any bs)) [
      | inl some_forced ↦
          let whole = on_fetched-ok to_lower c sync ps w true (flag ∙ some_forced) in
          rw (whole, some_forced)
            (
              k.same_pending,
              next.asked ∙ asked_alike c k.same_active k.same_pending,
              next.in_flight,
              ap (λ (l : List (String × Bool)). hash_value l c false) next.same_forced ∙ taken,
              next.same_store ∙ stored,
              next.same_error,
            )
      | inr none_forced ↦
          let whole = on_fetched-ok to_lower c sync ps w false (flag ∙ none_forced) in
          rw (whole, none_forced) (k.same_pending, k.same_pending, free, taken, stored, refl)
    ]
