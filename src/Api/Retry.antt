-- ===== src/Api/Retry.antt =====
-- Sending one request: sendObjectRequest and sendArrayRequest with their retries. The replies of
-- the network are given: the n-th is the one that attempt n receives.
use voxter.Common.{
  ℕ, zero, suc, ◌+◌, ◌*◌, ◌<◌, ◌≡◌, refl, String, Bool, true, false, not, ◌&&◌, ◌||◌, List, [], ◌∷◌,
  arith, ltb, leb, eqb, if◌then◌else◌, Bool-cases, inl, inr,
}

-- QNetworkReply::NetworkError: those that the client tells apart
pub data NetworkError : Type 0 where
  no_error timeout temporary_network_failure network_session_failed : NetworkError
  service_unavailable unknown_network remote_host_closed other_error : NetworkError

pub record Reply : Type 0 where
  pub network_error : NetworkError
  pub http_status : ℕ
  pub payload : String

abbrev pub max_api_retries : ℕ
max_api_retries = 2

unfoldable pub transient : NetworkError → Bool
transient no_error = false
transient other_error = false
transient _ = true

unfoldable pub should_retry_request : NetworkError → ℕ → Bool
unfolding transient
should_retry_request e status =
    if eqb status 429 || leb 500 status && leb status 599 then true else transient e

unfoldable pub has_failed : Reply → Bool
has_failed r = elim r.network_error [ no_error ↦ false | _ ↦ true ]

-- What the `finished` handler does next.
pub data Next : Type 0 where
  succeed : String → Next
  give_up : String → Next
  retry_after : ℕ → Next

unfoldable pub on_finished : ℕ → Reply → Next
unfolding has_failed should_retry_request
on_finished attempt r =
    if has_failed r
    then if ltb attempt max_api_retries && should_retry_request r.network_error r.http_status
      then retry_after (200 * (attempt + 1))
      else give_up r.payload
    else succeed r.payload

-- The life of one call: the waits before each new attempt, and how the callback is called. With no
-- fuel left it is still running.
pub data Outcome : Type 0 where
  done : String → Outcome
  failed : String → Outcome
  running : Outcome

pub record Life : Type 0 where
  pub delays : List ℕ
  pub outcome : Outcome

unfoldable pub send_request : ℕ → (ℕ → Reply) → ℕ → Life
send_request zero replies attempt = record { delays = []; outcome = running }
send_request (suc fuel) replies attempt = elim (on_finished attempt (replies attempt)) [
  | succeed p ↦ record { delays = []; outcome = done p }
  | give_up p ↦ record { delays = []; outcome = failed p }
  | retry_after ms ↦
      let rest = send_request fuel replies (attempt + 1) in
      record { delays = ms ∷ rest.delays; outcome = rest.outcome }
]

abbrev pub conclusive : Reply → Bool
conclusive r = not (has_failed r && should_retry_request r.network_error r.http_status)

-- How the callback reports a reply.
abbrev pub verdict : Reply → Outcome
verdict r = if has_failed r then failed r.payload else done r.payload

-- A life of n + 1 attempts, which waits 200 ms longer before each, and ends with the verdict on the last reply.
pub record Ends (replies : ℕ → Reply) (n : ℕ) (life : Life) : Type 0 where
  pub waited : life.delays ≡ (if eqb n 0 then [] else if eqb n 1 then 200 ∷ [] else 200 ∷ 400 ∷ [])
  pub reported : life.outcome ≡ verdict (replies n)

-- One attempt: at a conclusive reply, at any other one, and the third.
ends_here :
    (fuel : ℕ) (replies : ℕ → Reply) (n : ℕ)
    → conclusive (replies n) ≡ true
    → send_request (suc fuel) replies n ≡ record { delays = []; outcome = verdict (replies n) }
unfolding send_request on_finished
ends_here fuel replies n c = ground arith

goes_on :
    (fuel : ℕ) (replies : ℕ → Reply) (n : ℕ)
    → n < 2
    → conclusive (replies n) ≡ false
    → send_request (suc fuel) replies n ≡ record {
      delays = 200 * (n + 1) ∷ (send_request fuel replies (n + 1)).delays;
      outcome = (send_request fuel replies (n + 1)).outcome;
    }
unfolding send_request on_finished
goes_on fuel replies n l c = ground arith

ends_third :
    (fuel : ℕ) (replies : ℕ → Reply)
    → send_request (suc fuel) replies 2 ≡ record { delays = []; outcome = verdict (replies 2) }
unfolding send_request on_finished
ends_third fuel replies = ground arith

-- With fuel for three attempts, a call ends: at the first conclusive reply if that is the first or
-- second one, and with the third attempt otherwise, after a wait of 200 ms and then 400 ms, and the
-- callback reports the last reply.
pub send_request-Ends :
    (fuel : ℕ) (replies : ℕ → Reply)
    → Ends replies
        (if conclusive (replies 0) then 0 else if conclusive (replies 1) then 1 else 2)
        (send_request (suc (suc (suc fuel))) replies 0)
send_request-Ends fuel replies = elim (Bool-cases (conclusive (replies 0))) [
  | inl c ↦
      rw c (rw (ends_here (suc (suc fuel)) replies 0 c) (record { waited = refl; reported = refl }))
  | inr c ↦ rw c (
      rw (goes_on (suc (suc fuel)) replies 0 (omega arith) c)
        (elim (Bool-cases (conclusive (replies 1))) [
          | inl d ↦
              rw d
                (rw (ends_here (suc fuel) replies 1 d) (record { waited = refl; reported = refl }))
          | inr d ↦ rw d (
              rw (goes_on (suc fuel) replies 1 (omega arith) d)
                (rw (ends_third fuel replies) (record { waited = refl; reported = refl })))
        ]))
]
