-- ===== src/Voice/Calls.antt =====
-- The calls in flight of VoiceViewModel: how many of each kind there are, and what an answer does
-- to the numbers.
use voxter.Common.{
  ℕ, zero, suc, ◌+◌, ◌≡◌, refl, sym, ap, ◌⊎◌, inl, inr, String, Bool, true, false, List, [], ◌∷◌,
  none, some, arith, ◌==◌, is_empty, if◌then◌else◌, contains, subst, Option-cases,
}
use voxter.Api.{Answer}
use voxter.Variant.{Value}
use voxter.Voice.{
  Voice, Pending, switching, joining, token, abandoning, leaving, muting, deafening, fetching,
}
use voxter.Voice.Fetch.{fetch_channel_participants, refresh_channel_participants, set_remove}
use voxter.Voice.Session.{join_voice, enter_channel, forget_channel}
use voxter.Voice.Media.{set_error}
use voxter.Voice.Core.{core}
use voxter.Voice.Privacy.{Jobs, jobs}
use voxter.Voice.Effects.{core-prune}
use voxter.Voice.Run.{answer, on_answer, resume}

-- How many of the calls in a list are of a kind.
unfoldable pub calls : (Pending → ℕ) → List Pending → ℕ
calls w [] = 0
calls w (p ∷ ps) = w p + calls w ps

-- the calls of leaveVoice: all of them, those that take the user back out of a channel whose token
-- could not be had, of which nobody awaits the answer, and the others
abbrev pub leaves : Pending → ℕ
leaves (switching _ _ _) = 1
leaves (leaving _ _) = 1
leaves (abandoning _) = 1
leaves _ = 0

abbrev pub abandons : Pending → ℕ
abandons (abandoning _) = 1
abandons _ = 0

abbrev pub awaited_leaves : Pending → ℕ
awaited_leaves (switching _ _ _) = 1
awaited_leaves (leaving _ _) = 1
awaited_leaves _ = 0

-- the calls that put the user into a channel

abbrev pub enters : Pending → ℕ
enters (joining _ _) = 1
enters (token _ _) = 1
enters _ = 0

abbrev pub fetches : String → Pending → ℕ
fetches channel (fetching c _) = if c == channel then 1 else 0
fetches channel _ = 0

pub calls-leaves :
    (ps : List Pending) → calls leaves ps ≡ calls awaited_leaves ps + calls abandons ps
unfolding calls
calls-leaves [] = refl
calls-leaves (switching g c d ∷ ps) = omega (arith, calls-leaves ps)
calls-leaves (joining g c ∷ ps) = omega (arith, calls-leaves ps)
calls-leaves (token g c ∷ ps) = omega (arith, calls-leaves ps)
calls-leaves (abandoning g ∷ ps) = omega (arith, calls-leaves ps)
calls-leaves (leaving g c ∷ ps) = omega (arith, calls-leaves ps)
calls-leaves (muting g m d ∷ ps) = omega (arith, calls-leaves ps)
calls-leaves (deafening g m d ∷ ps) = omega (arith, calls-leaves ps)
calls-leaves (fetching c b ∷ ps) = omega (arith, calls-leaves ps)

pub calls-answer :
    (to_lower : String → String) (w : Pending → ℕ) (n : ℕ) (ps : List Pending) {p : Pending}
    {rest : List Pending}
    → answer to_lower n ps ≡ some (p, rest)
    → calls w ps ≡ calls w (p ∷ rest)
unfolding answer calls
calls-answer to_lower w n [] e = ground arith
calls-answer to_lower w zero (q ∷ ps) e = ground arith
calls-answer to_lower w (suc n) (q ∷ ps) e = elim (Option-cases (answer to_lower n ps)) [
  | inl f ↦ ground (arith, e, f)
  | inr ((r, rs), f) ↦ ground (arith, e, f, calls-answer to_lower w n ps f)
]

module _ (to_lower : String → String) (n : ℕ) (a : Answer Value) (v : Voice) where
  pub on_answer-none : answer to_lower n v.pending ≡ none → on_answer to_lower n a v ≡ v
  unfolding on_answer
  on_answer-none e =
      ap
        (λ o. elim o as (λ _. Voice) [
          | none ↦ v
          | some (p, rest) ↦ resume to_lower p a (record v { pending = rest })
        ])
        e

  pub on_answer-some :
      {p : Pending} {rest : List Pending}
      → answer to_lower n v.pending ≡ some (p, rest)
      → on_answer to_lower n a v ≡ resume to_lower p a (record v { pending = rest })
  unfolding on_answer
  on_answer-some e =
      ap
        (λ o. elim o as (λ _. Voice) [
          | none ↦ v
          | some (p, rest) ↦ resume to_lower p a (record v { pending = rest })
        ])
        e

-- The flags of the view model count the calls in flight whose answers are awaited: one call that
-- leaves while the flag is set, one that enters while a channel is being joined, never both, and one
-- for each channel whose participants are being fetched.
pub record Counted (channel : String) (j : Jobs) : Type 0 where
  pub leave : calls awaited_leaves j.pending ≡ (if j.leave_in_progress then 1 else 0)
  pub enter : calls enters j.pending ≡ (if is_empty j.joining_channel_id then 0 else 1)
  pub apart : (j.leave_in_progress ≡ false) ⊎ (is_empty j.joining_channel_id ≡ true)
  pub fetch :
      calls (fetches channel) j.pending
      ≡ (if contains j.participant_fetch_in_flight channel then 1 else 0)

abbrev pub jobs_of : Voice → Jobs
jobs_of v = jobs (core v)

pub contains-set_remove :
    (k j : String) (l : List String)
    → contains (set_remove k l) j ≡ (if k == j then false else contains l j)
unfolding set_remove
contains-set_remove k j [] = ground arith
contains-set_remove k j (s ∷ l) = ground (arith, contains-set_remove k j l)

module _ (channel : String) where
  abbrev pub Exact : Voice → Type 0
  Exact v = Counted channel (jobs_of v)

  pub fetch-Exact :
      (c : String) (sync : Bool) (v : Voice) → Exact v → Exact (fetch_channel_participants c sync v)
  unfolding fetch_channel_participants calls
  fetch-Exact c sync v h = ground arith

  pub refresh-Exact :
      (c : String) (force : Bool) (v : Voice)
      → Exact v
      → Exact (refresh_channel_participants c force v)
  unfolding refresh_channel_participants fetch_channel_participants calls
  refresh-Exact c force v h = ground arith

  pub join_voice-Exact : (c : String) (v : Voice) → Exact v → Exact (join_voice c v)
  unfolding join_voice enter_channel set_error calls
  join_voice-Exact c v h = ground arith

  pub by_jobs : {i j : Jobs} → j ≡ i → Counted channel i → Counted channel j
  by_jobs e h = subst (Counted channel) (sym e) h

  pub forget_channel-Exact : (c : String) (v : Voice) → Exact v → Exact (forget_channel c v)
  unfolding forget_channel
  forget_channel-Exact c v h = refresh-Exact c true _ (by_jobs (ap jobs (core-prune c _)) h)
