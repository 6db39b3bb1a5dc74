-- ===== src/Voice/Capture/Cut.antt =====
-- Lists cut into pieces of one length, and what the loop over the frames cuts.
use mathlib.Core.List.{append_assoc, flatten}
use voxter.Common.{
  ℕ, zero, suc, ◌+◌, ◌-◌, ◌*◌, ◌<◌, ◌≤◌, ◌≡◌, refl, ap, sym, ◌∙◌, List, [], ◌∷◌, ◌++◌, none, length,
  length-append, map, arith, All,
}
use voxter.Voice.Capture.{Verdict, accepted, take, drop, frame_bytes, capture_frames}

abbrev pub all_accepted : ℕ → Verdict
all_accepted _ = accepted

pub take-drop {ℓ} : {A : Type ℓ} (n : ℕ) (l : List A) → take n l ++ drop n l ≡ l
unfolding take drop
take-drop zero l = refl
take-drop (suc n) [] = refl
take-drop (suc n) (x ∷ l) = ap (◌∷◌ x) (take-drop n l)

pub length-take {ℓ} : {A : Type ℓ} (n : ℕ) (l : List A) → n ≤ length l → length (take n l) ≡ n
unfolding take
length-take zero l h = refl
length-take (suc n) [] h = omega arith
length-take (suc n) (x ∷ l) h = omega (arith, length-take n l (omega arith))

pub length-drop {ℓ} : {A : Type ℓ} (n : ℕ) (l : List A) → length (drop n l) ≡ length l - n
unfolding drop
length-drop zero l = omega arith
length-drop (suc n) [] = omega arith
length-drop (suc n) (x ∷ l) = omega (arith, length-drop n l)

pub at_number {ℓ} : {A : Type ℓ} {n m : ℕ} (l : List A) → n ≡ m → drop n l ≡ drop m l
at_number l e = ap (λ (t : ℕ). drop t l) e

pub drop-add {ℓ} : {A : Type ℓ} (n m : ℕ) (l : List A) → drop m (drop n l) ≡ drop (n + m) l
unfolding drop
drop-add zero m l = at_number {n = m} l (omega arith)
drop-add (suc n) zero [] = at_number {n = suc n} [] (omega arith)
drop-add (suc n) (suc m) [] = at_number {n = suc (n + suc m)} [] (omega arith)
drop-add (suc n) m (x ∷ l) = drop-add n m l ∙ at_number {n = suc (n + m)} (x ∷ l) (omega arith)

abbrev pub frames_of : ℕ → ℕ → List ℕ → List (List ℕ)
frames_of n k raw = (capture_frames (λ b. b) all_accepted n k raw).0

pub capture_frames-error {ℓ} :
    {A : Type ℓ} (prepare : List ℕ → A) (n k : ℕ) (raw : List ℕ)
    → (capture_frames prepare all_accepted n k raw).1 ≡ none
unfolding capture_frames
capture_frames-error prepare n zero raw = refl
capture_frames-error prepare n (suc k) raw =
    capture_frames-error prepare (n + 1) k (drop frame_bytes raw)

pub capture_frames-flatten :
    (n k : ℕ) (raw : List ℕ) → flatten (frames_of n k raw) ++ drop (k * frame_bytes) raw ≡ raw
unfolding capture_frames flatten drop
capture_frames-flatten n zero raw = at_number {n = 0 * frame_bytes} {m = 0} raw (omega arith)
capture_frames-flatten n (suc k) raw =
    append_assoc (take frame_bytes raw) _ _
    ∙ ap (take frame_bytes raw ++◌) (
        ap (flatten (frames_of (n + 1) k (drop frame_bytes raw)) ++◌) (
          at_number {n = suc k * frame_bytes} {m = frame_bytes + k * frame_bytes} raw (omega arith)
          ∙ sym (drop-add frame_bytes (k * frame_bytes) raw))
        ∙ capture_frames-flatten (n + 1) k (drop frame_bytes raw))
    ∙ take-drop frame_bytes raw

pub capture_frames-length :
    (n k : ℕ) (raw : List ℕ)
    → k * frame_bytes ≤ length raw
    → All (λ f. length f ≡ frame_bytes) (frames_of n k raw)
unfolding capture_frames
capture_frames-length n zero raw h = _
capture_frames-length n (suc k) raw h = (
  length-take frame_bytes raw (omega arith),
  capture_frames-length (n + 1) k (drop frame_bytes raw)
      (omega (arith, length-drop frame_bytes raw)),
)

pub capture_frames-map {ℓ} :
    {A : Type ℓ} (prepare : List ℕ → A) (n k : ℕ) (raw : List ℕ)
    → (capture_frames prepare all_accepted n k raw).0 ≡ map prepare (frames_of n k raw)
unfolding capture_frames
capture_frames-map prepare n zero raw = refl
capture_frames-map prepare n (suc k) raw =
    ap (◌∷◌ (prepare (take frame_bytes raw)))
      (capture_frames-map prepare (n + 1) k (drop frame_bytes raw))

pub flatten-append :
    (l m : List (List ℕ)) (r : List ℕ) → flatten (l ++ m) ++ r ≡ flatten l ++ (flatten m ++ r)
unfolding flatten
flatten-append [] m r = refl
flatten-append (f ∷ l) m r =
    append_assoc f (flatten (l ++ m)) r
    ∙ ap (f ++◌) (flatten-append l m r)
    ∙ sym (append_assoc f (flatten l) (flatten m ++ r))

pub All-append {κ} :
    (P : List ℕ → Type κ) (l m : List (List ℕ)) → All P l → All P m → All P (l ++ m)
All-append P [] m h k = k
All-append P (f ∷ l) m h k = (h.0, All-append P l m h.1 k)

pub append-cancel {ℓ} :
    {A : Type ℓ} (a b c d : List A) → length a ≡ length b → a ++ c ≡ b ++ d → (a ≡ b) × (c ≡ d)
append-cancel [] [] c d h e = (refl, e)
append-cancel [] (y ∷ b) c d h e = absurd (omega (arith, h))
append-cancel (x ∷ a) [] c d h e = absurd (omega (arith, h))
append-cancel (x ∷ a) (y ∷ b) c d h e =
    let ih = append-cancel a b c d (omega (arith, h)) (cc e) in (cc (e, ih.0), ih.1)

pub cut_unique :
    (fs gs : List (List ℕ)) (r s : List ℕ)
    → All (λ f. length f ≡ frame_bytes) fs
    → All (λ f. length f ≡ frame_bytes) gs
    → length r < frame_bytes
    → length s < frame_bytes
    → flatten fs ++ r ≡ flatten gs ++ s
    → (fs ≡ gs) × (r ≡ s)
unfolding flatten
cut_unique [] [] r s hf hg hr hs e = (refl, e)
cut_unique [] (g ∷ gs) r s hf hg hr hs e =
    absurd (omega (arith, ap length e, length-append {0}, hg.0))
cut_unique (f ∷ fs) [] r s hf hg hr hs e =
    absurd (omega (arith, ap length e, length-append {0}, hf.0))
cut_unique (f ∷ fs) (g ∷ gs) r s hf hg hr hs e =
    let first =
      append-cancel f g _ _ (hf.0 ∙ sym hg.0)
        (sym (append_assoc f (flatten fs) r) ∙ e ∙ append_assoc g (flatten gs) s) in
    let ih = cut_unique fs gs r s hf.1 hg.1 hr hs first.1 in (cc (first.0, ih.0), ih.1)
