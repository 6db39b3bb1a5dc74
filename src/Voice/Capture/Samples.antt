-- ===== src/Voice/Capture/Samples.antt =====
-- What LiveKit gets of a frame: 480 samples, each within an int16_t.
use native.Mathlib.Nat.{div-le_of_le-mul}
use voxter.Common.{
  ℕ, zero, suc, ◌+◌, ◌*◌, ◌/◌, ◌<◌, ◌≤◌, ◌≡◌, refl, ap, ℤ, pos, negsuc, true, false, List, [], ◌∷◌,
  ◌++◌, Option, ltb, eqb, length, map, arith, All, inl, inr, Bool-cases, String,
}
use voxter.Voice.{Voice}
use voxter.Voice.Capture.{
  Verdict, accepted, threw, threw_unknown, take, drop, frame_bytes, frame_count, capture_frames,
  offer, captured_frames, captured, Double, truncate, clamp, scale, frame_of, samples, sample_of,
  filled, is_heard,
}
use voxter.Voice.Capture.Cut.{length-take, length-drop}

-- between -32768 and 32767
abbrev pub IsSample : ℤ → Type 0
IsSample (pos n) = n ≤ 32767
IsSample (negsuc n) = n ≤ 32767

abbrev pub IsByte : ℕ → Type 0
IsByte b = b < 256

sample_of-IsSample : (low high : ℕ) → IsByte low → IsByte high → IsSample (sample_of low high)
unfolding sample_of
sample_of-IsSample low high l h = elim (Bool-cases (ltb (low + 256 * high) 32768)) [
  | inl e ↦ rw e (ground (arith, e))
  | inr e ↦ rw e (ground (arith, e))
]

within : (bound n d : ℕ) → n ≤ bound * suc d → n / suc d ≤ bound
within bound n d h = div-le_of_le-mul (suc d) (omega (arith, h))

clamp-IsSample : (d : Double) → IsSample (clamp d)
unfolding clamp truncate
clamp-IsSample d =
    ground (arith, within 32767 d.numerator d.denominator, within 32768 d.numerator d.denominator)

samples-IsSample : (bytes : List ℕ) → All IsByte bytes → All IsSample (samples bytes)
unfolding samples
samples-IsSample [] h = _
samples-IsSample (low ∷ []) h = _
samples-IsSample (low ∷ high ∷ bytes) h =
    (sample_of-IsSample low high h.0 h.1.0, samples-IsSample bytes h.1.1)

samples-length : (bytes : List ℕ) → length (samples bytes) ≡ length bytes / 2
unfolding samples
samples-length [] = omega arith
samples-length (low ∷ []) = omega arith
samples-length (low ∷ high ∷ bytes) = omega (arith, samples-length bytes)

take-All {ℓ κ} : {A : Type ℓ} (P : A → Type κ) (n : ℕ) (l : List A) → All P l → All P (take n l)
unfolding take
take-All P zero l h = _
take-All P (suc n) [] h = _
take-All P (suc n) (x ∷ l) h = (h.0, take-All P n l h.1)

drop-All {ℓ κ} : {A : Type ℓ} (P : A → Type κ) (n : ℕ) (l : List A) → All P l → All P (drop n l)
unfolding drop
drop-All P zero l h = h
drop-All P (suc n) [] h = _
drop-All P (suc n) (x ∷ l) h = drop-All P n l h.1

append-All {ℓ κ} : {A : Type ℓ} (P : A → Type κ) (l m : List A) → All P l → All P m → All P (l ++ m)
append-All P [] m h k = k
append-All P (x ∷ l) m h k = (h.0, append-All P l m h.1 k)

offer-All {ℓ κ} :
    {A : Type ℓ} (P : A → Type κ) (r : Verdict) (frame : A) (rest : List A × Option String)
    → P frame
    → All P rest.0
    → All P (offer r frame rest).0
offer-All P accepted frame rest h k = (h, k)
offer-All P (threw message true) frame rest h k = k
offer-All P (threw message false) frame rest h k = _
offer-All P threw_unknown frame rest h k = _

-- What each whole frame has once it is prepared, each frame that LiveKit takes has.
capture_frames-All {ℓ κ} :
    {A : Type ℓ} (P : A → Type κ) (prepare : List ℕ → A) (verdicts : ℕ → Verdict)
    → ((f : List ℕ) → length f ≡ frame_bytes → All IsByte f → P (prepare f))
    → (n k : ℕ) (raw : List ℕ) → k * frame_bytes ≤ length raw
    → All IsByte raw
    → All P (capture_frames prepare verdicts n k raw).0
unfolding capture_frames
capture_frames-All P prepare verdicts each n zero raw h bytes = _
capture_frames-All P prepare verdicts each n (suc k) raw h bytes =
    let rest =
      capture_frames-All P prepare verdicts each (n + 1) k (drop frame_bytes raw)
        (omega (arith, length-drop frame_bytes raw, h)) (drop-All IsByte frame_bytes raw bytes) in
    let first =
      each (take frame_bytes raw) (length-take frame_bytes raw (omega (arith, h)))
        (take-All IsByte frame_bytes raw bytes) in
    offer-All P (verdicts n) (prepare (take frame_bytes raw)) _ first rest

module _ (product : ℤ → ℕ → Double) where
  scale-IsSample : (gain : ℕ) (sample : ℤ) → IsSample sample → IsSample (scale product gain sample)
  unfolding scale
  scale-IsSample gain sample h = elim (Bool-cases (eqb gain 100)) [
    | inl e ↦ rw e h
    | inr e ↦ rw e (clamp-IsSample (product sample gain))
  ]

  scaled-IsSample :
      (gain : ℕ) (l : List ℤ)
      → All IsSample l
      → (length (map (scale product gain) l) ≡ length l) × All IsSample (map (scale product gain) l)
  scaled-IsSample gain [] h = (refl, _)
  scaled-IsSample gain (x ∷ l) h =
      let ih = scaled-IsSample gain l h.1 in (ap suc ih.0, (scale-IsSample gain x h.0, ih.1))

  -- Whatever bytes the microphone sends and the buffer holds, whatever the volume, however doubles
  -- are multiplied and whichever frames LiveKit refuses: each frame that LiveKit takes holds 480
  -- samples, and each sample lies between -32768 and 32767.
  pub captured-in_range :
      (verdicts : ℕ → Verdict) (chunk : List ℕ) (v : Voice)
      → All IsByte v.engine.input_buffer
      → All IsByte chunk
      → All (λ f. (length f ≡ 480) × All IsSample f) (captured product verdicts chunk v)
  unfolding captured captured_frames frame_of
  captured-in_range verdicts chunk v b c =
      let gain = v.engine.microphone_gain in
      let bytes = filled chunk v in
      let whole =
        capture_frames-All (λ (f : List ℤ). (length f ≡ 480) × All IsSample f)
          (frame_of product gain) verdicts
          (λ f size bs.
            let scaled = scaled-IsSample gain (samples f) (samples-IsSample f bs) in
            (omega (arith, scaled.0, samples-length f, size), scaled.1))
          0 (frame_count bytes) bytes (omega arith)
          (append-All IsByte v.engine.input_buffer chunk b c) in
      elim (Bool-cases (is_heard chunk v)) [ inl e ↦ rw e whole | inr e ↦ rw e _ ]
