-- ===== src/Voice/Capture/Resent.antt =====
-- What an error of LiveKit's captureFrame leaves behind.
use voxter.Common.{
  ℕ, zero, suc, ◌+◌, ◌*◌, ◌<◌, ◌≤◌, ◌≡◌, refl, ap, ◌∙◌, true, false, List, [], ◌∷◌, ◌++◌, some,
  if◌then◌else◌, ltb, length, length-append, arith, String, ◌<>◌,
}
use voxter.Voice.{Voice}
use voxter.Voice.Media.{set_error, set_engine_error}
use voxter.Voice.Capture.{
  Verdict, accepted, threw, take, drop, frame_bytes, frame_count, capture_frames, capture_failed,
  captured_frames, on_input_ready_read, settle, filled, with_buffer,
}
use voxter.Voice.Capture.Cut.{all_accepted, frames_of, length-drop}
use voxter.Voice.Capture.Stream.{OnAir}

-- LiveKit takes j frames and refuses the next one.
abbrev pub breaks_at : ℕ → String → ℕ → Verdict
breaks_at j message n = if ltb n j then accepted else threw message false

abbrev pub failure : String → String
failure message = capture_failed <> ": " <> message

capture_frames-breaks :
    (message : String) (j n i k : ℕ) (raw : List ℕ)
    → j ≡ n + i
    → i < k
    → capture_frames (λ b. b) (breaks_at j message) n k raw
      ≡ (frames_of n i raw, some (failure message))
unfolding capture_frames
capture_frames-breaks message j n i zero raw e h = absurd (omega (arith, h))
capture_frames-breaks message j n zero (suc k) raw e h = ground (arith, e)
capture_frames-breaks message j n (suc i) (suc k) raw e h =
    let ih =
      capture_frames-breaks message j (n + 1) i k (drop frame_bytes raw) (omega (arith, e))
        (omega (arith, h)) in
    ground (arith, e, ih)

take-append {ℓ} : {A : Type ℓ} (n : ℕ) (l m : List A) → n ≤ length l → take n (l ++ m) ≡ take n l
unfolding take
take-append zero l m h = refl
take-append (suc n) [] m h = absurd (omega (arith, h))
take-append (suc n) (x ∷ l) m h = ap (x ∷◌) (take-append n l m (omega (arith, h)))

drop-append {ℓ} :
    {A : Type ℓ} (n : ℕ) (l m : List A) → n ≤ length l → drop n (l ++ m) ≡ drop n l ++ m
unfolding drop
drop-append zero l m h = refl
drop-append (suc n) [] m h = absurd (omega (arith, h))
drop-append (suc n) (x ∷ l) m h = drop-append n l m (omega (arith, h))

-- The frames at the front are the same when more bytes are behind.
frames_of-front :
    (n i k : ℕ) (raw more : List ℕ)
    → i ≤ k
    → i * frame_bytes ≤ length raw
    → (rest : List (List ℕ)) × (frames_of n k (raw ++ more) ≡ frames_of n i raw ++ rest)
unfolding capture_frames
frames_of-front n zero k raw more h l = (frames_of n k (raw ++ more), refl)
frames_of-front n (suc i) zero raw more h l = absurd (omega (arith, h))
frames_of-front n (suc i) (suc k) raw more h l =
    let ih =
      frames_of-front (n + 1) i k (drop frame_bytes raw) more (omega (arith, h))
        (omega (arith, l, length-drop frame_bytes raw)) in
    (
      ih.0,
      rw
          (
            take-append frame_bytes raw more (omega (arith, l)),
            drop-append frame_bytes raw more (omega (arith, l)),
          )
          (ap (take frame_bytes raw ∷◌) ih.1),
    )

on_input_ready_read-breaks :
    (message : String) (j b : ℕ) (bs : List ℕ) (v : Voice)
    → OnAir v
    → j < frame_count (filled (b ∷ bs) v)
    → on_input_ready_read (breaks_at j message) (b ∷ bs) v
      ≡ set_engine_error (failure message) (with_buffer (filled (b ∷ bs) v) v)
unfolding on_input_ready_read settle
on_input_ready_read-breaks message j b bs v h l =
    let bytes = filled (b ∷ bs) v in
    let loop = capture_frames-breaks message j 0 j (frame_count bytes) bytes (omega arith) l in
    ground (arith, h, loop)

capture-breaks :
    (message : String) (j b : ℕ) (bs : List ℕ) (v : Voice)
    → OnAir v
    → j < frame_count (filled (b ∷ bs) v)
    → captured_frames (λ b. b) (breaks_at j message) (b ∷ bs) v ≡ frames_of 0 j (filled (b ∷ bs) v)
unfolding captured_frames
capture-breaks message j b bs v h l =
    let bytes = filled (b ∷ bs) v in
    let loop = capture_frames-breaks message j 0 j (frame_count bytes) bytes (omega arith) l in
    ground (arith, h, loop)

-- What an error changes of the capture: nothing but the error.
told :
    (e : String) (v : Voice)
    → ((set_engine_error e v).engine.error ≡ e)
      × ((set_engine_error e v).engine.input_buffer ≡ v.engine.input_buffer)
      × ((set_engine_error e v).engine.capturing ≡ v.engine.capturing)
      × ((set_engine_error e v).engine.has_source ≡ v.engine.has_source)
      × ((set_engine_error e v).engine.transmitting_now ≡ v.engine.transmitting_now)
unfolding set_engine_error set_error
told e v = ground arith

frames_of-length : (n k : ℕ) (raw : List ℕ) → length (frames_of n k raw) ≡ k
unfolding capture_frames
frames_of-length n zero raw = refl
frames_of-length n (suc k) raw = ap suc (frames_of-length (n + 1) k (drop frame_bytes raw))

next_frames :
    (c : ℕ) (cs : List ℕ) (w : Voice)
    → w.engine.capturing ≡ true
    → w.engine.has_source ≡ true
    → w.engine.transmitting_now ≡ true
    → captured_frames (λ b. b) all_accepted (c ∷ cs) w
      ≡ frames_of 0
          (frame_count (w.engine.input_buffer ++ c ∷ cs))
          (w.engine.input_buffer ++ c ∷ cs)
unfolding captured_frames
next_frames c cs w opened source heard = ground (arith, opened, source, heard)

-- While the user is to be heard and less than a frame waits: where LiveKit takes j frames of a
-- reading and refuses the next one with an error that is no timeout, the error is kept and all the
-- bytes stay in the buffer, those of the j frames too. If the next reading brings a byte and LiveKit
-- takes its frames, then it is given the same j frames again before any other.
pub taken_frames_are_sent_again :
    (message : String) (j b c : ℕ) (bs cs : List ℕ) (v : Voice)
    → OnAir v
    → j < frame_count (filled (b ∷ bs) v)
    → let w = on_input_ready_read (breaks_at j message) (b ∷ bs) v in
      let sent = captured_frames (λ b. b) (breaks_at j message) (b ∷ bs) v in
      (length sent ≡ j)
      × (w.engine.error ≡ failure message)
      × (w.engine.input_buffer ≡ filled (b ∷ bs) v)
      × ((rest : List (List ℕ)) × (captured_frames (λ b. b) all_accepted (c ∷ cs) w ≡ sent ++ rest))
taken_frames_are_sent_again message j b c bs cs v h l =
    let bytes = filled (b ∷ bs) v in
    let kept = with_buffer bytes v in
    let t = told (failure message) kept in
    let w = set_engine_error (failure message) kept in
    let more = w.engine.input_buffer ++ c ∷ cs in
    let same : more ≡ bytes ++ c ∷ cs = ap (◌++ c ∷ cs) t.1 in
    let next =
      next_frames c cs w (t.2 ∙ h.opened) (t.3 ∙ h.source) (t.4 ∙ h.heard)
      ∙ ap (λ (x : List ℕ). frames_of 0 (frame_count x) x) same in
    let front =
      frames_of-front 0 j (frame_count (bytes ++ c ∷ cs)) bytes (c ∷ cs)
        (omega (arith, l, length-append bytes (c ∷ cs))) (omega (arith, l)) in
    rw (on_input_ready_read-breaks message j b bs v h l, capture-breaks message j b bs v h l)
      (frames_of-length 0 j bytes, t.0, t.1, (front.0, next ∙ front.1))
