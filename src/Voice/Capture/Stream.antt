-- ===== src/Voice/Capture/Stream.antt =====
-- However the microphone's bytes arrive, they are cut into the same frames.
use mathlib.Core.List.{append-nil, append_assoc, flatten}
use voxter.Common.{ℕ, ◌*◌, ◌<◌, ◌≡◌, ap, sym, ◌∙◌, true, List, [], ◌∷◌, ◌++◌, length, arith, All}
use voxter.Voice.{Voice}
use voxter.Voice.Capture.{
  drop, frame_bytes, frame_count, captured_frames, on_input_ready_read, settle, filled, with_buffer,
}
use voxter.Voice.Capture.Cut.{
  all_accepted, length-drop, frames_of, capture_frames-error, capture_frames-flatten,
  capture_frames-length, flatten-append, All-append, cut_unique,
}

-- What a run of readings gives: the bytes that LiveKit takes, frame by frame, and the state behind.
unfoldable pub read_all : List (List ℕ) → Voice → List (List ℕ) × Voice
read_all [] v = ([], v)
read_all (chunk ∷ chunks) v =
    let rest = read_all chunks (on_input_ready_read all_accepted chunk v) in
    (captured_frames (λ b. b) all_accepted chunk v ++ rest.0, rest.1)

-- The microphone is open, LiveKit's source is there and the user is to be heard.
pub record OnAir (v : Voice) : Type 0 where
  pub opened : v.engine.capturing ≡ true
  pub source : v.engine.has_source ≡ true
  pub heard : v.engine.transmitting_now ≡ true
  pub rest : length v.engine.input_buffer < frame_bytes

read_one-buffer :
    (b : ℕ) (bs : List ℕ) (v : Voice)
    → OnAir v
    → on_input_ready_read all_accepted (b ∷ bs) v
      ≡ with_buffer (drop (frame_count (filled (b ∷ bs) v) * frame_bytes) (filled (b ∷ bs) v)) v
unfolding on_input_ready_read settle drop
read_one-buffer b bs v h =
    let bytes = filled (b ∷ bs) v in
    let e = capture_frames-error (λ (b : List ℕ). b) 0 (frame_count bytes) bytes in
    ground (arith, h, e)

read_one-frames :
    (b : ℕ) (bs : List ℕ) (v : Voice)
    → OnAir v
    → captured_frames (λ b. b) all_accepted (b ∷ bs) v
      ≡ frames_of 0 (frame_count (filled (b ∷ bs) v)) (filled (b ∷ bs) v)
unfolding captured_frames
read_one-frames b bs v h = ground (arith, h)

read_none-buffer : (v : Voice) → on_input_ready_read all_accepted [] v ≡ v
unfolding on_input_ready_read
read_none-buffer v = ground arith

read_none-frames : (v : Voice) → captured_frames (λ b. b) all_accepted [] v ≡ []
unfolding captured_frames
read_none-frames v = ground arith

read_one :
    (chunk : List ℕ) (v : Voice)
    → OnAir v
    → let w = on_input_ready_read all_accepted chunk v in
      let frames = captured_frames (λ b. b) all_accepted chunk v in
      (flatten frames ++ w.engine.input_buffer ≡ v.engine.input_buffer ++ chunk)
      × All (λ f. length f ≡ frame_bytes) frames
      × OnAir w
read_one [] v h =
    rw (read_none-buffer v, read_none-frames v)
      (unfold flatten in sym (append-nil v.engine.input_buffer), _, h)
read_one (b ∷ bs) v h =
    let bytes = filled (b ∷ bs) v in
    let n = frame_count bytes in
    rw (read_one-buffer b bs v h, read_one-frames b bs v h)
      (
        capture_frames-flatten 0 n bytes,
        capture_frames-length 0 n bytes (omega arith),
        record {
          opened = h.opened;
          source = h.source;
          heard = h.heard;
          rest = omega (arith, length-drop (n * frame_bytes) bytes);
        },
      )

-- While the user is to be heard, less than a frame waits and LiveKit takes every frame, a run of
-- readings loses no byte and adds none: the frames that LiveKit gets are of 960 bytes each, and laid
-- end to end, with the bytes that still wait for the rest of a frame behind them, they are the bytes
-- that waited before and those that were read, in order. Fewer than 960 wait then, and the user is
-- still to be heard.
pub read_all-keeps_bytes :
    (chunks : List (List ℕ)) (v : Voice)
    → OnAir v
    → let r = read_all chunks v in
      (flatten r.0 ++ r.1.engine.input_buffer ≡ v.engine.input_buffer ++ flatten chunks)
      × All (λ f. length f ≡ frame_bytes) r.0
      × OnAir r.1
unfolding read_all
read_all-keeps_bytes [] v h = unfold flatten in (sym (append-nil v.engine.input_buffer), _, h)
read_all-keeps_bytes (chunk ∷ chunks) v h =
    let w = on_input_ready_read all_accepted chunk v in
    let frames = captured_frames (λ (b : List ℕ). b) all_accepted chunk v in
    let r = read_all chunks w in
    let one = read_one chunk v h in
    let ih = read_all-keeps_bytes chunks w one.2 in
    (
      flatten-append frames r.0 r.1.engine.input_buffer
          ∙ ap (flatten frames ++◌) ih.0
          ∙ sym (append_assoc (flatten frames) w.engine.input_buffer (flatten chunks))
          ∙ ap (◌++ flatten chunks) one.0
          ∙ (unfold flatten in append_assoc v.engine.input_buffer chunk (flatten chunks)),
      All-append (λ f. length f ≡ frame_bytes) frames r.0 one.1 ih.1,
      ih.2,
    )

-- While the user is to be heard, less than a frame waits and LiveKit takes every frame, it makes no difference in which
-- portions the microphone's bytes come: two runs of readings with the same bytes in all give LiveKit
-- the same frames in the same order, and the same bytes are left waiting.
pub read_all-portions :
    (chunks portions : List (List ℕ)) (v : Voice)
    → OnAir v
    → flatten chunks ≡ flatten portions
    → let r = read_all chunks v in
      let s = read_all portions v in
      (r.0 ≡ s.0) × (r.1.engine.input_buffer ≡ s.1.engine.input_buffer)
read_all-portions chunks portions v h e =
    let r = read_all-keeps_bytes chunks v h in
    let s = read_all-keeps_bytes portions v h in
    cut_unique _ _ _ _ r.1 s.1 r.2.rest s.2.rest (r.0 ∙ ap (v.engine.input_buffer ++◌) e ∙ sym s.0)
