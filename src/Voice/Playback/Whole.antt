-- ===== src/Voice/Playback/Whole.antt =====
-- What a user hears of a track that plays well.
use mathlib.Core.List.{append_assoc, append-nil}
use voxter.Common.{
  ℕ, ◌+◌, ◌≤◌, ◌≡◌, refl, ap, ◌∙◌, sym, ℤ, pos, negsuc, Bool, true, false, not, ◌&&◌, ◌||◌, List,
  [], ◌∷◌, ◌++◌, none, some, if◌then◌else◌, eqb, arith, All, length, Bool-cases, inl, inr,
}
use voxter.Voice.Capture.{take, drop}
use voxter.Voice.Capture.Cut.{take-drop, length-drop}
use voxter.Voice.Playback.{
  Frame, Tick, Round, Played, Speaker, is_positive, same_int, amount, write_all, fits, ready_sink,
  write_frame, play_frame, play,
}

-- How many bytes the device offers to take, and that no tick is a stop.
abbrev pub capacity : List Tick → ℕ
capacity [] = 0
capacity (t ∷ ticks) = amount t.chunk_written + capacity ticks

write_all-whole :
    (ticks : List Tick) (left : List ℕ)
    → All (λ t. t.stop_flag ≡ false) ticks
    → length left ≤ capacity ticks
    → write_all ticks left ≡ left
unfolding write_all
write_all-whole ticks [] h l = refl
write_all-whole [] (b ∷ left) h l = absurd (omega (arith, l))
write_all-whole (t ∷ ticks) (b ∷ left) h l =
    let n = amount t.chunk_written in
    rw (h.0) (
      ap (take n (b ∷ left) ++◌)
        (write_all-whole ticks (drop n (b ∷ left)) h.1 (omega (arith, l, length-drop n (b ∷ left))))
      ∙ take-drop n (b ∷ left))

same_int-eq : (a b : ℤ) → same_int a b ≡ true → a ≡ b
unfolding same_int
same_int-eq (pos n) (pos m) e = ground (arith, e)
same_int-eq (negsuc n) (negsuc m) e = ground (arith, e)
same_int-eq (pos n) (negsuc m) e = absurd (cc e)
same_int-eq (negsuc n) (pos m) e = absurd (cc e)

-- The round is not stopped and reads a frame, the device takes the frame's format and all its bytes.
pub record Well (r : Round) : Type 0 where
  pub frame : Frame
  pub event : r.event ≡ some frame
  pub goes_on : (r.stop_before || r.stop_after) ≡ false
  pub supported : r.format_supported ≡ true
  pub starts : r.sink_starts ≡ true
  pub ticks : All (λ t. t.stop_flag ≡ false) r.ticks
  pub room : length frame.bytes ≤ capacity r.ticks

-- a sink that is there has its device
abbrev pub Works : Speaker → Type 0
Works s = (s.sink && not s.sink_device) ≡ false

-- what is to be heard of a frame: all its bytes in its own format, unless it is to be skipped
abbrev pub heard_frame : Bool → Frame → List Played
heard_frame deafened f =
    if eqb f.total_samples 0
      || deafened
      || not (is_positive f.sample_rate)
      || not (is_positive f.num_channels)
    then []
    else record { rate = f.sample_rate; channels = f.num_channels; bytes = f.bytes } ∷ []

abbrev pub heard : List Round → List Played
heard [] = []
heard (r ∷ rs) = elim r.event [ none ↦ [] | some f ↦ heard_frame r.deafened f ] ++ heard rs

-- the sink for a frame is there, with its device and the frame's format
record Fit (f : Frame) (s t : Speaker) : Type 0 where
  sink : t.sink ≡ true
  device : t.sink_device ≡ true
  rate : t.active_rate ≡ f.sample_rate
  channels : t.active_channels ≡ f.num_channels
  played : t.played ≡ s.played

ready_sink-Fit :
    (r : Round) (s : Speaker) (h : Well r) → Works s → Fit h.frame s (ready_sink r h.frame s)
unfolding ready_sink
ready_sink-Fit r s h w =
    let rate = same_int-eq s.active_rate h.frame.sample_rate in
    let channels = same_int-eq s.active_channels h.frame.num_channels in
    elim (Bool-cases (fits h.frame s)) [
      | inl e ↦ rw e (record {
        sink = ground (arith, e, w);
        device = ground (arith, e, w);
        rate = rate (ground (arith, e));
        channels = channels (ground (arith, e));
        played = refl;
      })
      | inr e ↦
          rw (e, h.supported)
            (record { sink = refl; device = h.starts; rate = refl; channels = refl; played = refl })
    ]

play_frame-heard :
    (r : Round) (s : Speaker) (h : Well r)
    → Works s
    → ((play_frame r h.frame s).played ≡ s.played ++ heard_frame r.deafened h.frame)
      × Works (play_frame r h.frame s)
unfolding play_frame write_frame
play_frame-heard r s h w =
    let whole = write_all-whole r.ticks h.frame.bytes h.ticks h.room in
    let fit = ready_sink-Fit r s h w in
    let nothing = append-nil s.played in
    (ground (arith, fit, whole, nothing), ground (arith, fit, w))

-- As long as the thread is not stopped, each read gives a frame, the output device takes the frames'
-- formats and, write by write, all their bytes, and a sink that is there at first has its device:
-- then the speaker gets of the frames that are read while the user is not deafened, in their order,
-- all bytes, in the frame's own rate and number of channels, and nothing else. Frames without
-- samples, or whose rate or number of channels is not positive, are passed over.
pub play-heard :
    (rs : List Round) (s : Speaker)
    → All Well rs
    → Works s
    → (play rs s).played ≡ s.played ++ heard rs
unfolding play
play-heard [] s h w = sym (append-nil s.played)
play-heard (r ∷ rs) s h w =
    let one = play_frame-heard r s h.0 w in
    rw (h.0.event, h.0.goes_on)
      (play-heard rs (play_frame r h.0.frame s) h.1 one.1
        ∙ ap (◌++ heard rs) one.0
        ∙ append_assoc s.played (heard_frame r.deafened h.0.frame) (heard rs))
