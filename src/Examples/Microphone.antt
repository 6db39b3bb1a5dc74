-- ===== src/Examples/Microphone.antt =====
-- A user who is heard, what the microphone sends, and what the user hears of another.
use mathlib.Core.List.{flatten}
use voxter.Common.{
  some, ℕ, zero, suc, ◌*◌, ◌<◌, ◌≡◌, refl, List, [], ◌∷◌, ◌++◌, All, length, arith, true, false, ℤ,
  pos, negsuc,
}
use voxter.Voice.{Voice, on_engine}
use voxter.Voice.Boot.{new_voice}
use voxter.Voice.Capture.{
  frame_bytes, Double, captured, captured_frames, on_input_ready_read, filled,
}
use voxter.Voice.Capture.Cut.{all_accepted}
use voxter.Voice.Capture.Stream.{OnAir, read_all, read_all-keeps_bytes}
use voxter.Voice.Capture.Samples.{IsSample, captured-in_range}
use voxter.Voice.Capture.Resent.{breaks_at, failure, taken_frames_are_sent_again}
use voxter.Voice.Playback.{Round, Frame, new_speaker, play}
use voxter.Voice.Playback.Whole.{Well, heard, play-heard}
use voxter.Examples.Calls.{host, store, saved}

abbrev pub on_air : Voice
on_air =
    on_engine
      (λ g. record g {
        capturing = true;
        has_source = true;
        transmitting_now = true;
        microphone_gain = 150;
        input_buffer = [];
      })
      (new_voice host store saved)

on_air-OnAir : OnAir on_air
on_air-OnAir = record { opened = refl; source = refl; heard = refl; rest = omega arith }

abbrev portion : ℕ → ℕ → List ℕ
portion zero b = []
portion (suc n) b = b ∷ portion n b

portion-All : (n : ℕ) → All (λ b. b < 256) (portion n 7)
portion-All zero = _
portion-All (suc n) = (omega arith, portion-All n)

read_all-keeps_bytes_example :
    let r = read_all (portion 700 1 ∷ portion 700 2 ∷ []) on_air in
    (flatten r.0 ++ r.1.engine.input_buffer
      ≡ on_air.engine.input_buffer ++ flatten (portion 700 1 ∷ portion 700 2 ∷ []))
    × All (λ f. length f ≡ frame_bytes) r.0
    × OnAir r.1
read_all-keeps_bytes_example =
    read_all-keeps_bytes (portion 700 1 ∷ portion 700 2 ∷ []) on_air on_air-OnAir

-- a product in hundredths, cut where it is negative
abbrev times : ℤ → ℕ → Double
times (pos n) gain = record { negative = false; numerator = n * gain; denominator = 99 }
times (negsuc n) gain = record { negative = true; numerator = suc n * gain; denominator = 99 }

captured-in_range_example :
    All
      (λ f. (length f ≡ 480) × All IsSample f)
      (captured times all_accepted (portion 960 7) on_air)
captured-in_range_example =
    captured-in_range times all_accepted (portion 960 7) on_air _ (portion-All 960)

taken_frames_are_sent_again_example :
    let w = on_input_ready_read (breaks_at 1 "closed") (5 ∷ portion 1919 5) on_air in
    let sent = captured_frames (λ b. b) (breaks_at 1 "closed") (5 ∷ portion 1919 5) on_air in
    (length sent ≡ 1)
    × (w.engine.error ≡ failure "closed")
    × (w.engine.input_buffer ≡ filled (5 ∷ portion 1919 5) on_air)
    × ((rest : List (List ℕ)) × (captured_frames (λ b. b) all_accepted (6 ∷ []) w ≡ sent ++ rest))
taken_frames_are_sent_again_example =
    taken_frames_are_sent_again "closed" 1 5 6 (portion 1919 5) [] on_air on_air-OnAir (omega arith)

abbrev frame : Frame
frame = record {
  total_samples = 2;
  sample_rate = pos 48000;
  num_channels = pos 1;
  bytes = 1 ∷ 2 ∷ 3 ∷ 4 ∷ [];
}

-- the device takes the bytes in two writes, with one in between that takes none
abbrev round : Round
round = record {
  stop_before = false;
  event = some frame;
  stop_after = false;
  deafened = false;
  format_supported = true;
  sink_starts = true;
  ticks =
      record { stop_flag = false; chunk_written = pos 3 }
      ∷ record { stop_flag = false; chunk_written = negsuc 0 }
      ∷ record { stop_flag = false; chunk_written = pos 1 }
      ∷ [];
}

round-Well : Well round
round-Well = record {
  frame = frame;
  event = refl;
  goes_on = refl;
  supported = refl;
  starts = refl;
  ticks = (refl, (refl, (refl, _)));
  room = omega arith;
}

play-heard_example : (play (round ∷ round ∷ []) new_speaker).played ≡ heard (round ∷ round ∷ [])
unfolding new_speaker
play-heard_example = play-heard (round ∷ round ∷ []) new_speaker (round-Well, (round-Well, _)) refl
