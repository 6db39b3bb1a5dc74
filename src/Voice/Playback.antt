-- ===== src/Voice/Playback.antt =====
-- The thread of NativeVoiceEngine::startRemotePlayback: the frames of a remote track, on a sink.
-- A round of its loop is given what it reads of its surroundings.
pub mod Whole
use voxter.Common.{
  ℕ, zero, suc, ℤ, pos, negsuc, Bool, true, false, not, ◌&&◌, ◌||◌, List, [], ◌∷◌, ◌++◌, Option,
  none, some, if◌then◌else◌, eqb,
}
use voxter.Voice.Capture.{take, drop}

-- livekit::AudioFrame, with its samples as bytes
pub record Frame : Type 0 where
  pub total_samples : ℕ
  pub sample_rate : ℤ
  pub num_channels : ℤ
  pub bytes : List ℕ

-- one round of the loop that writes: the stop flag, and what QIODevice::write would return
pub record Tick : Type 0 where
  pub stop_flag : Bool
  pub chunk_written : ℤ

-- `event` is none where the stream's read fails.
pub record Round : Type 0 where
  pub stop_before : Bool
  pub event : Option Frame
  pub stop_after : Bool
  pub deafened : Bool
  pub format_supported : Bool
  pub sink_starts : Bool
  pub ticks : List Tick

-- what was written at once to a sink of a rate and a number of channels
pub record Played : Type 0 where
  pub rate : ℤ
  pub channels : ℤ
  pub bytes : List ℕ

pub record Speaker : Type 0 where
  pub sink : Bool
  pub sink_device : Bool
  pub active_rate : ℤ
  pub active_channels : ℤ
  pub played : List Played

unfoldable pub new_speaker : Speaker
new_speaker = record {
  sink = false;
  sink_device = false;
  active_rate = pos 0;
  active_channels = pos 0;
  played = [];
}

unfoldable pub is_positive : ℤ → Bool
is_positive (pos zero) = false
is_positive (pos (suc n)) = true
is_positive (negsuc n) = false

unfoldable pub same_int : ℤ → ℤ → Bool
same_int (pos n) (pos m) = eqb n m
same_int (negsuc n) (negsuc m) = eqb n m
same_int (pos n) (negsuc m) = false
same_int (negsuc n) (pos m) = false

-- how far a write comes: an error and a full device take nothing
abbrev pub amount : ℤ → ℕ
amount (pos n) = n
amount (negsuc n) = 0

-- The bytes that the device takes of those that are left. Without a tick the thread still waits.
unfoldable pub write_all : List Tick → List ℕ → List ℕ
write_all ticks [] = []
write_all [] (b ∷ left) = []
write_all (t ∷ ticks) (b ∷ left) =
    let n = amount t.chunk_written in
    let rest = write_all ticks (drop n (b ∷ left)) in
    if t.stop_flag then [] else take n (b ∷ left) ++ rest

abbrev pub fits : Frame → Speaker → Bool
fits f s =
    s.sink && same_int s.active_rate f.sample_rate && same_int s.active_channels f.num_channels

-- The sink that a frame needs. The old one is stopped also where no new one can be made.
unfoldable pub ready_sink : Round → Frame → Speaker → Speaker
unfolding same_int
ready_sink r f s =
    if fits f s
    then s
    else if not r.format_supported
    then record s { sink = false; sink_device = false }
    else record s {
      sink = true;
      sink_device = r.sink_starts;
      active_rate = f.sample_rate;
      active_channels = f.num_channels;
    }

unfoldable pub write_frame : Round → Frame → Speaker → Speaker
write_frame r f s =
    if s.sink && s.sink_device
    then record s {
      played =
          s.played
          ++ record {
            rate = s.active_rate;
            channels = s.active_channels;
            bytes = write_all r.ticks f.bytes;
          }
            ∷ [];
    }
    else s

unfoldable pub play_frame : Round → Frame → Speaker → Speaker
unfolding ready_sink write_frame is_positive
play_frame r f s =
    if eqb f.total_samples 0
      || r.deafened
      || not (is_positive f.sample_rate)
      || not (is_positive f.num_channels)
    then s
    else write_frame r f (ready_sink r f s)

-- The loop, with the end of the thread behind it.
unfoldable pub play : List Round → Speaker → Speaker
unfolding play_frame
play [] s = s
play (r ∷ rs) s = elim r.event [
  | none ↦ s
  | some f ↦
      let rest = play rs (play_frame r f s) in if r.stop_before || r.stop_after then s else rest
]
