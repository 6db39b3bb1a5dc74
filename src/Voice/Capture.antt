-- ===== src/Voice/Capture.antt =====
-- NativeVoiceEngine::onInputReadyRead: the microphone's bytes in frames of 10 ms, for LiveKit.
pub mod Cut
pub mod Stream
pub mod Samples
pub mod Resent
use voxter.Common.{
  ℕ, zero, suc, ◌+◌, ◌-◌, ◌*◌, ◌/◌, ◌<◌, ℤ, pos, negsuc, String, Bool, true, false, not, ◌&&◌, List,
  [], ◌∷◌, ◌++◌, Option, none, some, if◌then◌else◌, ltb, eqb, ◌<>◌, length, map, ◌||◌,
}
use voxter.Voice.{Engine, Voice, on_engine}
use voxter.Voice.Media.{set_engine_error}

-- kCaptureFrameBytes: 480 samples of 16 bits
abbrev pub frame_bytes : ℕ
frame_bytes = 960

unfoldable pub take {ℓ} : {A : Type ℓ} → ℕ → List A → List A
take zero l = []
take (suc n) [] = []
take (suc n) (x ∷ l) = x ∷ take n l

unfoldable pub drop {ℓ} : {A : Type ℓ} → ℕ → List A → List A
drop zero l = l
drop (suc n) [] = []
drop (suc n) (x ∷ l) = drop n l

-- an int16_t, whose lower byte comes first
unfoldable pub sample_of : ℕ → ℕ → ℤ
sample_of low high =
    let word = low + 256 * high in if ltb word 32768 then pos word else negsuc (65535 - word)

unfoldable pub samples : List ℕ → List ℤ
samples [] = []
samples (low ∷ []) = []
samples (low ∷ high ∷ bytes) = sample_of low high ∷ samples bytes

-- A double, which is a fraction: its sign, and its numerator over a power of two. `denominator` is
-- one less than that.
pub record Double : Type 0 where
  pub negative : Bool
  pub numerator : ℕ
  pub denominator : ℕ

-- the conversion to an int16_t drops what stands behind the point
unfoldable pub truncate : Double → ℤ
truncate d =
    let whole = d.numerator / suc d.denominator in
    if d.negative && ltb 0 whole then negsuc (whole - 1) else pos whole

unfoldable pub clamp : Double → ℤ
unfolding truncate
clamp d =
    if not d.negative && ltb (32767 * suc d.denominator) d.numerator
    then pos 32767
    else if d.negative && ltb (32768 * suc d.denominator) d.numerator
    then negsuc 32767
    else truncate d

-- What LiveKit's captureFrame does with a frame: it takes it, or it throws. A message comes with
-- what QString::contains says of "timed out" in it.
pub data Verdict : Type 0 where
  accepted : Verdict
  threw : String → Bool → Verdict
  threw_unknown : Verdict

abbrev pub capture_failed : String
capture_failed = "voice-error:microphone capture failed"

-- One round of the loop over the frames: what LiveKit says to the frame, and the rounds behind it.
abbrev pub offer {ℓ} : {A : Type ℓ} → Verdict → A → List A × Option String → List A × Option String
offer accepted frame rest = (frame ∷ rest.0, rest.1)
offer (threw message true) frame rest = rest
offer (threw message false) frame rest = ([], some (capture_failed <> ": " <> message))
offer threw_unknown frame rest = ([], some capture_failed)

-- The loop over the frames, where the n-th one has the n-th verdict: the frames that LiveKit takes,
-- and the error that ends the loop. `prepare` is what is done to a frame's samples.
unfoldable pub capture_frames {ℓ} :
    {A : Type ℓ} → (List ℕ → A) → (ℕ → Verdict) → ℕ → ℕ → List ℕ → List A × Option String
capture_frames prepare verdicts n zero raw = ([], none)
capture_frames prepare verdicts n (suc left) raw =
    let rest = capture_frames prepare verdicts (n + 1) left (drop frame_bytes raw) in
    offer (verdicts n) (prepare (take frame_bytes raw)) rest

abbrev pub with_buffer : List ℕ → Voice → Voice
with_buffer bytes = on_engine (λ g. record g { input_buffer = bytes })

abbrev pub filled : List ℕ → Voice → List ℕ
filled chunk v = v.engine.input_buffer ++ chunk

abbrev pub frame_count : List ℕ → ℕ
frame_count bytes = length bytes / frame_bytes

-- whether the loop is reached
abbrev pub is_heard : List ℕ → Voice → Bool
is_heard chunk v =
    v.engine.capturing && ltb 0 (length chunk) && v.engine.has_source && v.engine.transmitting_now

-- what is behind the loop: an error leaves the buffer as it is
unfoldable pub settle : Option String → List ℕ → Voice → Voice
unfolding set_engine_error
settle none bytes v = with_buffer (drop (frame_count bytes * frame_bytes) bytes) v
settle (some error) bytes v = set_engine_error error (with_buffer bytes v)

-- What the handler does to the state.
unfoldable pub on_input_ready_read : (ℕ → Verdict) → List ℕ → Voice → Voice
unfolding settle
on_input_ready_read verdicts chunk v =
    let bytes = filled chunk v in
    let loop = capture_frames (λ b. b) verdicts 0 (frame_count bytes) bytes in
    if not v.engine.capturing || eqb (length chunk) 0
    then v
    else if not v.engine.has_source
    then with_buffer [] v
    else if eqb (frame_count bytes) 0
    then with_buffer bytes v
    else if not v.engine.transmitting_now
    then with_buffer (drop (frame_count bytes * frame_bytes) bytes) v
    else settle loop.1 bytes v

-- The frames that LiveKit takes from the handler, each prepared.
unfoldable pub captured_frames {ℓ} :
    {A : Type ℓ} → (List ℕ → A) → (ℕ → Verdict) → List ℕ → Voice → List A
captured_frames prepare verdicts chunk v =
    let bytes = filled chunk v in
    if is_heard chunk v then (capture_frames prepare verdicts 0 (frame_count bytes) bytes).0 else []

-- `product` is the product of a sample and a gain in hundredths, as doubles multiply.
module _ (product : ℤ → ℕ → Double) where
  unfoldable pub scale : ℕ → ℤ → ℤ
  scale gain sample = if eqb gain 100 then sample else clamp (product sample gain)

  unfoldable pub frame_of : ℕ → List ℕ → List ℤ
  frame_of gain bytes = map (scale gain) (samples bytes)

  unfoldable pub captured : (ℕ → Verdict) → List ℕ → Voice → List (List ℤ)
  captured verdicts chunk v = captured_frames (frame_of v.engine.microphone_gain) verdicts chunk v
