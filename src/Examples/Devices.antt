-- ===== src/Examples/Devices.antt =====
-- A code of bytes as letters that can be undone, and a choice of a microphone.
use Prim.Native.Char.{code}
use voxter.Common.{
  ℕ, zero, suc, ◌+◌, ◌≡◌, refl, ap, ◌∙◌, String, true, false, List, [], ◌∷◌, arith, eqb, string_dec,
  differ,
}
use voxter.Variant.{to_string, value, to_map, insert}
use voxter.Voice.Resolve.{
  AudioDevice, DeviceCodec, IsOneOf, encode_device_id, encoded, resolve_device,
  resolve_device-listed,
}
use voxter.Voice.Devices.{
  list_contains_device_id, build_device_list, list_devices, device, has_device,
}

-- a number as so many letters a, and a b behind them
abbrev unary : ℕ → String → String
unary zero s = String.◌∷◌ "b" s
unary (suc n) s = String.◌∷◌ "a" (unary n s)

abbrev to_letters : List ℕ → String
to_letters [] = ""
to_letters (n ∷ l) = unary n (to_letters l)

abbrev from_letters : ℕ → String → List ℕ
from_letters k String.[] = []
from_letters k (String.◌∷◌ c s) = elim (eqb (code c) 97) [
  | true ↦ from_letters (suc k) s
  | false ↦ k ∷ from_letters 0 s
]

from_letters-unary :
    (k n : ℕ) (s : String) → from_letters k (unary n s) ≡ (k + n) ∷ from_letters 0 s
from_letters-unary k zero s = ap (λ (j : ℕ). j ∷ from_letters 0 s) (omega arith)
from_letters-unary k (suc n) s =
    from_letters-unary (suc k) n s ∙ ap (λ (j : ℕ). j ∷ from_letters 0 s) (omega arith)

letters_undone : (l : List ℕ) → from_letters 0 (to_letters l) ≡ l
letters_undone [] = refl
letters_undone (n ∷ l) =
    from_letters-unary 0 n (to_letters l)
    ∙ ap (λ (j : ℕ). j ∷ from_letters 0 (to_letters l)) (omega arith)
    ∙ ap (◌∷◌ n) (letters_undone l)

abbrev letters : DeviceCodec
letters = record { to_base64_url = to_letters; from_base64_url = from_letters 0 }

abbrev microphones : List AudioDevice
microphones =
    record { id = 0 ∷ []; description = "built in" } ∷ record { id = 1 ∷ []; description = "" } ∷ []

abbrev built_in : AudioDevice
built_in = record { id = 0 ∷ []; description = "built in" }

resolve_device-listed_example :
    IsOneOf letters (resolve_device letters "ab" built_in microphones) microphones
    × (encode_device_id letters (resolve_device letters "ab" built_in microphones).id ≡ "ab")
unfolding list_contains_device_id build_device_list list_devices device has_device encoded
    encode_device_id string_dec to_string value to_map insert
resolve_device-listed_example =
    resolve_device-listed letters letters_undone "Microphone" "ab" built_in microphones
      (differ "ab" "" refl) refl
