-- ===== src/Storage/RoundTrip.antt =====
-- A saved token is loaded again.
use Prim.Native.Nat.{bit_xor}
use voxter.Common.{
  ℕ, zero, suc, ◌+◌, ◌%◌, ◌<◌, ◌≡◌, refl, ap, ◌∙◌, Bool, true, String, List, [], ◌∷◌, arith, length,
  All, eqb, if◌then◌else◌, false,
}
use voxter.Storage.{
  at, obfuscate_from, obfuscate, deobfuscate, Settings, Codec, encode_token, decode_token,
  save_auth_tokens, load_access_token, load_refresh_token, clear,
}

-- Whether a key byte k undoes itself on all bytes below a bound, and whether all keys below a bound
-- do so.
undoes : (k bound : ℕ) → Bool
undoes k zero = true
undoes k (suc b) = if eqb (bit_xor (bit_xor b k) k) b then undoes k b else false

all_undo : (bound : ℕ) → Bool
all_undo zero = true
all_undo (suc k) = if undoes k 256 then all_undo k else false

undoes-at : (k b bound : ℕ) → b < bound → undoes k bound ≡ true → bit_xor (bit_xor b k) k ≡ b
unfolding undoes
undoes-at k b zero l e = absurd (omega arith)
undoes-at k b (suc m) l e = ground (arith, undoes-at k b m)

all_undo-at : (k bound : ℕ) → k < bound → all_undo bound ≡ true → undoes k 256 ≡ true
unfolding all_undo
all_undo-at k zero l e = absurd (omega arith)
all_undo-at k (suc m) l e = ground (arith, all_undo-at k m)

bytes_undo : all_undo 256 ≡ true
unfolding all_undo undoes
bytes_undo = refl

bit_xor-bit_xor : (b k : ℕ) → b < 256 → k < 256 → bit_xor (bit_xor b k) k ≡ b
bit_xor-bit_xor b k l m = undoes-at k b 256 l (all_undo-at k 256 m bytes_undo)

abbrev pub AreBytes : List ℕ → Type 0
AreBytes = All (λ b. b < 256)

at-lt : (bs : List ℕ) (i : ℕ) → AreBytes bs → at bs i < 256
at-lt [] i h = omega arith
at-lt (b ∷ bs) zero h = h.0
at-lt (b ∷ bs) (suc i) h = at-lt bs i h.1

obfuscate_from_twice :
    (secret : List ℕ) (i : ℕ) (bs : List ℕ)
    → AreBytes secret
    → AreBytes bs
    → obfuscate_from secret i (obfuscate_from secret i bs) ≡ bs
unfolding obfuscate_from
obfuscate_from_twice secret i [] k h = refl
obfuscate_from_twice secret i (b ∷ bs) k h = cc (
  bit_xor-bit_xor b (at secret (i % length secret)) h.0 (at-lt secret (i % length secret) k),
  obfuscate_from_twice secret (i + 1) bs k h.1,
)

-- What the client relies on: Base64 can be undone, no bytes are no text, and the key has bytes.
pub record CodecLaws (c : Codec) : Type 0 where
  pub from_base64-to_base64 : (bs : List ℕ) → c.from_base64 (c.to_base64 bs) ≡ bs
  pub key_bytes : AreBytes c.key
  pub from_base64-nil : c.from_base64 [] ≡ []
  pub from_utf8-nil : c.from_utf8 [] ≡ ""

-- A token that UTF-8 takes to bytes and back.
pub record IsEncodable (c : Codec) (token : String) : Type 0 where
  pub back : c.from_utf8 (c.to_utf8 token) ≡ token
  pub bytes : AreBytes (c.to_utf8 token)

module _ (c : Codec) (laws : CodecLaws c) where
  decode-encode :
      (token : String) → IsEncodable c token → decode_token c (encode_token c token) ≡ token
  unfolding decode_token encode_token obfuscate deobfuscate
  decode-encode token e =
      ap (λ bs. c.from_utf8 (obfuscate_from c.key 0 bs))
        (laws.from_base64-to_base64 (obfuscate_from c.key 0 (c.to_utf8 token)))
      ∙ ap c.from_utf8 (obfuscate_from_twice c.key 0 (c.to_utf8 token) laws.key_bytes e.bytes)
      ∙ e.back

  decode-nil : decode_token c [] ≡ ""
  unfolding decode_token obfuscate deobfuscate obfuscate_from
  decode-nil =
      ap (λ bs. c.from_utf8 (obfuscate_from c.key 0 bs)) laws.from_base64-nil ∙ laws.from_utf8-nil

  pub load_access_token-clear : (s : Settings) → load_access_token c (clear s) ≡ ""
  unfolding load_access_token clear
  load_access_token-clear s = decode-nil

  pub load_refresh_token-clear : (s : Settings) → load_refresh_token c (clear s) ≡ ""
  unfolding load_refresh_token clear
  load_refresh_token-clear s = decode-nil

  -- With a Base64 that can be undone and tokens that UTF-8 takes to bytes and back, the tokens that
  -- are loaded after a save are those that were saved, and after a removal both are empty.
  pub load-save_auth_tokens :
      (access refresh : String) (s : Settings)
      → IsEncodable c access
      → IsEncodable c refresh
      → (load_access_token c (save_auth_tokens c access refresh s) ≡ access)
        × (load_refresh_token c (save_auth_tokens c access refresh s) ≡ refresh)
        × (load_access_token c (clear s) ≡ "")
        × (load_refresh_token c (clear s) ≡ "")
  unfolding load_access_token load_refresh_token save_auth_tokens clear
  load-save_auth_tokens access refresh s a r =
      (decode-encode access a, decode-encode refresh r, decode-nil, decode-nil)
