-- ===== src/Storage.antt =====
-- client/src/services/SecureStorage: the tokens at rest. Base64, UTF-8 and the settings' disk are
-- Qt's: the section takes the two encodings and the key, `key` being the hash of the machine's id.
-- Bytes are numbers.
pub mod RoundTrip
use Prim.Native.Nat.{bit_xor}
use voxter.Common.{ℕ, zero, suc, ◌+◌, ◌%◌, String, List, [], ◌∷◌, Option, none, some, length}

-- QByteArray::at inside its bounds
abbrev at : List ℕ → ℕ → ℕ
at [] i = 0
at (b ∷ bs) zero = b
at (b ∷ bs) (suc i) = at bs i

-- the loop of obfuscate from index i on
obfuscate_from : List ℕ → ℕ → List ℕ → List ℕ
obfuscate_from secret i [] = []
obfuscate_from secret i (b ∷ bs) =
    bit_xor b (at secret (i % length secret)) ∷ obfuscate_from secret (i + 1) bs

unfoldable pub obfuscate : List ℕ → List ℕ → List ℕ
unfolding obfuscate_from
obfuscate secret input = obfuscate_from secret 0 input

unfoldable pub deobfuscate : List ℕ → List ℕ → List ℕ
unfolding obfuscate
deobfuscate secret input = obfuscate secret input

-- What QSettings holds under auth/accessToken and auth/refreshToken.
pub record Settings : Type 0 where
  pub access_token_entry : List ℕ
  pub refresh_token_entry : List ℕ

-- The encodings, and the key.
pub record Codec : Type 0 where
  pub to_base64 : List ℕ → List ℕ
  pub from_base64 : List ℕ → List ℕ
  pub to_utf8 : String → List ℕ
  pub from_utf8 : List ℕ → String
  pub key : List ℕ

module _ (c : Codec) where
  unfoldable pub encode_token : String → List ℕ
  encode_token token = c.to_base64 (obfuscate c.key (c.to_utf8 token))

  unfoldable pub decode_token : List ℕ → String
  decode_token entry = c.from_utf8 (deobfuscate c.key (c.from_base64 entry))

  unfoldable pub save_auth_tokens : String → String → Settings → Settings
  save_auth_tokens access refresh s = record s {
    access_token_entry = encode_token access;
    refresh_token_entry = encode_token refresh;
  }

  unfoldable pub load_access_token : Settings → String
  load_access_token s = decode_token s.access_token_entry

  unfoldable pub load_refresh_token : Settings → String
  load_refresh_token s = decode_token s.refresh_token_entry

-- remove: an entry that is missing reads as no bytes
unfoldable pub clear : Settings → Settings
clear s = record { access_token_entry = []; refresh_token_entry = [] }
