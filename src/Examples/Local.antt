-- ===== src/Examples/Local.antt =====
-- The line filter, the token storage and the session at concrete inputs.
use Prim.Native.Char.{code}
use voxter.Common.{
  ℕ, ◌≡◌, refl, String, false, List, [], ◌∷◌, arith, eqb, if◌then◌else◌, string_dec, differ,
}
use voxter.Variant.{Fields, text, field, end, value, value_or, json_string}
use voxter.Api.{ApiCall, ok}
use voxter.Store
use voxter.Gateway
use voxter.Gateway.{timed_out, close_socket, run}
use voxter.Auth.{Auth, restoring, logout, bootstrap_session, on_signed_in}
use voxter.Auth.Logout.{logout_forgets, sign_in_restored}
use voxter.Storage.{Codec, Settings, load_access_token, save_auth_tokens}
use voxter.Storage.RoundTrip.{CodecLaws, IsEncodable, load-save_auth_tokens}

-- Letters a and b as their codes, Base64 as nothing, and a key of two bytes.
abbrev pub to_letters : List ℕ → String
to_letters [] = ""
to_letters (b ∷ bs) = String.◌∷◌ (if eqb b 97 then "a" else "b") (to_letters bs)

abbrev pub to_codes : String → List ℕ
to_codes String.[] = []
to_codes (String.◌∷◌ c s) = code c ∷ to_codes s

abbrev pub letters : Codec
letters = record {
  to_base64 = λ bs. bs;
  from_base64 = λ bs. bs;
  to_utf8 = to_codes;
  from_utf8 = to_letters;
  key = 7 ∷ 200 ∷ [];
}

letters-CodecLaws : CodecLaws letters
letters-CodecLaws = record {
  from_base64-to_base64 = λ bs. refl;
  key_bytes = (omega arith, (omega arith, tt));
  from_base64-nil = refl;
  from_utf8-nil = refl;
}

abbrev pub settings : Settings
settings = record { access_token_entry = []; refresh_token_entry = [] }

abba-IsEncodable : IsEncodable letters "abba"
abba-IsEncodable = record {
  back = refl;
  bytes = (omega arith, (omega arith, (omega arith, (omega arith, tt))));
}

baa-IsEncodable : IsEncodable letters "baa"
baa-IsEncodable = record { back = refl; bytes = (omega arith, (omega arith, (omega arith, tt))) }

load-save_auth_tokens_example :
    load_access_token letters (save_auth_tokens letters "abba" "baa" settings) ≡ "abba"
load-save_auth_tokens_example =
    (load-save_auth_tokens letters letters-CodecLaws "abba" "baa" settings abba-IsEncodable
      baa-IsEncodable).0

abbrev pub fresh : Auth
fresh = record {
  api = record { base_url = ""; access_token = ""; refresh_token = "" };
  settings = settings;
  gateway = Gateway.init;
  store = Store.init;
  busy = false;
  error = "";
  pending = [];
}

abbrev response : Fields
response = field "accessToken" (text "abba") (field "refreshToken" (text "baa") end)

-- The same with a user who is signed in and sees a guild.
abbrev signed_in : Auth
signed_in =
    let a = on_signed_in letters (ok response) fresh in
    record a { store = record a.store { guilds = text "g" ∷ []; current_guild_id = "g" } }

logout_forgets_example :
    (record (logout signed_in).store { emitted = [] } ≡ Store.init)
    × ((run (timed_out ∷ []) (logout signed_in).gateway).commands
        ≡ close_socket ∷ signed_in.gateway.commands)
logout_forgets_example =
    let forgotten = logout_forgets letters letters-CodecLaws (timed_out ∷ []) signed_in in
    (forgotten.5, forgotten.9)

sign_in_restored_example :
    (bootstrap_session letters
      (record fresh { settings = (on_signed_in letters (ok response) fresh).settings })).pending
    ≡ (ApiCall.refresh "baa", restoring) ∷ []
unfolding value value_or json_string string_dec
sign_in_restored_example =
    sign_in_restored letters letters-CodecLaws response fresh fresh abba-IsEncodable baa-IsEncodable
      (differ "baa" "" refl)
