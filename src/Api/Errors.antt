-- ===== src/Api/Errors.antt =====
-- ApiClient::parseError and the tests for a rate limit. JSON and Unicode case are Qt's: the sections
-- take the parser and QString::toLower.
use text.Mathlib.Text.{find?}
use voxter.Common.{
  String, Bool, true, false, ◌||◌, none, some, ◌==◌, if◌then◌else◌, string_dec, ◌≡◌, refl, ◌⊎◌,
  arith,
}
use voxter.Variant.{Value, Values, map, list, nil, cons, value, has_key, json_string}

-- QString::contains
contains_text : String → String → Bool
contains_text s part = elim (find? s part) [ none ↦ false | some _ ↦ true ]

abbrev rate_limit_message : String
rate_limit_message = "Too many requests. Please wait 1-2 seconds and try again."

pub names_rate_limit : String → Bool
unfolding contains_text
names_rate_limit lowered =
    contains_text lowered "too many requests"
    || contains_text lowered "throttlerexception"
    || contains_text lowered "status code 429"
    || lowered == "429"

-- toArray().first().toString()
first_string : Values → String
first_string nil = ""
first_string (cons v _) = json_string v

-- what the field `message` of an error says, if it has one
message_of : Value → String
unfolding first_string
message_of (list vs) = first_string vs
message_of v = json_string v

-- the text of an error: its field `message`, or the payload itself
unfoldable pub error_text : String → Value → String
unfolding message_of
error_text payload (map f) = if has_key f "message" then message_of (value f "message") else payload
error_text payload _ = payload

pub lowered_names :
    names_rate_limit "too many requests. please wait 1-2 seconds and try again." ≡ true
unfolding names_rate_limit contains_text string_dec
lowered_names = refl

module _ (to_lower : String → String) where
  -- isTooManyRequestsError of VoiceViewModel
  unfoldable pub is_too_many_requests_error : String → Bool
  is_too_many_requests_error error = names_rate_limit (to_lower error)

  unfoldable pub normalize_error : String → String
  normalize_error message =
      if names_rate_limit (to_lower message) then rate_limit_message else message

  module _ (from_json : String → Value) where
    unfoldable pub parse_error : String → String
    parse_error payload = normalize_error (error_text payload (from_json payload))

    -- If toLower lowers the client's own sentence for a rate limit, the voice view model takes the
    -- parsed error of a payload for a rate limit exactly if the text in the payload names one, and
    -- any other text reaches it unchanged.
    pub parse_error_rate_limit :
        (payload : String)
        → to_lower rate_limit_message ≡ "too many requests. please wait 1-2 seconds and try again."
        → (is_too_many_requests_error (parse_error payload)
            ≡ is_too_many_requests_error (error_text payload (from_json payload)))
          × ((is_too_many_requests_error (error_text payload (from_json payload)) ≡ true)
              ⊎ (parse_error payload ≡ error_text payload (from_json payload)))
    unfolding parse_error normalize_error is_too_many_requests_error
    parse_error_rate_limit payload h = ground (arith, h, lowered_names)
