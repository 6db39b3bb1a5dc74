-- ===== src/Api/Tokens.antt =====
-- Which requests carry the access token.
use voxter.Common.{
  ◌≡◌, String, Bool, true, false, List, [], ◌∷◌, arith, ◌==◌, ◌<>◌, is_empty, if◌then◌else◌,
  string_dec, ◌||◌,
}
use voxter.Api.{
  ApiCall, ApiClient, register_user, login, refresh, object_request, array_request, http_of,
  upload_attachment,
}

-- The calls that are made before there is a session.
abbrev pub is_public : ApiCall → Bool
is_public (register_user _ _ _) = true
is_public (login _ _) = true
is_public (refresh _) = true
is_public _ = false

-- The values of the Authorization headers among the headers of a request.
abbrev pub credentials : List (String × String) → List String
credentials [] = []
credentials ((k, v) ∷ r) = if k == "Authorization" then v ∷ credentials r else credentials r

-- A request carries the access token exactly if the call is none of registration, login and
-- refresh and the client holds a token, and it carries it once.
pub credentials-http_of :
    (api : ApiClient) (c : ApiCall)
    → credentials (http_of api c).1 ≡ (
        if is_public c || is_empty api.access_token
        then []
        else ("Bearer " <> api.access_token) ∷ [])
unfolding http_of object_request array_request string_dec
credentials-http_of api (upload_attachment _ _ _) = ground arith
credentials-http_of api _ = ground arith
