-- ===== src/Gateway/Url.antt =====
-- GatewayClient::makeGatewayUrl: where the socket goes. QUrl is a parameter, with what its setters do
-- to the parts of a URL.
use voxter.Common.{◌≡◌, ◌∙◌, String, ◌==◌, ◌<>◌, if◌then◌else◌}

pub record UrlParser : Type 1 where
  pub Url : Type 0
  pub parse : String → Url
  pub print : Url → String
  pub scheme : Url → String
  pub path : Url → String
  pub query : Url → String
  pub set_scheme : String → Url → Url
  pub set_path : String → Url → Url
  pub set_query : String → Url → Url
  pub scheme-set_scheme : (s : String) (u : Url) → scheme (set_scheme s u) ≡ s
  pub scheme-set_path : (s : String) (u : Url) → scheme (set_path s u) ≡ scheme u
  pub scheme-set_query : (s : String) (u : Url) → scheme (set_query s u) ≡ scheme u
  pub path-set_path : (s : String) (u : Url) → path (set_path s u) ≡ s
  pub path-set_query : (s : String) (u : Url) → path (set_query s u) ≡ path u
  pub query-set_query : (s : String) (u : Url) → query (set_query s u) ≡ s

module _ (q : UrlParser) where
  open q use {Url, parse, print, scheme, path, query, set_scheme, set_path, set_query}

  -- the URL before it is printed
  unfoldable pub gateway_url : String → String → Url
  gateway_url base token =
      let url = parse base in
      let socket = set_scheme (if scheme url == "https" then "wss" else "ws") url in
      set_query ("token=" <> token) (set_path "/gateway" socket)

  unfoldable pub make_gateway_url : String → String → String
  unfolding gateway_url
  make_gateway_url base token = print (gateway_url base token)

  -- The token goes over an encrypted socket exactly where the server's URL is one of https, and to
  -- the path of the gateway.
  pub gateway_url_lem :
      (base token : String)
      → (scheme (gateway_url base token) ≡ (if scheme (parse base) == "https" then "wss" else "ws"))
        × (path (gateway_url base token) ≡ "/gateway")
        × (query (gateway_url base token) ≡ "token=" <> token)
  unfolding gateway_url
  gateway_url_lem base token = (
    q.scheme-set_query _ _ ∙ q.scheme-set_path _ _ ∙ q.scheme-set_scheme _ _,
    q.path-set_query _ _ ∙ q.path-set_path _ _,
    q.query-set_query _ _,
  )
