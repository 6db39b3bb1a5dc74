-- ===== src/Auth/Logout.antt =====
-- What signing in keeps for the next start of the program, and what signing out takes away.
use voxter.Common.{◌≡◌, ◌≢◌, refl, List, [], ◌∷◌, arith}
use voxter.Variant.{Fields, value, json_string}
use voxter.Api.{ApiCall, ok, clear_tokens}
use voxter.Store.{init, clear_session}
use voxter.Gateway.{Event, close_socket, disconnect_from_gateway, run}
use voxter.Gateway.Session.{disconnect_is_final}
use voxter.Storage.{Codec, load_access_token, load_refresh_token}
use voxter.Storage.RoundTrip.{
  CodecLaws, IsEncodable, load-save_auth_tokens, load_access_token-clear, load_refresh_token-clear,
}
use voxter.Auth.{
  Auth, restoring, on_signed_in, apply_auth_response, logout, bootstrap_session, set_error,
}

module _ (codec : Codec) (laws : CodecLaws codec) where
  -- With a Base64 that can be undone, a client that has signed out starts again without asking the
  -- server for a session and has no tokens, also not on disk. Its store, but for the change signals,
  -- is that of a client that has just been started, so it knows no user, guild, channel or message;
  -- and its gateway has no token and nothing to subscribe to, and, whatever its socket and timer do,
  -- has asked for nothing but the end of its connection.
  pub logout_forgets :
      (es : List Event) (a : Auth)
      → (bootstrap_session codec (logout a) ≡ logout a)
        × (load_access_token codec (logout a).settings ≡ "")
        × (load_refresh_token codec (logout a).settings ≡ "")
        × ((logout a).api.access_token ≡ "")
        × ((logout a).api.refresh_token ≡ "")
        × (record (logout a).store { emitted = [] } ≡ init)
        × ((logout a).gateway.access_token ≡ "")
        × ((logout a).gateway.desired_channel_ids ≡ [])
        × ((logout a).gateway.desired_dm_thread_ids ≡ [])
        × ((run es (logout a).gateway).commands ≡ close_socket ∷ a.gateway.commands)
  unfolding bootstrap_session logout set_error clear_tokens clear_session init
      disconnect_from_gateway
  logout_forgets es a = (
    ground (arith, load_refresh_token-clear codec laws a.settings),
    load_access_token-clear codec laws a.settings,
    load_refresh_token-clear codec laws a.settings,
    refl,
    refl,
    refl,
    refl,
    refl,
    refl,
    disconnect_is_final es a.gateway,
  )

  -- With a Base64 that can be undone, and tokens that UTF-8 takes to bytes and back and of which
  -- the refresh token is not empty, a start of the program after a sign-in asks the server for a
  -- session with the refresh token of the sign-in.
  pub sign_in_restored :
      (response : Fields) (a next : Auth)
      → IsEncodable codec (json_string (value response "accessToken"))
      → IsEncodable codec (json_string (value response "refreshToken"))
      → json_string (value response "refreshToken") ≢ ""
      → let signed_in = on_signed_in codec (ok response) a in
        (bootstrap_session codec (record next { settings = signed_in.settings })).pending
        ≡ (ApiCall.refresh (json_string (value response "refreshToken")), restoring) ∷ next.pending
  unfolding bootstrap_session on_signed_in apply_auth_response set_error
  sign_in_restored response a next h k n =
      let loaded =
        load-save_auth_tokens codec laws (json_string (value response "accessToken"))
          (json_string (value response "refreshToken")) a.settings h k in
      ground (arith, loaded.1)
