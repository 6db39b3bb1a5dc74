-- ===== src/Auth.antt =====
-- client/src/viewmodels/AuthViewModel: signing in, restoring a session and signing out. `codec` is
-- what the token storage is given.
pub mod Logout
use voxter.Common.{
  String, Bool, true, false, List, [], ◌∷◌, is_empty, if◌then◌else◌, string_dec, ◌==◌,
}
use voxter.Variant.{Value, Fields, text, value, insert, json_string, to_map}
use voxter.Api.{
  ApiCall, ApiClient, Answer, ok, failed, set_access_token, set_refresh_token, clear_tokens,
}
use voxter.Store.{AppStore, set_current_user, set_authenticated, clear_session}
use voxter.Gateway.{Gateway, connect_to_gateway, disconnect_from_gateway}
use voxter.Storage.{Settings, Codec, save_auth_tokens, load_refresh_token, clear}

pub data Handler : Type 0 where
  restoring signing_in presence : Handler

pub record Auth : Type 0 where
  pub api : ApiClient
  pub settings : Settings
  pub gateway : Gateway
  pub store : AppStore
  pub busy : Bool
  pub error : String
  pub pending : List (ApiCall × Handler)

abbrev send : ApiCall → Handler → Auth → Auth
send call handler a = record a { pending = (call, handler) ∷ a.pending }

unfoldable pub set_error : String → Auth → Auth
set_error e a = record a { error = e }

unfoldable pub login : String → String → Auth → Auth
login email password a = send (ApiCall.login email password) signing_in (record a { busy = true })

unfoldable pub register_user : String → String → String → Auth → Auth
register_user email password name a =
    send (ApiCall.register_user email password name) signing_in (record a { busy = true })

unfoldable pub logout : Auth → Auth
logout a = set_error "" (record a {
  api = clear_tokens a.api;
  settings = clear a.settings;
  gateway = disconnect_from_gateway a.gateway;
  store = clear_session a.store;
})

unfoldable pub on_presence : Answer Fields → Auth → Auth
on_presence (failed e) a = a
on_presence (ok response) a = record a {
  store =
      set_current_user
        (insert "presence" (text (json_string (value response "presence"))) a.store.current_user)
        a.store;
}

module _ (codec : Codec) where
  unfoldable pub bootstrap_session : Auth → Auth
  bootstrap_session a =
      let refresh_token = load_refresh_token codec a.settings in
      if is_empty refresh_token
      then a
      else send (ApiCall.refresh refresh_token) restoring (record a { busy = true })

  -- sessionReady, which makes the guilds load, is emitted at the end
  unfoldable pub apply_auth_response : Fields → Auth → Auth
  apply_auth_response response a =
      let access_token = json_string (value response "accessToken") in
      let refresh_token = json_string (value response "refreshToken") in
      let user = insert "presence" (text "ONLINE") (to_map (value response "user")) in
      send (ApiCall.update_presence "ONLINE") presence (record a {
        api = set_refresh_token refresh_token (set_access_token access_token a.api);
        settings = save_auth_tokens codec access_token refresh_token a.settings;
        store = set_authenticated true (set_current_user user a.store);
        gateway = connect_to_gateway access_token a.gateway;
      })

  unfoldable pub on_restored : Answer Fields → Auth → Auth
  on_restored (failed e) a =
      set_error e
        (record a { busy = false; settings = clear a.settings; store = clear_session a.store })
  on_restored (ok response) a =
      set_error "" (apply_auth_response response (record a { busy = false }))

  unfoldable pub on_signed_in : Answer Fields → Auth → Auth
  on_signed_in (failed e) a = set_error e (record a { busy = false })
  on_signed_in (ok response) a =
      set_error "" (apply_auth_response response (record a { busy = false }))
