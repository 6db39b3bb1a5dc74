-- ===== src/Api.antt =====
-- client/src/services/ApiClient: the calls of the view models, and the HTTP request of each.
mod Requests
unfoldable pub use Requests.*
pub mod Retry
pub mod Errors
pub mod Tokens
use voxter.Common.{
  String, Bool, true, false, not, ◌&&◌, List, [], ◌∷◌, ◌++◌, ◌==◌, ◌<>◌, is_empty, if◌then◌else◌,
  string_dec,
}
use voxter.Variant.{Value, Fields, end, text, boolean, list, insert, Values, nil, cons}

-- One constructor for each method of ApiClient that sends a request.
pub data ApiCall : Type 0 where
  register_user : String → String → String → ApiCall
  login : String → String → ApiCall
  refresh : String → ApiCall
  me list_guilds list_dm_threads : ApiCall
  update_profile : String → ApiCall
  list_guild_presence : String → ApiCall
  create_guild : String → ApiCall
  list_channels : String → ApiCall
  create_channel : String → String → String → ApiCall
  create_invite : String → ApiCall
  join_invite : String → ApiCall
  list_messages : String → String → String → ApiCall
  send_message : String → String → ApiCall
  edit_message : String → String → String → ApiCall
  delete_message : String → String → ApiCall
  toggle_reaction : String → String → String → ApiCall
  send_typing : String → ApiCall
  upload_attachment : String → String → String → ApiCall
  create_dm_thread : List String → String → ApiCall
  list_dm_messages : String → String → ApiCall
  send_dm_message : String → String → ApiCall
  update_presence : String → ApiCall
  join_voice : String → String → Bool → Bool → ApiCall
  issue_voice_sfu_token : String → String → ApiCall
  leave_voice : String → ApiCall
  update_voice_state : String → Bool → Bool → ApiCall
  list_voice_participants : String → ApiCall

-- How a callback is called: with the parsed response, or with the message of the error.
pub data Answer {ℓ} (A : Type ℓ) : Type ℓ where
  ok : A → Answer A
  failed : String → Answer A

pub record ApiClient : Type 0 where
  pub base_url : String
  pub access_token : String
  pub refresh_token : String

unfoldable pub request_of : ApiCall → Request
request_of (register_user email password display_name) =
    object_request "POST" "/auth/register"
      (object (
        ("email", text email)
        ∷ ("password", text password)
        ∷ ("displayName", text display_name)
        ∷ []))
      false []
request_of (login email password) =
    object_request "POST" "/auth/login"
      (object (("email", text email) ∷ ("password", text password) ∷ [])) false []
request_of (refresh token) =
    object_request "POST" "/auth/refresh" (object (("refreshToken", text token) ∷ [])) false []
request_of me = object_request "GET" "/auth/me" end true []
request_of (update_profile name) =
    object_request "PATCH" "/users/me"
      (if is_empty name then end else object (("displayName", text name) ∷ [])) true []
request_of list_guilds = array_request "/guilds/me"
request_of (list_guild_presence guild) = array_request ("/presence/guild/" <> guild)
request_of (create_guild name) = post "/guilds" (("name", text name) ∷ [])
request_of (list_channels guild) = array_request ("/guilds/" <> guild <> "/channels")
request_of (create_channel guild name type) =
    post ("/guilds/" <> guild <> "/channels") (("name", text name) ∷ ("type", text type) ∷ [])
request_of (create_invite guild) = post ("/guilds/" <> guild <> "/invites") []
request_of (join_invite invite) = post ("/guilds/join/" <> invite) []
request_of (list_messages channel cursor search_text) =
    object_request "GET" (channel_path channel "/messages") end true
      (query_item "cursor" cursor ++ query_item "search" search_text)
request_of (send_message channel content) =
    post (channel_path channel "/messages") (("content", text content) ∷ [])
request_of (edit_message channel id content) =
    object_request "PATCH" (message_path channel id "") (object (("content", text content) ∷ []))
      true []
request_of (delete_message channel id) =
    object_request "DELETE" (message_path channel id "") end true []
request_of (toggle_reaction channel id emoji) =
    object_request "PUT" (message_path channel id ("/reactions/" <> emoji)) end true []
request_of (send_typing channel) = post (channel_path channel "/typing") []
request_of (upload_attachment channel file content) = record {
  method = "POST";
  path = channel_path channel "/attachments";
  body = multipart file content;
  with_auth = true;
  query = [];
}
request_of list_dm_threads = list_dm_threads_request
request_of (create_dm_thread participants name) = create_dm_thread_request participants name
request_of (list_dm_messages thread cursor) = list_dm_messages_request thread cursor
request_of (send_dm_message thread content) = send_dm_message_request thread content
request_of (update_presence status) = update_presence_request status
request_of (join_voice guild channel muted deafened) =
    join_voice_request guild channel muted deafened
request_of (issue_voice_sfu_token guild channel) = issue_voice_sfu_token_request guild channel
request_of (leave_voice guild) = leave_voice_request guild
request_of (update_voice_state guild muted deafened) =
    update_voice_state_request guild muted deafened
request_of (list_voice_participants channel) = list_voice_participants_request channel

abbrev Headers : Type 0
Headers = List (String × String)

authorization : ApiClient → Headers
authorization api =
    if is_empty api.access_token then [] else ("Authorization", "Bearer " <> api.access_token) ∷ []

-- the URL without its query, and the headers of a JSON request
unfoldable pub build_request : ApiClient → Request → String × List (String × String)
unfolding authorization
build_request api r = (
  api.base_url <> r.path,
  ("Content-Type", "application/json")
      ∷ ("Accept", "application/json")
      ∷ (if r.with_auth then authorization api else []),
)

-- the same for an upload, whose content type is that of its parts
unfoldable pub build_upload : ApiClient → Request → String × List (String × String)
unfolding authorization
build_upload api r = (api.base_url <> r.path, ("Accept", "application/json") ∷ authorization api)

unfoldable pub http_of : ApiClient → ApiCall → String × List (String × String)
unfolding build_request build_upload request_of
http_of api (upload_attachment channel file content) =
    build_upload api (request_of (upload_attachment channel file content))
http_of api c = build_request api (request_of c)

unfoldable pub set_base_url : String → ApiClient → ApiClient
set_base_url url api = record api { base_url = url }

unfoldable pub set_access_token : String → ApiClient → ApiClient
set_access_token token api = record api { access_token = token }

unfoldable pub set_refresh_token : String → ApiClient → ApiClient
set_refresh_token token api = record api { refresh_token = token }

unfoldable pub clear_tokens : ApiClient → ApiClient
clear_tokens api = record api { access_token = ""; refresh_token = "" }
