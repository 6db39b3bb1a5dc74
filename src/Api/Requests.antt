-- ===== src/Api/Requests.antt =====
-- ApiClient's requests by their parts, and those of the direct threads and of the voice calls.
use voxter.Common.{String, Bool, true, List, [], ◌∷◌, ◌==◌, ◌<>◌, is_empty, if◌then◌else◌}
use voxter.Variant.{Value, Fields, end, text, boolean, list, insert, Values, nil, cons}

pub data Body : Type 0 where
  no_body : Body
  json : Fields → Body
  multipart : String → String → Body

pub record Request : Type 0 where
  pub method : String
  pub path : String
  pub body : Body
  pub with_auth : Bool
  pub query : List (String × String)

-- sendObjectRequest by the method: GET and DELETE send no payload
unfoldable pub object_request : String → String → Fields → Bool → List (String × String) → Request
object_request method path fields with_auth query = record {
  method = method;
  path = path;
  body = if method == "GET" then no_body else if method == "DELETE" then no_body else json fields;
  with_auth = with_auth;
  query = query;
}

unfoldable pub array_request : String → Request
array_request path = record {
  method = "GET";
  path = path;
  body = no_body;
  with_auth = true;
  query = [];
}

abbrev pub object : List (String × Value) → Fields
object [] = end
object ((k, v) ∷ r) = insert k v (object r)

abbrev pub text_array : List String → Values
text_array [] = nil
text_array (s ∷ r) = cons (text s) (text_array r)

abbrev pub query_item : String → String → List (String × String)
query_item k v = if is_empty v then [] else (k, v) ∷ []

abbrev pub post : String → List (String × Value) → Request
post path fields = object_request "POST" path (object fields) true []

-- the path below a channel, a guild and a direct thread
abbrev pub channel_path : String → String → String
channel_path id rest = "/channels/" <> id <> rest

abbrev pub message_path : String → String → String → String
message_path channel id rest = "/channels/" <> channel <> "/messages/" <> id <> rest

-- The direct threads.

abbrev pub list_dm_threads_request : Request
list_dm_threads_request = array_request "/dm/threads"

abbrev pub create_dm_thread_request : List String → String → Request
create_dm_thread_request participants name =
    post "/dm/threads"
      (("participantIds", list (text_array participants)) ∷ ("name", text name) ∷ [])

abbrev pub list_dm_messages_request : String → String → Request
list_dm_messages_request thread cursor =
    object_request "GET" ("/dm/threads/" <> thread <> "/messages") end true
      (query_item "cursor" cursor)

abbrev pub send_dm_message_request : String → String → Request
send_dm_message_request thread content =
    post ("/dm/threads/" <> thread <> "/messages") (("content", text content) ∷ [])

-- Presence and voice.

abbrev pub update_presence_request : String → Request
update_presence_request status =
    object_request "PATCH" "/presence/me" (object (("status", text status) ∷ [])) true []

abbrev pub join_voice_request : String → String → Bool → Bool → Request
join_voice_request guild channel muted deafened = post "/voice/join" (
    ("guildId", text guild)
    ∷ ("channelId", text channel)
    ∷ ("muted", boolean muted)
    ∷ ("deafened", boolean deafened)
    ∷ [])

abbrev pub issue_voice_sfu_token_request : String → String → Request
issue_voice_sfu_token_request guild channel =
    post "/voice/sfu-token" (("guildId", text guild) ∷ ("channelId", text channel) ∷ [])

abbrev pub leave_voice_request : String → Request
leave_voice_request guild = post "/voice/leave" (("guildId", text guild) ∷ [])

abbrev pub update_voice_state_request : String → Bool → Bool → Request
update_voice_state_request guild muted deafened =
    object_request "PATCH" "/voice/state"
      (object
        (("guildId", text guild) ∷ ("muted", boolean muted) ∷ ("deafened", boolean deafened) ∷ []))
      true []

abbrev pub list_voice_participants_request : String → Request
list_voice_participants_request channel = array_request ("/voice/channel/" <> channel)
