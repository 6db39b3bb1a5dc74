-- ===== src/Examples/Network.antt =====
-- The API client and the gateway client at concrete inputs.
use voxter.Common.{ℕ, zero, suc, differ, ◌≡◌, refl, String, true, false, [], ◌∷◌, string_dec, ◌<>◌}
use voxter.Variant.{Value, text, field, end, map}
use voxter.Api.{ApiClient, me, http_of}
use voxter.Api.Tokens.{credentials, credentials-http_of}
use voxter.Api.Retry.{
  Reply, Ends, no_error, timeout, send_request, send_request-Ends, transient, should_retry_request,
  has_failed,
}
use voxter.Api.Errors.{is_too_many_requests_error, parse_error, error_text, parse_error_rate_limit}
use voxter.Gateway.{
  Gateway, init, open_socket, close_socket, send_ids, connected_state, connected, reconnecting,
  report, timed_out, closing_state, socket_connected, socket_error, socket_disconnected, run,
  connect_to_gateway, disconnect_from_gateway,
}
use voxter.Gateway.Session.{disconnect_is_final}
use voxter.Gateway.Recovery.{
  IsSignedIn, outage, outage_recovers, error_counts_twice, token_change_reconnects,
}

abbrev api : ApiClient
api = record { base_url = "http://host"; access_token = "key"; refresh_token = "again" }

credentials-http_of_example : credentials (http_of api me).1 ≡ ("Bearer " <> "key") ∷ []
unfolding string_dec
credentials-http_of_example = credentials-http_of api me

-- The first attempt times out, and the second is answered.
abbrev replies : ℕ → Reply
replies zero = record { network_error = timeout; http_status = 0; payload = "" }
replies (suc _) = record { network_error = no_error; http_status = 200; payload = "{}" }

send_request-Ends_example : Ends replies 1 (send_request 3 replies 0)
unfolding has_failed should_retry_request transient
send_request-Ends_example = send_request-Ends 0 replies

-- A parser that finds a message, and letters that lower to the client's own sentence.
abbrev parser : String → Value
parser _ = map (field "message" (text "ThrottlerException") end)

abbrev lower : String → String
lower _ = "too many requests. please wait 1-2 seconds and try again."

parse_error_rate_limit_example :
    is_too_many_requests_error lower (parse_error lower parser "{}")
    ≡ is_too_many_requests_error lower (error_text "{}" (parser "{}"))
parse_error_rate_limit_example = (parse_error_rate_limit lower parser "{}" refl).0

-- A client in the middle of a session.
abbrev session : Gateway
session = record init {
  socket = connected_state;
  access_token = "key";
  desired_channel_ids = "c" ∷ [];
  is_connected = true;
  connection_state = connected;
}

session-IsSignedIn : IsSignedIn session
unfolding init string_dec
session-IsSignedIn = record { not_by_hand = refl; token = differ "key" "" refl; steady = refl }

disconnect_is_final_example :
    (run
      (socket_disconnected ∷ timed_out ∷ socket_connected ∷ [])
      (disconnect_from_gateway session)).commands
    ≡ close_socket ∷ session.commands
disconnect_is_final_example =
    disconnect_is_final (socket_disconnected ∷ timed_out ∷ socket_connected ∷ []) session

outage_recovers_example :
    (run outage session).commands
    ≡ send_ids "subscribe_channels" ("c" ∷ []) ∷ open_socket "http://localhost:4000" "key" ∷ []
unfolding init
outage_recovers_example = (outage_recovers session session-IsSignedIn).0

-- A client that looks for its connection.
abbrev searching : Gateway
searching = record session { is_connected = false; connection_state = reconnecting }

searching-IsSignedIn : IsSignedIn searching
unfolding init string_dec
searching-IsSignedIn = record { not_by_hand = refl; token = differ "key" "" refl; steady = refl }

error_counts_twice_example :
    (run (socket_error ∷ socket_disconnected ∷ []) searching).reconnect_attempt ≡ 2
unfolding init
error_counts_twice_example = (error_counts_twice searching searching-IsSignedIn refl refl).0

token_change_reconnects_example :
    (run
      (report closing_state ∷ socket_disconnected ∷ [])
      (connect_to_gateway "other" session)).commands
    ≡ open_socket "http://localhost:4000" "other" ∷ close_socket ∷ []
unfolding init string_dec
token_change_reconnects_example =
    token_change_reconnects "other" session (differ "other" "" refl) (differ "key" "other" refl)
      refl
