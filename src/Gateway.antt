-- ===== src/Gateway.antt =====
-- client/src/services/GatewayClient: the web socket client as a state machine.
-- `socket` is what QWebSocket::state reports, and `timer` the running reconnect timer with its
-- delay: both belong to Qt and are read here, or set by a start and a stop of the timer. `commands`
-- lists what the client asks of its socket, newest first.
pub mod Backoff
pub mod Session
pub mod Recovery
pub mod Url
pub mod Messages
use Prim.Native.Nat.{min}
use voxter.Common.{
  ℕ, ◌+◌, ◌-◌, ◌*◌, ◌^◌, String, Bool, true, false, not, ◌&&◌, ◌||◌, List, [], ◌∷◌, Option, none,
  some, ite, ◌==◌, is_empty, if◌then◌else◌, string_dec,
}

pub data SocketState : Type 0 where
  unconnected_state connecting_state connected_state closing_state : SocketState

pub data ConnectionState : Type 0 where
  disconnected connecting connected reconnecting : ConnectionState

pub data Command : Type 0 where
  -- m_socket.open at the gateway's URL below a base URL, with an access token
  open_socket : String → String → Command
  close_socket : Command
  -- m_socket.sendTextMessage of an event and its ids
  send_ids : String → List String → Command

pub record Gateway : Type 0 where
  pub socket : SocketState
  pub timer : Option ℕ
  pub api_base_url : String
  pub access_token : String
  pub desired_channel_ids : List String
  pub desired_dm_thread_ids : List String
  pub is_connected : Bool
  pub manual_disconnect : Bool
  pub open_after_disconnect : Bool
  pub connection_state : ConnectionState
  pub reconnect_attempt : ℕ
  pub commands : List Command

unfoldable pub init : Gateway
init = record {
  socket = unconnected_state;
  timer = none;
  api_base_url = "http://localhost:4000";
  access_token = "";
  desired_channel_ids = [];
  desired_dm_thread_ids = [];
  is_connected = false;
  manual_disconnect = false;
  open_after_disconnect = false;
  connection_state = disconnected;
  reconnect_attempt = 0;
  commands = [];
}

abbrev pub is_connected_state : SocketState → Bool
is_connected_state connected_state = true
is_connected_state _ = false

abbrev is_unconnected_state : SocketState → Bool
is_unconnected_state unconnected_state = true
is_unconnected_state _ = false

abbrev is_active : Option ℕ → Bool
is_active none = false
is_active (some _) = true

abbrev command : Command → Gateway → Gateway
command c g = record g { commands = c ∷ g.commands }

abbrev open_gateway : Gateway → Gateway
open_gateway g = command (open_socket g.api_base_url g.access_token) g

unfoldable pub set_connection_state : ConnectionState → Gateway → Gateway
set_connection_state c g = record g { connection_state = c }

unfoldable pub set_reconnect_attempt : ℕ → Gateway → Gateway
set_reconnect_attempt n g = record g { reconnect_attempt = n }

-- the wait before an attempt: 500 * (1 << qMin(6, attempt - 1)), at most 30000
unfoldable pub reconnect_delay : ℕ → ℕ
reconnect_delay attempt = min 30000 (500 * 2 ^ min 6 (attempt - 1))

unfoldable pub schedule_reconnect : Gateway → Gateway
unfolding set_connection_state set_reconnect_attempt
schedule_reconnect g =
    let next_attempt = g.reconnect_attempt + 1 in
    let waiting = set_connection_state reconnecting (set_reconnect_attempt next_attempt g) in
    record waiting { timer = some (reconnect_delay next_attempt) }

unfoldable pub send_event : String → List String → Gateway → Gateway
send_event name ids g = if is_connected_state g.socket then command (send_ids name ids) g else g

abbrev send_if_any : String → List String → Gateway → Gateway
send_if_any name [] g = g
send_if_any name (id ∷ ids) g = send_event name (id ∷ ids) g

unfoldable pub send_subscriptions : Gateway → Gateway
unfolding send_event
send_subscriptions g =
    if is_connected_state g.socket
    then send_if_any "subscribe_dm_threads" g.desired_dm_thread_ids
        (send_if_any "subscribe_channels" g.desired_channel_ids g)
    else g

unfoldable pub subscribe_channels : List String → Gateway → Gateway
unfolding send_event
subscribe_channels ids g =
    send_event "subscribe_channels" ids (record g { desired_channel_ids = ids })

unfoldable pub subscribe_dm_threads : List String → Gateway → Gateway
unfolding send_event
subscribe_dm_threads ids g =
    send_event "subscribe_dm_threads" ids (record g { desired_dm_thread_ids = ids })

unfoldable pub set_api_base_url : String → Gateway → Gateway
set_api_base_url url g = record g { api_base_url = url }

unfoldable pub connect_to_gateway : String → Gateway → Gateway
unfolding set_connection_state set_reconnect_attempt
connect_to_gateway token g =
    let fresh = set_connection_state connecting (
      set_reconnect_attempt 0 (record g {
        access_token = token;
        manual_disconnect = false;
        open_after_disconnect = false;
        timer = none;
      })) in
    if is_empty token || is_connected_state g.socket && g.access_token == token
    then g
    else if is_unconnected_state g.socket
    then open_gateway fresh
    else command close_socket (record fresh { open_after_disconnect = true })

unfoldable pub disconnect_from_gateway : Gateway → Gateway
unfolding set_connection_state set_reconnect_attempt
disconnect_from_gateway g = command close_socket (
    set_connection_state disconnected (
      set_reconnect_attempt 0 (record g {
        manual_disconnect = true;
        open_after_disconnect = false;
        timer = none;
        access_token = "";
        desired_channel_ids = [];
        desired_dm_thread_ids = [];
      })))

-- The slots that the constructor connects.

-- m_reconnectTimer, which is single shot
unfoldable pub on_timeout : Gateway → Gateway
unfolding set_connection_state
on_timeout g =
    let fired = record g { timer = none } in
    if g.manual_disconnect || is_empty g.access_token
    then fired
    else open_gateway (set_connection_state reconnecting fired)

unfoldable pub on_connected : Gateway → Gateway
unfolding set_connection_state set_reconnect_attempt send_subscriptions
on_connected g =
    send_subscriptions
      (record (set_connection_state connected
        (set_reconnect_attempt 0 (record g { timer = none }))) { is_connected = true })

unfoldable pub on_disconnected : Gateway → Gateway
unfolding set_connection_state schedule_reconnect
on_disconnected g =
    let down = record g { is_connected = false } in
    if g.open_after_disconnect && not g.manual_disconnect && not (is_empty g.access_token)
    then open_gateway
        (set_connection_state connecting (record down { open_after_disconnect = false }))
    else if g.manual_disconnect || is_empty g.access_token
    then set_connection_state disconnected down
    else schedule_reconnect down

unfoldable pub on_error : Gateway → Gateway
unfolding schedule_reconnect
on_error g =
    if not g.is_connected
      && not g.manual_disconnect
      && not (is_empty g.access_token)
      && not (is_active g.timer)
    then schedule_reconnect g
    else g

-- Everything that the environment does to the client. `report` is a change of the socket's state.
pub data Event : Type 0 where
  report : SocketState → Event
  timed_out socket_connected socket_disconnected socket_error : Event

unfoldable pub handle : Event → Gateway → Gateway
handle (report state) g = record g { socket = state }
handle timed_out g = if is_active g.timer then on_timeout g else g
handle socket_connected g = on_connected g
handle socket_disconnected g = on_disconnected g
handle socket_error g = on_error g

unfoldable pub run : List Event → Gateway → Gateway
run [] g = g
run (e ∷ es) g = run es (handle e g)
