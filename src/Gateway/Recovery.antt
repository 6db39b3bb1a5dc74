-- ===== src/Gateway/Recovery.antt =====
-- How the client gets a lost connection back.
use voxter.Common.{
  ℕ, zero, suc, ◌+◌, ◌≡◌, ◌≢◌, String, true, false, List, [], ◌∷◌, ◌++◌, none, some, arith,
}
use voxter.Gateway.{
  Gateway, Command, open_socket, close_socket, send_ids, Event, report, timed_out, socket_connected,
  socket_disconnected, socket_error, handle, run, on_timeout, on_connected, on_disconnected,
  on_error, connect_to_gateway, connected_state, closing_state, connected, reconnecting,
  reconnect_delay,
}

-- The client has a token, and is not closing its socket to reopen it.
pub record IsSignedIn (g : Gateway) : Type 0 where
  pub not_by_hand : g.manual_disconnect ≡ false
  pub token : g.access_token ≢ ""
  pub steady : g.open_after_disconnect ≡ false

-- What a client asks its new connection for.
abbrev pub subscriptions : List String → List String → List Command
subscriptions [] [] = []
subscriptions (c ∷ cs) [] = send_ids "subscribe_channels" (c ∷ cs) ∷ []
subscriptions [] (d ∷ ds) = send_ids "subscribe_dm_threads" (d ∷ ds) ∷ []
subscriptions (c ∷ cs) (d ∷ ds) =
    send_ids "subscribe_dm_threads" (d ∷ ds) ∷ send_ids "subscribe_channels" (c ∷ cs) ∷ []

abbrev pub outage : List Event
outage = socket_disconnected ∷ timed_out ∷ report connected_state ∷ socket_connected ∷ []

-- A signed-in client that loses its connection, waits and gets a new one has asked for it once, at
-- its URL and with its token, and then for all of its channels and direct threads again; it counts
-- as connected, with no attempt left over.
pub outage_recovers :
    (g : Gateway)
    → IsSignedIn g
    → let h = run outage g in
      (h.commands
        ≡ subscriptions g.desired_channel_ids g.desired_dm_thread_ids
          ++ open_socket g.api_base_url g.access_token ∷ g.commands)
      × (h.connection_state ≡ connected)
      × (h.is_connected ≡ true)
      × (h.reconnect_attempt ≡ 0)
unfolding run handle on_disconnected on_timeout on_connected
outage_recovers g s = ground arith

-- n attempts that fail one after the other
abbrev pub failures : ℕ → List Event
failures zero = []
failures (suc n) = socket_disconnected ∷ timed_out ∷ failures n

failure-IsSignedIn :
    (g : Gateway)
    → IsSignedIn g
    → IsSignedIn (handle timed_out (handle socket_disconnected g))
      × ((handle timed_out (handle socket_disconnected g)).reconnect_attempt
          ≡ g.reconnect_attempt + 1)
unfolding handle on_disconnected on_timeout
failure-IsSignedIn g s = (ground arith, ground arith)

failures-IsSignedIn :
    (n : ℕ) (g : Gateway)
    → IsSignedIn g
    → IsSignedIn (run (failures n) g)
      × ((run (failures n) g).reconnect_attempt ≡ g.reconnect_attempt + n)
unfolding run
failures-IsSignedIn zero g s = (s, omega arith)
failures-IsSignedIn (suc n) g s =
    let (kept, count) = failure-IsSignedIn g s in
    let (still, total) = failures-IsSignedIn n _ kept in (still, omega (arith, count, total))

-- After n failed attempts the next loss of the connection starts the timer with the wait of the
-- attempt that follows them and those before.
pub failures_back_off :
    (n : ℕ) (g : Gateway)
    → IsSignedIn g
    → ((handle socket_disconnected (run (failures n) g)).timer
        ≡ some (reconnect_delay (g.reconnect_attempt + n + 1)))
      × ((handle socket_disconnected (run (failures n) g)).connection_state ≡ reconnecting)
unfolding handle on_disconnected
failures_back_off n g s =
    let (still, total) = failures-IsSignedIn n g s in ground (arith, still, total)

-- An error of a client that is signed in, not connected and not waiting, with the disconnection
-- after it, counts as two attempts, and the wait is that of the second.
pub error_counts_twice :
    (g : Gateway)
    → IsSignedIn g
    → g.is_connected ≡ false
    → g.timer ≡ none
    → let h = run (socket_error ∷ socket_disconnected ∷ []) g in
      (h.reconnect_attempt ≡ g.reconnect_attempt + 2)
      × (h.timer ≡ some (reconnect_delay (g.reconnect_attempt + 2)))
unfolding run handle on_error on_disconnected
error_counts_twice g s c t = ground arith

-- Connecting with another token while connected closes the socket, and its disconnection opens a
-- new one with that token.
pub token_change_reconnects :
    (token : String) (g : Gateway)
    → token ≢ ""
    → g.access_token ≢ token
    → g.socket ≡ connected_state
    → (run (report closing_state ∷ socket_disconnected ∷ []) (connect_to_gateway token g)).commands
      ≡ open_socket g.api_base_url token ∷ close_socket ∷ g.commands
unfolding run handle on_disconnected connect_to_gateway
token_change_reconnects token g h k c = ground arith
