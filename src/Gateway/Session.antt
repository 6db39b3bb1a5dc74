-- ===== src/Gateway/Session.antt =====
-- After disconnectFromGateway the client stays away.
use voxter.Common.{◌≡◌, refl, ◌∙◌, true, false, List, [], ◌∷◌, none, arith}
use voxter.Gateway.{
  Gateway, close_socket, Event, report, timed_out, socket_connected, socket_disconnected,
  socket_error, handle, run, on_timeout, on_connected, on_disconnected, on_error,
  disconnect_from_gateway,
}

pub record IsSignedOut (g : Gateway) : Type 0 where
  pub by_hand : g.manual_disconnect ≡ true
  pub token : g.access_token ≡ ""
  pub channels : g.desired_channel_ids ≡ []
  pub threads : g.desired_dm_thread_ids ≡ []
  pub idle : g.timer ≡ none
  pub not_waiting : g.open_after_disconnect ≡ false

handle-IsSignedOut :
    (e : Event) (g : Gateway)
    → IsSignedOut g
    → IsSignedOut (handle e g) × ((handle e g).commands ≡ g.commands)
unfolding handle on_timeout on_connected on_disconnected on_error
handle-IsSignedOut (report state) g h = (ground arith, ground arith)
handle-IsSignedOut timed_out g h = (ground arith, ground arith)
handle-IsSignedOut socket_connected g h = (ground arith, ground arith)
handle-IsSignedOut socket_disconnected g h = (ground arith, ground arith)
handle-IsSignedOut socket_error g h = (ground arith, ground arith)

run-IsSignedOut : (es : List Event) (g : Gateway) → IsSignedOut g → (run es g).commands ≡ g.commands
unfolding run
run-IsSignedOut [] g h = refl
run-IsSignedOut (e ∷ es) g h =
    run-IsSignedOut es (handle e g) (handle-IsSignedOut e g h).0 ∙ (handle-IsSignedOut e g h).1

disconnect-IsSignedOut : (g : Gateway) → IsSignedOut (disconnect_from_gateway g)
unfolding disconnect_from_gateway
disconnect-IsSignedOut g = ground arith

-- Signing out closes the socket, and after it the client asks for nothing, neither a connection nor
-- a subscription, whatever its socket and its timer do.
pub disconnect_is_final :
    (es : List Event) (g : Gateway)
    → (run es (disconnect_from_gateway g)).commands ≡ close_socket ∷ g.commands
disconnect_is_final es g =
    run-IsSignedOut es _ (disconnect-IsSignedOut g) ∙ unfold disconnect_from_gateway in refl
