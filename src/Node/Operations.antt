-- ===== src/Node/Operations.antt =====
-- The methods of `App` that mutate it as steps, and runs of them in any order.
pub mod Stuck
pub mod Aligned
use aether_link.Base.{ℕ, String, Eq, List, [], ◌∷◌}
use aether_link.Base.Int.{ℤ}
use aether_link.Messages.{ControlPong}
use aether_link.Security.Crypto.{Crypto}
use aether_link.Node.State.{Net, App}
use aether_link.Node.Sessions.{
  note_local_addr, set_active_session, clear_active_session, mark_graceful_closing,
  mark_discovery_dial_attempt, on_connected, on_disconnected, on_accept, on_auth_failed,
}
use aether_link.Node.Keepalive.{
  note_control_pong, note_keepalive_send_failure, collect_keepalive_actions,
}
use aether_link.Node.Schedule.{collect_due_punch_actions}

module _ (C : Crypto) (N : Net) where
  pub data Operation : Type 0 where
    local_addr : N.Multiaddr → Operation
    activated : C.PeerId → String → ℕ → Operation
    cleared : C.PeerId → Operation
    closing : C.PeerId → Operation
    dialed : C.PeerId → ℕ → Operation
    connected : C.PeerId → Operation
    disconnected : C.PeerId → Operation
    accepted : C.PeerId → String → ℕ → Operation
    auth_failed : C.PeerId → Operation
    pong : C.PeerId → ControlPong → ℕ → Operation
    ping_failed : C.PeerId → ℕ → Operation
    keepalive : ℤ → List C.PeerId → Operation
    punches : ℤ → Operation

module _ {C : Crypto} {N : Net} ⦃e : Eq C.PeerId⦄ ⦃a : Eq N.Multiaddr⦄ where
  unfoldable pub run : Operation C N → App C N → App C N
  run (local_addr addr) app = note_local_addr addr app
  run (activated peer session now) app = set_active_session peer session now app
  run (cleared peer) app = clear_active_session peer app
  run (closing peer) app = mark_graceful_closing peer app
  run (dialed peer now) app = mark_discovery_dial_attempt peer now app
  run (connected peer) app = on_connected peer app
  run (disconnected peer) app = on_disconnected peer app
  run (accepted peer session now) app = on_accept peer session now app
  run (auth_failed peer) app = on_auth_failed peer app
  run (pong peer answer now) app = (note_control_pong peer answer now app).1
  run (ping_failed peer seq) app = (note_keepalive_send_failure peer seq app).1
  run (keepalive now peers) app = (collect_keepalive_actions app now peers).1
  run (punches now) app = (collect_due_punch_actions app now).1

  unfoldable pub runs : List (Operation C N) → App C N → App C N
  runs [] app = app
  runs (op ∷ ops) app = runs ops (run op app)
