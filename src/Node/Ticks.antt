-- ===== src/Node/Ticks.antt =====
-- What the node does at a tick for its sessions: `handle_pending_session_timeouts`,
-- `handle_control_keepalive_tick` and `handle_session_lifecycle_tick` of apps/aetherlink-node/src/main.rs.
pub mod Attempts
pub mod Ends
pub mod Moves
use aether_link.Base.{ℕ, String, Eq, List, [], ◌∷◌, if◌then◌else◌}
use aether_link.Base.Dict
use aether_link.Base.Int.{as_i64}
use aether_link.Security.Crypto.{Crypto}
use aether_link.Node.State.{Net, App, PendingPunchAction}
use aether_link.Node.Sessions.{
  clear_active_session, on_auth_failed, on_connected, should_send_session_request,
}
use aether_link.Node.Keepalive.{collect_keepalive_actions}
use aether_link.Node.Schedule.{
  collect_pending_retry_actions, collect_due_punch_actions, collect_auto_close_actions,
}
use aether_link.Node.World.{World}
use aether_link.Node.Control.{Node, send_session_request, send_control_ping, send_session_close}

module _ {C : Crypto} {N : Net} ⦃e : Eq C.PeerId⦄ where
  give_up_all : List C.PeerId → App C N → App C N
  give_up_all [] app = app
  give_up_all (peer ∷ peers) app = give_up_all peers (
      on_auth_failed peer
        (record app { pending_outbound_sessions = Dict.erase peer app.pending_outbound_sessions }))

module _ {C : Crypto} {N : Net} (W : World C N) ⦃e : Eq C.PeerId⦄ ⦃r : Eq N.OutboundRequestId⦄ where
  -- An error is only logged.
  retry_all : List C.PeerId → Node W → Node W
  retry_all [] node = node
  retry_all (peer ∷ peers) node = retry_all peers (send_session_request W peer node).1

  unfoldable pub handle_pending_session_timeouts : Node W → Node W
  unfolding retry_all give_up_all
  handle_pending_session_timeouts (app, w) =
      let (clock, w') = W.unix_ms w in
      let (retry, fail) = collect_pending_retry_actions app (as_i64 clock) in
      let (app', w'') = retry_all retry (app, w') in (give_up_all fail app', w'')

  ping_all : List (C.PeerId × String × ℕ) → Node W → Node W
  ping_all [] node = node
  ping_all ((peer, session, seq) ∷ actions) node =
      ping_all actions (send_control_ping W peer session seq node)

  drop_all : List C.PeerId → Node W → Node W
  drop_all [] node = node
  drop_all (peer ∷ peers) (app, w) =
      drop_all peers (clear_active_session peer app, W.disconnect peer w)

  unfoldable pub handle_control_keepalive_tick : Node W → Node W
  unfolding ping_all drop_all
  handle_control_keepalive_tick (app, w) =
      let (clock, w') = W.unix_ms w in
      let ((pings, lost), app') =
        collect_keepalive_actions app (as_i64 clock) (W.connected_peers w') in
      drop_all lost (ping_all pings (app', w'))

  close_all : List (C.PeerId × String) → Node W → Node W
  close_all [] node = node
  close_all ((peer, session) ∷ actions) node =
      close_all actions (send_session_close W peer session "auto-close budget reached" node)

  punch_all : List (PendingPunchAction C.PeerId) → W.State → W.State
  punch_all [] w = w
  punch_all (action ∷ actions) w =
      punch_all actions (if W.is_connected w action.peer_id then w else W.dial action.peer_id w)

  punch_due : Node W → List (PendingPunchAction C.PeerId) × App C N → Node W
  punch_due (old, w) (due, app) = (app, punch_all due w)

  unfoldable pub handle_session_lifecycle_tick : Node W → Node W
  unfolding close_all punch_due punch_all
  handle_session_lifecycle_tick (app, w) =
      let (clock, w') = W.unix_ms w in
      let node = close_all (collect_auto_close_actions app (as_i64 clock)) (app, w') in
      punch_due node (collect_due_punch_actions node.0 (as_i64 clock))

  -- `SwarmEvent::ConnectionEstablished`
  unfoldable pub connection_established : C.PeerId → Node W → Node W
  connection_established peer (app, w) =
      let app' = on_connected peer app in
      if should_send_session_request app' peer
      then (send_session_request W peer (app', w)).1
      else (app', w)
