-- ===== src/Node/Ticks/Moves.antt =====
-- The moves of the ticks and of a new connection.
use aether_link.Base.{ℕ, refl, sym, subst, if_cases, Bool, String, Eq, List, [], ◌∷◌}
use aether_link.Base.Int.{as_i64}
use aether_link.Security.Crypto.{Crypto}
use aether_link.Connection.{Trigger}
use aether_link.Node.State.{Net, App}
use aether_link.Node.Sessions.{on_connected, on_auth_failed, should_send_session_request}
use aether_link.Node.Sessions.Maps.{IsAligned}
use aether_link.Node.Keepalive.{collect_keepalive_actions}
use aether_link.Node.Keepalive.Frame.{collect_keepalive_actions_frame}
use aether_link.Node.Keepalive.Domain.{collect-SameKeys}
use aether_link.Node.Schedule.{
  collect_pending_retry_actions, collect_auto_close_actions, collect_due_punch_actions,
}
use aether_link.Node.Schedule.Ready.{Ready, Ready-retry}
use aether_link.Node.World.{World}
use aether_link.Node.Control.{Node, send_session_request, send_control, send_control_ping}
use aether_link.Node.Control.Attempts.{Sent-send_session_request}
use aether_link.Node.Control.Moves.{Moves-send_session_request, Moves-send_session_close}
use aether_link.Node.Ticks.{
  retry_all, give_up_all, handle_pending_session_timeouts, ping_all, drop_all,
  handle_control_keepalive_tick, close_all, punch_due, handle_session_lifecycle_tick,
  connection_established,
}
use aether_link.Node.Ticks.Attempts.{IsLimited, Ready-Sent, sends_first}
use aether_link.Node.Moves.{
  Moves, Moves-trans, books, connect, trigger, clear, keepalive, forget, stay, go,
}
use aether_link.Node.Moves.Kept.{Moves-IsLimited}

module _ {C : Crypto} {N : Net} ⦃e : Eq C.PeerId⦄ {opens : Bool} where
  Moves-give_up_all :
      (peers : List C.PeerId) (app : App C N) → Moves opens app (give_up_all peers app)
  unfolding give_up_all on_auth_failed
  Moves-give_up_all [] app = stay
  Moves-give_up_all (peer ∷ peers) app =
      Moves-trans (go (go stay (forget peer)) (trigger peer Trigger.auth_failed refl))
        (Moves-give_up_all peers _)

module _ {C : Crypto} {N : Net} (W : World C N) ⦃e : Eq C.PeerId⦄ ⦃r : Eq N.OutboundRequestId⦄
    {opens : Bool} where
  Moves-retry_all :
      (peers : List C.PeerId) (app : App C N) (w : W.State)
      → Ready app.session_request_max_attempts app.pending_outbound_sessions peers
      → IsLimited app
      → Moves opens app (retry_all W peers (app, w)).0
  unfolding retry_all Ready
  Moves-retry_all [] app w h l = stay
  Moves-retry_all (peer ∷ peers) app w (left, apart, h) l =
      let sent = Sent-send_session_request W peer app w l.allowed left in
      let first = Moves-send_session_request W peer app w l.allowed left in
      let node = (send_session_request W peer (app, w)).1 in
      let ready =
        Ready-Sent app.session_request_max_attempts peer app.pending_outbound_sessions
          node.0.pending_outbound_sessions peers sent.0 apart h in
      Moves-trans first (
        Moves-retry_all peers node.0 node.1
          (subst (λ m. Ready m node.0.pending_outbound_sessions peers) (sym sent.1) ready)
          (Moves-IsLimited first l))

  pub Moves-timeouts :
      (node : Node W)
      → IsLimited node.0
      → Moves opens node.0 (handle_pending_session_timeouts W node).0
  unfolding handle_pending_session_timeouts
  Moves-timeouts (app, w) l =
      let now = as_i64 (W.unix_ms w).0 in
      let (retry, fail) = collect_pending_retry_actions app now in
      Moves-trans (Moves-retry_all retry app _ (Ready-retry app now l.single) l)
        (Moves-give_up_all fail _)

  Moves-ping_all :
      (pings : List (C.PeerId × String × ℕ)) (node : Node W)
      → Moves opens node.0 (ping_all W pings node).0
  unfolding ping_all send_control_ping send_control
  Moves-ping_all [] node = stay
  Moves-ping_all ((peer, session, seq) ∷ pings) node =
      Moves-trans (go stay (books _)) (Moves-ping_all pings _)

  Moves-drop_all :
      (peers : List C.PeerId) (node : Node W) → Moves opens node.0 (drop_all W peers node).0
  unfolding drop_all
  Moves-drop_all [] node = stay
  Moves-drop_all (peer ∷ peers) (app, w) =
      Moves-trans (go stay (clear peer)) (Moves-drop_all peers _)

  pub Moves-keepalive :
      (node : Node W)
      → IsAligned node.0
      → Moves opens node.0 (handle_control_keepalive_tick W node).0
  unfolding handle_control_keepalive_tick
  Moves-keepalive (app, w) h =
      let now = as_i64 (W.unix_ms w).0 in
      let peers = W.connected_peers (W.unix_ms w).1 in
      Moves-trans
        (Moves-trans
          (go stay (
            keepalive _ (collect_keepalive_actions_frame app now peers)
              (collect-SameKeys app now peers (λ j. (h j).0))))
          (Moves-ping_all (collect_keepalive_actions app now peers).0.0 _))
        (Moves-drop_all (collect_keepalive_actions app now peers).0.1 _)

  Moves-close_all :
      (actions : List (C.PeerId × String)) (node : Node W)
      → Moves opens node.0 (close_all W actions node).0
  unfolding close_all
  Moves-close_all [] node = stay
  Moves-close_all ((peer, session) ∷ actions) node =
      Moves-trans (Moves-send_session_close W peer session "auto-close budget reached" node)
        (Moves-close_all actions _)

  pub Moves-lifecycle :
      (node : Node W) → Moves opens node.0 (handle_session_lifecycle_tick W node).0
  unfolding handle_session_lifecycle_tick punch_due collect_due_punch_actions
  Moves-lifecycle (app, w) =
      go (Moves-close_all (collect_auto_close_actions app (as_i64 (W.unix_ms w).0)) _) (books _)

  pub Moves-connection_established :
      (peer : C.PeerId) (node : Node W)
      → IsLimited node.0
      → Moves opens node.0 (connection_established W peer node).0
  unfolding connection_established
  Moves-connection_established peer (app, w) l =
      let joined : Moves opens app (on_connected peer app) = go stay (connect peer) in
      if_cases (λ (node : Node W). Moves opens app node.0)
        (should_send_session_request (on_connected peer app) peer)
        (λ send. Moves-trans joined (
          Moves-send_session_request W peer (on_connected peer app) w
            (Moves-IsLimited joined l).allowed (sends_first W _ peer send)))
        (λ no_send. joined)
