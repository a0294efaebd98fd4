-- ===== src/Node/Ticks/Ends.antt =====
-- Which sessions a tick ends.
use aether_link.Base.{
  ℕ, ◌≡◌, ◌∙◌, ap, refl, String, Eq, Bool, contains, Option, none, List, [], ◌∷◌, if◌then◌else◌,
  arith,
}
use aether_link.Base.Dict
use aether_link.Base.Dict.{Dict, lookup-erase}
use aether_link.Base.Int.{as_i64}
use aether_link.Security.Crypto.{Crypto}
use aether_link.Node.State.{Net, App}
use aether_link.Node.Sessions.{clear_active_session}
use aether_link.Node.Keepalive.{collect_keepalive_actions}
use aether_link.Node.World.{World}
use aether_link.Node.Control.{Node, send_control, send_control_ping}
use aether_link.Node.Ticks.{ping_all, drop_all, handle_control_keepalive_tick}

module _ {C : Crypto} {N : Net} (W : World C N) ⦃e : Eq C.PeerId⦄ ⦃r : Eq N.OutboundRequestId⦄ where
  abbrev session : Node W → C.PeerId → Option String
  session node j = Dict.lookup j node.0.active_sessions

  session-ping_all :
      (pings : List (C.PeerId × String × ℕ)) (node : Node W) (j : C.PeerId)
      → session (ping_all W pings node) j ≡ session node j
  unfolding ping_all send_control_ping send_control
  session-ping_all [] node j = refl
  session-ping_all ((peer, s, seq) ∷ pings) node j = session-ping_all pings _ j

  session-drop_all :
      (peers : List C.PeerId) (node : Node W) (j : C.PeerId)
      → session (drop_all W peers node) j ≡ (if contains peers j then none else session node j)
  unfolding drop_all clear_active_session
  session-drop_all [] node j = refl
  session-drop_all (peer ∷ peers) (app, w) j = ground (
    arith,
    session-drop_all peers (clear_active_session peer app, W.disconnect peer w) j,
    lookup-erase j peer app.active_sessions,
  )

  -- After the keepalive tick the lost peers have no active session, and the sessions of the others are
  -- what they were.
  keepalive_tick_ends_lost :
      (app : App C N) (w : W.State) (j : C.PeerId)
      → let (clock, w') = W.unix_ms w in
        let ((pings, lost), app') =
          collect_keepalive_actions app (as_i64 clock) (W.connected_peers w') in
        Dict.lookup j (handle_control_keepalive_tick W (app, w)).0.active_sessions
        ≡ (if contains lost j then none else Dict.lookup j app.active_sessions)
  unfolding handle_control_keepalive_tick collect_keepalive_actions
  keepalive_tick_ends_lost app w j =
      let (clock, w') = W.unix_ms w in
      let ((pings, lost), app') =
        collect_keepalive_actions app (as_i64 clock) (W.connected_peers w') in
      session-drop_all lost (ping_all W pings (app', w')) j
      ∙ ap (λ s. if contains lost j then none else s) (session-ping_all pings (app', w') j)

  abbrev closing : Node W → C.PeerId → Bool
  closing node j = contains node.0.closing_peers j
