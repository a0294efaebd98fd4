-- ===== src/Node/Operations/Stuck.antt =====
-- A connection state machine of the node that is over stays over.
use aether_link.Base.{if_both, ◌≡◌, ap, ◌∙◌, not, ◌&&◌, Eq, contains, List, [], ◌∷◌, ◌++◌}
use aether_link.Base.Dict
use aether_link.Security.Crypto.{Crypto}
use aether_link.Node.State.{Net, App}
use aether_link.Node.Sessions.{
  note_local_addr, set_active_session, clear_active_session, mark_graceful_closing,
  mark_discovery_dial_attempt, should_send_session_request, should_auto_request_for_peer,
}
use aether_link.Node.Sessions.Machines.{
  PeerIsOver, is_over, on_connected_over, on_disconnected_over, on_accept_over, on_auth_failed_over,
  over_request,
}
use aether_link.Node.Keepalive.Frame.{
  SameButKeepalive, note_control_pong_frame, note_keepalive_send_failure_frame,
  collect_keepalive_actions_frame,
}
use aether_link.Node.Schedule.{collect_due_punch_actions}
use aether_link.Node.Operations.{
  Operation, run, runs, local_addr, activated, cleared, closing, dialed, connected, disconnected,
  accepted, auth_failed, pong, ping_failed, keepalive, punches,
}

module _ {C : Crypto} {N : Net} ⦃e : Eq C.PeerId⦄ ⦃a : Eq N.Multiaddr⦄ where
  framed :
      (app app' : App C N) (j : C.PeerId)
      → SameButKeepalive app app'
      → PeerIsOver app j
      → PeerIsOver app' j
  framed app app' j same h = ap (λ x. is_over (Dict.lookup j x.sessions)) same ∙ h

  run_over :
      (op : Operation C N) (app : App C N) (j : C.PeerId)
      → PeerIsOver app j
      → PeerIsOver (run op app) j
  unfolding run note_local_addr set_active_session clear_active_session mark_graceful_closing
      mark_discovery_dial_attempt collect_due_punch_actions
  run_over (local_addr addr) app j h =
      if_both (λ (x : App C N). PeerIsOver x j) (contains app.known_local_addrs addr) {x = app}
        {y = record app { known_local_addrs = app.known_local_addrs ++ addr ∷ [] }} h h
  run_over (activated peer session now) app j h = h
  run_over (cleared peer) app j h = h
  run_over (closing peer) app j h = h
  run_over (dialed peer now) app j h = h
  run_over (connected peer) app j h = on_connected_over app j peer h
  run_over (disconnected peer) app j h = on_disconnected_over app j peer h
  run_over (accepted peer session now) app j h = on_accept_over app j peer session now h
  run_over (auth_failed peer) app j h = on_auth_failed_over app j peer h
  run_over (pong peer answer now) app j h =
      framed app _ j (note_control_pong_frame peer answer now app) h
  run_over (ping_failed peer seq) app j h =
      framed app _ j (note_keepalive_send_failure_frame peer seq app) h
  run_over (keepalive now peers) app j h =
      framed app _ j (collect_keepalive_actions_frame app now peers) h
  run_over (punches now) app j h = h

  -- Once a peer's machine has lost its path, was hung up or has failed, no calls of the node's methods lead
  -- it out of these states, and whether a request is sent to the peer depends on the settings and on a
  -- pending request only, whatever sessions are active.
  over_stays_over :
      (ops : List (Operation C N)) (app : App C N) (peer : C.PeerId)
      → PeerIsOver app peer
      → let app' = runs ops app in
        PeerIsOver app' peer
        × (should_send_session_request app' peer ≡ (
            should_auto_request_for_peer app' peer
            && not (Dict.contains_key peer app'.pending_outbound_sessions)))
  unfolding runs
  over_stays_over [] app peer h = (h, over_request app peer h)
  over_stays_over (op ∷ ops) app peer h =
      over_stays_over ops (run op app) peer (run_over op app peer h)
