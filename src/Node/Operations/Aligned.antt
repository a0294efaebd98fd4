-- ===== src/Node/Operations/Aligned.antt =====
-- The three maps of active sessions hold the same peers.
use aether_link.Base.{if_both, refl, sym, ◌∙◌, ap, Eq, contains, List, [], ◌∷◌, ◌++◌}
use aether_link.Base.Dict
use aether_link.Base.Dict.{lookup-insert, lookup-erase}
use aether_link.Base.Sets.{is_some}
use aether_link.Security.Crypto.{Crypto}
use aether_link.Node.State.{Net, App, Settings, new}
use aether_link.Security.Trust.{TrustedPeers}
use aether_link.Node.Sessions.{
  note_local_addr, mark_graceful_closing, mark_discovery_dial_attempt, on_connected, on_auth_failed,
  notify,
}
use aether_link.Node.Sessions.Maps.{
  IsAligned, set_active_session-IsAligned, clear_active_session-IsAligned,
  on_disconnected-IsAligned, on_accept-IsAligned,
}
use aether_link.Node.Keepalive.Frame.{
  SameButKeepalive, note_control_pong_frame, note_keepalive_send_failure_frame,
  collect_keepalive_actions_frame,
}
use aether_link.Node.Keepalive.Domain.{
  SameKeys, collect-SameKeys, note_control_pong-SameKeys, send_failure-SameKeys,
}
use aether_link.Node.Schedule.{collect_due_punch_actions}
use aether_link.Node.Operations.{
  Operation, run, runs, local_addr, activated, cleared, closing, dialed, connected, disconnected,
  accepted, auth_failed, pong, ping_failed, keepalive, punches,
}

module _ {C : Crypto} {N : Net} ⦃e : Eq C.PeerId⦄ where
  pub framed :
      (app app' : App C N)
      → SameButKeepalive app app'
      → SameKeys app.control_keepalive app'.control_keepalive
      → IsAligned app
      → IsAligned app'
  framed app app' same keys h j =
      let session = ap (λ x. is_some (Dict.lookup j x.active_sessions)) same in
      let start = ap (λ x. is_some (Dict.lookup j x.session_started_unix_ms)) same in
      (session ∙ (h j).0 ∙ sym (keys j), session ∙ (h j).1 ∙ sym start)

module _ {C : Crypto} {N : Net} ⦃e : Eq C.PeerId⦄ ⦃a : Eq N.Multiaddr⦄ where
  run-IsAligned : (op : Operation C N) (app : App C N) → IsAligned app → IsAligned (run op app)
  unfolding run note_local_addr mark_graceful_closing mark_discovery_dial_attempt on_connected
      on_auth_failed notify collect_due_punch_actions
  run-IsAligned (local_addr addr) app h =
      if_both (λ (x : App C N). IsAligned x) (contains app.known_local_addrs addr) {x = app}
        {y = record app { known_local_addrs = app.known_local_addrs ++ addr ∷ [] }} h h
  run-IsAligned (activated peer session now) app h =
      set_active_session-IsAligned peer session now app h
  run-IsAligned (cleared peer) app h = clear_active_session-IsAligned peer app h
  run-IsAligned (closing peer) app h = h
  run-IsAligned (dialed peer now) app h = h
  run-IsAligned (connected peer) app h = h
  run-IsAligned (disconnected peer) app h = on_disconnected-IsAligned peer app h
  run-IsAligned (accepted peer session now) app h = on_accept-IsAligned peer session now app h
  run-IsAligned (auth_failed peer) app h = h
  run-IsAligned (pong peer answer now) app h =
      framed app _ (note_control_pong_frame peer answer now app)
        (note_control_pong-SameKeys peer answer now app) h
  run-IsAligned (ping_failed peer seq) app h =
      framed app _ (note_keepalive_send_failure_frame peer seq app)
        (send_failure-SameKeys peer seq app) h
  run-IsAligned (keepalive now peers) app h =
      framed app _ (collect_keepalive_actions_frame app now peers)
        (collect-SameKeys app now peers (λ j. (h j).0)) h
  run-IsAligned (punches now) app h = h

  from-IsAligned :
      (ops : List (Operation C N)) (app : App C N) → IsAligned app → IsAligned (runs ops app)
  unfolding runs
  from-IsAligned [] app h = h
  from-IsAligned (op ∷ ops) app h = from-IsAligned ops (run op app) (run-IsAligned op app h)

  -- Whatever methods of a new node are called, in whatever order, a peer has an active session exactly if it
  -- has a keepalive state, and exactly if it has a start time.
  runs-IsAligned :
      (key : C.Keypair) (own : C.PeerId) (trusted : TrustedPeers) (s : Settings C N)
      (ops : List (Operation C N))
      → IsAligned (runs ops (new C N key own trusted s))
  unfolding new Dict.lookup
  runs-IsAligned key own trusted s ops =
      from-IsAligned ops (new C N key own trusted s) (λ j. (refl, refl))
