-- ===== src/Node/Responses.antt =====
-- The answers to the node's control requests, and their failures: `handle_control_response` and the
-- outbound failures of `handle_behaviour_event` in apps/aetherlink-node/src/main.rs.
pub mod Activation
pub mod Opening
pub mod Moves
use aether_link.Base.{
  ℕ, Bool, true, false, not, String, list_eq, nat_eq, Eq, ◌==◌, contains, Option, none, some,
  is_empty, if◌then◌else◌, Result, ok, err,
}
use aether_link.Base.Dict
use aether_link.Base.Int.{ℤ, as_i64}
use aether_link.Messages.{Bytes, SessionAccept, ControlEnvelope, ControlMessage, ControlPong}
use aether_link.Messages
use aether_link.Security.Crypto.{Crypto}
use aether_link.Security.Verify.{
  Verdict, VerifiedSessionPeer, default_allowed_skew_ms, verify_session_accept,
}
use aether_link.Node.State.{Net, App, PendingOutboundSession, OutboundControlRequestKind}
use aether_link.Node.State
use aether_link.Node.Sessions.{mark_graceful_closing, clear_active_session, on_auth_failed}
use aether_link.Node.Keepalive.{note_control_pong, note_keepalive_send_failure}
use aether_link.Node.World.{World}
use aether_link.Node.Control.{undecodable_envelope, Outcome, Node}
use aether_link.Node.Requests.{persist_if, activate}

module _ {C : Crypto} {N : Net} (W : World C N) ⦃e : Eq C.PeerId⦄ ⦃r : Eq N.OutboundRequestId⦄
    ⦃a : Eq N.Multiaddr⦄ where
  finish_accept : Verdict C → C.PeerId → SessionAccept → Node W → Node W
  finish_accept (err x) peer accept (app, w) = (on_auth_failed peer app, w)
  finish_accept (ok v) peer accept (app, w) =
      activate W peer accept.session_id (app, persist_if W v.trust_store_changed app w)

  check_pending : PendingOutboundSession → C.PeerId → SessionAccept → Node W → Node W
  unfolding finish_accept
  check_pending pending peer accept (app, w) =
      let (now, w') = W.unix_ms w in
      let (verdict, replay, trusted) =
        verify_session_accept C accept (some peer) (some pending.session_id) none (as_i64 now)
          default_allowed_skew_ms app.nonce_cache app.trusted_peers app.trust_on_first_use in
      if is_empty accept.request_nonce
      then (on_auth_failed peer app, w)
      else if not (contains pending.request_nonces accept.request_nonce)
      then (on_auth_failed peer app, w)
      else finish_accept verdict peer accept
          (record app { nonce_cache = replay; trusted_peers = trusted }, w')

  accept_pending : Option PendingOutboundSession → C.PeerId → SessionAccept → Node W → Node W
  unfolding check_pending
  accept_pending none peer accept (app, w) = (on_auth_failed peer app, w)
  accept_pending (some pending) peer accept node = check_pending pending peer accept node

  abbrev without_pending : C.PeerId → App C N → App C N
  without_pending peer app = record app {
    pending_outbound_sessions = Dict.erase peer app.pending_outbound_sessions;
  }

  -- A clock is only read where the pong is accepted.
  note_pong_at : Option ℤ × App C N → W.State → W.State → Node W
  note_pong_at (none, app) w w' = (app, w)
  note_pong_at (some rtt, app) w w' = (app, w')

  receive_pong : Option OutboundControlRequestKind → C.PeerId → ControlPong → Node W → Node W
  unfolding note_pong_at
  receive_pong (some (State.keepalive_ping seq)) peer pong (app, w) =
      let (now, w') = W.unix_ms w in
      if seq == pong.seq then note_pong_at (note_control_pong peer pong now app) w w' else (app, w)
  receive_pong _ peer pong node = node

  receive_ack : Option OutboundControlRequestKind → C.PeerId → Node W → Node W
  receive_ack (some State.session_close) peer (app, w) = (app, W.disconnect peer w)
  receive_ack _ peer node = node

  unfoldable pub receive_message :
      Option ControlMessage → Option OutboundControlRequestKind → C.PeerId → Node W → Node W
  unfolding accept_pending receive_pong receive_ack
  receive_message (some (Messages.session_accept accept)) kind peer (app, w) =
      accept_pending (Dict.lookup peer app.pending_outbound_sessions) peer accept
        (without_pending peer app, w)
  receive_message (some (Messages.session_reject reject)) kind peer (app, w) =
      (on_auth_failed peer (without_pending peer app), w)
  receive_message (some (Messages.pong pong)) kind peer node = receive_pong kind peer pong node
  receive_message (some (Messages.session_close close)) kind peer (app, w) =
      (clear_active_session peer (mark_graceful_closing peer app), W.disconnect peer w)
  receive_message none kind peer node = receive_ack kind peer node
  receive_message _ kind peer node = node

  receive_envelope :
      Option ControlEnvelope
      → Option OutboundControlRequestKind
      → C.PeerId
      → Node W
      → Outcome × Node W
  receive_envelope none kind peer node = (err undecodable_envelope, node)
  receive_envelope (some envelope) kind peer node =
      (ok tt, receive_message envelope.message kind peer node)

  abbrev without_request : N.OutboundRequestId → App C N → App C N
  without_request id app = record app {
    pending_outbound_control_requests = Dict.erase id app.pending_outbound_control_requests;
  }

  unfoldable pub handle_control_response :
      C.PeerId → N.OutboundRequestId → Bytes → Node W → Outcome × Node W
  unfolding receive_envelope
  handle_control_response peer id response (app, w) =
      receive_envelope (W.decode_envelope response)
        (Dict.lookup id app.pending_outbound_control_requests) peer (without_request id app, w)

  give_up_if : C.PeerId → Bool × App C N → W.State → Node W
  give_up_if peer (false, app) w = (app, w)
  give_up_if peer (true, app) w = (clear_active_session peer app, W.disconnect peer w)

  fail_request : Option OutboundControlRequestKind → C.PeerId → Node W → Node W
  unfolding give_up_if
  fail_request (some State.session_request) peer (app, w) =
      (on_auth_failed peer (without_pending peer app), w)
  fail_request (some (State.keepalive_ping seq)) peer (app, w) =
      give_up_if peer (note_keepalive_send_failure peer seq app) w
  fail_request _ peer node = node

  -- `request_response::Event::OutboundFailure`
  unfoldable pub handle_outbound_failure : C.PeerId → N.OutboundRequestId → Node W → Node W
  unfolding fail_request
  handle_outbound_failure peer id (app, w) =
      fail_request (Dict.lookup id app.pending_outbound_control_requests) peer
        (without_request id app, w)
