-- ===== src/Node/Responses/Moves.antt =====
-- The moves of an answer to a control request and of a failed one.
use aether_link.Base.{
  refl, not, ◌==◌, nat_eq, list_eq, contains, is_empty, true, false, Bool, Eq, Option, none, some,
  ok, err, if_both,
}
use aether_link.Base.Int.{ℤ, as_i64}
use aether_link.Base.Sets.{set_insert}
use aether_link.Messages.{Bytes, SessionAccept, ControlEnvelope, ControlMessage, ControlPong}
use aether_link.Messages
use aether_link.Connection.{Trigger}
use aether_link.Security.Crypto.{Crypto}
use aether_link.Security.Verify.{Verdict, default_allowed_skew_ms}
use aether_link.Security.Verify.Pins.{verify_session_accept-Keeps}
use aether_link.Node.State.{Net, App, PendingOutboundSession, OutboundControlRequestKind}
use aether_link.Node.State
use aether_link.Node.Sessions.{mark_graceful_closing, on_auth_failed}
use aether_link.Node.Keepalive.{note_keepalive_send_failure}
use aether_link.Node.Keepalive.Frame.{note_control_pong_frame, note_keepalive_send_failure_frame}
use aether_link.Node.Keepalive.Domain.{note_control_pong-SameKeys, send_failure-SameKeys}
use aether_link.Node.World.{World}
use aether_link.Node.Control.{Node}
use aether_link.Node.Requests.Moves.{Moves-activate}
use aether_link.Node.Responses.{
  finish_accept, check_pending, accept_pending, note_pong_at, receive_pong, receive_ack,
  receive_message, receive_envelope, handle_control_response, give_up_if, fail_request,
  handle_outbound_failure,
}
use aether_link.Node.Moves.{
  Moves, Moves-trans, books, trigger, clear, closing, keepalive, forget, check, stay, go,
}

module _ {C : Crypto} {N : Net} (W : World C N) ⦃e : Eq C.PeerId⦄ ⦃r : Eq N.OutboundRequestId⦄
    ⦃a : Eq N.Multiaddr⦄ where
  Moves-finish_accept :
      (verdict : Verdict C) (peer : C.PeerId) (accept : SessionAccept) (node : Node W)
      → Moves true node.0 (finish_accept W verdict peer accept node).0
  unfolding finish_accept on_auth_failed
  Moves-finish_accept (err x) peer accept (app, w) = go stay (trigger peer Trigger.auth_failed refl)
  Moves-finish_accept (ok v) peer accept (app, w) = Moves-activate W peer accept.session_id (app, _)

  Moves-check_pending :
      (pending : PendingOutboundSession) (peer : C.PeerId) (accept : SessionAccept) (node : Node W)
      → Moves true node.0 (check_pending W pending peer accept node).0
  unfolding check_pending on_auth_failed
  Moves-check_pending pending peer accept (app, w) =
      let refused : Moves true app (on_auth_failed peer app) =
        go stay (trigger peer Trigger.auth_failed refl) in
      if_both (λ (x : Node W). Moves true app x.0) (is_empty accept.request_nonce) refused
        (if_both (λ (x : Node W). Moves true app x.0)
          (not (contains pending.request_nonces accept.request_nonce)) refused
          (Moves-trans
            (go stay (
              check refl _ _ (
                verify_session_accept-Keeps C accept (some peer) (some pending.session_id) none
                  (as_i64 (W.unix_ms w).0) default_allowed_skew_ms app.nonce_cache app.trusted_peers
                  app.trust_on_first_use)))
            (Moves-finish_accept _ peer accept _)))

  Moves-accept_pending :
      (o : Option PendingOutboundSession) (peer : C.PeerId) (accept : SessionAccept) (node : Node W)
      → Moves true node.0 (accept_pending W o peer accept node).0
  unfolding accept_pending on_auth_failed
  Moves-accept_pending none peer accept (app, w) = go stay (trigger peer Trigger.auth_failed refl)
  Moves-accept_pending (some pending) peer accept node =
      Moves-check_pending pending peer accept node

  note_pong_at_lem :
      (x : Option ℤ × App C N) (app : App C N) (w w' : W.State)
      → Moves true app x.1
      → Moves true app (note_pong_at W x w w').0
  unfolding note_pong_at
  note_pong_at_lem (none, app') app w w' m = m
  note_pong_at_lem (some rtt, app') app w w' m = m

  Moves-receive_pong :
      (kind : Option OutboundControlRequestKind) (peer : C.PeerId) (pong : ControlPong)
      (app : App C N) (w : W.State)
      → Moves true app (receive_pong W kind peer pong (app, w)).0
  unfolding receive_pong
  Moves-receive_pong none peer pong app w = stay
  Moves-receive_pong (some State.session_request) peer pong app w = stay
  Moves-receive_pong (some (State.keepalive_ping seq)) peer pong app w =
      let now = (W.unix_ms w).0 in
      if_both (λ (x : Node W). Moves true app x.0) (seq == pong.seq)
        (note_pong_at_lem _ app w _ (
          go stay (
            keepalive _ (note_control_pong_frame peer pong now app)
              (note_control_pong-SameKeys peer pong now app))))
        stay
  Moves-receive_pong (some State.session_close) peer pong app w = stay
  Moves-receive_pong (some State.candidate_announcement) peer pong app w = stay
  Moves-receive_pong (some State.punch_sync) peer pong app w = stay

  Moves-receive_ack :
      (kind : Option OutboundControlRequestKind) (peer : C.PeerId) (app : App C N) (w : W.State)
      → Moves true app (receive_ack W kind peer (app, w)).0
  unfolding receive_ack
  Moves-receive_ack none peer app w = stay
  Moves-receive_ack (some State.session_request) peer app w = stay
  Moves-receive_ack (some (State.keepalive_ping seq)) peer app w = stay
  Moves-receive_ack (some State.session_close) peer app w = stay
  Moves-receive_ack (some State.candidate_announcement) peer app w = stay
  Moves-receive_ack (some State.punch_sync) peer app w = stay

  Moves-receive_message :
      (m : Option ControlMessage) (kind : Option OutboundControlRequestKind) (peer : C.PeerId)
      (app : App C N) (w : W.State)
      → Moves true app (receive_message W m kind peer (app, w)).0
  unfolding receive_message on_auth_failed mark_graceful_closing
  Moves-receive_message none kind peer app w = Moves-receive_ack kind peer app w
  Moves-receive_message (some (Messages.session_request x)) kind peer app w = stay
  Moves-receive_message (some (Messages.session_accept accept)) kind peer app w =
      Moves-trans (go stay (forget peer)) (Moves-accept_pending _ peer accept _)
  Moves-receive_message (some (Messages.session_reject x)) kind peer app w =
      go (go stay (forget peer)) (trigger peer Trigger.auth_failed refl)
  Moves-receive_message (some (Messages.session_close x)) kind peer app w =
      go (go stay (closing (set_insert peer app.closing_peers))) (clear peer)
  Moves-receive_message (some (Messages.candidate_announcement x)) kind peer app w = stay
  Moves-receive_message (some (Messages.punch_sync x)) kind peer app w = stay
  Moves-receive_message (some (Messages.ping x)) kind peer app w = stay
  Moves-receive_message (some (Messages.pong pong)) kind peer app w =
      Moves-receive_pong kind peer pong app w
  Moves-receive_message (some (Messages.other_message t x)) kind peer app w = stay

  Moves-receive_envelope :
      (o : Option ControlEnvelope) (kind : Option OutboundControlRequestKind) (peer : C.PeerId)
      (app : App C N) (w : W.State)
      → Moves true app (receive_envelope W o kind peer (app, w)).1.0
  unfolding receive_envelope
  Moves-receive_envelope none kind peer app w = stay
  Moves-receive_envelope (some envelope) kind peer app w =
      Moves-receive_message envelope.message kind peer app w

  pub Moves-handle_control_response :
      (peer : C.PeerId) (id : N.OutboundRequestId) (bytes : Bytes) (node : Node W)
      → Moves true node.0 (handle_control_response W peer id bytes node).1.0
  unfolding handle_control_response
  Moves-handle_control_response peer id bytes (app, w) =
      Moves-trans (go stay (books _)) (Moves-receive_envelope _ _ peer _ w)

module _ {C : Crypto} {N : Net} (W : World C N) ⦃e : Eq C.PeerId⦄ ⦃r : Eq N.OutboundRequestId⦄
    ⦃a : Eq N.Multiaddr⦄ {opens : Bool} where
  Moves-give_up_if :
      (peer : C.PeerId) (x : Bool × App C N) (w : W.State) (app : App C N)
      → Moves opens app x.1
      → Moves opens app (give_up_if W peer x w).0
  unfolding give_up_if
  Moves-give_up_if peer (false, app') w app m = m
  Moves-give_up_if peer (true, app') w app m = go m (clear peer)

  Moves-fail_request :
      (kind : Option OutboundControlRequestKind) (peer : C.PeerId) (app : App C N) (w : W.State)
      → Moves opens app (fail_request W kind peer (app, w)).0
  unfolding fail_request on_auth_failed
  Moves-fail_request none peer app w = stay
  Moves-fail_request (some State.session_request) peer app w =
      go (go stay (forget peer)) (trigger peer Trigger.auth_failed refl)
  Moves-fail_request (some (State.keepalive_ping seq)) peer app w =
      Moves-give_up_if peer (note_keepalive_send_failure peer seq app) w app (
        go stay (
          keepalive _ (note_keepalive_send_failure_frame peer seq app)
            (send_failure-SameKeys peer seq app)))
  Moves-fail_request (some State.session_close) peer app w = stay
  Moves-fail_request (some State.candidate_announcement) peer app w = stay
  Moves-fail_request (some State.punch_sync) peer app w = stay

  pub Moves-handle_outbound_failure :
      (peer : C.PeerId) (id : N.OutboundRequestId) (node : Node W)
      → Moves opens node.0 (handle_outbound_failure W peer id node).0
  unfolding handle_outbound_failure
  Moves-handle_outbound_failure peer id (app, w) =
      Moves-trans (go stay (books _)) (Moves-fail_request _ peer _ w)
