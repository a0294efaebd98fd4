-- ===== src/Node/Requests/Moves.antt =====
-- The moves of a received control request.
use aether_link.Base.{
  refl, not, ◌==◌, nat_eq, true, String, Eq, Option, none, some, List, [], ◌∷◌, Result, ok, err,
  if_both,
}
use aether_link.Base.Int.{as_i64}
use aether_link.Base.Sets.{unwrap_or, map_option, set_insert}
use aether_link.Messages.{
  Bytes, SessionRequest, SessionAccept, ControlEnvelope, ControlMessage, NetworkCandidate,
}
use aether_link.Messages
use aether_link.Connection.{Trigger, handshake_ok}
use aether_link.Security.Crypto.{Crypto}
use aether_link.Security.Errors.{SessionAuthError}
use aether_link.Security.Verify.{Verdict, default_allowed_skew_ms}
use aether_link.Security.Verify.Pins.{verify_session_request-Keeps}
use aether_link.Node.State.{Net, App}
use aether_link.Node.Sessions.{mark_graceful_closing, on_accept, on_auth_failed}
use aether_link.Node.World.{World}
use aether_link.Node.Control.{Outcome, Node, protocol_major, send_control}
use aether_link.Node.Requests.{
  announce, send_candidate_announcement, send_punch_sync, on_session_activated, activate,
  activate_if, respond_in, send_accept, answer_verdict, answer_session_request, answer_ping,
  answer_message, answer_envelope, handle_control_request, major_of,
}
use aether_link.Node.Moves.{
  Moves, Moves-trans, books, trigger, clear, closing, check, activate as open_session, stay, go,
}

module _ {C : Crypto} {N : Net} (W : World C N) ⦃e : Eq C.PeerId⦄ ⦃r : Eq N.OutboundRequestId⦄
    ⦃a : Eq N.Multiaddr⦄ where
  Moves-announce :
      (peer : C.PeerId) (session : String) (cs : List NetworkCandidate) (node : Node W)
      → Moves true node.0 (announce W peer session cs node).0
  unfolding announce send_control
  Moves-announce peer session [] node = stay
  Moves-announce peer session (c ∷ cs) (app, w) = go stay (books _)

  Moves-on_session_activated :
      (peer : C.PeerId) (session : String) (node : Node W)
      → Moves true node.0 (on_session_activated W peer session node).0
  unfolding on_session_activated send_punch_sync send_candidate_announcement send_control
  Moves-on_session_activated peer session (app, w) =
      go (Moves-announce peer session _ (app, (W.unix_ms w).1)) (books _)

  pub Moves-activate :
      (peer : C.PeerId) (session : String) (node : Node W)
      → Moves true node.0 (activate W peer session node).0
  unfolding activate on_accept
  Moves-activate peer session (app, w) =
      Moves-trans (go (go stay (open_session refl peer session _)) (trigger peer handshake_ok refl))
        (Moves-on_session_activated peer session _)

  Moves-activate_if :
      (o : Outcome × W.State) (peer : C.PeerId) (session : String) (app : App C N)
      → Moves true app (activate_if W o peer session app).1.0
  unfolding activate_if
  Moves-activate_if (ok u, w) peer session app = Moves-activate peer session (app, w)
  Moves-activate_if (err x, w) peer session app = stay

  Moves-send_accept :
      (s : Result SessionAuthError (Unit {0}) × SessionAccept) (peer : C.PeerId) (id : String)
      (channel : W.Channel) (node : Node W)
      → Moves true node.0 (send_accept W s peer id channel node).1.0
  unfolding send_accept
  Moves-send_accept (err x, accept) peer id channel (app, w) = stay
  Moves-send_accept (ok u, accept) peer id channel (app, w) =
      Moves-activate_if _ peer accept.session_id app

  Moves-answer_verdict :
      (verdict : Verdict C) (peer : C.PeerId) (request : SessionRequest) (id : String)
      (channel : W.Channel) (node : Node W)
      → Moves true node.0 (answer_verdict W verdict peer request id channel node).1.0
  unfolding answer_verdict respond_in on_auth_failed
  Moves-answer_verdict (err x) peer request id channel (app, w) =
      go stay (trigger peer Trigger.auth_failed refl)
  Moves-answer_verdict (ok v) peer request id channel (app, w) =
      Moves-send_accept _ peer id channel (app, _)

  Moves-answer_session_request :
      (peer : C.PeerId) (request : SessionRequest) (id : String) (channel : W.Channel)
      (app : App C N) (w : W.State)
      → Moves true app (answer_session_request W peer request id channel (app, w)).1.0
  unfolding answer_session_request respond_in
  Moves-answer_session_request peer request id channel app w =
      if_both (λ (x : Outcome × Node W). Moves true app x.1.0)
        (not (unwrap_or (map_option major_of request.version) 0 == protocol_major)) stay
        (Moves-trans
          (go stay (
            check refl _ _ (
              verify_session_request-Keeps C request (some peer) (some app.local_device_code)
                (as_i64 (W.unix_ms w).0) default_allowed_skew_ms app.nonce_cache app.trusted_peers
                app.trust_on_first_use)))
          (Moves-answer_verdict _ peer request id channel _))

  Moves-answer_message :
      (m : Option ControlMessage) (peer : C.PeerId) (id : String) (channel : W.Channel)
      (app : App C N) (w : W.State)
      → Moves true app (answer_message W m peer id channel (app, w)).1.0
  unfolding answer_message answer_ping respond_in mark_graceful_closing
  Moves-answer_message none peer id channel app w = stay
  Moves-answer_message (some (Messages.session_request request)) peer id channel app w =
      Moves-answer_session_request peer request id channel app w
  Moves-answer_message (some (Messages.session_accept x)) peer id channel app w = stay
  Moves-answer_message (some (Messages.session_reject x)) peer id channel app w = stay
  Moves-answer_message (some (Messages.session_close x)) peer id channel app w =
      go (go stay (closing (set_insert peer app.closing_peers))) (clear peer)
  Moves-answer_message (some (Messages.candidate_announcement x)) peer id channel app w = stay
  Moves-answer_message (some (Messages.punch_sync x)) peer id channel app w = go stay (books _)
  Moves-answer_message (some (Messages.ping x)) peer id channel app w = stay
  Moves-answer_message (some (Messages.pong x)) peer id channel app w = stay
  Moves-answer_message (some (Messages.other_message t x)) peer id channel app w = stay

  Moves-answer_envelope :
      (o : Option ControlEnvelope) (peer : C.PeerId) (channel : W.Channel) (node : Node W)
      → Moves true node.0 (answer_envelope W o peer channel node).1.0
  unfolding answer_envelope
  Moves-answer_envelope none peer channel node = stay
  Moves-answer_envelope (some envelope) peer channel (app, w) =
      Moves-answer_message envelope.message peer envelope.request_id channel app w

  pub Moves-handle_control_request :
      (peer : C.PeerId) (bytes : Bytes) (channel : W.Channel) (node : Node W)
      → Moves true node.0 (handle_control_request W peer bytes channel node).1.0
  unfolding handle_control_request
  Moves-handle_control_request peer bytes channel node =
      Moves-answer_envelope (W.decode_envelope bytes) peer channel node
