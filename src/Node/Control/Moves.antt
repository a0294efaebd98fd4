-- ===== src/Node/Control/Moves.antt =====
-- The moves of the requests that the node sends.
use aether_link.Base.{◌<◌, Bool, String, Eq, Result, ok, err, arith}
use aether_link.Base.Dict
use aether_link.Base.Dict.{Dict}
use aether_link.Base.Int.{ℤ}
use aether_link.Base.Sets.{unwrap_or, set_insert}
use aether_link.Messages.{Bytes, SessionRequest}
use aether_link.Security.Crypto.{Crypto}
use aether_link.Node.State.{Net, App}
use aether_link.Node.Sessions.{mark_graceful_closing}
use aether_link.Node.Schedule.Ready.{HasLeft}
use aether_link.Node.World.{World}
use aether_link.Node.Control.{
  ControlFault, Node, sent, first_pending, note_sent, send_built, send_session_request,
  send_control, send_session_close,
}
use aether_link.Node.Control.Attempts.{unwrapped}
use aether_link.Node.Moves.{Moves, books, clear, closing, request, stay, go}

module _ {C : Crypto} {N : Net} (W : World C N) ⦃e : Eq C.PeerId⦄ ⦃r : Eq N.OutboundRequestId⦄
    {opens : Bool} where
  Moves-send_built :
      (peer : C.PeerId) (session : String) (nonce : Bytes) (now : ℤ)
      (m : Result ControlFault SessionRequest) (app : App C N) (w : W.State)
      → 0 < app.session_request_max_attempts
      → HasLeft app.session_request_max_attempts (Dict.lookup peer app.pending_outbound_sessions)
      → Moves opens app (send_built W peer session nonce now m (app, w)).1.0
  unfolding send_built note_sent send_control first_pending
  Moves-send_built peer session nonce now (err x) app w some_left left = stay
  Moves-send_built peer session nonce now (ok message) app w some_left left =
      let p = unwrap_or (Dict.lookup peer app.pending_outbound_sessions) (first_pending session) in
      let fits =
        unwrapped app.session_request_max_attempts (Dict.lookup peer app.pending_outbound_sessions)
          (first_pending session) left some_left in
      go (go stay (books _))
        (request peer (sent app.session_request_max_attempts nonce now p) (omega (arith, fits)))

  pub Moves-send_session_request :
      (peer : C.PeerId) (app : App C N) (w : W.State)
      → 0 < app.session_request_max_attempts
      → HasLeft app.session_request_max_attempts (Dict.lookup peer app.pending_outbound_sessions)
      → Moves opens app (send_session_request W peer (app, w)).1.0
  unfolding send_session_request
  Moves-send_session_request peer app w some_left left =
      Moves-send_built peer _ _ _ _ app _ some_left left

  pub Moves-send_session_close :
      (peer : C.PeerId) (session reason : String) (node : Node W)
      → Moves opens node.0 (send_session_close W peer session reason node).0
  unfolding send_session_close send_control mark_graceful_closing
  Moves-send_session_close peer session reason (app, w) =
      go (go (go stay (books _)) (closing (set_insert peer app.closing_peers))) (clear peer)
