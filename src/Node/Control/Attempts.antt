-- ===== src/Node/Control/Attempts.antt =====
-- What sending a session request does to the pending sessions.
use aether_link.Base.{
  ℕ, ◌≤◌, ◌<◌, ◌≡◌, refl, ◌⊎◌, inl, inr, String, Eq, Option, none, some, Result, ok, err, arith,
}
use aether_link.Base.Dict
use aether_link.Base.Dict.{Dict, NodupKeys, lookup-insert, insert-NodupKeys}
use aether_link.Base.Int.{ℤ}
use aether_link.Base.Sets.{unwrap_or}
use aether_link.Messages.{Bytes, SessionRequest}
use aether_link.Security.Crypto.{Crypto}
use aether_link.Node.State.{Net, App, PendingOutboundSession}
use aether_link.Node.Schedule.Ready.{HasLeft}
use aether_link.Node.World.{World}
use aether_link.Node.Control.{
  ControlFault, sent, first_pending, note_sent, send_built, send_session_request, send_control,
}

pub unwrapped :
    (limit : ℕ) (o : Option PendingOutboundSession) (x : PendingOutboundSession)
    → HasLeft limit o
    → x.attempts < limit
    → (unwrap_or o x).attempts < limit
unwrapped limit none x h k = k
unwrapped limit (some p) x h k = h p refl

module _ {P : Type 0} ⦃e : Eq P⦄ where
  -- The map is the same, or the peer's session has an attempt more and none beyond the limit.
  abbrev pub Sent : ℕ → P → Dict P PendingOutboundSession → Dict P PendingOutboundSession → Type 0
  Sent limit peer d d' =
      (d' ≡ d) ⊎ ((p : PendingOutboundSession) × (d' ≡ Dict.insert peer p d) × (p.attempts ≤ limit))

module _ {C : Crypto} {N : Net} (W : World C N) ⦃e : Eq C.PeerId⦄ ⦃r : Eq N.OutboundRequestId⦄ where
  Sent-send_built :
      (peer : C.PeerId) (session : String) (nonce : Bytes) (now : ℤ)
      (m : Result ControlFault SessionRequest) (app : App C N) (w : W.State)
      → 0 < app.session_request_max_attempts
      → HasLeft app.session_request_max_attempts (Dict.lookup peer app.pending_outbound_sessions)
      → let app' = (send_built W peer session nonce now m (app, w)).1.0 in
        Sent app.session_request_max_attempts peer app.pending_outbound_sessions
          app'.pending_outbound_sessions
        × (app'.session_request_max_attempts ≡ app.session_request_max_attempts)
  unfolding send_built note_sent send_control first_pending
  Sent-send_built peer session nonce now (err x) app w some_left left = (inl refl, refl)
  Sent-send_built peer session nonce now (ok request) app w some_left left =
      let p = unwrap_or (Dict.lookup peer app.pending_outbound_sessions) (first_pending session) in
      let fits =
        unwrapped app.session_request_max_attempts (Dict.lookup peer app.pending_outbound_sessions)
          (first_pending session) left some_left in
      (inr (sent app.session_request_max_attempts nonce now p, refl, omega (arith, fits)), refl)

  pub Sent-send_session_request :
      (peer : C.PeerId) (app : App C N) (w : W.State)
      → 0 < app.session_request_max_attempts
      → HasLeft app.session_request_max_attempts (Dict.lookup peer app.pending_outbound_sessions)
      → let app' = (send_session_request W peer (app, w)).1.0 in
        Sent app.session_request_max_attempts peer app.pending_outbound_sessions
          app'.pending_outbound_sessions
        × (app'.session_request_max_attempts ≡ app.session_request_max_attempts)
  unfolding send_session_request
  Sent-send_session_request peer app w some_left left =
      Sent-send_built peer _ _ _ _ app _ some_left left
