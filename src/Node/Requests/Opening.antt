-- ===== src/Node/Requests/Opening.antt =====
-- A request that the node verifies opens its session.
use aether_link.Base.{
  ◌≡◌, refl, ap, sym, subst, Bool, true, not, ◌==◌, nat_eq, String, Eq, some, ok, err,
  if◌then◌else◌, if_cases, arith,
}
use aether_link.Base.Dict
use aether_link.Base.Dict.{Dict}
use aether_link.Base.Int.{as_i64}
use aether_link.Base.Sets.{unwrap_or, map_option}
use aether_link.Messages.{Bytes, SessionRequest, SessionAccept, ControlEnvelope, ControlMessage}
use aether_link.Messages
use aether_link.Security.Crypto.{Crypto}
use aether_link.Security.Verify.{
  VerifiedSessionPeer, canonical_session_accept_payload, verify_session_request,
  default_allowed_skew_ms,
}
use aether_link.Security.Verify.Signing.{signed_accept}
use aether_link.Node.State.{Net, App}
use aether_link.Node.World.{World}
use aether_link.Node.Control.{closed_channel, Outcome, Node, protocol_major}
use aether_link.Node.Control.Activity.{active}
use aether_link.Node.Requests.{
  respond, activate_if, send_accept, answer_verdict, answer_session_request, answer_message,
  answer_envelope, handle_control_request, unsigned_session_accept, major_of, persist_if,
}
use aether_link.Node.Requests.Activation.{active-activate, node_verdict}

module _ {C : Crypto} {N : Net} (W : World C N) ⦃e : Eq C.PeerId⦄ ⦃r : Eq N.OutboundRequestId⦄
    ⦃a : Eq N.Multiaddr⦄ where
  -- Nothing has failed, and the peer's session is this one.
  abbrev Opens : C.PeerId → String → App C N → Outcome × Node W → Type 0
  Opens peer session app (outcome, node) =
      (outcome ≡ ok tt) × (active W node ≡ Dict.insert peer session app.active_sessions)

  -- Every answer on this channel is delivered.
  abbrev pub Delivers : W.Channel → Type 0
  Delivers channel = (bytes : Bytes) (w : W.State) → (W.send_response channel bytes w).0 ≡ true

  -- Signing with the node's key does not fail.
  abbrev pub Signs : App C N → Type 0
  Signs app = (payload : Bytes) → (s : Bytes) × (C.sign app.local_key payload ≡ some s)

  respond-ok :
      (channel : W.Channel) (envelope : ControlEnvelope) (w : W.State)
      → Delivers channel
      → (respond W channel envelope w).0 ≡ ok tt
  unfolding respond
  respond-ok channel envelope w delivers =
      let outcome : Bool → Outcome = λ b. if b then ok tt else err closed_channel in
      ap outcome (delivers (W.encode_envelope envelope) w)

  Opens-activate_if :
      (o : Outcome × W.State) (peer : C.PeerId) (session : String) (app : App C N)
      → o.0 ≡ ok tt
      → Opens peer session app (activate_if W o peer session app)
  unfolding activate_if
  Opens-activate_if (ok u, w) peer session app h = (refl, active-activate W peer session (app, w))
  Opens-activate_if (err x, w) peer session app h = absurd cc

  Opens-verdict :
      (v : VerifiedSessionPeer C) (peer : C.PeerId) (request : SessionRequest) (id : String)
      (channel : W.Channel) (app : App C N) (w : W.State)
      → Delivers channel
      → Signs app
      → Opens peer request.session_id app (answer_verdict W (ok v) peer request id channel (app, w))
  unfolding answer_verdict send_accept unsigned_session_accept
  Opens-verdict v peer request id channel app w delivers signs =
      let w1 = persist_if W v.trust_store_changed app w in
      let (nonce, w2) = W.random_nonce w1 in
      let (now, w3) = W.unix_ms w2 in
      let accept = unsigned_session_accept W app request nonce (as_i64 now) in
      let (s, signed) = signs (canonical_session_accept_payload C accept) in
      subst (λ x. Opens peer request.session_id app (send_accept W x peer id channel (app, w3)))
        (sym (signed_accept C accept app.local_key s signed))
        (Opens-activate_if _ peer request.session_id app
          (respond-ok channel _ (W.unix_ms w3).1 delivers))

  Opens-request :
      (v : VerifiedSessionPeer C) (peer : C.PeerId) (request : SessionRequest) (id : String)
      (channel : W.Channel) (app : App C N) (w : W.State)
      → unwrap_or (map_option major_of request.version) 0 ≡ protocol_major
      → node_verdict W request peer app (W.unix_ms w).0 ≡ ok v
      → Delivers channel
      → Signs app
      → Opens peer request.session_id app
          (answer_session_request W peer request id channel (app, w))
  unfolding answer_session_request
  Opens-request v peer request id channel app w major accepts delivers signs =
      let (clock, w') = W.unix_ms w in
      let checked =
        verify_session_request C request (some peer) (some app.local_device_code) (as_i64 clock)
          default_allowed_skew_ms app.nonce_cache app.trusted_peers app.trust_on_first_use in
      let app' : App C N = record app { nonce_cache = checked.1; trusted_peers = checked.2 } in
      if_cases (λ (x : Outcome × Node W). Opens peer request.session_id app x)
        (not (unwrap_or (map_option major_of request.version) 0 == protocol_major))
        (λ mismatch. absurd (ground arith))
        (λ match.
          subst
            (λ verdict.
              Opens peer request.session_id app
                (answer_verdict W verdict peer request id channel (app', w')))
            (sym accepts) (Opens-verdict v peer request id channel app' w' delivers signs))

  -- A session request of the protocol's major version that the node, at the time it reads first, verifies is
  -- answered without an error, and its session is the active one of the peer that sent it, whatever session
  -- the peer had; all others stay. The node's key must sign and the answer be delivered.
  pub verified_request_opens :
      (peer : C.PeerId) (bytes : Bytes) (channel : W.Channel) (app : App C N) (w : W.State)
      (envelope : ControlEnvelope) (request : SessionRequest) (v : VerifiedSessionPeer C)
      → W.decode_envelope bytes ≡ some envelope
      → envelope.message ≡ some (Messages.session_request request)
      → unwrap_or (map_option major_of request.version) 0 ≡ protocol_major
      → node_verdict W request peer app (W.unix_ms w).0 ≡ ok v
      → Delivers channel
      → Signs app
      → let (outcome, (app', w')) = handle_control_request W peer bytes channel (app, w) in
        (outcome ≡ ok tt)
        × (app'.active_sessions ≡ Dict.insert peer request.session_id app.active_sessions)
  unfolding handle_control_request answer_envelope answer_message
  verified_request_opens peer bytes channel app w envelope request v decodes carries major accepts
        delivers signs =
      subst (λ o. Opens peer request.session_id app (answer_envelope W o peer channel (app, w)))
        (sym decodes)
        (subst
          (λ m.
            Opens peer request.session_id app
              (answer_message W m peer envelope.request_id channel (app, w)))
          (sym carries)
          (Opens-request v peer request envelope.request_id channel app w major accepts delivers
            signs))
