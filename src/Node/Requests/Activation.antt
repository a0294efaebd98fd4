-- ===== src/Node/Requests/Activation.antt =====
-- Which sessions a received control request can open.
use aether_link.Base.{
  ℕ, ◌≡◌, refl, sym, subst, not, ◌==◌, nat_eq, ◌⊎◌, inl, inr, String, Eq, Option, none, some, List,
  [], ◌∷◌, Result, ok, err, if_both,
}
use aether_link.Base.Dict
use aether_link.Base.Dict.{Dict}
use aether_link.Base.Int.{ℤ, as_i64}
use aether_link.Base.Sets.{unwrap_or, map_option}
use aether_link.Messages.{
  Bytes, SessionRequest, SessionAccept, ControlEnvelope, ControlMessage, NetworkCandidate,
}
use aether_link.Messages
use aether_link.Security.Crypto.{Crypto}
use aether_link.Security.Errors.{SessionAuthError}
use aether_link.Security.Verify.{
  Verdict, VerifiedSessionPeer, default_allowed_skew_ms, sign_session_accept,
  verify_session_request,
}
use aether_link.Security.Verify.Signing.{session_id-sign_session_accept}
use aether_link.Node.State.{Net, App}
use aether_link.Node.Sessions.{
  mark_graceful_closing, clear_active_session, set_active_session, on_accept, on_auth_failed,
  notify,
}
use aether_link.Node.World.{World}
use aether_link.Node.Control.{Outcome, Node, protocol_major, send_control}
use aether_link.Node.Control.Activity.{
  OpensOnly, OpensOnly-same, OpensOnly-erase, OpensOnly-insert, OpensOnly-weaken, active,
}
use aether_link.Node.Requests.{
  announce, send_candidate_announcement, send_punch_sync, on_session_activated, activate,
  activate_if, respond_in, send_accept, answer_verdict, answer_session_request, answer_ping,
  answer_message, answer_envelope, handle_control_request, unsigned_session_accept, major_of,
}

module _ {C : Crypto} {N : Net} (W : World C N) ⦃e : Eq C.PeerId⦄ ⦃r : Eq N.OutboundRequestId⦄
    ⦃a : Eq N.Multiaddr⦄ where
  active-announce :
      (peer : C.PeerId) (session : String) (cs : List NetworkCandidate) (node : Node W)
      → active W (announce W peer session cs node) ≡ active W node
  unfolding announce send_control
  active-announce peer session [] node = refl
  active-announce peer session (c ∷ cs) (app, w) = refl

  pub active-on_session_activated :
      (peer : C.PeerId) (session : String) (node : Node W)
      → active W (on_session_activated W peer session node) ≡ active W node
  unfolding on_session_activated send_punch_sync send_candidate_announcement send_control
  active-on_session_activated peer session (app, w) = active-announce peer session _ _

  pub active-activate :
      (peer : C.PeerId) (session : String) (node : Node W)
      → active W (activate W peer session node) ≡ Dict.insert peer session (active W node)
  unfolding activate on_accept set_active_session notify
  active-activate peer session (app, w) = active-on_session_activated peer session _

  -- What the answer to an accepted request leaves.
  abbrev Answered : C.PeerId → String → Dict C.PeerId String → Dict C.PeerId String → Type 0
  Answered peer session d d' = (d' ≡ d) ⊎ (d' ≡ Dict.insert peer session d)

  Answered-if :
      (o : Outcome × W.State) (peer : C.PeerId) (session : String) (app : App C N)
      → Answered peer session app.active_sessions (active W (activate_if W o peer session app).1)
  unfolding activate_if
  Answered-if (ok u, w) peer session app = inr (active-activate peer session (app, w))
  Answered-if (err x, w) peer session app = inl refl

  Answered-send :
      (s : Result SessionAuthError (Unit {0}) × SessionAccept) (peer : C.PeerId) (id : String)
      (channel : W.Channel) (node : Node W)
      → Answered peer s.1.session_id
          (active W node)
          (active W (send_accept W s peer id channel node).1)
  unfolding send_accept
  Answered-send (err x, accept) peer id channel (app, w) = inl refl
  Answered-send (ok u, accept) peer id channel (app, w) = Answered-if _ peer accept.session_id app

  Answered-accept :
      (app : App C N) (request : SessionRequest) (peer : C.PeerId) (id : String)
      (channel : W.Channel) (nonce : Bytes) (now : ℤ) (w : W.State)
      → Answered peer request.session_id app.active_sessions (
          active W
            (send_accept W
              (sign_session_accept C
                (unsigned_session_accept W app request nonce now)
                app.local_key)
              peer
              id
              channel
              (app, w)).1)
  unfolding unsigned_session_accept
  Answered-accept app request peer id channel nonce now w =
      subst
        (λ s. Answered peer s app.active_sessions (
          active W
            (send_accept W
              (sign_session_accept C (unsigned_session_accept W app request nonce now)
                app.local_key)
              peer id channel (app, w)).1))
        (session_id-sign_session_accept C (unsigned_session_accept W app request nonce now)
          app.local_key)
        (Answered-send
          (sign_session_accept C (unsigned_session_accept W app request nonce now) app.local_key)
          peer id channel (app, w))

  Answered-opens :
      (peer : C.PeerId) (session : String) (Allowed : String → Type 0) (d d' : Dict C.PeerId String)
      → Allowed session
      → Answered peer session d d'
      → OpensOnly peer Allowed d d'
  Answered-opens peer session Allowed d d' allowed (inl same) =
      OpensOnly-same peer Allowed d d' same
  Answered-opens peer session Allowed d d' allowed (inr added) =
      subst (OpensOnly peer Allowed d) (sym added) (OpensOnly-insert peer Allowed session d allowed)

  -- The verdict is an acceptance, and the session is the request's.
  abbrev AcceptedAs : Verdict C → SessionRequest → String → Type 0
  AcceptedAs verdict request s =
      (v : VerifiedSessionPeer C) × (verdict ≡ ok v) × (request.session_id ≡ s)

  verdict_opens :
      (verdict : Verdict C) (peer : C.PeerId) (request : SessionRequest) (id : String)
      (channel : W.Channel) (node : Node W)
      → OpensOnly peer
          (AcceptedAs verdict request)
          (active W node)
          (active W (answer_verdict W verdict peer request id channel node).1)
  unfolding answer_verdict respond_in on_auth_failed notify
  verdict_opens (err x) peer request id channel (app, w) =
      OpensOnly-same peer _ app.active_sessions _ refl
  verdict_opens (ok v) peer request id channel (app, w) =
      Answered-opens peer request.session_id (AcceptedAs (ok v) request) app.active_sessions _
        (v, refl, refl) (Answered-accept app request peer id channel _ _ _)

  -- `verify_session_request` as the node calls it.
  abbrev pub node_verdict : SessionRequest → C.PeerId → App C N → ℕ → Verdict C
  node_verdict request peer app now =
      (verify_session_request C request (some peer) (some app.local_device_code) (as_i64 now)
        default_allowed_skew_ms app.nonce_cache app.trusted_peers app.trust_on_first_use).0

  -- Some time's check of the request has accepted it.
  abbrev AcceptedRequest : SessionRequest → C.PeerId → App C N → String → Type 0
  AcceptedRequest request peer app s =
      (now : ℕ) × AcceptedAs (node_verdict request peer app now) request s

  request_opens :
      (peer : C.PeerId) (request : SessionRequest) (id : String) (channel : W.Channel)
      (app : App C N) (w : W.State)
      → OpensOnly peer
          (AcceptedRequest request peer app)
          app.active_sessions
          (active W (answer_session_request W peer request id channel (app, w)).1)
  unfolding answer_session_request respond_in
  request_opens peer request id channel app w =
      if_both
        (λ (x : Outcome × Node W).
          OpensOnly peer (AcceptedRequest request peer app) app.active_sessions (active W x.1))
        (not (unwrap_or (map_option major_of request.version) 0 == protocol_major))
        (OpensOnly-same peer _ app.active_sessions _ refl)
        (OpensOnly-weaken peer _ (AcceptedRequest request peer app) app.active_sessions _
          (λ s allowed. ((W.unix_ms w).0, allowed))
          (verdict_opens (node_verdict request peer app (W.unix_ms w).0) peer request id channel _))

  -- The bytes decode to a session request for this session that the check accepts.
  pub record Opened (bytes : Bytes) (peer : C.PeerId) (app : App C N) (session : String)
      : Type 0 where
    pub envelope : ControlEnvelope
    pub request : SessionRequest
    pub now : ℕ
    pub verdict : VerifiedSessionPeer C
    pub decodes : W.decode_envelope bytes ≡ some envelope
    pub carries : envelope.message ≡ some (Messages.session_request request)
    pub accepts : node_verdict request peer app now ≡ ok verdict
    pub names : request.session_id ≡ session

  abbrev MessageOpened : Option ControlMessage → C.PeerId → App C N → String → Type 0
  MessageOpened m peer app s =
      (request : SessionRequest) × (m ≡ some (Messages.session_request request))
      × AcceptedRequest request peer app s

  message_opens :
      (m : Option ControlMessage) (peer : C.PeerId) (id : String) (channel : W.Channel)
      (app : App C N) (w : W.State)
      → OpensOnly peer
          (MessageOpened m peer app)
          app.active_sessions
          (active W (answer_message W m peer id channel (app, w)).1)
  unfolding answer_message answer_ping respond_in mark_graceful_closing clear_active_session
  message_opens none peer id channel app w = OpensOnly-same peer _ app.active_sessions _ refl
  message_opens (some (Messages.session_request request)) peer id channel app w =
      OpensOnly-weaken peer (AcceptedRequest request peer app)
        (MessageOpened (some (Messages.session_request request)) peer app) app.active_sessions _
        (λ s allowed. (request, refl, allowed)) (request_opens peer request id channel app w)
  message_opens (some (Messages.session_accept x)) peer id channel app w =
      OpensOnly-same peer _ app.active_sessions _ refl
  message_opens (some (Messages.session_reject x)) peer id channel app w =
      OpensOnly-same peer _ app.active_sessions _ refl
  message_opens (some (Messages.session_close x)) peer id channel app w =
      OpensOnly-erase peer _ app.active_sessions
  message_opens (some (Messages.candidate_announcement x)) peer id channel app w =
      OpensOnly-same peer _ app.active_sessions _ refl
  message_opens (some (Messages.punch_sync x)) peer id channel app w =
      OpensOnly-same peer _ app.active_sessions _ refl
  message_opens (some (Messages.ping x)) peer id channel app w =
      OpensOnly-same peer _ app.active_sessions _ refl
  message_opens (some (Messages.pong x)) peer id channel app w =
      OpensOnly-same peer _ app.active_sessions _ refl
  message_opens (some (Messages.other_message t x)) peer id channel app w =
      OpensOnly-same peer _ app.active_sessions _ refl

  envelope_opens :
      (o : Option ControlEnvelope) (bytes : Bytes) (peer : C.PeerId) (channel : W.Channel)
      (app : App C N) (w : W.State)
      → W.decode_envelope bytes ≡ o
      → OpensOnly peer
          (Opened bytes peer app)
          app.active_sessions
          (active W (answer_envelope W o peer channel (app, w)).1)
  unfolding answer_envelope
  envelope_opens none bytes peer channel app w e = OpensOnly-same peer _ app.active_sessions _ refl
  envelope_opens (some envelope) bytes peer channel app w e =
      OpensOnly-weaken peer (MessageOpened envelope.message peer app) (Opened bytes peer app)
        app.active_sessions _
        (λ s (request, carries, (now, (v, accepts, names))). record {
          envelope = envelope;
          request = request;
          now = now;
          verdict = v;
          decodes = e;
          carries = carries;
          accepts = accepts;
          names = names;
        })
        (message_opens envelope.message peer envelope.request_id channel app w)

  pub request_opens_verified_session :
      (peer : C.PeerId) (bytes : Bytes) (channel : W.Channel) (node : Node W) (j : C.PeerId)
      (session : String)
      → let (app, w) = node in
        let (app', w') = (handle_control_request W peer bytes channel node).1 in
        Dict.lookup j app'.active_sessions ≡ some session
        → (Dict.lookup j app.active_sessions ≡ some session)
          ⊎ ((j ≡ peer) × Opened bytes peer app session)
  unfolding handle_control_request
  request_opens_verified_session peer bytes channel (app, w) j session h =
      envelope_opens (W.decode_envelope bytes) bytes peer channel app w refl j session h
