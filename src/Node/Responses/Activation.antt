-- ===== src/Node/Responses/Activation.antt =====
-- Which sessions an answer to the node's request can open.
use aether_link.Base.{
  ℕ, ◌≡◌, refl, ◌∙◌, sym, ap, subst, not, ◌==◌, nat_eq, list_eq, ◌⊎◌, true, String, Eq, contains,
  Option, none, some, is_empty, ok, err, if_both, if_cases, not-false,
}
use aether_link.Base.Dict
use aether_link.Base.Dict.{Dict}
use aether_link.Base.Int.{ℤ, as_i64}
use aether_link.Messages.{Bytes, SessionAccept, ControlEnvelope, ControlMessage, ControlPong}
use aether_link.Messages
use aether_link.Security.Crypto.{Crypto}
use aether_link.Security.Verify.{
  Verdict, VerifiedSessionPeer, default_allowed_skew_ms, verify_session_accept,
}
use aether_link.Node.State.{Net, App, PendingOutboundSession, OutboundControlRequestKind}
use aether_link.Node.State
use aether_link.Node.Sessions.{mark_graceful_closing, clear_active_session, on_auth_failed, notify}
use aether_link.Node.Keepalive.{note_control_pong}
use aether_link.Node.Keepalive.Frame.{note_control_pong_frame}
use aether_link.Node.World.{World}
use aether_link.Node.Control.{Node}
use aether_link.Node.Control.Activity.{
  OpensOnly, OpensOnly-same, OpensOnly-erase, OpensOnly-insert, OpensOnly-weaken, active,
}
use aether_link.Node.Requests.Activation.{active-activate}
use aether_link.Node.Responses.{
  finish_accept, check_pending, accept_pending, without_pending, note_pong_at, receive_pong,
  receive_ack, receive_message, receive_envelope, without_request, handle_control_response,
}

module _ {C : Crypto} {N : Net} (W : World C N) ⦃e : Eq C.PeerId⦄ ⦃r : Eq N.OutboundRequestId⦄
    ⦃a : Eq N.Multiaddr⦄ where
  -- `verify_session_accept` as the node calls it.
  abbrev pub node_accept_verdict :
      SessionAccept → PendingOutboundSession → C.PeerId → App C N → ℕ → Verdict C
  node_accept_verdict accept pending peer app now =
      (verify_session_accept C accept (some peer) (some pending.session_id) none (as_i64 now)
        default_allowed_skew_ms app.nonce_cache app.trusted_peers app.trust_on_first_use).0

  finish_opens :
      (verdict : Verdict C) (peer : C.PeerId) (accept : SessionAccept) (app : App C N) (w : W.State)
      → OpensOnly peer
          (λ s. (v : VerifiedSessionPeer C) × (verdict ≡ ok v) × (accept.session_id ≡ s))
          app.active_sessions
          (active W (finish_accept W verdict peer accept (app, w)))
  unfolding finish_accept on_auth_failed notify
  finish_opens (err x) peer accept app w = OpensOnly-same peer _ app.active_sessions _ refl
  finish_opens (ok v) peer accept app w =
      subst (OpensOnly peer _ app.active_sessions)
        (sym (active-activate W peer accept.session_id _))
        (OpensOnly-insert peer _ accept.session_id app.active_sessions (v, refl, refl))

  -- An answer that a pending request waits for and that the check accepts at some time.
  pub record Awaited (accept : SessionAccept) (pending : PendingOutboundSession) (peer : C.PeerId)
      (app : App C N) (session : String) : Type 0 where
    pub answers : contains pending.request_nonces accept.request_nonce ≡ true
    pub now : ℕ
    pub verdict : VerifiedSessionPeer C
    pub accepts : node_accept_verdict accept pending peer app now ≡ ok verdict
    pub names : accept.session_id ≡ session

  check_opens :
      (pending : PendingOutboundSession) (peer : C.PeerId) (accept : SessionAccept) (app : App C N)
      (w : W.State)
      → OpensOnly peer
          (Awaited accept pending peer app)
          app.active_sessions
          (active W (check_pending W pending peer accept (app, w)))
  unfolding check_pending on_auth_failed notify
  check_opens pending peer accept app w =
      let Opens : Node W → Type 0 = λ node.
        OpensOnly peer (Awaited accept pending peer app) app.active_sessions (active W node) in
      if_both Opens (is_empty accept.request_nonce)
        (OpensOnly-same peer _ app.active_sessions _ refl)
        (if_cases Opens (not (contains pending.request_nonces accept.request_nonce))
          (λ unknown. OpensOnly-same peer _ app.active_sessions _ refl)
          (λ known.
            OpensOnly-weaken peer _ (Awaited accept pending peer app) app.active_sessions _
              (λ s (v, accepts, names). record {
                answers = not-false _ known;
                now = (W.unix_ms w).0;
                verdict = v;
                accepts = accepts;
                names = names;
              })
              (finish_opens (node_accept_verdict accept pending peer app (W.unix_ms w).0) peer
                accept _ _)))

  -- The answer is to a session request that the node waits for.
  abbrev AcceptOpened : SessionAccept → C.PeerId → App C N → String → Type 0
  AcceptOpened accept peer app s =
      (pending : PendingOutboundSession) × (Dict.lookup peer app.pending_outbound_sessions
        ≡ some pending)
      × Awaited accept pending peer app s

  accept_opens :
      (o : Option PendingOutboundSession) (peer : C.PeerId) (accept : SessionAccept) (app : App C N)
      (w : W.State)
      → Dict.lookup peer app.pending_outbound_sessions ≡ o
      → OpensOnly peer
          (AcceptOpened accept peer app)
          app.active_sessions
          (active W (accept_pending W o peer accept (without_pending W peer app, w)))
  unfolding accept_pending on_auth_failed notify
  accept_opens none peer accept app w h = OpensOnly-same peer _ app.active_sessions _ refl
  accept_opens (some pending) peer accept app w h =
      OpensOnly-weaken peer (Awaited accept pending peer (without_pending W peer app))
        (AcceptOpened accept peer app) app.active_sessions _
        (λ s x. (
          pending,
          h,
          record {
            answers = x.answers;
            now = x.now;
            verdict = x.verdict;
            accepts = x.accepts;
            names = x.names;
          },
        ))
        (check_opens pending peer accept (without_pending W peer app) w)

  active-note_pong_at :
      (x : Option ℤ × App C N) (w w' : W.State)
      → active W (note_pong_at W x w w') ≡ x.1.active_sessions
  unfolding note_pong_at
  active-note_pong_at (none, app) w w' = refl
  active-note_pong_at (some rtt, app) w w' = refl

  active-receive_pong :
      (kind : Option OutboundControlRequestKind) (peer : C.PeerId) (pong : ControlPong)
      (app : App C N) (w : W.State)
      → active W (receive_pong W kind peer pong (app, w)) ≡ app.active_sessions
  unfolding receive_pong
  active-receive_pong (some (State.keepalive_ping seq)) peer pong app w =
      let now = (W.unix_ms w).0 in
      if_both (λ (node : Node W). active W node ≡ app.active_sessions) (seq == pong.seq)
        (active-note_pong_at (note_control_pong peer pong now app) w _
          ∙ ap (λ x. x.active_sessions) (note_control_pong_frame peer pong now app))
        refl
  active-receive_pong none peer pong app w = refl
  active-receive_pong (some State.session_request) peer pong app w = refl
  active-receive_pong (some State.session_close) peer pong app w = refl
  active-receive_pong (some State.candidate_announcement) peer pong app w = refl
  active-receive_pong (some State.punch_sync) peer pong app w = refl

  active-receive_ack :
      (kind : Option OutboundControlRequestKind) (peer : C.PeerId) (app : App C N) (w : W.State)
      → active W (receive_ack W kind peer (app, w)) ≡ app.active_sessions
  unfolding receive_ack
  active-receive_ack none peer app w = refl
  active-receive_ack (some (State.keepalive_ping seq)) peer app w = refl
  active-receive_ack (some State.session_request) peer app w = refl
  active-receive_ack (some State.session_close) peer app w = refl
  active-receive_ack (some State.candidate_announcement) peer app w = refl
  active-receive_ack (some State.punch_sync) peer app w = refl

  abbrev MessageOpened : Option ControlMessage → C.PeerId → App C N → String → Type 0
  MessageOpened m peer app s =
      (accept : SessionAccept) × (m ≡ some (Messages.session_accept accept))
      × AcceptOpened accept peer app s

  message_opens :
      (m : Option ControlMessage) (kind : Option OutboundControlRequestKind) (peer : C.PeerId)
      (app : App C N) (w : W.State)
      → OpensOnly peer
          (MessageOpened m peer app)
          app.active_sessions
          (active W (receive_message W m kind peer (app, w)))
  unfolding receive_message on_auth_failed notify mark_graceful_closing clear_active_session
  message_opens none kind peer app w =
      OpensOnly-same peer _ app.active_sessions _ (active-receive_ack kind peer app w)
  message_opens (some (Messages.session_accept accept)) kind peer app w =
      OpensOnly-weaken peer (AcceptOpened accept peer app)
        (MessageOpened (some (Messages.session_accept accept)) peer app) app.active_sessions _
        (λ s x. (accept, refl, x)) (accept_opens _ peer accept app w refl)
  message_opens (some (Messages.session_reject x)) kind peer app w =
      OpensOnly-same peer _ app.active_sessions _ refl
  message_opens (some (Messages.session_close x)) kind peer app w =
      OpensOnly-erase peer _ app.active_sessions
  message_opens (some (Messages.pong pong)) kind peer app w =
      OpensOnly-same peer _ app.active_sessions _ (active-receive_pong kind peer pong app w)
  message_opens (some (Messages.session_request x)) kind peer app w =
      OpensOnly-same peer _ app.active_sessions _ refl
  message_opens (some (Messages.candidate_announcement x)) kind peer app w =
      OpensOnly-same peer _ app.active_sessions _ refl
  message_opens (some (Messages.punch_sync x)) kind peer app w =
      OpensOnly-same peer _ app.active_sessions _ refl
  message_opens (some (Messages.ping x)) kind peer app w =
      OpensOnly-same peer _ app.active_sessions _ refl
  message_opens (some (Messages.other_message t x)) kind peer app w =
      OpensOnly-same peer _ app.active_sessions _ refl

  -- The bytes decode to an acceptance of a request that the node has pending with this peer: it repeats a
  -- nonce of one of the attempts and names the pending session, and the check accepts it.
  pub record OpenedBy (bytes : Bytes) (peer : C.PeerId) (app : App C N) (session : String)
      : Type 0 where
    pub envelope : ControlEnvelope
    pub accept : SessionAccept
    pub pending : PendingOutboundSession
    pub now : ℕ
    pub verdict : VerifiedSessionPeer C
    pub decodes : W.decode_envelope bytes ≡ some envelope
    pub carries : envelope.message ≡ some (Messages.session_accept accept)
    pub waits : Dict.lookup peer app.pending_outbound_sessions ≡ some pending
    pub answers : contains pending.request_nonces accept.request_nonce ≡ true
    pub accepts : node_accept_verdict accept pending peer app now ≡ ok verdict
    pub names : accept.session_id ≡ session

  envelope_opens :
      (o : Option ControlEnvelope) (bytes : Bytes) (kind : Option OutboundControlRequestKind)
      (peer : C.PeerId) (id : N.OutboundRequestId) (app : App C N) (w : W.State)
      → W.decode_envelope bytes ≡ o
      → OpensOnly peer
          (OpenedBy bytes peer app)
          app.active_sessions
          (active W (receive_envelope W o kind peer (without_request W id app, w)).1)
  unfolding receive_envelope
  envelope_opens none bytes kind peer id app w h = OpensOnly-same peer _ app.active_sessions _ refl
  envelope_opens (some envelope) bytes kind peer id app w h =
      OpensOnly-weaken peer (MessageOpened envelope.message peer (without_request W id app))
        (OpenedBy bytes peer app) app.active_sessions _
        (λ s (accept, carries, (pending, waits, x)). record {
          envelope = envelope;
          accept = accept;
          pending = pending;
          now = x.now;
          verdict = x.verdict;
          decodes = h;
          carries = carries;
          waits = waits;
          answers = x.answers;
          accepts = x.accepts;
          names = x.names;
        })
        (message_opens envelope.message kind peer (without_request W id app) w)

  -- An answer to a control request opens no session but one of the peer that sent it, and only if it decodes
  -- to an acceptance that repeats a nonce of the session request that is pending with this peer and that
  -- `verify_session_accept` accepts for the pending session; every other active session was active before.
  pub response_opens_awaited_session :
      (peer : C.PeerId) (id : N.OutboundRequestId) (bytes : Bytes) (node : Node W) (j : C.PeerId)
      (session : String)
      → let (app, w) = node in
        let (app', w') = (handle_control_response W peer id bytes node).1 in
        Dict.lookup j app'.active_sessions ≡ some session
        → (Dict.lookup j app.active_sessions ≡ some session)
          ⊎ ((j ≡ peer) × OpenedBy bytes peer app session)
  unfolding handle_control_response
  response_opens_awaited_session peer id bytes (app, w) j session h =
      envelope_opens (W.decode_envelope bytes) bytes _ peer id app w refl j session h
