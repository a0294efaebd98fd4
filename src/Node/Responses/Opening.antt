-- ===== src/Node/Responses/Opening.antt =====
-- An answer that the node waits for and verifies opens its session.
use aether_link.Base.{
  ◌≡◌, refl, sym, subst, true, false, not, list_eq, nat_eq, String, Eq, none, some, contains,
  is_empty, ok, if_cases, arith,
}
use aether_link.Base.Dict
use aether_link.Base.Int.{as_i64}
use aether_link.Messages.{Bytes, SessionAccept}
use aether_link.Security.Crypto.{Crypto}
use aether_link.Security.Verify.{
  VerifiedSessionPeer, default_allowed_skew_ms, verify_session_accept,
}
use aether_link.Node.State.{Net, App, PendingOutboundSession}
use aether_link.Node.World.{World}
use aether_link.Node.Control.{Outcome, Node}
use aether_link.Node.Control.Activity.{active}
use aether_link.Node.Requests.Activation.{active-activate}
use aether_link.Node.Responses.{
  finish_accept, check_pending, accept_pending, without_pending, receive_message, receive_envelope,
  without_request, handle_control_response,
}
use aether_link.Node.Responses.Activation.{node_accept_verdict, OpenedBy}

module _ {C : Crypto} {N : Net} (W : World C N) ⦃e : Eq C.PeerId⦄ ⦃r : Eq N.OutboundRequestId⦄
    ⦃a : Eq N.Multiaddr⦄ where
  -- The peer's active session is this one.
  abbrev Opens : C.PeerId → String → App C N → Node W → Type 0
  Opens peer session app node = active W node ≡ Dict.insert peer session app.active_sessions

  Opens-check_pending :
      (pending : PendingOutboundSession) (peer : C.PeerId) (accept : SessionAccept) (app : App C N)
      (w : W.State) (v : VerifiedSessionPeer C)
      → is_empty accept.request_nonce ≡ false
      → contains pending.request_nonces accept.request_nonce ≡ true
      → node_accept_verdict W accept pending peer app (W.unix_ms w).0 ≡ ok v
      → Opens peer accept.session_id app (check_pending W pending peer accept (app, w))
  unfolding check_pending finish_accept
  Opens-check_pending pending peer accept app w v some_nonce answers accepts =
      let (clock, w') = W.unix_ms w in
      let checked =
        verify_session_accept C accept (some peer) (some pending.session_id) none (as_i64 clock)
          default_allowed_skew_ms app.nonce_cache app.trusted_peers app.trust_on_first_use in
      let app' : App C N = record app { nonce_cache = checked.1; trusted_peers = checked.2 } in
      let P : Node W → Type 0 = λ x. Opens peer accept.session_id app x in
      if_cases P (is_empty accept.request_nonce) (λ h. absurd cc)
        (λ _.
          if_cases P (not (contains pending.request_nonces accept.request_nonce))
            (λ h. absurd (ground arith))
            (λ _.
              subst (λ verdict. P (finish_accept W verdict peer accept (app', w'))) (sym accepts)
                (active-activate W peer accept.session_id _)))

  -- An answer that the node waits for, that repeats a nonce of the pending request, which is not empty, and that
  -- the node, at the time it reads first, verifies is taken without an error, and its session is the active
  -- one of the peer that sent it, whatever session the peer had; all others stay.
  pub awaited_answer_opens :
      (peer : C.PeerId) (id : N.OutboundRequestId) (bytes : Bytes) (app : App C N) (w : W.State)
      (session : String) (o : OpenedBy W bytes peer app session)
      → o.now ≡ (W.unix_ms w).0
      → is_empty o.accept.request_nonce ≡ false
      → let (outcome, (app', w')) = handle_control_response W peer id bytes (app, w) in
        (outcome ≡ ok tt) × (app'.active_sessions ≡ Dict.insert peer session app.active_sessions)
  unfolding handle_control_response receive_envelope receive_message accept_pending
  awaited_answer_opens peer id bytes app w session o now some_nonce =
      let kind = Dict.lookup id app.pending_outbound_control_requests in
      let app' = without_request W id app in
      let P : Outcome × Node W → Type 0 =
        λ x. (x.0 ≡ ok tt) × (active W x.1 ≡ Dict.insert peer session app.active_sessions) in
      let accepts : node_accept_verdict W o.accept o.pending peer app (W.unix_ms w).0
          ≡ ok o.verdict =
        subst (λ n. node_accept_verdict W o.accept o.pending peer app n ≡ ok o.verdict) now
          o.accepts in
      subst (λ d. P (receive_envelope W d kind peer (app', w))) (sym o.decodes)
        (subst (λ m. P (ok tt, receive_message W m kind peer (app', w))) (sym o.carries)
          (subst (λ p. P (ok tt, accept_pending W p peer o.accept (without_pending W peer app', w)))
            (sym o.waits)
            (
              refl,
              subst
                  (λ s.
                    active W
                      (check_pending W o.pending peer o.accept (without_pending W peer app', w))
                    ≡ Dict.insert peer s app.active_sessions)
                  o.names
                  (Opens-check_pending o.pending peer o.accept (without_pending W peer app') w
                    o.verdict some_nonce o.answers accepts),
            )))
