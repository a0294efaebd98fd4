-- ===== src/Node/Ticks/Attempts.antt =====
-- The attempts that the node of apps/aetherlink-node/src/main.rs counts for a pending session.
use aether_link.Base.{
  ℕ, ◌≤◌, ◌<◌, ◌≡◌, sym, subst, inl, inr, true, false, ◌==◌, Eq, some, List, [], ◌∷◌, if_cases,
  arith, All,
}
use aether_link.Base.Dict
use aether_link.Base.Dict.{
  Dict, NodupKeys, lookup-insert, lookup-cons, lookup-erase, contains_key-lookup, insert-NodupKeys,
  erase-NodupKeys,
}
use aether_link.Base.Int.{as_i64}
use aether_link.Security.Crypto.{Crypto}
use aether_link.Node.State.{Net, App, PendingOutboundSession}
use aether_link.Node.Sessions.{on_auth_failed, notify, on_connected, should_send_session_request}
use aether_link.Node.Schedule.{collect_pending_retry_actions}
use aether_link.Node.Schedule.Ready.{HasLeft, Ready, Ready-retry}
use aether_link.Node.World.{World}
use aether_link.Node.Control.{Node, send_session_request}
use aether_link.Node.Control.Attempts.{Sent, Sent-send_session_request}
use aether_link.Node.Ticks.{
  retry_all, give_up_all, handle_pending_session_timeouts, connection_established,
}

module _ {P : Type 0} ⦃e : Eq P⦄ where
  -- No pending session counts more attempts than the limit.
  abbrev pub IsWithin : ℕ → Dict P PendingOutboundSession → Type 0
  IsWithin limit d =
      (j : P) (p : PendingOutboundSession) → Dict.lookup j d ≡ some p → p.attempts ≤ limit

  pub IsWithin-insert :
      (limit : ℕ) (d : Dict P PendingOutboundSession) (k : P) (p : PendingOutboundSession)
      → IsWithin limit d
      → p.attempts ≤ limit
      → IsWithin limit (Dict.insert k p d)
  IsWithin-insert limit d k p h le j q at = ground (arith, lookup-insert j k p d, h j q)

  IsWithin-Sent :
      (limit : ℕ) (k : P) (d d' : Dict P PendingOutboundSession)
      → Sent limit k d d'
      → IsWithin limit d
      → IsWithin limit d'
  IsWithin-Sent limit k d d' (inl same) h = subst (IsWithin limit) (sym same) h
  IsWithin-Sent limit k d d' (inr (p, eq, le)) h =
      subst (IsWithin limit) (sym eq) (IsWithin-insert limit d k p h le)

  pub IsWithin-erase :
      (limit : ℕ) (k : P) (d : Dict P PendingOutboundSession)
      → IsWithin limit d
      → IsWithin limit (Dict.erase k d)
  IsWithin-erase limit k d h j q at = ground (arith, lookup-erase j k d, h j q)

  -- Another peer's session is not touched.
  HasLeft-Sent :
      (limit : ℕ) (k j : P) (d d' : Dict P PendingOutboundSession)
      → Sent limit k d d'
      → (j == k) ≡ false
      → HasLeft limit (Dict.lookup j d)
      → HasLeft limit (Dict.lookup j d')
  HasLeft-Sent limit k j d d' (inl same) ne h q at = h q (cc (same, at))
  HasLeft-Sent limit k j d d' (inr (p, eq, le)) ne h q at =
      h q (ground (arith, eq, lookup-insert j k p d))

  pub Ready-Sent :
      (limit : ℕ) (k : P) (d d' : Dict P PendingOutboundSession) (ps : List P)
      → Sent limit k d d'
      → All (λ j. (j == k) ≡ false) ps
      → Ready limit d ps
      → Ready limit d' ps
  unfolding Ready
  Ready-Sent limit k d d' [] s apart h = tt
  Ready-Sent limit k d d' (p ∷ ps) s (ne, apart) (left, others, h) =
      (HasLeft-Sent limit k p d d' s ne left, others, Ready-Sent limit k d d' ps s apart h)

  NodupKeys-Sent :
      (limit : ℕ) (k : P) (d d' : Dict P PendingOutboundSession)
      → Sent limit k d d'
      → NodupKeys d
      → NodupKeys d'
  NodupKeys-Sent limit k d d' (inl same) u = subst (λ x. NodupKeys x) (sym same) u
  NodupKeys-Sent limit k d d' (inr (p, eq, le)) u =
      subst (λ x. NodupKeys x) (sym eq) (insert-NodupKeys k p d u)

module _ {C : Crypto} {N : Net} ⦃e : Eq C.PeerId⦄ where
  -- The limit of attempts is not zero, no peer has two pending sessions and none is beyond the limit.
  pub record IsLimited (app : App C N) : Type 0 where
    pub allowed : 0 < app.session_request_max_attempts
    pub single : NodupKeys app.pending_outbound_sessions
    pub within : IsWithin app.session_request_max_attempts app.pending_outbound_sessions

  IsLimited-Sent :
      (peer : C.PeerId) (app app' : App C N)
      → Sent app.session_request_max_attempts peer app.pending_outbound_sessions
          app'.pending_outbound_sessions
        × (app'.session_request_max_attempts ≡ app.session_request_max_attempts)
      → IsLimited app
      → IsLimited app'
  IsLimited-Sent peer app app' (s, same) l = record {
    allowed = subst (λ m. 0 < m) (sym same) l.allowed;
    single = NodupKeys-Sent _ peer _ _ s l.single;
    within =
        subst (λ m. IsWithin m app'.pending_outbound_sessions) (sym same)
          (IsWithin-Sent _ peer _ _ s l.within);
  }

  IsLimited-give_up_all :
      (peers : List C.PeerId) (app : App C N) → IsLimited app → IsLimited (give_up_all peers app)
  unfolding give_up_all on_auth_failed notify
  IsLimited-give_up_all [] app l = l
  IsLimited-give_up_all (peer ∷ peers) app l = IsLimited-give_up_all peers _ (record {
    allowed = l.allowed;
    single = erase-NodupKeys peer app.pending_outbound_sessions l.single;
    within =
        IsWithin-erase app.session_request_max_attempts peer app.pending_outbound_sessions l.within;
  })

module _ {C : Crypto} {N : Net} (W : World C N) ⦃e : Eq C.PeerId⦄ ⦃r : Eq N.OutboundRequestId⦄ where
  IsLimited-retry_all :
      (peers : List C.PeerId) (app : App C N) (w : W.State)
      → Ready app.session_request_max_attempts app.pending_outbound_sessions peers
      → IsLimited app
      → IsLimited (retry_all W peers (app, w)).0
  unfolding retry_all Ready
  IsLimited-retry_all [] app w h l = l
  IsLimited-retry_all (peer ∷ peers) app w (left, apart, h) l =
      let sent = Sent-send_session_request W peer app w l.allowed left in
      let node = (send_session_request W peer (app, w)).1 in
      let ready =
        Ready-Sent app.session_request_max_attempts peer app.pending_outbound_sessions
          node.0.pending_outbound_sessions peers sent.0 apart h in
      IsLimited-retry_all peers node.0 node.1
        (subst (λ m. Ready m node.0.pending_outbound_sessions peers) (sym sent.1) ready)
        (IsLimited-Sent peer app node.0 sent l)

  IsLimited-timeouts :
      (node : Node W) → IsLimited node.0 → IsLimited (handle_pending_session_timeouts W node).0
  unfolding handle_pending_session_timeouts
  IsLimited-timeouts (app, w) l =
      let now = as_i64 (W.unix_ms w).0 in
      let (retry, fail) = collect_pending_retry_actions app now in
      IsLimited-give_up_all fail _
        (IsLimited-retry_all retry app _ (Ready-retry app now l.single) l)

  -- A request is only sent on a new connection where none is pending.
  pub sends_first :
      (app : App C N) (peer : C.PeerId)
      → should_send_session_request app peer ≡ true
      → HasLeft app.session_request_max_attempts (Dict.lookup peer app.pending_outbound_sessions)
  unfolding should_send_session_request
  sends_first app peer h p at =
      absurd (ground (arith, contains_key-lookup peer app.pending_outbound_sessions))

  IsLimited-on_connected :
      (peer : C.PeerId) (app : App C N) → IsLimited app → IsLimited (on_connected peer app)
  unfolding on_connected
  IsLimited-on_connected peer app l = record {
    allowed = l.allowed;
    single = l.single;
    within = l.within;
  }

  IsLimited-connection :
      (peer : C.PeerId) (node : Node W)
      → IsLimited node.0
      → IsLimited (connection_established W peer node).0
  unfolding connection_established
  IsLimited-connection peer (app, w) l =
      let l' = IsLimited-on_connected peer app l in
      if_cases (λ (node : Node W). IsLimited node.0)
        (should_send_session_request (on_connected peer app) peer)
        (λ send.
          IsLimited-Sent peer (on_connected peer app) _
            (Sent-send_session_request W peer (on_connected peer app) w l'.allowed
              (sends_first _ peer send))
            l')
        (λ no_send. l')

  -- With a limit of at least one attempt, no peer pending twice and no pending session counting more
  -- attempts than the limit, it is so again after the tick that retries and gives up, and after a new
  -- connection to any peer.
  attempts_within_limit :
      (node : Node W)
      → IsLimited node.0
      → IsLimited (handle_pending_session_timeouts W node).0
        × ((peer : C.PeerId) → IsLimited (connection_established W peer node).0)
  attempts_within_limit node l =
      (IsLimited-timeouts node l, λ peer. IsLimited-connection peer node l)
