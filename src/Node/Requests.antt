-- ===== src/Node/Requests.antt =====
-- The control requests that the node receives: `handle_control_request` of
-- apps/aetherlink-node/src/main.rs.
pub mod Activation
pub mod Opening
pub mod Moves
use aether_link.Base.{
  ℕ, ◌+◌, ◌%◌, ◌^◌, Bool, true, false, not, string_eq, nat_eq, String, ◌<>◌, Eq, ◌==◌, contains,
  Option, none, some, List, [], ◌∷◌, ◌++◌, map, if◌then◌else◌, Result, ok, err,
}
use aether_link.Base.Int.{ℤ, pos, as_i64, as_u64, add_i64}
use aether_link.Base.Sets.{unwrap_or, map_option}
use aether_link.Base.Show.{show_ℕ}
use aether_link.Base.Text.{is_empty_str}
use aether_link.Messages.{
  Bytes, ProtocolVersion, SessionRequest, SessionAccept, ControlEnvelope, ControlMessage,
  NetworkCandidate, ControlPing, PunchSync,
}
use aether_link.Messages
use aether_link.Security.Crypto.{Crypto}
use aether_link.Security.Errors.{
  SessionAuthError, invalid_target_device_code, untrusted_peer, trusted_peer_mismatch,
}
use aether_link.Security.Replay.{NonceReplayCache}
use aether_link.Security.Trust.{TrustedPeers, to_records}
use aether_link.Security.Verify.{
  Verdict, VerifiedSessionPeer, default_allowed_skew_ms, sign_session_accept,
  verify_session_request,
}
use aether_link.Node.State.{Net, App, PendingPunchAction}
use aether_link.Node.State
use aether_link.Node.Sessions.{
  mark_graceful_closing, clear_active_session, on_accept, on_auth_failed,
}
use aether_link.Node.World.{World}
use aether_link.Node.Control.{
  protocol_major, ControlFault, undecodable_envelope, unsigned_accept, closed_channel, Outcome,
  Node, own_identity, send_control,
}

-- `RejectReason::… as i32`
abbrev pub reject_auth_failed : ℕ
reject_auth_failed = 2

abbrev pub reject_version_mismatch : ℕ
reject_version_mismatch = 3

abbrev pub reject_policy_denied : ℕ
reject_policy_denied = 4

unfoldable pub map_auth_error_to_reject : SessionAuthError → ℕ
map_auth_error_to_reject (invalid_target_device_code expected got) = reject_policy_denied
map_auth_error_to_reject (untrusted_peer code) = reject_policy_denied
map_auth_error_to_reject (trusted_peer_mismatch code) = reject_policy_denied
map_auth_error_to_reject _ = reject_auth_failed

abbrev major_of : ProtocolVersion → ℕ
major_of v = v.major

-- `{:?}` of an `Option<u32>`
show_option : Option ℕ → String
show_option none = "None"
show_option (some n) = "Some(" <> (show_ℕ n <> ")")

module _ {C : Crypto} {N : Net} (W : World C N) where
  -- `send_response(..).map_err(..)`
  respond : W.Channel → ControlEnvelope → W.State → Outcome × W.State
  respond channel envelope w =
      let (delivered, w') = W.send_response channel (W.encode_envelope envelope) w in
      (if delivered then ok tt else err closed_channel, w')

  unfoldable pub send_session_reject :
      W.Channel → String → String → ℕ → String → W.State → Outcome × W.State
  unfolding respond
  send_session_reject channel request_id session_id reason detail w =
      let (now, w') = W.unix_ms w in
      respond channel
        (record {
          seq = now;
          request_id = request_id;
          message = some (
              Messages.session_reject
                (record { session_id = session_id; reason = reason; detail = detail }));
        })
        w'

  unfoldable pub send_control_ack : W.Channel → String → W.State → Outcome × W.State
  unfolding respond
  send_control_ack channel request_id w =
      let (now, w') = W.unix_ms w in
      respond channel (record { seq = now; request_id = request_id; message = none }) w'

  unfoldable pub ensure_addr_has_peer_id : N.Multiaddr → C.PeerId → N.Multiaddr
  ensure_addr_has_peer_id addr peer = elim (W.extract_peer_id addr) [
    | none ↦ W.push_peer_id addr peer
    | some _ ↦ addr
  ]

  unfoldable pub candidate_type_for_addr : N.Multiaddr → ℕ
  candidate_type_for_addr addr = if W.has_ip6 addr then 2 else 1

  unfoldable pub persist_trust_store : App C N → W.State → Bool × W.State
  persist_trust_store app w = W.save_records app.trust_store_path (to_records app.trusted_peers) w

  -- The store is written where the verdict says that it changed; a failure is only logged.
  unfoldable pub persist_if : Bool → App C N → W.State → W.State
  unfolding persist_trust_store
  persist_if changed app w = if changed then (persist_trust_store app w).1 else w

  add_candidate : C.PeerId → Option N.Multiaddr → W.State → W.State
  unfolding ensure_addr_has_peer_id
  add_candidate peer none w = w
  add_candidate peer (some addr) w = W.add_address peer (ensure_addr_has_peer_id addr peer) w

  add_candidates : C.PeerId → List NetworkCandidate → W.State → W.State
  unfolding add_candidate
  add_candidates peer [] w = w
  add_candidates peer (c ∷ cs) w =
      let w' =
        if is_empty_str c.address then w else add_candidate peer (W.addr_of_string c.address) w in
      add_candidates peer cs w'

  respond_in : Outcome × W.State → App C N → Outcome × Node W
  respond_in (o, w) app = (o, (app, w))

module _ {C : Crypto} {N : Net} (W : World C N) ⦃a : Eq N.Multiaddr⦄ where
  unfoldable pub add_new : List N.Multiaddr → List N.Multiaddr → List N.Multiaddr
  add_new known [] = known
  add_new known (addr ∷ addrs) =
      add_new (if contains known addr then known else known ++ addr ∷ []) addrs

  candidate_of : ℤ → N.Multiaddr → NetworkCandidate
  unfolding candidate_type_for_addr
  candidate_of now addr = record {
    candidate_type = candidate_type_for_addr W addr;
    address = W.addr_to_string addr;
    priority = 100;
    expires_unix_ms = as_u64 (add_i64 now (pos 120000));
    relay_peer_id = "";
  }

module _ {C : Crypto} {N : Net} (W : World C N) ⦃e : Eq C.PeerId⦄ ⦃r : Eq N.OutboundRequestId⦄
    ⦃a : Eq N.Multiaddr⦄ where
  announce : C.PeerId → String → List NetworkCandidate → Node W → Node W
  unfolding send_control
  announce peer session_id [] node = node
  announce peer session_id (c ∷ cs) (app, w) =
      let (seq, w') = W.unix_ms w in
      let (id, w'') = W.unix_ms w' in
      send_control W peer
        (record {
          seq = seq;
          request_id = "cand-" <> show_ℕ id;
          message = some (
              Messages.candidate_announcement
                (record { session_id = session_id; candidates = c ∷ cs }));
        })
        State.candidate_announcement (app, w'')

  unfoldable pub send_candidate_announcement : C.PeerId → String → Node W → Node W
  unfolding add_new candidate_of announce
  send_candidate_announcement peer session_id (app, w) =
      let (clock, w') = W.unix_ms w in
      let addrs = add_new W app.known_local_addrs (W.external_addresses w') in
      announce peer session_id (map (candidate_of W (as_i64 clock)) addrs) (app, w')

  unfoldable pub send_punch_sync : C.PeerId → String → Node W → Node W
  send_punch_sync peer session_id (app, w) =
      let (now, w') = W.unix_ms w in
      let start = (now + 400) % 2 ^ 64 in
      let (seq, w'') = W.unix_ms w' in
      let (id, w''') = W.unix_ms w'' in
      send_control W peer
        (record {
          seq = seq;
          request_id = "punch-" <> show_ℕ id;
          message = some (
              Messages.punch_sync (record {
                session_id = session_id;
                transaction_id = "tx-" <> (show_ℕ start <> ("-" <> C.peer_to_string peer));
                start_after_unix_ms = start;
                attempt_index = 1;
              }));
        })
        State.punch_sync (app, w''')

  unfoldable pub on_session_activated : C.PeerId → String → Node W → Node W
  unfolding send_candidate_announcement send_punch_sync
  on_session_activated peer session_id node =
      send_punch_sync peer session_id (send_candidate_announcement peer session_id node)

  -- The peer's session becomes the active one; `set_active_session` reads the clock.
  unfoldable pub activate : C.PeerId → String → Node W → Node W
  unfolding on_session_activated
  activate peer session_id (app, w) =
      let (now, w') = W.unix_ms w in
      on_session_activated peer session_id (on_accept peer session_id now app, w')

  unsigned_session_accept : App C N → SessionRequest → Bytes → ℤ → SessionAccept
  unsigned_session_accept app request nonce now = record {
    session_id = request.session_id;
    selected_codec = 1;
    selected_fps = 30;
    selected_width = 1280;
    selected_height = 720;
    using_relay = false;
    path_id = "direct-quic";
    from = some (own_identity W app);
    nonce = nonce;
    unix_ms = now;
    signature = [];
    request_nonce = request.nonce;
    accepted_feature_bits = request.feature_bits;
  }

  activate_if : Outcome × W.State → C.PeerId → String → App C N → Outcome × Node W
  activate_if (ok u, w) peer session_id app = (ok tt, activate peer session_id (app, w))
  activate_if (err x, w) peer session_id app = (err x, (app, w))

  send_accept :
      Result SessionAuthError (Unit {0}) × SessionAccept
      → C.PeerId
      → String
      → W.Channel
      → Node W
      → Outcome × Node W
  unfolding respond activate_if
  send_accept (err x, accept) peer request_id channel node = (err (unsigned_accept x), node)
  send_accept (ok u, accept) peer request_id channel (app, w) =
      let (now, w') = W.unix_ms w in
      activate_if
        (respond W channel
          (record {
            seq = now;
            request_id = request_id;
            message = some (Messages.session_accept accept);
          })
          w')
        peer accept.session_id app

  unfoldable pub answer_verdict :
      Verdict C → C.PeerId → SessionRequest → String → W.Channel → Node W → Outcome × Node W
  unfolding respond_in send_accept unsigned_session_accept
  answer_verdict (err x) peer request request_id channel (app, w) =
      respond_in W
        (send_session_reject W channel request_id request.session_id (map_auth_error_to_reject x)
          (W.error_text x) w)
        (on_auth_failed peer app)
  answer_verdict (ok v) peer request request_id channel (app, w) =
      let (nonce, w') = W.random_nonce (persist_if W v.trust_store_changed app w) in
      let (now, w'') = W.unix_ms w' in
      send_accept
        (sign_session_accept C (unsigned_session_accept app request nonce (as_i64 now))
          app.local_key)
        peer request_id channel (app, w'')

  unfoldable pub answer_session_request :
      C.PeerId → SessionRequest → String → W.Channel → Node W → Outcome × Node W
  unfolding show_option respond_in
  answer_session_request peer request request_id channel (app, w) =
      let (now, w') = W.unix_ms w in
      let (verdict, replay, trusted) =
        verify_session_request C request (some peer) (some app.local_device_code) (as_i64 now)
          default_allowed_skew_ms app.nonce_cache app.trusted_peers app.trust_on_first_use in
      if not (unwrap_or (map_option major_of request.version) 0 == protocol_major)
      then respond_in W
          (send_session_reject W channel request_id request.session_id reject_version_mismatch
            ("protocol major mismatch: expected "
              <> (show_ℕ protocol_major
                  <> (", got " <> show_option (map_option major_of request.version))))
            w)
          app
      else answer_verdict verdict peer request request_id channel
          (record app { nonce_cache = replay; trusted_peers = trusted }, w')

  unfoldable pub answer_ping : ControlPing → String → W.Channel → Node W → Outcome × Node W
  unfolding respond respond_in
  answer_ping ping request_id channel (app, w) =
      let (seq, w') = W.unix_ms w in
      let (received, w'') = W.unix_ms w' in
      respond_in W
        (respond W channel
          (record {
            seq = seq;
            request_id = request_id;
            message = some (
                Messages.pong (record {
                  session_id = ping.session_id;
                  seq = ping.seq;
                  echo_send_unix_ms = ping.send_unix_ms;
                  recv_unix_ms = received;
                }));
          })
          w'')
        app

  abbrev punch_of : C.PeerId → PunchSync → PendingPunchAction C.PeerId
  punch_of peer punch = record {
    peer_id = peer;
    session_id = punch.session_id;
    transaction_id = punch.transaction_id;
    start_after_unix_ms = as_i64 punch.start_after_unix_ms;
    attempt_index = punch.attempt_index;
  }

  unfoldable pub answer_message :
      Option ControlMessage → C.PeerId → String → W.Channel → Node W → Outcome × Node W
  unfolding respond_in add_candidates
  answer_message (some (Messages.session_request request)) peer request_id channel node =
      answer_session_request peer request request_id channel node
  answer_message (some (Messages.ping ping)) peer request_id channel node =
      answer_ping ping request_id channel node
  answer_message (some (Messages.session_close close)) peer request_id channel (app, w) =
      respond_in W (send_control_ack W channel request_id (W.disconnect peer w))
        (clear_active_session peer (mark_graceful_closing peer app))
  answer_message (some (Messages.candidate_announcement announcement)) peer request_id channel
        (app, w) =
      respond_in W
        (send_control_ack W channel request_id (add_candidates W peer announcement.candidates w))
        app
  answer_message (some (Messages.punch_sync punch)) peer request_id channel (app, w) =
      respond_in W (send_control_ack W channel request_id w) (record app {
        pending_punch_actions = app.pending_punch_actions ++ punch_of peer punch ∷ [];
      })
  answer_message _ peer request_id channel (app, w) =
      respond_in W (send_control_ack W channel request_id w) app

  answer_envelope : Option ControlEnvelope → C.PeerId → W.Channel → Node W → Outcome × Node W
  answer_envelope none peer channel node = (err undecodable_envelope, node)
  answer_envelope (some envelope) peer channel node =
      answer_message envelope.message peer envelope.request_id channel node

  unfoldable pub handle_control_request : C.PeerId → Bytes → W.Channel → Node W → Outcome × Node W
  unfolding answer_envelope
  handle_control_request peer request channel node =
      answer_envelope (W.decode_envelope request) peer channel node
