-- ===== src/Node/Control.antt =====
-- The control protocol of the node: requests that it sends (apps/aetherlink-node/src/main.rs).
pub mod Activity
pub mod Moves
pub mod Attempts
use aether_link.Base.{
  ℕ, ◌+◌, Bool, true, not, String, ◌<>◌, Eq, ◌==◌, contains, Option, none, some, List, [], ◌∷◌,
  ◌++◌, map, is_empty, length, ltb, if◌then◌else◌, Result, ok, err,
}
use aether_link.Base.Dict
use aether_link.Base.Dict.{Dict}
use aether_link.Base.Int.{ℤ, pos, as_i64, as_u64, add_i64, saturating_add}
use aether_link.Base.Sets.{unwrap_or}
use aether_link.Base.Show.{show_ℕ, show_ℤ}
use aether_link.Messages.{
  Bytes, SessionRequest, DeviceIdentity, ControlEnvelope, ControlMessage, NetworkCandidate,
}
use aether_link.Messages
use aether_link.Security.Crypto.{Crypto}
use aether_link.Security.Errors.{SessionAuthError}
use aether_link.Security.Verify.{sign_session_request}
use aether_link.Node.State.{Net, App, PendingOutboundSession, OutboundControlRequestKind}
use aether_link.Node.State
use aether_link.Node.Sessions.{mark_graceful_closing, clear_active_session}
use aether_link.Node.World.{World}

abbrev pub protocol_major : ℕ
protocol_major = 1

-- Where a handler returns an error.
pub data ControlFault : Type 0 where
  undecodable_envelope : ControlFault
  unsigned_request : SessionAuthError → ControlFault
  unsigned_accept : SessionAuthError → ControlFault
  closed_channel : ControlFault
  unserializable_announcement : ControlFault
  undecodable_announcement : ControlFault
  unparsed_peer_id : ControlFault

abbrev pub Outcome : Type 0
Outcome = Result ControlFault (Unit {0})

-- `remove(0)` beyond the limit
abbrev keep_last : ℕ → List Bytes → List Bytes
keep_last limit [] = []
keep_last limit (x ∷ xs) = if ltb limit (length (x ∷ xs)) then xs else x ∷ xs

pending_id : Option PendingOutboundSession → ℤ → String
pending_id none now = "session-" <> show_ℤ now
pending_id (some p) now = p.session_id

-- The pending session after another request.
abbrev pub sent : ℕ → Bytes → ℤ → PendingOutboundSession → PendingOutboundSession
sent limit nonce now p = record p {
  request_nonces = keep_last limit (p.request_nonces ++ nonce ∷ []);
  last_send_unix_ms = now;
  attempts = saturating_add 32 p.attempts 1;
}

first_pending : String → PendingOutboundSession
first_pending session_id = record {
  session_id = session_id;
  request_nonces = [];
  last_send_unix_ms = pos 0;
  attempts = 0;
}

signed_or : Result SessionAuthError (Unit {0}) × SessionRequest → Result ControlFault SessionRequest
signed_or (ok _, request) = ok request
signed_or (err e, request) = err (unsigned_request e)

module _ {C : Crypto} {N : Net} ⦃e : Eq C.PeerId⦄ where
  note_sent : C.PeerId → String → Bytes → ℤ → App C N → App C N
  unfolding first_pending
  note_sent peer session_id nonce now app =
      let p =
        unwrap_or (Dict.lookup peer app.pending_outbound_sessions) (first_pending session_id) in
      record app {
        pending_outbound_sessions =
            Dict.insert peer (sent app.session_request_max_attempts nonce now p)
              app.pending_outbound_sessions;
      }

module _ {C : Crypto} {N : Net} (W : World C N) where
  -- The node: its state and what surrounds it.
  abbrev pub Node : Type 0
  Node = App C N × W.State

  pub own_identity : App C N → DeviceIdentity
  own_identity app = record {
    peer_id = C.peer_to_bytes app.local_peer_id;
    identity_pubkey = C.encode_key (C.public_key app.local_key);
    device_code = app.local_device_code;
  }

  -- The request before it is signed.
  unsigned_session_request : App C N → C.PeerId → String → Bytes → ℤ → SessionRequest
  unfolding own_identity
  unsigned_session_request app peer session_id nonce now = record {
    session_id = session_id;
    from = some (own_identity app);
    requested_role = 1;
    target_device_code = C.peer_to_string peer;
    supported_video_codecs = 1 ∷ [];
    allow_relay = true;
    preferred_max_fps = 30;
    preferred_max_width = 1280;
    preferred_max_height = 720;
    nonce = nonce;
    unix_ms = now;
    signature = [];
    version = some (record { major = protocol_major; minor = 0; patch = 0 });
    feature_bits =
        "pairing.confirm.v1" ∷ "file.transfer.v1" ∷ "clipboard.sync.v1" ∷ "recording.v1" ∷ [];
  }

  unfoldable pub build_session_request :
      App C N → C.PeerId → String → Bytes → ℤ → Result ControlFault SessionRequest
  unfolding unsigned_session_request signed_or
  build_session_request app peer session_id nonce now = signed_or (
      sign_session_request C (unsigned_session_request app peer session_id nonce now) app.local_key)

module _ {C : Crypto} {N : Net} (W : World C N) ⦃e : Eq C.PeerId⦄ ⦃r : Eq N.OutboundRequestId⦄ where
  -- `send_request`, and the kind of the request under the handle that it gets.
  unfoldable pub send_control :
      C.PeerId → ControlEnvelope → OutboundControlRequestKind → Node W → Node W
  send_control peer envelope kind (app, w) =
      let (id, w') = W.send_request peer (W.encode_envelope envelope) w in
      (
        record app {
          pending_outbound_control_requests =
              Dict.insert id kind app.pending_outbound_control_requests;
        },
        w',
      )

  send_built :
      C.PeerId → String → Bytes → ℤ → Result ControlFault SessionRequest → Node W → Outcome × Node W
  unfolding note_sent send_control
  send_built peer session_id nonce now (err x) node = (err x, node)
  send_built peer session_id nonce now (ok request) node =
      let envelope : ControlEnvelope = record {
        seq = as_u64 now;
        request_id = "req-" <> show_ℤ now;
        message = some (Messages.session_request request);
      } in
      let (app, w) = send_control peer envelope State.session_request node in
      (ok tt, (note_sent peer session_id nonce now app, w))

  unfoldable pub send_session_request : C.PeerId → Node W → Outcome × Node W
  unfolding pending_id send_built
  send_session_request peer (app, w) =
      let (clock, w') = W.unix_ms w in
      let now = as_i64 clock in
      let session_id = pending_id (Dict.lookup peer app.pending_outbound_sessions) now in
      let (nonce, w'') = W.random_nonce w' in
      send_built peer session_id nonce now (build_session_request W app peer session_id nonce now)
        (app, w'')

  unfoldable pub send_control_ping : C.PeerId → String → ℕ → Node W → Node W
  send_control_ping peer session_id seq (app, w) =
      let (now, w') = W.unix_ms w in
      send_control peer
        (record {
          seq = seq;
          request_id = "ping-" <> (show_ℕ now <> ("-" <> show_ℕ seq));
          message =
              some
                (Messages.ping (record { session_id = session_id; seq = seq; send_unix_ms = now }));
        })
        (State.keepalive_ping seq) (app, w')

  unfoldable pub send_session_close : C.PeerId → String → String → Node W → Node W
  send_session_close peer session_id reason (app, w) =
      let (now, w') = W.unix_ms w in
      let (app', w'') =
        send_control peer
          (record {
            seq = now;
            request_id = "close-" <> show_ℕ now;
            message =
                some (Messages.session_close (record { session_id = session_id; reason = reason }));
          })
          State.session_close (app, w') in
      (clear_active_session peer (mark_graceful_closing peer app'), w'')
