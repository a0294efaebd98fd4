-- ===== src/Node/Moves.antt =====
-- What one step of the node (apps/aetherlink-node/src/main.rs) may do to its state, as a relation: each
-- change is one of a few moves, whatever handler makes it.
pub mod Kept
use aether_link.Base.{ℕ, ◌≤◌, ◌≡◌, refl, Bool, true, false, String, Eq, Option, some, none, List}
use aether_link.Base.Dict
use aether_link.Base.Dict.{Dict}
use aether_link.Base.Int.{ℤ}
use aether_link.Security.Crypto.{Crypto}
use aether_link.Security.Replay.{NonceReplayCache}
use aether_link.Security.Trust.{TrustedPeers}
use aether_link.Security.Trust.Pinning.{Keeps}
use aether_link.Messages.{Bytes}
use aether_link.Connection.{Trigger}
use aether_link.Node.Sessions.Machines.{node_trigger}
use aether_link.Node.State.{
  Net, App, PendingOutboundSession, OutboundControlRequestKind, PendingPunchAction,
}
use aether_link.Node.Sessions.{on_connected, notify, set_active_session, clear_active_session}
use aether_link.Node.Sessions.Maps.{has_session, has_keepalive}
use aether_link.Node.Keepalive.Frame.{SameButKeepalive}
use aether_link.Node.Keepalive.Domain.{SameKeys}

module _ (C : Crypto) (N : Net) where
  -- The fields that no decision about sessions or trust reads.
  pub record Books : Type 0 where
    pub known_local_addrs : List N.Multiaddr
    pub pending_device_lookup_queries : Dict N.QueryId String
    pub pending_device_publish_queries : List N.QueryId
    pub last_device_lookup_unix_ms : Dict String ℤ
    pub last_device_record_publish_unix_ms : ℤ
    pub last_peer_dial_unix_ms : Dict C.PeerId ℤ
    pub pending_outbound_control_requests : Dict N.OutboundRequestId OutboundControlRequestKind
    pub pending_punch_actions : List (PendingPunchAction C.PeerId)

module _ {C : Crypto} {N : Net} where
  abbrev pub with_books : Books C N → App C N → App C N
  with_books b app = record app {
    known_local_addrs = b.known_local_addrs;
    pending_device_lookup_queries = b.pending_device_lookup_queries;
    pending_device_publish_queries = b.pending_device_publish_queries;
    last_device_lookup_unix_ms = b.last_device_lookup_unix_ms;
    last_device_record_publish_unix_ms = b.last_device_record_publish_unix_ms;
    last_peer_dial_unix_ms = b.last_peer_dial_unix_ms;
    pending_outbound_control_requests = b.pending_outbound_control_requests;
    pending_punch_actions = b.pending_punch_actions;
  }

  abbrev pub books_of : App C N → Books C N
  books_of app = record {
    known_local_addrs = app.known_local_addrs;
    pending_device_lookup_queries = app.pending_device_lookup_queries;
    pending_device_publish_queries = app.pending_device_publish_queries;
    last_device_lookup_unix_ms = app.last_device_lookup_unix_ms;
    last_device_record_publish_unix_ms = app.last_device_record_publish_unix_ms;
    last_peer_dial_unix_ms = app.last_peer_dial_unix_ms;
    pending_outbound_control_requests = app.pending_outbound_control_requests;
    pending_punch_actions = app.pending_punch_actions;
  }

module _ {C : Crypto} {N : Net} ⦃e : Eq C.PeerId⦄ where
  -- A move; one that opens a session or checks a message needs `opens`.
  pub data Move (opens : Bool) (app : App C N) : App C N → Type 0 where
    books : (b : Books C N) → Move opens app (with_books b app)
    connect : (peer : C.PeerId) → Move opens app (on_connected peer app)
    trigger :
        (peer : C.PeerId) (t : Trigger) → node_trigger t ≡ true → Move opens app (notify peer t app)
    clear : (peer : C.PeerId) → Move opens app (clear_active_session peer app)
    closing : (peers : List C.PeerId) → Move opens app (record app { closing_peers = peers })
    keepalive :
        (app' : App C N)
        → SameButKeepalive app app'
        → SameKeys app.control_keepalive app'.control_keepalive
        → Move opens app app'
    forget :
        (peer : C.PeerId)
        → Move opens app (record app {
          pending_outbound_sessions = Dict.erase peer app.pending_outbound_sessions;
        })
    request :
        (peer : C.PeerId) (p : PendingOutboundSession)
        → p.attempts ≤ app.session_request_max_attempts
        → Move opens app (record app {
          pending_outbound_sessions = Dict.insert peer p app.pending_outbound_sessions;
        })
    check :
        opens ≡ true
        → (replay : NonceReplayCache) (trusted : TrustedPeers)
        → Keeps app.trust_on_first_use app.trusted_peers trusted
        → Move opens app (record app { nonce_cache = replay; trusted_peers = trusted })
    activate :
        opens ≡ true
        → (peer : C.PeerId) (session : String) (now : ℕ)
        → Move opens app (set_active_session peer session now app)

  -- Moves one after the other.
  pub data Moves (opens : Bool) (app : App C N) : App C N → Type 0 where
    stay : Moves opens app app
    go :
        {app' app'' : App C N}
        → Moves opens app app'
        → Move opens app' app''
        → Moves opens app app''

module _ {C : Crypto} {N : Net} ⦃e : Eq C.PeerId⦄ {opens : Bool} where
  pub Moves-trans : {a b c : App C N} → Moves opens a b → Moves opens b c → Moves opens a c
  Moves-trans m stay = m
  Moves-trans m (go m' step) = go (Moves-trans m m') step
