-- ===== src/Node/State.antt =====
-- `App` of apps/aetherlink-node/src/main.rs and the records that it keeps.
pub mod Codes
use aether_link.Base.{
  ℕ, max, Bool, not, String, string_eq, ◌==◌, Option, none, List, [], ◌∷◌, map, retain,
  if◌then◌else◌,
}
use aether_link.Base.Dict.{Dict}
use aether_link.Base.Int.{ℤ, pos, as_i64}
use aether_link.Base.Text.{is_empty_str, trim, str_leb}
use aether_link.Connection.{ConnectionStateMachine}
use aether_link.Messages.{Bytes}
use aether_link.Security.Crypto.{Crypto}
use aether_link.Security.Replay
use aether_link.Security.Replay.{NonceReplayCache, default_replay_retention_ms}
use aether_link.Security.Trust.{TrustedPeers}

-- The types of libp2p's network side: addresses, and the handles of queries and requests.
pub record Net : Type 1 where
  pub Multiaddr : Type 0
  pub QueryId : Type 0
  pub OutboundRequestId : Type 0

pub record PendingOutboundSession : Type 0 where
  pub session_id : String
  pub request_nonces : List Bytes
  pub last_send_unix_ms : ℤ
  pub attempts : ℕ

pub record ControlKeepaliveState : Type 0 where
  pub next_seq : ℕ
  pub last_send_unix_ms : ℤ
  pub awaiting_seq : Option ℕ
  pub awaiting_since_unix_ms : Option ℤ
  pub consecutive_misses : ℕ

abbrev pub default_keepalive : ControlKeepaliveState
default_keepalive = record {
  next_seq = 0;
  last_send_unix_ms = pos 0;
  awaiting_seq = none;
  awaiting_since_unix_ms = none;
  consecutive_misses = 0;
}

pub data OutboundControlRequestKind : Type 0 where
  session_request : OutboundControlRequestKind
  keepalive_ping : (seq : ℕ) → OutboundControlRequestKind
  session_close : OutboundControlRequestKind
  candidate_announcement : OutboundControlRequestKind
  punch_sync : OutboundControlRequestKind

-- For the type P of peer ids.
pub record PendingPunchAction (P : Type 0) : Type 0 where
  pub peer_id : P
  pub session_id : String
  pub transaction_id : String
  pub start_after_unix_ms : ℤ
  pub attempt_index : ℕ

pub record DeviceAnnouncementV1 : Type 0 where
  pub version : ℕ
  pub device_code : String
  pub peer_id : String
  pub addrs : List String
  pub unix_ms : ℤ

module _ (C : Crypto) (N : Net) where
  pub record App : Type 0 where
    pub local_key : C.Keypair
    pub local_peer_id : C.PeerId
    pub local_device_code : String
    pub auto_request : Bool
    pub sessions : Dict C.PeerId ConnectionStateMachine
    pub pending_outbound_sessions : Dict C.PeerId PendingOutboundSession
    pub nonce_cache : NonceReplayCache
    pub trusted_peers : TrustedPeers
    pub trust_store_path : String
    pub trust_on_first_use : Bool
    pub session_request_timeout_ms : ℤ
    pub session_request_max_attempts : ℕ
    pub connect_device_codes : List String
    pub device_lookup_interval_ms : ℤ
    pub device_record_republish_ms : ℤ
    pub publish_device_record : Bool
    pub known_local_addrs : List N.Multiaddr
    pub pending_device_lookup_queries : Dict N.QueryId String
    pub pending_device_publish_queries : List N.QueryId
    pub last_device_lookup_unix_ms : Dict String ℤ
    pub last_device_record_publish_unix_ms : ℤ
    pub last_peer_dial_unix_ms : Dict C.PeerId ℤ
    pub active_sessions : Dict C.PeerId String
    pub control_keepalive : Dict C.PeerId ControlKeepaliveState
    pub control_keepalive_interval_ms : ℤ
    pub control_keepalive_timeout_ms : ℤ
    pub control_keepalive_max_misses : ℕ
    pub pending_outbound_control_requests : Dict N.OutboundRequestId OutboundControlRequestKind
    pub session_started_unix_ms : Dict C.PeerId ℤ
    pub session_auto_close_ms : ℤ
    pub closing_peers : List C.PeerId
    pub pending_punch_actions : List (PendingPunchAction C.PeerId)

-- `sort()` and `dedup()` of a list of strings
insert_string : String → List String → List String
insert_string s [] = s ∷ []
insert_string s (t ∷ ts) = if str_leb s t then s ∷ t ∷ ts else t ∷ insert_string s ts

sort_strings : List String → List String
unfolding insert_string
sort_strings [] = []
sort_strings (s ∷ ss) = insert_string s (sort_strings ss)

-- `last` is the last element that is kept.
dedup_after : String → List String → List String
dedup_after last [] = []
dedup_after last (s ∷ ss) = if s == last then dedup_after last ss else s ∷ dedup_after s ss

dedup : List String → List String
unfolding dedup_after
dedup [] = []
dedup (s ∷ ss) = s ∷ dedup_after s ss

-- The connect codes as `App::new` keeps them, for the own peer id's text.
unfoldable pub clean_codes : String → List String → List String
unfolding sort_strings dedup trim
clean_codes own codes =
    retain (λ s. not (s == own))
      (dedup (sort_strings (retain (λ s. not (is_empty_str s)) (map trim codes))))

module _ (C : Crypto) (N : Net) where
  -- The arguments of `App::new` but for the keys and the trust store.
  pub record Settings : Type 0 where
    pub auto_request : Bool
    pub trust_store_path : String
    pub trust_on_first_use : Bool
    pub session_request_timeout_ms : ℕ
    pub session_request_max_attempts : ℕ
    pub connect_device_codes : List String
    pub device_lookup_interval_ms : ℕ
    pub device_record_republish_ms : ℕ
    pub publish_device_record : Bool
    pub control_keepalive_interval_ms : ℕ
    pub control_keepalive_timeout_ms : ℕ
    pub control_keepalive_max_misses : ℕ
    pub session_auto_close_ms : ℕ

  unfoldable pub new : C.Keypair → C.PeerId → TrustedPeers → Settings → App C N
  unfolding clean_codes
  new local_key local_peer_id trusted_peers s = record {
    local_key = local_key;
    local_peer_id = local_peer_id;
    local_device_code = C.peer_to_string local_peer_id;
    auto_request = s.auto_request;
    sessions = [];
    pending_outbound_sessions = [];
    nonce_cache = Replay.new default_replay_retention_ms;
    trusted_peers = trusted_peers;
    trust_store_path = s.trust_store_path;
    trust_on_first_use = s.trust_on_first_use;
    session_request_timeout_ms = as_i64 (max s.session_request_timeout_ms 100);
    session_request_max_attempts = max s.session_request_max_attempts 1;
    connect_device_codes = clean_codes (C.peer_to_string local_peer_id) s.connect_device_codes;
    device_lookup_interval_ms = as_i64 (max s.device_lookup_interval_ms 500);
    device_record_republish_ms = as_i64 (max s.device_record_republish_ms 2000);
    publish_device_record = s.publish_device_record;
    known_local_addrs = [];
    pending_device_lookup_queries = [];
    pending_device_publish_queries = [];
    last_device_lookup_unix_ms = [];
    last_device_record_publish_unix_ms = pos 0;
    last_peer_dial_unix_ms = [];
    active_sessions = [];
    control_keepalive = [];
    control_keepalive_interval_ms = as_i64 (max s.control_keepalive_interval_ms 300);
    control_keepalive_timeout_ms = as_i64 (max s.control_keepalive_timeout_ms 500);
    control_keepalive_max_misses = max s.control_keepalive_max_misses 1;
    pending_outbound_control_requests = [];
    session_started_unix_ms = [];
    session_auto_close_ms = as_i64 s.session_auto_close_ms;
    closing_peers = [];
    pending_punch_actions = [];
  }
