-- ===== src/Node/World.antt =====
-- What surrounds the node's state: the swarm of libp2p, the clock, the random numbers, the trust file and
-- the encoding of envelopes. A call that can change the surroundings returns them.
use aether_link.Base.{ℕ, Bool, String, Option, List}
use aether_link.Messages.{Bytes, ControlEnvelope}
use aether_link.Security.Crypto.{Crypto}
use aether_link.Security.Errors.{SessionAuthError}
use aether_link.Security.Trust.{TrustedPeerRecord}
use aether_link.Node.State.{Net, DeviceAnnouncementV1}

pub record World (C : Crypto) (N : Net) : Type 1 where
  pub State : Type 0
  pub Channel : Type 0
  -- `unix_ms()` and `random_nonce(16)`
  pub unix_ms : State → ℕ × State
  pub random_nonce : State → Bytes × State
  -- `write_atomic` of the records as JSON; whether it succeeds.
  pub save_records : String → List TrustedPeerRecord → State → Bool × State
  -- `send_request`, `send_response(..).is_ok()`, `disconnect_peer_id`, `kad.add_address`, `dial`
  pub send_request : C.PeerId → Bytes → State → N.OutboundRequestId × State
  pub send_response : Channel → Bytes → State → Bool × State
  pub disconnect : C.PeerId → State → State
  pub add_address : C.PeerId → N.Multiaddr → State → State
  pub dial : C.PeerId → State → State
  -- `dial` of an address, `.is_ok()`; `add_external_address`
  pub dial_addr : N.Multiaddr → State → Bool × State
  pub add_external_address : N.Multiaddr → State → State
  -- `listen_on(..).is_ok()`, `kad.bootstrap`, the peer id of a `P2p` part
  pub listen_on : N.Multiaddr → State → Bool × State
  pub bootstrap : State → State
  pub extract_peer_id : N.Multiaddr → Option C.PeerId
  -- `kad.put_record(..).ok()` of a key and a value with `Quorum::One`, `kad.get_record`
  pub put_record : String → Bytes → State → Option N.QueryId × State
  pub get_record : String → State → N.QueryId × State
  pub is_connected : State → C.PeerId → Bool
  pub connected_peers : State → List C.PeerId
  pub external_addresses : State → List N.Multiaddr
  -- `parse::<Multiaddr>().ok()`, `to_string`, `push(P2p(..))`, an `Ip6` part present
  pub addr_of_string : String → Option N.Multiaddr
  pub addr_to_string : N.Multiaddr → String
  pub push_peer_id : N.Multiaddr → C.PeerId → N.Multiaddr
  pub has_ip6 : N.Multiaddr → Bool
  -- `encode_to_vec`, `ControlEnvelope::decode(..).ok()`
  pub encode_envelope : ControlEnvelope → Bytes
  pub decode_envelope : Bytes → Option ControlEnvelope
  -- `serde_json::to_vec(..).ok()`, `serde_json::from_slice(..).ok()`
  pub encode_announcement : DeviceAnnouncementV1 → Option Bytes
  pub decode_announcement : Bytes → Option DeviceAnnouncementV1
  -- The `Display` that `thiserror` derives.
  pub error_text : SessionAuthError → String
