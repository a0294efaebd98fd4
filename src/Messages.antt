-- ===== src/Messages.antt =====
-- The control messages of proto/aetherlink/v1/control.proto that the code reads, as `prost` generates them.
-- Bytes are lists of numbers below 256, enumerations are their numbers, `int64` is an integer.
use aether_link.Base.{ℕ, Bool, Option, String, List}
use aether_link.Base.Int.{ℤ}

abbrev pub Bytes : Type 0
Bytes = List ℕ

pub record ProtocolVersion : Type 0 where
  pub major : ℕ
  pub minor : ℕ
  pub patch : ℕ

pub record DeviceIdentity : Type 0 where
  pub peer_id : Bytes
  pub identity_pubkey : Bytes
  pub device_code : String

pub record SessionRequest : Type 0 where
  pub session_id : String
  pub from : Option DeviceIdentity
  pub requested_role : ℕ
  pub target_device_code : String
  pub supported_video_codecs : List ℕ
  pub allow_relay : Bool
  pub preferred_max_fps : ℕ
  pub preferred_max_width : ℕ
  pub preferred_max_height : ℕ
  pub nonce : Bytes
  pub unix_ms : ℤ
  pub signature : Bytes
  pub version : Option ProtocolVersion
  pub feature_bits : List String

pub record SessionAccept : Type 0 where
  pub session_id : String
  pub selected_codec : ℕ
  pub selected_fps : ℕ
  pub selected_width : ℕ
  pub selected_height : ℕ
  pub using_relay : Bool
  pub path_id : String
  pub from : Option DeviceIdentity
  pub nonce : Bytes
  pub unix_ms : ℤ
  pub signature : Bytes
  pub request_nonce : Bytes
  pub accepted_feature_bits : List String

-- `Pong`
pub record ControlPong : Type 0 where
  pub session_id : String
  pub seq : ℕ
  pub echo_send_unix_ms : ℕ
  pub recv_unix_ms : ℕ

pub record SessionReject : Type 0 where
  pub session_id : String
  pub reason : ℕ
  pub detail : String

pub record SessionClose : Type 0 where
  pub session_id : String
  pub reason : String

pub record NetworkCandidate : Type 0 where
  pub candidate_type : ℕ
  pub address : String
  pub priority : ℕ
  pub expires_unix_ms : ℕ
  pub relay_peer_id : String

pub record CandidateAnnouncement : Type 0 where
  pub session_id : String
  pub candidates : List NetworkCandidate

pub record PunchSync : Type 0 where
  pub session_id : String
  pub transaction_id : String
  pub start_after_unix_ms : ℕ
  pub attempt_index : ℕ

-- `Ping`
pub record ControlPing : Type 0 where
  pub session_id : String
  pub seq : ℕ
  pub send_unix_ms : ℕ

-- `control_envelope::Message`; the last constructor stands for the members that the node only acknowledges.
pub data ControlMessage : Type 0 where
  session_request : SessionRequest → ControlMessage
  session_accept : SessionAccept → ControlMessage
  session_reject : SessionReject → ControlMessage
  session_close : SessionClose → ControlMessage
  candidate_announcement : CandidateAnnouncement → ControlMessage
  punch_sync : PunchSync → ControlMessage
  ping : ControlPing → ControlMessage
  pong : ControlPong → ControlMessage
  other_message : (tag : ℕ) → Bytes → ControlMessage

pub record ControlEnvelope : Type 0 where
  pub seq : ℕ
  pub request_id : String
  pub message : Option ControlMessage
