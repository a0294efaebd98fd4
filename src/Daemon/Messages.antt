-- ===== src/Daemon/Messages.antt =====
-- The IPC messages of proto/aetherlink/v1/ipc.proto, as apps/aetherlink-daemon/src/main.rs reads and writes
-- them. An `optional` payload that is absent, or of no known kind, is `none`.
use aether_link.Base.{ℕ, Bool, String, Option, List}

pub record DaemonStartRequest : Type 0 where
  pub node_binary : String
  pub listen_multiaddr : String
  pub bootstrap_multiaddrs : List String
  pub trust_on_first_use : Bool

pub record StartFileTransferRequest : Type 0 where
  pub session_id : String
  pub source_path : String

pub record SetClipboardSyncRequest : Type 0 where
  pub session_id : String
  pub enabled : Bool

pub record StartRecordingRequest : Type 0 where
  pub session_id : String
  pub output_path : String

-- The event of a `SendInput` is not read.
pub data DaemonRequest : Type 0 where
  start_daemon : DaemonStartRequest → DaemonRequest
  stop_daemon : DaemonRequest
  discover_devices : DaemonRequest
  pair_device : (device_code : String) (approved : Bool) → DaemonRequest
  connect_session : (device_code : String) → DaemonRequest
  send_input : DaemonRequest
  start_file_transfer : StartFileTransferRequest → DaemonRequest
  set_clipboard_sync : SetClipboardSyncRequest → DaemonRequest
  start_recording : StartRecordingRequest → DaemonRequest
  get_session_stats : (session_id : String) → DaemonRequest

pub record GenericAck : Type 0 where
  pub ok : Bool
  pub detail : String

pub record DiscoveredDevice : Type 0 where
  pub device_code : String
  pub peer_id : String
  pub last_seen_unix_ms : ℕ
  pub trusted : Bool

pub record PairDeviceResponse : Type 0 where
  pub paired : Bool
  pub detail : String

pub record ConnectSessionResponse : Type 0 where
  pub session_id : String
  pub accepted : Bool
  pub detail : String

pub record SessionStats : Type 0 where
  pub session_id : String
  pub rtt_ms : ℕ
  pub tx_bitrate_kbps : ℕ
  pub rx_bitrate_kbps : ℕ
  pub packet_loss_x10000 : ℕ
  pub encode_latency_ms : ℕ
  pub decode_latency_ms : ℕ
  pub using_relay : Bool

pub data DaemonResponse : Type 0 where
  start_daemon : GenericAck → DaemonResponse
  stop_daemon : GenericAck → DaemonResponse
  discover_devices : List DiscoveredDevice → DaemonResponse
  pair_device : PairDeviceResponse → DaemonResponse
  connect_session : ConnectSessionResponse → DaemonResponse
  send_input : GenericAck → DaemonResponse
  start_file_transfer : GenericAck → DaemonResponse
  set_clipboard_sync : GenericAck → DaemonResponse
  start_recording : GenericAck → DaemonResponse
  get_session_stats : SessionStats → DaemonResponse

-- Those that the daemon sends.
pub data DaemonEvent : Type 0 where
  discovery_update : List DiscoveredDevice → DaemonEvent
  session_state : (session_id state detail : String) → DaemonEvent
  error : (code detail : String) → DaemonEvent

pub data IpcPayload : Type 0 where
  request : Option DaemonRequest → IpcPayload
  response : DaemonResponse → IpcPayload
  event : DaemonEvent → IpcPayload

pub record IpcEnvelope : Type 0 where
  pub seq : ℕ
  pub request_id : String
  pub payload : Option IpcPayload
