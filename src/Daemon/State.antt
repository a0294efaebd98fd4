-- ===== src/Daemon/State.antt =====
-- The state of apps/aetherlink-daemon/src/main.rs, what requests do to its configuration, and the answers that
-- depend on it alone.
use aether_link.Base.{
  ℕ, Bool, true, false, String, string_eq, ◌<>◌, ◌==◌, contains, Option, none, some, List, [], ◌∷◌,
  ◌++◌, map, is_empty, if◌then◌else◌,
}
use aether_link.Base.Dict
use aether_link.Base.Dict.{Dict}
use aether_link.Base.Int.{ℤ, pos, negsuc}
use aether_link.Base.Sets.{unwrap_or, set_insert, set_remove}
use aether_link.Base.Text.{is_blank, str_leb}
use aether_link.Messages.{Bytes}
use aether_link.Security.Trust.{TrustedPeerRecord}
use aether_link.Daemon.Messages.{
  DaemonStartRequest, StartFileTransferRequest, SetClipboardSyncRequest, StartRecordingRequest,
  GenericAck, DiscoveredDevice, SessionStats, DaemonResponse, DaemonEvent, IpcEnvelope,
}

-- What surrounds the daemon: processes, files and the clock.
pub record Host : Type 1 where
  pub State : Type 0
  pub Child : Type 0
  -- `Command::spawn(..).ok()` of a binary with arguments, `child.kill().await.is_ok()`
  pub spawn : String → List String → State → Option Child × State
  pub kill : Child → State → Bool × State
  pub unix_ms : State → ℕ × State
  -- `fs::read(..)` and `serde_json::from_slice(..)`, `.ok()`
  pub read_trust_store : String → State → Option (List TrustedPeerRecord)
  -- `encode_to_vec`, `IpcEnvelope::decode(..).ok()`
  pub encode_envelope : IpcEnvelope → Bytes
  pub decode_envelope : Bytes → Option IpcEnvelope

pub record DaemonState : Type 0 where
  pub node_binary : String
  pub listen_multiaddr : String
  pub bootstrap_multiaddrs : List String
  pub trust_on_first_use : Bool
  pub identity_file : String
  pub trust_store_file : String
  pub connect_device_codes : List String
  pub paired_devices : List String
  pub session_stats : Dict String SessionStats

pub record Runtime (Child : Type 0) : Type 0 where
  pub config : DaemonState
  pub child : Option Child

-- The runtime that `main` starts with.
unfoldable pub new : {Child : Type 0} → String → String → String → String → Runtime Child
new node_binary listen identity_file trust_store_file = record {
  config = record {
    node_binary = node_binary;
    listen_multiaddr = listen;
    bootstrap_multiaddrs = [];
    trust_on_first_use = false;
    identity_file = identity_file;
    trust_store_file = trust_store_file;
    connect_device_codes = [];
    paired_devices = [];
    session_stats = [];
  };
  child = none;
}

-- `insert` of a `BTreeSet<String>`, as the list in its order.
unfoldable pub btree_insert : String → List String → List String
btree_insert s [] = s ∷ []
btree_insert s (t ∷ ts) =
    let rest = btree_insert s ts in
    if s == t then t ∷ ts else if str_leb s t then s ∷ t ∷ ts else t ∷ rest

-- The arguments of the managed node.
unfoldable pub flag_each : String → List String → List String
flag_each flag [] = []
flag_each flag (x ∷ xs) = flag ∷ x ∷ flag_each flag xs

unfoldable pub node_args : DaemonState → List String
unfolding flag_each
node_args c =
    ("--listen"
      ∷ c.listen_multiaddr
      ∷ "--identity-file"
      ∷ c.identity_file
      ∷ "--trust-store-file"
      ∷ c.trust_store_file
      ∷ "--trust-on-first-use"
      ∷ (if c.trust_on_first_use then "true" else "false")
      ∷ [])
    ++ (flag_each "--bootstrap" c.bootstrap_multiaddrs
        ++ (flag_each "--connect-device-code" c.connect_device_codes
            ++ (if is_empty c.connect_device_codes then [] else "--auto-request" ∷ [])))

-- `last_seen_unix_ms.max(0) as u64`
abbrev pub at_least_0 : ℤ → ℕ
at_least_0 (pos n) = n
at_least_0 (negsuc n) = 0

unfoldable pub discovered : List String → TrustedPeerRecord → DiscoveredDevice
discovered paired peer = record {
  device_code = peer.device_code;
  peer_id = peer.peer_id;
  last_seen_unix_ms = at_least_0 peer.last_seen_unix_ms;
  trusted = contains paired peer.device_code;
}

unfoldable pub devices_of : Option (List TrustedPeerRecord) → List String → List DiscoveredDevice
unfolding discovered
devices_of none paired = []
devices_of (some peers) paired = map (discovered paired) peers

abbrev pub no_stats : String → SessionStats
no_stats session_id = record {
  session_id = session_id;
  rtt_ms = 0;
  tx_bitrate_kbps = 0;
  rx_bitrate_kbps = 0;
  packet_loss_x10000 = 0;
  encode_latency_ms = 0;
  decode_latency_ms = 0;
  using_relay = false;
}

abbrev pub ack : Bool → String → GenericAck
ack done detail = record { ok = done; detail = detail }

abbrev pub Answer : Type 0
Answer = DaemonResponse × List DaemonEvent

abbrev pub devices_found : List DiscoveredDevice → Answer
devices_found devices =
    (DaemonResponse.discover_devices devices, DaemonEvent.discovery_update devices ∷ [])

abbrev pub device_paired : String → Bool → Answer
device_paired device_code approved = (
  DaemonResponse.pair_device (record {
    paired = approved;
    detail =
        "device "
        <> (device_code <> (if approved then " marked as paired" else " removed from paired set"));
  }),
  [],
)

abbrev pub input_forwarded : Answer
input_forwarded = (
  DaemonResponse.send_input (ack true "input command accepted and forwarded to data plane queue"),
  [],
)

abbrev pub transfer_queued : StartFileTransferRequest → Answer
transfer_queued req = (
  DaemonResponse.start_file_transfer (
      ack true
        ("queued file transfer from " <> (req.source_path <> (" for session " <> req.session_id)))),
  [],
)

abbrev pub clipboard_switched : SetClipboardSyncRequest → Answer
clipboard_switched req = (
  DaemonResponse.set_clipboard_sync (
      ack true (
        "clipboard sync "
        <> ((if req.enabled then "enabled" else "disabled")
            <> (" for session " <> req.session_id)))),
  [],
)

abbrev pub recording_started : StartRecordingRequest → Answer
recording_started req = (
  DaemonResponse.start_recording (
      ack true
        ("recording started for session " <> (req.session_id <> (" output=" <> req.output_path)))),
  [],
)

abbrev pub stats_of : String → DaemonState → Answer
stats_of session_id c = (
  DaemonResponse.get_session_stats
      (unwrap_or (Dict.lookup session_id c.session_stats) (no_stats session_id)),
  [],
)

-- An empty text leaves the setting.
unfoldable pub start_config : DaemonStartRequest → DaemonState → DaemonState
start_config start c = record c {
  listen_multiaddr =
      if is_blank start.listen_multiaddr then c.listen_multiaddr else start.listen_multiaddr;
  node_binary = if is_blank start.node_binary then c.node_binary else start.node_binary;
  bootstrap_multiaddrs = start.bootstrap_multiaddrs;
  trust_on_first_use = start.trust_on_first_use;
}

abbrev pub add_target : String → DaemonState → DaemonState
add_target device_code c = record c {
  connect_device_codes = btree_insert device_code c.connect_device_codes;
}

unfoldable pub pair : String → Bool → DaemonState → DaemonState
pair device_code approved c = record c {
  paired_devices =
      if approved
      then set_insert device_code c.paired_devices
      else set_remove device_code c.paired_devices;
}

-- A change of the configuration only.
module _ {Child : Type 0} where
  abbrev pub configure : DaemonState → Runtime Child → Runtime Child
  configure config rt = record rt { config = config }
