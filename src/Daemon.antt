-- ===== src/Daemon.antt =====
-- apps/aetherlink-daemon/src/main.rs: the daemon that starts and stops the managed node and answers requests
-- about it. The lock of the runtime makes a request one step.
pub mod Messages
pub mod State
pub mod Processes
pub mod Answers
pub mod Registry
pub mod Client
use aether_link.Base.{
  ℕ, Bool, true, false, not, String, string_eq, ◌<>◌, ◌==◌, contains, Option, none, some, List, [],
  ◌∷◌, ◌++◌, map, is_empty, if◌then◌else◌, Result, ok, err,
}
use aether_link.Base.Dict
use aether_link.Base.Dict.{Dict}
use aether_link.Base.Int.{ℤ, pos, negsuc}
use aether_link.Base.Sets.{unwrap_or, set_insert, set_remove}
use aether_link.Base.Show.{show_ℕ}
use aether_link.Base.Text.{is_blank, trim, str_leb}
use aether_link.Messages.{Bytes}
use aether_link.Security.Trust.{TrustedPeerRecord}
use aether_link.Daemon.Messages.{
  DaemonStartRequest, StartFileTransferRequest, SetClipboardSyncRequest, StartRecordingRequest,
  DaemonRequest, GenericAck, DiscoveredDevice, PairDeviceResponse, ConnectSessionResponse,
  SessionStats, DaemonResponse, DaemonEvent, IpcEnvelope,
}
use aether_link.Daemon.State.{
  Host, DaemonState, Runtime, new, btree_insert, flag_each, node_args, at_least_0, discovered,
  devices_of, no_stats, ack, Answer, devices_found, device_paired, input_forwarded, transfer_queued,
  clipboard_switched, recording_started, stats_of, start_config, add_target, pair, configure,
}

module _ (H : Host) where
  -- The daemon: its runtime and what surrounds it.
  abbrev pub Daemon : Type 0
  Daemon = Runtime H.Child × H.State

  -- The error is the text that `to_string()` of it gives: its outermost context.
  abbrev pub Done : Type 0
  Done = Result String (Unit {0})

  killed : Runtime H.Child → Bool × H.State → Done × Daemon
  killed rt (true, w) = (ok tt, (record rt { child = none }, w))
  killed rt (false, w) = (err "kill managed node failed", (rt, w))

  stop_child : Option H.Child → Daemon → Done × Daemon
  unfolding killed
  stop_child none (rt, w) = (ok tt, (record rt { child = none }, w))
  stop_child (some child) (rt, w) = killed rt (H.kill child w)

  unfoldable pub stop_managed_node : Daemon → Done × Daemon
  unfolding stop_child
  stop_managed_node (rt, w) = stop_child rt.child (rt, w)

  spawned : Runtime H.Child → Option H.Child × H.State → Done × Daemon
  spawned rt (none, w) =
      (err ("failed to spawn managed node binary '" <> (rt.config.node_binary <> "'")), (rt, w))
  spawned rt (some child, w) = (ok tt, (record rt { child = some child }, w))

  start_node : Done × Daemon → Done × Daemon
  unfolding spawned
  start_node (err x, daemon) = (err x, daemon)
  start_node (ok _, (rt, w)) = spawned rt (H.spawn rt.config.node_binary (node_args rt.config) w)

  unfoldable pub restart_managed_node : Daemon → Done × Daemon
  unfolding start_node
  restart_managed_node daemon = start_node (stop_managed_node daemon)

  unfoldable pub discover_devices_from_trust_store :
      String → List String → H.State → List DiscoveredDevice
  discover_devices_from_trust_store file paired w = devices_of (H.read_trust_store file w) paired

  started : Done × Daemon → Answer × Daemon
  started (ok _, daemon) = (
    (
      DaemonResponse.start_daemon (ack true "managed node started"),
      DaemonEvent.session_state "" "daemon_running" "managed node process is running" ∷ [],
    ),
    daemon,
  )
  started (err x, daemon) = (
    (DaemonResponse.start_daemon (ack false x), DaemonEvent.error "start_daemon_failed" x ∷ []),
    daemon,
  )

  stopped : Done × Daemon → Answer × Daemon
  stopped (ok _, daemon) =
      ((DaemonResponse.stop_daemon (ack true "managed node stopped"), []), daemon)
  stopped (err x, daemon) = (
    (DaemonResponse.stop_daemon (ack false x), DaemonEvent.error "stop_daemon_failed" x ∷ []),
    daemon,
  )

  abbrev accepted : String → Bool → String → ConnectSessionResponse
  accepted session_id yes_or_no detail = record {
    session_id = session_id;
    accepted = yes_or_no;
    detail = detail;
  }

  -- The clock is read for the session's id, whatever the restart gives.
  connecting : String → Done × Daemon → Answer × Daemon
  connecting device_code (done, (rt, w)) =
      let (now, w') = H.unix_ms w in
      let session_id = "session-" <> (device_code <> ("-" <> show_ℕ now)) in
      (
        elim done [
          | ok _ ↦ (
            DaemonResponse.connect_session
                (accepted session_id true "managed node restarted with connect target"),
            DaemonEvent.session_state session_id "connecting" ("target=" <> device_code) ∷ [],
          )
          | err x ↦ (
            DaemonResponse.connect_session (accepted "" false x),
            DaemonEvent.error "connect_session_failed" x ∷ [],
          )
        ],
        (rt, w'),
      )

  unfoldable pub answer : DaemonRequest → Daemon → Answer × Daemon
  unfolding start_config started stopped connecting
  answer (DaemonRequest.start_daemon start) (rt, w) =
      started (restart_managed_node (configure (start_config start rt.config) rt, w))
  answer DaemonRequest.stop_daemon daemon = stopped (stop_managed_node daemon)
  answer DaemonRequest.discover_devices (rt, w) = (
    devices_found
        (discover_devices_from_trust_store rt.config.trust_store_file rt.config.paired_devices w),
    (rt, w),
  )
  answer (DaemonRequest.pair_device device_code approved) (rt, w) =
      (device_paired device_code approved, (configure (pair device_code approved rt.config) rt, w))
  answer (DaemonRequest.connect_session device_code) (rt, w) =
      connecting device_code
        (restart_managed_node (configure (add_target device_code rt.config) rt, w))
  answer DaemonRequest.send_input daemon = (input_forwarded, daemon)
  answer (DaemonRequest.start_file_transfer req) daemon = (transfer_queued req, daemon)
  answer (DaemonRequest.set_clipboard_sync req) daemon = (clipboard_switched req, daemon)
  answer (DaemonRequest.start_recording req) daemon = (recording_started req, daemon)
  answer (DaemonRequest.get_session_stats session_id) (rt, w) =
      (stats_of session_id rt.config, (rt, w))

  unfoldable pub process_request : Option DaemonRequest → Daemon → Answer × Daemon
  process_request none daemon =
      ((DaemonResponse.start_daemon (ack false "missing daemon request payload"), []), daemon)
  process_request (some request) daemon = answer request daemon
