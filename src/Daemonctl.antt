-- ===== src/Daemonctl.antt =====
-- apps/aetherlink-daemonctl/src/main.rs: the client that sends one command to the daemon.
pub mod Answered
use aether_link.Base.{ℕ, zero, suc, Bool, String, ◌<>◌, Option, none, some, List, Result, ok, err}
use aether_link.Base.Show.{show_ℕ}
use aether_link.Messages.{Bytes}
use aether_link.Ipc.{IpcError, send_request, read_envelope}
use aether_link.Daemon.Messages.{
  DaemonStartRequest, DaemonRequest, DaemonResponse, IpcPayload, request, response, event,
  IpcEnvelope,
}

pub data Command : Type 0 where
  start :
      (listen : String) (bootstrap : List String) (node_binary : String) (trust_on_first_use : Bool)
      → Command
  stop : Command
  discover : Command
  pair : (device_code : String) (approved : Bool) → Command
  connect : (device_code : String) → Command
  stats : (session_id : String) → Command

unfoldable pub request_of : Command → DaemonRequest
request_of (start listen bootstrap node_binary trust_on_first_use) =
    DaemonRequest.start_daemon (record {
      node_binary = node_binary;
      listen_multiaddr = listen;
      bootstrap_multiaddrs = bootstrap;
      trust_on_first_use = trust_on_first_use;
    })
request_of stop = DaemonRequest.stop_daemon
request_of discover = DaemonRequest.discover_devices
request_of (pair device_code approved) = DaemonRequest.pair_device device_code approved
request_of (connect device_code) = DaemonRequest.connect_session device_code
request_of (stats session_id) = DaemonRequest.get_session_stats session_id

-- `now` is what `chrono_like_unix_ms()` reads.
unfoldable pub build_request : Command → ℕ → IpcEnvelope
unfolding request_of
build_request command now = record {
  seq = 1;
  request_id = "ctl-" <> show_ℕ now;
  payload = some (request (some (request_of command)));
}

-- The loop of `main`: the response that it prints last, or none where the stream ends before one. Each round
-- takes a frame off the stream.
unfoldable pub await_response :
    ℕ → (Bytes → Option IpcEnvelope) → Bytes → Result IpcError (Option DaemonResponse)
await_response zero decode s = ok none
await_response (suc fuel) decode s = elim (read_envelope decode s) [
  | err x ↦ err x
  | ok none ↦ ok none
  | ok (some (env, rest)) ↦ elim (env.payload) [
    | some (response answer) ↦ ok (some answer)
    | _ ↦ await_response fuel decode rest
  ]
]
