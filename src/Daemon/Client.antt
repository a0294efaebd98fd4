-- ===== src/Daemon/Client.antt =====
-- `handle_client` of apps/aetherlink-daemon/src/main.rs: one client's requests, from the bytes that it sends
-- to the bytes that it gets. Failures of writing are not modelled.
pub mod Numbers
use aether_link.Base.{
  ℕ, zero, suc, ◌++◌, Bool, String, ◌<>◌, Option, none, some, List, [], ◌∷◌, Result, ok, err,
  if◌then◌else◌,
}
use aether_link.Base.Int.{saturating_add}
use aether_link.Base.Show.{show_ℕ}
use aether_link.Base.Text.{is_empty_str}
use aether_link.Messages.{Bytes}
use aether_link.Ipc.{IpcError, decode_failed, read_frame, write_frame}
use aether_link.Daemon.{Daemon, process_request}
use aether_link.Daemon.State.{Host, Answer}
use aether_link.Daemon.Messages.{
  DaemonRequest, DaemonResponse, DaemonEvent, IpcPayload, request, response, event, IpcEnvelope,
}

abbrev pub envelope : ℕ → String → IpcPayload → IpcEnvelope
envelope seq id payload = record { seq = seq; request_id = id; payload = some payload }

abbrev pub next_seq : ℕ → ℕ
next_seq seq = saturating_add 64 seq 1

-- The events after a response, and the number after them.
unfoldable pub number_events : String → ℕ → List DaemonEvent → List IpcEnvelope × ℕ
number_events id seq [] = ([], seq)
number_events id seq (x ∷ xs) =
    let (rest, seq') = number_events id (next_seq seq) xs in
    (envelope seq id (event x) ∷ rest, seq')

module _ (H : Host) where
  -- A request without an id gets one of the clock.
  id_of : String → H.State → String × H.State
  id_of id w =
      let (now, w') = H.unix_ms w in if is_empty_str id then ("ipc-" <> show_ℕ now, w') else (id, w)

  number_answer : String → ℕ → Answer × Daemon H → (List IpcEnvelope × ℕ) × Daemon H
  unfolding number_events
  number_answer id seq ((answer, events), daemon) =
      let (numbered, seq') = number_events id (next_seq seq) events in
      ((envelope seq id (response answer) ∷ numbered, seq'), daemon)

  -- What an envelope that is read makes the loop write, and its next number.
  unfoldable pub reply : IpcEnvelope → ℕ → Daemon H → (List IpcEnvelope × ℕ) × Daemon H
  unfolding id_of number_answer
  reply env seq (rt, w) = elim (env.payload) [
    | some (request r) ↦
        let (id, w') = id_of env.request_id w in number_answer id seq (process_request H r (rt, w'))
    | _ ↦ (([], seq), (rt, w))
  ]

  unfoldable pub write_all : List IpcEnvelope → Bytes
  write_all [] = []
  write_all (env ∷ envs) = write_frame (H.encode_envelope env) ++ write_all envs

  -- The result, and what is written until then, before what the rest of the loop writes.
  before_rest :
      List IpcEnvelope
      → (Result IpcError (Unit {0}) × Bytes) × Daemon H
      → (Result IpcError (Unit {0}) × Bytes) × Daemon H
  unfolding write_all
  before_rest envs ((r, bytes), daemon) = ((r, write_all envs ++ bytes), daemon)

  -- Each round takes a frame off the input, so fuel for one more round than it has bytes is enough.
  unfoldable pub handle_frames :
      ℕ → ℕ → Bytes → Daemon H → (Result IpcError (Unit {0}) × Bytes) × Daemon H
  unfolding before_rest
  handle_frames zero seq input daemon = ((ok tt, []), daemon)
  handle_frames (suc fuel) seq input daemon = elim (read_frame input) [
    | err x ↦ ((err x, []), daemon)
    | ok none ↦ ((ok tt, []), daemon)
    | ok (some (payload, rest)) ↦ elim (H.decode_envelope payload) [
      | none ↦ ((err decode_failed, []), daemon)
      | some env ↦
          let ((written, seq'), daemon') = reply env seq daemon in
          before_rest written (handle_frames fuel seq' rest daemon')
    ]
  ]

  unfoldable pub handle_client :
      ℕ → Bytes → Daemon H → (Result IpcError (Unit {0}) × Bytes) × Daemon H
  handle_client fuel input daemon = handle_frames fuel 1 input daemon
