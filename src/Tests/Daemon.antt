-- ===== src/Tests/Daemon.antt =====
-- Runs of the daemon and of its client.
use aether_link.Base.{
  ℕ, suc, ◌≡◌, ◌++◌, refl, sym, subst, Bool, true, false, not, String, string_eq, list_eq, nat_eq,
  ◌==◌, contains, Option, none, some, List, [], ◌∷◌, if◌then◌else◌, Result, ok, err, All, arith,
}
use aether_link.Messages.{Bytes}
use aether_link.Ipc.{send_request}
use aether_link.Daemon.{Daemon, answer, process_request}
use aether_link.Daemon.State.{Host, new}
use aether_link.Daemon.Messages.{
  DaemonRequest, DaemonResponse, DaemonEvent, IpcPayload, IpcEnvelope, response,
}
use aether_link.Daemon.Processes.{Processes, own, process_all, one_managed_node}
use aether_link.Daemon.Registry.{
  last_word, ever_asked, registry_refines, shown_devices, discovery_shows_last_word,
}
use aether_link.Daemon.Client.{envelope, reply, handle_client}
use aether_link.Daemon.Client.Numbers.{IsSendable}
use aether_link.Daemonctl.{stop, request_of, build_request, await_response}
use aether_link.Daemonctl.Answered.{command_gets_its_answer}

-- The next process number and the running processes. A binary without a name does not start, and only the
-- last process can be killed.
abbrev Machine : Type 0
Machine = ℕ × List ℕ

abbrev spawn : String → Machine → Option ℕ × Machine
spawn binary (n, alive) = if binary == "" then (none, (n, alive)) else (some n, (suc n, n ∷ alive))

abbrev kill : ℕ → Machine → Bool × Machine
kill child (n, []) = (false, (n, []))
kill child (n, x ∷ alive) = if x == child then (true, (n, alive)) else (false, (n, x ∷ alive))

abbrev ctl_envelope : IpcEnvelope
ctl_envelope = build_request stop 7

abbrev stopped_envelope : IpcEnvelope
stopped_envelope =
    envelope 1 ctl_envelope.request_id (
      response (DaemonResponse.stop_daemon (record { ok = true; detail = "managed node stopped" })))

abbrev kind : Option IpcPayload → ℕ
kind (some (response _)) = 2
kind _ = 1

abbrev decode : Bytes → Option IpcEnvelope
decode bytes =
    if bytes == 1 ∷ []
    then some ctl_envelope
    else if bytes == 2 ∷ []
    then some stopped_envelope
    else none

abbrev host : Host
host = record {
  State = Machine;
  Child = ℕ;
  spawn = λ binary args w. spawn binary w;
  kill = kill;
  unix_ms = λ w. (1000, w);
  read_trust_store = λ file w. none;
  encode_envelope = λ env. kind env.payload ∷ [];
  decode_envelope = decode;
}

spawn_some :
    (binary : String) (w : Machine) (child : ℕ)
    → (spawn binary w).0 ≡ some child
    → (spawn binary w).1.1 ≡ child ∷ w.1
spawn_some binary w child h = ground arith

spawn_none :
    (binary : String) (w : Machine) → (spawn binary w).0 ≡ none → (spawn binary w).1.1 ≡ w.1
spawn_none binary w h = ground arith

kill_done :
    (child : ℕ) (w : Machine) (rest : List ℕ)
    → w.1 ≡ child ∷ rest
    → (kill child w).0 ≡ true
    → (kill child w).1.1 ≡ rest
kill_done child (n, []) rest h k = cc
kill_done child (n, x ∷ alive) rest h k = ground arith

kill_failed : (child : ℕ) (w : Machine) → (kill child w).0 ≡ false → (kill child w).1.1 ≡ w.1
kill_failed child (n, []) h = refl
kill_failed child (n, x ∷ alive) h = ground arith

abbrev processes : Processes host
processes = record {
  alive = λ w. w.1;
  spawn_some = λ binary args. spawn_some binary;
  spawn_none = λ binary args. spawn_none binary;
  kill_done = kill_done;
  kill_failed = kill_failed;
  clock = λ w. refl;
}

abbrev fresh : Daemon host
fresh = (new "node" "/ip4/0.0.0.0/tcp/0" "/id" "/trust", (5, 3 ∷ []))

abbrev to_bob : DaemonRequest
to_bob = DaemonRequest.connect_session "bob"

abbrev asked : List (Option DaemonRequest)
asked =
    some to_bob
    ∷ none
    ∷ some (DaemonRequest.pair_device "bob" true)
    ∷ some to_bob
    ∷ some (DaemonRequest.pair_device "alice" false)
    ∷ []

one_managed_node_example :
    let (rt, w') = process_all host asked fresh in w'.1 ≡ own rt.child (3 ∷ [])
one_managed_node_example =
    one_managed_node host processes "node" "/ip4/0.0.0.0/tcp/0" "/id" "/trust" asked (5, 3 ∷ [])

registry_refines_example :
    let c = (process_all host asked fresh).0.config in
    (contains c.paired_devices "bob" ≡ last_word "bob" asked false)
    × (contains c.connect_device_codes "bob" ≡ ever_asked "bob" asked false)
registry_refines_example =
    registry_refines host "node" "/ip4/0.0.0.0/tcp/0" "/id" "/trust" asked (5, 3 ∷ []) "bob"

discovery_shows_last_word_example :
    let (rt, w') = process_all host asked fresh in
    let devices =
      shown_devices
        (host.read_trust_store rt.config.trust_store_file w')
        (λ code. last_word code asked false) in
    (process_request host (some DaemonRequest.discover_devices) (rt, w')).0
    ≡ (DaemonResponse.discover_devices devices, DaemonEvent.discovery_update devices ∷ [])
discovery_shows_last_word_example =
    discovery_shows_last_word host "node" "/ip4/0.0.0.0/tcp/0" "/id" "/trust" asked (5, 3 ∷ [])

ctl-IsSendable : IsSendable host ctl_envelope
unfolding list_eq nat_eq build_request
ctl-IsSendable = ((omega arith, omega arith), refl)

two_requests : List IpcEnvelope
two_requests = ctl_envelope ∷ ctl_envelope ∷ []

stops : (reply host ctl_envelope 1 fresh).0.0 ≡ stopped_envelope ∷ []
unfolding reply build_request process_request answer aether_link.Daemon.stop_managed_node new
    aether_link.Daemon.Client.number_events aether_link.Base.Show.show_ℕ nat_eq
stops = refl

stopped-IsSendable : IsSendable host stopped_envelope
unfolding list_eq nat_eq
stopped-IsSendable = ((omega arith, omega arith), refl)

answer-IsSendable : All (IsSendable host) (reply host ctl_envelope 1 fresh).0.0
answer-IsSendable = subst (All (IsSendable host)) (sym stops) (stopped-IsSendable, tt)

abbrev sent : Bytes
sent = 0 ∷ 0 ∷ 0 ∷ 1 ∷ 1 ∷ []

sends : send_request (host.encode_envelope ctl_envelope) ≡ ok sent
unfolding send_request build_request
sends = refl

command_gets_its_answer_example :
    await_response 2 host.decode_envelope (handle_client host 2 sent fresh).0.1
    ≡ ok (some (process_request host (some (request_of stop)) fresh).0.0)
command_gets_its_answer_example =
    command_gets_its_answer host stop 7 fresh sent ctl-IsSendable answer-IsSendable sends
