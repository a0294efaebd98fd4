-- ===== src/Tests/Loop.antt =====
-- Runs of the node's main loop, and of the ticks and the discovery in it.
use aether_link.Base.{
  ℕ, ◌≡◌, ◌⊎◌, refl, Bool, not, ◌&&◌, String, string_eq, list_eq, nat_eq, ◌==◌, Option, some, List,
  [], ◌∷◌, arith,
}
use aether_link.Base.Dict
use aether_link.Base.Dict.{Dict}
use aether_link.Base.Int.{pos, as_i64}
use aether_link.Connection.{reconnecting}
use aether_link.Node.State.{App, new}
use aether_link.Node.Sessions.{
  should_send_session_request, should_auto_request_for_peer, default_machine,
}
use aether_link.Node.Sessions.Machines.{PeerIsOver}
use aether_link.Node.Control.{Node}
use aether_link.Node.Moves.{Moves}
use aether_link.Node.Discovery.{found_record, got_record, query_progressed, handle_kad_event}
use aether_link.Node.Discovery.Dials.{DialsAnnounced, found_record_is_checked}
use aether_link.Node.Loop.{
  control_request, control_response, kad, LoopEvent, tick, connection_established,
  connection_closed, behaviour, run_loop,
}
use aether_link.Node.Loop.Invariants.{IsSound, run_loop-IsSound}
use aether_link.Node.Loop.Sessions.{OpenedDuring, sessions_are_verified, over_for_good}
use aether_link.Tests.Parties.{alice, bob, party_eq, toy}
use aether_link.Tests.Sessions.{nobody}
use aether_link.Tests.Nodes.{net, settings}
use aether_link.Tests.Control.{bob_node, toy_world, alice_node, request_bytes, accept_bytes}

abbrev start : Node toy_world
start = (new toy net bob bob nobody settings, 101000)

-- Alice connects and asks for a session; ticks and an unexpected answer follow.
abbrev pub a_day : List (LoopEvent toy net ℕ)
a_day =
    tick
    ∷ connection_established alice
    ∷ behaviour (control_request alice request_bytes 0)
    ∷ tick
    ∷ behaviour (control_response alice 0 accept_bytes)
    ∷ connection_closed alice
    ∷ tick
    ∷ []

run_loop-IsSound_example : IsSound (run_loop toy_world a_day start).1.0
run_loop-IsSound_example = run_loop-IsSound toy_world bob bob nobody settings 101000 a_day

abbrev asked : List (LoopEvent toy net ℕ)
asked = behaviour (control_request alice request_bytes 0) ∷ []

alice_has_session :
    Dict.lookup alice (run_loop toy_world asked start).1.0.active_sessions ≡ some "s"
unfolding run_loop aether_link.Node.Loop.round aether_link.Node.Loop.handle_behaviour_event
    aether_link.Node.Requests.handle_control_request Dict.lookup Dict.insert Dict.contains_key
    Dict.retain_values list_eq nat_eq aether_link.Node.Requests.answer_message
    aether_link.Node.Requests.answer_session_request aether_link.Node.Requests.answer_verdict
    aether_link.Security.Verify.verify_session_request aether_link.Security.Verify.from_checked
    aether_link.Security.Verify.check_request aether_link.Base.Text.trim aether_link.Base.string_eq
    new aether_link.Security.Verify.is_skewed aether_link.Base.Int.abs_i64
    aether_link.Base.Int.sub_i64 aether_link.Base.Int.as_i64
    aether_link.Security.Replay.check_and_store aether_link.Base.Int.as_u64
    aether_link.Base.Int.add_i64 aether_link.Node.Control.send_control
    aether_link.Node.Requests.activate aether_link.Node.Requests.on_session_activated
    aether_link.Node.Sessions.on_accept aether_link.Node.Sessions.set_active_session
    aether_link.Node.Sessions.notify aether_link.Security.Replay.new
    aether_link.Security.Trust.ensure_trusted aether_link.Security.Verify.authenticate
    aether_link.Security.Verify.canonical_session_request_payload
    aether_link.Security.Verify.sign_session_accept party_eq
alice_has_session = refl

sessions_are_verified_example : OpenedDuring toy_world asked start alice "s"
sessions_are_verified_example =
    sessions_are_verified toy_world bob bob nobody settings 101000 asked alice "s" alice_has_session

-- The path to Alice was lost before.
abbrev lost_alice : Node toy_world
lost_alice = (
  record start.0 { sessions = (alice, record default_machine { state = reconnecting }) ∷ [] },
  101000,
)

lost_alice-IsSound : IsSound lost_alice.0
unfolding new Dict.lookup
lost_alice-IsSound = record {
  aligned = λ j. (refl, refl);
  limited = record { allowed = omega arith; single = tt; within = λ j p at. absurd (ground arith) };
}

alice_is_over : PeerIsOver lost_alice.0 alice
unfolding Dict.lookup party_eq
alice_is_over = refl

over_for_good_example :
    let app' = (run_loop toy_world a_day lost_alice).1.0 in
    PeerIsOver app' alice
    × (should_send_session_request app' alice ≡ (
        should_auto_request_for_peer app' alice
        && not (Dict.contains_key alice app'.pending_outbound_sessions)))
over_for_good_example =
    over_for_good toy_world a_day lost_alice alice lost_alice-IsSound alice_is_over

-- Alice's session has been active for longer than Bob's node lets a session be.
abbrev spent : App toy net
spent = record bob_node.0 {
  active_sessions = (alice, "s") ∷ [];
  session_started_unix_ms = (alice, pos 80000) ∷ [];
  session_auto_close_ms = pos 20000;
}

abbrev code : String
code = "bob"

-- Alice looks Bob up, and the DHT finds his announcement.
abbrev looking : Node toy_world
looking = (record alice_node.0 { pending_device_lookup_queries = (1, code) ∷ [] }, 101000)

looks_for_bob : Dict.lookup 1 looking.0.pending_device_lookup_queries ≡ some code
unfolding Dict.lookup nat_eq
looks_for_bob = refl

found_record_is_checked_example :
    let app' =
      (handle_kad_event toy_world
        (query_progressed 1 (got_record (found_record [])))
        looking).1.0 in
    (app' ≡ looking.0)
    ⊎ DialsAnnounced toy_world code (toy_world.decode_announcement []) looking app'
found_record_is_checked_example = found_record_is_checked toy_world 1 code [] looking looks_for_bob
