-- ===== src/Tests/Control.antt =====
-- Runs of the node's control protocol.
use aether_link.Base.{
  ℕ, ◌≡◌, ◌⊎◌, refl, Bool, true, false, ◌==◌, list_eq, nat_eq, Option, none, some, List, [], ◌∷◌,
  if◌then◌else◌, String, ok, is_empty,
}
use aether_link.Base.Dict
use aether_link.Base.Int.{pos}
use aether_link.Messages.{Bytes, ControlEnvelope, SessionAccept, SessionRequest}
use aether_link.Messages
use aether_link.Node.State.{PendingOutboundSession, DeviceAnnouncementV1, new}
use aether_link.Node.World.{World}
use aether_link.Node.Control.{Node}
use aether_link.Node.Requests.{handle_control_request}
use aether_link.Node.Requests.Activation.{node_verdict}
use aether_link.Node.Requests.Opening.{verified_request_opens}
use aether_link.Node.Responses.{handle_control_response}
use aether_link.Node.Responses.Activation.{OpenedBy, response_opens_awaited_session}
use aether_link.Node.Responses.Opening.{awaited_answer_opens}
use aether_link.Tests.Parties.{number, alice, bob, party_eq, toy}
use aether_link.Tests.Sessions.{hello, welcome, some_nonce, nobody}
use aether_link.Tests.Nodes.{net, settings}

abbrev pub request_bytes : Bytes
request_bytes = 1 ∷ []

abbrev pub accept_bytes : Bytes
accept_bytes = 2 ∷ []

abbrev request_envelope : ControlEnvelope
request_envelope = record {
  seq = 1;
  request_id = "r";
  message = some (
      Messages.session_request
        (record hello { version = some (record { major = 1; minor = 0; patch = 0 }) }));
}

abbrev accept_envelope : ControlEnvelope
accept_envelope = record {
  seq = 1;
  request_id = "r";
  message = some (Messages.session_accept welcome);
}

abbrev bobs_announcement : DeviceAnnouncementV1
bobs_announcement = record {
  version = 1;
  device_code = "bob";
  peer_id = "bob";
  addrs = "x" ∷ [];
  unix_ms = pos 0;
}

-- The state is the clock, which stands still.
abbrev pub toy_world : World toy net
toy_world = record {
  State = ℕ;
  Channel = ℕ;
  unix_ms = λ w. (w, w);
  random_nonce = λ w. (some_nonce, w);
  save_records = λ path records w. (true, w);
  send_request = λ peer bytes w. (0, w);
  send_response = λ channel bytes w. (true, w);
  disconnect = λ peer w. w;
  add_address = λ peer addr w. w;
  dial = λ peer w. w;
  dial_addr = λ addr w. (true, w);
  add_external_address = λ addr w. w;
  listen_on = λ addr w. (true, w);
  bootstrap = λ w. w;
  extract_peer_id = λ a. none;
  put_record = λ key value w. (some 0, w);
  get_record = λ key w. (1, w);
  is_connected = λ w peer. true;
  connected_peers = λ w. [];
  external_addresses = λ w. [];
  addr_of_string = λ s. none;
  addr_to_string = λ a. "";
  push_peer_id = λ a peer. a;
  has_ip6 = λ a. false;
  encode_envelope = λ envelope. [];
  decode_envelope = λ bytes.
      if bytes == request_bytes
      then some request_envelope
      else if bytes == accept_bytes
      then some accept_envelope
      else none;
  encode_announcement = λ x. some [];
  decode_announcement = λ bytes. if bytes == [] then some bobs_announcement else none;
  error_text = λ x. "";
}

abbrev pub bob_node : Node toy_world
bob_node = (new toy net bob bob nobody settings, 101000)

-- Alice waits for Bob's answer.
abbrev waiting_for_bob : PendingOutboundSession
waiting_for_bob = record {
  session_id = "s";
  request_nonces = some_nonce ∷ [];
  last_send_unix_ms = pos 100000;
  attempts = 1;
}

abbrev pub alice_node : Node toy_world
alice_node = (
  record (new toy net alice alice nobody settings) {
    pending_outbound_sessions = (bob, waiting_for_bob) ∷ [];
  },
  101000,
)

opened_by_response :
    Dict.lookup bob
      (handle_control_response toy_world bob 0 accept_bytes alice_node).1.0.active_sessions
    ≡ some "s"
unfolding handle_control_response aether_link.Node.Responses.receive_message Dict.erase Dict.lookup
    Dict.insert Dict.contains_key Dict.retain_values list_eq nat_eq
    aether_link.Security.Verify.verify_session_accept aether_link.Security.Verify.from_checked
    aether_link.Security.Verify.check_accept aether_link.Base.Text.trim aether_link.Base.string_eq
    new aether_link.Security.Verify.is_skewed aether_link.Base.Int.abs_i64
    aether_link.Base.Int.sub_i64 aether_link.Base.Int.as_i64
    aether_link.Security.Replay.check_and_store aether_link.Base.Int.as_u64
    aether_link.Base.Int.add_i64 aether_link.Node.Control.send_control
    aether_link.Node.Requests.activate aether_link.Node.Requests.on_session_activated
    aether_link.Node.Sessions.on_accept aether_link.Node.Sessions.set_active_session
    aether_link.Node.Sessions.notify aether_link.Security.Replay.new
    aether_link.Security.Trust.ensure_trusted aether_link.Security.Verify.authenticate
    aether_link.Security.Verify.canonical_session_accept_payload party_eq
opened_by_response = refl

response_opens_awaited_session_example :
    (Dict.lookup bob alice_node.0.active_sessions ≡ some "s")
    ⊎ ((bob ≡ bob) × OpenedBy toy_world accept_bytes bob alice_node.0 "s")
response_opens_awaited_session_example =
    response_opens_awaited_session toy_world bob 0 accept_bytes alice_node bob "s"
      opened_by_response

abbrev with_version : SessionRequest
with_version = record hello { version = some (record { major = 1; minor = 0; patch = 0 }) }

decodes_request : toy_world.decode_envelope request_bytes ≡ some request_envelope
unfolding list_eq nat_eq
decodes_request = refl

verifies_alice :
    node_verdict toy_world with_version alice bob_node.0 101000
    ≡ ok (record { peer_id = alice; device_code = "laptop"; trust_store_changed = true })
unfolding Dict.lookup Dict.insert Dict.contains_key Dict.retain_values list_eq nat_eq
    aether_link.Security.Verify.verify_session_request aether_link.Security.Verify.from_checked
    aether_link.Security.Verify.check_request aether_link.Base.Text.trim aether_link.Base.string_eq
    new aether_link.Security.Verify.is_skewed aether_link.Base.Int.abs_i64
    aether_link.Base.Int.sub_i64 aether_link.Base.Int.as_i64
    aether_link.Security.Replay.check_and_store aether_link.Base.Int.as_u64
    aether_link.Base.Int.add_i64 aether_link.Security.Replay.new
    aether_link.Security.Trust.ensure_trusted aether_link.Security.Verify.authenticate
    aether_link.Security.Verify.canonical_session_request_payload party_eq
verifies_alice = refl

verified_request_opens_example :
    let (outcome, (app', w')) = handle_control_request toy_world alice request_bytes 0 bob_node in
    (outcome ≡ ok tt) × (app'.active_sessions ≡ Dict.insert alice "s" bob_node.0.active_sessions)
verified_request_opens_example =
    verified_request_opens toy_world alice request_bytes 0 bob_node.0 101000 request_envelope
      with_version (record { peer_id = alice; device_code = "laptop"; trust_store_changed = true })
      decodes_request refl refl verifies_alice (λ bytes w. refl)
      (λ payload. (number bob_node.0.local_key ∷ payload, refl))

bobs_answer : OpenedBy toy_world accept_bytes bob alice_node.0 "s"
unfolding Dict.lookup Dict.insert Dict.contains_key Dict.retain_values list_eq nat_eq
    aether_link.Security.Verify.verify_session_accept aether_link.Security.Verify.from_checked
    aether_link.Security.Verify.check_accept aether_link.Base.Text.trim aether_link.Base.string_eq
    new aether_link.Security.Verify.is_skewed aether_link.Base.Int.abs_i64
    aether_link.Base.Int.sub_i64 aether_link.Base.Int.as_i64
    aether_link.Security.Replay.check_and_store aether_link.Base.Int.as_u64
    aether_link.Base.Int.add_i64 aether_link.Security.Replay.new
    aether_link.Security.Trust.ensure_trusted aether_link.Security.Verify.authenticate
    aether_link.Security.Verify.canonical_session_accept_payload party_eq
bobs_answer = record {
  envelope = accept_envelope;
  accept = welcome;
  pending = waiting_for_bob;
  now = 101000;
  verdict = record { peer_id = bob; device_code = "desktop"; trust_store_changed = true };
  decodes = refl;
  carries = refl;
  waits = refl;
  answers = refl;
  accepts = refl;
  names = refl;
}

answered_now : bobs_answer.now ≡ 101000
unfolding bobs_answer
answered_now = refl

answer_has_nonce : is_empty bobs_answer.accept.request_nonce ≡ false
unfolding bobs_answer
answer_has_nonce = refl

awaited_answer_opens_example :
    let (outcome, (app', w')) = handle_control_response toy_world bob 0 accept_bytes alice_node in
    (outcome ≡ ok tt) × (app'.active_sessions ≡ Dict.insert bob "s" alice_node.0.active_sessions)
awaited_answer_opens_example =
    awaited_answer_opens toy_world bob 0 accept_bytes alice_node.0 101000 "s" bobs_answer
      answered_now answer_has_nonce
