-- ===== src/Tests/Nodes.antt =====
-- Runs of the node's methods.
use aether_link.Base.{ℕ, ◌≡◌, refl, true, contains, string_eq, nat_eq, some, [], ◌∷◌}
use aether_link.Base.Dict
use aether_link.Base.Int.{pos}
use aether_link.Security.Trust.{TrustedPeers}
use aether_link.Node.State.{
  Net, App, Settings, new, default_keepalive, ControlKeepaliveState, PendingOutboundSession,
}
use aether_link.Node.Schedule.{collect_pending_retry_actions}
use aether_link.Node.Schedule.Due.{collect_pending_retry_actions_lem, retried, given_up}
use aether_link.Tests.Parties.{alice, bob, party_eq, toy}

abbrev pub net : Net
net = record { Multiaddr = ℕ; QueryId = ℕ; OutboundRequestId = ℕ }

abbrev pub settings : Settings toy net
settings = record {
  auto_request = true;
  trust_store_path = "/trust";
  trust_on_first_use = true;
  session_request_timeout_ms = 5000;
  session_request_max_attempts = 3;
  connect_device_codes = " bob " ∷ "" ∷ "alice" ∷ "bob" ∷ [];
  device_lookup_interval_ms = 5000;
  device_record_republish_ms = 30000;
  publish_device_record = true;
  control_keepalive_interval_ms = 1000;
  control_keepalive_timeout_ms = 3000;
  control_keepalive_max_misses = 3;
  session_auto_close_ms = 0;
}

abbrev strangers : TrustedPeers
strangers = record { by_device_code = [] }

abbrev node : App toy net
node = new toy net alice alice strangers settings

abbrev pinged : ControlKeepaliveState
pinged = record default_keepalive {
  next_seq = 1;
  last_send_unix_ms = pos 1000;
  awaiting_seq = some 1;
  awaiting_since_unix_ms = some (pos 1000);
}

abbrev unanswered : PendingOutboundSession
unanswered = record {
  session_id = "s";
  request_nonces = [];
  last_send_unix_ms = pos 0;
  attempts = 1;
}

abbrev waiting : App toy net
waiting = record node { pending_outbound_sessions = (bob, unanswered) ∷ [] }

collect_pending_retry_actions_example :
    let (retry, fail) = collect_pending_retry_actions waiting (pos 6000) in
    let pending = Dict.lookup bob waiting.pending_outbound_sessions in
    (contains retry bob
      ≡ retried waiting.session_request_timeout_ms waiting.session_request_max_attempts
          (pos 6000)
          pending)
    × (contains fail bob
        ≡ given_up waiting.session_request_timeout_ms waiting.session_request_max_attempts
            (pos 6000)
            pending)
unfolding Dict.lookup
collect_pending_retry_actions_example =
    collect_pending_retry_actions_lem waiting (pos 6000) bob (refl, tt)
