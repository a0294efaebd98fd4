-- ===== src/Connection/Diagram.antt =====
-- The edges of the state diagram (docs/spec/v1-connection-protocol.md, section 8), and that `apply`
-- takes exactly these, with a hangup from every state in which an attempt or a session is under way.
use aether_link.Base.{
  ◌≡◌, refl, Bool, true, false, arith, ok, err, Option, some, none, ◌⊎◌, inl, inr,
}
use aether_link.Connection.{
  ConnectionState, FailureReason, Trigger, ConnectionStateMachine, Transition, idle, discovering,
  dialing_direct, hole_punching, relay_dialing, secure_handshake, active, reconnecting, failed,
  closed, start_connect, candidates_found, direct_connected, direct_no_success, punch_connected,
  punch_timeout, relay_connected, handshake_ok, path_lost, retry_budget_available, user_retry,
  user_hangup, invalid_transition, apply, dispatch, finish, Arm, ◌▸◌,
}

-- A hangup closes what is under way.
pub data IsUnderWay : ConnectionState → Type 0 where
  hangup_discovering : IsUnderWay discovering
  hangup_dialing_direct : IsUnderWay dialing_direct
  hangup_hole_punching : IsUnderWay hole_punching
  hangup_relay_dialing : IsUnderWay relay_dialing
  hangup_secure_handshake : IsUnderWay secure_handshake
  hangup_active : IsUnderWay active
  hangup_reconnecting : IsUnderWay reconnecting

-- `Edge budget s t s'`: trigger t leads from s to s', where `budget` says whether the retry budget lasts.
pub data Edge (budget : Bool) : ConnectionState → Trigger → ConnectionState → Type 0 where
  start : Edge budget idle start_connect discovering
  found : Edge budget discovering candidates_found dialing_direct
  not_found :
      Edge budget discovering Trigger.discovery_timeout (failed FailureReason.discovery_timeout)
  direct : Edge budget dialing_direct direct_connected secure_handshake
  to_punch : Edge budget dialing_direct direct_no_success hole_punching
  punched : Edge budget hole_punching punch_connected secure_handshake
  to_relay : Edge budget hole_punching punch_timeout relay_dialing
  relayed : Edge budget relay_dialing relay_connected secure_handshake
  no_relay : Edge budget relay_dialing Trigger.relay_timeout (failed FailureReason.relay_timeout)
  authenticated : Edge budget secure_handshake handshake_ok active
  not_authenticated :
      Edge budget secure_handshake Trigger.auth_failed (failed FailureReason.auth_failed)
  mismatched :
      Edge budget secure_handshake Trigger.version_mismatch (failed FailureReason.version_mismatch)
  lost : Edge budget active path_lost reconnecting
  retried : budget ≡ true → Edge budget reconnecting retry_budget_available dialing_direct
  refused :
      budget ≡ false
      → Edge budget reconnecting retry_budget_available
          (failed FailureReason.retry_budget_exhausted)
  exhausted :
      budget ≡ false
      → Edge budget reconnecting Trigger.retry_budget_exhausted
          (failed FailureReason.retry_budget_exhausted)
  again : {r : FailureReason} → Edge budget (failed r) user_retry idle
  hangup : {s : ConnectionState} → IsUnderWay s → Edge budget s user_hangup closed

ruleset edges = (
  start, found, not_found, direct, to_punch, punched, to_relay, relayed, no_relay, authenticated,
  not_authenticated, mismatched, lost, retried, refused, exhausted, again, hangup,
)

ruleset under_way = (
  hangup_discovering, hangup_dialing_direct, hangup_hole_punching, hangup_relay_dialing,
  hangup_secure_handshake, hangup_active, hangup_reconnecting,
)

-- What the match yields on an edge that ends in `s'`.
abbrev Leads : ConnectionStateMachine → ConnectionState → Trigger → ConnectionState → Type 0
Leads sm s t s' = (a : Arm) × (dispatch sm s t ≡ some a) × (a.1 ≡ s')

dispatch-timing :
    (sm : ConnectionStateMachine) (s : ConnectionState) (t : Trigger) {a : Arm}
    → dispatch sm s t ≡ some a
    → a.0.timing ≡ sm.timing
unfolding dispatch
dispatch-timing sm s t h = ground arith

abbrev Reported : ConnectionStateMachine → Trigger → Option Arm → Type 0
Reported sm t o =
    ((tr : Transition) × ((finish sm t o).0 ≡ ok tr)
      × (tr.from ≡ sm.state)
      × (tr.to ≡ (finish sm t o).1.state)
      × ((finish sm t o).1.timing ≡ sm.timing))
    ⊎ (((finish sm t o).0 ≡ err (invalid_transition sm.state t)) × ((finish sm t o).1 ≡ sm))

finish-Reported :
    (sm : ConnectionStateMachine) (t : Trigger) (o : Option Arm)
    → ((a : Arm) → o ≡ some a → a.0.timing ≡ sm.timing)
    → Reported sm t o
unfolding finish
finish-Reported sm t none h = inr (refl, refl)
finish-Reported sm t (some a) h =
    inl (record { from = sm.state; to = a.1; arm_timer = a.2 }, refl, refl, refl, h a refl)

-- A success reports the old and the new state and keeps the timing; a failure names the state and
-- the trigger, and leaves the machine as it was.
apply_result :
    (sm : ConnectionStateMachine) (t : Trigger)
    → ((tr : Transition) × ((apply sm t).0 ≡ ok tr)
        × (tr.from ≡ sm.state)
        × (tr.to ≡ (sm ▸ t).state)
        × ((sm ▸ t).timing ≡ sm.timing))
      ⊎ (((apply sm t).0 ≡ err (invalid_transition sm.state t)) × (sm ▸ t ≡ sm))
unfolding apply
apply_result sm t =
    finish-Reported sm t (dispatch sm sm.state t) (λ a e. dispatch-timing sm sm.state t e)
