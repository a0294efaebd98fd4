-- ===== src/Connection.antt =====
-- The connection state machine: crates/aetherlink-core/src/lib.rs.
-- A method that mutates `&mut self` returns its result beside the new machine.
pub mod Diagram
pub mod Backoff
pub mod Attempt
use aether_link.Base.{
  ℕ, ◌^◌, min, Bool, not, Option, none, some, ltb, if◌then◌else◌, Result, ok, err,
}
use aether_link.Base.Int.{saturating_add, saturating_mul}

-- Durations are `u64`, the threshold is `u32`.
pub record TimingProfile : Type 0 where
  pub discovery_timeout_ms : ℕ
  pub direct_dial_budget_ms : ℕ
  pub punch_budget_ms : ℕ
  pub relay_dial_timeout_ms : ℕ
  pub handshake_timeout_ms : ℕ
  pub ping_interval_ms : ℕ
  pub path_lost_threshold : ℕ
  pub reconnect_budget_ms : ℕ
  pub reconnect_backoff_start_ms : ℕ
  pub reconnect_backoff_max_ms : ℕ

abbrev pub default_timing : TimingProfile
default_timing = record {
  discovery_timeout_ms = 2500;
  direct_dial_budget_ms = 1500;
  punch_budget_ms = 2200;
  relay_dial_timeout_ms = 2500;
  handshake_timeout_ms = 1200;
  ping_interval_ms = 1000;
  path_lost_threshold = 3;
  reconnect_budget_ms = 15000;
  reconnect_backoff_start_ms = 200;
  reconnect_backoff_max_ms = 2000;
}

pub data FailureReason : Type 0 where
  discovery_timeout relay_timeout auth_failed version_mismatch : FailureReason
  retry_budget_exhausted user_abort : FailureReason

pub data ConnectionState : Type 0 where
  idle discovering dialing_direct hole_punching relay_dialing : ConnectionState
  secure_handshake active reconnecting : ConnectionState
  failed : FailureReason → ConnectionState
  closed : ConnectionState

pub data Trigger : Type 0 where
  start_connect candidates_found discovery_timeout direct_connected : Trigger
  direct_no_success punch_connected punch_timeout relay_connected : Trigger
  relay_timeout handshake_ok auth_failed version_mismatch path_lost : Trigger
  retry_budget_available retry_budget_exhausted user_retry user_hangup : Trigger

pub data TimerKind : Type 0 where
  discovery direct_dial hole_punch relay_dial handshake reconnect_backoff : TimerKind

pub record Transition : Type 0 where
  pub from : ConnectionState
  pub to : ConnectionState
  pub arm_timer : Option (TimerKind × ℕ)

pub data StateMachineError : Type 0 where
  invalid_transition : ConnectionState → Trigger → StateMachineError

pub record ConnectionStateMachine : Type 0 where
  pub state : ConnectionState
  pub timing : TimingProfile
  pub reconnect_elapsed_ms : ℕ
  pub reconnect_attempts : ℕ

unfoldable pub new : TimingProfile → ConnectionStateMachine
new timing = record {
  state = idle;
  timing = timing;
  reconnect_elapsed_ms = 0;
  reconnect_attempts = 0;
}

unfoldable pub register_backoff_wait : ConnectionStateMachine → ℕ → ConnectionStateMachine
register_backoff_wait sm backoff_ms = record sm {
  reconnect_attempts = saturating_add 32 sm.reconnect_attempts 1;
  reconnect_elapsed_ms = saturating_add 64 sm.reconnect_elapsed_ms backoff_ms;
}

unfoldable pub has_reconnect_budget : ConnectionStateMachine → Bool
has_reconnect_budget sm = ltb sm.reconnect_elapsed_ms sm.timing.reconnect_budget_ms

unfoldable pub next_backoff_ms : ConnectionStateMachine → ℕ
next_backoff_ms sm =
    let shift = min sm.reconnect_attempts 31 in
    let base = saturating_mul 64 sm.timing.reconnect_backoff_start_ms (2 ^ shift) in
    min base sm.timing.reconnect_backoff_max_ms

-- The machine with its counters updated, the next state and the timer to arm.
abbrev pub Arm : Type 0
Arm = ConnectionStateMachine × ConnectionState × Option (TimerKind × ℕ)

abbrev go : ConnectionStateMachine → ConnectionState → Option Arm
go sm to = some (sm, to, none)

abbrev arm : ConnectionStateMachine → ConnectionState → TimerKind → ℕ → Option Arm
arm sm to kind ms = some (sm, to, some (kind, ms))

-- The `match` of `apply`; `none` is its last arm.
dispatch : ConnectionStateMachine → ConnectionState → Trigger → Option Arm
unfolding register_backoff_wait has_reconnect_budget next_backoff_ms
dispatch sm idle start_connect = arm sm discovering discovery sm.timing.discovery_timeout_ms
dispatch sm discovering candidates_found =
    arm sm dialing_direct direct_dial sm.timing.direct_dial_budget_ms
dispatch sm discovering Trigger.discovery_timeout = go sm (failed FailureReason.discovery_timeout)
dispatch sm dialing_direct direct_connected =
    arm sm secure_handshake handshake sm.timing.handshake_timeout_ms
dispatch sm dialing_direct direct_no_success =
    arm sm hole_punching hole_punch sm.timing.punch_budget_ms
dispatch sm hole_punching punch_connected =
    arm sm secure_handshake handshake sm.timing.handshake_timeout_ms
dispatch sm hole_punching punch_timeout =
    arm sm relay_dialing relay_dial sm.timing.relay_dial_timeout_ms
dispatch sm relay_dialing relay_connected =
    arm sm secure_handshake handshake sm.timing.handshake_timeout_ms
dispatch sm relay_dialing Trigger.relay_timeout = go sm (failed FailureReason.relay_timeout)
dispatch sm secure_handshake handshake_ok =
    go (record sm { reconnect_attempts = 0; reconnect_elapsed_ms = 0 }) active
dispatch sm secure_handshake Trigger.auth_failed = go sm (failed FailureReason.auth_failed)
dispatch sm secure_handshake Trigger.version_mismatch =
    go sm (failed FailureReason.version_mismatch)
dispatch sm active path_lost =
    let wait = next_backoff_ms sm in
    arm (register_backoff_wait sm wait) reconnecting reconnect_backoff wait
dispatch sm reconnecting retry_budget_available =
    if has_reconnect_budget sm
    then arm sm dialing_direct direct_dial sm.timing.direct_dial_budget_ms
    else go sm (failed FailureReason.retry_budget_exhausted)
dispatch sm reconnecting Trigger.retry_budget_exhausted =
    if not (has_reconnect_budget sm)
    then go sm (failed FailureReason.retry_budget_exhausted)
    else none
dispatch sm (failed _) user_retry = go sm idle
dispatch sm active user_hangup = go sm closed
dispatch sm reconnecting user_hangup = go sm closed
dispatch sm secure_handshake user_hangup = go sm closed
dispatch sm dialing_direct user_hangup = go sm closed
dispatch sm hole_punching user_hangup = go sm closed
dispatch sm relay_dialing user_hangup = go sm closed
dispatch sm discovering user_hangup = go sm closed
dispatch _ _ _ = none

finish :
    ConnectionStateMachine
    → Trigger
    → Option Arm
    → Result StateMachineError Transition × ConnectionStateMachine
finish sm trigger none = (err (invalid_transition sm.state trigger), sm)
finish sm trigger (some (sm', to, timer)) =
    (ok (record { from = sm.state; to = to; arm_timer = timer }), record sm' { state = to })

unfoldable pub apply :
    ConnectionStateMachine → Trigger → Result StateMachineError Transition × ConnectionStateMachine
unfolding dispatch finish
apply sm trigger = finish sm trigger (dispatch sm sm.state trigger)

-- `let _ = sm.apply(t)`: the result is dropped.
infixl 20 ◌▸◌
abbrev pub ◌▸◌ : ConnectionStateMachine → Trigger → ConnectionStateMachine
sm ▸ t = (apply sm t).1
