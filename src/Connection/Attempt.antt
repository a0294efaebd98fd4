-- ===== src/Connection/Attempt.antt =====
-- How long a connection attempt can take: each accepted trigger of an attempt spends a timer of its own.
use aether_link.Base.{
  ℕ, ◌+◌, ◌≤◌, ◌≡◌, Bool, true, false, Option, none, some, List, [], ◌∷◌, arith, Result, ok, err,
  if◌then◌else◌,
}
use aether_link.Connection.{
  TimingProfile, ConnectionState, Trigger, TimerKind, Transition, StateMachineError,
  ConnectionStateMachine, idle, discovering, dialing_direct, hole_punching, relay_dialing,
  secure_handshake, apply, ◌▸◌,
}

abbrev pub is_connecting : ConnectionState → Bool
is_connecting idle = true
is_connecting discovering = true
is_connecting dialing_direct = true
is_connecting hole_punching = true
is_connecting relay_dialing = true
is_connecting secure_handshake = true
is_connecting _ = false

abbrev timer_ms : Option (TimerKind × ℕ) → ℕ
timer_ms none = 0
timer_ms (some (kind, ms)) = ms

abbrev armed : Result StateMachineError Transition → ℕ
armed (ok tr) = timer_ms tr.arm_timer
armed (err e) = 0

abbrev accepted : Result StateMachineError Transition → ℕ
accepted (ok tr) = 1
accepted (err e) = 0

-- The sum of the timers that triggers arm until the attempt is over, and how many are accepted.
pub armed_ms : ConnectionStateMachine → List Trigger → ℕ
armed_ms sm [] = 0
armed_ms sm (t ∷ ts) =
    if is_connecting sm.state then armed (apply sm t).0 + armed_ms (sm ▸ t) ts else 0

pub accepted_count : ConnectionStateMachine → List Trigger → ℕ
accepted_count sm [] = 0
accepted_count sm (t ∷ ts) =
    if is_connecting sm.state then accepted (apply sm t).0 + accepted_count (sm ▸ t) ts else 0

-- The timers that are still to come, and the steps.
abbrev pub remaining_ms : TimingProfile → ConnectionState → ℕ
remaining_ms t idle =
    t.discovery_timeout_ms
    + (t.direct_dial_budget_ms
        + (t.punch_budget_ms + (t.relay_dial_timeout_ms + t.handshake_timeout_ms)))
remaining_ms t discovering =
    t.direct_dial_budget_ms
    + (t.punch_budget_ms + (t.relay_dial_timeout_ms + t.handshake_timeout_ms))
remaining_ms t dialing_direct =
    t.punch_budget_ms + (t.relay_dial_timeout_ms + t.handshake_timeout_ms)
remaining_ms t hole_punching = t.relay_dial_timeout_ms + t.handshake_timeout_ms
remaining_ms t relay_dialing = t.handshake_timeout_ms
remaining_ms t _ = 0

abbrev pub remaining_steps : ConnectionState → ℕ
remaining_steps idle = 6
remaining_steps discovering = 5
remaining_steps dialing_direct = 4
remaining_steps hole_punching = 3
remaining_steps relay_dialing = 2
remaining_steps secure_handshake = 1
remaining_steps _ = 0

apply_spends :
    (sm : ConnectionStateMachine) (t : Trigger)
    → is_connecting sm.state ≡ true
    → (armed (apply sm t).0 + remaining_ms (sm ▸ t).timing (sm ▸ t).state
        ≤ remaining_ms sm.timing sm.state)
      × (accepted (apply sm t).0 + remaining_steps (sm ▸ t).state ≤ remaining_steps sm.state)
unfolding apply
apply_spends sm t h = ground arith

-- Whatever triggers come, the timers that an attempt arms from now on add up to at most those of the
-- stages that its state has still ahead, and at most one trigger is accepted for each such stage.
pub attempt_bounded :
    (sm : ConnectionStateMachine) (ts : List Trigger)
    → (armed_ms sm ts ≤ remaining_ms sm.timing sm.state)
      × (accepted_count sm ts ≤ remaining_steps sm.state)
unfolding armed_ms accepted_count
attempt_bounded sm [] = (omega arith, omega arith)
attempt_bounded sm (t ∷ ts) = ground (arith, apply_spends sm t, attempt_bounded (sm ▸ t) ts)
