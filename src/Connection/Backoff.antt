-- ===== src/Connection/Backoff.antt =====
-- What `apply` leaves of the reconnect backoff. A handshake resets the counters and a path is only lost
-- from `active`, so every wait is the first one.
use aether_link.Base.{ℕ, ◌<◌, ◌≤◌, ◌^◌, min, ◌≡◌, ◌≢◌, some, arith, ok}
use aether_link.Connection.{
  TimingProfile, FailureReason, Trigger, Transition, ConnectionStateMachine, active, reconnecting,
  failed, reconnect_backoff, new, apply, ◌▸◌,
}

-- The machines that triggers lead to from a new one.
pub data Reach (timing : TimingProfile) : ConnectionStateMachine → Type 0 where
  start : Reach timing (new timing)
  step : {sm : ConnectionStateMachine} → Reach timing sm → (t : Trigger) → Reach timing (sm ▸ t)

abbrev pub first_wait : TimingProfile → ℕ
first_wait t = min t.reconnect_backoff_start_ms t.reconnect_backoff_max_ms

record HasFirstWait (t : TimingProfile) (sm : ConnectionStateMachine) : Type 0 where
  timed : sm.timing ≡ t
  active_attempts : sm.state ≡ active → sm.reconnect_attempts ≡ 0
  active_elapsed : sm.state ≡ active → sm.reconnect_elapsed_ms ≡ 0
  waiting : sm.state ≡ reconnecting → sm.reconnect_elapsed_ms ≡ first_wait t
  budgeted :
      sm.state ≡ failed FailureReason.retry_budget_exhausted → t.reconnect_budget_ms ≤ first_wait t

module _ (t : TimingProfile) (ranged : t.reconnect_backoff_start_ms < 2 ^ 64) where
  new-HasFirstWait : HasFirstWait t (new t)
  unfolding new
  new-HasFirstWait = ground arith

  step-HasFirstWait :
      (sm : ConnectionStateMachine) (trigger : Trigger)
      → HasFirstWait t sm
      → HasFirstWait t (sm ▸ trigger)
  unfolding apply
  step-HasFirstWait sm trigger h = ground arith

  Reach-HasFirstWait : {sm : ConnectionStateMachine} → Reach t sm → HasFirstWait t sm
  Reach-HasFirstWait start = new-HasFirstWait
  Reach-HasFirstWait (step {sm} r trigger) = step-HasFirstWait sm trigger (Reach-HasFirstWait r)

  armed_wait :
      (sm : ConnectionStateMachine) (trigger : Trigger) (tr : Transition) (ms : ℕ)
      → HasFirstWait t sm
      → (apply sm trigger).0 ≡ ok tr
      → tr.arm_timer ≡ some (reconnect_backoff, ms)
      → ms ≡ first_wait t
  unfolding apply
  armed_wait sm trigger tr ms h e timer = ground arith

  -- Whatever triggers a machine has seen since it was new, each reconnect timer that `apply` arms is
  -- the smaller of the start and the maximum of the backoff: the wait never doubles.
  pub backoff_never_grows :
      {sm : ConnectionStateMachine} (trigger : Trigger) (tr : Transition) (ms : ℕ)
      → Reach t sm
      → (apply sm trigger).0 ≡ ok tr
      → tr.arm_timer ≡ some (reconnect_backoff, ms)
      → ms ≡ first_wait t
  backoff_never_grows {sm} trigger tr ms r e timer =
      armed_wait sm trigger tr ms (Reach-HasFirstWait r) e timer

  -- Where the first wait is below the reconnect budget, no triggers at all lead a new machine to the
  -- failure by an exhausted retry budget.
  pub budget_never_exhausted :
      {sm : ConnectionStateMachine}
      → first_wait t < t.reconnect_budget_ms
      → Reach t sm
      → sm.state ≢ failed FailureReason.retry_budget_exhausted
  budget_never_exhausted below r e = omega (arith, (Reach-HasFirstWait r).budgeted e)
