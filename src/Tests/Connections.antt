-- ===== src/Tests/Connections.antt =====
-- Runs of the connection state machine.
use aether_link.Base.{◌+◌, ◌≤◌, ◌≡◌, ◌≢◌, refl, some, [], ◌∷◌, ok, arith}
use aether_link.Connection.{
  FailureReason, Trigger, Transition, ConnectionStateMachine, default_timing, new, apply, ◌▸◌,
  start_connect, candidates_found, direct_connected, direct_no_success, handshake_ok, path_lost,
  reconnect_backoff, active, reconnecting, failed,
}
use aether_link.Connection.Backoff.{
  Reach, start, step, backoff_never_grows, budget_never_exhausted, first_wait,
}
use aether_link.Connection.Attempt.{attempt_bounded, armed_ms, accepted_count}

abbrev fresh : ConnectionStateMachine
fresh = new default_timing

-- A machine whose direct dial led to a session.
abbrev connected : ConnectionStateMachine
connected = fresh ▸ start_connect ▸ candidates_found ▸ direct_connected ▸ handshake_ok

connected_state : connected.state ≡ active
unfolding new apply
connected_state = refl

connected-Reach : Reach default_timing connected
connected-Reach =
    step (step (step (step start start_connect) candidates_found) direct_connected) handshake_ok

-- The path is lost a second time, after a second handshake.
abbrev lost_again : ConnectionStateMachine
lost_again =
    connected ▸ path_lost ▸ Trigger.retry_budget_available ▸ direct_connected ▸ handshake_ok

abbrev second_loss : Transition
second_loss = record { from = active; to = reconnecting; arm_timer = some (reconnect_backoff, 200) }

second_loss_lem : (apply lost_again path_lost).0 ≡ ok second_loss
unfolding new apply
second_loss_lem = refl

backoff_never_grows_example : 200 ≡ first_wait default_timing
backoff_never_grows_example =
    backoff_never_grows default_timing (omega arith) path_lost second_loss 200
      (step
        (step (step (step connected-Reach path_lost) Trigger.retry_budget_available)
          direct_connected)
        handshake_ok)
      second_loss_lem refl

budget_never_exhausted_example : connected.state ≢ failed FailureReason.retry_budget_exhausted
budget_never_exhausted_example =
    budget_never_exhausted default_timing (omega arith) (omega arith) connected-Reach

attempt_bounded_example :
    (armed_ms fresh (start_connect ∷ candidates_found ∷ direct_no_success ∷ [])
      ≤ 2500 + (1500 + (2200 + (2500 + 1200))))
    × (accepted_count fresh (start_connect ∷ candidates_found ∷ direct_no_success ∷ []) ≤ 6)
unfolding new
attempt_bounded_example =
    attempt_bounded fresh (start_connect ∷ candidates_found ∷ direct_no_success ∷ [])
