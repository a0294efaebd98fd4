-- ===== src/Node/Schedule/Due.antt =====
-- Which retries and punches are due.
use aether_link.Base.{
  ℕ, ◌≡◌, refl, Bool, false, not, ◌&&◌, Eq, contains, Option, none, some, List, [], ◌∷◌, ltb,
  retain, arith,
}
use aether_link.Base.Dict
use aether_link.Base.Dict.{Dict, NodupKeys}
use aether_link.Base.Int.{ℤ, ltb_ℤ, saturating_sub_i64}
use aether_link.Security.Crypto.{Crypto}
use aether_link.Node.State.{Net, App, PendingOutboundSession, PendingPunchAction}
use aether_link.Node.Schedule.{
  retries, collect_pending_retry_actions, is_due, split_due, collect_due_punch_actions,
}

-- A request whose answer has not come in time, and whether it has attempts left.
abbrev pub is_late : ℤ → ℤ → PendingOutboundSession → Bool
is_late timeout now p = not (ltb_ℤ (saturating_sub_i64 now p.last_send_unix_ms) timeout)

abbrev pub retried : ℤ → ℕ → ℤ → Option PendingOutboundSession → Bool
retried timeout max_attempts now none = false
retried timeout max_attempts now (some p) = is_late timeout now p && ltb p.attempts max_attempts

abbrev pub given_up : ℤ → ℕ → ℤ → Option PendingOutboundSession → Bool
given_up timeout max_attempts now none = false
given_up timeout max_attempts now (some p) =
    is_late timeout now p && not (ltb p.attempts max_attempts)

module _ {P : Type 0} ⦃e : Eq P⦄ where
  pub contains-retries :
      (timeout : ℤ) (m : ℕ) (now : ℤ) (d : Dict P PendingOutboundSession) (p : P)
      → NodupKeys d
      → (contains (retries timeout m now d).0 p ≡ retried timeout m now (Dict.lookup p d))
        × (contains (retries timeout m now d).1 p ≡ given_up timeout m now (Dict.lookup p d))
  unfolding retries Dict.lookup
  contains-retries timeout m now [] p u = (refl, refl)
  contains-retries timeout m now ((k, v) ∷ d) p (fresh, u) =
      ground (arith, contains-retries timeout m now d p u, contains-retries timeout m now d k u)

module _ {P : Type 0} where
  split_due_lem :
      (now : ℤ) (xs : List (PendingPunchAction P))
      → ((split_due now xs).0 ≡ retain (is_due now) xs)
        × ((split_due now xs).1 ≡ retain (λ x. not (is_due now x)) xs)
  unfolding split_due
  split_due_lem now [] = (refl, refl)
  split_due_lem now (x ∷ xs) = ground (arith, split_due_lem now xs)

module _ {C : Crypto} {N : Net} where
  -- The punches that are due come out in the order in which they came in, and the others stay in theirs.
  collect_due_punch_actions_lem :
      (app : App C N) (now : ℤ)
      → let (due, app') = collect_due_punch_actions app now in
        (due ≡ retain (is_due now) app.pending_punch_actions)
        × (app'.pending_punch_actions ≡ retain (λ x. not (is_due now x)) app.pending_punch_actions)
  unfolding collect_due_punch_actions
  collect_due_punch_actions_lem app now = split_due_lem now app.pending_punch_actions

module _ {C : Crypto} {N : Net} ⦃e : Eq C.PeerId⦄ where
  -- If no peer has two pending requests, then of the pending requests those without an answer for the timeout are
  -- retried if they have attempts left, and given up otherwise; no other peer is either.
  pub collect_pending_retry_actions_lem :
      (app : App C N) (now : ℤ) (peer : C.PeerId)
      → NodupKeys app.pending_outbound_sessions
      → let (retry, fail) = collect_pending_retry_actions app now in
        let pending = Dict.lookup peer app.pending_outbound_sessions in
        (contains retry peer
          ≡ retried app.session_request_timeout_ms app.session_request_max_attempts now pending)
        × (contains fail peer
            ≡ given_up app.session_request_timeout_ms app.session_request_max_attempts now pending)
  unfolding collect_pending_retry_actions
  collect_pending_retry_actions_lem app now peer u =
      contains-retries app.session_request_timeout_ms app.session_request_max_attempts now
        app.pending_outbound_sessions peer u
