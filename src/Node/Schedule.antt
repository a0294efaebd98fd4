-- ===== src/Node/Schedule.antt =====
-- The methods of `App` that say what is due: retries, closes and punches.
pub mod Closing
pub mod Due
pub mod Ready
use aether_link.Base.{
  ℕ, Bool, true, false, not, ◌&&◌, String, Eq, Option, none, some, List, [], ◌∷◌, ltb,
  if◌then◌else◌, retain,
}
use aether_link.Base.Dict
use aether_link.Base.Dict.{Dict}
use aether_link.Base.Int.{ℤ, pos, ltb_ℤ, leb_ℤ, saturating_sub_i64}
use aether_link.Base.Sets.{unwrap_or}
use aether_link.Security.Crypto.{Crypto}
use aether_link.Node.State.{Net, App, PendingOutboundSession, PendingPunchAction}

module _ {P : Type 0} where
  -- The loop over the pending sessions: the peers to retry and those to give up.
  pub retries : ℤ → ℕ → ℤ → Dict P PendingOutboundSession → List P × List P
  retries timeout max_attempts now [] = ([], [])
  retries timeout max_attempts now ((peer, pending) ∷ d) =
      let rest = retries timeout max_attempts now d in
      if ltb_ℤ (saturating_sub_i64 now pending.last_send_unix_ms) timeout
      then rest
      else if ltb pending.attempts max_attempts
      then (peer ∷ rest.0, rest.1)
      else (rest.0, peer ∷ rest.1)

  abbrev pub is_due : ℤ → PendingPunchAction P → Bool
  is_due now action = leb_ℤ action.start_after_unix_ms now

  -- The loop over the drained actions.
  split_due :
      ℤ → List (PendingPunchAction P) → List (PendingPunchAction P) × List (PendingPunchAction P)
  split_due now [] = ([], [])
  split_due now (action ∷ actions) =
      let rest = split_due now actions in
      if is_due now action then (action ∷ rest.0, rest.1) else (rest.0, action ∷ rest.1)

abbrev pub is_over : ℤ → ℤ → ℤ → Bool
is_over limit now started = ltb_ℤ (pos 0) started && leb_ℤ limit (saturating_sub_i64 now started)

module _ {P : Type 0} ⦃e : Eq P⦄ where
  closes : ℤ → ℤ → Dict P ℤ → Dict P String → List (P × String)
  closes limit now started [] = []
  closes limit now started ((peer, session) ∷ d) =
      let rest = closes limit now started d in
      if is_over limit now (unwrap_or (Dict.lookup peer started) (pos 0))
      then (peer, session) ∷ rest
      else rest

module _ {C : Crypto} {N : Net} where
  unfoldable pub collect_pending_retry_actions : App C N → ℤ → List C.PeerId × List C.PeerId
  unfolding retries
  collect_pending_retry_actions app now =
      retries app.session_request_timeout_ms app.session_request_max_attempts now
        app.pending_outbound_sessions

  unfoldable pub collect_due_punch_actions :
      App C N → ℤ → List (PendingPunchAction C.PeerId) × App C N
  unfolding split_due
  collect_due_punch_actions app now =
      let (due, pending) = split_due now app.pending_punch_actions in
      (due, record app { pending_punch_actions = pending })

module _ {C : Crypto} {N : Net} ⦃e : Eq C.PeerId⦄ where
  unfoldable pub collect_auto_close_actions : App C N → ℤ → List (C.PeerId × String)
  unfolding closes
  collect_auto_close_actions app now =
      if leb_ℤ app.session_auto_close_ms (pos 0)
      then []
      else closes app.session_auto_close_ms now app.session_started_unix_ms app.active_sessions
