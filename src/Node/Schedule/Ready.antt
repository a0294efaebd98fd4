-- ===== src/Node/Schedule/Ready.antt =====
-- The peers that `collect_pending_retry_actions` retries are different and have attempts left.
use aether_link.Base.{
  ℕ, ◌<◌, ◌≡◌, sym, subst, if_both, true, false, ◌==◌, contains, Eq, Option, none, some, List, [],
  ◌∷◌, ltb, ltb→lt, if_cases, arith, All,
}
use aether_link.Base.Dict
use aether_link.Base.Dict.{Dict, NodupKeys, lookup-cons}
use aether_link.Base.Int.{ℤ, ltb_ℤ, saturating_sub_i64}
use aether_link.Security.Crypto.{Crypto}
use aether_link.Node.State.{Net, App, PendingOutboundSession}
use aether_link.Node.Schedule.{retries, collect_pending_retry_actions}
use aether_link.Node.Schedule.Due.{contains-retries}

-- A session with attempts left, if it is pending at all.
abbrev pub HasLeft : ℕ → Option PendingOutboundSession → Type 0
HasLeft limit o = (p : PendingOutboundSession) → o ≡ some p → p.attempts < limit

has_left :
    (limit : ℕ) (v : PendingOutboundSession) → ltb v.attempts limit ≡ true → HasLeft limit (some v)
has_left limit v h p e = ground (arith, ltb→lt v.attempts limit h)

module _ {P : Type 0} ⦃e : Eq P⦄ where
  -- Different peers, each with attempts left.
  unfoldable pub Ready : ℕ → Dict P PendingOutboundSession → List P → Type 0
  Ready limit d [] = Unit
  Ready limit d (p ∷ ps) =
      HasLeft limit (Dict.lookup p d) × All (λ j. (j == p) ≡ false) ps × Ready limit d ps

  All-apart : (k : P) (ps : List P) → contains ps k ≡ false → All (λ j. (j == k) ≡ false) ps
  All-apart k [] h = tt
  All-apart k (p ∷ ps) h = (ground arith, All-apart k ps (ground arith))

  -- Every entry of a dictionary without doubled keys is what its key looks up.
  abbrev IsEntry : Dict P PendingOutboundSession → P × PendingOutboundSession → Type 0
  IsEntry d (k, v) = Dict.lookup k d ≡ some v

  IsEntry-cons :
      (k : P) (v : PendingOutboundSession) (d xs : Dict P PendingOutboundSession)
      → Dict.lookup k d ≡ none
      → All (IsEntry d) xs
      → All (IsEntry ((k, v) ∷ d)) xs
  IsEntry-cons k v d [] fresh h = tt
  IsEntry-cons k v d ((j, w) ∷ xs) fresh (h, hs) =
      (ground (arith, lookup-cons j k v d), IsEntry-cons k v d xs fresh hs)

  IsEntry-All : (d : Dict P PendingOutboundSession) → NodupKeys d → All (IsEntry d) d
  IsEntry-All [] u = tt
  IsEntry-All ((k, v) ∷ d) (fresh, u) =
      (ground (arith, lookup-cons k k v d), IsEntry-cons k v d d fresh (IsEntry-All d u))

  Ready-retries :
      (timeout : ℤ) (m : ℕ) (now : ℤ) (whole d : Dict P PendingOutboundSession)
      → NodupKeys d
      → All (IsEntry whole) d
      → Ready m whole (retries timeout m now d).0
  unfolding retries Ready
  Ready-retries timeout m now whole [] u h = tt
  Ready-retries timeout m now whole ((k, v) ∷ d) (fresh, u) (at, h) =
      let rest = Ready-retries timeout m now whole d u h in
      let apart =
        All-apart k (retries timeout m now d).0
          (ground (arith, contains-retries timeout m now d k u)) in
      if_both (λ (r : List P × List P). Ready m whole r.0)
        (ltb_ℤ (saturating_sub_i64 now v.last_send_unix_ms) timeout) rest
        (if_cases (λ (r : List P × List P). Ready m whole r.0) (ltb v.attempts m)
          (λ left. (subst (HasLeft m) (sym at) (has_left m v left), apart, rest)) (λ out. rest))

module _ {C : Crypto} {N : Net} ⦃e : Eq C.PeerId⦄ where
  pub Ready-retry :
      (app : App C N) (now : ℤ)
      → NodupKeys app.pending_outbound_sessions
      → Ready app.session_request_max_attempts app.pending_outbound_sessions
          (collect_pending_retry_actions app now).0
  unfolding collect_pending_retry_actions
  Ready-retry app now u =
      Ready-retries app.session_request_timeout_ms app.session_request_max_attempts now
        app.pending_outbound_sessions app.pending_outbound_sessions u
        (IsEntry-All app.pending_outbound_sessions u)
