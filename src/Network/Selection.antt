-- ===== src/Network/Selection.antt =====
-- Which candidate `select_primary_candidate` chooses.
use aether_link.Base.{
  ℕ, ◌*◌, ◌≡◌, refl, ◌≤◌, ◌<◌, ◌↔◌, ltb, List, [], ◌∷◌, ◌++◌, ok, err, arith, All, ap, subst,
  ok_injective, ltb→lt, ltb-false→le, Bool-cases, inl, inr,
}
use aether_link.Network.{
  Candidate, CandidateKind, direct_ipv6, direct_lan, server_reflexive, relay, empty_candidates,
  weight, kind_weight, max_by_weight, heaviest, select_primary_candidate,
}

-- The parts of a list around its last heaviest member.
pub record LastHeaviest (best : Candidate) (cs : List Candidate) : Type 0 where
  pub before : List Candidate
  pub after : List Candidate
  pub parts : cs ≡ before ++ best ∷ after
  pub none_heavier : All (λ c. weight c ≤ weight best) before
  pub then_lighter : All (λ c. weight c < weight best) after

All-≤ :
    (m n : ℕ) (cs : List Candidate)
    → m ≤ n
    → All (λ c. weight c < m) cs
    → All (λ c. weight c ≤ n) cs
All-≤ m n [] h all = tt
All-≤ m n (c ∷ cs) h (lt, all) = (omega arith, All-≤ m n cs h all)

≤-append :
    (m n : ℕ) (xs ys : List Candidate) (c : Candidate)
    → m ≤ n
    → weight c ≤ n
    → All (λ c. weight c ≤ m) xs
    → All (λ c. weight c < m) ys
    → All (λ c. weight c ≤ n) (xs ++ c ∷ ys)
≤-append m n [] ys c h hc xa ya = (hc, All-≤ m n ys h ya)
≤-append m n (x ∷ xs) ys c h hc (xl, xa) ya = (omega arith, ≤-append m n xs ys c h hc xa ya)

<-snoc :
    (n : ℕ) (xs : List Candidate) (c : Candidate)
    → All (λ c. weight c < n) xs
    → weight c < n
    → All (λ c. weight c < n) (xs ++ c ∷ [])
<-snoc n [] c all h = (h, tt)
<-snoc n (x ∷ xs) c (xl, all) h = (xl, <-snoc n xs c all h)

snoc-append :
    (xs ys : List Candidate) (b c : Candidate) → (xs ++ b ∷ ys) ++ c ∷ [] ≡ xs ++ b ∷ (ys ++ c ∷ [])
snoc-append [] ys b c = refl
snoc-append (x ∷ xs) ys b c = ap (λ zs. x ∷ zs) (snoc-append xs ys b c)

append-snoc : (xs cs : List Candidate) (c : Candidate) → xs ++ c ∷ cs ≡ (xs ++ c ∷ []) ++ cs
append-snoc [] cs c = refl
append-snoc (x ∷ xs) cs c = ap (λ zs. x ∷ zs) (append-snoc xs cs c)

append-nil : (xs : List Candidate) → xs ++ [] ≡ xs
append-nil [] = refl
append-nil (x ∷ xs) = ap (λ zs. x ∷ zs) (append-nil xs)

-- `best` is the choice from the list walked so far.
max_by_weight-LastHeaviest :
    (best : Candidate) (before after cs : List Candidate)
    → All (λ c. weight c ≤ weight best) before
    → All (λ c. weight c < weight best) after
    → LastHeaviest (max_by_weight best cs) ((before ++ best ∷ after) ++ cs)
unfolding max_by_weight
max_by_weight-LastHeaviest best before after [] xa ya = record {
  before = before;
  after = after;
  parts = append-nil (before ++ best ∷ after);
  none_heavier = xa;
  then_lighter = ya;
}
max_by_weight-LastHeaviest best before after (c ∷ cs) xa ya =
    let lighter = max_by_weight-LastHeaviest best before (after ++ c ∷ []) cs xa in
    let heavier = max_by_weight-LastHeaviest c (before ++ best ∷ after) [] cs in
    elim (Bool-cases (ltb (weight c) (weight best))) [
      | inl lt ↦
          rw (lt, append-snoc (before ++ best ∷ after) cs c, snoc-append before after best c)
            (lighter (<-snoc (weight best) after c ya (ltb→lt _ _ lt)))
      | inr ge ↦
          rw (ge, append-snoc (before ++ best ∷ after) cs c)
            (heavier
              (≤-append (weight best) (weight c) before after best (ltb-false→le _ _ ge)
                (ltb-false→le _ _ ge) xa ya)
              tt)
    ]

pub select_primary_candidate_lem :
    (cs : List Candidate)
    → ((select_primary_candidate cs ≡ err empty_candidates) ↔ (cs ≡ []))
      × ((best : Candidate) → select_primary_candidate cs ≡ ok best → LastHeaviest best cs)
unfolding select_primary_candidate heaviest
select_primary_candidate_lem [] = ((λ h. refl, λ h. refl), λ best h. cc)
select_primary_candidate_lem (c ∷ cs) = (
  (λ h. cc, λ h. cc),
  λ best h.
      subst (λ b. LastHeaviest b (c ∷ cs)) (ok_injective h)
        (max_by_weight-LastHeaviest c [] [] cs tt tt),
)

abbrev pub IsSmall : Candidate → Type 0
IsSmall c = c.priority < 10000

abbrev pub NotBetter : Candidate → Candidate → Type 0
NotBetter best c = kind_weight c.kind ≤ kind_weight best.kind

kind_weight_step : (k : CandidateKind) → (n : ℕ) × (kind_weight k ≡ n * 10000) × (n ≤ 4)
kind_weight_step direct_ipv6 = (4, refl, omega arith)
kind_weight_step direct_lan = (3, refl, omega arith)
kind_weight_step server_reflexive = (2, refl, omega arith)
kind_weight_step relay = (1, refl, omega arith)

by_kind :
    (best c : Candidate) → IsSmall best → IsSmall c → weight c ≤ weight best → NotBetter best c
by_kind best c hb hc le = omega (arith, kind_weight_step best.kind, kind_weight_step c.kind)

IsSmall-best :
    (best : Candidate) (xs ys : List Candidate) → All IsSmall (xs ++ best ∷ ys) → IsSmall best
IsSmall-best best [] ys (h, all) = h
IsSmall-best best (x ∷ xs) ys (h, all) = IsSmall-best best xs ys all

kinds_of :
    (best : Candidate) (xs : List Candidate)
    → IsSmall best
    → All IsSmall xs
    → All (λ c. weight c ≤ weight best) xs
    → All (NotBetter best) xs
kinds_of best [] hb small le = tt
kinds_of best (x ∷ xs) hb (hx, small) (le, les) =
    (by_kind best x hb hx le, kinds_of best xs hb small les)

-- As long as every priority is below 10000, no candidate is of a better kind than the chosen one: direct
-- IPv6 before LAN, before server reflexive, before relay.
kind_before_priority :
    (cs : List Candidate) (best : Candidate)
    → All IsSmall cs
    → select_primary_candidate cs ≡ ok best
    → All (NotBetter best) cs
kind_before_priority cs best small h =
    let s = (select_primary_candidate_lem cs).1 best h in
    let small' = subst (All IsSmall) s.parts small in
    let le =
      ≤-append (weight best) (weight best) s.before s.after best (omega arith) (omega arith)
        s.none_heavier s.then_lighter in
    rw s.parts (
      kinds_of best (s.before ++ best ∷ s.after) (IsSmall-best best s.before s.after small') small'
        le)
