-- ===== src/Network.antt =====
-- crates/aetherlink-network/src/lib.rs: the order of dials to a peer and the choice of an address.
pub mod Selection
use aether_link.Base.{
  ℕ, ◌≡◌, refl, Bool, String, string_eq, ◌==◌, Option, none, some, List, [], ◌∷◌, Result, ok, err,
  ok_or, ltb, if◌then◌else◌,
}
use aether_link.Base.Int.{saturating_add}
use aether_link.Connection.{TimingProfile}

pub data CandidateKind : Type 0 where
  direct_ipv6 : CandidateKind
  direct_lan : CandidateKind
  server_reflexive : CandidateKind
  relay : CandidateKind

pub record Candidate : Type 0 where
  pub address : String
  pub priority : ℕ
  pub kind : CandidateKind

pub data DialPhase : Type 0 where
  direct : DialPhase
  hole_punch : DialPhase
  relayed : DialPhase

pub record DialPlan : Type 0 where
  pub phase : DialPhase
  pub start_after_ms : ℕ
  pub timeout_ms : ℕ

pub data PlannerError : Type 0 where
  empty_candidates : PlannerError

-- The array of three plans.
unfoldable pub plan_dial_race : TimingProfile → DialPlan × DialPlan × DialPlan
plan_dial_race timing = (
  record { phase = direct; start_after_ms = 0; timeout_ms = timing.direct_dial_budget_ms },
  record { phase = hole_punch; start_after_ms = 200; timeout_ms = timing.punch_budget_ms },
  record { phase = relayed; start_after_ms = 1600; timeout_ms = timing.relay_dial_timeout_ms },
)

abbrev pub kind_weight : CandidateKind → ℕ
kind_weight direct_ipv6 = 40000
kind_weight direct_lan = 30000
kind_weight server_reflexive = 20000
kind_weight relay = 10000

-- The key of `max_by_key`, a `u64`.
abbrev pub weight : Candidate → ℕ
weight c = saturating_add 64 (kind_weight c.kind) c.priority

-- `max_by_key` keeps the last of equal keys.
max_by_weight : Candidate → List Candidate → Candidate
max_by_weight best [] = best
max_by_weight best (c ∷ cs) = max_by_weight (if ltb (weight c) (weight best) then best else c) cs

unfoldable pub heaviest : List Candidate → Option Candidate
unfolding max_by_weight
heaviest [] = none
heaviest (c ∷ cs) = some (max_by_weight c cs)

unfoldable pub select_primary_candidate : List Candidate → Result PlannerError Candidate
unfolding heaviest
select_primary_candidate candidates = ok_or (heaviest candidates) empty_candidates

-- Of the generated aetherlink.v1 code.
pub data PathType : Type 0 where
  path_unspecified : PathType
  path_direct : PathType
  path_hole_punch : PathType
  path_relay : PathType

pub data SessionErrorCode : Type 0 where
  code_unspecified : SessionErrorCode
  code_discovery_timeout : SessionErrorCode
  code_dial_timeout : SessionErrorCode
  code_hole_punch_failed : SessionErrorCode
  code_relay_unavailable : SessionErrorCode
  code_auth_failed : SessionErrorCode
  code_permission_denied : SessionErrorCode
  code_internal : SessionErrorCode

unfoldable pub path_type_to_proto : DialPhase → PathType
path_type_to_proto direct = path_direct
path_type_to_proto hole_punch = path_hole_punch
path_type_to_proto relayed = path_relay

unfoldable pub classify_failure_to_error_code : String → SessionErrorCode
classify_failure_to_error_code code =
    if code == "discovery_timeout"
    then code_discovery_timeout
    else if code == "dial_timeout"
    then code_dial_timeout
    else if code == "punch_failed"
    then code_hole_punch_failed
    else if code == "relay_unavailable"
    then code_relay_unavailable
    else if code == "auth_failed"
    then code_auth_failed
    else if code == "permission_denied"
    then code_permission_denied
    else code_internal
