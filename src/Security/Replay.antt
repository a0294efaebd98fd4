-- ===== src/Security/Replay.antt =====
-- `NonceReplayCache` of crates/aetherlink-core/src/security.rs. Times are `i64` unix milliseconds.
pub mod Window
use aether_link.Base.{Bool, true, [], Result, ok, err, if◌then◌else◌, list_eq, nat_eq}
use aether_link.Base.Dict
use aether_link.Base.Dict.{Dict}
use aether_link.Base.Int.{ℤ, pos, ltb_ℤ, leb_ℤ, max_ℤ, sub_i64}
use aether_link.Messages.{Bytes}
use aether_link.Security.Errors.{SessionAuthError, replay_detected}

pub record NonceReplayCache : Type 0 where
  pub retention_ms : ℤ
  pub seen : Dict Bytes ℤ

abbrev pub default_replay_retention_ms : ℤ
default_replay_retention_ms = pos 60000

unfoldable pub new : ℤ → NonceReplayCache
new retention_ms = record { retention_ms = max_ℤ retention_ms (pos 1); seen = [] }

-- The closure of `retain`.
unfoldable pub is_retained : ℤ → ℤ → ℤ → Bool
is_retained retention now seen = if ltb_ℤ now seen then true else leb_ℤ (sub_i64 now seen) retention

unfoldable pub evict_expired : NonceReplayCache → ℤ → NonceReplayCache
evict_expired c now = record c { seen = Dict.retain_values (is_retained c.retention_ms now) c.seen }

store : NonceReplayCache → Bytes → ℤ → Result SessionAuthError (Unit {0}) × NonceReplayCache
store c nonce now =
    if Dict.contains_key nonce c.seen
    then (err replay_detected, c)
    else (ok tt, record c { seen = Dict.insert nonce now c.seen })

unfoldable pub check_and_store :
    NonceReplayCache → Bytes → ℤ → Result SessionAuthError (Unit {0}) × NonceReplayCache
unfolding evict_expired store
check_and_store c nonce now = store (evict_expired c now) nonce now
