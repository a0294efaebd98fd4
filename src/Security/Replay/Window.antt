-- ===== src/Security/Replay/Window.antt =====
-- What the replay cache promises: a nonce is refused exactly while its entry is retained.
use aether_link.Base.{
  ℕ, ◌+◌, ◌∙◌, ◌≡◌, ◌≤◌, ◌<◌, ◌^◌, Bool, true, false, Option, none, some, List, [], ◌∷◌, arith, ok,
  err, if◌then◌else◌, is_ok, ◌&&◌, ◌==◌, list_eq, nat_eq, All,
}
use aether_link.Base.Dict
use aether_link.Base.Dict.{
  Dict, NodupKeys, keep_if, retain_values-NodupKeys, insert-NodupKeys, lookup-insert,
  lookup-retain_values, contains_key-lookup,
}
use aether_link.Base.Int.{ℤ, pos, sub_i64}
use aether_link.Messages.{Bytes}
use aether_link.Security.Errors.{replay_detected}
use aether_link.Security.Replay.{NonceReplayCache, is_retained, check_and_store}

-- The time at which a nonce was stored, if the cache still refuses it at `now`.
abbrev pub stored : NonceReplayCache → ℤ → Bytes → Option ℤ
stored c now nonce = keep_if (is_retained c.retention_ms now) (Dict.lookup nonce c.seen)

abbrev pub is_none : Option ℤ → Bool
is_none none = true
is_none (some t) = false

abbrev pub IsCache : NonceReplayCache → Type 0
IsCache c = NodupKeys c.seen

-- At `now` a nonce is accepted exactly if no retained entry holds it. Then it is entered with `now`,
-- and every other nonce keeps its retained entry; no other entry is left.
pub check_and_store_lem :
    (c : NonceReplayCache) (nonce : Bytes) (now : ℤ) (j : Bytes)
    → IsCache c
    → let (r, c') = check_and_store c nonce now in
      (r ≡ (if is_none (stored c now nonce) then ok tt else err replay_detected))
      × (Dict.lookup j c'.seen ≡ (if is_ok r && (j == nonce) then some now else stored c now j))
      × (c'.retention_ms ≡ c.retention_ms)
unfolding check_and_store
check_and_store_lem c nonce now j u = ground (
  arith,
  lookup-retain_values (is_retained c.retention_ms now) nonce c.seen u,
  lookup-retain_values (is_retained c.retention_ms now) j c.seen u,
  contains_key-lookup nonce (Dict.retain_values (is_retained c.retention_ms now) c.seen),
  lookup-insert j nonce now (Dict.retain_values (is_retained c.retention_ms now) c.seen),
)

pub check_and_store-IsCache :
    (c : NonceReplayCache) (nonce : Bytes) (now : ℤ)
    → IsCache c
    → IsCache (check_and_store c nonce now).1
unfolding check_and_store
check_and_store-IsCache c nonce now u =
    let kept = retain_values-NodupKeys (is_retained c.retention_ms now) c.seen u in
    ground (
      arith,
      insert-NodupKeys nonce now (Dict.retain_values (is_retained c.retention_ms now) c.seen) kept,
    )

-- The cache after calls whose results are dropped, each with its nonce and its time.
unfoldable pub checks : NonceReplayCache → List (Bytes × ℕ) → NonceReplayCache
checks c [] = c
checks c ((nonce, now) ∷ calls) = checks (check_and_store c nonce (pos now)).1 calls

-- Times that a clock can show, up to `last`.
abbrev pub UpTo : ℕ → Bytes × ℕ → Type 0
UpTo last (_, now) = (now < 2 ^ 63) × (now ≤ last)

retained_until :
    (retention now seen : ℕ)
    → now < 2 ^ 63
    → seen < 2 ^ 63
    → now ≤ seen + retention
    → is_retained (pos retention) (pos now) (pos seen) ≡ true
unfolding is_retained sub_i64
retained_until retention now seen hn hs h = ground arith

record Holds (nonce : Bytes) (seen retention : ℕ) (c : NonceReplayCache) : Type 0 where
  cache : IsCache c
  retains : c.retention_ms ≡ pos retention
  entered : Dict.lookup nonce c.seen ≡ some (pos seen)

module _ (nonce : Bytes) (seen retention : ℕ) (clock : seen < 2 ^ 63) where
  stored_of_Holds :
      (c : NonceReplayCache) (now : ℕ)
      → Holds nonce seen retention c
      → now < 2 ^ 63
      → now ≤ seen + retention
      → stored c (pos now) nonce ≡ some (pos seen)
  stored_of_Holds c now h hn until =
      ground (arith, h.retains, h.entered, retained_until retention now seen hn clock until)

  refused_of_Holds :
      (c : NonceReplayCache) (now : ℕ)
      → Holds nonce seen retention c
      → now < 2 ^ 63
      → now ≤ seen + retention
      → (check_and_store c nonce (pos now)).0 ≡ err replay_detected
  refused_of_Holds c now h hn until =
      ground (
        arith,
        check_and_store_lem c nonce (pos now) nonce h.cache,
        stored_of_Holds c now h hn until,
      )

  step-Holds :
      (c : NonceReplayCache) (other : Bytes) (now : ℕ)
      → Holds nonce seen retention c
      → now < 2 ^ 63
      → now ≤ seen + retention
      → Holds nonce seen retention (check_and_store c other (pos now)).1
  step-Holds c other now h hn until = record {
    cache = check_and_store-IsCache c other (pos now) h.cache;
    retains = (check_and_store_lem c other (pos now) nonce h.cache).2 ∙ h.retains;
    entered = ground (
      arith,
      check_and_store_lem c other (pos now) nonce h.cache,
      stored_of_Holds c now h hn until,
    );
  }

  checks-Holds :
      (c : NonceReplayCache) (calls : List (Bytes × ℕ))
      → Holds nonce seen retention c
      → All (UpTo (seen + retention)) calls
      → Holds nonce seen retention (checks c calls)
  unfolding checks
  checks-Holds c [] h _ = h
  checks-Holds c ((other, now) ∷ calls) h ((hn, until), rest) =
      checks-Holds (check_and_store c other (pos now)).1 calls (step-Holds c other now h hn until)
        rest

-- A nonce that was accepted at a time is refused at every time up to the end of its retention, whatever
-- other calls come in between, in whatever order their times are, as long as none is past that end.
pub accepted_once :
    (c : NonceReplayCache) (nonce : Bytes) (seen retention later : ℕ) (calls : List (Bytes × ℕ))
    → IsCache c
    → c.retention_ms ≡ pos retention
    → seen < 2 ^ 63
    → (check_and_store c nonce (pos seen)).0 ≡ ok tt
    → All (UpTo (seen + retention)) calls
    → later < 2 ^ 63
    → later ≤ seen + retention
    → (check_and_store (checks (check_and_store c nonce (pos seen)).1 calls) nonce (pos later)).0
      ≡ err replay_detected
accepted_once c nonce seen retention later calls u r clock first between hl until =
    refused_of_Holds nonce seen retention clock _ later
      (checks-Holds nonce seen retention clock _ calls entered between) hl until
  where
    entered : Holds nonce seen retention (check_and_store c nonce (pos seen)).1
    entered = record {
      cache = check_and_store-IsCache c nonce (pos seen) u;
      retains = (check_and_store_lem c nonce (pos seen) nonce u).2 ∙ r;
      entered = ground (arith, check_and_store_lem c nonce (pos seen) nonce u);
    }
