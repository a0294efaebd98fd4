-- ===== src/Security/Verify/Skew.antt =====
-- The time window of the session messages, with the wrap-around of `i64`.
use aether_link.Base.{ℕ, ◌+◌, ◌≤◌, ◌<◌, ◌^◌, ◌≡◌, ◌⊎◌, false, arith}
use aether_link.Base.Int.{ℤ, pos, negsuc, IsI64, abs_ℤ, ◌-ℤ◌, sub_i64, abs_i64}
use aether_link.Security.Verify.{is_skewed}

-- For a clock below 2 ^ 62, the skew test passes exactly for times within the window and for the one time that lies 2 ^ 63 before
-- `now`, where the subtraction and the absolute value both wrap.
pub is_skewed_exact :
    (now : ℕ) (unix_ms : ℤ) (allowed : ℕ)
    → now < 2 ^ 62
    → allowed < 2 ^ 62
    → IsI64 unix_ms
    → (is_skewed (pos now) unix_ms (pos allowed) ≡ false
        → (abs_ℤ (pos now -ℤ unix_ms) ≤ allowed) ⊎ (pos now -ℤ unix_ms ≡ pos (2 ^ 63)))
      × ((abs_ℤ (pos now -ℤ unix_ms) ≤ allowed) ⊎ (pos now -ℤ unix_ms ≡ pos (2 ^ 63))
          → is_skewed (pos now) unix_ms (pos allowed) ≡ false)
unfolding is_skewed sub_i64 abs_i64
is_skewed_exact now (pos n) allowed hn ha hu = (λ h. ground arith, λ h. ground arith)
is_skewed_exact now (negsuc n) allowed hn ha hu = (λ h. ground arith, λ h. ground arith)

-- Two times that pass the test for one message are at most two windows apart.
pub skew_pair :
    (first second : ℕ) (unix_ms : ℤ) (allowed : ℕ)
    → first < 2 ^ 62
    → second < 2 ^ 62
    → allowed < 2 ^ 62
    → IsI64 unix_ms
    → is_skewed (pos first) unix_ms (pos allowed) ≡ false
    → is_skewed (pos second) unix_ms (pos allowed) ≡ false
    → second ≤ first + (allowed + allowed)
unfolding is_skewed sub_i64 abs_i64
skew_pair first second (pos n) allowed hf hs ha hu p q = ground arith
skew_pair first second (negsuc n) allowed hf hs ha hu p q = ground arith
