-- ===== src/Media/Bitrate.antt =====
-- What repeated steps of the adaptive bitrate do.
use aether_link.Base.{
  ℕ, zero, suc, ◌*◌, ◌/◌, ◌^◌, ◌≤◌, ◌<◌, max, length, ◌≡◌, nat_eq, true, false, ok, err, arith,
  List, [], ◌∷◌, All,
}
use aether_link.Media.{
  NetworkFeedback, BitrateLimits, invalid_limits, clamp, is_congested, scaled,
  adaptive_bitrate_step,
}

abbrev pub IsLimits : BitrateLimits → Type 0
IsLimits l = (0 < l.floor_kbps) × (l.floor_kbps ≤ l.ceil_kbps) × (l.ceil_kbps < 2 ^ 32)

-- The bitrate after a step; the given one on an error.
abbrev pub rate : ℕ → NetworkFeedback → BitrateLimits → ℕ
rate current f l = elim (adaptive_bitrate_step current f l) [ ok n ↦ n | err e ↦ current ]

-- A step fails exactly on a zero floor or a floor above the ceiling; otherwise its result is within the
-- limits, congestion does not raise the rate that the limits allow and a clear network does not lower it,
-- if that rate times 108 is a `u32`.
pub step_bounds :
    (current : ℕ) (f : NetworkFeedback) (l : BitrateLimits)
    → let allowed = clamp current l.floor_kbps l.ceil_kbps in
      (l.floor_kbps ≡ 0 → adaptive_bitrate_step current f l ≡ err invalid_limits)
      × (l.ceil_kbps < l.floor_kbps → adaptive_bitrate_step current f l ≡ err invalid_limits)
      × (IsLimits l
          → (next : ℕ) × (adaptive_bitrate_step current f l ≡ ok next)
            × (l.floor_kbps ≤ next)
            × (next ≤ l.ceil_kbps)
            × (is_congested f ≡ true → next ≤ allowed)
            × (is_congested f ≡ false → allowed * 108 < 2 ^ 32 → allowed ≤ next))
unfolding adaptive_bitrate_step
step_bounds current f l = (
  λ h. ground arith,
  λ h. ground arith,
  λ h. (
    clamp (scaled (clamp current l.floor_kbps l.ceil_kbps) f) l.floor_kbps l.ceil_kbps,
    ground arith,
    ground arith,
    ground arith,
    λ c. ground arith,
    λ c fits. ground arith,
  ),
)

-- Repeated steps, one per report.
pub rates : ℕ → BitrateLimits → List NetworkFeedback → ℕ
rates current l [] = current
rates current l (f ∷ fs) = rates (rate current f l) l fs

-- The ceiling after n steps of a loss of 15 per cent each.
unfoldable pub decay : ℕ → ℕ → ℕ
decay zero m = m
decay (suc n) m = decay n (m * 85 / 100)

decay_mono : (n a b : ℕ) → a ≤ b → decay n a ≤ decay n b
unfolding decay
decay_mono zero a b h = h
decay_mono (suc n) a b h = decay_mono n _ _ (omega arith)

congested_step :
    (current m : ℕ) (f : NetworkFeedback) (l : BitrateLimits)
    → IsLimits l
    → is_congested f ≡ true
    → current ≤ max m l.floor_kbps
    → rate current f l ≤ max (m * 85 / 100) l.floor_kbps
unfolding adaptive_bitrate_step
congested_step current m f l h c le = ground arith

-- Under valid limits, after n congested reports a rate within the ceiling is at most what n losses of 15
-- per cent leave of the ceiling, or the floor: when they leave no more than the floor, it is the floor.
pub congestion_reaches_floor :
    (current m : ℕ) (l : BitrateLimits) (fs : List NetworkFeedback)
    → IsLimits l
    → All (λ f. is_congested f ≡ true) fs
    → current ≤ max m l.floor_kbps
    → rates current l fs ≤ max (decay (length fs) m) l.floor_kbps
unfolding rates decay
congestion_reaches_floor current m l [] h all le = le
congestion_reaches_floor current m l (f ∷ fs) h (c, all) le =
    congestion_reaches_floor (rate current f l) (m * 85 / 100) l fs h all
      (congested_step current m f l h c le)
