-- ===== src/Media.antt =====
-- crates/aetherlink-media/src/lib.rs: the adaptive bitrate. Every number is a `u32`.
pub mod Bitrate
use aether_link.Base.{
  ℕ, ◌*◌, ◌/◌, ◌≡◌, refl, Bool, ◌&&◌, ◌||◌, ◌==◌, nat_eq, ltb, if◌then◌else◌, Result, ok, err,
}
use aether_link.Base.Int.{saturating_mul}

pub record VideoProfile : Type 0 where
  pub width : ℕ
  pub height : ℕ
  pub fps : ℕ
  pub bitrate_kbps : ℕ

abbrev pub default_profile : VideoProfile
default_profile = record { width = 1280; height = 720; fps = 30; bitrate_kbps = 2500 }

pub record NetworkFeedback : Type 0 where
  pub rtt_ms : ℕ
  pub packet_loss_x10000 : ℕ

pub record BitrateLimits : Type 0 where
  pub floor_kbps : ℕ
  pub ceil_kbps : ℕ

abbrev pub default_limits : BitrateLimits
default_limits = record { floor_kbps = 600; ceil_kbps = 8000 }

pub data MediaError : Type 0 where
  invalid_limits : MediaError

-- `Ord::clamp`
abbrev pub clamp : ℕ → ℕ → ℕ → ℕ
clamp n lo hi = if ltb n lo then lo else if ltb hi n then hi else n

abbrev pub is_congested : NetworkFeedback → Bool
is_congested f = ltb 800 f.packet_loss_x10000 || ltb 200 f.rtt_ms

abbrev pub is_clear : NetworkFeedback → Bool
is_clear f = ltb f.packet_loss_x10000 150 && ltb f.rtt_ms 80

-- `next` before the last clamp.
abbrev pub scaled : ℕ → NetworkFeedback → ℕ
scaled next f =
    if is_congested f
    then saturating_mul 32 next 85 / 100
    else if is_clear f
    then saturating_mul 32 next 108 / 100
    else next

unfoldable pub adaptive_bitrate_step : ℕ → NetworkFeedback → BitrateLimits → Result MediaError ℕ
adaptive_bitrate_step current feedback limits =
    let floor = limits.floor_kbps in
    let ceil = limits.ceil_kbps in
    if floor == 0 || ltb ceil floor
    then err invalid_limits
    else ok (clamp (scaled (clamp current floor ceil) feedback) floor ceil)
