-- ===== src/Tests/Crates.antt =====
-- Runs of the network, media and input crates.
use aether_link.Base.{
  ℕ, ◌*◌, ◌/◌, ◌≡◌, refl, ◌≤◌, ◌<◌, ◌^◌, max, ◌↔◌, true, false, none, some, [], ◌∷◌, ok, err, arith,
}
use aether_link.Network.{Candidate, direct_ipv6, relay, select_primary_candidate}
use aether_link.Media.{
  NetworkFeedback, default_limits, adaptive_bitrate_step, invalid_limits, is_congested, clamp,
}
use aether_link.Media.Bitrate.{IsLimits, step_bounds, rates, decay, congestion_reaches_floor}
use aether_link.Input.{
  InputEvent, key_payload, InputCommand, normalize_input_event, payload_of, IsBothKey,
  missing_payload, invalid_key_transition, normalize_input_event_total,
}

abbrev by_relay : Candidate
by_relay = record { address = "relay://x"; priority = 500; kind = relay }

abbrev by_ipv6 : Candidate
by_ipv6 = record { address = "/ip6/::1/udp/9000/quic-v1"; priority = 1; kind = direct_ipv6 }

prefers_ipv6 : select_primary_candidate (by_relay ∷ by_ipv6 ∷ []) ≡ ok by_ipv6
unfolding select_primary_candidate
prefers_ipv6 = refl

abbrev congested : NetworkFeedback
congested = record { rtt_ms = 260; packet_loss_x10000 = 1200 }

default-IsLimits : IsLimits default_limits
default-IsLimits = (omega arith, omega arith, omega arith)

step_bounds_example :
    let allowed = clamp 3000 600 8000 in
    (default_limits.floor_kbps ≡ 0
      → adaptive_bitrate_step 3000 congested default_limits ≡ err invalid_limits)
    × (8000 < 600 → adaptive_bitrate_step 3000 congested default_limits ≡ err invalid_limits)
    × (IsLimits default_limits
        → (next : ℕ) × (adaptive_bitrate_step 3000 congested default_limits ≡ ok next)
          × (600 ≤ next)
          × (next ≤ 8000)
          × (is_congested congested ≡ true → next ≤ allowed)
          × (is_congested congested ≡ false → allowed * 108 < 2 ^ 32 → allowed ≤ next))
step_bounds_example = step_bounds 3000 congested default_limits

congestion_reaches_floor_example :
    rates 800 default_limits (congested ∷ congested ∷ congested ∷ [])
    ≤ max (800 * 85 / 100 * 85 / 100 * 85 / 100) 600
unfolding decay
congestion_reaches_floor_example =
    congestion_reaches_floor 800 800 default_limits (congested ∷ congested ∷ congested ∷ [])
      default-IsLimits (refl, (refl, (refl, tt))) (omega arith)

abbrev both : InputEvent ℕ
both = record {
  session_id = "s";
  source = 2;
  event_unix_ms = 0;
  payload = some (key_payload 30 true true false 0);
}

normalize_input_event_total_example :
    ((normalize_input_event both ≡ err missing_payload) ↔ (both.payload ≡ none))
    × ((normalize_input_event both ≡ err invalid_key_transition) ↔ IsBothKey both.payload)
    × ((c : InputCommand ℕ)
        → normalize_input_event both ≡ ok c
        → both.payload ≡ some (payload_of c))
normalize_input_event_total_example = normalize_input_event_total both
