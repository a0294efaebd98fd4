-- ===== src/Node/Keepalive/Silence.antt =====
-- When a peer is lost: exactly for want of pongs.
use aether_link.Base.{ℕ, ◌+◌, ◌^◌, ◌≤◌, ◌<◌, max, ◌≡◌, Bool, false, some, List, [], ◌∷◌}
use aether_link.Base.Int.{pos}
use aether_link.Node.State.{ControlKeepaliveState}
use aether_link.Node.Keepalive.{Limits, tick_peer}

abbrev pub limits : ℕ → ℕ → ℕ → Limits
limits interval timeout m = record {
  interval_ms = pos interval;
  timeout_ms = pos timeout;
  max_misses = m;
}

-- A ping was sent at a time and its pong has not come, after that many misses.
pub record Waits (since misses : ℕ) (st : ControlKeepaliveState) : Type 0 where
  pub sent : st.last_send_unix_ms ≡ pos since
  pub awaited : st.awaiting_since_unix_ms ≡ some (pos since)
  pub missed_before : st.consecutive_misses ≡ misses

module _ (interval timeout m : ℕ) where
  abbrev pub wait_ms : ℕ
  wait_ms = max interval timeout

  -- Ticks at least a wait apart, the first one a wait after `since`, on a clock below 2 ^ 62.
  unfoldable pub IsSpaced : ℕ → List ℕ → Type 0
  IsSpaced since [] = Unit
  IsSpaced since (now ∷ times) =
      (since + max interval timeout ≤ now) × (now < 2 ^ 62) × IsSpaced now times

  -- The ticks of a peer that does not answer; whether the last one reports it lost.
  pub silence : ControlKeepaliveState → List ℕ → Bool
  silence st [] = false
  silence st (now ∷ []) = (tick_peer (limits interval timeout m) (pos now) st).lost
  silence st (now ∷ next ∷ times) =
      silence (tick_peer (limits interval timeout m) (pos now) st).state (next ∷ times)
