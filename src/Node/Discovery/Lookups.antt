-- ===== src/Node/Discovery/Lookups.antt =====
-- Which device codes a round of lookups asks the DHT for.
use aether_link.Base.{String, string_eq, nat_eq, Eq, Option, List, if◌then◌else◌}
use aether_link.Base.Dict
use aether_link.Base.Dict.{Dict}
use aether_link.Base.Int.{ℤ}
use aether_link.Security.Crypto.{Crypto}
use aether_link.Node.State.{Net, App}
use aether_link.Node.World.{World}
use aether_link.Node.Control.{Node}
use aether_link.Node.Discovery.{start_lookup, is_lookup_due}

module _ {C : Crypto} {N : Net} (W : World C N) ⦃q : Eq N.QueryId⦄ where
  -- The time of the last lookup of a code.
  abbrev last : App C N → String → Option ℤ
  last app t = Dict.lookup t app.last_device_lookup_unix_ms

  abbrev step : List String → ℤ → String → Node W → Node W
  step pending now target node =
      if is_lookup_due W pending now node.0 target then start_lookup W target now node else node
