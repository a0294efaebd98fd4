-- ===== src/Node/Control/Activity.antt =====
-- How steps of the node change the active sessions.
use aether_link.Base.{◌≡◌, refl, ◌⊎◌, inl, inr, subst, String, Eq, some, arith}
use aether_link.Base.Dict
use aether_link.Base.Dict.{Dict, lookup-insert, lookup-erase}
use aether_link.Messages.{ControlEnvelope}
use aether_link.Security.Crypto.{Crypto}
use aether_link.Node.State.{Net, OutboundControlRequestKind}
use aether_link.Node.World.{World}
use aether_link.Node.Control.{Node, send_control}

module _ {P : Type 0} ⦃e : Eq P⦄ where
  -- Every session of the new map is one of the old, or the peer's and allowed.
  abbrev pub OpensOnly : P → (String → Type 0) → Dict P String → Dict P String → Type 0
  OpensOnly peer Allowed d d' =
      (j : P) (s : String)
      → Dict.lookup j d' ≡ some s
      → (Dict.lookup j d ≡ some s) ⊎ ((j ≡ peer) × Allowed s)

  pub OpensOnly-same :
      (peer : P) (Allowed : String → Type 0) (d d' : Dict P String)
      → d' ≡ d
      → OpensOnly peer Allowed d d'
  OpensOnly-same peer Allowed d d' same j s h = inl (cc (same, h))

  pub OpensOnly-erase :
      (peer : P) (Allowed : String → Type 0) (d : Dict P String)
      → OpensOnly peer Allowed d (Dict.erase peer d)
  OpensOnly-erase peer Allowed d j s h = inl (ground (arith, lookup-erase j peer d))

  pub OpensOnly-weaken :
      (peer : P) (A B : String → Type 0) (d d' : Dict P String)
      → ((s : String) → A s → B s)
      → OpensOnly peer A d d'
      → OpensOnly peer B d d'
  OpensOnly-weaken peer A B d d' f opens j s h = elim (opens j s h) [
    | inl old ↦ inl old
    | inr (at, allowed) ↦ inr (at, f s allowed)
  ]

  inserted :
      (peer j : P) (session s : String) (d : Dict P String)
      → Dict.lookup j (Dict.insert peer session d) ≡ some s
      → (Dict.lookup j d ≡ some s) ⊎ ((j ≡ peer) × (session ≡ s))
  inserted peer j session s d h = ground (arith, lookup-insert j peer session d)

  pub OpensOnly-insert :
      (peer : P) (Allowed : String → Type 0) (session : String) (d : Dict P String)
      → Allowed session
      → OpensOnly peer Allowed d (Dict.insert peer session d)
  OpensOnly-insert peer Allowed session d allowed j s h = elim (inserted peer j session s d h) [
    | inl old ↦ inl old
    | inr (at, eq) ↦ inr (at, subst Allowed eq allowed)
  ]

module _ {C : Crypto} {N : Net} (W : World C N) where
  abbrev pub active : Node W → Dict C.PeerId String
  active node = node.0.active_sessions

module _ {C : Crypto} {N : Net} (W : World C N) ⦃e : Eq C.PeerId⦄ ⦃r : Eq N.OutboundRequestId⦄ where
  pub active-send_control :
      (peer : C.PeerId) (envelope : ControlEnvelope) (kind : OutboundControlRequestKind)
      (node : Node W)
      → active W (send_control W peer envelope kind node) ≡ active W node
  unfolding send_control
  active-send_control peer envelope kind (app, w) = refl
