-- ===== src/Node/Startup/Pinned.antt =====
-- A node that starts from its files keeps what the trust file pins.
use aether_link.Base.{
  ◌≡◌, ◌∙◌, refl, ap, sym, subst, Eq, Bool, true, false, String, Option, none, some, List, Result,
  ok, err, ok_injective,
}
use aether_link.Base.Int.{ℤ}
use aether_link.Messages.{Bytes}
use aether_link.Security.Crypto.{Crypto}
use aether_link.Security.Trust.{TrustedPeers}
use aether_link.Security.Trust.Pinning.{bound}
use aether_link.Node.State.{Net, App, new}
use aether_link.Node.World.{World}
use aether_link.Node.Control.{Outcome, Node}
use aether_link.Node.Files.{FileFault, Encoding, load_trusted_peers, load_or_create_identity_key}
use aether_link.Node.Files.Disk.{Disk}
use aether_link.Node.Loop.{LoopEvent, run_loop}
use aether_link.Node.Loop.Invariants.{run_loop_keeps_pins}
use aether_link.Node.Startup.{
  StartFault, Args, identity_path, trust_store_path, settings_of, connected, listening, with_swarm,
  with_peers, with_identity, start, looping, main,
}

module _ {C : Crypto} {N : Net} (W : World C N) (J : Encoding C) where
  -- The node is new, with this key and these peers.
  record IsNew (home : Option String) (args : Args C N) (key : C.Keypair) (t : TrustedPeers)
      (node : Node W) : Type 0 where
    w : W.State
    same : node ≡ (new C N key (C.peer_of_key (C.public_key key)) t (settings_of W J home args), w)

  listening-IsNew :
      (home : Option String) (args : Args C N) (key : C.Keypair) (t : TrustedPeers)
      (x : Bool × W.State) (node : Node W)
      → listening W J args
          (new C N key (C.peer_of_key (C.public_key key)) t (settings_of W J home args))
          x
        ≡ ok node
      → IsNew home args key t node
  unfolding listening connected
  listening-IsNew home args key t (true, w) node h = record { w = _; same = sym (ok_injective h) }
  listening-IsNew home args key t (false, w) node h = absurd cc

  swarm-IsNew :
      (home : Option String) (args : Args C N) (key : C.Keypair) (t : TrustedPeers)
      (o : Option W.State) (node : Node W)
      → with_swarm W J args
          (new C N key (C.peer_of_key (C.public_key key)) t (settings_of W J home args))
          o
        ≡ ok node
      → IsNew home args key t node
  unfolding with_swarm
  swarm-IsNew home args key t none node h = absurd cc
  swarm-IsNew home args key t (some w) node h =
      listening-IsNew home args key t (W.listen_on args.listen w) node h

  peers-IsNew :
      (home : Option String) (args : Args C N) (build_swarm : C.Keypair → Option W.State)
      (key : C.Keypair) (x : Result FileFault TrustedPeers × Disk) (node : Node W)
      → (with_peers W J home args build_swarm key x).0 ≡ ok node
      → (t : TrustedPeers) × (x.0 ≡ ok t) × IsNew home args key t node
  unfolding with_peers
  peers-IsNew home args build_swarm key (err x, d) node h = absurd cc
  peers-IsNew home args build_swarm key (ok t, d) node h =
      (t, refl, swarm-IsNew home args key t (build_swarm key) node h)

  identity-IsNew :
      (home : Option String) (args : Args C N) (build_swarm : C.Keypair → Option W.State)
      (x : Result FileFault C.Keypair × Disk) (node : Node W)
      → (with_identity W J home args build_swarm x).0 ≡ ok node
      → (key : C.Keypair) × (x.0 ≡ ok key)
        × (t : TrustedPeers) × ((load_trusted_peers C J (trust_store_path W J home args) x.1).0
            ≡ ok t)
        × IsNew home args key t node
  unfolding with_identity
  identity-IsNew home args build_swarm (err x, d) node h = absurd cc
  identity-IsNew home args build_swarm (ok key, d) node h =
      let (t, loads, n) =
        peers-IsNew home args build_swarm key
          (load_trusted_peers C J (trust_store_path W J home args) d) node h in
      (key, refl, t, loads, n)

module _ {C : Crypto} {N : Net} (W : World C N) (J : Encoding C) ⦃e : Eq C.PeerId⦄
    ⦃r : Eq N.OutboundRequestId⦄ ⦃q : Eq N.QueryId⦄ ⦃a : Eq N.Multiaddr⦄ where
  looping-ok :
      (events : List (LoopEvent C N W.Channel)) (x : Result StartFault (Node W) × Disk)
      (outcome : Outcome) (node : Node W)
      → (looping W J events x).0 ≡ ok (outcome, node)
      → (first : Node W) × (x.0 ≡ ok first) × (run_loop W events first ≡ (outcome, node))
  unfolding looping
  looping-ok events (err x, d) outcome node h = absurd cc
  looping-ok events (ok first, d) outcome node h = (first, refl, ok_injective h)

  -- If the program gets to its loop, it has an identity from its file, or a created one, and peers from the
  -- trust file, and after whatever ticks and events: the node has that key and the peer id of it, every
  -- device code that the file binds is bound to the same peer id, key and time of first contact, and without
  -- trust on first use no other is bound.
  pub main_keeps_stored_pins :
      (home : Option String) (args : Args C N) (build_swarm : C.Keypair → Option W.State)
      (fresh : C.Keypair) (d : Disk) (events : List (LoopEvent C N W.Channel)) (outcome : Outcome)
      (app : App C N) (w : W.State)
      → (main W J home args build_swarm fresh d events).0 ≡ ok (outcome, (app, w))
      → let identity = load_or_create_identity_key C J (identity_path W J home args) fresh d in
        (key : C.Keypair) × (identity.0 ≡ ok key)
        × (t : TrustedPeers) × ((load_trusted_peers C J
              (trust_store_path W J home args)
              identity.1).0
            ≡ ok t)
        × (app.local_key ≡ key)
        × (app.local_peer_id ≡ C.peer_of_key (C.public_key key))
        × ((code : String) (b : String × Bytes × ℤ)
            → bound t code ≡ some b
            → bound app.trusted_peers code ≡ some b)
        × (args.settings.trust_on_first_use ≡ false
            → (code : String) → bound app.trusted_peers code ≡ bound t code)
  unfolding main start new
  main_keeps_stored_pins home args build_swarm fresh d events outcome app w h =
      let identity = load_or_create_identity_key C J (identity_path W J home args) fresh d in
      let (first, starts, runs) =
        looping-ok events (start W J home args build_swarm fresh d) outcome (app, w) h in
      let (key, loads, t, loads', n) =
        identity-IsNew W J home args build_swarm identity first starts in
      let peer = C.peer_of_key (C.public_key key) in
      let last : (run_loop W events (new C N key peer t (settings_of W J home args), n.w)).1.0
          ≡ app =
        ap (λ x. (run_loop W events x).1.0) (sym n.same) ∙ ap (λ x. x.1.0) runs in
      let (kept, no_new, fixed) =
        run_loop_keeps_pins W key peer t (settings_of W J home args) n.w events in
      (
        key,
        loads,
        t,
        loads',
        sym (ap (λ x. x.local_key) last) ∙ ap (λ x. x.local_key) fixed,
        sym (ap (λ x. x.local_peer_id) last) ∙ ap (λ x. x.local_peer_id) fixed,
        λ code b at. subst (λ x. bound x.trusted_peers code ≡ some b) last (kept code b at),
        λ closed code.
            subst (λ x. bound x.trusted_peers code ≡ bound t code) last (no_new closed code),
      )
