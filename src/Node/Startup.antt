-- ===== src/Node/Startup.antt =====
-- What `main` of apps/aetherlink-node/src/main.rs does before its loop, and the whole of it.
pub mod Pinned
use aether_link.Base.{
  Eq, Bool, true, false, String, ◌<>◌, Option, none, some, List, [], ◌∷◌, is_empty, Result, ok, err,
  if◌then◌else◌,
}
use aether_link.Base.Sets.{unwrap_or}
use aether_link.Base.Text.{is_empty_str}
use aether_link.Security.Crypto.{Crypto}
use aether_link.Security.Trust.{TrustedPeers}
use aether_link.Node.State.{Net, App, Settings, new}
use aether_link.Node.World.{World}
use aether_link.Node.Control.{Outcome, Node}
use aether_link.Node.Loop.{LoopEvent, run_loop}
use aether_link.Node.Files.{FileFault, Encoding, load_trusted_peers, load_or_create_identity_key}
use aether_link.Node.Files.Disk.{FilePath, Disk}

pub data StartFault : Type 0 where
  no_identity : FileFault → StartFault
  no_trusted_peers : FileFault → StartFault
  no_swarm : StartFault
  no_listener : StartFault

-- `dir.join(name)`
abbrev join : String → String → String
join dir name = if is_empty_str dir then name else dir <> ("/" <> name)

-- For the value of the variable `HOME`, if it has one.
default_data_dir : Option String → String
default_data_dir (some home) = join (join home ".config") "aetherlink"
default_data_dir none = ".aetherlink"

abbrev extension_text : Option String → String
extension_text none = ""
extension_text (some extension) = "." <> extension

abbrev text_of : FilePath → String
text_of p = join p.parent (p.stem <> extension_text p.extension)

module _ (C : Crypto) (N : Net) where
  -- The arguments that the start reads; `settings` are those that `App::new` gets, but for the path.
  pub record Args : Type 0 where
    pub listen : N.Multiaddr
    pub bootstrap : List N.Multiaddr
    pub dial : List N.Multiaddr
    pub identity_file : Option FilePath
    pub trust_store_file : Option FilePath
    pub settings : Settings C N

module _ {C : Crypto} {N : Net} (W : World C N) (J : Encoding C) where
  unfoldable pub identity_path : Option String → Args C N → FilePath
  unfolding default_data_dir
  identity_path home args =
      unwrap_or args.identity_file
        (record { parent = default_data_dir home; stem = "device"; extension = some "key" })

  unfoldable pub trust_store_path : Option String → Args C N → FilePath
  unfolding default_data_dir
  trust_store_path home args =
      unwrap_or args.trust_store_file
        (record { parent = default_data_dir home; stem = "trusted_peers"; extension = some "json" })

  -- An address without a peer id is left out.
  add_bootstrap : List N.Multiaddr → W.State → W.State
  add_bootstrap [] w = w
  add_bootstrap (addr ∷ addrs) w = elim (W.extract_peer_id addr) [
    | none ↦ add_bootstrap addrs w
    | some peer ↦ add_bootstrap addrs (W.add_address peer addr w)
  ]

  -- A dial that fails is logged.
  dial_all : List N.Multiaddr → W.State → W.State
  dial_all [] w = w
  dial_all (addr ∷ addrs) w = dial_all addrs (W.dial_addr addr w).1

  abbrev settings_of : Option String → Args C N → Settings C N
  settings_of home args = record (args.settings) {
    trust_store_path = text_of (trust_store_path home args);
  }

  -- From the swarm that listens on.
  connected : Args C N → App C N → W.State → Node W
  unfolding add_bootstrap dial_all
  connected args app w =
      let w' = add_bootstrap args.bootstrap w in
      (app, dial_all args.dial (if is_empty args.bootstrap then w' else W.bootstrap w'))

  listening : Args C N → App C N → Bool × W.State → Result StartFault (Node W)
  unfolding connected
  listening args app (true, w) = ok (connected args app w)
  listening args app (false, w) = err no_listener

  with_swarm : Args C N → App C N → Option W.State → Result StartFault (Node W)
  unfolding listening
  with_swarm args app none = err no_swarm
  with_swarm args app (some w) = listening args app (W.listen_on args.listen w)

  with_peers :
      Option String
      → Args C N
      → (C.Keypair → Option W.State)
      → C.Keypair
      → Result FileFault TrustedPeers × Disk
      → Result StartFault (Node W) × Disk
  unfolding with_swarm
  with_peers home args build_swarm key (err x, d) = (err (no_trusted_peers x), d)
  with_peers home args build_swarm key (ok t, d) = (
    with_swarm args (new C N key (C.peer_of_key (C.public_key key)) t (settings_of home args))
        (build_swarm key),
    d,
  )

  with_identity :
      Option String
      → Args C N
      → (C.Keypair → Option W.State)
      → Result FileFault C.Keypair × Disk
      → Result StartFault (Node W) × Disk
  unfolding with_peers trust_store_path
  with_identity home args build_swarm (err x, d) = (err (no_identity x), d)
  with_identity home args build_swarm (ok key, d) =
      with_peers home args build_swarm key (load_trusted_peers C J (trust_store_path home args) d)

  -- `build_swarm` gives the surroundings with the swarm of the key, `fresh` is the key that would be created.
  unfoldable pub start :
      Option String
      → Args C N
      → (C.Keypair → Option W.State)
      → C.Keypair
      → Disk
      → Result StartFault (Node W) × Disk
  unfolding with_identity identity_path
  start home args build_swarm fresh d =
      with_identity home args build_swarm
        (load_or_create_identity_key C J (identity_path home args) fresh d)

module _ {C : Crypto} {N : Net} (W : World C N) (J : Encoding C) ⦃e : Eq C.PeerId⦄
    ⦃r : Eq N.OutboundRequestId⦄ ⦃q : Eq N.QueryId⦄ ⦃a : Eq N.Multiaddr⦄ where
  looping :
      List (LoopEvent C N W.Channel)
      → Result StartFault (Node W) × Disk
      → Result StartFault (Outcome × Node W) × Disk
  looping events (err x, d) = (err x, d)
  looping events (ok node, d) = (ok (run_loop W events node), d)

  -- The program, for the ticks and events that the loop will see.
  unfoldable pub main :
      Option String
      → Args C N
      → (C.Keypair → Option W.State)
      → C.Keypair
      → Disk
      → List (LoopEvent C N W.Channel)
      → Result StartFault (Outcome × Node W) × Disk
  unfolding looping
  main home args build_swarm fresh d events =
      looping events (start W J home args build_swarm fresh d)
