-- ===== src/Tests/Startup.antt =====
-- A run of the node from its files.
use aether_link.Base.{
  ◌≡◌, refl, true, false, String, string_eq, option_eq, list_eq, nat_eq, none, some, [], ◌∷◌, ok,
}
use aether_link.Base.Dict
use aether_link.Base.Int.{ℤ}
use aether_link.Base.Text.{trim}
use aether_link.Messages.{Bytes}
use aether_link.Security.Hex.{encode_hex, decode_hex}
use aether_link.Security.Trust.{
  TrustedPeers, to_records, from_records, check_record, ensure_trusted,
}
use aether_link.Security.Trust.Pinning.{bound}
use aether_link.Node.State.{new}
use aether_link.Node.Control.{Node}
use aether_link.Node.Files.{load_trusted_peers, load_or_create_identity_key}
use aether_link.Node.Files.Disk.{path_eq, Disk, exists, read}
use aether_link.Node.Loop.{run_loop}
use aether_link.Node.Startup.{Args, identity_path, trust_store_path, start, main}
use aether_link.Node.Startup.Pinned.{main_keeps_stored_pins}
use aether_link.Tests.Parties.{Party, alice, bytes_of, party_eq, toy}
use aether_link.Tests.Sessions.{alice_pinned}
use aether_link.Tests.Nodes.{net, settings}
use aether_link.Tests.Control.{toy_world}
use aether_link.Tests.Loop.{a_day}
use aether_link.Tests.Files.{encoding}

abbrev args : Args toy net
args = record {
  listen = 1;
  bootstrap = 2 ∷ [];
  dial = 3 ∷ [];
  identity_file = none;
  trust_store_file = some (record { parent = "/etc"; stem = "peers"; extension = some "json" });
  settings = settings;
}

abbrev disk : Disk
disk = record {
  files =
      (
        record { parent = "/home/.config/aetherlink"; stem = "device"; extension = some "key" },
        record { content = bytes_of alice; restricted = true },
      )
      ∷ (
        record { parent = "/etc"; stem = "peers"; extension = some "json" },
        record { content = 1 ∷ []; restricted = true },
      )
      ∷ [];
  faults = [];
}

abbrev first : Node toy_world
first = (
  new toy net alice alice alice_pinned (record settings { trust_store_path = "/etc/peers.json" }),
  101000,
)

abbrev last : Node toy_world
last = (run_loop toy_world a_day first).1

runs :
    (main toy_world encoding (some "/home") args (λ key. some 101000) alice disk a_day).0
    ≡ ok ((run_loop toy_world a_day first).0, (last.0, last.1))
unfolding main start identity_path trust_store_path load_or_create_identity_key load_trusted_peers
    exists read path_eq string_eq option_eq list_eq nat_eq Dict.lookup Dict.contains_key
    from_records check_record ensure_trusted encode_hex decode_hex trim to_records Dict.values
    Dict.insert
runs = refl

main_keeps_stored_pins_example :
    let identity =
      load_or_create_identity_key toy encoding
        (identity_path toy_world encoding (some "/home") args)
        alice
        disk in
    (key : Party) × (identity.0 ≡ ok key)
    × (t : TrustedPeers) × ((load_trusted_peers toy encoding
          (trust_store_path toy_world encoding (some "/home") args)
          identity.1).0
        ≡ ok t)
    × (last.0.local_key ≡ key)
    × (last.0.local_peer_id ≡ key)
    × ((code : String) (b : String × Bytes × ℤ)
        → bound t code ≡ some b
        → bound last.0.trusted_peers code ≡ some b)
    × (args.settings.trust_on_first_use ≡ false
        → (code : String) → bound last.0.trusted_peers code ≡ bound t code)
main_keeps_stored_pins_example =
    main_keeps_stored_pins toy_world encoding (some "/home") args (λ key. some 101000) alice disk
      a_day (run_loop toy_world a_day first).0 last.0 last.1 runs
