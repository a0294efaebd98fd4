-- ===== src/Tests/Store.antt =====
-- Runs of the trust store through its file.
use aether_link.Base.{◌≡◌, refl, false, string_eq, List, ok, arith}
use aether_link.Base.Dict
use aether_link.Base.Text.{is_blank, trim}
use aether_link.Security.Hex.{encode_hex, decode_hex}
use aether_link.Security.Trust.{TrustedPeerRecord, from_records, check_record, ensure_trusted}
use aether_link.Security.Trust.Pinning.{ensure}
use aether_link.Security.Trust.Persist.{IsStore, ensure_trusted-IsStore}
use aether_link.Tests.Parties.{toy, toy-IsLawful}
use aether_link.Tests.Sessions.{alice_pinned, claim, nobody}

nobody-IsStore : IsStore toy nobody
unfolding Dict.lookup
nobody-IsStore = record { single = tt; own = λ j r at. absurd cc }

abbrev alice_records : List TrustedPeerRecord
alice_records = Dict.values alice_pinned.by_device_code

laptop_named : is_blank "laptop" ≡ false
unfolding trim
laptop_named = refl

alice_loads : from_records toy alice_records ≡ ok alice_pinned
unfolding from_records ensure_trusted Dict.lookup Dict.insert Dict.values check_record decode_hex
    encode_hex string_eq trim
alice_loads = refl

ensure_trusted-IsStore_example : IsStore toy (ensure toy nobody claim).1
ensure_trusted-IsStore_example =
    ensure_trusted-IsStore toy toy-IsLawful nobody claim laptop_named (ground arith) nobody-IsStore

pub alice_pinned-IsStore : IsStore toy alice_pinned
alice_pinned-IsStore =
    ensure_trusted-IsStore toy toy-IsLawful nobody claim laptop_named (ground arith) nobody-IsStore
