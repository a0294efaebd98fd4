-- ===== src/Security/Trust/Persist.antt =====
-- `to_records` and `from_records` of crates/aetherlink-core/src/security.rs: the store in its file.
use aether_link.Base.{
  ◌≡◌, refl, sym, ◌∙◌, if_cases, subst, Bool, false, String, string_eq, list_eq, nat_eq, ◌==◌,
  Option, none, some, List, [], ◌∷◌, Result, ok, bind-eq-ok, ok_injective, arith, if◌then◌else◌,
  All, ◌>>◌, ◌>>=◌, ap, not, ◌||◌,
}
use aether_link.Base.Dict
use aether_link.Base.Dict.{
  Dict, NodupKeys, lookup-insert, lookup-cons, lookup-nil, insert-NodupKeys,
}
use aether_link.Base.Int.{ℤ, leb_ℤ, saturating_sub_i64}
use aether_link.Base.Text.{is_blank, str_leb}
use aether_link.Messages.{Bytes}
use aether_link.Security.Crypto.{Crypto, IsLawful}
use aether_link.Security.Errors.{SessionAuthError}
use aether_link.Security.Trust.Pinning.{Claim, ensure}
use aether_link.Security.Hex.{encode_hex, decode_hex-encode_hex, IsByte}
use aether_link.Security.Trust.{
  TrustedPeerRecord, TrustedPeers, insert_sorted, sort_by_device_code, to_records, check_record,
  load_records, from_records, first_record, pin, ensure_trusted, last_seen_persist_interval_ms,
}

-- The records under their device codes.
keyed : List TrustedPeerRecord → Dict String TrustedPeerRecord
keyed [] = []
keyed (r ∷ rs) = (r.device_code, r) ∷ keyed rs

lookup-insert_sorted :
    (j : String) (r : TrustedPeerRecord) (rs : List TrustedPeerRecord)
    → Dict.lookup r.device_code (keyed rs) ≡ none
    → Dict.lookup j (keyed (insert_sorted r rs))
      ≡ (if j == r.device_code then some r else Dict.lookup j (keyed rs))
unfolding insert_sorted keyed Dict.lookup
lookup-insert_sorted j r [] h = refl
lookup-insert_sorted j r (x ∷ rs) h = ground (arith, lookup-insert_sorted j r rs)

insert_sorted-NodupKeys :
    (r : TrustedPeerRecord) (rs : List TrustedPeerRecord)
    → Dict.lookup r.device_code (keyed rs) ≡ none
    → NodupKeys (keyed rs)
    → NodupKeys (keyed (insert_sorted r rs))
unfolding insert_sorted keyed Dict.lookup
insert_sorted-NodupKeys r [] h u = (refl, tt)
insert_sorted-NodupKeys r (x ∷ rs) h (fresh, u) =
    if_cases (λ (l : List TrustedPeerRecord). NodupKeys (keyed l))
      (str_leb r.device_code x.device_code) (λ le. (h, (fresh, u)))
      (λ gt. (
        ground (arith, lookup-insert_sorted x.device_code r rs),
        insert_sorted-NodupKeys r rs (ground arith) u,
      ))

-- Sorting changes no lookup.
sort_by_device_code_lem :
    (rs : List TrustedPeerRecord)
    → NodupKeys (keyed rs)
    → NodupKeys (keyed (sort_by_device_code rs))
      × ((j : String) → Dict.lookup j (keyed (sort_by_device_code rs)) ≡ Dict.lookup j (keyed rs))
unfolding sort_by_device_code keyed
sort_by_device_code_lem [] u = (tt, λ j. refl)
sort_by_device_code_lem (r ∷ rs) (fresh, u) =
    let (u', same) = sort_by_device_code_lem rs u in
    (
      insert_sorted-NodupKeys r (sort_by_device_code rs) (same r.device_code ∙ fresh) u',
      λ j. ground (
        arith,
        same r.device_code,
        same j,
        lookup-insert_sorted j r (sort_by_device_code rs),
        lookup-cons j r.device_code r (keyed rs),
      ),
    )

module _ (C : Crypto) where
  -- A record that `from_records` takes.
  abbrev pub IsLoadable : TrustedPeerRecord → Type 0
  IsLoadable r = check_record C r ≡ ok tt

  -- Each record stands under its own device code, once, and is one that `from_records` takes.
  pub record IsStore (t : TrustedPeers) : Type 0 where
    pub single : NodupKeys t.by_device_code
    pub own :
        (j : String) (r : TrustedPeerRecord)
        → Dict.lookup j t.by_device_code ≡ some r
        → (r.device_code ≡ j) × IsLoadable r

  load_records_lem :
      (d : Dict String TrustedPeerRecord) (rs : List TrustedPeerRecord)
      → All IsLoadable rs
      → NodupKeys (keyed rs)
      → (d' : Dict String TrustedPeerRecord) × (load_records C d rs ≡ ok d')
        × ((j : String)
            → Dict.lookup j d'
              ≡ elim (Dict.lookup j (keyed rs)) [ none ↦ Dict.lookup j d | some r ↦ some r ])
  unfolding load_records keyed Dict.lookup
  load_records_lem d [] loadable u = (d, refl, λ j. refl)
  load_records_lem d (r ∷ rs) (h, loadable) (fresh, u) =
      let (d', loads, found) = load_records_lem (Dict.insert r.device_code r d) rs loadable u in
      (
        d',
        subst (λ m. (m >> load_records C (Dict.insert r.device_code r d) rs) ≡ ok d') (sym h) loads,
        λ j. ground (arith, found j, lookup-insert j r.device_code r d),
      )

  insert_sorted-IsLoadable :
      (r : TrustedPeerRecord) (rs : List TrustedPeerRecord)
      → IsLoadable r
      → All IsLoadable rs
      → All IsLoadable (insert_sorted r rs)
  unfolding insert_sorted
  insert_sorted-IsLoadable r [] h hs = (h, tt)
  insert_sorted-IsLoadable r (x ∷ rs) h (first, hs) =
      if_cases (λ (l : List TrustedPeerRecord). All IsLoadable l)
        (str_leb r.device_code x.device_code) (λ le. (h, (first, hs)))
        (λ gt. (first, insert_sorted-IsLoadable r rs h hs))

  sort_by_device_code-IsLoadable :
      (rs : List TrustedPeerRecord) → All IsLoadable rs → All IsLoadable (sort_by_device_code rs)
  unfolding sort_by_device_code
  sort_by_device_code-IsLoadable [] hs = tt
  sort_by_device_code-IsLoadable (r ∷ rs) (h, hs) =
      insert_sorted-IsLoadable r (sort_by_device_code rs) h (sort_by_device_code-IsLoadable rs hs)

  -- The records of a store are those of its map.
  values_lem :
      (d : Dict String TrustedPeerRecord)
      → IsStore (record { by_device_code = d })
      → All IsLoadable (Dict.values d) × (keyed (Dict.values d) ≡ d)
  unfolding keyed Dict.values
  values_lem [] s = (tt, refl)
  values_lem ((k, r) ∷ d) s =
      let here = s.own k r (ground (arith, lookup-cons k k r d)) in
      let rest : IsStore (record { by_device_code = d }) = record {
        single = s.single.1;
        own = λ j q at. s.own j q (ground (arith, s.single.0, lookup-cons j k r d));
      } in
      let (loadable, same) = values_lem d rest in ((here.1, loadable), cc (here.0, same))

  -- What `to_records` gives of a store whose records are as `IsStore` says is read back by `from_records`, to a
  -- store with the same record for each device code.
  pub from_records-to_records :
      (t : TrustedPeers)
      → IsStore t
      → (t' : TrustedPeers) × (from_records C (to_records t) ≡ ok t')
        × ((j : String) → Dict.lookup j t'.by_device_code ≡ Dict.lookup j t.by_device_code)
  unfolding from_records to_records
  from_records-to_records t s =
      let (loadable, same) = values_lem t.by_device_code s in
      let rs = Dict.values t.by_device_code in
      let sorted = sort_by_device_code_lem rs (subst (λ d. NodupKeys d) (sym same) s.single) in
      let (d, loads, found) =
        load_records_lem [] (sort_by_device_code rs) (sort_by_device_code-IsLoadable rs loadable)
          sorted.0 in
      (
        record { by_device_code = d },
        subst
            (λ (m : Result SessionAuthError (Dict String TrustedPeerRecord)).
              ◌>>=◌ {B = TrustedPeers} m (λ d'. ok (record { by_device_code = d' }))
              ≡ ok (record { by_device_code = d }))
            (sym loads) refl,
        λ j. ground (
          arith,
          found j,
          sorted.1 j,
          ap (Dict.lookup j) same,
          lookup-nil {V = TrustedPeerRecord} j,
        ),
      )

  -- A record under its own code may be added.
  IsStore-insert :
      (t : TrustedPeers) (code : String) (r : TrustedPeerRecord)
      → r.device_code ≡ code
      → IsLoadable r
      → IsStore t
      → IsStore (record t { by_device_code = Dict.insert code r t.by_device_code })
  IsStore-insert t code r same h s = record {
    single = insert-NodupKeys code r t.by_device_code s.single;
    own = λ j q at.
        if_cases (λ (o : Option TrustedPeerRecord). o ≡ some q → (q.device_code ≡ j) × IsLoadable q)
          (j == code)
          (λ here eq. let found : r ≡ q = cc in (ground arith, subst (λ x. IsLoadable x) found h))
          (λ other eq. s.own j q eq) (sym (lookup-insert j code r t.by_device_code) ∙ at);
  }

  load_records-IsStore :
      (d : Dict String TrustedPeerRecord) (rs : List TrustedPeerRecord)
      (d' : Dict String TrustedPeerRecord)
      → load_records C d rs ≡ ok d'
      → IsStore (record { by_device_code = d })
      → IsStore (record { by_device_code = d' })
  unfolding load_records
  load_records-IsStore d [] d' h s =
      subst (λ x. IsStore (record { by_device_code = x })) (ok_injective h) s
  load_records-IsStore d (r ∷ rs) d' h s =
      let (u, checked, rest) =
        bind-eq-ok (check_record C r) (λ _. load_records C (Dict.insert r.device_code r d) rs) h in
      load_records-IsStore (Dict.insert r.device_code r d) rs d' rest
        (IsStore-insert (record { by_device_code = d }) r.device_code r refl checked s)

  -- Whatever records `from_records` accepts, the store that it gives is as `IsStore` says.
  from_records-IsStore :
      (rs : List TrustedPeerRecord) (t : TrustedPeers) → from_records C rs ≡ ok t → IsStore t
  unfolding from_records
  from_records-IsStore rs t h =
      let store : Dict String TrustedPeerRecord → Result SessionAuthError TrustedPeers =
        λ d. ok (record { by_device_code = d }) in
      let (d, loads, same) = bind-eq-ok (load_records C [] rs) store h in
      subst IsStore (ok_injective same) (
        load_records-IsStore [] rs d loads (record {
          single = tt;
          own = λ j r at. absurd (ground (arith, lookup-nil {V = TrustedPeerRecord} j));
        }))

  -- The record of a first contact.
  first_record-IsLoadable :
      IsLawful C
      → (code : String) (peer : C.PeerId) (key : Bytes) (now : ℤ) → is_blank code ≡ false
      → All IsByte key
      → IsLoadable (first_record code (C.peer_to_string peer) (encode_hex key) now)
  unfolding check_record
  first_record-IsLoadable lawful code peer key now named bytes =
      ground
        (arith, named, lawful.peer_of_string-peer_to_string peer, decode_hex-encode_hex key bytes)

  IsStore-pin :
      (o : Option TrustedPeerRecord) (t : TrustedPeers) (code peer : String) (hex : Bytes) (now : ℤ)
      (tofu : Bool)
      → Dict.lookup code t.by_device_code ≡ o
      → IsLoadable (first_record code peer hex now)
      → IsStore t
      → IsStore (pin o t code peer hex now tofu).1
  unfolding pin check_record
  IsStore-pin none t code peer hex now tofu e h s =
      if_cases (λ (x : Result SessionAuthError Bool × TrustedPeers). IsStore x.1) (not tofu)
        (λ refused. s) (λ taken. IsStore-insert t code (first_record code peer hex now) refl h s)
  IsStore-pin (some r) t code peer hex now tofu e h s =
      if_cases (λ (x : Result SessionAuthError Bool × TrustedPeers). IsStore x.1)
        (not (r.peer_id == peer) || not (r.identity_pubkey_hex == hex)) (λ mismatch. s)
        (λ match.
          if_cases (λ (x : Result SessionAuthError Bool × TrustedPeers). IsStore x.1)
            (leb_ℤ last_seen_persist_interval_ms (saturating_sub_i64 now r.last_seen_unix_ms))
            (λ old.
              IsStore-insert t code (record r { last_seen_unix_ms = now }) (s.own code r e).0
                (s.own code r e).1 s)
            (λ fresh. s))

  -- A claim of a device code that is not blank, with a key of bytes, leaves the store as `IsStore` says, accepted
  -- or not, if it was so before and peer ids read back from their texts.
  pub ensure_trusted-IsStore :
      IsLawful C
      → (t : TrustedPeers) (c : Claim C) → is_blank c.device_code ≡ false
      → All IsByte c.identity_pubkey
      → IsStore t
      → IsStore (ensure C t c).1
  unfolding ensure_trusted
  ensure_trusted-IsStore lawful t c named bytes s =
      IsStore-pin (Dict.lookup c.device_code t.by_device_code) t c.device_code _ _ _ _ refl
        (first_record-IsLoadable lawful _ c.peer_id _ c.now_unix_ms named bytes) s
