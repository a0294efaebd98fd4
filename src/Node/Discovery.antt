-- ===== src/Node/Discovery.antt =====
-- How the node announces itself and finds devices by their codes: the discovery tick and the events of
-- the DHT in apps/aetherlink-node/src/main.rs. An error that the code only logs is dropped.
pub mod Moves
pub mod Dials
pub mod Lookups
use aether_link.Base.{
  ℕ, Bool, true, false, not, String, string_eq, nat_eq, ◌<>◌, Eq, ◌==◌, contains, Option, none,
  some, List, [], ◌∷◌, map, is_empty, if◌then◌else◌, Result, ok, err,
}
use aether_link.Base.Dict
use aether_link.Base.Dict.{Dict}
use aether_link.Base.Int.{ℤ, pos, as_i64, ltb_ℤ, saturating_sub_i64}
use aether_link.Base.Sets.{unwrap_or, set_insert, set_remove}
use aether_link.Base.Text.{trim}
use aether_link.Messages.{Bytes}
use aether_link.Security.Crypto.{Crypto}
use aether_link.Node.State.{Net, App, DeviceAnnouncementV1}
use aether_link.Node.Sessions.{can_attempt_discovery_dial, mark_discovery_dial_attempt}
use aether_link.Node.World.{World}
use aether_link.Node.Control.{
  ControlFault, unserializable_announcement, undecodable_announcement, unparsed_peer_id, Outcome,
  Node,
}
use aether_link.Node.Requests.{add_new, ensure_addr_has_peer_id}

-- The `String` that the record's key holds.
device_record_key : String → String
device_record_key device_code = "/aetherlink/device/v1/" <> trim device_code

-- What the code reads of `kad::GetRecordResult`, `kad::QueryResult` and `kad::Event`.
pub data GetRecordResult : Type 0 where
  found_record : (value : Bytes) → GetRecordResult
  finished : GetRecordResult
  lookup_failed : GetRecordResult

pub data QueryResult : Type 0 where
  bootstrapped : QueryResult
  got_record : GetRecordResult → QueryResult
  put_done : (stored : Bool) → QueryResult
  republished : (stored : Bool) → QueryResult
  other_result : QueryResult

pub data KadEvent (Q : Type 0) : Type 0 where
  query_progressed : Q → QueryResult → KadEvent Q
  routing_updated : KadEvent Q
  other_event : KadEvent Q

module _ {C : Crypto} {N : Net} (W : World C N) where
  announcement_of : App C N → List N.Multiaddr → ℤ → DeviceAnnouncementV1
  announcement_of app addrs now = record {
    version = 1;
    device_code = app.local_device_code;
    peer_id = C.peer_to_string app.local_peer_id;
    addrs = map W.addr_to_string addrs;
    unix_ms = now;
  }

module _ {C : Crypto} {N : Net} (W : World C N) ⦃q : Eq N.QueryId⦄ where
  -- After `put_record`: the time is noted either way.
  note_published : ℤ → Option N.QueryId × W.State → App C N → Node W
  note_published now (some id, w) app = (
    record app {
      pending_device_publish_queries = set_insert id app.pending_device_publish_queries;
      last_device_record_publish_unix_ms = now;
    },
    w,
  )
  note_published now (none, w) app = (record app { last_device_record_publish_unix_ms = now }, w)

  put_announcement : ℤ → Option Bytes → Node W → Outcome × Node W
  unfolding note_published device_record_key
  put_announcement now none node = (err unserializable_announcement, node)
  put_announcement now (some payload) (app, w) = (
    ok tt,
    note_published now (W.put_record (device_record_key app.local_device_code) payload w) app,
  )

  unfoldable pub maybe_publish_local_device_record :
      ⦃a : Eq N.Multiaddr⦄ → Node W → Outcome × Node W
  unfolding put_announcement announcement_of
  maybe_publish_local_device_record (app, w) =
      let (clock, w') = W.unix_ms w in
      let now = as_i64 clock in
      let addrs = add_new W app.known_local_addrs (W.external_addresses w') in
      if not app.publish_device_record
      then (ok tt, (app, w))
      else if ltb_ℤ (saturating_sub_i64 now app.last_device_record_publish_unix_ms)
          app.device_record_republish_ms
      then (ok tt, (app, w'))
      else put_announcement now (W.encode_announcement (announcement_of W app addrs now)) (app, w')

  abbrev note_lookup : N.QueryId → String → ℤ → App C N → App C N
  note_lookup id target now app = record app {
    pending_device_lookup_queries = Dict.insert id target app.pending_device_lookup_queries;
    last_device_lookup_unix_ms = Dict.insert target now app.last_device_lookup_unix_ms;
  }

  unfoldable pub start_lookup : String → ℤ → Node W → Node W
  unfolding device_record_key
  start_lookup target now (app, w) =
      let (id, w') = W.get_record (device_record_key target) w in
      (note_lookup id target now app, w')

  -- Whether the loop looks a target up: `pending` are the targets that were looked for before the loop.
  unfoldable pub is_lookup_due : List String → ℤ → App C N → String → Bool
  is_lookup_due pending now app target =
      if contains pending target
      then false
      else not (
          ltb_ℤ
            (saturating_sub_i64 now
              (unwrap_or (Dict.lookup target app.last_device_lookup_unix_ms) (pos 0)))
            app.device_lookup_interval_ms)

  unfoldable pub start_lookups : List String → ℤ → List String → Node W → Node W
  start_lookups pending now [] node = node
  start_lookups pending now (target ∷ targets) node =
      start_lookups pending now targets
        (if is_lookup_due pending now node.0 target then start_lookup target now node else node)

  unfoldable pub maybe_start_device_code_lookups : Node W → Node W
  maybe_start_device_code_lookups (app, w) =
      let (clock, w') = W.unix_ms w in
      if is_empty app.connect_device_codes
      then (app, w)
      else start_lookups (Dict.values app.pending_device_lookup_queries) (as_i64 clock)
          app.connect_device_codes (app, w')

  unfoldable pub handle_discovery_tick : ⦃a : Eq N.Multiaddr⦄ → Node W → Node W
  handle_discovery_tick node =
      maybe_start_device_code_lookups (maybe_publish_local_device_record node).1

module _ {C : Crypto} {N : Net} (W : World C N) ⦃e : Eq C.PeerId⦄ where
  -- The addresses in order, until a dial does not fail at once; whether one did not.
  dial_addrs : C.PeerId → List String → W.State → Bool × W.State
  dial_addrs peer [] w = (false, w)
  dial_addrs peer (text ∷ texts) w = elim (W.addr_of_string text) [
    | none ↦ dial_addrs peer texts w
    | some addr ↦
        let dial_addr = ensure_addr_has_peer_id W addr peer in
        let (started, w') = W.dial_addr dial_addr (W.add_address peer dial_addr w) in
        elim started [ true ↦ (true, w') | false ↦ dial_addrs peer texts w' ]
  ]

  mark_if : C.PeerId → Bool × W.State → App C N → Node W
  mark_if peer (false, w) app = (app, w)
  mark_if peer (true, w) app =
      let (now, w') = W.unix_ms w in (mark_discovery_dial_attempt peer now app, w')

  -- `can_attempt_discovery_dial` reads the clock only for a peer that was dialed before and that no test
  -- before has refused.
  reads_clock : App C N → C.PeerId → W.State → Bool
  reads_clock app peer w =
      if W.is_connected w peer
      then false
      else if Dict.contains_key peer app.pending_outbound_sessions
      then false
      else Dict.contains_key peer app.last_peer_dial_unix_ms

  dial_announced : C.PeerId → List String → Node W → Node W
  unfolding dial_addrs mark_if reads_clock
  dial_announced peer addrs (app, w) =
      let (now, w') = W.unix_ms w in
      let w'' = if reads_clock app peer w then w' else w in
      if can_attempt_discovery_dial (W.is_connected w) app peer now
      then mark_if peer (dial_addrs peer addrs w'') app
      else (app, w'')

  process_peer : Option C.PeerId → List String → Node W → Outcome × Node W
  unfolding dial_announced
  process_peer none addrs node = (err unparsed_peer_id, node)
  process_peer (some peer) addrs (app, w) =
      (ok tt, if peer == app.local_peer_id then (app, w) else dial_announced peer addrs (app, w))

  process_announcement : String → Option DeviceAnnouncementV1 → Node W → Outcome × Node W
  unfolding process_peer
  process_announcement target none node = (err undecodable_announcement, node)
  process_announcement target (some x) node =
      if not (x.version == 1)
      then (ok tt, node)
      else if not (x.device_code == target)
      then (ok tt, node)
      else process_peer (C.peer_of_string x.peer_id) x.addrs node

  unfoldable pub process_discovery_record_payload : String → Bytes → Node W → Outcome × Node W
  unfolding process_announcement
  process_discovery_record_payload target payload node =
      process_announcement target (W.decode_announcement payload) node

module _ {C : Crypto} {N : Net} (W : World C N) ⦃e : Eq C.PeerId⦄ ⦃q : Eq N.QueryId⦄ where
  without_lookup : N.QueryId → App C N → App C N
  without_lookup id app = record app {
    pending_device_lookup_queries = Dict.erase id app.pending_device_lookup_queries;
  }

  get_record_for : Option String → N.QueryId → GetRecordResult → Node W → Outcome × Node W
  unfolding without_lookup
  get_record_for none id result node = (ok tt, node)
  get_record_for (some target) id (found_record value) node =
      process_discovery_record_payload W target value node
  get_record_for (some target) id finished (app, w) = (ok tt, (without_lookup id app, w))
  get_record_for (some target) id lookup_failed (app, w) = (ok tt, (without_lookup id app, w))

  unfoldable pub handle_get_record_query_result :
      N.QueryId → GetRecordResult → Node W → Outcome × Node W
  unfolding get_record_for
  handle_get_record_query_result id result node =
      get_record_for (Dict.lookup id node.0.pending_device_lookup_queries) id result node

  -- The results of a publication are only logged.
  without_publish : N.QueryId → App C N → App C N
  without_publish id app = record app {
    pending_device_publish_queries = set_remove id app.pending_device_publish_queries;
  }

  unfoldable pub handle_kad_query_progress : N.QueryId → QueryResult → Node W → Outcome × Node W
  unfolding without_publish
  handle_kad_query_progress id (got_record result) node =
      handle_get_record_query_result id result node
  handle_kad_query_progress id (put_done stored) (app, w) = (ok tt, (without_publish id app, w))
  handle_kad_query_progress id (republished stored) (app, w) = (ok tt, (without_publish id app, w))
  handle_kad_query_progress id _ node = (ok tt, node)

  unfoldable pub handle_kad_event : KadEvent N.QueryId → Node W → Outcome × Node W
  handle_kad_event (query_progressed id result) node = handle_kad_query_progress id result node
  handle_kad_event _ node = (ok tt, node)
