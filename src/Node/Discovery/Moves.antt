-- ===== src/Node/Discovery/Moves.antt =====
-- The moves of discovery: it writes the books only.
use aether_link.Base.{
  not, ◌==◌, nat_eq, string_eq, is_empty, true, false, Bool, String, Eq, Option, none, some, List,
  [], ◌∷◌, if_both,
}
use aether_link.Base.Int.{ℤ}
use aether_link.Messages.{Bytes}
use aether_link.Security.Crypto.{Crypto}
use aether_link.Node.State.{Net, App, DeviceAnnouncementV1}
use aether_link.Node.Sessions.{can_attempt_discovery_dial, mark_discovery_dial_attempt}
use aether_link.Node.World.{World}
use aether_link.Node.Control.{Outcome, Node}
use aether_link.Node.Discovery.{
  GetRecordResult, found_record, finished, lookup_failed, QueryResult, bootstrapped, got_record,
  put_done, republished, other_result, KadEvent, query_progressed, routing_updated, other_event,
  note_published, put_announcement, maybe_publish_local_device_record, start_lookup, is_lookup_due,
  start_lookups, maybe_start_device_code_lookups, handle_discovery_tick, mark_if, dial_announced,
  process_peer, process_announcement, process_discovery_record_payload, without_lookup,
  get_record_for, handle_get_record_query_result, without_publish, handle_kad_query_progress,
  handle_kad_event,
}
use aether_link.Node.Moves.{Moves, Moves-trans, books, stay, go}

module _ {C : Crypto} {N : Net} (W : World C N) ⦃e : Eq C.PeerId⦄ ⦃q : Eq N.QueryId⦄
    {opens : Bool} where
  Moves-note_published :
      (now : ℤ) (x : Option N.QueryId × W.State) (app : App C N)
      → Moves opens app (note_published W now x app).0
  unfolding note_published
  Moves-note_published now (some id, w) app = go stay (books _)
  Moves-note_published now (none, w) app = go stay (books _)

  Moves-put :
      (now : ℤ) (o : Option Bytes) (node : Node W)
      → Moves opens node.0 (put_announcement W now o node).1.0
  unfolding put_announcement
  Moves-put now none node = stay
  Moves-put now (some payload) (app, w) = Moves-note_published now _ app

  Moves-publish :
      ⦃a : Eq N.Multiaddr⦄ (node : Node W)
      → Moves opens node.0 (maybe_publish_local_device_record W node).1.0
  unfolding maybe_publish_local_device_record
  Moves-publish (app, w) =
      if_both (λ (x : Outcome × Node W). Moves opens app x.1.0) (not app.publish_device_record) stay
        (if_both (λ (x : Outcome × Node W). Moves opens app x.1.0) _ stay (Moves-put _ _ (app, _)))

  Moves-start :
      (pending : List String) (now : ℤ) (targets : List String) (node : Node W)
      → Moves opens node.0 (start_lookups W pending now targets node).0
  unfolding start_lookups start_lookup
  Moves-start pending now [] node = stay
  Moves-start pending now (target ∷ targets) node =
      Moves-trans
        (if_both (λ (x : Node W). Moves opens node.0 x.0)
          (is_lookup_due W pending now node.0 target) {x = start_lookup W target now node}
          {y = node} (go stay (books _)) stay)
        (Moves-start pending now targets _)

  Moves-lookups : (node : Node W) → Moves opens node.0 (maybe_start_device_code_lookups W node).0
  unfolding maybe_start_device_code_lookups
  Moves-lookups (app, w) =
      if_both (λ (x : Node W). Moves opens app x.0) (is_empty app.connect_device_codes) stay
        (Moves-start _ _ app.connect_device_codes (app, _))

  pub Moves-handle_discovery_tick :
      ⦃a : Eq N.Multiaddr⦄ (node : Node W) → Moves opens node.0 (handle_discovery_tick W node).0
  unfolding handle_discovery_tick
  Moves-handle_discovery_tick node = Moves-trans (Moves-publish node) (Moves-lookups _)

  Moves-mark_if :
      (peer : C.PeerId) (x : Bool × W.State) (app : App C N)
      → Moves opens app (mark_if W peer x app).0
  unfolding mark_if mark_discovery_dial_attempt
  Moves-mark_if peer (false, w) app = stay
  Moves-mark_if peer (true, w) app = go stay (books _)

  Moves-dial_announced :
      (peer : C.PeerId) (addrs : List String) (node : Node W)
      → Moves opens node.0 (dial_announced W peer addrs node).0
  unfolding dial_announced
  Moves-dial_announced peer addrs (app, w) =
      if_both (λ (x : Node W). Moves opens app x.0)
        (can_attempt_discovery_dial (W.is_connected w) app peer (W.unix_ms w).0)
        (Moves-mark_if peer _ app) stay

  Moves-process_peer :
      (o : Option C.PeerId) (addrs : List String) (node : Node W)
      → Moves opens node.0 (process_peer W o addrs node).1.0
  unfolding process_peer
  Moves-process_peer none addrs node = stay
  Moves-process_peer (some peer) addrs (app, w) =
      if_both (λ (x : Node W). Moves opens app x.0) (peer == app.local_peer_id) stay
        (Moves-dial_announced peer addrs (app, w))

  Moves-process_announcement :
      (target : String) (o : Option DeviceAnnouncementV1) (node : Node W)
      → Moves opens node.0 (process_announcement W target o node).1.0
  unfolding process_announcement
  Moves-process_announcement target none node = stay
  Moves-process_announcement target (some x) node =
      if_both (λ (y : Outcome × Node W). Moves opens node.0 y.1.0) (not (x.version == 1)) stay
        (if_both (λ (y : Outcome × Node W). Moves opens node.0 y.1.0)
          (not (x.device_code == target)) stay
          (Moves-process_peer (C.peer_of_string x.peer_id) x.addrs node))

  Moves-get_record :
      (o : Option String) (id : N.QueryId) (result : GetRecordResult) (node : Node W)
      → Moves opens node.0 (get_record_for W o id result node).1.0
  unfolding get_record_for without_lookup process_discovery_record_payload
  Moves-get_record none id result node = stay
  Moves-get_record (some target) id (found_record value) node =
      Moves-process_announcement target _ node
  Moves-get_record (some target) id finished (app, w) = go stay (books _)
  Moves-get_record (some target) id lookup_failed (app, w) = go stay (books _)

  Moves-progress :
      (id : N.QueryId) (result : QueryResult) (node : Node W)
      → Moves opens node.0 (handle_kad_query_progress W id result node).1.0
  unfolding handle_kad_query_progress handle_get_record_query_result without_publish
  Moves-progress id bootstrapped node = stay
  Moves-progress id (got_record result) node = Moves-get_record _ id result node
  Moves-progress id (put_done stored) (app, w) = go stay (books _)
  Moves-progress id (republished stored) (app, w) = go stay (books _)
  Moves-progress id other_result node = stay

  pub Moves-handle_kad_event :
      (event : KadEvent N.QueryId) (node : Node W)
      → Moves opens node.0 (handle_kad_event W event node).1.0
  unfolding handle_kad_event
  Moves-handle_kad_event (query_progressed id result) node = Moves-progress id result node
  Moves-handle_kad_event routing_updated node = stay
  Moves-handle_kad_event other_event node = stay
