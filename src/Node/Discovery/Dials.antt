-- ===== src/Node/Discovery/Dials.antt =====
-- Which peers a record of the DHT makes the node dial.
use aether_link.Base.{
  ℕ, ◌≡◌, ◌≢◌, refl, sym, subst, ◌⊎◌, inl, inr, Bool, true, false, not, String, string_eq, nat_eq,
  Eq, ◌==◌, Option, none, some, List, if_cases, arith,
}
use aether_link.Base.Dict
use aether_link.Base.Dict.{Dict}
use aether_link.Messages.{Bytes}
use aether_link.Security.Crypto.{Crypto}
use aether_link.Node.State.{Net, App, DeviceAnnouncementV1}
use aether_link.Node.Sessions.{can_attempt_discovery_dial, mark_discovery_dial_attempt}
use aether_link.Node.World.{World}
use aether_link.Node.Control.{Outcome, Node}
use aether_link.Node.Discovery.{
  found_record, got_record, query_progressed, mark_if, dial_announced, process_peer,
  process_announcement, process_discovery_record_payload, get_record_for,
  handle_get_record_query_result, handle_kad_query_progress, handle_kad_event,
}

module _ {C : Crypto} {N : Net} (W : World C N) ⦃e : Eq C.PeerId⦄ where
  -- The node `node` dials `peer` and becomes `app'`.
  pub record Dials (node : Node W) (app' : App C N) (peer : C.PeerId) : Type 0 where
    noted : ℕ
    may_dial :
        can_attempt_discovery_dial (W.is_connected node.1) node.0 peer (W.unix_ms node.1).0 ≡ true
    marked : app' ≡ mark_discovery_dial_attempt peer noted node.0

  -- The record `payload` is a valid announcement of `target` by another peer, which the node dials.
  pub record DialsAnnounced (target : String) (payload : Option DeviceAnnouncementV1)
      (node : Node W) (app' : App C N) : Type 0 where
    announcement : DeviceAnnouncementV1
    peer : C.PeerId
    decodes : payload ≡ some announcement
    is_v1 : announcement.version ≡ 1
    is_for_target : announcement.device_code ≡ target
    names_peer : C.peer_of_string announcement.peer_id ≡ some peer
    is_other : peer ≢ node.0.local_peer_id
    dials : Dials node app' peer

  Dials-mark_if :
      (peer : C.PeerId) (x : Bool × W.State) (node : Node W)
      → can_attempt_discovery_dial (W.is_connected node.1) node.0 peer (W.unix_ms node.1).0 ≡ true
      → ((mark_if W peer x node.0).0 ≡ node.0) ⊎ Dials node (mark_if W peer x node.0).0 peer
  unfolding mark_if
  Dials-mark_if peer (false, w) node may = inl refl
  Dials-mark_if peer (true, w) node may =
      inr (record { noted = (W.unix_ms w).0; may_dial = may; marked = refl })

  Dials-dial_announced :
      (peer : C.PeerId) (addrs : List String) (node : Node W)
      → ((dial_announced W peer addrs node).0 ≡ node.0)
        ⊎ Dials node (dial_announced W peer addrs node).0 peer
  unfolding dial_announced
  Dials-dial_announced peer addrs (app, w) =
      if_cases (λ (x : Node W). (x.0 ≡ app) ⊎ Dials (app, w) x.0 peer)
        (can_attempt_discovery_dial (W.is_connected w) app peer (W.unix_ms w).0)
        (λ may. Dials-mark_if peer _ (app, w) may) (λ _. inl refl)

  DialsAnnounced-process_peer :
      (target : String) (x : DeviceAnnouncementV1) (o : Option C.PeerId) (node : Node W)
      → x.version ≡ 1
      → x.device_code ≡ target
      → C.peer_of_string x.peer_id ≡ o
      → ((process_peer W o x.addrs node).1.0 ≡ node.0)
        ⊎ DialsAnnounced target (some x) node (process_peer W o x.addrs node).1.0
  unfolding process_peer
  DialsAnnounced-process_peer target x none node v1 for names = inl refl
  DialsAnnounced-process_peer target x (some peer) (app, w) v1 for names =
      if_cases (λ (y : Node W). (y.0 ≡ app) ⊎ DialsAnnounced target (some x) (app, w) y.0)
        (peer == app.local_peer_id) (λ _. inl refl)
        (λ other. elim (Dials-dial_announced peer x.addrs (app, w)) [
          | inl same ↦ inl same
          | inr dials ↦ inr (record {
            announcement = x;
            peer = peer;
            decodes = refl;
            is_v1 = v1;
            is_for_target = for;
            names_peer = names;
            is_other = ground arith;
            dials = dials;
          })
        ])

  DialsAnnounced-process_announcement :
      (target : String) (o : Option DeviceAnnouncementV1) (node : Node W)
      → ((process_announcement W target o node).1.0 ≡ node.0)
        ⊎ DialsAnnounced target o node (process_announcement W target o node).1.0
  unfolding process_announcement
  DialsAnnounced-process_announcement target none node = inl refl
  DialsAnnounced-process_announcement target (some x) node =
      let P : Outcome × Node W → Type 0 =
        λ y. (y.1.0 ≡ node.0) ⊎ DialsAnnounced target (some x) node y.1.0 in
      if_cases P (not (x.version == 1)) (λ _. inl refl)
        (λ v1.
          if_cases P (not (x.device_code == target)) (λ _. inl refl)
            (λ for.
              DialsAnnounced-process_peer target x (C.peer_of_string x.peer_id) node (ground arith)
                (ground arith) refl))

  -- A record that the DHT finds for a lookup changes nothing of the node's books, or it is an announcement
  -- of version 1 of the very code that was looked up, it names another peer than the node itself, that
  -- peer may be dialed now, and the node notes a dial of that peer and changes nothing else.
  pub found_record_is_checked :
      ⦃q : Eq N.QueryId⦄ (id : N.QueryId) (target : String) (value : Bytes) (node : Node W)
      → Dict.lookup id node.0.pending_device_lookup_queries ≡ some target
      → let app' =
          (handle_kad_event W (query_progressed id (got_record (found_record value))) node).1.0 in
        (app' ≡ node.0) ⊎ DialsAnnounced target (W.decode_announcement value) node app'
  unfolding handle_kad_event handle_kad_query_progress handle_get_record_query_result get_record_for
      process_discovery_record_payload
  found_record_is_checked id target value node found =
      subst
        (λ o.
          let app' = (get_record_for W o id (found_record value) node).1.0 in
          (app' ≡ node.0) ⊎ DialsAnnounced target (W.decode_announcement value) node app')
        (sym found) (DialsAnnounced-process_announcement target (W.decode_announcement value) node)
