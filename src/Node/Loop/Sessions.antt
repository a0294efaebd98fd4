-- ===== src/Node/Loop/Sessions.antt =====
-- Where the active sessions of a run of the main loop come from.
use aether_link.Base.{
  ◌≡◌, ◌⊎◌, inl, inr, refl, sym, subst, ap, false, not, ◌&&◌, String, Eq, some, List, [], ◌∷◌, ◌++◌,
  ok, err, arith,
}
use aether_link.Base.Dict
use aether_link.Base.Dict.{lookup-nil}
use aether_link.Messages.{Bytes}
use aether_link.Security.Crypto.{Crypto}
use aether_link.Security.Trust.{TrustedPeers}
use aether_link.Node.State.{Net, App, Settings, new}
use aether_link.Node.Sessions.{should_send_session_request, should_auto_request_for_peer}
use aether_link.Node.Sessions.Machines.{PeerIsOver, over_request}
use aether_link.Node.World.{World}
use aether_link.Node.Control.{Outcome, Node}
use aether_link.Node.Requests.Activation.{Opened, request_opens_verified_session}
use aether_link.Node.Responses.Activation.{OpenedBy, response_opens_awaited_session}
use aether_link.Node.Moves.Kept.{Moves-Quiet, Moves-over}
use aether_link.Node.Loop.{
  NodeEvent, ping, identify_received, identify_other, mdns_discovered, mdns_expired, kad,
  control_request, control_response, control_outbound_failure, control_inbound_failure,
  control_response_sent, LoopEvent, tick, new_listen_addr, connection_established,
  connection_closed, behaviour, other_swarm_event, handle_behaviour_event, round, go_on, run_loop,
}
use aether_link.Node.Loop.Invariants.{
  is_exchange, IsSound, Moves-IsSound, new-IsSound, Moves-quiet_round, Moves-round,
  run_loop_refines_moves,
}

module _ {C : Crypto} {N : Net} (W : World C N) ⦃e : Eq C.PeerId⦄ ⦃r : Eq N.OutboundRequestId⦄
    ⦃q : Eq N.QueryId⦄ ⦃a : Eq N.Multiaddr⦄ where
  -- The event is a control message of this peer that the node, in this state, verifies for this session.
  pub data OpenedIn (app : App C N) (j : C.PeerId) (s : String)
      : LoopEvent C N W.Channel → Type 0 where
    by_request :
        {peer : C.PeerId} {bytes : Bytes} {channel : W.Channel}
        → j ≡ peer
        → Opened W bytes peer app s
        → OpenedIn app j s (behaviour (control_request peer bytes channel))
    by_response :
        {peer : C.PeerId} {id : N.OutboundRequestId} {bytes : Bytes}
        → j ≡ peer
        → OpenedBy W bytes peer app s
        → OpenedIn app j s (behaviour (control_response peer id bytes))

  abbrev Origin : App C N → C.PeerId → String → LoopEvent C N W.Channel → Type 0
  Origin app j s event = (Dict.lookup j app.active_sessions ≡ some s) ⊎ OpenedIn app j s event

  quiet-Origin :
      (event : LoopEvent C N W.Channel) (app : App C N) (w : W.State) (j : C.PeerId) (s : String)
      → is_exchange event ≡ false
      → IsSound app
      → Dict.lookup j (round W event (app, w)).1.0.active_sessions ≡ some s
      → Origin app j s event
  quiet-Origin event app w j s quiet sound at =
      inl ((Moves-Quiet (Moves-quiet_round W event app w quiet sound)).no_session j s at)

  behaviour-Origin :
      (event : NodeEvent C N W.Channel) (app : App C N) (w : W.State) (j : C.PeerId) (s : String)
      → IsSound app
      → Dict.lookup j (round W (behaviour event) (app, w)).1.0.active_sessions ≡ some s
      → Origin app j s (behaviour event)
  unfolding round handle_behaviour_event
  behaviour-Origin (control_request peer bytes channel) app w j s sound at =
      elim (request_opens_verified_session W peer bytes channel (app, w) j s at) [
        | inl old ↦ inl old
        | inr (same, opened) ↦ inr (by_request same opened)
      ]
  behaviour-Origin (control_response peer id bytes) app w j s sound at =
      elim (response_opens_awaited_session W peer id bytes (app, w) j s at) [
        | inl old ↦ inl old
        | inr (same, opened) ↦ inr (by_response same opened)
      ]
  behaviour-Origin ping app w j s sound at = inl at
  behaviour-Origin (identify_received peer addrs observed) app w j s sound at =
      quiet-Origin (behaviour (identify_received peer addrs observed)) app w j s refl sound at
  behaviour-Origin identify_other app w j s sound at = inl at
  behaviour-Origin (mdns_discovered peers) app w j s sound at = inl at
  behaviour-Origin mdns_expired app w j s sound at = inl at
  behaviour-Origin (kad event) app w j s sound at =
      quiet-Origin (behaviour (kad event)) app w j s refl sound at
  behaviour-Origin (control_outbound_failure peer id) app w j s sound at =
      quiet-Origin (behaviour (control_outbound_failure peer id)) app w j s refl sound at
  behaviour-Origin control_inbound_failure app w j s sound at = inl at
  behaviour-Origin control_response_sent app w j s sound at = inl at

  round-Origin :
      (event : LoopEvent C N W.Channel) (app : App C N) (w : W.State) (j : C.PeerId) (s : String)
      → IsSound app
      → Dict.lookup j (round W event (app, w)).1.0.active_sessions ≡ some s
      → Origin app j s event
  round-Origin tick app w j s sound at = quiet-Origin tick app w j s refl sound at
  round-Origin (new_listen_addr addr) app w j s sound at =
      quiet-Origin (new_listen_addr addr) app w j s refl sound at
  round-Origin (connection_established peer) app w j s sound at =
      quiet-Origin (connection_established peer) app w j s refl sound at
  round-Origin (connection_closed peer) app w j s sound at =
      quiet-Origin (connection_closed peer) app w j s refl sound at
  round-Origin (behaviour event) app w j s sound at = behaviour-Origin event app w j s sound at
  round-Origin other_swarm_event app w j s sound at =
      quiet-Origin other_swarm_event app w j s refl sound at

  -- One of the events, handled in the state that those before it lead to, has opened the session.
  pub record OpenedDuring (events : List (LoopEvent C N W.Channel)) (node : Node W) (j : C.PeerId)
      (s : String) : Type 0 where
    pub before : List (LoopEvent C N W.Channel)
    pub event : LoopEvent C N W.Channel
    pub after : List (LoopEvent C N W.Channel)
    pub splits : events ≡ before ++ event ∷ after
    pub opens : OpenedIn (run_loop W before node).1.0 j s event

  abbrev RunOrigin : List (LoopEvent C N W.Channel) → Node W → C.PeerId → String → Type 0
  RunOrigin events node j s =
      (Dict.lookup j node.0.active_sessions ≡ some s) ⊎ OpenedDuring events node j s

  first_origin :
      (event : LoopEvent C N W.Channel) (events : List (LoopEvent C N W.Channel)) (app : App C N)
      (w : W.State) (j : C.PeerId) (s : String)
      → IsSound app
      → Dict.lookup j (round W event (app, w)).1.0.active_sessions ≡ some s
      → RunOrigin (event ∷ events) (app, w) j s
  unfolding run_loop
  first_origin event events app w j s sound at = elim (round-Origin event app w j s sound at) [
    | inl old ↦ inl old
    | inr opened ↦
        inr (record { before = []; event = event; after = events; splits = refl; opens = opened })
  ]

  later_origin :
      (event : LoopEvent C N W.Channel) (events : List (LoopEvent C N W.Channel)) (node : Node W)
      (x : Outcome × Node W) (j : C.PeerId) (s : String)
      → round W event node ≡ x
      → (Dict.lookup j x.1.0.active_sessions ≡ some s → RunOrigin (event ∷ events) node j s)
      → (Dict.lookup j (run_loop W events x.1).1.0.active_sessions ≡ some s
          → RunOrigin events x.1 j s)
      → Dict.lookup j (go_on W x (run_loop W events)).1.0.active_sessions ≡ some s
      → RunOrigin (event ∷ events) node j s
  unfolding go_on run_loop
  later_origin event events node (err x, node') j s same first later at = first at
  later_origin event events node (ok u, node') j s same first later at = elim (later at) [
    | inl old ↦ first old
    | inr o ↦ inr (record {
      before = event ∷ o.before;
      event = o.event;
      after = o.after;
      splits = ap (λ l. event ∷ l) o.splits;
      opens =
          subst (λ y. OpenedIn (go_on W y (run_loop W o.before)).1.0 j s o.event) (sym same)
            o.opens;
    })
  ]

  run_origin :
      (events : List (LoopEvent C N W.Channel)) (app : App C N) (w : W.State) (j : C.PeerId)
      (s : String)
      → IsSound app
      → Dict.lookup j (run_loop W events (app, w)).1.0.active_sessions ≡ some s
      → RunOrigin events (app, w) j s
  unfolding run_loop
  run_origin [] app w j s sound at = inl at
  run_origin (event ∷ events) app w j s sound at =
      let node' = (round W event (app, w)).1 in
      later_origin event events (app, w) (round W event (app, w)) j s refl
        (first_origin event events app w j s sound)
        (run_origin events node'.0 node'.1 j s
          (Moves-IsSound (Moves-round W event app w sound) sound))
        at

  -- Whatever ticks and events a new node sees, each of its active sessions was opened by one of these events:
  -- a control request or an answer of the session's own peer that decodes to a message of this session and
  -- that the node, in the state it was in then, has verified.
  pub sessions_are_verified :
      (key : C.Keypair) (own : C.PeerId) (trusted : TrustedPeers) (s : Settings C N) (w : W.State)
      (events : List (LoopEvent C N W.Channel)) (j : C.PeerId) (session : String)
      → let node : Node W = (new C N key own trusted s, w) in
        Dict.lookup j (run_loop W events node).1.0.active_sessions ≡ some session
        → OpenedDuring events node j session
  unfolding new Dict.lookup
  sessions_are_verified key own trusted s w events j session at =
      elim (run_origin events (new C N key own trusted s) w j session
        (new-IsSound key own trusted s) at) [
          | inl old ↦ absurd (ground arith)
          | inr opened ↦ opened
        ]

  -- Once a peer's machine has lost its path, was hung up or has failed, no run of the loop leads it out of
  -- these states, whatever sessions with the peer are opened, and whether a new connection asks the peer for
  -- another session depends on the settings and on a pending request only, if its peers with a session, a
  -- keepalive state and a start time are the same and its pending requests are within their limit.
  pub over_for_good :
      (events : List (LoopEvent C N W.Channel)) (node : Node W) (j : C.PeerId)
      → IsSound node.0
      → PeerIsOver node.0 j
      → let app' = (run_loop W events node).1.0 in
        PeerIsOver app' j
        × (should_send_session_request app' j ≡ (
            should_auto_request_for_peer app' j
            && not (Dict.contains_key j app'.pending_outbound_sessions)))
  over_for_good events node j sound over =
      let still = Moves-over j (run_loop_refines_moves W events node sound) over in
      (still, over_request _ j still)
