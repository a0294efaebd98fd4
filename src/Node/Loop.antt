-- ===== src/Node/Loop.antt =====
-- The main loop of apps/aetherlink-node/src/main.rs: one round for a tick or an event of the swarm, and the
-- rounds of a sequence of them, which ends at the first error.
pub mod Invariants
pub mod Sessions
use aether_link.Base.{Bool, Eq, List, [], ◌∷◌, Result, ok, err}
use aether_link.Messages.{Bytes}
use aether_link.Security.Crypto.{Crypto}
use aether_link.Node.State.{Net, App}
use aether_link.Node.Sessions.{note_local_addr, on_disconnected}
use aether_link.Node.World.{World}
use aether_link.Node.Control.{ControlFault, Outcome, Node}
use aether_link.Node.Requests.{handle_control_request}
use aether_link.Node.Responses.{handle_control_response, handle_outbound_failure}
use aether_link.Node.Ticks
use aether_link.Node.Ticks.{
  handle_pending_session_timeouts, handle_control_keepalive_tick, handle_session_lifecycle_tick,
}
use aether_link.Node.Discovery.{KadEvent, handle_discovery_tick, handle_kad_event}

module _ (C : Crypto) (N : Net) (Channel : Type 0) where
  -- What the code reads of the behaviour's events; those that it only logs carry nothing.
  pub data NodeEvent : Type 0 where
    ping : NodeEvent
    identify_received : C.PeerId → List N.Multiaddr → N.Multiaddr → NodeEvent
    identify_other : NodeEvent
    mdns_discovered : List (C.PeerId × N.Multiaddr) → NodeEvent
    mdns_expired : NodeEvent
    kad : KadEvent N.QueryId → NodeEvent
    control_request : C.PeerId → Bytes → Channel → NodeEvent
    control_response : C.PeerId → N.OutboundRequestId → Bytes → NodeEvent
    control_outbound_failure : C.PeerId → N.OutboundRequestId → NodeEvent
    control_inbound_failure : NodeEvent
    control_response_sent : NodeEvent

  -- The two arms of the `select!`, and the events of the swarm.
  pub data LoopEvent : Type 0 where
    tick : LoopEvent
    new_listen_addr : N.Multiaddr → LoopEvent
    connection_established : C.PeerId → LoopEvent
    connection_closed : C.PeerId → LoopEvent
    behaviour : NodeEvent → LoopEvent
    other_swarm_event : LoopEvent

module _ {C : Crypto} {N : Net} (W : World C N) where
  add_addresses : C.PeerId → List N.Multiaddr → W.State → W.State
  add_addresses peer [] w = w
  add_addresses peer (addr ∷ addrs) w = add_addresses peer addrs (W.add_address peer addr w)

  add_discovered : List (C.PeerId × N.Multiaddr) → W.State → W.State
  add_discovered [] w = w
  add_discovered ((peer, addr) ∷ peers) w = add_discovered peers (W.add_address peer addr w)

module _ {C : Crypto} {N : Net} (W : World C N) ⦃e : Eq C.PeerId⦄ ⦃r : Eq N.OutboundRequestId⦄
    ⦃q : Eq N.QueryId⦄ ⦃a : Eq N.Multiaddr⦄ where
  unfoldable pub handle_behaviour_event : NodeEvent C N W.Channel → Node W → Outcome × Node W
  unfolding add_addresses add_discovered
  handle_behaviour_event (identify_received peer listen_addrs observed) (app, w) = (
    ok tt,
    (
      note_local_addr observed app,
      W.add_external_address observed (add_addresses W peer listen_addrs w),
    ),
  )
  handle_behaviour_event (mdns_discovered peers) (app, w) = (ok tt, (app, add_discovered W peers w))
  handle_behaviour_event (kad event) node = handle_kad_event W event node
  handle_behaviour_event (control_request peer request channel) node =
      handle_control_request W peer request channel node
  handle_behaviour_event (control_response peer id response) node =
      handle_control_response W peer id response node
  handle_behaviour_event (control_outbound_failure peer id) node =
      (ok tt, handle_outbound_failure W peer id node)
  handle_behaviour_event _ node = (ok tt, node)

  -- The four handlers of a tick.
  unfoldable pub handle_tick : Node W → Node W
  handle_tick node = handle_session_lifecycle_tick W (
      handle_control_keepalive_tick W
        (handle_discovery_tick W (handle_pending_session_timeouts W node)))

  unfoldable pub round : LoopEvent C N W.Channel → Node W → Outcome × Node W
  unfolding handle_tick
  round tick node = (ok tt, handle_tick node)
  round (new_listen_addr addr) (app, w) = (ok tt, (note_local_addr addr app, w))
  round (connection_established peer) node = (ok tt, Ticks.connection_established W peer node)
  round (connection_closed peer) (app, w) = (ok tt, (on_disconnected peer app, w))
  round (behaviour event) node = handle_behaviour_event event node
  round other_swarm_event node = (ok tt, node)

  -- The `?` of the loop: an error ends it with the node as the handler left it.
  go_on : Outcome × Node W → (Node W → Outcome × Node W) → Outcome × Node W
  go_on (ok _, node) rest = rest node
  go_on (err x, node) rest = (err x, node)

  unfoldable pub run_loop : List (LoopEvent C N W.Channel) → Node W → Outcome × Node W
  unfolding go_on
  run_loop [] node = (ok tt, node)
  run_loop (event ∷ events) node = go_on (round event node) (run_loop events)
