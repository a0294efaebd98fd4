-- ===== src/Node/Loop/Invariants.antt =====
-- What every run of the main loop keeps.
use aether_link.Base.{
  ◌≡◌, refl, Bool, true, false, String, Eq, contains, some, List, [], ◌∷◌, ◌++◌, ok, err, arith,
  if_both,
}
use aether_link.Base.Dict
use aether_link.Base.Dict.{lookup-nil}
use aether_link.Base.Int.{ℤ}
use aether_link.Security.Crypto.{Crypto}
use aether_link.Security.Trust.{TrustedPeers}
use aether_link.Security.Trust.Pinning.{bound}
use aether_link.Messages.{Bytes}
use aether_link.Node.State.{Net, App, Settings, new}
use aether_link.Node.Sessions.{note_local_addr}
use aether_link.Node.Sessions.Maps.{IsAligned}
use aether_link.Node.Sessions.Moves.{Moves-on_disconnected}
use aether_link.Node.World.{World}
use aether_link.Node.Control.{Outcome, Node}
use aether_link.Node.Requests.Moves.{Moves-handle_control_request}
use aether_link.Node.Responses.Moves.{Moves-handle_control_response, Moves-handle_outbound_failure}
use aether_link.Node.Ticks.Attempts.{IsLimited}
use aether_link.Node.Ticks.Moves.{
  Moves-timeouts, Moves-keepalive, Moves-lifecycle, Moves-connection_established,
}
use aether_link.Node.Discovery.Moves.{Moves-handle_discovery_tick, Moves-handle_kad_event}
use aether_link.Node.Moves.{Moves, Moves-trans, books, stay, go}
use aether_link.Node.Moves.Kept.{
  Moves-IsAligned, Moves-IsLimited, Moves-Keeps, Moves-fixed, fixed_of,
}
use aether_link.Node.Loop.{
  NodeEvent, ping, identify_received, identify_other, mdns_discovered, mdns_expired, kad,
  control_request, control_response, control_outbound_failure, control_inbound_failure,
  control_response_sent, LoopEvent, tick, new_listen_addr, connection_established,
  connection_closed, behaviour, other_swarm_event, handle_behaviour_event, handle_tick, round,
  go_on, run_loop,
}

module _ {C : Crypto} {N : Net} {Channel : Type 0} where
  -- Whether an event brings a control request or an answer to one.
  abbrev pub is_exchange : LoopEvent C N Channel → Bool
  is_exchange (behaviour (control_request peer request channel)) = true
  is_exchange (behaviour (control_response peer id response)) = true
  is_exchange _ = false

module _ {C : Crypto} {N : Net} ⦃e : Eq C.PeerId⦄ where
  -- What holds of the node's state between two rounds.
  pub record IsSound (app : App C N) : Type 0 where
    pub aligned : IsAligned app
    pub limited : IsLimited app

  pub Moves-IsSound :
      {opens : Bool} {app app' : App C N} → Moves opens app app' → IsSound app → IsSound app'
  Moves-IsSound m s = record {
    aligned = Moves-IsAligned m s.aligned;
    limited = Moves-IsLimited m s.limited;
  }

  pub new-IsSound :
      (key : C.Keypair) (own : C.PeerId) (trusted : TrustedPeers) (s : Settings C N)
      → IsSound (new C N key own trusted s)
  unfolding new Dict.lookup
  new-IsSound key own trusted s = record {
    aligned = λ j. (refl, refl);
    limited = record {
      allowed = omega arith;
      single = tt;
      within = λ j p at. absurd (ground arith);
    };
  }

  Moves-note_local_addr :
      ⦃a : Eq N.Multiaddr⦄ {opens : Bool} (addr : N.Multiaddr) (app : App C N)
      → Moves opens app (note_local_addr addr app)
  unfolding note_local_addr
  Moves-note_local_addr {opens} addr app =
      if_both (λ (x : App C N). Moves opens app x) (contains app.known_local_addrs addr) {x = app}
        {y = record app { known_local_addrs = app.known_local_addrs ++ addr ∷ [] }} stay
        (go stay (books _))

module _ {C : Crypto} {N : Net} (W : World C N) ⦃e : Eq C.PeerId⦄ ⦃r : Eq N.OutboundRequestId⦄
    ⦃q : Eq N.QueryId⦄ ⦃a : Eq N.Multiaddr⦄ where
  Moves-handle_tick :
      {opens : Bool} (node : Node W) → IsSound node.0 → Moves opens node.0 (handle_tick W node).0
  unfolding handle_tick
  Moves-handle_tick {opens} node s =
      let found : Moves opens node.0 _ =
        Moves-trans (Moves-timeouts W node s.limited) (Moves-handle_discovery_tick W _) in
      Moves-trans (Moves-trans found (Moves-keepalive W _ (Moves-IsAligned found s.aligned)))
        (Moves-lifecycle W _)

  -- A round that brings no control message makes moves that open no session.
  pub Moves-quiet_round :
      {opens : Bool} (event : LoopEvent C N W.Channel) (app : App C N) (w : W.State)
      → is_exchange event ≡ false
      → IsSound app
      → Moves opens app (round W event (app, w)).1.0
  unfolding round handle_behaviour_event
  Moves-quiet_round tick app w quiet s = Moves-handle_tick (app, w) s
  Moves-quiet_round (new_listen_addr addr) app w quiet s = Moves-note_local_addr addr app
  Moves-quiet_round (connection_established peer) app w quiet s =
      Moves-connection_established W peer (app, w) s.limited
  Moves-quiet_round (connection_closed peer) app w quiet s = Moves-on_disconnected peer app
  Moves-quiet_round (behaviour ping) app w quiet s = stay
  Moves-quiet_round (behaviour (identify_received peer addrs observed)) app w quiet s =
      Moves-note_local_addr observed app
  Moves-quiet_round (behaviour identify_other) app w quiet s = stay
  Moves-quiet_round (behaviour (mdns_discovered peers)) app w quiet s = stay
  Moves-quiet_round (behaviour mdns_expired) app w quiet s = stay
  Moves-quiet_round (behaviour (kad event)) app w quiet s = Moves-handle_kad_event W event (app, w)
  Moves-quiet_round (behaviour (control_request peer request channel)) app w quiet s = absurd (cc)
  Moves-quiet_round (behaviour (control_response peer id response)) app w quiet s = absurd (cc)
  Moves-quiet_round (behaviour (control_outbound_failure peer id)) app w quiet s =
      Moves-handle_outbound_failure W peer id (app, w)
  Moves-quiet_round (behaviour control_inbound_failure) app w quiet s = stay
  Moves-quiet_round (behaviour control_response_sent) app w quiet s = stay
  Moves-quiet_round other_swarm_event app w quiet s = stay

  Moves-behaviour :
      (event : NodeEvent C N W.Channel) (app : App C N) (w : W.State)
      → IsSound app
      → Moves true app (handle_behaviour_event W event (app, w)).1.0
  unfolding handle_behaviour_event round
  Moves-behaviour (control_request peer request channel) app w s =
      Moves-handle_control_request W peer request channel (app, w)
  Moves-behaviour (control_response peer id response) app w s =
      Moves-handle_control_response W peer id response (app, w)
  Moves-behaviour ping app w s = stay
  Moves-behaviour (identify_received peer addrs observed) app w s =
      Moves-note_local_addr observed app
  Moves-behaviour identify_other app w s = stay
  Moves-behaviour (mdns_discovered peers) app w s = stay
  Moves-behaviour mdns_expired app w s = stay
  Moves-behaviour (kad event) app w s = Moves-handle_kad_event W event (app, w)
  Moves-behaviour (control_outbound_failure peer id) app w s =
      Moves-handle_outbound_failure W peer id (app, w)
  Moves-behaviour control_inbound_failure app w s = stay
  Moves-behaviour control_response_sent app w s = stay

  pub Moves-round :
      (event : LoopEvent C N W.Channel) (app : App C N) (w : W.State)
      → IsSound app
      → Moves true app (round W event (app, w)).1.0
  unfolding round
  Moves-round tick app w s = Moves-quiet_round tick app w refl s
  Moves-round (new_listen_addr addr) app w s = Moves-quiet_round (new_listen_addr addr) app w refl s
  Moves-round (connection_established peer) app w s =
      Moves-quiet_round (connection_established peer) app w refl s
  Moves-round (connection_closed peer) app w s =
      Moves-quiet_round (connection_closed peer) app w refl s
  Moves-round (behaviour event) app w s = Moves-behaviour event app w s
  Moves-round other_swarm_event app w s = stay

  Moves-go_on :
      (x : Outcome × Node W) (rest : Node W → Outcome × Node W) (app : App C N)
      → Moves true app x.1.0
      → Moves true x.1.0 (rest x.1).1.0
      → Moves true app (go_on W x rest).1.0
  unfolding go_on
  Moves-go_on (ok u, node) rest app m m' = Moves-trans m m'
  Moves-go_on (err x, node) rest app m m' = m

  pub run_loop_refines_moves :
      (events : List (LoopEvent C N W.Channel)) (node : Node W)
      → IsSound node.0
      → Moves true node.0 (run_loop W events node).1.0
  unfolding run_loop
  run_loop_refines_moves [] node s = stay
  run_loop_refines_moves (event ∷ events) (app, w) s =
      let m = Moves-round event app w s in
      Moves-go_on (round W event (app, w)) (run_loop W events) app m
        (run_loop_refines_moves events (round W event (app, w)).1 (Moves-IsSound m s))

  -- Whatever ticks and events a new node sees, between any two of them a peer has an active session exactly
  -- if it has a keepalive state and exactly if it has a start time, no peer has two pending requests, and
  -- none counts more attempts than the limit, which is not zero.
  pub run_loop-IsSound :
      (key : C.Keypair) (own : C.PeerId) (trusted : TrustedPeers) (s : Settings C N) (w : W.State)
      (events : List (LoopEvent C N W.Channel))
      → IsSound (run_loop W events (new C N key own trusted s, w)).1.0
  run_loop-IsSound key own trusted s w events =
      let start = new-IsSound key own trusted s in
      Moves-IsSound (run_loop_refines_moves events (new C N key own trusted s, w) start) start

  pub run_loop_keeps_pins :
      (key : C.Keypair) (own : C.PeerId) (trusted : TrustedPeers) (s : Settings C N) (w : W.State)
      (events : List (LoopEvent C N W.Channel))
      → let app = new C N key own trusted s in
        let app' = (run_loop W events (app, w)).1.0 in
        ((code : String) (b : String × Bytes × ℤ)
          → bound trusted code ≡ some b
          → bound app'.trusted_peers code ≡ some b)
        × (s.trust_on_first_use ≡ false
            → (code : String) → bound app'.trusted_peers code ≡ bound trusted code)
        × (fixed_of app' ≡ fixed_of app)
  unfolding new
  run_loop_keeps_pins key own trusted s w events =
      let m =
        run_loop_refines_moves events (new C N key own trusted s, w)
          (new-IsSound key own trusted s) in
      ((Moves-Keeps m).kept, (Moves-Keeps m).no_new, Moves-fixed m)
