-- ===== src/Daemon/Processes.antt =====
-- The daemon runs one managed node at most.
use aether_link.Base.{
  ◌≡◌, ◌∙◌, ap, refl, sym, Bool, true, false, String, Option, none, some, List, [], ◌∷◌, ok, err,
}
use aether_link.Daemon.{
  Daemon, Done, killed, stop_child, stop_managed_node, spawned, start_node, restart_managed_node,
  started, stopped, connecting, answer, process_request,
}
use aether_link.Daemon.State.{Host, new, Runtime, configure, node_args, start_config, add_target}
use aether_link.Daemon.Messages.{
  DaemonRequest, start_daemon, stop_daemon, discover_devices, pair_device, connect_session,
  send_input, start_file_transfer, set_clipboard_sync, start_recording, get_session_stats,
}

-- The processes of a host, the last started first, and what its operations do to them.
pub record Processes (H : Host) : Type 0 where
  pub alive : H.State → List H.Child
  -- A process that is started is added, one that is not changes nothing.
  pub spawn_some :
      (binary : String) (args : List String) (w : H.State) (child : H.Child)
      → (H.spawn binary args w).0 ≡ some child
      → alive (H.spawn binary args w).1 ≡ child ∷ alive w
  pub spawn_none :
      (binary : String) (args : List String) (w : H.State)
      → (H.spawn binary args w).0 ≡ none
      → alive (H.spawn binary args w).1 ≡ alive w
  -- Killing the last process removes it, failing to changes nothing.
  pub kill_done :
      (child : H.Child) (w : H.State) (rest : List H.Child)
      → alive w ≡ child ∷ rest
      → (H.kill child w).0 ≡ true
      → alive (H.kill child w).1 ≡ rest
  pub kill_failed :
      (child : H.Child) (w : H.State)
      → (H.kill child w).0 ≡ false
      → alive (H.kill child w).1 ≡ alive w
  pub clock : (w : H.State) → alive (H.unix_ms w).1 ≡ alive w

module _ {A : Type 0} where
  abbrev pub own : Option A → List A → List A
  own none others = others
  own (some a) others = a ∷ others

module _ (H : Host) (P : Processes H) (others : List H.Child) where
  -- Beside the others, the daemon's child is the only process.
  abbrev pub HasOne : Daemon H → Type 0
  HasOne daemon = P.alive daemon.1 ≡ own daemon.0.child others

  -- What stopping leaves: no child where it succeeds.
  abbrev Stopped : Done H × Daemon H → Type 0
  Stopped (ok _, (rt, w)) = (rt.child ≡ none) × (P.alive w ≡ others)
  Stopped (err x, daemon) = HasOne daemon

  killed-Stopped :
      (rt : Runtime H.Child) (child : H.Child) (w : H.State) (r : Bool × H.State)
      → H.kill child w ≡ r
      → rt.child ≡ some child
      → P.alive w ≡ child ∷ others
      → Stopped (killed H rt r)
  unfolding killed
  killed-Stopped rt child w (true, w') eq has one =
      (refl, ap (λ x. P.alive x.1) (sym eq) ∙ P.kill_done child w others one (ap (λ x. x.0) eq))
  killed-Stopped rt child w (false, w') eq has one =
      ap (λ x. P.alive x.1) (sym eq)
      ∙ (P.kill_failed child w (ap (λ x. x.0) eq) ∙ (one ∙ ap (λ c. own c others) (sym has)))

  stop_child-Stopped :
      (o : Option H.Child) (rt : Runtime H.Child) (w : H.State)
      → rt.child ≡ o
      → HasOne (rt, w)
      → Stopped (stop_child H o (rt, w))
  unfolding stop_child
  stop_child-Stopped none rt w has one = (refl, one ∙ ap (λ c. own c others) has)
  stop_child-Stopped (some child) rt w has one =
      killed-Stopped rt child w (H.kill child w) refl has (one ∙ ap (λ c. own c others) has)

  HasOne-Stopped : (x : Done H × Daemon H) → Stopped x → HasOne x.1
  HasOne-Stopped (ok u, (rt, w)) (gone, one) = one ∙ ap (λ c. own c others) (sym gone)
  HasOne-Stopped (err x, daemon) one = one

  spawned-HasOne :
      (rt : Runtime H.Child) (w : H.State) (r : Option H.Child × H.State)
      → H.spawn rt.config.node_binary (node_args rt.config) w ≡ r
      → rt.child ≡ none
      → P.alive w ≡ others
      → HasOne (spawned H rt r).1
  unfolding spawned
  spawned-HasOne rt w (none, w') eq has one =
      ap (λ x. P.alive x.1) (sym eq)
      ∙ (P.spawn_none _ _ w (ap (λ x. x.0) eq) ∙ (one ∙ ap (λ c. own c others) (sym has)))
  spawned-HasOne rt w (some child, w') eq has one =
      ap (λ x. P.alive x.1) (sym eq)
      ∙ (P.spawn_some _ _ w child (ap (λ x. x.0) eq) ∙ ap (λ l. child ∷ l) one)

  start_node-HasOne : (x : Done H × Daemon H) → Stopped x → HasOne (start_node H x).1
  unfolding start_node
  start_node-HasOne (ok u, (rt, w)) (gone, one) = spawned-HasOne rt w _ refl gone one
  start_node-HasOne (err x, daemon) one = one

  restart-HasOne :
      (rt : Runtime H.Child) (w : H.State)
      → HasOne (rt, w)
      → HasOne (restart_managed_node H (rt, w)).1
  unfolding restart_managed_node stop_managed_node
  restart-HasOne rt w one = start_node-HasOne _ (stop_child-Stopped rt.child rt w refl one)

  started-HasOne : (x : Done H × Daemon H) → HasOne x.1 → HasOne (started H x).1
  unfolding started
  started-HasOne (ok u, daemon) one = one
  started-HasOne (err x, daemon) one = one

  stopped-HasOne : (x : Done H × Daemon H) → HasOne x.1 → HasOne (stopped H x).1
  unfolding stopped
  stopped-HasOne (ok u, daemon) one = one
  stopped-HasOne (err x, daemon) one = one

  connecting-HasOne :
      (code : String) (x : Done H × Daemon H) → HasOne x.1 → HasOne (connecting H code x).1
  unfolding connecting
  connecting-HasOne code (done, (rt, w)) one = P.clock w ∙ one

  answer-HasOne :
      (request : DaemonRequest) (rt : Runtime H.Child) (w : H.State)
      → HasOne (rt, w)
      → HasOne (answer H request (rt, w)).1
  unfolding answer stop_managed_node
  answer-HasOne (start_daemon start) rt w one =
      started-HasOne _ (restart-HasOne (configure (start_config start rt.config) rt) w one)
  answer-HasOne stop_daemon rt w one =
      stopped-HasOne _ (HasOne-Stopped _ (stop_child-Stopped rt.child rt w refl one))
  answer-HasOne discover_devices rt w one = one
  answer-HasOne (pair_device code approved) rt w one = one
  answer-HasOne (connect_session code) rt w one =
      connecting-HasOne code (restart_managed_node H (configure (add_target code rt.config) rt, w))
        (restart-HasOne (configure (add_target code rt.config) rt) w one)
  answer-HasOne send_input rt w one = one
  answer-HasOne (start_file_transfer x) rt w one = one
  answer-HasOne (set_clipboard_sync x) rt w one = one
  answer-HasOne (start_recording x) rt w one = one
  answer-HasOne (get_session_stats session) rt w one = one

module _ (H : Host) where
  -- The daemon after some requests.
  unfoldable pub process_all : List (Option DaemonRequest) → Daemon H → Daemon H
  process_all [] daemon = daemon
  process_all (request ∷ requests) daemon =
      process_all requests (process_request H request daemon).1

module _ (H : Host) (P : Processes H) where
  process-HasOne :
      (o : Option DaemonRequest) (others : List H.Child) (rt : Runtime H.Child) (w : H.State)
      → HasOne H P others (rt, w)
      → HasOne H P others (process_request H o (rt, w)).1
  unfolding process_request
  process-HasOne none others rt w one = one
  process-HasOne (some request) others rt w one = answer-HasOne H P others request rt w one

  from-HasOne :
      (requests : List (Option DaemonRequest)) (others : List H.Child) (rt : Runtime H.Child)
      (w : H.State)
      → HasOne H P others (rt, w)
      → HasOne H P others (process_all H requests (rt, w))
  unfolding process_all
  from-HasOne [] others rt w one = one
  from-HasOne (request ∷ requests) others rt w one =
      let next = (process_request H request (rt, w)).1 in
      from-HasOne requests others next.0 next.1 (process-HasOne request others rt w one)

  -- Whatever requests a new daemon gets, and whether starting and killing succeed or not, the processes are
  -- those from before and, if the daemon keeps a child, that child: no managed node is left running.
  pub one_managed_node :
      (binary listen identity_file trust_store_file : String)
      (requests : List (Option DaemonRequest)) (w : H.State)
      → let (rt, w') =
          process_all H requests (new binary listen identity_file trust_store_file, w) in
        P.alive w' ≡ own rt.child (P.alive w)
  unfolding new
  one_managed_node binary listen identity_file trust_store_file requests w =
      from-HasOne requests (P.alive w) (new binary listen identity_file trust_store_file) w refl
