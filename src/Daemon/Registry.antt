-- ===== src/Daemon/Registry.antt =====
-- The devices that the daemon has been told of, against what the requests say.
use aether_link.Base.{
  ◌≡◌, ◌∙◌, ap, refl, sym, subst, Bool, true, false, ◌||◌, String, string_eq, ◌==◌, contains,
  Option, none, some, List, [], ◌∷◌, map, ok, err, arith, if◌then◌else◌,
}
use aether_link.Base.Dict
use aether_link.Base.Dict.{Dict}
use aether_link.Base.Sets.{unwrap_or, contains-set_insert, contains-set_remove}
use aether_link.Security.Trust.{TrustedPeerRecord}
use aether_link.Daemon.{
  Daemon, Done, killed, stop_child, stop_managed_node, spawned, start_node, restart_managed_node,
  discover_devices_from_trust_store, started, stopped, connecting, answer, process_request,
}
use aether_link.Daemon.State.{
  Host, new, DaemonState, Runtime, configure, at_least_0, discovered, devices_of, no_stats,
  start_config, pair, add_target, btree_insert,
}
use aether_link.Daemon.Messages.{
  DaemonRequest, start_daemon, stop_daemon, discover_devices, pair_device, connect_session,
  send_input, start_file_transfer, set_clipboard_sync, start_recording, get_session_stats,
  DiscoveredDevice, DaemonResponse, DaemonEvent, SessionStats,
}
use aether_link.Daemon.Processes.{process_all}

-- What a request does to the configuration, whether the managed node starts and stops or not.
configured : Option DaemonRequest → DaemonState → DaemonState
configured (some (start_daemon start)) c = start_config start c
configured (some (pair_device code approved)) c = pair code approved c
configured (some (connect_session code)) c = add_target code c
configured _ c = c

module _ (H : Host) where
  abbrev config : Daemon H → DaemonState
  config daemon = daemon.0.config

  killed-config : (rt : Runtime H.Child) (r : Bool × H.State) → config (killed H rt r).1 ≡ rt.config
  unfolding killed
  killed-config rt (true, w) = refl
  killed-config rt (false, w) = refl

  stop-config :
      (o : Option H.Child) (daemon : Daemon H) → config (stop_child H o daemon).1 ≡ config daemon
  unfolding stop_child
  stop-config none (rt, w) = refl
  stop-config (some child) (rt, w) = killed-config rt _

  spawned-config :
      (rt : Runtime H.Child) (r : Option H.Child × H.State) → config (spawned H rt r).1 ≡ rt.config
  unfolding spawned
  spawned-config rt (none, w) = refl
  spawned-config rt (some child, w) = refl

  start_node-config : (x : Done H × Daemon H) → config (start_node H x).1 ≡ config x.1
  unfolding start_node
  start_node-config (ok u, (rt, w)) = spawned-config rt _
  start_node-config (err x, daemon) = refl

  restart-config : (daemon : Daemon H) → config (restart_managed_node H daemon).1 ≡ config daemon
  unfolding restart_managed_node stop_managed_node
  restart-config (rt, w) = start_node-config _ ∙ stop-config rt.child (rt, w)

  started-config : (x : Done H × Daemon H) → config (started H x).1 ≡ config x.1
  unfolding started
  started-config (ok u, daemon) = refl
  started-config (err x, daemon) = refl

  stopped-config : (x : Done H × Daemon H) → config (stopped H x).1 ≡ config x.1
  unfolding stopped
  stopped-config (ok u, daemon) = refl
  stopped-config (err x, daemon) = refl

  connecting-config :
      (code : String) (x : Done H × Daemon H) → config (connecting H code x).1 ≡ config x.1
  unfolding connecting
  connecting-config code (done, (rt, w)) = refl

  answer-config :
      (request : DaemonRequest) (daemon : Daemon H)
      → config (answer H request daemon).1 ≡ configured (some request) (config daemon)
  unfolding answer configured stop_managed_node
  answer-config (start_daemon start) (rt, w) =
      started-config _ ∙ restart-config (configure (start_config start rt.config) rt, w)
  answer-config stop_daemon (rt, w) = stopped-config _ ∙ stop-config rt.child (rt, w)
  answer-config discover_devices daemon = refl
  answer-config (pair_device code approved) daemon = refl
  answer-config (connect_session code) (rt, w) =
      connecting-config code (restart_managed_node H (configure (add_target code rt.config) rt, w))
      ∙ restart-config (configure (add_target code rt.config) rt, w)
  answer-config send_input daemon = refl
  answer-config (start_file_transfer x) daemon = refl
  answer-config (set_clipboard_sync x) daemon = refl
  answer-config (start_recording x) daemon = refl
  answer-config (get_session_stats session) daemon = refl

  process-config :
      (o : Option DaemonRequest) (daemon : Daemon H)
      → config (process_request H o daemon).1 ≡ configured o (config daemon)
  unfolding process_request configured
  process-config none daemon = refl
  process-config (some request) daemon = answer-config request daemon

-- The abstract registry: the last word on a device, and whether a session with it was ever asked for.
abbrev said : String → Option DaemonRequest → Bool → Bool
said code (some (pair_device other approved)) before = if other == code then approved else before
said code _ before = before

abbrev pub last_word : String → List (Option DaemonRequest) → Bool → Bool
last_word code [] before = before
last_word code (request ∷ requests) before = last_word code requests (said code request before)

abbrev asked : String → Option DaemonRequest → Bool → Bool
asked code (some (connect_session other)) before = other == code || before
asked code _ before = before

abbrev pub ever_asked : String → List (Option DaemonRequest) → Bool → Bool
ever_asked code [] before = before
ever_asked code (request ∷ requests) before = ever_asked code requests (asked code request before)

contains-btree_insert :
    (s t : String) (ts : List String) → contains (btree_insert s ts) t ≡ (s == t || contains ts t)
unfolding btree_insert
contains-btree_insert s t [] = ground arith
contains-btree_insert s t (x ∷ xs) = ground (arith, contains-btree_insert s t xs)

-- What of a configuration the registry sees.
abbrev Sees : DaemonState → String → Bool → Bool → Type 0
Sees c code paired target =
    (contains c.paired_devices code ≡ paired) × (contains c.connect_device_codes code ≡ target)

configured-Sees :
    (o : Option DaemonRequest) (c : DaemonState) (code : String) (paired target : Bool)
    → Sees c code paired target
    → Sees (configured o c) code (said code o paired) (asked code o target)
unfolding configured start_config pair
configured-Sees none c code paired target h = h
configured-Sees (some (start_daemon start)) c code paired target h = h
configured-Sees (some stop_daemon) c code paired target h = h
configured-Sees (some discover_devices) c code paired target h = h
configured-Sees (some (pair_device other approved)) c code paired target h = (
  ground (
    arith,
    contains-set_insert other code c.paired_devices,
    contains-set_remove other code c.paired_devices,
  ),
  h.1,
)
configured-Sees (some (connect_session other)) c code paired target h = (
  h.0,
  contains-btree_insert other code c.connect_device_codes ∙ ap (λ b. other == code || b) h.1,
)
configured-Sees (some send_input) c code paired target h = h
configured-Sees (some (start_file_transfer x)) c code paired target h = h
configured-Sees (some (set_clipboard_sync x)) c code paired target h = h
configured-Sees (some (start_recording x)) c code paired target h = h
configured-Sees (some (get_session_stats session)) c code paired target h = h

module _ (H : Host) where
  from-Sees :
      (requests : List (Option DaemonRequest)) (daemon : Daemon H) (code : String)
      (paired target : Bool)
      → Sees daemon.0.config code paired target
      → Sees
          (process_all H requests daemon).0.config
          code
          (last_word code requests paired)
          (ever_asked code requests target)
  unfolding process_all
  from-Sees [] daemon code paired target h = h
  from-Sees (request ∷ requests) daemon code paired target h =
      from-Sees requests (process_request H request daemon).1 code _ _ (
        subst (λ c. Sees c code (said code request paired) (asked code request target))
          (sym (process-config H request daemon))
          (configured-Sees request daemon.0.config code paired target h))

  -- The daemon implements the registry: whatever requests a new daemon gets, and whether the managed node
  -- starts and stops or not, a device is among the paired ones exactly if the last pairing request for it
  -- approved it, and among the connect targets exactly if a session with it was ever asked for.
  pub registry_refines :
      (binary listen identity_file trust_store_file : String)
      (requests : List (Option DaemonRequest)) (w : H.State) (code : String)
      → let start = new binary listen identity_file trust_store_file in
        let c = (process_all H requests (start, w)).0.config in
        (contains c.paired_devices code ≡ last_word code requests false)
        × (contains c.connect_device_codes code ≡ ever_asked code requests false)
  unfolding new
  registry_refines binary listen identity_file trust_store_file requests w code =
      from-Sees requests (new binary listen identity_file trust_store_file, w) code false false
        (refl, refl)

-- A record of the trust store as it is shown, with this flag for its device code.
abbrev pub shown : (String → Bool) → TrustedPeerRecord → DiscoveredDevice
shown flag p = record {
  device_code = p.device_code;
  peer_id = p.peer_id;
  last_seen_unix_ms = at_least_0 p.last_seen_unix_ms;
  trusted = flag p.device_code;
}

same_devices :
    (peers : List TrustedPeerRecord) (paired : List String) (flag : String → Bool)
    → ((code : String) → contains paired code ≡ flag code)
    → map (discovered paired) peers ≡ map (shown flag) peers
unfolding discovered
same_devices [] paired flag h = refl
same_devices (p ∷ ps) paired flag h =
    λ i. record (shown flag p) { trusted = h p.device_code i } ∷ same_devices ps paired flag h i

-- The stored records as they are shown; none where the file cannot be read.
abbrev pub shown_devices : Option (List TrustedPeerRecord) → (String → Bool) → List DiscoveredDevice
shown_devices none flag = []
shown_devices (some peers) flag = map (shown flag) peers

devices_of-shown :
    (o : Option (List TrustedPeerRecord)) (paired : List String) (flag : String → Bool)
    → ((code : String) → contains paired code ≡ flag code)
    → devices_of o paired ≡ shown_devices o flag
unfolding devices_of
devices_of-shown none paired flag h = refl
devices_of-shown (some peers) paired flag h = same_devices peers paired flag h

configured-stats :
    (o : Option DaemonRequest) (c : DaemonState) → (configured o c).session_stats ≡ c.session_stats
unfolding configured start_config pair
configured-stats none c = refl
configured-stats (some (start_daemon start)) c = refl
configured-stats (some stop_daemon) c = refl
configured-stats (some discover_devices) c = refl
configured-stats (some (pair_device other approved)) c = refl
configured-stats (some (connect_session other)) c = refl
configured-stats (some send_input) c = refl
configured-stats (some (start_file_transfer x)) c = refl
configured-stats (some (set_clipboard_sync x)) c = refl
configured-stats (some (start_recording x)) c = refl
configured-stats (some (get_session_stats session)) c = refl

module _ (H : Host) where
  -- A discovery that follows any requests to a new daemon shows the records of the trust store, in their
  -- order, each trusted exactly if the last pairing request for its device approved it; none where the file
  -- cannot be read. Its event shows the same.
  pub discovery_shows_last_word :
      (binary listen identity_file trust_store_file : String)
      (requests : List (Option DaemonRequest)) (w : H.State)
      → let (rt, w') =
          process_all H requests (new binary listen identity_file trust_store_file, w) in
        let devices =
          shown_devices
            (H.read_trust_store rt.config.trust_store_file w')
            (λ code. last_word code requests false) in
        (process_request H (some discover_devices) (rt, w')).0
        ≡ (DaemonResponse.discover_devices devices, DaemonEvent.discovery_update devices ∷ [])
  unfolding process_request answer discover_devices_from_trust_store
  discovery_shows_last_word binary listen identity_file trust_store_file requests w =
      ap
        (λ (devices : List DiscoveredDevice).
          (DaemonResponse.discover_devices devices, DaemonEvent.discovery_update devices ∷ []))
        (devices_of-shown _ _ (λ code. last_word code requests false)
          (λ code.
            (registry_refines H binary listen identity_file trust_store_file requests w code).0))

  stats_empty :
      (requests : List (Option DaemonRequest)) (daemon : Daemon H)
      → daemon.0.config.session_stats ≡ []
      → (process_all H requests daemon).0.config.session_stats ≡ []
  unfolding process_all
  stats_empty [] daemon h = h
  stats_empty (request ∷ requests) daemon h =
      stats_empty requests (process_request H request daemon).1 (
        ap (λ c. c.session_stats) (process-config H request daemon)
        ∙ (configured-stats request daemon.0.config ∙ h))

  -- Whatever requests a new daemon gets, it answers a request for the statistics of a session with zeros.
  stats_are_zero :
      (binary listen identity_file trust_store_file : String)
      (requests : List (Option DaemonRequest)) (w : H.State) (session : String)
      → let start = new binary listen identity_file trust_store_file in
        (process_request H (some (get_session_stats session)) (process_all H requests (start, w))).0
        ≡ (DaemonResponse.get_session_stats (no_stats session), [])
  unfolding process_request answer new Dict.lookup
  stats_are_zero binary listen identity_file trust_store_file requests w session =
      ap
        (λ (d : Dict String SessionStats). (
          DaemonResponse.get_session_stats (unwrap_or (Dict.lookup session d) (no_stats session)),
          [],
        ))
        (stats_empty requests (new binary listen identity_file trust_store_file, w) refl)
