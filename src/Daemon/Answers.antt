-- ===== src/Daemon/Answers.antt =====
-- What the daemon answers, and what its answers depend on.
use aether_link.Base.{◌≡◌, Bool, true, false, not, string_eq, List, [], ◌∷◌, ok}
use aether_link.Daemon.{Daemon}
use aether_link.Daemon.State.{Host, Answer}
use aether_link.Daemon.Messages.{
  DaemonRequest, start_daemon, stop_daemon, discover_devices, pair_device, connect_session,
  send_input, start_file_transfer, set_clipboard_sync, start_recording, get_session_stats,
  DaemonResponse, DaemonEvent,
}

-- Whether a response is of its request's kind.
abbrev pub in_kind : DaemonRequest → DaemonResponse → Bool
in_kind (start_daemon _) (DaemonResponse.start_daemon _) = true
in_kind stop_daemon (DaemonResponse.stop_daemon _) = true
in_kind discover_devices (DaemonResponse.discover_devices _) = true
in_kind (pair_device _ _) (DaemonResponse.pair_device _) = true
in_kind (connect_session _) (DaemonResponse.connect_session _) = true
in_kind send_input (DaemonResponse.send_input _) = true
in_kind (start_file_transfer _) (DaemonResponse.start_file_transfer _) = true
in_kind (set_clipboard_sync _) (DaemonResponse.set_clipboard_sync _) = true
in_kind (start_recording _) (DaemonResponse.start_recording _) = true
in_kind (get_session_stats _) (DaemonResponse.get_session_stats _) = true
in_kind _ _ = false

-- Whether a response refuses.
abbrev pub refuses : DaemonResponse → Bool
refuses (DaemonResponse.start_daemon a) = not a.ok
refuses (DaemonResponse.stop_daemon a) = not a.ok
refuses (DaemonResponse.connect_session a) = not a.accepted
refuses (DaemonResponse.send_input a) = not a.ok
refuses (DaemonResponse.start_file_transfer a) = not a.ok
refuses (DaemonResponse.set_clipboard_sync a) = not a.ok
refuses (DaemonResponse.start_recording a) = not a.ok
refuses _ = false

abbrev pub has_error : List DaemonEvent → Bool
has_error [] = false
has_error (DaemonEvent.error _ _ ∷ events) = true
has_error (_ ∷ events) = has_error events

module _ (H : Host) where
  abbrev Fits : DaemonRequest → Answer × Daemon H → Type 0
  Fits request x = (in_kind request x.0.0 ≡ true) × (has_error x.0.1 ≡ refuses x.0.0)
