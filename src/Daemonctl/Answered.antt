-- ===== src/Daemonctl/Answered.antt =====
-- A command and its answer, from the client through the daemon and back.
use aether_link.Base.{
  ℕ, suc, ◌≡◌, ◌∙◌, refl, sym, subst, ap, ◌++◌, append-nil, false, String, ◌<>◌, some, List, [],
  ◌∷◌, ok, All, arith,
}
use aether_link.Base.Show.{show_ℕ}
use aether_link.Base.Text.{is_empty_str}
use text.Mathlib.TextLemmas.{cons-append}
use aether_link.Messages.{Bytes}
use aether_link.Ipc.{send_request, write_frame}
use aether_link.Ipc.Frames.{read_envelope-write_frame, write_frame-send_request}
use aether_link.Daemon.{Daemon, process_request}
use aether_link.Daemon.State.{Host}
use aether_link.Daemon.Messages.{DaemonResponse, response, IpcEnvelope}
use aether_link.Daemon.Client.{envelope, reply, write_all, handle_client}
use aether_link.Daemon.Client.Numbers.{IsSendable, replies, reply-named, handle_client-write_all}
use aether_link.Daemonctl.{Command, request_of, build_request, await_response}

module _ (H : Host) where
  first_response :
      (answer : DaemonResponse) (seq : ℕ) (id : String) (rest : Bytes) (fuel : ℕ)
      → IsSendable H (envelope seq id (response answer))
      → await_response
          (suc fuel)
          H.decode_envelope
          (write_frame (H.encode_envelope (envelope seq id (response answer))) ++ rest)
        ≡ ok (some answer)
  unfolding await_response
  first_response answer seq id rest fuel h =
      rw
        (
          read_envelope-write_frame H.encode_envelope H.decode_envelope
              (envelope seq id (response answer)) rest h.1 h.0,
          await_response,
        )
        refl

  -- The client's id is not empty.
  id_named : (now : ℕ) → is_empty_str ("ctl-" <> show_ℕ now) ≡ false
  id_named now = ap is_empty_str (cons-append _ _ (show_ℕ now))

  -- The client's output of the daemon for an envelope that it is sent.
  written_lem :
      (env : IpcEnvelope) (daemon : Daemon H) (sent : Bytes)
      → IsSendable H env
      → send_request (H.encode_envelope env) ≡ ok sent
      → (handle_client H 2 sent daemon).0.1 ≡ write_all H ((reply H env 1 daemon).0.0 ++ [])
  unfolding write_all replies
  written_lem env daemon sent h sends =
      let written : write_all H (env ∷ []) ≡ sent =
        append-nil (write_frame (H.encode_envelope env))
        ∙ write_frame-send_request (H.encode_envelope env) sent sends in
      let out = (handle_client-write_all H (env ∷ []) 2 daemon (h, tt) (omega arith)).0 in
      subst (λ s. (handle_client H 2 s daemon).0.1 ≡ write_all H ((reply H env 1 daemon).0.0 ++ []))
        written (ap (λ x. x.0.1) out)

  first_of :
      (answers rest : List IpcEnvelope) (answer : DaemonResponse) (id : String)
      → answers ≡ envelope 1 id (response answer) ∷ rest
      → All (IsSendable H) answers
      → await_response 2 H.decode_envelope (write_all H (answers ++ [])) ≡ ok (some answer)
  unfolding write_all
  first_of answers rest answer id same h =
      subst (λ l. await_response 2 H.decode_envelope (write_all H (l ++ [])) ≡ ok (some answer))
        (sym same) (first_response answer 1 id _ 1 (subst (All (IsSendable H)) same h).0)

  -- A command whose encoded request the client sends gets the answer that the daemon has for it, if the
  -- request and the daemon's messages fit a frame and read back. Both loops have fuel for two rounds.
  pub command_gets_its_answer :
      (command : Command) (now : ℕ) (daemon : Daemon H) (sent : Bytes)
      → IsSendable H (build_request command now)
      → All (IsSendable H) (reply H (build_request command now) 1 daemon).0.0
      → send_request (H.encode_envelope (build_request command now)) ≡ ok sent
      → await_response 2 H.decode_envelope (handle_client H 2 sent daemon).0.1
        ≡ ok (some (process_request H (some (request_of command)) daemon).0.0)
  unfolding build_request
  command_gets_its_answer command now daemon sent h hs sends =
      let (rest, first) =
        reply-named H 1 1 ("ctl-" <> show_ℕ now) (some (request_of command)) daemon
          (id_named now) in
      ap (await_response 2 H.decode_envelope)
        (written_lem (build_request command now) daemon sent h sends)
      ∙ first_of (reply H (build_request command now) 1 daemon).0.0 rest _ ("ctl-" <> show_ℕ now)
          first hs
