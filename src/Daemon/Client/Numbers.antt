-- ===== src/Daemon/Client/Numbers.antt =====
-- What a client reads of the daemon's output: the replies to its requests in order, numbered through.
use aether_link.Base.{
  ℕ, zero, suc, ◌<◌, ◌≡◌, ◌∙◌, refl, sym, subst, ap, ◌++◌, Bool, false, if◌then◌else◌, String, ◌<>◌,
  Option, none, some, List, [], ◌∷◌, ok, All, length, arith, append_assoc,
}
use aether_link.Base.Show.{show_ℕ}
use aether_link.Base.Text.{is_empty_str}
use aether_link.Ipc.{read_frame, write_frame}
use aether_link.Ipc.Frames.{IsPayload, read_frame-write_frame}
use aether_link.Daemon.{Daemon, process_request}
use aether_link.Daemon.State.{Host, Answer}
use aether_link.Daemon.Messages.{
  DaemonRequest, DaemonEvent, IpcPayload, request, response, event, IpcEnvelope,
}
use aether_link.Daemon.Client.{
  envelope, next_seq, number_events, id_of, number_answer, reply, write_all, before_rest,
  handle_frames, handle_client,
}

read_frame-nil : read_frame [] ≡ ok none
unfolding read_frame
read_frame-nil = refl

-- The envelopes count on from a number.
abbrev pub IsNumbered : ℕ → List IpcEnvelope → ℕ → Type 0
IsNumbered seq [] end = seq ≡ end
IsNumbered seq (env ∷ envs) end = (env.seq ≡ seq) × IsNumbered (next_seq seq) envs end

IsNumbered-append :
    (xs ys : List IpcEnvelope) (a b c : ℕ)
    → IsNumbered a xs b
    → IsNumbered b ys c
    → IsNumbered a (xs ++ ys) c
IsNumbered-append [] ys a b c h k = subst (λ n. IsNumbered n ys c) (sym h) k
IsNumbered-append (x ∷ xs) ys a b c (h, hs) k = (h, IsNumbered-append xs ys (next_seq a) b c hs k)

number_events-IsNumbered :
    (id : String) (seq : ℕ) (events : List DaemonEvent)
    → IsNumbered seq (number_events id seq events).0 (number_events id seq events).1
unfolding number_events
number_events-IsNumbered id seq [] = refl
number_events-IsNumbered id seq (x ∷ xs) = (refl, number_events-IsNumbered id (next_seq seq) xs)

module _ (H : Host) where
  answer-IsNumbered :
      (id : String) (seq : ℕ) (x : Answer × Daemon H)
      → IsNumbered seq (number_answer H id seq x).0.0 (number_answer H id seq x).0.1
  unfolding number_answer
  answer-IsNumbered id seq ((answer, events), daemon) =
      (refl, number_events-IsNumbered id (next_seq seq) events)

  -- The replies to a request with an id of its own start with the response.
  pub reply-named :
      (s seq : ℕ) (id : String) (r : Option DaemonRequest) (daemon : Daemon H)
      → is_empty_str id ≡ false
      → (rest : List IpcEnvelope) × ((reply H (envelope s id (request r)) seq daemon).0.0
          ≡ envelope seq id (response (process_request H r daemon).0.0) ∷ rest)
  unfolding reply id_of number_answer
  reply-named s seq id r (rt, w) named =
      let own : Bool → String × H.State =
        λ b. if b then ("ipc-" <> show_ℕ (H.unix_ms w).0, (H.unix_ms w).1) else (id, w) in
      (_, ap (λ b. (number_answer H (own b).0 seq (process_request H r (rt, (own b).1))).0.0) named)

  payload-IsNumbered :
      (o : Option IpcPayload) (s : ℕ) (id : String) (seq : ℕ) (d : Daemon H)
      → let env : IpcEnvelope = record { seq = s; request_id = id; payload = o } in
        IsNumbered seq (reply H env seq d).0.0 (reply H env seq d).0.1
  unfolding reply
  payload-IsNumbered none s id seq (rt, w) = refl
  payload-IsNumbered (some (request r)) s id seq (rt, w) =
      answer-IsNumbered (id_of H id w).0 seq (process_request H r (rt, (id_of H id w).1))
  payload-IsNumbered (some (response r)) s id seq (rt, w) = refl
  payload-IsNumbered (some (event x)) s id seq (rt, w) = refl

  reply-IsNumbered :
      (env : IpcEnvelope) (seq : ℕ) (d : Daemon H)
      → IsNumbered seq (reply H env seq d).0.0 (reply H env seq d).0.1
  reply-IsNumbered env seq d = payload-IsNumbered env.payload env.seq env.request_id seq d

  -- The replies to some envelopes, one after the other, with the next number and the daemon after them.
  unfoldable pub replies : List IpcEnvelope → ℕ → Daemon H → (List IpcEnvelope × ℕ) × Daemon H
  replies [] seq daemon = (([], seq), daemon)
  replies (env ∷ envs) seq daemon =
      let ((first, seq'), daemon') = reply H env seq daemon in
      let ((rest, seq''), daemon'') = replies envs seq' daemon' in
      ((first ++ rest, seq''), daemon'')

  replies-IsNumbered :
      (envs : List IpcEnvelope) (seq : ℕ) (daemon : Daemon H)
      → IsNumbered seq (replies envs seq daemon).0.0 (replies envs seq daemon).0.1
  unfolding replies
  replies-IsNumbered [] seq daemon = refl
  replies-IsNumbered (env ∷ envs) seq daemon =
      let x = reply H env seq daemon in
      IsNumbered-append x.0.0 (replies envs x.0.1 x.1).0.0 seq x.0.1 _
        (reply-IsNumbered env seq daemon) (replies-IsNumbered envs x.0.1 x.1)

  write_all-append :
      (xs ys : List IpcEnvelope) → write_all H (xs ++ ys) ≡ write_all H xs ++ write_all H ys
  unfolding write_all
  write_all-append [] ys = refl
  write_all-append (x ∷ xs) ys =
      ap (λ l. write_frame (H.encode_envelope x) ++ l) (write_all-append xs ys)
      ∙ sym (append_assoc (write_frame (H.encode_envelope x)) (write_all H xs) (write_all H ys))

  -- An envelope that fits a frame and reads back.
  abbrev pub IsSendable : IpcEnvelope → Type 0
  IsSendable env =
      IsPayload (H.encode_envelope env) × (H.decode_envelope (H.encode_envelope env) ≡ some env)

  frames_lem :
      (envs : List IpcEnvelope) (fuel seq : ℕ) (daemon : Daemon H)
      → All IsSendable envs
      → length envs < fuel
      → let ((out, seq'), daemon') = replies envs seq daemon in
        handle_frames H fuel seq (write_all H envs) daemon ≡ ((ok tt, write_all H out), daemon')
  unfolding handle_frames replies write_all before_rest
  frames_lem [] (suc fuel) seq daemon h enough = rw (read_frame-nil, handle_frames) refl
  frames_lem (env ∷ envs) (suc fuel) seq daemon (h, hs) enough =
      let x = reply H env seq daemon in
      let y = replies envs x.0.1 x.1 in
      let rest = frames_lem envs fuel x.0.1 x.1 hs (omega arith) in
      rw (read_frame-write_frame (H.encode_envelope env) (write_all H envs) h.0, handle_frames)
        (rw (h.1, handle_frames)
          (ap (λ z. before_rest H x.0.0 z) rest
            ∙ sym (λ i. ((ok tt, write_all-append x.0.0 y.0.0 i), y.1))))
  frames_lem [] zero seq daemon h enough = elim enough [ ]
  frames_lem (env ∷ envs) zero seq daemon h enough = elim enough [ ]

  pub handle_client-write_all :
      (envs : List IpcEnvelope) (fuel : ℕ) (daemon : Daemon H)
      → All IsSendable envs
      → length envs < fuel
      → let ((out, end), daemon') = replies envs 1 daemon in
        (handle_client H fuel (write_all H envs) daemon ≡ ((ok tt, write_all H out), daemon'))
        × IsNumbered 1 out end
  unfolding handle_client
  handle_client-write_all envs fuel daemon h enough =
      (frames_lem envs fuel 1 daemon h enough, replies-IsNumbered envs 1 daemon)
