-- ===== src/Tests/Ipc.antt =====
-- Runs of the IPC frames.
use aether_link.Base.{nat_eq, ◌≡◌, refl, [], ◌∷◌, ok}
use aether_link.Messages.{Bytes}
use aether_link.Ipc.{write_frame, read_frames}
use aether_link.Ipc.Frames.{write_frames}

abbrev two_bytes : Bytes
two_bytes = 10 ∷ 20 ∷ []

-- An empty payload is read as the end of the stream: what follows is not read.
empty_ends : read_frames 5 (write_frames (two_bytes ∷ [] ∷ two_bytes ∷ [])) ≡ ok (two_bytes ∷ [])
unfolding read_frames write_frame nat_eq
empty_ends = refl
