-- ===== src/Node/Files/Atomic.antt =====
-- What a write leaves, whatever operation of it fails.
use aether_link.Base.{
  ◌≡◌, ◌∙◌, refl, ap, ◌⊎◌, inl, inr, Bool, true, false, ◌||◌, some, ◌==◌, ok, is_ok, arith,
}
use aether_link.Base.Dict
use aether_link.Messages.{Bytes}
use aether_link.Node.Files.Disk.{
  FilePath, path_eq, with_extension, File, Disk, create_dir_all, write, set_permissions, rename,
}
use aether_link.Node.Files.Disk.Effects.{
  file_at, Touches, files-create_dir_all, Wrote, write-Wrote, Restricts, set_permissions-Restricts,
  Renames, rename-Renames,
}
use aether_link.Node.Files.{
  create_parent_failed, write_temp_failed, rename_temp_failed, set_mode_failed, Done, and_then,
  set_restrictive_permissions, renamed, restricted, written, write_atomic,
}

abbrev pub secret : Bytes → File
secret bytes = record { content = bytes; restricted = true }

-- The file at `p` is what it was, which a success excludes, or it holds all the bytes with the mode 0600, and
-- but for it and the temporary file none has changed.
abbrev pub AllOrNothing : FilePath → FilePath → Bytes → Disk → Done → Type 0
AllOrNothing tmp p bytes d (result, d') =
    Touches (λ q. q == tmp || q == p) d d'
    × (((file_at p d' ≡ file_at p d) × (is_ok result ≡ false))
        ⊎ (file_at p d' ≡ some (secret bytes)))

-- The same once the file is in its place.
last_step :
    (tmp p : FilePath) (bytes : Bytes) (d d' : Disk) (x : Bool × Disk)
    → Touches (λ q. q == tmp || q == p) d d'
    → file_at p d' ≡ some (secret bytes)
    → Restricts p bytes d' x
    → AllOrNothing tmp p bytes d (and_then set_mode_failed x (λ d''. (ok tt, d'')))
unfolding and_then
last_step tmp p bytes d d' (true, d'') t at r =
    (λ q other. r.0 q (ground arith) ∙ t q other, inr (r.1 refl))
last_step tmp p bytes d d' (false, d'') t at r =
    (λ q other. r.0 q (ground arith) ∙ t q other, inr (r.2 refl ∙ at))

renamed_step :
    (tmp p : FilePath) (bytes : Bytes) (d d' : Disk) (x : Bool × Disk)
    → (p == tmp) ≡ false
    → Touches (λ q. q == tmp) d d'
    → Renames tmp p (secret bytes) d' x
    → AllOrNothing tmp p bytes d (and_then rename_temp_failed x (set_restrictive_permissions p))
unfolding and_then set_restrictive_permissions
renamed_step tmp p bytes d d' (true, d'') apart t r =
    let (t', at) = r.0 refl in
    last_step tmp p bytes d d'' (set_permissions p d'') (λ q other. t' q other ∙ t q (ground arith))
      at (set_permissions-Restricts p bytes true d'' at)
renamed_step tmp p bytes d d' (false, d'') apart t r =
    let same : (q : FilePath) → file_at q d'' ≡ file_at q d' = λ q. ap (Dict.lookup q) (r.1 refl) in
    (λ q other. same q ∙ t q (ground arith), inl (same p ∙ t p apart, refl))

restricted_step :
    (tmp p : FilePath) (bytes : Bytes) (d d' : Disk) (x : Bool × Disk)
    → (p == tmp) ≡ false
    → Touches (λ q. q == tmp) d d'
    → Restricts tmp bytes d' x
    → AllOrNothing tmp p bytes d (and_then set_mode_failed x (renamed tmp p))
unfolding and_then renamed
restricted_step tmp p bytes d d' (true, d'') apart t r =
    renamed_step tmp p bytes d d'' (rename tmp p d'') apart (λ q other. r.0 q other ∙ t q other)
      (rename-Renames tmp p (secret bytes) d'' (r.1 refl))
restricted_step tmp p bytes d d' (false, d'') apart t r =
    (λ q other. r.0 q (ground arith) ∙ t q (ground arith), inl (r.0 p apart ∙ t p apart, refl))

written_step :
    (tmp p : FilePath) (bytes : Bytes) (d d' : Disk) (x : Bool × Disk)
    → (p == tmp) ≡ false
    → d'.files ≡ d.files
    → Wrote tmp bytes d' x
    → AllOrNothing tmp p bytes d (and_then write_temp_failed x (restricted tmp p))
unfolding and_then restricted
written_step tmp p bytes d d' (true, d'') apart same w =
    let (b, at) = w.1 refl in
    restricted_step tmp p bytes d d'' (set_permissions tmp d'') apart
      (λ q other. w.0 q other ∙ ap (Dict.lookup q) same)
      (set_permissions-Restricts tmp bytes b d'' at)
written_step tmp p bytes d d' (false, d'') apart same w = (
  λ q other. w.0 q (ground arith) ∙ ap (Dict.lookup q) same,
  inl (w.0 p apart ∙ ap (Dict.lookup p) same, refl),
)

created_step :
    (tmp p : FilePath) (bytes : Bytes) (d : Disk) (x : Bool × Disk)
    → (p == tmp) ≡ false
    → x.1.files ≡ d.files
    → AllOrNothing tmp p bytes d (and_then create_parent_failed x (written tmp p bytes))
unfolding and_then written
created_step tmp p bytes d (true, d') apart same =
    written_step tmp p bytes d d' (write tmp bytes d') apart same (write-Wrote tmp bytes d')
created_step tmp p bytes d (false, d') apart same =
    (λ q other. ap (Dict.lookup q) same, inl (ap (Dict.lookup p) same, refl))

-- Whatever operation fails, and whatever a failed write leaves: after `write_atomic` the file is what it was
-- and an error is reported, or it holds all the bytes and its mode is 0600; no other file but the temporary
-- one has changed. The file's extension must not be "tmp".
pub write_atomic-AllOrNothing :
    (p : FilePath) (bytes : Bytes) (d : Disk)
    → (p == with_extension "tmp" p) ≡ false
    → AllOrNothing (with_extension "tmp" p) p bytes d (write_atomic p bytes d)
unfolding write_atomic
write_atomic-AllOrNothing p bytes d apart =
    created_step (with_extension "tmp" p) p bytes d (create_dir_all d) apart
      (files-create_dir_all d)
