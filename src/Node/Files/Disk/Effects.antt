-- ===== src/Node/Files/Disk/Effects.antt =====
-- What an operation leaves, whether it works or not.
use aether_link.Base.{
  ◌≡◌, ◌∙◌, refl, ap, sym, Bool, true, false, Option, none, some, ◌==◌, ◌||◌, List, [], ◌∷◌, arith,
  if_cases,
}
use aether_link.Base.Dict
use aether_link.Base.Dict.{lookup-insert, lookup-erase, contains_key-lookup}
use aether_link.Messages.{Bytes}
use aether_link.Node.Files.Disk.{
  FilePath, path_eq, exists, read, data_of, File, Fault, works, fails, leaves, Disk, next_of, next,
  does_work, put, over, create_dir_all, write_with, restrict, move, write, set_permissions, rename,
}

abbrev pub file_at : FilePath → Disk → Option File
file_at p d = Dict.lookup p d.files

-- Only the files that a test picks may have changed.
abbrev pub Touches : (FilePath → Bool) → Disk → Disk → Type 0
Touches picks d d' = (q : FilePath) → picks q ≡ false → file_at q d' ≡ file_at q d

next_of-files : (faults : List Fault) (d : Disk) → (next_of faults d).1.files ≡ d.files
next_of-files [] d = refl
next_of-files (fault ∷ faults) d = refl

next-files : (d : Disk) → (next d).1.files ≡ d.files
next-files d = next_of-files d.faults d

pub files-create_dir_all : (d : Disk) → (create_dir_all d).1.files ≡ d.files
unfolding create_dir_all
files-create_dir_all d = next-files d

-- The bytes are in the file if the write worked.
abbrev pub Wrote : FilePath → Bytes → Disk → Bool × Disk → Type 0
Wrote p bytes d (done, d') =
    Touches (λ q. q == p) d d'
    × (done ≡ true
        → (b : Bool) × (file_at p d' ≡ some (record { content = bytes; restricted = b })))

over-content :
    (bytes : Bytes) (o : Option File)
    → (b : Bool) × (over bytes o ≡ record { content = bytes; restricted = b })
over-content bytes none = (false, refl)
over-content bytes (some file) = (file.restricted, refl)

Touches-put : (p : FilePath) (file : File) (d : Disk) → Touches (λ q. q == p) d (put p file d)
Touches-put p file d = λ q other. ground (arith, lookup-insert q p file d.files)

file_at-put : (p : FilePath) (file : File) (d : Disk) → file_at p (put p file d) ≡ some file
file_at-put p file d = ground (arith, lookup-insert p p file d.files)

write_with-Wrote :
    (fault : Fault) (p : FilePath) (bytes : Bytes) (d : Disk)
    → Wrote p bytes d (write_with fault p bytes d)
unfolding write_with
write_with-Wrote works p bytes d =
    let (b, same) = over-content bytes (file_at p d) in
    (Touches-put p _ d, λ _. (b, file_at-put p _ d ∙ ap some same))
write_with-Wrote fails p bytes d = (λ q other. refl, λ h. absurd cc)
write_with-Wrote (leaves other) p bytes d = (Touches-put p _ d, λ h. absurd cc)

pub write-Wrote : (p : FilePath) (bytes : Bytes) (d : Disk) → Wrote p bytes d (write p bytes d)
unfolding write
write-Wrote p bytes d =
    let w = write_with-Wrote (next d).0 p bytes (next d).1 in
    (λ q other. w.0 q other ∙ ap (Dict.lookup q) (next-files d), w.1)

-- The file keeps its bytes, and its mode is restricted if the operation worked.
abbrev pub Restricts : FilePath → Bytes → Disk → Bool × Disk → Type 0
Restricts p bytes d (done, d') =
    Touches (λ q. q == p) d d'
    × (done ≡ true → file_at p d' ≡ some (record { content = bytes; restricted = true }))
    × (done ≡ false → file_at p d' ≡ file_at p d)

restrict-Restricts :
    (o : Option File) (p : FilePath) (bytes : Bytes) (b : Bool) (d : Disk)
    → o ≡ some (record { content = bytes; restricted = b })
    → Restricts p bytes d (restrict p o d)
unfolding restrict
restrict-Restricts none p bytes b d at = absurd cc
restrict-Restricts (some file) p bytes b d at =
    let same : file ≡ record { content = bytes; restricted = b } = cc in
    (
      Touches-put p _ d,
      λ _. file_at-put p _ d ∙ ap (λ (f : File). some (record f { restricted = true })) same,
      λ h. absurd cc,
    )

pub set_permissions-Restricts :
    (p : FilePath) (bytes : Bytes) (b : Bool) (d : Disk)
    → file_at p d ≡ some (record { content = bytes; restricted = b })
    → Restricts p bytes d (set_permissions p d)
unfolding set_permissions
set_permissions-Restricts p bytes b d at =
    let d' = (next d).1 in
    let same : (q : FilePath) → file_at q d' ≡ file_at q d =
      λ q. ap (Dict.lookup q) (next-files d) in
    if_cases (Restricts p bytes d) (does_work (next d).0)
      (λ _.
        let r = restrict-Restricts (file_at p d') p bytes b d' (same p ∙ at) in
        (λ q other. r.0 q other ∙ same q, r.1, λ h. r.2 h ∙ same p))
      (λ _. (λ q other. same q, λ h. absurd cc, λ h. same p))

-- The file has moved if the operation worked.
abbrev pub Renames : FilePath → FilePath → File → Disk → Bool × Disk → Type 0
Renames p q file d (done, d') =
    (done ≡ true → Touches (λ r. r == p || r == q) d d' × (file_at q d' ≡ some file))
    × (done ≡ false → d'.files ≡ d.files)

move-Renames :
    (o : Option File) (p q : FilePath) (file : File) (d : Disk)
    → o ≡ some file
    → Renames p q file d (move p q o d)
unfolding move
move-Renames none p q file d at = absurd cc
move-Renames (some found) p q file d at =
    let same : found ≡ file = cc in
    (
      λ _. (
        λ r other.
            ground
              (arith, lookup-insert r q found (Dict.erase p d.files), lookup-erase r p d.files),
        file_at-put q found (record d { files = Dict.erase p d.files }) ∙ ap some same,
      ),
      λ h. absurd cc,
    )

pub rename-Renames :
    (p q : FilePath) (file : File) (d : Disk)
    → file_at p d ≡ some file
    → Renames p q file d (rename p q d)
unfolding rename
rename-Renames p q file d at =
    let d' = (next d).1 in
    let same : (r : FilePath) → file_at r d' ≡ file_at r d =
      λ r. ap (Dict.lookup r) (next-files d) in
    if_cases (Renames p q file d) (does_work (next d).0)
      (λ _.
        let m = move-Renames (file_at p d') p q file d' (same p ∙ at) in
        (λ h. (λ r other. (m.0 h).0 r other ∙ same r, (m.0 h).1), λ h. m.1 h ∙ next-files d))
      (λ _. (λ h. absurd cc, λ h. next-files d))

-- A file with some content.
abbrev pub Holds : FilePath → Bytes → Disk → Type 0
Holds p bytes d = (b : Bool) × (file_at p d ≡ some (record { content = bytes; restricted = b }))

pub files-read : (p : FilePath) (d : Disk) → (read p d).1.files ≡ d.files
unfolding read
files-read p d = next-files d

data_of-some :
    (o : Option File) (bytes : Bytes)
    → data_of o ≡ some bytes
    → (b : Bool) × (o ≡ some (record { content = bytes; restricted = b }))
data_of-some none bytes h = absurd cc
data_of-some (some file) bytes h =
    let same : file.content ≡ bytes = cc in
    (file.restricted, λ i. some (record { content = same i; restricted = file.restricted }))

read_with-Holds :
    (fault : Fault) (o : Option File) (bytes : Bytes)
    → (elim fault as (λ _. Option Bytes) [ works ↦ data_of o | _ ↦ none ]) ≡ some bytes
    → data_of o ≡ some bytes
read_with-Holds works o bytes h = h
read_with-Holds fails o bytes h = absurd cc
read_with-Holds (leaves other) o bytes h = absurd cc

pub read-Holds :
    (p : FilePath) (d : Disk) (bytes : Bytes) → (read p d).0 ≡ some bytes → Holds p bytes d
unfolding read
read-Holds p d bytes h = data_of-some (file_at p d) bytes (
    ap (λ fs. data_of (Dict.lookup p fs)) (sym (next-files d))
    ∙ read_with-Holds (next d).0 (file_at p (next d).1) bytes h)

-- Where nothing will fail, the disk says that a file is there and what it holds.
pub calm :
    (p : FilePath) (bytes : Bytes) (d : Disk)
    → d.faults ≡ []
    → Holds p bytes d
    → (exists p d ≡ (true, d)) × (read p d ≡ (some bytes, d))
unfolding exists read
calm p bytes d quiet (b, at) =
    let works_on : next d ≡ (works, d) = ap (λ l. next_of l d) quiet in
    (
      ap
            (λ (x : Fault × Disk). (
              elim (x.0) as (λ _. Bool) [ works ↦ Dict.contains_key p x.1.files | _ ↦ false ],
              x.1,
            ))
            works_on
          ∙ ap (λ (found : Bool). (found, d))
              (contains_key-lookup p d.files
                ∙ ap (λ o. elim o as (λ _. Bool) [ none ↦ false | some _ ↦ true ]) at),
      ap
            (λ (x : Fault × Disk). (
              elim (x.0) as (λ _. Option Bytes) [ works ↦ data_of (file_at p x.1) | _ ↦ none ],
              x.1,
            ))
            works_on
          ∙ ap (λ o. (data_of o, d)) at,
    )
