-- ===== src/Node/Files/Disk.antt =====
-- What the node uses of `std::path` and `std::fs`: files under their paths, and operations that may fail.
pub mod Effects
use aether_link.Base.{
  ◌≡◌, ap, refl, Bool, true, false, String, string_eq, option_eq, Eq, Option, none, some,
  if◌then◌else◌, List, [], ◌∷◌,
}
use aether_link.Base.Dict
use aether_link.Base.Dict.{Dict}
use aether_link.Messages.{Bytes}
use mathlib.Core.Logic.{dite}

-- A path that ends in a file name: the name's part before its last dot, and the one after it.
pub record FilePath : Type 0 where
  pub parent : String
  pub stem : String
  pub extension : Option String

same_path :
    (p q : FilePath) → p.parent ≡ q.parent → p.stem ≡ q.stem → p.extension ≡ q.extension → p ≡ q
same_path p q a b c = λ i. record { parent = a i; stem = b i; extension = c i }

path_dec : Discrete FilePath
path_dec p q =
    dite (string_eq.dec p.parent q.parent)
      (λ a.
        dite (string_eq.dec p.stem q.stem)
          (λ b.
            dite (option_eq.dec p.extension q.extension) (λ c. yes (same_path p q a b c))
              (λ n. no (λ h. n (ap (λ x. x.extension) h))))
          (λ n. no (λ h. n (ap (λ x. x.stem) h))))
      (λ n. no (λ h. n (ap (λ x. x.parent) h)))

instance unfoldable pub path_eq : Eq FilePath
unfolding path_dec same_path
path_eq = record { dec = path_dec }

abbrev pub with_extension : String → FilePath → FilePath
with_extension extension p = record p { extension = some extension }

-- `restricted`: whether its mode is 0600.
pub record File : Type 0 where
  pub content : Bytes
  pub restricted : Bool

-- What happens to an operation; one that writes may leave anything.
pub data Fault : Type 0 where
  works : Fault
  fails : Fault
  leaves : Bytes → Fault

-- The files, and what will happen to the next operations; those after them work.
pub record Disk : Type 0 where
  pub files : Dict FilePath File
  pub faults : List Fault

abbrev next_of : List Fault → Disk → Fault × Disk
next_of [] d = (works, d)
next_of (fault ∷ faults) d = (fault, record d { faults = faults })

abbrev pub next : Disk → Fault × Disk
next d = next_of d.faults d

abbrev does_work : Fault → Bool
does_work works = true
does_work _ = false

abbrev put : FilePath → File → Disk → Disk
put p file d = record d { files = Dict.insert p file d.files }

-- An error of the query is a `false`.
unfoldable pub exists : FilePath → Disk → Bool × Disk
exists p d =
    let (fault, d') = next d in
    (elim fault [ works ↦ Dict.contains_key p d'.files | _ ↦ false ], d')

abbrev data_of : Option File → Option Bytes
data_of none = none
data_of (some file) = some file.content

unfoldable pub read : FilePath → Disk → Option Bytes × Disk
read p d =
    let (fault, d') = next d in
    (elim fault [ works ↦ data_of (Dict.lookup p d'.files) | _ ↦ none ], d')

-- Directories are not modelled.
unfoldable pub create_dir_all : Disk → Bool × Disk
create_dir_all d = let (fault, d') = next d in (does_work fault, d')

-- A file that exists keeps its mode.
abbrev over : Bytes → Option File → File
over bytes none = record { content = bytes; restricted = false }
over bytes (some file) = record file { content = bytes }

write_with : Fault → FilePath → Bytes → Disk → Bool × Disk
write_with works p bytes d = (true, put p (over bytes (Dict.lookup p d.files)) d)
write_with fails p bytes d = (false, d)
write_with (leaves other) p bytes d = (false, put p (over other (Dict.lookup p d.files)) d)

unfoldable pub write : FilePath → Bytes → Disk → Bool × Disk
unfolding write_with
write p bytes d = let (fault, d') = next d in write_with fault p bytes d'

restrict : FilePath → Option File → Disk → Bool × Disk
restrict p none d = (false, d)
restrict p (some file) d = (true, put p (record file { restricted = true }) d)

unfoldable pub set_permissions : FilePath → Disk → Bool × Disk
unfolding restrict
set_permissions p d =
    let (fault, d') = next d in
    if does_work fault then restrict p (Dict.lookup p d'.files) d' else (false, d')

move : FilePath → FilePath → Option File → Disk → Bool × Disk
move p q none d = (false, d)
move p q (some file) d = (true, put q file (record d { files = Dict.erase p d.files }))

unfoldable pub rename : FilePath → FilePath → Disk → Bool × Disk
unfolding move
rename p q d =
    let (fault, d') = next d in
    if does_work fault then move p q (Dict.lookup p d'.files) d' else (false, d')
