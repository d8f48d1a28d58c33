-- ===== src/App/Disk.antt =====
-- The local disk as app/src/transfer.rs sees it: the content and the time of each path, and what the
-- operating system answers to the calls of one transfer.
use m_kestrel.Prelude.{
  ℕ, ℤ, Bool, List, [], ◌++◌, map, Option, none, some, Text, Table, lookup, erase, enter,
  if◌then◌else◌,
}
use m_kestrel.Core.Persistence.{Bytes}

pub record LocalFile : Type 0 where
  pub bytes : Bytes
  pub mtime : ℤ

abbrev pub Disk : Type 0
Disk = Table LocalFile

-- `none` is success; an error has its text. `create` is asked for the first and the second creation
-- of the partial, `directories` are those that exist, `write_all` at each position; a write that fails leaves a part of its bytes.
pub record Answers : Type 0 where
  pub directories : List Text
  pub create_dir_all : Option Text
  pub metadata : Option Text
  pub open_append : Option Text
  pub create : Bool → Option Text
  pub write_all : ℕ → Option (ℕ × Text)
  pub flush : Option Text
  pub sync_all : Option Text
  pub rename : Option Text
  pub removes : Bool
  pub clock : ℤ

-- What `Path::exists` finds.
abbrev pub existing : List Text → Disk → Table (Option LocalFile)
existing directories disk = map (λ e. (e.0, some e.1)) disk ++ map (λ d. (d, none)) directories

abbrev pub content : Option LocalFile → Bytes
content none = []
content (some f) = f.bytes

unfoldable pub truncate : ℤ → Text → Disk → Disk
truncate clock path disk = enter path (record { bytes = []; mtime = clock }) disk

unfoldable pub append : ℤ → Text → Bytes → Disk → Disk
append clock path bytes disk =
    enter path (record { bytes = content (lookup path disk) ++ bytes; mtime = clock }) disk

-- `remove_file`, whose failure is ignored.
unfoldable pub remove_file : Bool → Text → Disk → Disk
remove_file removes path disk = if removes then erase path disk else disk

-- `rename` replaces the target.
unfoldable pub rename_file : Text → Text → Disk → Disk
rename_file source target disk = elim (lookup source disk) [
  | none ↦ disk
  | some f ↦ enter target f (erase source disk)
]
