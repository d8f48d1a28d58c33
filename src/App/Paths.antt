-- ===== src/App/Paths.antt =====
-- app/src/transfer.rs: local and remote paths. `Path::file_stem`, `extension` and `parent` are
-- arguments; `Path::join` is written out.
pub mod Available
pub mod Escape
use m_kestrel.Prelude.{
  is_empty, ℕ, zero, suc, ◌+◌, Bool, true, false, not, ◌||◌, List, [], ◌∷◌, ◌++◌, reverse, Option,
  none, some, Text, codes, if◌then◌else◌, ◌==◌, text_eq, eqb, ltb, leb, starts_with, ends_with,
  strip_prefix, split_head, split_tail, trim_end_matches, decimal, lookup, Table, length,
}

-- `Path::join`: an absolute second part replaces the first, and behind an empty one nothing is added.
unfoldable pub join : Text → Text → Text
join dir path =
    if starts_with path (codes "/") || is_empty dir
    then path
    else (if ends_with dir (codes "/") then dir ++ path else dir ++ b'/' ∷ path)

-- `downloads` is the download directory of the device.
unfoldable pub resolve_local : Text → Text → Text
unfolding join
resolve_local downloads local_path = elim (strip_prefix local_path (codes "/Downloads/")) [
  | some rest ↦ join downloads rest
  | none ↦
      if local_path == codes "/Downloads" || local_path == codes "/Downloads/"
      then downloads
      else (if starts_with local_path (codes "/") then local_path else join downloads local_path)
]

pub record PathParts : Type 0 where
  pub parent : Text
  pub stem : Text
  pub ext : Text

-- `parent.join(format!("{stem}_{count}{ext}"))`.
unfoldable pub candidate : PathParts → ℕ → Text
unfolding join
candidate p count = join p.parent (p.stem ++ b'_' ∷ (decimal count ++ p.ext))

-- The loop of `find_available_name` among all that exists; `none` when the fuel runs out.
unfoldable pub find_free : {V : Type 0} → PathParts → Table V → ℕ → ℕ → Option Text
unfolding candidate
find_free p disk zero count = none
find_free p disk (suc fuel) count = elim (lookup (candidate p count) disk) [
  | none ↦ some (candidate p count)
  | some f ↦ find_free p disk fuel (suc count)
]

-- One round more than there are files and directories is enough.
unfoldable pub find_available_name : {V : Type 0} → PathParts → Table V → Option Text
unfolding find_free
find_available_name p disk = find_free p disk (suc (length disk)) 1
