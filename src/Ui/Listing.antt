-- ===== src/Ui/Listing.antt =====
-- crates/mk-ui/src/store.rs: which entries of a directory are shown, and in which order.
-- `str::to_lowercase` is an argument.
pub mod Order
pub mod Shown
use Prim.Native.Nat.{compare, Ordering}
use m_kestrel.Prelude.{
  ℕ, ◌+◌, ◌*◌, ◌%◌, ◌^◌, ℤ, Bool, true, false, not, ◌&&◌, ◌||◌, List, [], ◌∷◌, Option, none, some,
  Text, codes, if◌then◌else◌, ◌==◌, text_eq, any, filter, find, head?, is_empty, length,
  contains_text, starts_with, eqb, reverse_order, compare_text, compare_ℤ, at_most, sort_by, leb,
}
use m_kestrel.Core.Host.{Entry, EntryKind}
use m_kestrel.Core.Recent.{normalize_path}
use m_kestrel.Core.Settings.{SortKey, SortDir, SortSpec}
use m_kestrel.Ui.Enqueue.{is_dir}

-- The directories come first.
unfoldable pub compare_kinds : Bool → Bool → Ordering → Ordering
compare_kinds true false rest = Ordering.lt
compare_kinds false true rest = Ordering.gt
compare_kinds _ _ rest = rest

abbrev directed : SortDir → Ordering → Ordering
directed SortDir.asc o = o
directed SortDir.desc o = reverse_order o

-- `next_sort`.
unfoldable pub next_sort : SortSpec → SortSpec
next_sort spec = elim spec.key [
  | SortKey.name ↦ record { key = SortKey.size; dir = SortDir.desc }
  | SortKey.size ↦ record { key = SortKey.mtime; dir = SortDir.desc }
  | SortKey.mtime ↦ record { key = SortKey.mode; dir = SortDir.asc }
  | SortKey.mode ↦ record { key = SortKey.owner; dir = SortDir.asc }
  | SortKey.owner ↦ record { key = SortKey.name; dir = SortDir.asc }
]

-- The sort and whether it is applied.
unfoldable pub cycle_sort : Bool → SortSpec → Bool × SortSpec
unfolding next_sort
cycle_sort applied spec = if applied then (true, next_sort spec) else (true, spec)

module _ (to_lowercase : Text → Text) where
  unfoldable pub compare_key : SortKey → Entry → Entry → Ordering
  unfolding compare_text compare_ℤ
  compare_key SortKey.name a b = compare_text (to_lowercase a.name) (to_lowercase b.name)
  compare_key SortKey.size a b = compare a.size_bytes b.size_bytes
  compare_key SortKey.mtime a b = compare_ℤ a.mtime b.mtime
  compare_key SortKey.mode a b = compare a.mode b.mode
  compare_key SortKey.owner a b = compare_text a.owner_label b.owner_label

  unfoldable pub compare_entries : SortSpec → Entry → Entry → Ordering
  unfolding compare_kinds compare_key
  compare_entries spec a b =
      compare_kinds (is_dir a.kind) (is_dir b.kind) (directed spec.dir (compare_key spec.key a b))

  unfoldable pub sort_entries : SortSpec → Bool → List Entry → List Entry
  unfolding compare_entries sort_by
  sort_entries spec applied entries =
      if applied then sort_by (compare_entries spec) entries else entries

  -- Not hidden, and with the filter in its name; `wanted` is the filter in lower case.
  unfoldable pub is_shown : Bool → Text → Entry → Bool
  is_shown show_hidden wanted e =
      (show_hidden || not e.is_hidden)
      && (is_empty wanted || contains_text (to_lowercase e.name) wanted)

  unfoldable pub visible_listing : Bool → Text → SortSpec → Bool → List Entry → List Entry
  unfolding is_shown sort_entries
  visible_listing show_hidden typed spec applied listing =
      sort_entries spec applied (filter (is_shown show_hidden (to_lowercase typed)) listing)

-- The sum of the sizes, which wraps around in a release build.
unfoldable pub total_bytes : List Entry → ℕ
total_bytes [] = 0
total_bytes (e ∷ es) = (e.size_bytes + total_bytes es) % 2 ^ 64

unfoldable pub aggregate : List Entry → ℕ × ℕ
unfolding total_bytes
aggregate listing = (length listing, total_bytes listing)

unfoldable pub selected_bytes : List Text → List Entry → ℕ
unfolding total_bytes
selected_bytes selection listing =
    total_bytes (filter (λ e. any (λ n. n == e.name) selection) listing)

-- The selection is a sorted set, and its first name counts.
unfoldable pub selected_entry : List Text → List Entry → Option Entry
selected_entry selection listing = elim (head? selection) [
  | none ↦ none
  | some first ↦ find (λ e. e.name == first) listing
]

unfoldable pub without_dot_dirs : List Entry → List Entry
without_dot_dirs = filter (λ e. not (e.name == codes ".") && not (e.name == codes ".."))
