-- ===== src/Core/Bookmark.antt =====
-- crates/mk-core/src/bookmark.rs: pinned files and folders.
pub mod Changes
use m_kestrel.Prelude.{
  ℤ, Bool, true, false, ◌&&◌, ◌||◌, not, List, [], ◌∷◌, Text, if◌then◌else◌, ◌==◌, text_eq, any,
  filter, is_empty, length, eqb, trim,
}
use m_kestrel.Core.Host.{EntryKind}
use m_kestrel.Core.Recent.{normalize_path}

pub record Bookmark : Type 0 where
  pub host_id : Text
  pub path : Text
  pub kind : EntryKind
  pub added_at : ℤ

abbrev pub is_at : Text → Text → Bookmark → Bool
is_at host_id path b = b.host_id == host_id && b.path == path

unfoldable pub contains : List Bookmark → Text → Text → Bool
contains list host_id path = any (is_at host_id (normalize_path path)) list

-- The new list, and whether a bookmark was added.
unfoldable pub add : List Bookmark → Text → Text → EntryKind → ℤ → List Bookmark × Bool
add list host_id path kind now =
    let host = trim host_id in
    let place = normalize_path path in
    if is_empty host || is_empty place
    then (list, false)
    else if contains list host place
    then (list, false)
    else (record { host_id = host; path = place; kind = kind; added_at = now } ∷ list, true)

-- The new list, and whether something was dropped.
unfoldable pub remove : List Bookmark → Text → Text → List Bookmark × Bool
remove list host_id path =
    let place = normalize_path path in
    let left = filter (λ b. not (is_at host_id place b)) list in
    (left, not (eqb (length left) (length list)))
