-- ===== src/Core/Recent.antt =====
-- crates/mk-core/src/recent.rs: recently visited folders, and the normal form of remote paths.
pub mod Paths
pub mod Touch
use m_kestrel.Prelude.{
  ℕ, ℤ, Bool, ◌&&◌, ◌||◌, not, List, [], ◌∷◌, Text, codes, if◌then◌else◌, eqb, ◌==◌, text_eq,
  filter, take, is_empty, trim, trim_end_matches, last_part,
}

-- `RECENT_LIMIT`.
abbrev pub recent_limit : ℕ
recent_limit = 30

pub record RecentPath : Type 0 where
  pub host_id : Text
  pub path : Text
  pub visited_at : ℤ

abbrev pub is_slash : ℕ → Bool
is_slash c = eqb c b'/'

unfoldable pub normalize_path : Text → Text
normalize_path path =
    let t = trim path in
    if is_empty t then [] else if t == codes "/" then codes "/" else trim_end_matches is_slash t

unfoldable pub folder_name : Text → Text
folder_name path =
    let t = trim_end_matches is_slash path in if is_empty t then codes "/" else last_part b'/' t

abbrev pub same_place : Text → Text → RecentPath → Bool
same_place host_id path r = r.host_id == host_id && r.path == path

unfoldable pub touch : List RecentPath → Text → Text → ℤ → List RecentPath
touch list host_id path now =
    let host = trim host_id in
    let place = normalize_path path in
    if is_empty host || is_empty place
    then list
    else take recent_limit (
        record { host_id = host; path = place; visited_at = now }
        ∷ filter (λ r. not (same_place host place r)) list)
