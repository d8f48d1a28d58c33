-- ===== src/Samples/Browsing.antt =====
-- Listings and navigation on concrete hosts.
use mathlib.Core.List.{Perm}
use m_kestrel.Prelude.{
  pos, true, false, [], ◌∷◌, List, none, Text, codes, ◌≡◌, ◌≢◌, refl, ok, filter, text_beq, text_ne,
}
use m_kestrel.Core.Host.{Entry, EntryKind}
use m_kestrel.Core.Settings.{SortSpec, SortKey, SortDir}
use m_kestrel.Samples.{nas, edge}
use m_kestrel.Ui.Listing.{visible_listing, is_shown, without_dot_dirs}
use m_kestrel.Ui.Listing.Shown.{InOrder, visible_listing-InOrder}
use m_kestrel.Ui.Browser.{Browser, Place, loaded, commit_answered, back}
use m_kestrel.Ui.Browser.Stale.{commit_answered_other_host, back-commit_answered}

abbrev entry_called : Text → EntryKind → Entry
entry_called name kind = record {
  name = name;
  kind = kind;
  target = none;
  size_bytes = 1;
  mode = 0;
  uid = 0;
  gid = 0;
  owner_label = [];
  mtime = pos 0;
  is_hidden = false;
  inode = 0;
  items = none;
}

abbrev entries : List Entry
entries = entry_called (codes "b") EntryKind.file ∷ entry_called (codes "a") EntryKind.dir ∷ []

abbrev by_name : SortSpec
by_name = record { key = SortKey.name; dir = SortDir.asc }

visible_listing-InOrder_example :
    InOrder (λ t. t) by_name (visible_listing (λ t. t) false [] by_name true entries)
    × Perm
        (visible_listing (λ t. t) false [] by_name true entries)
        (filter (is_shown (λ t. t) false []) entries)
visible_listing-InOrder_example = visible_listing-InOrder (λ t. t) false [] by_name entries

abbrev browser : Browser
browser = record {
  hosts = nas ∷ edge ∷ [];
  selected_host_id = codes "edge";
  cwd = codes "/";
  history = [];
  listing = loaded [];
  listing_error = none;
  selection = [];
  pending_select = none;
  recents = [];
  bookmarks = [];
  place = Place.listing;
  hosts_sheet = false;
  vault = [];
  dialog = none;
  dialog_error = none;
  in_flight = [];
}

commit_answered_other_host_example :
    let after =
      commit_answered (pos 1) nas (codes "/films") (codes "nas") (codes "/") (ok entries) browser in
    (after.cwd ≡ codes "/films")
    × (after.listing ≡ loaded (without_dot_dirs entries))
    × (after.selected_host_id ≢ nas.id)
unfolding text_beq
commit_answered_other_host_example =
    commit_answered_other_host (pos 1) nas (codes "/films") (codes "nas") (codes "/") entries
      browser (text_ne _ _ refl)

back-commit_answered_example :
    let after = back (pos 2) (
      commit_answered
        (pos 1)
        nas
        (codes "/films")
        (codes "nas")
        (codes "/")
        (ok entries)
        browser) in
    (after.selected_host_id ≡ codes "nas") × (after.cwd ≡ codes "/") × (after.history ≡ [])
back-commit_answered_example =
    back-commit_answered (pos 1) (pos 2) nas (codes "/films") (codes "nas") (codes "/") entries
      browser
