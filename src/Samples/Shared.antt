-- ===== src/Samples/Shared.antt =====
-- The import of a configuration on concrete values.
use m_kestrel.Prelude.{text_beq, trim, pos, map, ◌≡◌, refl, length}
use m_kestrel.Core.Config.{same_endpoint, from_parts, merge_import}
use m_kestrel.Core.Config.Reimport.{mark_real, merge_import-from_parts}
use m_kestrel.Core.Recent.{normalize_path}
use m_kestrel.Samples.{live}

merge_import-from_parts_example :
    merge_import live (from_parts live.hosts live.settings live.known_hosts live.bookmarks (pos 3))
    ≡ (
      record live { hosts = map mark_real live.hosts },
      record {
        hosts_added = 0;
        hosts_updated = length live.hosts;
        known_hosts_added = 0;
        bookmarks_added = 0;
      },
    )
unfolding normalize_path text_beq same_endpoint trim
merge_import-from_parts_example =
    merge_import-from_parts live (pos 3) ((refl, tt), (tt, tt)) ((refl, refl), tt)
