-- ===== src/Samples/Recents.antt =====
-- Recents and bookmarks on concrete values.
use m_kestrel.Prelude.{pos, [], ◌∷◌, Text, codes, refl, arith}
use m_kestrel.Core.Recent.{RecentPath, touch}
use m_kestrel.Core.Recent.Touch.{IsRecents, touch-IsRecents}

abbrev visited : Text → RecentPath
visited path = record { host_id = codes "nas"; path = path; visited_at = pos 1 }

touch-IsRecents_example :
    IsRecents (touch (visited (codes "/tv") ∷ []) (codes "nas") (codes "/tv/") (pos 9))
touch-IsRecents_example =
    touch-IsRecents (visited (codes "/tv") ∷ []) (codes "nas") (codes "/tv/") (pos 9)
      (record { bounded = omega arith; distinct = (tt, tt); named = ((refl, refl), tt) })
