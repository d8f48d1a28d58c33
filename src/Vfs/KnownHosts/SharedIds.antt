-- ===== src/Vfs/KnownHosts/SharedIds.antt =====
-- crates/mk-vfs/src/known_hosts.rs: the ids that an import gives.
use m_kestrel.Prelude.{ℤ, ◌++◌, Text, codes, ◌≡◌, decimal_ℤ}
use m_kestrel.Vfs.KnownHosts.{KhEntry}

-- The id of every entry that is read in that second.
abbrev pub import_id : ℤ → Text
import_id now = codes "imported-" ++ decimal_ℤ now

abbrev HasId : ℤ → KhEntry → Type 0
HasId now e = e.id ≡ import_id now
