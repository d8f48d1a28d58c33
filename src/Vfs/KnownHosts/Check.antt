-- ===== src/Vfs/KnownHosts/Check.antt =====
-- crates/mk-vfs/src/known_hosts.rs: the decision on a key that a server presents.
use m_kestrel.Prelude.{
  ℕ, Bool, false, not, ◌&&◌, ◌||◌, List, [], ◌∷◌, some, Text, codes, if◌then◌else◌, ◌==◌, text_eq,
  text_option_eq, any, filter, contains_text,
}
use m_kestrel.Vfs.HostPatterns.{Crypto, host_matches}
use m_kestrel.Vfs.KnownHosts.{
  KnownHostResult, trusted, new_host, changed, revoked, normal, cert_authority, revoked_key,
  is_marked, KhEntry, KnownHostsStore,
}

-- What the entries of the host say; `first()` is there when the list is not empty.
unfoldable pub compare_key : List KhEntry → Text → Text → KnownHostResult
compare_key [] fingerprint key_type = new_host fingerprint key_type
compare_key (e ∷ es) fingerprint key_type =
    if any (λ k. k.fingerprint == fingerprint) (e ∷ es)
    then trusted
    else changed e.fingerprint fingerprint key_type

module _ (crypto : Crypto) where
  -- The entries that `is_revoked`, `ca_trusts` and the filter of `check_fingerprint` look for.
  abbrev pub revokes : Text → ℕ → Text → KhEntry → Bool
  revokes host port fingerprint e =
      is_marked e.marker revoked_key
      && e.fingerprint == fingerprint
      && (e.host == codes "*" || host_matches crypto e.host host port)

  abbrev pub certifies : Text → ℕ → Text → KhEntry → Bool
  certifies host port fingerprint e =
      is_marked e.marker cert_authority
      && host_matches crypto e.host host port
      && (e.fingerprint == fingerprint || e.pending_fingerprint == some fingerprint)

  abbrev pub names : Text → ℕ → KhEntry → Bool
  names host port e = is_marked e.marker normal && host_matches crypto e.host host port

  unfoldable pub is_revoked : KnownHostsStore → Text → ℕ → Text → Bool
  is_revoked s host port fingerprint = any (revokes host port fingerprint) s.entries

  unfoldable pub ca_trusts : KnownHostsStore → Text → ℕ → Text → Text → Bool
  ca_trusts s host port key_type fingerprint =
      if not (contains_text key_type (codes "cert"))
      then false
      else any (certifies host port fingerprint) s.entries

  unfoldable pub check_fingerprint : KnownHostsStore → Text → ℕ → Text → Text → KnownHostResult
  unfolding is_revoked ca_trusts compare_key
  check_fingerprint s host port fingerprint key_type =
      if is_revoked s host port fingerprint
      then revoked fingerprint
      else if ca_trusts s host port key_type fingerprint
      then trusted
      else compare_key (filter (names host port) s.entries) fingerprint key_type
