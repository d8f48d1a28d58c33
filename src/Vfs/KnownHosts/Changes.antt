-- ===== src/Vfs/KnownHosts/Changes.antt =====
-- crates/mk-vfs/src/known_hosts.rs: the operations that change the entries one by one.
use m_kestrel.Prelude.{
  ℕ, Bool, false, not, ◌&&◌, ◌||◌, List, [], ◌∷◌, ◌++◌, map, Option, none, some, Text, codes,
  if◌then◌else◌, ◌==◌, text_eq, text_option_eq, any, filter, update_first, ℤ, decimal_ℤ,
}
use m_kestrel.Vfs.HostPatterns.{Crypto, host_pattern}
use m_kestrel.Vfs.KnownHosts.{
  Saving, normal, cert_authority, revoked_key, is_marked, KhEntry, KnownHostsStore, save,
  marked_entry,
}
use m_kestrel.Vfs.KnownHosts.Check.{names}

-- The position of `iter_mut().find`: the first match is changed, or the entry is pushed.
unfoldable pub change_or_push :
    (KhEntry → Bool) → (KhEntry → KhEntry) → KhEntry → List KhEntry → List KhEntry
change_or_push p f new es = if any p es then update_first p f es else es ++ new ∷ []

-- The entry of exactly that pattern, the acceptance of a key in it, and a new entry for a key.
abbrev pub holds : Text → KhEntry → Bool
holds store_host e = is_marked e.marker normal && e.host == store_host

abbrev pub accept_key : ℤ → Text → Text → KhEntry → KhEntry
accept_key now key_type fingerprint e = record e {
  fingerprint = fingerprint;
  key_type = key_type;
  pending_fingerprint = none;
  changed_since = none;
  verified_at_secs = now;
}

abbrev pub key_entry : ℤ → Text → Text → Text → KhEntry
key_entry now store_host key_type fingerprint = record {
  host = store_host;
  key_type = key_type;
  fingerprint = fingerprint;
  marker = normal;
  hashed = false;
  verified_at_secs = now;
  changed_since = none;
  pending_fingerprint = none;
  id = codes "known-" ++ decimal_ℤ now;
}

unfoldable pub add : Saving → ℤ → Text → ℕ → Text → Text → KnownHostsStore → KnownHostsStore
unfolding change_or_push save
add works now host port key_type fingerprint s =
    let store_host = host_pattern host port in
    save works (record s {
      entries =
          change_or_push (holds store_host) (accept_key now key_type fingerprint)
            (key_entry now store_host key_type fingerprint) s.entries;
    })

-- A changed key is noted in an entry, or in a new one that vouches for no key.
abbrev pub note_key : Text → Text → KhEntry → KhEntry
note_key today new_fingerprint e = record e {
  pending_fingerprint = some new_fingerprint;
  changed_since = some today;
}

abbrev pub noted_entry : ℤ → Text → Text → Text → KhEntry
noted_entry now today store_host new_fingerprint =
    note_key today new_fingerprint (key_entry now store_host [] [])

unfoldable pub note_changed :
    Crypto → Saving → ℤ → Text → Text → ℕ → Text → KnownHostsStore → KnownHostsStore
unfolding change_or_push save
note_changed crypto works now today host port new_fingerprint s = save works (record s {
  entries =
      change_or_push (names crypto host port) (note_key today new_fingerprint)
        (noted_entry now today (host_pattern host port) new_fingerprint) s.entries;
})

-- The entries that a row of the settings names, by its id or its host.
abbrev pub is_named : Text → KhEntry → Bool
is_named id_or_host e = e.id == id_or_host || e.host == id_or_host

unfoldable pub take_pending : Text → Option Text → Text
take_pending fingerprint none = fingerprint
take_pending fingerprint (some pending) = pending

unfoldable pub accept_pending : ℤ → Text → KhEntry → KhEntry
unfolding take_pending
accept_pending now id_or_host e =
    if is_named id_or_host e
    then record e {
      fingerprint = take_pending e.fingerprint e.pending_fingerprint;
      pending_fingerprint = none;
      changed_since = none;
      verified_at_secs = now;
    }
    else e

unfoldable pub review : Saving → ℤ → Text → KnownHostsStore → Bool × KnownHostsStore
unfolding accept_pending save
review works now id_or_host s =
    let found = any (is_named id_or_host) s.entries in
    let done : KnownHostsStore = record s {
      entries = map (accept_pending now id_or_host) s.entries;
    } in
    (found, if found then save works done else done)

unfoldable pub remove : Saving → Text → KnownHostsStore → KnownHostsStore
unfolding save
remove works id_or_host s =
    save works (record s { entries = filter (λ e. not (is_named id_or_host e)) s.entries })

unfoldable pub add_revoked : Saving → ℤ → Text → Text → KnownHostsStore → KnownHostsStore
unfolding marked_entry save
add_revoked works now host fingerprint s = save works (record s {
  entries = s.entries ++ marked_entry revoked_key (codes "revoked-") now host [] fingerprint ∷ [];
})

unfoldable pub add_cert_authority :
    Saving → ℤ → Text → Text → Text → KnownHostsStore → KnownHostsStore
unfolding marked_entry save
add_cert_authority works now host fingerprint key_type s = save works (record s {
  entries =
      s.entries ++ marked_entry cert_authority (codes "ca-") now host key_type fingerprint ∷ [];
})
