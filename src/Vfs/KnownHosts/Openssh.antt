-- ===== src/Vfs/KnownHosts/Openssh.antt =====
-- crates/mk-vfs/src/known_hosts.rs: the import of an OpenSSH file, and the messages for the user.
use m_kestrel.Prelude.{
  ℕ, ltb, ◌+◌, ◌||◌, List, [], ◌∷◌, ◌++◌, Option, none, some, Text, codes, if◌then◌else◌, text_eq,
  text_option_eq, eqb, any, is_empty, ℤ, decimal, starts_with, strip_prefix, trim, trim_end_matches,
  lines, split_whitespace,
}
use m_kestrel.Vfs.HostPatterns.{Crypto}
use m_kestrel.Vfs.KnownHosts.{
  Saving, HostMarker, normal, cert_authority, revoked_key, KhEntry, KnownHostsStore, save, is_same,
  marked_entry,
}

-- The marker of a line and what stands behind it.
unfoldable pub split_marker : Text → HostMarker × Text
split_marker line = elim (strip_prefix line (codes "@revoked ")) [
  | some r ↦ (revoked_key, r)
  | none ↦ elim (strip_prefix line (codes "@cert-authority ")) [
    | some r ↦ (cert_authority, r)
    | none ↦ (normal, line)
  ]
]

module _ (crypto : Crypto) where
  unfoldable pub entry_of_words : HostMarker → ℤ → List Text → Option KhEntry
  unfolding marked_entry
  entry_of_words marker now (host ∷ key_type ∷ key_b64 ∷ more) = elim (crypto.decode key_b64) [
    | none ↦ none
    | some raw ↦ some (
        marked_entry marker (codes "imported-") now host key_type (
          codes "SHA256:"
          ++ trim_end_matches (λ c. eqb c b'=') (crypto.encode (crypto.sha256 raw))))
  ]
  entry_of_words marker now (host ∷ key_type ∷ []) = none
  entry_of_words marker now (host ∷ []) = none
  entry_of_words marker now [] = none

  unfoldable pub parse_openssh_line : ℤ → Text → Option KhEntry
  unfolding split_marker entry_of_words
  parse_openssh_line now line =
      let (marker, rest) = split_marker line in entry_of_words marker now (split_whitespace rest)

  -- The entry of a line, if it has one: blank lines and comments are passed over.
  unfoldable pub line_entry : ℤ → Text → Option KhEntry
  unfolding parse_openssh_line
  line_entry now raw =
      let line = trim raw in
      if is_empty line || starts_with line (codes "#") then none else parse_openssh_line now line

  -- The rest of the body of the loop.
  unfoldable pub import_line : ℤ → Text → List KhEntry × ℕ → List KhEntry × ℕ
  unfolding line_entry
  import_line now raw (es, added) = elim (line_entry now raw) [
    | none ↦ (es, added)
    | some e ↦
        if any (is_same e.host e.fingerprint) es then (es, added) else (es ++ e ∷ [], added + 1)
  ]

  unfoldable pub import_lines : ℤ → List Text → List KhEntry × ℕ → List KhEntry × ℕ
  unfolding import_line
  import_lines now [] state = state
  import_lines now (l ∷ ls) state = import_lines now ls (import_line now l state)

  unfoldable pub import_openssh : Saving → ℤ → Text → KnownHostsStore → ℕ × KnownHostsStore
  unfolding import_lines save
  import_openssh works now text s =
      let (entries, added) = import_lines now (lines text) (s.entries, 0) in
      let done : KnownHostsStore = record s { entries = entries } in
      (added, if ltb 0 added then save works done else done)

-- The texts by which the transport hands a decision to the user.
unfoldable pub encode_unknown : Text → ℕ → Text → Text → Text
encode_unknown host port key_type fingerprint =
    codes "HOSTKEY unknown host="
    ++ host
    ++ codes " port="
    ++ decimal port
    ++ codes " type="
    ++ key_type
    ++ codes " fp="
    ++ fingerprint

unfoldable pub encode_changed : Text → ℕ → Text → Text → Text → Text
encode_changed host port key_type old new =
    codes "HOSTKEY changed host="
    ++ host
    ++ codes " port="
    ++ decimal port
    ++ codes " type="
    ++ key_type
    ++ codes " old="
    ++ old
    ++ codes " new="
    ++ new

unfoldable pub encode_revoked : Text → ℕ → Text → Text
encode_revoked host port fingerprint =
    codes "HOSTKEY revoked host="
    ++ host
    ++ codes " port="
    ++ decimal port
    ++ codes " fp="
    ++ fingerprint
