-- ===== src/Samples/Keys.antt =====
-- Host keys on concrete stores.
use m_kestrel.Prelude.{
  ◌+◌, ◌-◌, pos, true, false, [], ◌∷◌, ◌++◌, map, none, some, codes, ◌≡◌, ◌↔◌, ◌⊎◌, refl, ap₂,
  arith, any, if◌then◌else◌, Lacks, starts_with,
}
use m_kestrel.Core.Persistence.{Bytes}
use m_kestrel.Vfs.HostPatterns.{Crypto, host_is_hashed, wildcard_match}
use m_kestrel.Vfs.HostPatterns.Matching.{IsBase64, wildcard_match_no_dot}
use m_kestrel.Vfs.KnownHosts.{saved, KnownHostsStore, KhEntry, normal, trusted, revoked}
use m_kestrel.Vfs.KnownHosts.Accept.{check_fingerprint-add, check_fingerprint-note_changed}
use m_kestrel.Vfs.KnownHosts.Changes.{add, note_changed}
use m_kestrel.Vfs.KnownHosts.Check.{ca_trusts, check_fingerprint, is_revoked}
use m_kestrel.Vfs.KnownHosts.Trust.{check_fingerprint-trusted, vouches}

-- An encoding by shifted characters, and hashes that hide nothing.
abbrev shift : Crypto
shift = record {
  encode = map (λ b. b + 200);
  decode = λ t. some (map (λ c. c - 200) t);
  hmac_sha1 = λ salt name. salt ++ name;
  sha256 = λ b. b;
}

unshift : (b : Bytes) → map (λ c. c - 200) (map (λ c. c + 200) b) ≡ b
unshift [] = refl
unshift (c ∷ b) = ap₂ (λ x t. x ∷ t) (omega arith) (unshift b)

shift_no_bar : (b : Bytes) → Lacks b'|' (map (λ c. c + 200) b)
shift_no_bar [] = tt
shift_no_bar (c ∷ b) = (λ e. omega arith, shift_no_bar b)

some_unshift : (b : Bytes) → shift.decode (shift.encode b) ≡ some b
some_unshift b = rw (unshift b)

shift-IsBase64 : IsBase64 shift
shift-IsBase64 = record { decode_encode = some_unshift; no_bar = shift_no_bar }

abbrev waiting : KhEntry
waiting = record {
  host = codes "nas";
  key_type = [];
  fingerprint = codes "old";
  marker = normal;
  hashed = false;
  verified_at_secs = pos 1;
  changed_since = some (codes "04 Aug");
  pending_fingerprint = some (codes "new");
  id = codes "known-1";
}

abbrev store : KnownHostsStore
store = record { path = codes "k.json"; entries = waiting ∷ []; file = none }

-- `evilexample.com` is no host below `example.com`.
wildcard_match_no_dot_example :
    wildcard_match (codes "*." ++ codes "example.com") (codes "evil" ++ codes "example.com") ≡ true
wildcard_match_no_dot_example =
    wildcard_match_no_dot (codes "example.com") (codes "evil") (omega arith)

check_fingerprint-trusted_example :
    (check_fingerprint shift store (codes "nas") 22 (codes "old") (codes "ssh-rsa") ≡ trusted) ↔ (
      (is_revoked shift store (codes "nas") 22 (codes "old") ≡ false)
      × ((ca_trusts shift store (codes "nas") 22 (codes "ssh-rsa") (codes "old") ≡ true)
          ⊎ (any (vouches shift (codes "nas") 22 (codes "old")) store.entries ≡ true)))
check_fingerprint-trusted_example =
    check_fingerprint-trusted shift store (codes "nas") 22 (codes "old") (codes "ssh-rsa")

check_fingerprint-add_example :
    check_fingerprint shift
      (add saved (pos 9) (codes "edge") 2222 (codes "ssh-rsa") (codes "k") store)
      (codes "edge")
      2222
      (codes "k")
      (codes "ssh-rsa")
    ≡ (if is_revoked shift store (codes "edge") 2222 (codes "k")
        then revoked (codes "k")
        else trusted)
unfolding host_is_hashed starts_with
check_fingerprint-add_example =
    check_fingerprint-add shift saved (pos 9) store (codes "edge") 2222 (codes "ssh-rsa")
      (codes "k") (codes "ssh-rsa") refl

check_fingerprint-note_changed_example :
    (check_fingerprint shift
        (note_changed shift saved (pos 9) (codes "05 Aug") (codes "nas") 22 (codes "evil") store)
        (codes "nas")
        22
        (codes "evil")
        (codes "ssh-rsa")
      ≡ trusted)
    ↔ (check_fingerprint shift store (codes "nas") 22 (codes "evil") (codes "ssh-rsa") ≡ trusted)
check_fingerprint-note_changed_example =
    check_fingerprint-note_changed shift saved (pos 9) store (codes "05 Aug") (codes "nas") 22
      (codes "evil") (codes "nas") 22 (codes "evil") (codes "ssh-rsa") (λ e. cc)
