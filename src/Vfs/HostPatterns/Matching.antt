-- ===== src/Vfs/HostPatterns/Matching.antt =====
-- crates/mk-vfs/src/known_hosts.rs: which hosts a pattern matches.
use m_kestrel.Prelude.{
  ℕ, ◌<◌, true, false, ◌||◌, ◌∷◌, ◌++◌, some, Text, codes, ◌≡◌, ◌↔◌, ◌⊎◌, refl, arith, inl, inr,
  Bool-cases, ◌==◌, text_eq, text_beq_refl, text_beq_iff, eqb, length, length-append, Lacks,
  strip_prefix-append, starts_with, starts_with-append, ends_with-append, split_once-Lacks,
}
use m_kestrel.Core.Persistence.{Bytes}
use m_kestrel.Vfs.HostPatterns.{
  Crypto, host_pattern, host_is_hashed, wildcard_match, hash_host, hashed_matches, host_matches,
}

pattern_not_hashed :
    (host : Text) (port : ℕ)
    → host_is_hashed host ≡ false
    → host_is_hashed (host_pattern host port) ≡ false
unfolding host_is_hashed host_pattern starts_with
pattern_not_hashed host port h = elim (Bool-cases (eqb port 22)) [
  | inl e ↦ rw (e, host_pattern) h
  | inr e ↦ rw (e, host_pattern) refl
]

-- A host and port match the pattern that is stored for them.
pub host_matches-pattern :
    (crypto : Crypto) (host : Text) (port : ℕ)
    → host_is_hashed host ≡ false
    → host_matches crypto (host_pattern host port) host port ≡ true
unfolding host_matches
host_matches-pattern crypto host port h =
    rw (pattern_not_hashed host port h, host_matches, text_beq_refl (host_pattern host port)) refl

-- What Base64 promises: a text decodes to the bytes that it was made from, and has no `|`.
pub record IsBase64 (crypto : Crypto) : Type 0 where
  pub decode_encode : (b : Bytes) → crypto.decode (crypto.encode b) ≡ some b
  pub no_bar : (b : Bytes) → Lacks b'|' (crypto.encode b)

either_equal : (a b c : Bytes) → ((a == c || b == c) ≡ true) ↔ ((a ≡ c) ⊎ (b ≡ c))
either_equal a b c = ground (arith, text_beq_iff a c, text_beq_iff b c)

module _ (crypto : Crypto) (base64 : IsBase64 crypto) where
  hashed_matches-hash :
      (salt : Bytes) (name host : Text) (port : ℕ)
      → hashed_matches crypto (hash_host crypto name salt) host port ≡ (
          crypto.hmac_sha1 salt (host_pattern host port) == crypto.hmac_sha1 salt name
          || crypto.hmac_sha1 salt host == crypto.hmac_sha1 salt name)
  unfolding hashed_matches hash_host
  hashed_matches-hash salt name host port =
      let hash = crypto.hmac_sha1 salt name in
      rw (
        strip_prefix-append (codes "|1|") (crypto.encode salt ++ b'|' ∷ crypto.encode hash),
        hashed_matches,
        split_once-Lacks b'|' (crypto.encode salt) (crypto.encode hash) (base64.no_bar salt),
        base64.decode_encode salt,
        base64.decode_encode hash,
      )

  hash_host_hashed :
      (name : Text) (salt : Bytes) → host_is_hashed (hash_host crypto name salt) ≡ true
  unfolding host_is_hashed hash_host
  hash_host_hashed name salt =
      starts_with-append (codes "|1|")
        (crypto.encode salt ++ b'|' ∷ crypto.encode (crypto.hmac_sha1 salt name))

  -- A hashed entry matches exactly the hosts whose name, or name with the port, has the hash of the
  -- name that was hashed.
  pub host_matches-hash :
      (salt : Bytes) (name host : Text) (port : ℕ)
      → (host_matches crypto (hash_host crypto name salt) host port ≡ true) ↔ (
          (crypto.hmac_sha1 salt (host_pattern host port) ≡ crypto.hmac_sha1 salt name)
          ⊎ (crypto.hmac_sha1 salt host ≡ crypto.hmac_sha1 salt name))
  unfolding host_matches
  host_matches-hash salt name host port =
      let hash = crypto.hmac_sha1 salt name in
      rw (hash_host_hashed name salt, host_matches, hashed_matches-hash salt name host port)
        (either_equal (crypto.hmac_sha1 salt (host_pattern host port)) (crypto.hmac_sha1 salt host)
          hash)

-- A `*.` pattern does not ask for the dot: a host that has the rest of the pattern at its end, with
-- anything in front, matches.
pub wildcard_match_no_dot :
    (domain label : Text)
    → 0 < length label
    → wildcard_match (codes "*." ++ domain) (label ++ domain) ≡ true
unfolding wildcard_match
wildcard_match_no_dot domain label h =
    rw (strip_prefix-append (codes "*.") domain, wildcard_match, ends_with-append label domain)
      (ground (arith, length-append label domain))
