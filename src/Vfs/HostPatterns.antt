-- ===== src/Vfs/HostPatterns.antt =====
-- crates/mk-vfs/src/known_hosts.rs: host patterns. Base64 and the hashes are the functions of other
-- crates, an argument here.
pub mod Matching
use m_kestrel.Prelude.{
  ℕ, Bool, true, false, not, ◌&&◌, ◌||◌, [], ◌∷◌, ◌++◌, Option, none, some, Text, codes,
  if◌then◌else◌, ◌==◌, text_eq, eqb, ltb, any, length, decimal, starts_with, strip_prefix,
  ends_with, split_once, split, trim,
}
use m_kestrel.Core.Persistence.{Bytes}

pub record Crypto : Type 0 where
  pub encode : Bytes → Text
  pub decode : Text → Option Bytes
  pub hmac_sha1 : Bytes → Text → Bytes
  pub sha256 : Bytes → Bytes

unfoldable pub host_pattern : Text → ℕ → Text
host_pattern host port =
    if not (eqb port 22) then b'[' ∷ host ++ codes "]:" ++ decimal port else host

unfoldable pub host_is_hashed : Text → Bool
host_is_hashed host = starts_with host (codes "|1|")

-- Byte lengths are compared in the program; with the suffix at the end of both texts the numbers of
-- characters compare alike.
unfoldable pub wildcard_match : Text → Text → Bool
wildcard_match pattern host = elim (strip_prefix pattern (codes "*.")) [
  | none ↦ pattern == host
  | some suffix ↦ ends_with host suffix && ltb (length suffix) (length host)
]

unfoldable pub part_matches : Text → Text → Text → Bool
unfolding wildcard_match
part_matches want host p = p == want || p == host || wildcard_match p host || wildcard_match p want

module _ (crypto : Crypto) where
  unfoldable pub hash_host : Text → Bytes → Text
  hash_host host salt =
      codes "|1|" ++ crypto.encode salt ++ b'|' ∷ crypto.encode (crypto.hmac_sha1 salt host)

  unfoldable pub hashed_matches : Text → Text → ℕ → Bool
  unfolding host_pattern
  hashed_matches pattern host port =
      let rest : Text = elim (strip_prefix pattern (codes "|1|")) [ none ↦ pattern | some r ↦ r ] in
      elim (split_once b'|' rest) [
        | none ↦ false
        | some (salt_b64, hash_b64) ↦ elim (crypto.decode salt_b64) [
          | none ↦ false
          | some salt ↦ elim (crypto.decode hash_b64) [
            | none ↦ false
            | some expected ↦
                crypto.hmac_sha1 salt (host_pattern host port) == expected
                || crypto.hmac_sha1 salt host == expected
          ]
        ]
      ]

  unfoldable pub host_matches : Text → Text → ℕ → Bool
  unfolding host_is_hashed hashed_matches host_pattern part_matches
  host_matches pattern host port =
      let want = host_pattern host port in
      if host_is_hashed pattern
      then hashed_matches pattern host port
      else if pattern == want || pattern == host
      then true
      else any (λ p. part_matches want host (trim p)) (split b',' pattern)
