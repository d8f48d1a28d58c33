-- ===== src/App/Verify.antt =====
-- app/src/transfer.rs: the check of a finished transfer. SHA-256, the digest command of the server and
-- what is read back are arguments; `none` is the result when the fuel of the read loop runs out.
pub mod Sound
use m_kestrel.Prelude.{
  ℕ, zero, suc, ◌+◌, ◌-◌, ◌*◌, ◌≤◌, max, Bool, true, false, not, ◌&&◌, ◌||◌, List, [], ◌∷◌, ◌++◌,
  map, Option, none, some, Text, codes, if◌then◌else◌, ◌==◌, text_eq, leb, eqb, length, lookup,
  Result, ok, err, decimal,
}
use m_kestrel.Core.Job.{VerifyMethod, sha256_exec, sha256_readback, size_checked, as_str}
use m_kestrel.Core.Persistence.{Bytes}
use m_kestrel.Media.Stream.{ReadStream}
use m_kestrel.Vfs.Error.{VfsError, fmt}
use m_kestrel.App.Disk.{Disk, content}

-- `sha256` is the digest in lower-case hexadecimal; `unreadable` is the error of reading the local file.
pub record Checks (R : Type 0) : Type 0 where
  pub sha256 : Bytes → Text
  pub unreadable : Option Text
  pub remote_digest : Result (Option Text) VfsError
  pub open_read : Result R VfsError
  pub stream : ReadStream R

-- `to_ascii_lowercase`.
unfoldable pub to_ascii_lowercase : Text → Text
to_ascii_lowercase = map (λ c. if leb b'A' c && leb c b'Z' then c + 32 else c)

module _ {R : Type 0} (checks : Checks R) where
  unfoldable pub read_back : ℕ → R → Bytes → Option (Result Bytes Text)
  read_back zero r got = none
  read_back (suc fuel) r got = elim (checks.stream.read r (64 * 1024)) [
    | err e ↦ some (err (fmt e))
    | ok ([], next) ↦ some (ok got)
    | ok (b ∷ bytes, next) ↦ read_back fuel next (got ++ b ∷ bytes)
  ]

  unfoldable pub hashed : Option (Result Bytes Text) → Option (Result Text Text)
  hashed none = none
  hashed (some (err e)) = some (err e)
  hashed (some (ok bytes)) = some (ok (checks.sha256 bytes))

  unfoldable pub sha256_remote_readback : ℕ → Text → Option (Result Text Text)
  unfolding read_back hashed
  sha256_remote_readback fuel path = elim checks.open_read [
    | err e ↦ some (err (codes "open_read " ++ path ++ codes ": " ++ fmt e))
    | ok r ↦ hashed (read_back fuel r [])
  ]

  -- `local_hash == remote_hash`, for one of the two ways to get the remote hash.
  unfoldable pub compare_hashes : VerifyMethod → Text → Text → Result (Bool × VerifyMethod) Text
  compare_hashes method local_hash remote_hash =
      if local_hash == remote_hash
      then ok (true, method)
      else err (
          codes "hash mismatch ("
          ++ as_str method
          ++ codes ") local "
          ++ local_hash
          ++ codes " != remote "
          ++ remote_hash)

  unfoldable pub compare_sizes : ℕ → ℕ → Result (Bool × VerifyMethod) Text
  compare_sizes local_len expected =
      if eqb local_len expected
      then ok (false, size_checked)
      else err (
          codes "size-check failed: local "
          ++ decimal local_len
          ++ codes " != expected "
          ++ decimal expected)

  unfoldable pub judge :
      Text → ℕ → ℕ → Option (Result Text Text) → Option (Result (Bool × VerifyMethod) Text)
  unfolding compare_hashes compare_sizes
  judge local_hash local_len expected none = none
  judge local_hash local_len expected (some (ok remote_hash)) =
      some (compare_hashes sha256_readback local_hash remote_hash)
  judge local_hash local_len expected (some (err e)) = some (compare_sizes local_len expected)

  -- The check after the server's own digest was not to be had.
  unfoldable pub verify_by_reading :
      ℕ → Text → Text → ℕ → ℕ → Option (Result (Bool × VerifyMethod) Text)
  unfolding sha256_remote_readback judge
  verify_by_reading fuel path local_hash local_len expected =
      judge local_hash local_len expected (sha256_remote_readback fuel path)

  unfoldable pub verify_pair :
      ℕ → Text → Text → ℕ → Disk → Option (Result (Bool × VerifyMethod) Text)
  unfolding compare_hashes verify_by_reading to_ascii_lowercase
  verify_pair fuel remote_path local_path expected disk =
      let bytes = content (lookup local_path disk) in
      elim checks.unreadable [
        | some e ↦ some (err e)
        | none ↦ elim checks.remote_digest [
          | ok (some remote_hash) ↦
              some
                (compare_hashes sha256_exec (checks.sha256 bytes) (to_ascii_lowercase remote_hash))
          | ok none ↦
              verify_by_reading fuel remote_path (checks.sha256 bytes) (length bytes) expected
          | err e ↦ verify_by_reading fuel remote_path (checks.sha256 bytes) (length bytes) expected
        ]
      ]
