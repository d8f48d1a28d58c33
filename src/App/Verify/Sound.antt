-- ===== src/App/Verify/Sound.antt =====
-- app/src/transfer.rs: what a check that succeeds has found.
use m_kestrel.Prelude.{
  subst, ℕ, zero, suc, ◌*◌, ◌<◌, Bool, true, false, [], ◌∷◌, ◌++◌, append_assoc, append-nil, Option,
  none, some, Text, ◌==◌, text_eq, text_beq_iff, eqb, eqb_iff, length, length-append, lookup,
  Result, Result-cases, ok, err, ◌≡◌, ◌⊎◌, refl, sym, ap, ◌∙◌, inl, inr, Bool-cases, Option-cases,
  arith,
}
use m_kestrel.Core.Job.{VerifyMethod, sha256_exec, sha256_readback, size_checked}
use m_kestrel.Core.Persistence.{Bytes}
use m_kestrel.Media.Stream.Delivery.{IsReader, read_cases}
use m_kestrel.Vfs.Error.{VfsError}
use m_kestrel.App.Disk.{Disk, content}
use m_kestrel.App.Verify.{
  Checks, read_back, sha256_remote_readback, compare_hashes, compare_sizes, verify_by_reading,
  judge, hashed, verify_pair, to_ascii_lowercase,
}

module _ {R : Type 0} (checks : Checks R) (rest : R → Bytes) (whole : Bytes) where
  -- All bytes that are left, or an error.
  abbrev ReadsAll : Bytes → Option (Result Bytes Text) → Type 0
  ReadsAll bytes none = ⊥
  ReadsAll bytes (some (err e)) = Unit {0}
  ReadsAll bytes (some (ok got)) = got ≡ bytes

  read_back-All :
      IsReader checks.stream rest
      → (fuel : ℕ) (r : R) (got : Bytes) → length (rest r) < fuel
      → ReadsAll (got ++ rest r) (read_back checks fuel r got)
  unfolding read_back
  read_back-All reader zero r got lt = absurd (omega arith)
  read_back-All reader (suc fuel) r got lt = elim (read_cases (checks.stream.read r (64 * 1024))) [
    | inl (t, g) ↦ rw (read_back, g) tt
    | inr (inl (next, g)) ↦
        rw (read_back, g)
          (sym (
            ap (λ x. got ++ x) (reader.read_end r (64 * 1024) next (omega arith) g)
            ∙ append-nil got))
    | inr (inr (b, bytes, next, g)) ↦
        let more = reader.read_next r (64 * 1024) (b ∷ bytes) next g in
        rw (read_back, g)
          (subst (λ x. ReadsAll x (read_back checks fuel next (got ++ b ∷ bytes)))
            (append_assoc got (b ∷ bytes) (rest next) ∙ ap (λ x. got ++ x) (sym more))
            (read_back-All reader fuel next (got ++ b ∷ bytes)
              (omega (arith, ap length more, length-append (b ∷ bytes) (rest next)))))
  ]

  -- What the verdict rests on.
  abbrev pub Verdict : Bytes → ℕ → Option (Result (Bool × VerifyMethod) Text) → Type 0
  Verdict bytes expected none = ⊥
  Verdict bytes expected (some (err e)) = Unit {0}
  Verdict bytes expected (some (ok (true, method))) =
      ((digest : Text) × (checks.remote_digest ≡ ok (some digest))
        × (to_ascii_lowercase digest ≡ checks.sha256 bytes)
        × (method ≡ sha256_exec))
      ⊎ ((checks.sha256 whole ≡ checks.sha256 bytes) × (method ≡ sha256_readback))
  Verdict bytes expected (some (ok (false, method))) =
      (length bytes ≡ expected) × (method ≡ size_checked)

  sizes-Verdict :
      (bytes : Bytes) (expected : ℕ)
      → Verdict bytes expected (some (compare_sizes checks (length bytes) expected))
  unfolding compare_sizes
  sizes-Verdict bytes expected = elim (Bool-cases (eqb (length bytes) expected)) [
    | inl e ↦ rw (e, compare_sizes) ((eqb_iff (length bytes) expected).0 e, refl)
    | inr e ↦ rw (e, compare_sizes) tt
  ]

  read-Verdict :
      (bytes : Bytes) (expected : ℕ) (remote_hash : Text)
      → checks.sha256 whole ≡ remote_hash
      → Verdict bytes expected
          (some (compare_hashes checks sha256_readback (checks.sha256 bytes) remote_hash))
  unfolding compare_hashes
  read-Verdict bytes expected remote_hash e =
      elim (Bool-cases (checks.sha256 bytes == remote_hash)) [
        | inl s ↦
            rw (s, compare_hashes)
              (inr (e ∙ sym ((text_beq_iff (checks.sha256 bytes) remote_hash).0 s), refl))
        | inr s ↦ rw (s, compare_hashes) tt
      ]

  exec-Verdict :
      (bytes : Bytes) (expected : ℕ) (digest : Text)
      → checks.remote_digest ≡ ok (some digest)
      → Verdict bytes expected (
          some
            (compare_hashes checks sha256_exec (checks.sha256 bytes) (to_ascii_lowercase digest)))
  unfolding compare_hashes
  exec-Verdict bytes expected digest e =
      elim (Bool-cases (checks.sha256 bytes == to_ascii_lowercase digest)) [
        | inl s ↦
            rw (s, compare_hashes)
              (inl (
                digest,
                e,
                sym ((text_beq_iff (checks.sha256 bytes) (to_ascii_lowercase digest)).0 s),
                refl,
              ))
        | inr s ↦ rw (s, compare_hashes) tt
      ]

  -- The reader of the second reading, if there is one, stands at the start of the remote file.
  abbrev pub IsFresh : Type 0
  IsFresh = (r : R) → checks.open_read ≡ ok r → rest r ≡ whole

  read_back-Verdict :
      (bytes : Bytes) (expected : ℕ) (got : Option (Result Bytes Text))
      → ReadsAll whole got
      → Verdict bytes expected
          (judge checks (checks.sha256 bytes) (length bytes) expected (hashed checks got))
  unfolding judge hashed
  read_back-Verdict bytes expected none h = h
  read_back-Verdict bytes expected (some (err e)) h = sizes-Verdict bytes expected
  read_back-Verdict bytes expected (some (ok all)) h =
      read-Verdict bytes expected (checks.sha256 all) (ap checks.sha256 (sym h))

  reading-Verdict :
      IsReader checks.stream rest
      → IsFresh
      → (fuel : ℕ) (path : Text) (bytes : Bytes) (expected : ℕ) → length whole < fuel
      → Verdict bytes expected
          (verify_by_reading checks fuel path (checks.sha256 bytes) (length bytes) expected)
  unfolding verify_by_reading sha256_remote_readback judge
  reading-Verdict reader fresh fuel path bytes expected lt = elim (Result-cases checks.open_read) [
    | inr (e, o) ↦ rw (verify_by_reading, o) (sizes-Verdict bytes expected)
    | inl (r, o) ↦
        let start = fresh r o in
        rw (verify_by_reading, o)
          (read_back-Verdict bytes expected (read_back checks fuel r []) (
            subst (λ x. ReadsAll x (read_back checks fuel r [])) start
              (read_back-All reader fuel r [] (omega (arith, ap length start)))))
  ]

  verify_pair_read :
      (fuel : ℕ) (remote_path local_path : Text) (expected : ℕ) (disk : Disk)
      → checks.unreadable ≡ none
      → ((e : VfsError) × (checks.remote_digest ≡ err e)) ⊎ (checks.remote_digest ≡ ok none)
      → verify_pair checks fuel remote_path local_path expected disk
        ≡ verify_by_reading checks fuel remote_path
            (checks.sha256 (content (lookup local_path disk)))
            (length (content (lookup local_path disk)))
            expected
  unfolding verify_pair
  verify_pair_read fuel remote_path local_path expected disk u (inl (e, d)) =
      rw (verify_pair, u, d) refl
  verify_pair_read fuel remote_path local_path expected disk u (inr d) = rw (verify_pair, u, d) refl

  verify_pair_exec :
      (fuel : ℕ) (remote_path local_path : Text) (expected : ℕ) (disk : Disk) (digest : Text)
      → checks.unreadable ≡ none
      → checks.remote_digest ≡ ok (some digest)
      → verify_pair checks fuel remote_path local_path expected disk
        ≡ some (
            compare_hashes checks sha256_exec
              (checks.sha256 (content (lookup local_path disk)))
              (to_ascii_lowercase digest))
  unfolding verify_pair
  verify_pair_exec fuel remote_path local_path expected disk digest u d =
      rw (verify_pair, u, d) refl

  verify_pair_unreadable :
      (fuel : ℕ) (remote_path local_path : Text) (expected : ℕ) (disk : Disk) (t : Text)
      → checks.unreadable ≡ some t
      → verify_pair checks fuel remote_path local_path expected disk ≡ some (err t)
  unfolding verify_pair
  verify_pair_unreadable fuel remote_path local_path expected disk t u = rw (verify_pair, u) refl

  -- With one round more than the remote file has bytes a check ends. It reports a verified transfer
  -- only where the digest of the local bytes is the one that the server named, or the digest of all
  -- the bytes of the remote file; it reports a size check only where the size is the expected one.
  pub verify_pair-Verdict :
      IsReader checks.stream rest
      → IsFresh
      → (fuel : ℕ) (remote_path local_path : Text) (expected : ℕ) (disk : Disk)
      → length whole < fuel
      → Verdict
          (content (lookup local_path disk))
          expected
          (verify_pair checks fuel remote_path local_path expected disk)
  verify_pair-Verdict reader fresh fuel remote_path local_path expected disk lt =
      let bytes = content (lookup local_path disk) in
      let read = reading-Verdict reader fresh fuel remote_path bytes expected lt in
      elim (Option-cases checks.unreadable) [
        | inr (t, u) ↦
            subst (Verdict bytes expected)
              (sym (verify_pair_unreadable fuel remote_path local_path expected disk t u)) tt
        | inl u ↦ elim (Result-cases checks.remote_digest) [
          | inr (e, d) ↦
              subst (Verdict bytes expected)
                (sym (verify_pair_read fuel remote_path local_path expected disk u (inl (e, d))))
                read
          | inl (none, d) ↦
              subst (Verdict bytes expected)
                (sym (verify_pair_read fuel remote_path local_path expected disk u (inr d))) read
          | inl (some digest, d) ↦
              subst (Verdict bytes expected)
                (sym (verify_pair_exec fuel remote_path local_path expected disk digest u d))
                (exec-Verdict bytes expected digest d)
        ]
      ]
