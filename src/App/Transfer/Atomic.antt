-- ===== src/App/Transfer/Atomic.antt =====
-- app/src/transfer.rs: how a download gets to the place where it copies on.
use m_kestrel.Prelude.{
  ℕ, true, false, [], ◌∷◌, ◌++◌, Option, none, some, Text, codes, text_eq, length, drop,
  drop-append, ltb, lookup, Result-cases, ok, err, ◌≡◌, refl, sym, ap, ap₂, ◌∙◌, inl, inr,
  Bool-cases, Option-cases, arith,
}
use m_kestrel.Core.Persistence.{Bytes}
use m_kestrel.App.Disk.{Disk, LocalFile, Answers, remove_file}
use m_kestrel.App.Transfer.{
  Remote, Request, Step, create_part, open_part, seek_reader, open_reader, remote_changed,
}
use m_kestrel.App.Transfer.Copying.{
  Others, Holds, Others-trans, Others-truncate, Others-remove, Holds-truncate,
}

empty_start : (start : Bytes) → length start ≡ 0 → start ≡ []
empty_start [] h = refl
empty_start (b ∷ start) h = absurd (omega arith)

module _ {R : Type 0} (os : Answers) (remote : Remote R) (q : Request) (part : Text)
    (rest : R → Bytes) (whole : Bytes) where
  -- What is kept of a partial is a beginning of the file.
  abbrev pub Opened : Disk → Step (ℕ × Option Text) → Type 0
  Opened disk (err e, disk') = Others part disk disk'
  Opened disk (ok (done, notice), disk') =
      (start : Bytes) × (behind : Bytes) × (start ++ behind ≡ whole)
      × (done ≡ length start)
      × Holds part start disk'
      × Others part disk disk'

  -- The reader stands behind what is kept.
  abbrev pub Placed : Disk → Step (R × ℕ × Option Text) → Type 0
  Placed disk (err e, disk') = Others part disk disk'
  Placed disk (ok (r, done, notice), disk') =
      (start : Bytes) × (start ++ rest r ≡ whole)
      × (done ≡ length start)
      × Holds part start disk'
      × Others part disk disk'

  -- A partial that the checks of a resume accept is a beginning of the file.
  abbrev pub IsBeginning : Disk → Type 0
  IsBeginning disk =
      (f : LocalFile)
      → lookup part disk ≡ some f
      → remote_changed q remote.stat (length f.bytes) ≡ false
      → (behind : Bytes) × (f.bytes ++ behind ≡ whole)

  create_part-Opened :
      (notice : Option Text) (prefix : Text) (before disk : Disk)
      → Others part before disk
      → Opened before (create_part os false (0, notice) prefix part disk)
  unfolding create_part
  create_part-Opened notice prefix before disk h = elim (Option-cases (os.create false)) [
    | inl e ↦
        rw (e, create_part)
          (
            [],
            whole,
            refl,
            refl,
            Holds-truncate os part disk,
            Others-trans part before disk _ h (Others-truncate os part disk),
          )
    | inr (t, e) ↦ rw (e, create_part) h
  ]

  pub open_part-Opened :
      (disk : Disk) → IsBeginning disk → Opened disk (open_part os q remote.stat part disk)
  unfolding open_part
  open_part-Opened disk h = elim (Bool-cases q.resume_enabled) [
    | inr off ↦
        rw (off, open_part)
          (create_part-Opened none (codes "create " ++ part ++ codes ": ") disk disk
            (λ path ne. refl))
    | inl on ↦ elim (Option-cases (lookup part disk)) [
      | inl e ↦
          rw (on, open_part, e)
            (create_part-Opened none (codes "create " ++ part ++ codes ": ") disk disk
              (λ path ne. refl))
      | inr (f, e) ↦ elim (Option-cases os.metadata) [
        | inr (t, m) ↦ rw (on, open_part, e, m) (λ path ne. refl)
        | inl m ↦ elim (Bool-cases (remote_changed q remote.stat (length f.bytes))) [
          | inl c ↦
              rw (on, open_part, e, m, c)
                (create_part-Opened (some (codes "remote changed, restarting"))
                  (codes "create " ++ part ++ codes ": ") disk (remove_file os.removes part disk)
                  (Others-remove os.removes part disk))
          | inr c ↦ elim (Option-cases os.open_append) [
            | inl a ↦
                rw (on, open_part, e, m, c, a)
                  (let (behind, w) = h f e c in
                    (f.bytes, behind, w, refl, (f, e, refl), λ path ne. refl))
            | inr (t, a) ↦ rw (on, open_part, e, m, c, a) (λ path ne. refl)
          ]
        ]
      ]
    ]
  ]

  -- The reader of the backend: a fresh one stands at the start of the file, and a seek moves it.
  pub record IsSeekable : Type 0 where
    pub fresh : (r : R) → remote.open_read ≡ ok r → rest r ≡ whole
    pub sought :
        (r r' : R) (n at : ℕ)
        → rest r ≡ whole
        → remote.stream.seek r n ≡ ok (at, r')
        → rest r' ≡ drop n whole

  recreate-Placed :
      (r : R) (before disk : Disk)
      → rest r ≡ whole
      → Others part before disk
      → Placed before
          (create_part os true (r, 0, some (codes "seek failed, restarting")) [] part disk)
  unfolding create_part
  recreate-Placed r before disk w h = elim (Option-cases (os.create true)) [
    | inl e ↦
        rw (e, create_part)
          (
            [],
            w,
            refl,
            Holds-truncate os part disk,
            Others-trans part before disk _ h (Others-truncate os part disk),
          )
    | inr (t, e) ↦ rw (e, create_part) h
  ]

  pub open_reader-Placed :
      IsSeekable
      → (before disk : Disk) (notice : Option Text) (start behind : Bytes) (done : ℕ)
      → start ++ behind ≡ whole
      → done ≡ length start
      → Holds part start disk
      → Others part before disk
      → Placed before (open_reader os remote q part done notice disk)
  unfolding open_reader seek_reader
  open_reader-Placed seekable before disk notice start behind done w count held others =
      elim (Result-cases remote.open_read) [
        | inr (e, o) ↦ rw (o, open_reader) others
        | inl (r, o) ↦ elim (Bool-cases (ltb 0 done)) [
          | inr zero_done ↦
              rw (o, open_reader, zero_done)
                (
                  start,
                  ap (λ x. x ++ rest r) (empty_start start (ground (arith, zero_done, count)))
                      ∙ seekable.fresh r o,
                  count,
                  held,
                  others,
                )
          | inl some_done ↦ elim (Result-cases (remote.stream.seek r done)) [
            | inl ((at, r'), sk) ↦
                rw (o, open_reader, some_done, sk)
                  (
                    start,
                    ap (λ x. start ++ x)
                          (seekable.sought r r' done at (seekable.fresh r o) sk
                            ∙ ap₂ drop count (sym w)
                            ∙ drop-append start behind)
                        ∙ w,
                    count,
                    held,
                    others,
                  )
            | inr (e, sk) ↦
                rw (o, open_reader, some_done, sk)
                  (recreate-Placed r before (remove_file os.removes part disk) (seekable.fresh r o)
                    (Others-trans part before disk _ others (Others-remove os.removes part disk)))
          ]
        ]
      ]
