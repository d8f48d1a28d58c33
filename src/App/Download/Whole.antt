-- ===== src/App/Download/Whole.antt =====
-- app/src/transfer.rs: a download leaves the whole file or the old one.
use m_kestrel.Prelude.{
  ℕ, ◌<◌, false, ◌++◌, subst, Option, none, some, Text, codes, ◌==◌, text_eq, text_beq_refl,
  ne_text, length, length-append, lookup, lookup-enter, lookup-enter_other, lookup-erase,
  lookup-erase_other, erase, ok, err, ◌≡◌, refl, ap, ◌∙◌, inl, inr, Option-cases, arith,
}
use m_kestrel.Core.Persistence.{Bytes}
use m_kestrel.Media.Stream.Delivery.{IsReader}
use m_kestrel.Ui.Engine.{TransferOutcome}
use m_kestrel.App.Disk.{Disk, Answers, rename_file}
use m_kestrel.App.Transfer.{Remote, Request, Step, part_of, open_part, open_reader, copy}
use m_kestrel.App.Transfer.Copying.{Others, Holds, Others-trans, Copied, copy-Copied}
use m_kestrel.App.Transfer.Atomic.{
  Opened, Placed, IsBeginning, IsSeekable, open_part-Opened, open_reader-Placed,
}
use m_kestrel.App.Verify.{Checks}
use m_kestrel.App.Download.{then_step, then_some, outcome_of, publish, fetch}

part_apart : (resolved : Text) → (part_of resolved == resolved) ≡ false
part_apart resolved =
    ne_text (part_of resolved) resolved
      (λ e. absurd (omega (arith, ap length e, length-append resolved (codes ".mkpart"))))

apart_part : (resolved : Text) → (resolved == part_of resolved) ≡ false
apart_part resolved =
    ne_text resolved (part_of resolved)
      (λ e. absurd (omega (arith, ap length e, length-append resolved (codes ".mkpart"))))

module _ {R : Type 0} (os : Answers) (remote : Remote R) (checks : Checks R) (q : Request)
    (rest : R → Bytes) (whole : Bytes) (resolved : Text) where
  -- The download ended: with the whole file at its place, all of it counted, and no partial left; or
  -- with an error, and then at most the partial has changed. Other files are as they were.
  abbrev pub Fetched : Disk → Option (Step TransferOutcome) → Type 0
  Fetched disk none = ⊥
  Fetched disk (some (err e, disk')) = Others (part_of resolved) disk disk'
  Fetched disk (some (ok o, disk')) =
      (o.bytes_done ≡ length whole)
      × Holds resolved whole disk'
      × (lookup (part_of resolved) disk' ≡ none)
      × ((path : Text)
          → (part_of resolved == path) ≡ false
          → (resolved == path) ≡ false
          → lookup path disk' ≡ lookup path disk)

  rename_file-Fetched :
      (before disk : Disk) (n : ℕ) (notice : Option Text)
      → n ≡ length whole
      → Holds (part_of resolved) whole disk
      → Others (part_of resolved) before disk
      → Fetched before
          (some (ok (outcome_of n notice), rename_file (part_of resolved) resolved disk))
  unfolding rename_file outcome_of
  rename_file-Fetched before disk n notice count (f, at, bytes) others =
      let part = part_of resolved in
      rw (at, rename_file)
        (
          count,
          (
            f,
            rw (lookup-enter resolved resolved f (erase part disk), text_beq_refl resolved) refl,
            bytes,
          ),
          lookup-enter_other resolved part f (erase part disk) (apart_part resolved)
              ∙ lookup-erase part disk,
          (λ path np nr.
              lookup-enter_other resolved path f (erase part disk) nr
              ∙ lookup-erase_other part path disk np
              ∙ others path np),
        )

  publish-Fetched :
      (before disk : Disk) (n : ℕ) (notice : Option Text)
      → n ≡ length whole
      → Holds (part_of resolved) whole disk
      → Others (part_of resolved) before disk
      → Fetched before (some (publish os remote checks q resolved n notice disk))
  unfolding publish
  publish-Fetched before disk n notice count held others = elim (Option-cases os.flush) [
    | inr (t, e) ↦ rw (e, publish) others
    | inl e ↦ elim (Option-cases os.sync_all) [
      | inr (t, f) ↦ rw (e, publish, f) others
      | inl f ↦ elim (Option-cases os.rename) [
        | inr (t, g) ↦ rw (e, publish, f, g) others
        | inl g ↦ rw (e, publish, f, g) (rename_file-Fetched before disk n notice count held others)
      ]
    ]
  ]

  copy-Fetched :
      (before disk : Disk) (start : Bytes) (r : R) (done : ℕ) (notice : Option Text)
      (s : Option (Step ℕ))
      → start ++ rest r ≡ whole
      → done ≡ length start
      → Others (part_of resolved) before disk
      → Copied os remote q (part_of resolved) rest start r done disk s
      → Fetched before
          (then_some s λ n disk'. some (publish os remote checks q resolved n notice disk'))
  copy-Fetched before disk start r done notice none w count others h = h
  copy-Fetched before disk start r done notice (some (err e, disk')) w count others h =
      Others-trans (part_of resolved) before disk disk' others h
  copy-Fetched before disk start r done notice (some (ok n, disk')) w count others (m, held, kept) =
      publish-Fetched before disk' n notice
        (omega (arith, m, count, ap length w, length-append start (rest r)))
        (subst (λ x. Holds (part_of resolved) x disk') w held)
        (Others-trans (part_of resolved) before disk disk' others kept)

  module _ (reader : IsReader remote.stream rest) (fuel : ℕ) (enough : length whole < fuel) where
    open_reader-Fetched :
        (before : Disk) (s : Step (R × ℕ × Option Text))
        → Placed os remote q (part_of resolved) rest whole before s
        → Fetched before (
            then_step s λ opened placed.
              then_some
                (copy os remote q (part_of resolved) fuel 0 opened.0 opened.1 placed)
                λ done copied. some (publish os remote checks q resolved done opened.2 copied))
    open_reader-Fetched before (err e, disk') h = h
    open_reader-Fetched before (ok (r, done, notice), disk') (start, w, count, held, others) =
        copy-Fetched before disk' start r done notice
          (copy os remote q (part_of resolved) fuel 0 r done disk') w count others
          (copy-Copied os remote q (part_of resolved) rest reader fuel 0 start r done disk'
            (omega (arith, ap length w, length-append start (rest r))) held)

    open_part-Fetched :
        (before : Disk) (s : Step (ℕ × Option Text))
        → IsSeekable os remote q (part_of resolved) rest whole
        → Opened os remote q (part_of resolved) rest whole before s
        → Fetched before (
            then_step s λ kept ready.
              then_step
                (open_reader os remote q (part_of resolved) kept.0 kept.1 ready)
                λ opened placed.
                  then_some
                    (copy os remote q (part_of resolved) fuel 0 opened.0 opened.1 placed)
                    λ done copied. some (publish os remote checks q resolved done opened.2 copied))
    open_part-Fetched before (err e, disk') seekable h = h
    open_part-Fetched before (ok (done, notice), disk') seekable
          (start, behind, w, count, held, others) =
        open_reader-Fetched before (open_reader os remote q (part_of resolved) done notice disk') (
          open_reader-Placed os remote q (part_of resolved) rest whole seekable before disk' notice
            start behind done w count held others)

    -- With one round more than the file has bytes, a download ends, whatever the operating system
    -- answers and whenever it is cancelled, for every reader of the file `whole` that keeps the
    -- contract, if a partial that the checks of a resume accept is a beginning of the file: either the
    -- target holds the whole file, all of it is counted and the partial is gone, or there is an error,
    -- the target is as it was and only the partial may have changed. Other files never change.
    pub fetch-Fetched :
        (disk : Disk)
        → IsSeekable os remote q (part_of resolved) rest whole
        → IsBeginning os remote q (part_of resolved) rest whole disk
        → Fetched disk (fetch os remote checks q fuel resolved disk)
    unfolding fetch
    fetch-Fetched disk seekable beginning = elim (Option-cases os.create_dir_all) [
      | inr (t, e) ↦ rw (e, fetch) (λ path ne. refl)
      | inl e ↦
          rw (e, fetch)
            (open_part-Fetched disk (open_part os q remote.stat (part_of resolved) disk) seekable
              (open_part-Opened os remote q (part_of resolved) rest whole disk beginning))
    ]
