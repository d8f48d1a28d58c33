-- ===== src/App/Transfer/Copying.antt =====
-- app/src/transfer.rs: what the copy loop leaves on the disk.
use m_kestrel.Prelude.{
  subst, ℕ, zero, suc, ◌+◌, ◌<◌, max, Bool, true, false, [], ◌∷◌, ◌++◌, append_assoc, append-nil,
  Option, none, some, Text, ◌==◌, text_eq, text_beq_refl, length, length-append, take, lookup,
  lookup-enter, lookup-erase_other, ok, err, ◌≡◌, refl, sym, ap, ◌∙◌, inl, inr, Bool-cases,
  Option-cases, arith,
}
use m_kestrel.Core.Persistence.{Bytes}
use m_kestrel.Media.Stream.Delivery.{IsReader, read_cases}
use m_kestrel.App.Disk.{Disk, LocalFile, Answers, content, truncate, append, remove_file}
use m_kestrel.App.Transfer.{Remote, Request, Step, drop_partial, copy}

-- Every path but one is as it was.
abbrev pub Others : Text → Disk → Disk → Type 0
Others part disk disk' =
    (path : Text) → (part == path) ≡ false → lookup path disk' ≡ lookup path disk

-- The partial is there with these bytes.
abbrev pub Holds : Text → Bytes → Disk → Type 0
Holds part bytes disk = (f : LocalFile) × (lookup part disk ≡ some f) × (f.bytes ≡ bytes)

pub Others-trans :
    (part : Text) (a b c : Disk) → Others part a b → Others part b c → Others part a c
Others-trans part a b c h k path ne = k path ne ∙ h path ne

pub Others-append :
    (os : Answers) (part : Text) (bytes : Bytes) (disk : Disk)
    → Others part disk (append os.clock part bytes disk)
unfolding append
Others-append os part bytes disk path ne =
    rw
      (
        lookup-enter part path
            (record { bytes = content (lookup part disk) ++ bytes; mtime = os.clock }) disk,
        ne,
      )
      refl

pub Others-truncate :
    (os : Answers) (part : Text) (disk : Disk) → Others part disk (truncate os.clock part disk)
unfolding truncate
Others-truncate os part disk path ne =
    rw (lookup-enter part path (record { bytes = []; mtime = os.clock }) disk, ne) refl

pub Others-remove :
    (removes : Bool) (part : Text) (disk : Disk) → Others part disk (remove_file removes part disk)
unfolding remove_file
Others-remove true part disk path ne = lookup-erase_other part path disk ne
Others-remove false part disk path ne = refl

pub Others-drop :
    (os : Answers) (keep : Bool) (part : Text) (disk : Disk)
    → Others part disk (drop_partial os keep part disk)
unfolding drop_partial
Others-drop os true part disk path ne = refl
Others-drop os false part disk path ne = Others-remove os.removes part disk path ne

pub Holds-truncate :
    (os : Answers) (part : Text) (disk : Disk) → Holds part [] (truncate os.clock part disk)
unfolding truncate
Holds-truncate os part disk =
    let f : LocalFile = record { bytes = []; mtime = os.clock } in
    (f, rw (lookup-enter part part f disk, text_beq_refl part) refl, refl)

Holds-append :
    (os : Answers) (part : Text) (start bytes : Bytes) (disk : Disk)
    → Holds part start disk
    → Holds part (start ++ bytes) (append os.clock part bytes disk)
unfolding append
Holds-append os part start bytes disk (f, at, e) =
    let g : LocalFile = record { bytes = content (lookup part disk) ++ bytes; mtime = os.clock } in
    (
      g,
      rw (lookup-enter part part g disk, text_beq_refl part) refl,
      ap (λ x. content x ++ bytes) at ∙ ap (λ x. x ++ bytes) e,
    )

module _ {R : Type 0} (os : Answers) (remote : Remote R) (q : Request) (part : Text)
    (rest : R → Bytes) where
  -- The loop ended: with all bytes behind those that were there, or with an error; and it touched no
  -- other path.
  abbrev pub Copied : Bytes → R → ℕ → Disk → Option (Step ℕ) → Type 0
  Copied start r done disk none = ⊥
  Copied start r done disk (some (err e, disk')) = Others part disk disk'
  Copied start r done disk (some (ok n, disk')) =
      (n ≡ done + length (rest r)) × Holds part (start ++ rest r) disk' × Others part disk disk'

  Copied-step :
      (start bytes : Bytes) (r next : R) (done : ℕ) (disk : Disk) (s : Option (Step ℕ))
      → rest r ≡ bytes ++ rest next
      → Copied (start ++ bytes) next (done + length bytes) (append os.clock part bytes disk) s
      → Copied start r done disk s
  Copied-step start bytes r next done disk none e h = h
  Copied-step start bytes r next done disk (some (err t, disk')) e h =
      Others-trans part disk (append os.clock part bytes disk) disk'
        (Others-append os part bytes disk) h
  Copied-step start bytes r next done disk (some (ok n, disk')) e (count, held, others) = (
    count ∙ omega (arith, ap length e, length-append bytes (rest next)),
    subst (λ x. Holds part x disk')
        (append_assoc start bytes (rest next) ∙ ap (λ x. start ++ x) (sym e)) held,
    Others-trans part disk (append os.clock part bytes disk) disk'
        (Others-append os part bytes disk) others,
  )

  pub copy-Copied :
      IsReader remote.stream rest
      → (fuel round : ℕ) (start : Bytes) (r : R) (done : ℕ) (disk : Disk) → length (rest r) < fuel
      → Holds part start disk
      → Copied start r done disk (copy os remote q part fuel round r done disk)
  unfolding copy
  copy-Copied reader zero round start r done disk lt h = absurd (omega arith)
  copy-Copied reader (suc fuel) round start r done disk lt h = elim (Bool-cases (q.cancel round)) [
    | inl e ↦ rw (e, copy) (Others-drop os q.resume_enabled part disk)
    | inr e ↦ elim (read_cases (remote.stream.read r (max q.chunk_bytes 1))) [
      | inl (t, got) ↦ rw (e, copy, got) (λ path ne. refl)
      | inr (inl (next, got)) ↦
          let ended = reader.read_end r (max q.chunk_bytes 1) next (omega arith) got in
          rw (e, copy, got)
            (
              omega (arith, ap length ended),
              subst (λ x. Holds part x disk) (sym (ap (λ x. start ++ x) ended ∙ append-nil start))
                  h,
              λ path ne. refl,
            )
      | inr (inr (b, bytes, next, got)) ↦
          let more = reader.read_next r (max q.chunk_bytes 1) (b ∷ bytes) next got in
          elim (Option-cases (os.write_all done)) [
            | inl w ↦
                let disk' = append os.clock part (b ∷ bytes) disk in
                let done' = done + length (b ∷ bytes) in
                rw (e, copy, got, w)
                  (Copied-step start (b ∷ bytes) r next done disk
                    (copy os remote q part fuel (suc round) next done' disk') more
                    (copy-Copied reader fuel (suc round) (start ++ b ∷ bytes) next done' disk'
                      (omega (arith, ap length more, length-append (b ∷ bytes) (rest next)))
                      (Holds-append os part start (b ∷ bytes) disk h)))
            | inr ((written, t), w) ↦
                rw (e, copy, got, w)
                  (Others-trans part disk (append os.clock part (take written (b ∷ bytes)) disk) _
                    (Others-append os part (take written (b ∷ bytes)) disk)
                    (Others-drop os q.resume_enabled part
                      (append os.clock part (take written (b ∷ bytes)) disk)))
          ]
    ]
  ]
