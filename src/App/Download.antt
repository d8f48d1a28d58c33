-- ===== src/App/Download.antt =====
-- app/src/transfer.rs: `download` as a whole.
pub mod Whole
use m_kestrel.Prelude.{
  ℕ, ◌+◌, max, Bool, List, [], ◌∷◌, ◌++◌, Option, none, some, Text, codes, if◌then◌else◌, lookup,
  Result, ok, err,
}
use m_kestrel.Core.Host.{Entry}
use m_kestrel.Core.Job.{VerifyMethod}
use m_kestrel.Ui.Engine.{TransferOutcome}
use m_kestrel.App.Disk.{existing, Disk, Answers, rename_file}
use m_kestrel.App.Paths.{PathParts, find_available_name}
use m_kestrel.App.Transfer.{
  Remote, Request, Step, Choice, choose, skipped, part_of, open_part, open_reader, copy, size_of,
  proceed, skip, rename, conflict,
}
use m_kestrel.App.Verify.{Checks, verify_pair}

abbrev pub then_step : {A B : Type 0} → Step A → (A → Disk → Option (Step B)) → Option (Step B)
then_step (err e, disk) next = some (err e, disk)
then_step (ok a, disk) next = next a disk

abbrev pub then_some :
    {A B : Type 0} → Option (Step A) → (A → Disk → Option (Step B)) → Option (Step B)
then_some none next = none
then_some (some s) next = then_step s next

unfoldable pub outcome_of : ℕ → Option Text → TransferOutcome
outcome_of done notice = record {
  bytes_done = done;
  verified = none;
  verify_method = none;
  notice = notice;
  files_done = 1;
  files_total = 1;
  files_failed = 0;
}

module _ {R : Type 0} (os : Answers) (remote : Remote R) (checks : Checks R) (q : Request) where
  -- Flush, sync and rename.
  unfoldable pub publish : Text → ℕ → Option Text → Disk → Step TransferOutcome
  unfolding outcome_of rename_file
  publish resolved done notice disk =
      let part = part_of resolved in
      elim os.flush [
        | some e ↦ (err (codes "flush " ++ part ++ codes ": " ++ e), disk)
        | none ↦ elim os.sync_all [
          | some e ↦ (err (codes "sync " ++ part ++ codes ": " ++ e), disk)
          | none ↦ elim os.rename [
            | some e ↦
                (err (codes "rename " ++ part ++ codes " -> " ++ resolved ++ codes ": " ++ e), disk)
            | none ↦ (ok (outcome_of done notice), rename_file part resolved disk)
          ]
        ]
      ]

  unfoldable pub fetch : ℕ → Text → Disk → Option (Step TransferOutcome)
  unfolding open_part open_reader copy publish
  fetch fuel resolved disk = elim os.create_dir_all [
    | some e ↦ some (err e, disk)
    | none ↦ then_step (open_part os q remote.stat (part_of resolved) disk) λ kept ready.
        then_step (open_reader os remote q (part_of resolved) kept.0 kept.1 ready) λ opened placed.
          then_some (copy os remote q (part_of resolved) fuel 0 opened.0 opened.1 placed)
            λ done copied. some (publish resolved done opened.2 copied)
  ]

  abbrev with_check :
      TransferOutcome → Result (Bool × VerifyMethod) Text → Result TransferOutcome Text
  with_check o (err e) = err e
  with_check o (ok (same, method)) =
      ok (record o { verified = some same; verify_method = some method })

  abbrev checked :
      TransferOutcome
      → Disk
      → Option (Result (Bool × VerifyMethod) Text)
      → Option (Step TransferOutcome)
  checked o disk none = none
  checked o disk (some r) = some (with_check o r, disk)

  -- The check comes when the target is already replaced.
  unfoldable pub verified : Bool → ℕ → Text → TransferOutcome → Disk → Option (Step TransferOutcome)
  unfolding verify_pair
  verified verify fuel resolved o disk =
      if verify
      then checked o disk (
          verify_pair checks fuel q.remote_path resolved (max (size_of remote.stat) o.bytes_done)
            disk)
      else some (ok o, disk)

  unfoldable pub fetch_verified : Bool → ℕ → Text → Disk → Option (Step TransferOutcome)
  unfolding fetch verified
  fetch_verified verify fuel resolved disk =
      then_some (fetch fuel resolved disk) λ o disk'. verified verify fuel resolved o disk'

  -- `resolved` is the local path, and `parts` its parts.
  unfoldable pub download : Bool → ℕ → Text → PathParts → Disk → Option (Step TransferOutcome)
  unfolding choose find_available_name fetch_verified
  download verify fuel resolved parts disk = elim (lookup resolved disk) [
    | none ↦ fetch_verified verify fuel resolved disk
    | some f ↦ elim (choose q.policy f remote.stat) [
      | proceed ↦ fetch_verified verify fuel resolved disk
      | skip ↦ some (ok skipped, disk)
      | conflict ↦ some (err (codes "CONFLICT dest=" ++ resolved), disk)
      | rename ↦ elim (find_available_name parts (existing os.directories disk)) [
        | none ↦ none
        | some free ↦ fetch_verified verify fuel free disk
      ]
    ]
  ]
