-- ===== src/App/Transfer.antt =====
-- app/src/transfer.rs: `download`, over a local disk and the reader of a backend. `cancel` is the flag
-- at each round. The rate limiter only delays, and progress messages are left out. `none` is the
-- result when the fuel of the copy loop runs out.
pub mod Copying
pub mod Atomic
use m_kestrel.Prelude.{
  ℕ, zero, suc, ◌+◌, ◌-◌, max, ℤ, pos, negsuc, Bool, true, false, not, ◌&&◌, ◌||◌, List, [], ◌∷◌,
  ◌++◌, Option, none, some, Text, codes, if◌then◌else◌, ◌==◌, text_eq, ltb, leb, eqb, length, take,
  lookup, enter, Result, ok, err, decimal,
}
use m_kestrel.Core.Host.{Entry}
use m_kestrel.Core.Job.{VerifyMethod}
use m_kestrel.Core.Persistence.{Bytes}
use m_kestrel.Core.Settings.{OverwritePolicy}
use m_kestrel.Media.Stream.{ReadStream}
use m_kestrel.Ui.Engine.{TransferOutcome, or_else}
use m_kestrel.Vfs.Error.{VfsError, fmt}
use m_kestrel.App.Disk.{Disk, LocalFile, Answers, truncate, append, remove_file, rename_file}

-- What the backend answers about the remote file.
pub record Remote (R : Type 0) : Type 0 where
  pub stat : Option Entry
  pub open_read : Result R VfsError
  pub stream : ReadStream R

-- The arguments of `download` behind the paths. `expected_mtime` and `expected_size` are of the
-- remote file that a partial was made of.
pub record Request : Type 0 where
  pub remote_path : Text
  pub chunk_bytes : ℕ
  pub resume_enabled : Bool
  pub policy : OverwritePolicy
  pub expected_mtime : Option ℤ
  pub expected_size : Option ℕ
  pub cancel : ℕ → Bool

-- What a step ends with: its value or an error, and the disk.
abbrev pub Step : Type 0 → Type 0
Step A = Result A Text × Disk

-- `TransferOutcome::skipped`.
abbrev pub skipped : TransferOutcome
skipped = record {
  bytes_done = 0;
  verified = none;
  verify_method = none;
  notice = none;
  files_done = 1;
  files_total = 1;
  files_failed = 0;
}

abbrev int_beq : ℤ → ℤ → Bool
int_beq (pos m) (pos n) = eqb m n
int_beq (negsuc m) (negsuc n) = eqb m n
int_beq _ _ = false

abbrev int_leb : ℤ → ℤ → Bool
int_leb (pos m) (pos n) = leb m n
int_leb (negsuc m) (pos n) = true
int_leb (pos m) (negsuc n) = false
int_leb (negsuc m) (negsuc n) = leb n m

-- `duration_since(UNIX_EPOCH)` fails before the epoch, and 0 stands in.
abbrev since_epoch : ℤ → ℤ
since_epoch (pos n) = pos n
since_epoch (negsuc n) = pos 0

-- `a.zip(b).is_some_and(|(x, y)| x != y)`.
abbrev differ_ℤ : Option ℤ → Option ℤ → Bool
differ_ℤ (some a) (some b) = not (int_beq a b)
differ_ℤ _ _ = false

abbrev differs_from : Option ℕ → ℕ → Bool
differs_from (some a) b = not (eqb a b)
differs_from none b = false

abbrev pub size_of : Option Entry → ℕ
size_of none = 0
size_of (some e) = e.size_bytes

abbrev mtime_of : Option Entry → Option ℤ
mtime_of none = none
mtime_of (some e) = some e.mtime

unfoldable pub remote_changed : Request → Option Entry → ℕ → Bool
remote_changed q stat partial =
    differ_ℤ q.expected_mtime (mtime_of stat)
    || differs_from q.expected_size (size_of stat)
    || (ltb 0 (size_of stat) && ltb (size_of stat) partial)

-- What the policy does when the target exists.
pub data Choice : Type 0 where
  proceed skip rename : Choice
  conflict : Choice

abbrev newer_choice : LocalFile → Option Entry → Choice
newer_choice f none = proceed
newer_choice f (some remote) = if int_leb remote.mtime (since_epoch f.mtime) then skip else proceed

unfoldable pub choose : OverwritePolicy → LocalFile → Option Entry → Choice
choose OverwritePolicy.overwrite f stat = proceed
choose OverwritePolicy.skip f stat = skip
choose OverwritePolicy.resume f stat = proceed
choose OverwritePolicy.rename f stat = rename
choose OverwritePolicy.newer_only f stat = newer_choice f stat
choose OverwritePolicy.ask f stat = conflict

abbrev pub part_of : Text → Text
part_of resolved = resolved ++ codes ".mkpart"

module _ (os : Answers) where
  unfoldable pub drop_partial : Bool → Text → Disk → Disk
  drop_partial resume_enabled path disk =
      if resume_enabled then disk else remove_file os.removes path disk

  -- `File::create`, for the first or the second time.
  unfoldable pub create_part : {A : Type 0} → Bool → A → Text → Text → Disk → Step A
  create_part again value prefix part disk = elim (os.create again) [
    | some e ↦ (err (prefix ++ e), disk)
    | none ↦ (ok value, truncate os.clock part disk)
  ]

  -- The partial that is opened: how much of it is kept, and the notice.
  unfoldable pub open_part : Request → Option Entry → Text → Disk → Step (ℕ × Option Text)
  unfolding remote_changed create_part
  open_part q stat part disk =
      let fresh = codes "create " ++ part ++ codes ": " in
      elim (if q.resume_enabled then lookup part disk else none) [
        | none ↦ create_part false (0, none) fresh part disk
        | some f ↦ elim os.metadata [
          | some e ↦ (err e, disk)
          | none ↦
              if remote_changed q stat (length f.bytes)
              then create_part false (0, some (codes "remote changed, restarting")) fresh part
                  (remove_file os.removes part disk)
              else elim os.open_append [
                | some e ↦ (err (codes "open " ++ part ++ codes ": " ++ e), disk)
                | none ↦ (ok (length f.bytes, none), disk)
              ]
        ]
      ]

module _ {R : Type 0} (os : Answers) (remote : Remote R) (q : Request) (part : Text) where
  -- The reader at the end of what is kept; where it cannot go there the partial is made anew. A seek
  -- that fails leaves the reader where it was.
  unfoldable pub seek_reader : R → ℕ → Option Text → Disk → Step (R × ℕ × Option Text)
  unfolding create_part
  seek_reader r done notice disk =
      if ltb 0 done
      then elim (remote.stream.seek r done) [
        | ok (at, r') ↦ (ok (r', done, notice), disk)
        | err e ↦
            create_part os true (r, 0, some (codes "seek failed, restarting")) [] part
              (remove_file os.removes part disk)
      ]
      else (ok (r, done, notice), disk)

  unfoldable pub open_reader : ℕ → Option Text → Disk → Step (R × ℕ × Option Text)
  unfolding seek_reader
  open_reader done notice disk = elim remote.open_read [
    | err e ↦ (err (codes "open_read " ++ q.remote_path ++ codes ": " ++ fmt e), disk)
    | ok r ↦ seek_reader r done notice disk
  ]

  abbrev read_error : ℕ → VfsError → Text
  read_error done e =
      codes "read " ++ q.remote_path ++ codes " @ " ++ decimal done ++ codes ": " ++ fmt e

  -- The copy loop: the bytes of the partial at its end, or the error.
  unfoldable pub copy : ℕ → ℕ → R → ℕ → Disk → Option (Step ℕ)
  unfolding drop_partial append
  copy zero round r done disk = none
  copy (suc fuel) round r done disk =
      if q.cancel round
      then some (err (codes "cancelled"), drop_partial os q.resume_enabled part disk)
      else elim (remote.stream.read r (max q.chunk_bytes 1)) [
        | err e ↦ some (err (read_error done e), disk)
        | ok ([], next) ↦ some (ok done, disk)
        | ok (b ∷ bytes, next) ↦ elim (os.write_all done) [
          | some (written, e) ↦ some (
            err (codes "write " ++ part ++ codes ": " ++ e),
            drop_partial os q.resume_enabled part
                (append os.clock part (take written (b ∷ bytes)) disk),
          )
          | none ↦
              copy fuel (suc round) next (done + length (b ∷ bytes))
                (append os.clock part (b ∷ bytes) disk)
        ]
      ]
