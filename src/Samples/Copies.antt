-- ===== src/Samples/Copies.antt =====
-- Downloads and checks on a disk with two files.
use m_kestrel.Prelude.{
  ℕ, true, false, [], ◌∷◌, none, some, pos, Text, codes, ◌≡◌, sym, ap, arith, drop, lookup,
  text_beq, Result, ok, err,
}
use m_kestrel.Core.Persistence.{Bytes}
use m_kestrel.Core.Settings.{OverwritePolicy}
use m_kestrel.Samples.Streams.{Reader, behind, in_memory, in_memory-IsReader}
use m_kestrel.Media.Stream.{ReadStream}
use m_kestrel.Media.Stream.Delivery.{IsReader}
use m_kestrel.Ui.Enqueue.{download_path}
use m_kestrel.Vfs.Error.{VfsError}
use m_kestrel.App.Disk.{Disk, LocalFile, Answers, content}
use m_kestrel.App.Paths.{PathParts, resolve_local}
use m_kestrel.App.Paths.Escape.{resolve_local_absolute}
use m_kestrel.App.Transfer.{Remote, Request, part_of}
use m_kestrel.App.Transfer.Atomic.{IsBeginning, IsSeekable}
use m_kestrel.App.Verify.{Checks, verify_pair}
use m_kestrel.App.Verify.Sound.{IsFresh, Verdict, verify_pair-Verdict}
use m_kestrel.App.Download.{fetch}
use m_kestrel.App.Download.Whole.{Fetched, fetch-Fetched}

resolve_local_absolute_example :
    resolve_local (codes "/sd/Downloads") (download_path (codes "/etc/x")) ≡ codes "/etc/x"
resolve_local_absolute_example = resolve_local_absolute (codes "/sd/Downloads") (codes "etc/x")

abbrev old_file : LocalFile
old_file = record { bytes = 1 ∷ []; mtime = pos 1 }

abbrev disk : Disk
disk = (codes "/d/a.txt", old_file) ∷ (codes "/d/a_1.txt", old_file) ∷ []

abbrev a_parts : PathParts
a_parts = record { parent = codes "/d"; stem = codes "a"; ext = codes ".txt" }

abbrev healthy : Answers
healthy = record {
  directories = [];
  create_dir_all = none;
  metadata = none;
  open_append = none;
  create = λ again. none;
  write_all = λ at. none;
  flush = none;
  sync_all = none;
  rename = none;
  removes = true;
  clock = pos 9;
}

abbrev film : Bytes
film = 7 ∷ 8 ∷ 9 ∷ []

abbrev film_stream : ReadStream Reader
film_stream = record in_memory { seek = λ r n. ok (n, (film, drop n film)) }

film_stream-IsReader : IsReader film_stream behind
film_stream-IsReader = record {
  read_le = in_memory-IsReader.read_le;
  read_next = in_memory-IsReader.read_next;
  read_end = in_memory-IsReader.read_end;
}

abbrev server : Remote Reader
server = record { stat = none; open_read = ok (film, film); stream = film_stream }

abbrev request : Request
request = record {
  remote_path = codes "/film";
  chunk_bytes = 2;
  resume_enabled = false;
  policy = OverwritePolicy.overwrite;
  expected_mtime = none;
  expected_size = none;
  cancel = λ round. false;
}

-- A digest that is the same text for every content.
abbrev checks : Checks Reader
checks = record {
  sha256 = λ bytes. codes "0";
  unreadable = none;
  remote_digest = ok (some (codes "F"));
  open_read = ok (film, film);
  stream = film_stream;
}

abbrev opened : Result Reader VfsError → Reader
opened (ok r) = r
opened (err e) = ([], [])

IsFresh-checks : IsFresh checks behind film
IsFresh-checks r e = ap (λ x. (opened x).1) (sym e)

verify_pair-Verdict_example :
    Verdict checks behind film
      (content (lookup (codes "/d/a.txt") disk))
      1
      (verify_pair checks 4 (codes "/film") (codes "/d/a.txt") 1 disk)
verify_pair-Verdict_example =
    verify_pair-Verdict checks behind film film_stream-IsReader IsFresh-checks 4 (codes "/film")
      (codes "/d/a.txt") 1 disk (omega arith)

abbrev target : Text
target = codes "/d/a.txt"

abbrev sought : Result (ℕ × Reader) VfsError → Reader
sought (ok p) = p.1
sought (err e) = ([], [])

server-IsSeekable : IsSeekable healthy server request (part_of target) behind film
server-IsSeekable = record {
  fresh = λ r e. ap (λ x. (opened x).1) (sym e);
  sought = λ r r' n at w e. ap (λ x. (sought x).1) (sym e);
}

no_partial : IsBeginning healthy server request (part_of target) behind film disk
unfolding lookup text_beq
no_partial f e = cc

fetch-Fetched_example :
    Fetched healthy server checks request behind film target disk
      (fetch healthy server checks request 4 target disk)
fetch-Fetched_example =
    fetch-Fetched healthy server checks request behind film target film_stream-IsReader 4
      (omega arith) disk server-IsSeekable no_partial

abbrev new_disk : Disk
new_disk = (target, record { bytes = film; mtime = pos 9 }) ∷ (codes "/d/a_1.txt", old_file) ∷ []
