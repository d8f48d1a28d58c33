-- ===== src/Samples/Streams.antt =====
-- The media server on a file in memory.
use m_kestrel.Prelude.{
  false, ℕ, zero, suc, ◌+◌, ◌-◌, ◌≤◌, ◌<◌, min, [], ◌∷◌, ◌++◌, none, some, pos, codes, ◌≡◌, ◌⊎◌,
  refl, subst, ap, ap₂, ◌∙◌, arith, take, drop, length, length-take, Result, ok, err, decimal,
  u64_bound,
}
use m_kestrel.Core.Host.{Entry, EntryKind, Host}
use m_kestrel.Core.Persistence.{Bytes}
use m_kestrel.Media.Range.{parse_range, part}
use m_kestrel.Media.Range.Forms.{header}
use m_kestrel.Media.Server.{Backend, MediaServer, Response, range_length, serve, stream_file}
use m_kestrel.Media.Server.Inverted.{parse_range_inverted}
use m_kestrel.Media.Server.Serving.{
  Answers, IsFile, IsMessage, serve-Answers_part, stream_file-token,
}
use m_kestrel.Media.Stream.{ReadStream, reader_stream, Body}
use m_kestrel.Media.Stream.Delivery.{Delivers, IsReader, reader_stream-Delivers}
use m_kestrel.Samples.{nas}
use m_kestrel.Vfs.Error.{VfsError}
use m_kestrel.Vfs.Pool
use m_kestrel.Vfs.Pool.{Pool, new_pool}

-- A reader is the content of its file and what stands behind its place.
abbrev pub Reader : Type 0
Reader = Bytes × Bytes

abbrev pub behind : Reader → Bytes
behind r = r.1

abbrev pub in_memory : ReadStream Reader
in_memory = record {
  read = λ r n. ok (take n r.1, (r.0, drop n r.1));
  seek = λ r n. ok (n, (r.0, drop n r.0));
}

take-drop : (n : ℕ) (b : Bytes) → b ≡ take n b ++ drop n b
take-drop zero b = refl
take-drop (suc n) [] = refl
take-drop (suc n) (c ∷ b) = ap (◌∷◌ c) (take-drop n b)

take-eq-nil : (n : ℕ) (b : Bytes) → 0 < n → take n b ≡ [] → b ≡ []
take-eq-nil zero b h e = absurd (omega arith)
take-eq-nil (suc n) [] h e = refl
take-eq-nil (suc n) (c ∷ b) h e = absurd (ground arith)

abbrev got : Bytes × Reader → Result (Bytes × Reader) VfsError → Bytes × Reader
got none_read (ok p) = p
got none_read (err e) = none_read

read-eq :
    (r next : Reader) (n : ℕ) (bytes : Bytes)
    → in_memory.read r n ≡ ok (bytes, next)
    → ◌≡◌ {A = Bytes × Reader} (take n r.1, (r.0, drop n r.1)) (bytes, next)
read-eq r next n bytes h = ap (got ([], r)) h

pub in_memory-IsReader : IsReader in_memory behind
in_memory-IsReader = record {
  read_le = λ r n bytes next h.
      subst (λ b. length b ≤ n) (ap (λ p. p.0) (read-eq r next n bytes h))
        (omega (arith, length-take n r.1));
  read_next = λ r n bytes next h.
      take-drop n r.1
      ∙ ap₂ (λ a b. a ++ b) (ap (λ p. p.0) (read-eq r next n bytes h))
          (ap (λ p. p.1.1) (read-eq r next n bytes h));
  read_end = λ r n next pos h. take-eq-nil n r.1 pos (ap (λ p. p.0) (read-eq r next n [] h));
}

abbrev content : Bytes
content = codes "hello world"

abbrev entry : Entry
entry = record {
  name = codes "a.mp4";
  kind = EntryKind.file;
  target = none;
  size_bytes = 11;
  mode = 0;
  uid = 0;
  gid = 0;
  owner_label = [];
  mtime = pos 0;
  is_hidden = false;
  inode = 1;
  items = none;
}

abbrev shelf : Backend Reader
shelf = record { stat = λ path. ok entry; open_read = λ path. ok (content, content) }

shelf-IsFile : IsFile in_memory behind shelf (codes "/a.mp4") content
shelf-IsFile = record {
  entry = entry;
  reader = (content, content);
  stat_ok = refl;
  size_ok = refl;
  open_ok = refl;
  at_start = refl;
  sought = λ n. (content, drop n content);
  seek_ok = λ n h. refl;
  seek_rest = λ n h. refl;
}

serve-Answers_part_example :
    let range = some (codes "bytes=" ++ decimal 6 ++ b'-' ∷ decimal 99) in
    let r = serve in_memory shelf (codes "/a.mp4") range in
    (r.status ≡ 206)
    × (r.content_range
        ≡ some (
            codes "bytes "
            ++ decimal 6
            ++ b'-' ∷ decimal (min 99 (length content - 1))
            ++ b'/' ∷ decimal (length content)))
    × Answers in_memory (drop 6 content) (min 99 (length content - 1) - 6 + 1) r
serve-Answers_part_example =
    serve-Answers_part in_memory behind shelf (codes "/a.mp4") content shelf-IsFile
      in_memory-IsReader (omega arith) 6 99 (omega arith) (omega arith) (omega arith)

reader_stream-Delivers_example :
    (body : Body) × (reader_stream in_memory 6 (content, content) 5 ≡ some body)
    × Delivers content 5 body
reader_stream-Delivers_example =
    reader_stream-Delivers in_memory behind in_memory-IsReader 6 5 (content, content) (omega arith)
      (omega arith)

abbrev server : MediaServer
server = record { resolve = λ id. some nas; token = codes "t0" }

abbrev guessed : Response Reader × Pool (Backend Reader)
guessed =
    stream_file in_memory server (λ host. shelf) 1 new_pool (codes "t1") (codes "nas")
      (codes "/a.mp4") none

stream_file-token_example :
    (IsMessage guessed.0 × (guessed.1 ≡ new_pool))
    ⊎ ((codes "t1" ≡ server.token)
        × (host : Host) × (server.resolve (codes "nas") ≡ some host)
        × (guessed.1 ≡ (Pool.get (λ host. shelf) 1 host new_pool).1))
stream_file-token_example =
    stream_file-token in_memory server (λ host. shelf) 1 new_pool (codes "t1") (codes "nas")
      (codes "/a.mp4") none

-- `bytes=50-10` of a file of 100 bytes.
parse_range_inverted_example :
    (parse_range (header (decimal 50) (decimal 10)) 100 ≡ part 50 10)
    × (u64_bound - 50 < range_length 50 10)
parse_range_inverted_example =
    parse_range_inverted 100 50 10 (omega arith) (omega arith) (omega arith)
