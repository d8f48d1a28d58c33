-- ===== src/Media/Server.antt =====
-- crates/mk-media/src/lib.rs: the handler `stream_file` and `stream_response`. The backends are
-- those of the connection pool, read through the `VfsBackend` operations that the handler calls; a
-- header that the framework sets by itself is not in the response.
pub mod Serving
pub mod Inverted
use m_kestrel.Prelude.{
  ℕ, ◌+◌, ◌%◌, ◌++◌, ◌∷◌, [], not, Option, none, some, Text, codes, if◌then◌else◌, ◌==◌, text_eq,
  decimal, Result, ok, err, u64_bound,
}
use m_kestrel.Core.Host.{Host, Entry}
use m_kestrel.Media.Range.{RangeResult, whole, part, range_error, sub_u64, parse_range}
use m_kestrel.Media.Stream.{ReadStream}
use m_kestrel.Media.Url.{content_type}
use m_kestrel.Vfs.Error.{VfsError, fmt}
use m_kestrel.Vfs.Pool
use m_kestrel.Vfs.Pool.{Pool}

-- The operations of `VfsBackend` that the server uses.
pub record Backend (R : Type 0) : Type 0 where
  pub stat : Text → Result Entry VfsError
  pub open_read : Text → Result R VfsError

pub record MediaServer : Type 0 where
  pub resolve : Text → Option Host
  pub token : Text

-- A text, or a reader and the length to stream from it.
pub data Payload (R : Type 0) : Type 0 where
  message : Text → Payload R
  streamed : R → ℕ → Payload R

pub record Response (R : Type 0) : Type 0 where
  pub status : ℕ
  pub accept_ranges : Option Text
  pub content_length : Option Text
  pub content_type : Option Text
  pub content_range : Option Text
  pub payload : Payload R

-- `end - start + 1` on u64.
abbrev pub range_length : ℕ → ℕ → ℕ
range_length start end = (sub_u64 end start + 1) % u64_bound

module _ {R : Type 0} where
  -- `(status, text).into_response()`.
  abbrev pub refuse : ℕ → Text → Response R
  refuse status text = record {
    status = status;
    accept_ranges = none;
    content_length = none;
    content_type = none;
    content_range = none;
    payload = message text;
  }

  unfoldable pub stream_response : ℕ → R → ℕ → Option Text → Text → Response R
  stream_response status reader len range path = record {
    status = status;
    accept_ranges = some (codes "bytes");
    content_length = some (decimal len);
    content_type = some (content_type path);
    content_range = range;
    payload = streamed reader len;
  }

  unfoldable pub serve_whole : Backend R → Text → ℕ → Response R
  unfolding stream_response
  serve_whole backend path size = elim (backend.open_read path) [
    | err e ↦ refuse 500 (fmt e)
    | ok reader ↦ stream_response 200 reader size none path
  ]

  unfoldable pub serve_part : ReadStream R → Backend R → Text → ℕ → ℕ → ℕ → Response R
  unfolding stream_response
  serve_part stream backend path size start end = elim (backend.open_read path) [
    | err e ↦ refuse 500 (fmt e)
    | ok reader ↦ elim (stream.seek reader start) [
      | err e ↦ refuse 500 (fmt e)
      | ok (position, sought) ↦
          stream_response 206 sought (range_length start end)
            (some (codes "bytes " ++ decimal start ++ b'-' ∷ decimal end ++ b'/' ∷ decimal size))
            path
    ]
  ]

  -- The handler behind `pool.get`.
  unfoldable pub serve : ReadStream R → Backend R → Text → Option Text → Response R
  unfolding serve_whole serve_part
  serve stream backend path range = elim (backend.stat path) [
    | err e ↦ refuse 404 (fmt e)
    | ok entry ↦ elim (parse_range range entry.size_bytes) [
      | range_error ↦ record (refuse 416 []) {
        content_range = some (codes "bytes */" ++ decimal entry.size_bytes);
      }
      | whole ↦ serve_whole backend path entry.size_bytes
      | part start end ↦ serve_part stream backend path entry.size_bytes start end
    ]
  ]

  unfoldable pub stream_file :
      ReadStream R
      → MediaServer
      → (Host → Backend R)
      → ℕ
      → Pool (Backend R)
      → Text
      → Text
      → Text
      → Option Text
      → Response R × Pool (Backend R)
  unfolding serve
  stream_file stream server factory now pool token host_id path range =
      if not (token == server.token)
      then (refuse 403 (codes "forbidden"), pool)
      else elim (server.resolve host_id) [
        | none ↦ (refuse 404 (codes "unknown host"), pool)
        | some host ↦
            let (backend, next) = Pool.get factory now host pool in
            (serve stream backend path range, next)
      ]
