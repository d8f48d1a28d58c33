-- ===== src/Media/Server/Serving.antt =====
-- crates/mk-media/src/lib.rs: what the media server hands out, and to whom.
use m_kestrel.Prelude.{
  ℕ, suc, ◌+◌, ◌-◌, ◌≤◌, ◌<◌, ◌++◌, ◌∷◌, Option, none, some, Text, codes, ◌≡◌, refl, arith, ◌⊎◌,
  min, inl, inr, Bool-cases, Option-cases, ◌==◌, text_eq, text_beq_iff, decimal, ok, u64_bound,
  length, drop, subst,
}
use m_kestrel.Core.Host.{Host, Entry}
use m_kestrel.Core.Persistence.{Bytes}
use m_kestrel.Media.Range.{part, parse_range}
use m_kestrel.Media.Range.Forms.{parse_range-closed}
use m_kestrel.Media.Server.{
  Backend, MediaServer, message, streamed, Response, range_length, serve, serve_part, serve_whole,
  stream_file, stream_response,
}
use m_kestrel.Media.Stream.{ReadStream, reader_stream, Body}
use m_kestrel.Media.Stream.Delivery.{IsReader, Delivers, reader_stream-Delivers}
use m_kestrel.Vfs.Pool
use m_kestrel.Vfs.Pool.{Pool}

-- A file of a backend, with the readers on it: `stat` gives its size, a new reader stands at its
-- start, and a seek inside it moves the reader there.
pub record IsFile {R : Type 0} (stream : ReadStream R) (rest : R → Bytes) (backend : Backend R)
    (path : Text) (content : Bytes) : Type 0 where
  pub entry : Entry
  pub reader : R
  pub stat_ok : backend.stat path ≡ ok entry
  pub size_ok : entry.size_bytes ≡ length content
  pub open_ok : backend.open_read path ≡ ok reader
  pub at_start : rest reader ≡ content
  pub sought : ℕ → R
  pub seek_ok : (n : ℕ) → n < length content → stream.seek reader n ≡ ok (n, sought n)
  pub seek_rest : (n : ℕ) → n < length content → rest (sought n) ≡ drop n content

-- A response that streams from a reader on `bytes` and says their number.
pub record Streams {R : Type 0} (rest : R → Bytes) (bytes : Bytes) (n : ℕ) (r : Response R)
    : Type 0 where
  pub reader : R
  pub streams : r.payload ≡ streamed reader n
  pub at_bytes : rest reader ≡ bytes
  pub length_ok : r.content_length ≡ some (decimal n)

-- The response is a text.
abbrev pub IsMessage : {R : Type 0} → Response R → Type 0
IsMessage r = (text : Text) × (r.payload ≡ message text)

-- The response says that it has `n` bytes, and its body, run to its end, carries the first `n` of
-- `bytes`.
pub record Answers {R : Type 0} (stream : ReadStream R) (bytes : Bytes) (n : ℕ) (r : Response R)
    : Type 0 where
  pub reader : R
  pub body : Body
  pub streams : r.payload ≡ streamed reader n
  pub length_ok : r.content_length ≡ some (decimal n)
  pub ends : reader_stream stream (suc n) reader n ≡ some body
  pub delivers : Delivers bytes n body

module _ {R : Type 0} (stream : ReadStream R) where
  -- Bytes go only to a request that has the session's token and names a known host. Without the token
  -- the answer is a text, and no session is opened or touched.
  pub stream_file-token :
      (server : MediaServer) (factory : Host → Backend R) (now : ℕ) (pool : Pool (Backend R))
      (token host_id path : Text) (range : Option Text)
      → let got = stream_file stream server factory now pool token host_id path range in
        (IsMessage got.0 × (got.1 ≡ pool))
        ⊎ ((token ≡ server.token)
            × (host : Host) × (server.resolve host_id ≡ some host)
            × (got.1 ≡ (Pool.get factory now host pool).1))
  unfolding stream_file
  stream_file-token server factory now pool token host_id path range =
      elim (Bool-cases (token == server.token)) [
        | inr wrong ↦ rw (wrong, stream_file) (inl ((codes "forbidden", refl), refl))
        | inl right ↦ elim (Option-cases (server.resolve host_id)) [
          | inl unknown ↦
              rw (right, stream_file, unknown) (inl ((codes "unknown host", refl), refl))
          | inr (host, known) ↦
              rw (right, stream_file, known)
                (inr ((text_beq_iff token server.token).0 right, host, refl, refl))
        ]
      ]

  module _ (rest : R → Bytes) (backend : Backend R) (path : Text) (content : Bytes)
      (file : IsFile stream rest backend path content) where
    serve-whole :
        let r = serve stream backend path none in
        (r.status ≡ 200) × Streams rest content (length content) r
    unfolding serve serve_whole stream_response parse_range
    serve-whole =
        rw (file.stat_ok, serve, parse_range, serve_whole, file.open_ok, file.size_ok)
          (
            refl,
            record {
              reader = file.reader;
              streams = refl;
              at_bytes = file.at_start;
              length_ok = refl;
            },
          )

    serve-part :
        (range : Text) (start end : ℕ)
        → start < length content
        → parse_range (some range) (length content) ≡ part start end
        → let r = serve stream backend path (some range) in
          (r.status ≡ 206)
          × (r.content_range
              ≡ some (
                  codes "bytes "
                  ++ decimal start
                  ++ b'-' ∷ decimal end
                  ++ b'/' ∷ decimal (length content)))
          × Streams rest (drop start content) (range_length start end) r
    unfolding serve serve_part stream_response
    serve-part range start end inside parsed =
        rw
          (
            file.stat_ok,
            serve,
            file.size_ok,
            parsed,
            serve_part,
            file.open_ok,
            file.seek_ok start inside,
          )
          (
            refl,
            rw file.size_ok refl,
            record {
              reader = file.sought start;
              streams = refl;
              at_bytes = file.seek_rest start inside;
              length_ok = refl;
            },
          )

    module _ (reads : IsReader stream rest) where
      answer :
          (n : ℕ) (r : Response R) (bytes : Bytes)
          → n < u64_bound
          → Streams rest bytes n r
          → Answers stream bytes n r
      answer n r bytes fits got =
          let (body, ends, delivers) =
            reader_stream-Delivers stream rest reads (suc n) n got.reader (omega arith) fits in
          record {
            reader = got.reader;
            body = body;
            streams = got.streams;
            length_ok = got.length_ok;
            ends = ends;
            delivers = subst (λ b. Delivers b n body) got.at_bytes delivers;
          }

      module _ (fits : length content < u64_bound) where
        -- Without a range the response carries the whole file.
        pub serve-Answers_whole :
            let r = serve stream backend path none in
            (r.status ≡ 200) × Answers stream content (length content) r
        serve-Answers_whole =
            let (status, streams) = serve-whole in
            (status, answer (length content) (serve stream backend path none) content fits streams)

        -- A range `s-e` with `s ≤ e` and `s` inside a file that is shorter than 2^64 bytes is answered
        -- with 206, the range that is sent and its length, and a body that ends after one round more
        -- than there are bytes, with the bytes from `s` to `e` or the end of the file, complete unless
        -- the reader fails.
        pub serve-Answers_part :
            (s e : ℕ)
            → s ≤ e
            → s < length content
            → e < u64_bound
            → let last = min e (length content - 1) in
              let range = some (codes "bytes=" ++ decimal s ++ b'-' ∷ decimal e) in
              let r = serve stream backend path range in
              (r.status ≡ 206)
              × (r.content_range
                  ≡ some (
                      codes "bytes "
                      ++ decimal s
                      ++ b'-' ∷ decimal last
                      ++ b'/' ∷ decimal (length content)))
              × Answers stream (drop s content) (last - s + 1) r
        serve-Answers_part s e ordered inside small =
            let last = min e (length content - 1) in
            let range = codes "bytes=" ++ decimal s ++ b'-' ∷ decimal e in
            let parsed = parse_range-closed (length content) fits s e inside small in
            let (status, shown, streams) = serve-part range s last inside parsed in
            let len : range_length s last ≡ last - s + 1 = omega arith in
            (
              status,
              shown,
              answer (last - s + 1) (serve stream backend path (some range)) (drop s content)
                  (omega arith)
                  (subst
                    (λ n. Streams rest (drop s content) n (serve stream backend path (some range)))
                    len streams),
            )
