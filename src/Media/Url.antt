-- ===== src/Media/Url.antt =====
-- crates/mk-media/src/lib.rs: `percent_encode`, `stream_url` and `content_type`.
pub mod Encoding
use m_kestrel.Prelude.{
  ℕ, ◌+◌, ◌-◌, ◌/◌, ◌%◌, Bool, ◌&&◌, ◌||◌, List, [], ◌∷◌, ◌++◌, map, Text, codes, if◌then◌else◌,
  eqb, leb, ltb, ◌==◌, text_eq, decimal, last_part,
}
use m_kestrel.Core.Persistence.{Bytes}

abbrev pub is_upper : ℕ → Bool
is_upper c = leb b'A' c && leb c b'Z'

-- The bytes that stand for themselves.
unfoldable pub is_kept : ℕ → Bool
is_kept b =
    is_upper b
    || (leb b'a' b && leb b b'z')
    || (leb b'0' b && leb b b'9')
    || eqb b b'-'
    || eqb b b'.'
    || eqb b b'_'
    || eqb b b'~'
    || eqb b b'/'

-- A digit of the `{:02X}` format.
unfoldable pub hex_digit : ℕ → ℕ
hex_digit n = if ltb n 10 then b'0' + n else b'A' + (n - 10)

-- The argument is `s.as_bytes()`.
unfoldable pub percent_encode : Bytes → Text
unfolding is_kept hex_digit
percent_encode [] = []
percent_encode (b ∷ s) =
    if is_kept b
    then b ∷ percent_encode s
    else b'%' ∷ hex_digit (b / 16) ∷ hex_digit (b % 16) ∷ percent_encode s

-- `path` is given by its bytes.
unfoldable pub stream_url : Text → ℕ → Text → Bytes → Text
unfolding percent_encode
stream_url token port host_id path =
    codes "http://127.0.0.1:"
    ++ decimal port
    ++ codes "/s/"
    ++ token
    ++ b'/' ∷ host_id
    ++ codes "?path="
    ++ percent_encode path

abbrev pub to_ascii_lowercase : Text → Text
to_ascii_lowercase = map (λ c. if is_upper c then c + 32 else c)

unfoldable pub type_of_extension : Text → Text
type_of_extension ext =
    if ext == codes "mp4" || ext == codes "m4v"
    then codes "video/mp4"
    else if ext == codes "mkv"
    then codes "video/x-matroska"
    else if ext == codes "mov"
    then codes "video/quicktime"
    else if ext == codes "webm"
    then codes "video/webm"
    else if ext == codes "mp3"
    then codes "audio/mpeg"
    else if ext == codes "m4a"
    then codes "audio/mp4"
    else if ext == codes "flac"
    then codes "audio/flac"
    else if ext == codes "wav"
    then codes "audio/wav"
    else if ext == codes "ogg" || ext == codes "opus"
    then codes "audio/ogg"
    else codes "application/octet-stream"

unfoldable pub content_type : Text → Text
unfolding type_of_extension
content_type path = type_of_extension (to_ascii_lowercase (last_part b'.' path))
