-- ===== src/Media/Stream.antt =====
-- crates/mk-media/src/lib.rs: `reader_stream`, the body of a response, over the `ReadStream` of
-- crates/mk-vfs/src/lib.rs. The lazy stream is run to its end here; `R` is the type of open readers.
pub mod Delivery
use m_kestrel.Prelude.{
  ℕ, zero, suc, ◌*◌, min, Bool, List, [], ◌∷◌, Option, none, some, if◌then◌else◌, eqb, length,
  Result, ok, err,
}
use m_kestrel.Core.Persistence.{Bytes}
use m_kestrel.Media.Range.{sub_u64}
use m_kestrel.Vfs.Error.{VfsError}

-- `read` gets the size of the buffer, and returns the bytes that it put there.
pub record ReadStream (R : Type 0) : Type 0 where
  pub read : R → ℕ → Result (Bytes × R) VfsError
  pub seek : R → ℕ → Result (ℕ × R) VfsError

abbrev pub chunk : ℕ
chunk = 64 * 1024

-- What a client has got when the stream is over, and the error that ended it.
pub record Body : Type 0 where
  pub frames : List Bytes
  pub failed : Option VfsError

abbrev pub with_frame : Bytes → Body → Body
with_frame bytes body = record { frames = bytes ∷ body.frames; failed = body.failed }

module _ {R : Type 0} (stream : ReadStream R) where
  -- The rounds are counted by fuel; `none` when it runs out.
  unfoldable pub reader_stream : ℕ → R → ℕ → Option Body
  reader_stream zero r rem = none
  reader_stream (suc fuel) r rem =
      if eqb rem 0
      then some (record { frames = []; failed = none })
      else elim (stream.read r (min chunk rem)) [
        | err e ↦ some (record { frames = []; failed = some e })
        | ok ([], next) ↦ some (record { frames = []; failed = none })
        | ok (b ∷ bytes, next) ↦ elim (reader_stream fuel next (sub_u64 rem (length (b ∷ bytes)))) [
          | none ↦ none
          | some body ↦ some (with_frame (b ∷ bytes) body)
        ]
      ]
