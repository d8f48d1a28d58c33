-- ===== src/Media/Stream/Delivery.antt =====
-- crates/mk-media/src/lib.rs: what the body of a response carries.
use m_kestrel.Prelude.{
  ℕ, zero, suc, ◌-◌, ◌≤◌, ◌<◌, min, List, [], ◌∷◌, ◌++◌, Option, none, some, ◌≡◌, refl, sym, ap,
  ◌∙◌, subst, arith, inl, inr, false, ◌⊎◌, append_assoc, eqb, length, length-append, take, take_all,
  All, Result, ok, err, Bool-cases, u64_bound,
}
use m_kestrel.Core.Persistence.{Bytes}
use m_kestrel.Media.Range.{sub_u64}
use m_kestrel.Media.Stream.{ReadStream, Body, chunk, reader_stream, with_frame}
use m_kestrel.Vfs.Error.{VfsError}

abbrev pub joined : List Bytes → Bytes
joined [] = []
joined (f ∷ fs) = f ++ joined fs

-- A reader at a place of a file: `rest r` is what stands behind that place. A read puts at most as
-- many bytes into the buffer as it has room for, the next ones of the file, and none only at the end
-- of the file or for an empty buffer.
pub record IsReader {R : Type 0} (stream : ReadStream R) (rest : R → Bytes) : Type 0 where
  pub read_le :
      (r : R) (n : ℕ) (bytes : Bytes) (next : R)
      → stream.read r n ≡ ok (bytes, next)
      → length bytes ≤ n
  pub read_next :
      (r : R) (n : ℕ) (bytes : Bytes) (next : R)
      → stream.read r n ≡ ok (bytes, next)
      → rest r ≡ bytes ++ rest next
  pub read_end : (r : R) (n : ℕ) (next : R) → 0 < n → stream.read r n ≡ ok ([], next) → rest r ≡ []

-- The frames of the body are the first bytes of `bytes`, at most `n` of them and all of these unless
-- the reader failed, in frames of a chunk at most.
pub record Delivers (bytes : Bytes) (n : ℕ) (body : Body) : Type 0 where
  pub small : All (λ f. length f ≤ chunk) body.frames
  pub bounded : length (joined body.frames) ≤ n
  pub prefix : (behind : Bytes) × (bytes ≡ joined body.frames ++ behind)
  pub complete : body.failed ≡ none → joined body.frames ≡ take n bytes

take-append :
    {A : Type 0} (a b : List A) (n : ℕ)
    → length a ≤ n
    → take n (a ++ b) ≡ a ++ take (n - length a) b
take-append [] b n h = ap (λ m. take m b) (omega arith)
take-append (x ∷ a) b zero h = absurd (omega arith)
take-append (x ∷ a) b (suc n) h =
    ap (◌∷◌ x) (take-append a b n (omega arith) ∙ ap (λ m. a ++ take m b) (omega arith))

Delivers-none :
    (bytes : Bytes) (n : ℕ) (e : Option VfsError)
    → (e ≡ none → [] ≡ take n bytes)
    → Delivers bytes n (record { frames = []; failed = e })
Delivers-none bytes n e h = record {
  small = tt;
  bounded = omega arith;
  prefix = (bytes, refl);
  complete = h;
}

Delivers-frame :
    (f after : Bytes) (n : ℕ) (body : Body)
    → length f ≤ chunk
    → length f ≤ n
    → Delivers after (n - length f) body
    → Delivers (f ++ after) n (with_frame f body)
Delivers-frame f after n body hc hn d = record {
  small = (hc, d.small);
  bounded = omega (arith, d.bounded, length-append f (joined body.frames));
  prefix =
      (d.prefix.0, ap (◌++◌ f) d.prefix.1 ∙ sym (append_assoc f (joined body.frames) d.prefix.0));
  complete = λ e. ap (◌++◌ f) (d.complete e) ∙ sym (take-append f after n hn);
}

pub read_cases :
    {R : Type 0} (got : Result (Bytes × R) VfsError)
    → ((e : VfsError) × (got ≡ err e))
      ⊎ ((next : R) × (got ≡ ok ([], next)))
      ⊎ ((c : ℕ) × (bytes : Bytes) × (next : R) × (got ≡ ok (c ∷ bytes, next)))
read_cases (err e) = inl (e, refl)
read_cases (ok ([], next)) = inr (inl (next, refl))
read_cases (ok (c ∷ bytes, next)) = inr (inr (c, bytes, next, refl))

take_zero : (n : ℕ) (bytes : Bytes) → n ≡ 0 → [] ≡ take n bytes
take_zero zero bytes h = refl
take_zero (suc n) bytes h = absurd (omega arith)

take_nil : (n : ℕ) (bytes : Bytes) → bytes ≡ [] → [] ≡ take n bytes
take_nil n bytes h = sym (ap (take n) h ∙ take_all n [] (omega arith))

module _ {R : Type 0} (stream : ReadStream R) (rest : R → Bytes)
    (reads : IsReader stream rest) where
  abbrev Ends : ℕ → R → ℕ → Type 0
  Ends fuel r n =
      (body : Body) × (reader_stream stream fuel r n ≡ some body) × Delivers (rest r) n body

  reads_frame :
      (fuel n : ℕ) (r : R) (c : ℕ) (bytes : Bytes) (next : R)
      → 0 < n
      → n < u64_bound
      → stream.read r (min chunk n) ≡ ok (c ∷ bytes, next)
      → Ends fuel next (n - length (c ∷ bytes))
      → Ends (suc fuel) r n
  unfolding reader_stream
  reads_frame fuel n r c bytes next pos fits got (body, ends, d) =
      let fit = reads.read_le r (min chunk n) (c ∷ bytes) next got in
      let left : sub_u64 n (length (c ∷ bytes)) ≡ n - length (c ∷ bytes) = omega (arith, fit) in
      let some_left : eqb n 0 ≡ false = ground arith in
      (
        with_frame (c ∷ bytes) body,
        rw (some_left, reader_stream, got, left, ends) refl,
        subst (λ b. Delivers b n (with_frame (c ∷ bytes) body))
            (sym (reads.read_next r (min chunk n) (c ∷ bytes) next got))
            (Delivers-frame (c ∷ bytes) (rest next) n body (omega (arith, fit)) (omega (arith, fit))
              d),
      )

  -- One round more than there are bytes asked for is enough, whatever the reader does: the stream
  -- ends, with the reader's bytes in order, never more than asked for, and with all that were asked
  -- for and are there unless the reader failed.
  pub reader_stream-Delivers : (fuel n : ℕ) (r : R) → n < fuel → n < u64_bound → Ends fuel r n
  unfolding reader_stream
  reader_stream-Delivers zero n r h b = absurd (omega arith)
  reader_stream-Delivers (suc fuel) n r h b = elim (Bool-cases (eqb n 0)) [
    | inl z ↦ (
      record { frames = []; failed = none },
      rw (z, reader_stream) refl,
      Delivers-none (rest r) n none (λ e. take_zero n (rest r) (ground arith)),
    )
    | inr nz ↦ elim (read_cases (stream.read r (min chunk n))) [
      | inl (e, got) ↦ (
        record { frames = []; failed = some e },
        rw (nz, reader_stream, got) refl,
        Delivers-none (rest r) n (some e) (λ e. cc),
      )
      | inr (inl (next, got)) ↦ (
        record { frames = []; failed = none },
        rw (nz, reader_stream, got) refl,
        Delivers-none (rest r) n none
            (λ e. take_nil n (rest r) (reads.read_end r (min chunk n) next (ground arith) got)),
      )
      | inr (inr (c, bytes, next, got)) ↦
          reads_frame fuel n r c bytes next (ground arith) b got
            (reader_stream-Delivers fuel (n - length (c ∷ bytes)) next (ground arith) (omega arith))
    ]
  ]
