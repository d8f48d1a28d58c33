-- ===== src/Core/Persistence/Files.antt =====
-- crates/mk-core/src/persistence.rs: what `save` and `load` leave on disk, also where they fail.
use m_kestrel.Prelude.{
  ℕ, Bool, true, false, [], ◌∷◌, ◌++◌, ◌≡◌, refl, ◌∙◌, ◌⊎◌, inl, inr, Text, codes, Option, none,
  some, arith, Option-cases, text_beq, text_beq_refl, eqb,
}
use m_kestrel.Core.Persistence.{
  StoredState, StoredEnvelope, schema_version, ok, err, corrupt, Bytes, Fs, WriteOutcome, written,
  write_failed, put, rename, load, save,
}

-- A path with a suffix is another path.
longer_ne : (s : Text) (c : ℕ) (t : Text) → text_beq s (s ++ c ∷ t) ≡ false
unfolding text_beq
longer_ne [] c t = refl
longer_ne (d ∷ s) c t = ground (arith, longer_ne s c t)

ne_longer : (s : Text) (c : ℕ) (t : Text) → text_beq (s ++ c ∷ t) s ≡ false
unfolding text_beq
ne_longer [] c t = refl
ne_longer (d ∷ s) c t = ground (arith, ne_longer s c t)

put_self : (fs : Fs) (p : Text) (v : Option Bytes) → put fs p v p ≡ v
unfolding put
put_self fs p v = rw (text_beq_refl p)

put-other : (fs : Fs) (p q : Text) (v : Option Bytes) → text_beq q p ≡ false → put fs p v q ≡ fs q
unfolding put
put-other fs p q v h = rw h

-- A rename that works moves the content; one that does not leaves everything.
pub rename_works :
    (fs : Fs) (from to : Text) {b : Bytes}
    → fs from ≡ some b
    → text_beq from to ≡ false
    → ((rename true fs from to).0 ≡ true)
      × ((rename true fs from to).1 to ≡ some b)
      × ((rename true fs from to).1 from ≡ none)
unfolding rename
rename_works fs from to {b} e ne =
    rw (e, rename)
      (
        refl,
        put_self (put fs from none) to (some b),
        put-other (put fs from none) to from (some b) ne ∙ put_self fs from none,
      )

rename_fails : (fs : Fs) (from to : Text) → rename false fs from to ≡ (false, fs)
unfolding rename
rename_fails fs from to = ground arith

module _ {F : Type 0} (encode : StoredEnvelope F → Option Bytes) where
  -- What `save` writes.
  abbrev pub envelope : StoredState F → StoredEnvelope F
  envelope state = record { version = schema_version; state = state }

  abbrev pub IsSaved : StoredState F → Text → Fs → Bool × Fs → Type 0
  IsSaved state path fs saved =
      ((saved.0 ≡ true)
        × (b : Bytes) × (encode (envelope state) ≡ some b)
        × (saved.1 path ≡ some b))
      ⊎ ((saved.0 ≡ false) × (saved.1 path ≡ fs path))

  abbrev tmp_of : Text → Text
  tmp_of path = path ++ codes ".tmp"

  store_untouched :
      (fs : Fs) (path : Text) (v : Option Bytes) → put fs (tmp_of path) v path ≡ fs path
  store_untouched fs path v = put-other fs (tmp_of path) path v (longer_ne path _ _)

  save_with :
      (outcome : WriteOutcome) (works : Bool) (fs : Fs) (path : Text) (state : StoredState F)
      (b : Bytes)
      → encode (envelope state) ≡ some b
      → IsSaved state path fs (save encode outcome works fs path state)
  unfolding save
  save_with written true fs path state b e =
      let moved =
        rename_works (put fs (tmp_of path) (some b)) (tmp_of path) path
          (put_self fs (tmp_of path) (some b)) (ne_longer path _ _) in
      rw (e, save) (inl (moved.0, b, refl, moved.1))
  save_with written false fs path state b e =
      rw (e, save, rename_fails) (inr (refl, store_untouched fs path (some b)))
  save_with (write_failed torn) works fs path state b e =
      rw (e, save) (inr (refl, store_untouched fs path torn))

  -- However the writes go, the store is afterwards wholly the new one, exactly when `save` says so,
  -- or the old file untouched.
  pub save_atomic :
      (outcome : WriteOutcome) (works : Bool) (fs : Fs) (path : Text) (state : StoredState F)
      → IsSaved state path fs (save encode outcome works fs path state)
  unfolding save
  save_atomic outcome works fs path state = elim (Option-cases (encode (envelope state))) [
    | inl e ↦ rw (e, save) (inr (refl, refl))
    | inr (b, e) ↦ save_with outcome works fs path state b e
  ]

module _ {F : Type 0} (encode : StoredEnvelope F → Option Bytes)
    (decode : Bytes → Option (StoredEnvelope F)) where
  -- A state that was saved is what the next `load` returns, if decoding undoes its encoding.
  pub load-save :
      (outcome : WriteOutcome) (works later : Bool) (fs : Fs) (path : Text) (state : StoredState F)
      → ((b : Bytes)
          → encode (envelope encode state) ≡ some b
          → decode b ≡ some (envelope encode state))
      → (save encode outcome works fs path state).0 ≡ true
      → let after = (save encode outcome works fs path state).1 in
        load decode true later after path ≡ (ok state, after)
  unfolding load
  load-save outcome works later fs path state undo done =
      elim (save_atomic encode outcome works fs path state) [
        | inl (_, b, e, stored) ↦ rw (stored, load, undo b e)
        | inr (refused, _) ↦ cc
      ]

  -- Bytes that are no store of this version.
  abbrev pub IsForeign : Bytes → Type 0
  IsForeign b =
      (decode b ≡ none)
      ⊎ ((e : StoredEnvelope F) × (decode b ≡ some e) × (eqb e.version schema_version ≡ false))

  abbrev pub aside : Text → Text
  aside path = path ++ codes ".corrupt"

  load_foreign :
      (works : Bool) (fs : Fs) (path : Text) {b : Bytes}
      → fs path ≡ some b
      → IsForeign b
      → load decode true works fs path
        ≡ (err (corrupt (aside path)), (rename works fs path (aside path)).1)
  unfolding load
  load_foreign works fs path h (inl e) = rw (h, load, e)
  load_foreign works fs path h (inr (v, e, other)) = rw (h, load, e, other)

  -- A store that cannot be decoded, or is of another version, is moved aside with all its bytes and
  -- reported; where the move fails it stays as it was.
  pub load_quarantines :
      (works : Bool) (fs : Fs) (path : Text) {b : Bytes}
      → fs path ≡ some b
      → IsForeign b
      → let loaded = load decode true works fs path in
        (loaded.0 ≡ err (corrupt (aside path)))
        × (((works ≡ true) × (loaded.1 (aside path) ≡ some b) × (loaded.1 path ≡ none))
            ⊎ ((works ≡ false) × (loaded.1 ≡ fs)))
  load_quarantines true fs path h foreign =
      let moved = rename_works fs path (aside path) h (longer_ne path _ _) in
      rw (load_foreign true fs path h foreign) (refl, inl (refl, moved.1, moved.2))
  load_quarantines false fs path h foreign =
      rw (load_foreign false fs path h foreign, rename_fails) (refl, inr (refl, refl))
