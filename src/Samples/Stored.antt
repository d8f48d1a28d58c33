-- ===== src/Samples/Stored.antt =====
-- Loading and saving on concrete values.
use m_kestrel.Prelude.{ℕ, text_beq, false, true, [], ◌∷◌, Option, none, some, codes, ◌≡◌, refl}
use m_kestrel.Core.Persistence.{Bytes, Fs, StoredEnvelope, ok, written, load, save}
use m_kestrel.Core.Persistence.Files.{IsSaved, envelope, save_atomic, load-save}
use m_kestrel.Samples.{stored}

abbrev disk : Fs
disk path = some (0 ∷ [])

abbrev encode : StoredEnvelope ℕ → Option Bytes
encode e = some (7 ∷ [])

abbrev decode : Bytes → Option (StoredEnvelope ℕ)
decode bytes = some (envelope encode stored)

-- A decoder of nothing.
abbrev reject : Bytes → Option (StoredEnvelope ℕ)
reject bytes = none

save_atomic_example :
    IsSaved encode stored
      (codes "store.json")
      disk
      (save encode written false disk (codes "store.json") stored)
save_atomic_example = save_atomic encode written false disk (codes "store.json") stored

load-save_example :
    let after = (save encode written true disk (codes "store.json") stored).1 in
    load decode true true after (codes "store.json") ≡ (ok stored, after)
unfolding save text_beq
load-save_example =
    load-save encode decode written true true disk (codes "store.json") stored (λ b e. refl) refl
