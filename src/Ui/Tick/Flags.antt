-- ===== src/Ui/Tick/Flags.antt =====
-- crates/mk-ui/src/store.rs: every worker has a flag that can cancel it.
use m_kestrel.Prelude.{
  Bool, true, false, List, [], ◌∷◌, none, ◌≡◌, refl, sym, ◌∙◌, inl, inr, Bool-cases, arith, Text,
  Table, lookup, enter, erase, lookup-enter, lookup-erase, lookup-erase_other, ◌==◌, text_eq,
  text_beq_iff, subst,
}
use m_kestrel.Core.Job.{Job}
use m_kestrel.Ui.Engine.{
  EngineFloats, Engine, Channel, is_some, spawn_workers, spawn_flags, set_flags, emptied, erase_all,
  finished_workers,
}
use m_kestrel.Ui.Tick.{drain}

abbrev pub HasFlags : Table Channel → Table Bool → Type 0
HasFlags w flags = (id : Text) → is_some (lookup id w) ≡ true → is_some (lookup id flags) ≡ true

enter-HasFlags :
    (k : Text) (c : Channel) (b : Bool) (w : Table Channel) (flags : Table Bool)
    → HasFlags w flags
    → HasFlags (enter k c w) (enter k b flags)
enter-HasFlags k c b w flags h = λ id. elim (Bool-cases (k == id)) [
  | inl e ↦ λ there. rw (lookup-enter k id b flags, e) refl
  | inr e ↦
      λ there. rw (lookup-enter k id b flags, e) (h id (rw (lookup-enter k id c w, e) at there))
]

erase-HasFlags :
    (k : Text) (w : Table Channel) (flags : Table Bool)
    → HasFlags w flags
    → HasFlags (erase k w) (erase k flags)
erase-HasFlags k w flags h = λ id. elim (Bool-cases (k == id)) [
  | inl e ↦ λ there.
      let same = (text_beq_iff k id).0 e in
      let missing : lookup id (erase k w) ≡ none =
        subst (λ i. lookup i (erase k w) ≡ none) same (lookup-erase k w) in
      absurd (ground (arith, there, missing))
  | inr e ↦ λ there.
      rw (lookup-erase_other k id flags e) (h id (rw (lookup-erase_other k id w e) at there))
]

erase_all-HasFlags :
    (ids : List Text) (w : Table Channel) (flags : Table Bool)
    → HasFlags w flags
    → HasFlags (erase_all ids w) (erase_all ids flags)
unfolding erase_all
erase_all-HasFlags [] w flags h = h
erase_all-HasFlags (k ∷ ids) w flags h =
    erase_all-HasFlags ids (erase k w) (erase k flags) (erase-HasFlags k w flags h)

emptied-keys :
    (id : Text) (w : Table Channel) → is_some (lookup id (emptied w)) ≡ is_some (lookup id w)
unfolding emptied lookup
emptied-keys id [] = refl
emptied-keys id ((k, c) ∷ w) = ground (arith, emptied-keys id w)

module _ {F : Type 0} where
  set_flags-keys :
      (id : Text) (jobs : List (Job F)) (flags : Table Bool)
      → is_some (lookup id (set_flags jobs flags)) ≡ is_some (lookup id flags)
  unfolding set_flags lookup
  set_flags-keys id jobs [] = refl
  set_flags-keys id jobs ((k, b) ∷ flags) = ground (arith, set_flags-keys id jobs flags)

  pub set-HasFlags :
      (jobs : List (Job F)) (w : Table Channel) (flags : Table Bool)
      → HasFlags w flags
      → HasFlags w (set_flags jobs flags)
  set-HasFlags jobs w flags h = λ id there. set_flags-keys id jobs flags ∙ h id there

  pub spawn-HasFlags :
      (new : List (Job F)) (w : Table Channel) (flags : Table Bool)
      → HasFlags w flags
      → HasFlags (spawn_workers new w) (spawn_flags new flags)
  unfolding spawn_workers spawn_flags
  spawn-HasFlags [] w flags h = h
  spawn-HasFlags (j ∷ new) w flags h =
      let fresh : Channel = record { messages = []; closed = false } in
      spawn-HasFlags new (enter j.id fresh w) (enter j.id false flags)
        (enter-HasFlags j.id fresh false w flags h)

pub drain-HasFlags :
    (ef : EngineFloats) (e : Engine ef.floats.F)
    → HasFlags e.workers e.cancel_flags
    → HasFlags (drain ef e).workers (drain ef e).cancel_flags
unfolding drain
drain-HasFlags ef e h =
    erase_all-HasFlags (finished_workers e.workers) (emptied e.workers) e.cancel_flags
      (λ id there. h id (sym (emptied-keys id e.workers) ∙ there))
