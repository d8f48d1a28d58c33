-- ===== src/Ui/Hosts/Saving.antt =====
-- crates/mk-ui/src/store.rs: what `save_host_draft` does to the list of hosts.
use m_kestrel.Prelude.{
  subst, trim, find-eq-none, length-update_first, suc, ℤ, Bool, true, false, not, List, [], ◌∷◌,
  ◌++◌, none, some, Text, if◌then◌else◌, ◌==◌, text_eq, ◌≡◌, refl, ap, ◌∙◌, inl, inr, Bool-cases,
  any, find, filter, length, update_first, text_beq_refl, arith,
}
use m_kestrel.Core.Host.{Host}
use m_kestrel.Ui.Hosts.{
  id_of, HostDraft, Connections, store_host, save_host_draft, host_from_draft, draft_error,
}

abbrev pub has_id : Text → Host → Bool
has_id id h = h.id == id

-- Put in the place of the first host that passes a test which the new one passes too.
module _ (p : Host → Bool) (y : Host) where
  find-update_first :
      (hosts : List Host)
      → any p hosts ≡ true
      → p y ≡ true
      → find p (update_first p (λ h. y) hosts) ≡ some y
  unfolding find any update_first
  find-update_first [] h e = ground arith
  find-update_first (x ∷ hosts) h e = ground (arith, find-update_first hosts)

  find-snoc :
      (hosts : List Host) → any p hosts ≡ false → p y ≡ true → find p (hosts ++ y ∷ []) ≡ some y
  unfolding find any
  find-snoc [] h e = rw e refl
  find-snoc (x ∷ hosts) h e = ground (arith, find-snoc hosts)

  others-update_first :
      (hosts : List Host)
      → p y ≡ true
      → filter (λ h. not (p h)) (update_first p (λ h. y) hosts) ≡ filter (λ h. not (p h)) hosts
  unfolding filter update_first
  others-update_first [] e = refl
  others-update_first (x ∷ hosts) e = elim (Bool-cases (p x)) [
    | inl same ↦ ground arith
    | inr other ↦ rw (other, filter, other) (ap (◌∷◌ x) (others-update_first hosts e))
  ]

  others-snoc :
      (hosts : List Host)
      → p y ≡ true
      → filter (λ h. not (p h)) (hosts ++ y ∷ []) ≡ filter (λ h. not (p h)) hosts
  unfolding filter
  others-snoc [] e = rw e refl
  others-snoc (x ∷ hosts) e = elim (Bool-cases (p x)) [
    | inl same ↦ rw (same, filter) (others-snoc hosts e)
    | inr other ↦ rw (other, filter) (ap (◌∷◌ x) (others-snoc hosts e))
  ]

  length-snoc : (hosts : List Host) → length (hosts ++ y ∷ []) ≡ suc (length hosts)
  length-snoc [] = refl
  length-snoc (x ∷ hosts) = ap suc (length-snoc hosts)

-- What holds of the hosts after `h` was stored.
pub record IsStored (h : Host) (before after : List Host) : Type 0 where
  pub stored : find (has_id h.id) after ≡ some h
  pub others : filter (λ x. not (has_id h.id x)) after ≡ filter (λ x. not (has_id h.id x)) before
  pub count :
      length after ≡ (if any (has_id h.id) before then length before else suc (length before))

store_host-IsStored : (h : Host) (hosts : List Host) → IsStored h hosts (store_host h hosts)
unfolding store_host
store_host-IsStored h hosts =
    let own : has_id h.id h ≡ true = text_beq_refl h.id in
    elim (Bool-cases (any (has_id h.id) hosts)) [
      | inl e ↦ rw e (record {
        stored = find-update_first (has_id h.id) h hosts e own;
        others = others-update_first (has_id h.id) h hosts own;
        count = rw e (length-update_first (has_id h.id) (λ x. h) hosts);
      })
      | inr e ↦ rw e (record {
        stored = find-snoc (has_id h.id) h hosts e own;
        others = others-snoc (has_id h.id) h hosts own;
        count = rw e (length-snoc (has_id h.id) h hosts);
      })
    ]

-- A form with a name, an address and a port that can be read is saved: the first host with the id of
-- the form is then the one the form describes, the hosts with other ids are as they were and in
-- their order, there is one host more exactly where no host had the id, and the dialog is closed.
pub save_host_draft-IsStored :
    (to_lowercase : Text → Text) (now : ℤ) (draft : HostDraft) (s : Connections)
    → draft_error to_lowercase draft ≡ none
    → let (answer, after) = save_host_draft to_lowercase now draft s in
      (answer ≡ none)
      × (after.dialog ≡ none)
      × IsStored (host_from_draft to_lowercase draft) s.hosts after.hosts
unfolding save_host_draft
save_host_draft-IsStored to_lowercase now draft s h =
    rw (save_host_draft, h)
      (refl, refl, store_host-IsStored (host_from_draft to_lowercase draft) s.hosts)

any-stored :
    (h : Host) (before after : List Host) → IsStored h before after → any (has_id h.id) after ≡ true
any-stored h before after v = elim (Bool-cases (any (has_id h.id) after)) [
  | inl e ↦ e
  | inr e ↦ let missing = find-eq-none (has_id h.id) after e in let there = v.stored in cc
]

module _ (to_lowercase : Text → Text) (now : ℤ) (first second : HostDraft) (s : Connections) where
  same_id :
      first.editing_id ≡ none
      → second.editing_id ≡ none
      → trim first.name ≡ trim second.name
      → (host_from_draft to_lowercase first).id ≡ (host_from_draft to_lowercase second).id
  unfolding host_from_draft id_of
  same_id e f name = rw (e, f, name) refl

  -- When the forms of two new hosts with the same name are saved one after the other, the second
  -- host takes the place of the first, whatever their addresses are: there are no more hosts than before.
  pub save_host_draft_same_name :
      first.editing_id ≡ none
      → second.editing_id ≡ none
      → trim first.name ≡ trim second.name
      → draft_error to_lowercase first ≡ none
      → draft_error to_lowercase second ≡ none
      → let between = (save_host_draft to_lowercase now first s).1 in
        let after = (save_host_draft to_lowercase now second between).1 in
        (length after.hosts ≡ length between.hosts)
        × (find (has_id (host_from_draft to_lowercase first).id) after.hosts
            ≡ some (host_from_draft to_lowercase second))
  save_host_draft_same_name e f name v w =
      let id = same_id e f name in
      let one = (save_host_draft-IsStored to_lowercase now first s v).2 in
      let between = (save_host_draft to_lowercase now first s).1 in
      let two = (save_host_draft-IsStored to_lowercase now second between w).2 in
      let there = subst (λ i. any (has_id i) between.hosts ≡ true) id (any-stored _ _ _ one) in
      (
        two.count ∙ ap (λ b. if b then length between.hosts else suc (length between.hosts)) there,
        rw id two.stored,
      )
