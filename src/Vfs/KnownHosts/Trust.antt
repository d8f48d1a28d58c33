-- ===== src/Vfs/KnownHosts/Trust.antt =====
-- crates/mk-vfs/src/known_hosts.rs: which keys are trusted.
use m_kestrel.Prelude.{
  ap, ℕ, Bool, true, false, ◌&&◌, List, [], ◌∷◌, Text, ◌≡◌, ◌≢◌, ◌↔◌, ◌⊎◌, refl, ◌∙◌, sym, arith,
  inl, inr, if◌then◌else◌, Bool-cases, ◌==◌, text_eq, any, filter,
}
use m_kestrel.Vfs.HostPatterns.{Crypto}
use m_kestrel.Vfs.KnownHosts.{KnownHostResult, trusted, revoked, changed, KhEntry, KnownHostsStore}
use m_kestrel.Vfs.KnownHosts.Check.{names, is_revoked, ca_trusts, compare_key, check_fingerprint}

-- An entry of the host with that fingerprint.
abbrev pub vouches : Crypto → Text → ℕ → Text → KhEntry → Bool
vouches crypto host port fingerprint e = names crypto host port e && e.fingerprint == fingerprint

any-filter :
    {A : Type 0} (p q : A → Bool) (xs : List A) → any q (filter p xs) ≡ any (λ x. p x && q x) xs
unfolding any filter
any-filter p q [] = refl
any-filter p q (x ∷ xs) = ground (arith, any-filter p q xs)

if_trusted :
    (b : Bool) (r : KnownHostResult)
    → r ≢ trusted
    → ((if b then trusted else r) ≡ trusted) ↔ (b ≡ true)
if_trusted true r h = (λ e. refl, λ e. refl)
if_trusted false r h = (λ e. absurd (h e), λ e. cc)

compare_key-trusted :
    (es : List KhEntry) (fingerprint key_type : Text)
    → (compare_key es fingerprint key_type ≡ trusted)
      ↔ (any (λ k. k.fingerprint == fingerprint) es ≡ true)
unfolding compare_key any
compare_key-trusted [] fingerprint key_type = (λ h. cc, λ h. cc)
compare_key-trusted (e ∷ es) fingerprint key_type =
    if_trusted (any (λ k. k.fingerprint == fingerprint) (e ∷ es))
      (changed e.fingerprint fingerprint key_type) (λ h. cc)

-- A key is trusted exactly when no `@revoked` entry of the host names it and it is either a
-- certificate that an authority of the host vouches for or the key of one of the host's entries.
pub check_fingerprint-trusted :
    (crypto : Crypto) (s : KnownHostsStore) (host : Text) (port : ℕ) (fingerprint key_type : Text)
    → (check_fingerprint crypto s host port fingerprint key_type ≡ trusted) ↔ (
        (is_revoked crypto s host port fingerprint ≡ false)
        × ((ca_trusts crypto s host port key_type fingerprint ≡ true)
            ⊎ (any (vouches crypto host port fingerprint) s.entries ≡ true)))
unfolding check_fingerprint
check_fingerprint-trusted crypto s host port fingerprint key_type =
    let own = filter (names crypto host port) s.entries in
    let verdict = compare_key-trusted own fingerprint key_type in
    let same : any (λ k. k.fingerprint == fingerprint) own
        ≡ any (vouches crypto host port fingerprint) s.entries =
      any-filter (names crypto host port) (λ k. k.fingerprint == fingerprint) s.entries in
    elim (Bool-cases (is_revoked crypto s host port fingerprint)) [
      | inl bad ↦ rw (bad, check_fingerprint) (λ h. cc, λ h. cc)
      | inr good ↦ elim (Bool-cases (ca_trusts crypto s host port key_type fingerprint)) [
        | inl certified ↦ rw (good, check_fingerprint, certified) (λ h. (refl, inl refl), λ h. refl)
        | inr plain ↦
            rw (good, check_fingerprint, plain, ← same)
              (
                λ h. (refl, inr (verdict.0 h)),
                λ h. elim (h.1) [ inl e ↦ absurd (ground arith) | inr e ↦ verdict.1 e ],
              )
      ]
    ]

-- A key that an entry of the host vouches for is trusted unless it is revoked.
pub check_fingerprint-vouched :
    (crypto : Crypto) (s : KnownHostsStore) (host : Text) (port : ℕ) (fingerprint key_type : Text)
    → any (vouches crypto host port fingerprint) s.entries ≡ true
    → check_fingerprint crypto s host port fingerprint key_type
      ≡ (if is_revoked crypto s host port fingerprint then revoked fingerprint else trusted)
unfolding check_fingerprint
check_fingerprint-vouched crypto s host port fingerprint key_type there =
    elim (Bool-cases (is_revoked crypto s host port fingerprint)) [
      | inl bad ↦ rw (bad, check_fingerprint)
      | inr good ↦
          (check_fingerprint-trusted crypto s host port fingerprint key_type).1 (good, inr there)
          ∙ ap (λ b. if b then revoked fingerprint else trusted) (sym good)
    ]

-- Trust depends on three answers of the list only.
module _ (crypto : Crypto) (s t : KnownHostsStore) (host : Text) (port : ℕ)
    (fingerprint key_type : Text) where
  one_way :
      is_revoked crypto s host port fingerprint ≡ is_revoked crypto t host port fingerprint
      → ca_trusts crypto s host port key_type fingerprint
        ≡ ca_trusts crypto t host port key_type fingerprint
      → any (vouches crypto host port fingerprint) s.entries
        ≡ any (vouches crypto host port fingerprint) t.entries
      → check_fingerprint crypto s host port fingerprint key_type ≡ trusted
      → check_fingerprint crypto t host port fingerprint key_type ≡ trusted
  one_way r c v h =
      let (good, why) = (check_fingerprint-trusted crypto s host port fingerprint key_type).0 h in
      (check_fingerprint-trusted crypto t host port fingerprint key_type).1
        (sym r ∙ good, elim why [ inl e ↦ inl (sym c ∙ e) | inr e ↦ inr (sym v ∙ e) ])

pub same_trust :
    (crypto : Crypto) (s t : KnownHostsStore) (host : Text) (port : ℕ) (fingerprint key_type : Text)
    → is_revoked crypto s host port fingerprint ≡ is_revoked crypto t host port fingerprint
    → ca_trusts crypto s host port key_type fingerprint
      ≡ ca_trusts crypto t host port key_type fingerprint
    → any (vouches crypto host port fingerprint) s.entries
      ≡ any (vouches crypto host port fingerprint) t.entries
    → (check_fingerprint crypto s host port fingerprint key_type ≡ trusted)
      ↔ (check_fingerprint crypto t host port fingerprint key_type ≡ trusted)
same_trust crypto s t host port fingerprint key_type r c v = (
  one_way crypto s t host port fingerprint key_type r c v,
  one_way crypto t s host port fingerprint key_type (sym r) (sym c) (sym v),
)
