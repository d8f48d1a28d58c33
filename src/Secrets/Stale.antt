-- ===== src/Secrets/Stale.antt =====
-- crates/mk-secrets/src/lib.rs: the cache serves no secret that was deleted.
use m_kestrel.Prelude.{
  ap, codes, ℕ, Option, none, some, Text, ◌≡◌, refl, ◌∙◌, text_eq, lookup-erase, Result, ok, err,
}
use m_kestrel.Secrets.{
  SecretError, SecretKind, SecretStore, CachedVault, cache_key, cache_kind, cache_get, cache_del,
  remember, vault_get, vault_delete, password, key_passphrase, key_path,
}

module _ {S : Type 0} (store : SecretStore S) where
  remember-result :
      (now : ℕ) (name id : Text) (got : Result (Option Text) SecretError) (v : CachedVault S)
      → (remember now name id got v).0 ≡ got
  unfolding remember
  remember-result now name id (err e) v = refl
  remember-result now name id (ok none) v = refl
  remember-result now name id (ok (some value)) v = refl

  cache_get-del :
      (now : ℕ) (name id : Text) (v : CachedVault S)
      → cache_get now name id (cache_del name id v) ≡ (none, cache_del name id v)
  unfolding cache_get cache_del
  cache_get-del now name id v = rw (cache_get, lookup-erase (cache_key name id) v.cache)

  same_inner :
      (kind : SecretKind) (name id : Text) (u : CachedVault S)
      → store.get_secret kind (cache_del name id u).inner id ≡ store.get_secret kind u.inner id
  unfolding cache_del
  same_inner kind name id u = refl

  ask_again :
      (now : ℕ) (kind : SecretKind) (name id : Text) (u : CachedVault S)
      → cache_kind kind ≡ some name
      → (vault_get store now kind id (cache_del name id u)).0 ≡ store.get_secret kind u.inner id
  unfolding vault_get
  ask_again now kind name id u cached =
      let asked = cache_get now name id (cache_del name id u) in
      rw (cached, vault_get, cache_get-del now name id u)
        (remember-result now name id (store.get_secret kind asked.1.inner id) asked.1
          ∙ ap (λ c. store.get_secret kind c.1.inner id) (cache_get-del now name id u)
          ∙ same_inner kind name id u)

  deleted :
      (kind : SecretKind) (name id : Text) (v : CachedVault S)
      → cache_kind kind ≡ some name
      → (store.delete_secret kind v.inner id).0 ≡ ok tt
      → (vault_delete store kind id v).1
        ≡ cache_del name id (record v { inner = (store.delete_secret kind v.inner id).1 })
  unfolding vault_delete
  deleted kind name id v cached done = rw (done, vault_delete, cached)

  forgotten :
      (now : ℕ) (kind : SecretKind) (name id : Text) (v : CachedVault S)
      → cache_kind kind ≡ some name
      → (store.delete_secret kind v.inner id).0 ≡ ok tt
      → (vault_get store now kind id (vault_delete store kind id v).1).0
        ≡ store.get_secret kind (store.delete_secret kind v.inner id).1 id
  forgotten now kind name id v cached done =
      ap (λ w. (vault_get store now kind id w).0) (deleted kind name id v cached done)
      ∙ ask_again now kind name id (record v { inner = (store.delete_secret kind v.inner id).1 })
          cached

  -- Once a secret was deleted, whatever was cached before, the vault answers what the store answers
  -- that it stands in front of.
  pub vault_get-delete :
      (now : ℕ) (kind : SecretKind) (id : Text) (v : CachedVault S)
      → (store.delete_secret kind v.inner id).0 ≡ ok tt
      → (vault_get store now kind id (vault_delete store kind id v).1).0
        ≡ store.get_secret kind (store.delete_secret kind v.inner id).1 id
  unfolding vault_get vault_delete cache_kind
  vault_get-delete now password id v done = forgotten now password (codes "pw") id v refl done
  vault_get-delete now key_passphrase id v done =
      forgotten now key_passphrase (codes "pp") id v refl done
  vault_get-delete now key_path id v done = rw (vault_delete, done)
