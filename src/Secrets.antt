-- ===== src/Secrets.antt =====
-- crates/mk-secrets/src/lib.rs: secret stores. The three families of methods of `SecretStore` (for
-- passwords, key passphrases and key paths) are one family here, with the kind as an argument. A hash
-- map is the list of its entries, one for each key; times are in nanoseconds.
pub mod Stale
use m_kestrel.Prelude.{
  ℕ, ◌-◌, Bool, true, false, not, List, [], ◌∷◌, ◌++◌, Option, none, some, Text, codes,
  if◌then◌else◌, ◌==◌, text_eq, ltb, filter, Result, ok, err, Table, lookup, erase, enter,
}

pub data SecretError : Type 0 where
  keyring : Text → SecretError
  not_found : SecretError
  io : Text → SecretError

pub data SecretKind : Type 0 where
  password key_passphrase key_path : SecretKind

-- A call may fail, and may have changed the store although it does.
pub record SecretStore (S : Type 0) : Type 1 where
  pub get_secret : SecretKind → S → Text → Result (Option Text) SecretError
  pub set_secret : SecretKind → S → Text → Text → Result (Unit {0}) SecretError × S
  pub delete_secret : SecretKind → S → Text → Result (Unit {0}) SecretError × S

-- The payload of the memory and the file store.
pub record Tables : Type 0 where
  pub passwords : Table Text
  pub passphrases : Table Text
  pub key_paths : Table Text

unfoldable pub table_of : SecretKind → Tables → Table Text
table_of password t = t.passwords
table_of key_passphrase t = t.passphrases
table_of key_path t = t.key_paths

unfoldable pub put_table : SecretKind → Table Text → Tables → Tables
put_table password t s = record s { passwords = t }
put_table key_passphrase t s = record s { passphrases = t }
put_table key_path t s = record s { key_paths = t }

unfoldable pub memory_store : SecretStore Tables
unfolding table_of put_table lookup enter
memory_store = record {
  get_secret = λ kind s id. ok (lookup id (table_of kind s));
  set_secret = λ kind s id value. (ok tt, put_table kind (enter id value (table_of kind s)) s);
  delete_secret = λ kind s id. (ok tt, put_table kind (erase id (table_of kind s)) s);
}

-- The file store: the tables in memory, and those that the file holds.
pub record FileStore : Type 0 where
  pub tables : Tables
  pub written : Option Tables

-- `persist`; `fails` is the error of the environment, if there is one.
unfoldable pub persist :
    Option Text → Tables → FileStore → Result (Unit {0}) SecretError × FileStore
persist none tables s = (ok tt, record { tables = tables; written = some tables })
persist (some e) tables s = (err (io e), record s { tables = tables })

unfoldable pub file_store : Option Text → SecretStore FileStore
unfolding table_of put_table lookup enter persist
file_store fails = record {
  get_secret = λ kind s id. ok (lookup id (table_of kind s.tables));
  set_secret = λ kind s id value.
      persist fails (put_table kind (enter id value (table_of kind s.tables)) s.tables) s;
  delete_secret =
      λ kind s id. persist fails (put_table kind (erase id (table_of kind s.tables)) s.tables) s;
}

pub record CachedVault (S : Type 0) : Type 0 where
  pub inner : S
  pub ttl : ℕ
  pub cache : Table (Text × ℕ)

-- `format!("{kind}:{id}")`; key paths are not cached.
unfoldable pub cache_key : Text → Text → Text
cache_key kind id = kind ++ b':' ∷ id

unfoldable pub cache_kind : SecretKind → Option Text
cache_kind password = some (codes "pw")
cache_kind key_passphrase = some (codes "pp")
cache_kind key_path = none

module _ {S : Type 0} where
  unfoldable pub new_vault : S → ℕ → CachedVault S
  new_vault inner ttl = record { inner = inner; ttl = ttl; cache = [] }

  unfoldable pub set_ttl : ℕ → CachedVault S → CachedVault S
  set_ttl ttl v = v

  unfoldable pub cache_get : ℕ → Text → Text → CachedVault S → Option Text × CachedVault S
  unfolding cache_key lookup erase
  cache_get now kind id v = elim (lookup (cache_key kind id) v.cache) [
    | none ↦ (none, v)
    | some (value, at) ↦
        if ltb (now - at) v.ttl
        then (some value, v)
        else (none, record v { cache = erase (cache_key kind id) v.cache })
  ]

  unfoldable pub cache_put : ℕ → Text → Text → Text → CachedVault S → CachedVault S
  unfolding cache_key enter
  cache_put now kind id value v = record v {
    cache = enter (cache_key kind id) (value, now) v.cache;
  }

  unfoldable pub cache_del : Text → Text → CachedVault S → CachedVault S
  unfolding cache_key erase
  cache_del kind id v = record v { cache = erase (cache_key kind id) v.cache }

  -- What the inner store answers, put into the cache when it is there.
  unfoldable pub remember :
      ℕ
      → Text
      → Text
      → Result (Option Text) SecretError
      → CachedVault S
      → Result (Option Text) SecretError × CachedVault S
  unfolding cache_put
  remember now kind id (err e) v = (err e, v)
  remember now kind id (ok none) v = (ok none, v)
  remember now kind id (ok (some value)) v = (ok (some value), cache_put now kind id value v)

  module _ (store : SecretStore S) where
    unfoldable pub vault_get :
        ℕ → SecretKind → Text → CachedVault S → Result (Option Text) SecretError × CachedVault S
    unfolding cache_kind cache_get remember
    vault_get now kind id v = elim (cache_kind kind) [
      | none ↦ (store.get_secret kind v.inner id, v)
      | some name ↦
          let (hit, next) = cache_get now name id v in
          elim hit [
            | some value ↦ (ok (some value), next)
            | none ↦ remember now name id (store.get_secret kind next.inner id) next
          ]
    ]

    unfoldable pub vault_set :
        ℕ → SecretKind → Text → Text → CachedVault S → Result (Unit {0}) SecretError × CachedVault S
    unfolding cache_kind cache_put
    vault_set now kind id value v =
        let (result, inner) = store.set_secret kind v.inner id value in
        let after : CachedVault S = record v { inner = inner } in
        elim result [
          | err e ↦ (err e, after)
          | ok done ↦ elim (cache_kind kind) [
            | none ↦ (ok tt, after)
            | some name ↦ (ok tt, cache_put now name id value after)
          ]
        ]

    unfoldable pub vault_delete :
        SecretKind → Text → CachedVault S → Result (Unit {0}) SecretError × CachedVault S
    unfolding cache_kind cache_del
    vault_delete kind id v =
        let (result, inner) = store.delete_secret kind v.inner id in
        let after : CachedVault S = record v { inner = inner } in
        elim result [
          | err e ↦ (err e, after)
          | ok done ↦ elim (cache_kind kind) [
            | none ↦ (ok tt, after)
            | some name ↦ (ok tt, cache_del name id after)
          ]
        ]
