-- ===== src/Samples/Vault.antt =====
-- The vault in front of the memory store.
use m_kestrel.Prelude.{[], ◌∷◌, codes, ◌≡◌, refl}
use m_kestrel.Secrets.{CachedVault, Tables, memory_store, password, vault_delete, vault_get}
use m_kestrel.Secrets.Stale.{vault_get-delete}

-- A password that is cached and stored.
abbrev vault : CachedVault Tables
vault = record {
  inner = record { passwords = (codes "nas", codes "pw1") ∷ []; passphrases = []; key_paths = [] };
  ttl = 300;
  cache = (codes "pw:nas", (codes "pw1", 5)) ∷ [];
}

vault_get-delete_example :
    (vault_get memory_store 6 password
      (codes "nas")
      (vault_delete memory_store password (codes "nas") vault).1).0
    ≡ memory_store.get_secret password
        (memory_store.delete_secret password vault.inner (codes "nas")).1
        (codes "nas")
unfolding memory_store
vault_get-delete_example = vault_get-delete memory_store 6 password (codes "nas") vault refl
