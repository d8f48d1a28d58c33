-- ===== src/Core/Config/Merge.antt =====
-- crates/mk-core/src/config.rs: what `merge_import` counts and what it keeps.
use m_kestrel.Prelude.{
  ℕ, ◌+◌, ℤ, Bool, true, List, [], ◌∷◌, ◌++◌, map, Option, Text, ◌≡◌, refl, ap, ◌∙◌, inl, inr, sym,
  arith, Bool-cases, any, any-append, update_first, length, length-append, length-update_first,
  text_beq_iff, append_assoc, append-nil, All,
}
use mathlib.Core.List.{map-append}
use m_kestrel.Core.Host.{Host, HostStatus}
use m_kestrel.Core.Credentials.{KnownHost}
use m_kestrel.Core.Config.{
  ConfigBundle, Live, MergedHosts, portable_host, is_same_host, overwrite, merge_host, merge_hosts,
  is_same_key, merge_known_host, merge_known_hosts, merge_import,
}

-- What belongs to the running connection of a host, and its id.
pub record Runtime : Type 0 where
  pub id : Text
  pub status : HostStatus
  pub free_bytes : Option ℕ
  pub rtt_ms : Option ℕ
  pub mounted_at : Option ℤ
  pub retrans : ℕ

abbrev pub runtime : Host → Runtime
runtime h = record {
  id = h.id;
  status = h.status;
  free_bytes = h.free_bytes;
  rtt_ms = h.rtt_ms;
  mounted_at = h.mounted_at;
  retrans = h.retrans;
}

update_first-runtime :
    (p : Host → Bool) (inc : Host) (hs : List Host)
    → map runtime (update_first p (overwrite inc) hs) ≡ map runtime hs
unfolding update_first
update_first-runtime p inc [] = refl
update_first-runtime p inc (h ∷ hs) = ground (arith, update_first-runtime p inc hs)

-- After `seen` hosts of the bundle: each was added or updated, and the old hosts stand in front with
-- their ids and connection states.
pub record Progress (old : List Host) (seen : ℕ) (m : MergedHosts) : Type 0 where
  pub counted : m.added + m.updated ≡ seen
  pub grown : length m.hosts ≡ length old + m.added
  pub kept : (more : List Runtime) × (map runtime m.hosts ≡ map runtime old ++ more)

merge_host-Progress :
    (old : List Host) (seen : ℕ) (m : MergedHosts) (inc : Host)
    → Progress old seen m
    → Progress old (seen + 1) (merge_host m inc)
unfolding merge_host
merge_host-Progress old seen m inc p = elim (Bool-cases (any (is_same_host inc) m.hosts)) [
  | inl e ↦
      rw (e, merge_host)
        (record {
          counted = omega (arith, p.counted);
          grown = length-update_first _ _ m.hosts ∙ p.grown;
          kept = (p.kept.0, update_first-runtime (is_same_host inc) inc m.hosts ∙ p.kept.1);
        })
  | inr e ↦
      rw (e, merge_host)
        (record {
          counted = omega (arith, p.counted);
          grown = omega (arith, length-append m.hosts (inc ∷ []), p.grown);
          kept = (
            p.kept.0 ++ runtime inc ∷ [],
            map-append runtime m.hosts (inc ∷ [])
                ∙ ap (λ t. t ++ runtime inc ∷ []) p.kept.1
                ∙ append_assoc (map runtime old) p.kept.0 (runtime inc ∷ []),
          );
        })
]

merge_hosts-Progress :
    (old : List Host) (seen : ℕ) (m : MergedHosts) (hs : List Host)
    → Progress old seen m
    → Progress old (seen + length hs) (merge_hosts m hs)
unfolding merge_hosts
merge_hosts-Progress old seen m [] p = record {
  counted = omega (arith, p.counted);
  grown = p.grown;
  kept = p.kept;
}
merge_hosts-Progress old seen m (h ∷ hs) p =
    let q =
      merge_hosts-Progress old (seen + 1) (merge_host m (portable_host h)) hs
        (merge_host-Progress old seen m (portable_host h) p) in
    record { counted = omega (arith, q.counted); grown = q.grown; kept = q.kept }

-- An import counts every host of the bundle once, as added or as updated. The list grows by the
-- added ones; the hosts that were there keep their places, ids and connection states.
pub merge_import-hosts :
    (live : Live) (bundle : ConfigBundle)
    → let (after, result) = merge_import live bundle in
      (result.hosts_added + result.hosts_updated ≡ length bundle.hosts)
      × (length after.hosts ≡ length live.hosts + result.hosts_added)
      × ((more : List Runtime) × (map runtime after.hosts ≡ map runtime live.hosts ++ more))
unfolding merge_import
merge_import-hosts live bundle =
    let p =
      merge_hosts-Progress live.hosts 0 (record { hosts = live.hosts; added = 0; updated = 0 })
        bundle.hosts
        (record { counted = refl; grown = omega arith; kept = ([], sym (append-nil _)) }) in
    (omega (arith, p.counted), p.grown, p.kept)

-- The known hosts so far are the old ones with `added` new ones behind them.
abbrev IsGrown : List KnownHost → List KnownHost × ℕ → Type 0
IsGrown old m = (more : List KnownHost) × (m.0 ≡ old ++ more) × (length more ≡ m.1)

merge_known_host-IsGrown :
    (old : List KnownHost) (m : List KnownHost × ℕ) (kh : KnownHost)
    → IsGrown old m
    → IsGrown old (merge_known_host m kh)
unfolding merge_known_host
merge_known_host-IsGrown old (known, added) kh (more, e, n) =
    elim (Bool-cases (any (is_same_key kh) known)) [
      | inl has ↦ rw (has, merge_known_host) (more, e, n)
      | inr new ↦
          rw (new, merge_known_host)
            (
              more ++ kh ∷ [],
              ap (λ t. t ++ kh ∷ []) e ∙ append_assoc old more (kh ∷ []),
              omega (arith, length-append more (kh ∷ []), n),
            )
    ]

abbrev Knows : List KnownHost → KnownHost → Type 0
Knows known kh = any (is_same_key kh) known ≡ true

merge_known_host-Knows_old :
    (m : List KnownHost × ℕ) (kh k : KnownHost) → Knows m.0 k → Knows (merge_known_host m kh).0 k
unfolding merge_known_host
merge_known_host-Knows_old (known, added) kh k h =
    ground (arith, any-append (is_same_key k) known (kh ∷ []))

merge_known_host-Knows :
    (m : List KnownHost × ℕ) (kh : KnownHost) → Knows (merge_known_host m kh).0 kh
unfolding merge_known_host any
merge_known_host-Knows (known, added) kh = ground (
  arith,
  any-append (is_same_key kh) known (kh ∷ []),
  text_beq_iff kh.host kh.host,
  text_beq_iff kh.fingerprint kh.fingerprint,
)

merge_known_hosts-Knows_old :
    (m : List KnownHost × ℕ) (khs : List KnownHost) (k : KnownHost)
    → Knows m.0 k
    → Knows (merge_known_hosts m khs).0 k
unfolding merge_known_hosts
merge_known_hosts-Knows_old m [] k h = h
merge_known_hosts-Knows_old m (kh ∷ khs) k h =
    merge_known_hosts-Knows_old (merge_known_host m kh) khs k (merge_known_host-Knows_old m kh k h)

merge_known_hosts-Knows :
    (m : List KnownHost × ℕ) (khs : List KnownHost) → All (Knows (merge_known_hosts m khs).0) khs
unfolding merge_known_hosts
merge_known_hosts-Knows m [] = tt
merge_known_hosts-Knows m (kh ∷ khs) = (
  merge_known_hosts-Knows_old (merge_known_host m kh) khs kh (merge_known_host-Knows m kh),
  merge_known_hosts-Knows (merge_known_host m kh) khs,
)

merge_known_hosts-IsGrown :
    (old : List KnownHost) (m : List KnownHost × ℕ) (khs : List KnownHost)
    → IsGrown old m
    → IsGrown old (merge_known_hosts m khs)
unfolding merge_known_hosts
merge_known_hosts-IsGrown old m [] g = g
merge_known_hosts-IsGrown old m (kh ∷ khs) g =
    merge_known_hosts-IsGrown old (merge_known_host m kh) khs (merge_known_host-IsGrown old m kh g)

-- An import drops no known host, appends as many as it reports, and afterwards knows the host and
-- fingerprint of every record of the bundle.
pub merge_import-known_hosts :
    (live : Live) (bundle : ConfigBundle)
    → let (after, result) = merge_import live bundle in
      ((more : List KnownHost) × (after.known_hosts ≡ live.known_hosts ++ more)
        × (length more ≡ result.known_hosts_added))
      × All (λ kh. any (is_same_key kh) after.known_hosts ≡ true) bundle.known_hosts
unfolding merge_import
merge_import-known_hosts live bundle = (
  merge_known_hosts-IsGrown live.known_hosts (live.known_hosts, 0) bundle.known_hosts
      ([], sym (append-nil live.known_hosts), refl),
  merge_known_hosts-Knows (live.known_hosts, 0) bundle.known_hosts,
)
