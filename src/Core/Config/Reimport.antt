-- ===== src/Core/Config/Reimport.antt =====
-- crates/mk-core/src/config.rs: importing the bundle that a device has exported itself.
use mathlib.Core.List.{map-append}
use m_kestrel.Prelude.{
  ℕ, ◌+◌, ℤ, Bool, true, false, List, [], ◌∷◌, ◌++◌, map, ◌≡◌, refl, ap, subst, ◌∙◌, sym, arith,
  any, any-append, update_first, length, All, All-append, text_beq_iff, append_assoc, append-nil,
  trim,
}
use m_kestrel.Core.Host.{Host}
use m_kestrel.Core.Credentials.{KnownHost}
use m_kestrel.Core.Recent.{normalize_path}
use m_kestrel.Core.Bookmark.{Bookmark, is_at}
use m_kestrel.Core.Bookmark
use m_kestrel.Core.Config.{
  Live, portable_host, from_parts, same_endpoint, is_same_host, overwrite, merge_host, merge_hosts,
  is_same_key, merge_known_host, merge_known_hosts, merge_bookmark, merge_bookmarks, merge_import,
}

-- All that the import of its own record changes in a host.
abbrev pub mark_real : Host → Host
mark_real h = record h { is_real = true }

-- No host is taken for an earlier one, by its id or by its endpoint.
abbrev pub Apart : List Host → Type 0
Apart [] = Unit {0}
Apart (h ∷ hs) = All (λ k. is_same_host k h ≡ false) hs × Apart hs

abbrev Clear : List Host → List Host → Type 0
Clear front hs = All (λ k. All (λ d. is_same_host k d ≡ false) front) hs

same_self : (h : Host) → is_same_host (portable_host (portable_host h)) h ≡ true
unfolding portable_host
same_self h = ground (arith, text_beq_iff h.id h.id)

skip_front :
    (k h : Host) (front back : List Host)
    → All (λ d. is_same_host k d ≡ false) front
    → is_same_host (portable_host (portable_host k)) h ≡ true
    → update_first
        (is_same_host (portable_host (portable_host k)))
        (overwrite (portable_host (portable_host k)))
        (map mark_real front ++ h ∷ back)
      ≡ map mark_real front ++ overwrite (portable_host (portable_host k)) h ∷ back
unfolding update_first portable_host same_endpoint
skip_front k h [] back clear here = rw (here, update_first)
skip_front k h (d ∷ front) back clear here =
    rw (clear.0, update_first) (ap (◌∷◌ (mark_real d)) (skip_front k h front back clear.1 here))

found_behind :
    (k h : Host) (front back : List Host)
    → is_same_host (portable_host (portable_host k)) h ≡ true
    → any (is_same_host (portable_host (portable_host k))) (map mark_real front ++ h ∷ back) ≡ true
unfolding any
found_behind k h front back here =
    rw
      (any-append (is_same_host (portable_host (portable_host k))) (map mark_real front) (h ∷ back))
      (ground arith)

Clear-nil : (hs : List Host) → Clear [] hs
Clear-nil [] = tt
Clear-nil (h ∷ hs) = (tt, Clear-nil hs)

Clear-snoc :
    (front hs : List Host) (h : Host)
    → Clear front hs
    → All (λ k. is_same_host k h ≡ false) hs
    → Clear (front ++ h ∷ []) hs
Clear-snoc front [] h c a = tt
Clear-snoc front (k ∷ hs) h c a =
    (All-append _ front (h ∷ []) c.0 (a.0, tt), Clear-snoc front hs h c.1 a.1)

merge_host_self :
    (front hs : List Host) (h : Host) (added updated : ℕ)
    → All (λ d. is_same_host h d ≡ false) front
    → merge_host
        (record { hosts = map mark_real front ++ h ∷ hs; added = added; updated = updated })
        (portable_host (portable_host h))
      ≡ record {
        hosts = map mark_real (front ++ h ∷ []) ++ hs;
        added = added;
        updated = updated + 1;
      }
unfolding merge_host portable_host
merge_host_self front hs h added updated c =
    rw (found_behind h h front hs (same_self h), merge_host)
      (ap (λ t. record { hosts = t; added = added; updated = updated + 1 })
        (skip_front h h front hs c (same_self h)
          ∙ sym (append_assoc (map mark_real front) (mark_real h ∷ []) hs)
          ∙ ap (λ t. t ++ hs) (sym (map-append mark_real front (h ∷ [])))))

merge_hosts_self :
    (front hs : List Host) (added updated : ℕ)
    → Clear front hs
    → Apart hs
    → merge_hosts
        (record { hosts = map mark_real front ++ hs; added = added; updated = updated })
        (map portable_host hs)
      ≡ record { hosts = map mark_real (front ++ hs); added = added; updated = updated + length hs }
unfolding merge_hosts
merge_hosts_self front [] added updated c a =
    rw (append-nil (map mark_real front), append-nil front)
      (ap (λ n. record { hosts = map mark_real front; added = added; updated = n }) (omega arith))
merge_hosts_self front (h ∷ hs) added updated c a =
    ap (λ m. merge_hosts m (map portable_host hs)) (merge_host_self front hs h added updated c.0)
    ∙ merge_hosts_self (front ++ h ∷ []) hs added (updated + 1) (Clear-snoc front hs h c.1 a.0) a.1
    ∙ ap (λ t. record { hosts = map mark_real t; added = added; updated = updated + 1 + length hs })
        (append_assoc front (h ∷ []) hs)
    ∙ ap (λ n. record { hosts = map mark_real (front ++ h ∷ hs); added = added; updated = n })
        (omega arith)

-- Each member of a list finds itself in it.
any_self {ℓ} :
    {A : Type ℓ} (q : A → A → Bool) (front l : List A)
    → ((a : A) → q a a ≡ true)
    → All (λ a. any (q a) (front ++ l) ≡ true) l
any_self q front [] r = tt
any_self q front (a ∷ l) r = (
  rw (any-append (q a) front (a ∷ l)) (unfold any in ground (arith, r a)),
  subst (λ t. All (λ b. any (q b) t ≡ true) l) (append_assoc front (a ∷ []) l)
      (any_self q (front ++ a ∷ []) l r),
)

merge_known_hosts-All :
    (known : List KnownHost) (added : ℕ) (khs : List KnownHost)
    → All (λ kh. any (is_same_key kh) known ≡ true) khs
    → merge_known_hosts (known, added) khs ≡ (known, added)
unfolding merge_known_hosts merge_known_host
merge_known_hosts-All known added [] h = refl
merge_known_hosts-All known added (kh ∷ khs) h = rw h.0 (merge_known_hosts-All known added khs h.1)

same_key_self : (kh : KnownHost) → is_same_key kh kh ≡ true
same_key_self kh =
    ground (arith, text_beq_iff kh.host kh.host, text_beq_iff kh.fingerprint kh.fingerprint)

-- A bookmark as `add` stores it: neither its host nor its path would be changed again.
abbrev pub IsClean : Bookmark → Type 0
IsClean b = (trim b.host_id ≡ b.host_id) × (normalize_path b.path ≡ b.path)

add_known :
    (l : List Bookmark) (b : Bookmark)
    → IsClean b
    → any (is_at b.host_id b.path) l ≡ true
    → Bookmark.add l b.host_id b.path b.kind b.added_at ≡ (l, false)
unfolding Bookmark.add Bookmark.contains
add_known l b clean h = rw (clean.0, clean.1, clean.1, h) (ground arith)

merge_bookmarks-All :
    (l : List Bookmark) (added : ℕ) (bs : List Bookmark)
    → All IsClean bs
    → All (λ b. any (is_at b.host_id b.path) l ≡ true) bs
    → merge_bookmarks (l, added) bs ≡ (l, added)
unfolding merge_bookmarks merge_bookmark
merge_bookmarks-All l added [] c h = refl
merge_bookmarks-All l added (b ∷ bs) c h =
    rw (add_known l b c.0 h.0) (merge_bookmarks-All l added bs c.1 h.1)

is_at_self : (b : Bookmark) → is_at b.host_id b.path b ≡ true
is_at_self b = ground (arith, text_beq_iff b.host_id b.host_id, text_beq_iff b.path b.path)

-- A device that imports its own export, with hosts that are told apart by id and endpoint and with
-- bookmarks in their stored form, adds nothing: each host is updated to itself and marked real, and
-- settings, known hosts and bookmarks stay as they are.
pub merge_import-from_parts :
    (live : Live) (now : ℤ)
    → Apart live.hosts
    → All IsClean live.bookmarks
    → merge_import live (from_parts live.hosts live.settings live.known_hosts live.bookmarks now)
      ≡ (
        record live { hosts = map mark_real live.hosts },
        record {
          hosts_added = 0;
          hosts_updated = length live.hosts;
          known_hosts_added = 0;
          bookmarks_added = 0;
        },
      )
unfolding merge_import from_parts
merge_import-from_parts live now apart clean =
    rw
      (
        merge_hosts_self [] live.hosts 0 0 (Clear-nil live.hosts) apart,
        merge_known_hosts-All live.known_hosts 0 live.known_hosts
            (any_self is_same_key [] live.known_hosts same_key_self),
        merge_bookmarks-All live.bookmarks 0 live.bookmarks clean
            (any_self (λ b. is_at b.host_id b.path) [] live.bookmarks is_at_self),
      )
      (ground arith)
