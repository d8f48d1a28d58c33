-- ===== src/Ui/Hosts/Editing.antt =====
-- crates/mk-ui/src/store.rs: what `host_from_draft` makes of the form that `HostDraft::from_host` fills.
use m_kestrel.Prelude.{
  ltb, LastFails-last, eqb, ◌∷◌, subst, IsDigit, decimal-last, ℕ, ◌+◌, ◌%◌, ◌^◌, ◌<◌, [], true,
  false, none, some, Text, if◌then◌else◌, ◌≡◌, refl, ap, sym, ◌∙◌, All, trim, trim_none, HeadFails,
  LastFails, is_whitespace, decimal, decimal-IsDigit, parse_u64, parse_u64-decimal, arith,
}
use m_kestrel.Core.Host.{Host, HostStatus}
use m_kestrel.Ui.Hosts.{
  id_of, from_host, host_from_draft, parse_u16, port_of, is_file, is_key, or_else, default_key,
}

-- The texts have no space around them, and the protocol is one of the network, with a port.
pub record IsEditable (h : Host) : Type 0 where
  pub name : trim h.name ≡ h.name
  pub group : trim h.group ≡ h.group
  pub address : trim h.address ≡ h.address
  pub user : trim h.user ≡ h.user
  pub initial_path : trim h.initial_path ≡ h.initial_path
  pub port_low : is_file h.protocol ≡ false
  pub port_high : (0 < h.port) × (h.port < 2 ^ 16)

-- The host after an edit that changes nothing.
abbrev pub edited : Host → Host
edited h = record h {
  key_id = if is_key h.auth then some (or_else h.key_id default_key) else none;
  status = HostStatus.idle;
  free_bytes = none;
  rtt_ms = none;
  mounted_at = none;
  retrans = 0;
  is_real = true;
}

digit_ink : (c : ℕ) → IsDigit c → is_whitespace c ≡ false
unfolding is_whitespace
digit_ink c h = ground arith

digits-HeadFails : (s : Text) → All IsDigit s → HeadFails is_whitespace s
digits-HeadFails [] h = tt
digits-HeadFails (c ∷ s) h = digit_ink c h.0

trim-decimal : (n : ℕ) → trim (decimal n) ≡ decimal n
trim-decimal n =
    let (a, e) = decimal-last n in
    trim_none (decimal n) (digits-HeadFails (decimal n) (decimal-IsDigit n)) (
      subst (LastFails is_whitespace) (sym e)
        (LastFails-last is_whitespace a (b'0' + n % 10) (digit_ink _ (omega arith, omega arith))))

port_of_small : (s : Text) (n : ℕ) → parse_u64 (trim s) ≡ some n → n < 2 ^ 16 → port_of s ≡ n
unfolding port_of parse_u16
port_of_small s n e h =
    let fits : ltb n (2 ^ 16) ≡ true = ground (arith, h) in rw (e, port_of, parse_u16, fits) refl

port_of-decimal : (n : ℕ) → n < 2 ^ 16 → port_of (decimal n) ≡ n
port_of-decimal n h =
    port_of_small (decimal n) n (ap parse_u64 (trim-decimal n) ∙ parse_u64-decimal n (omega arith))
      h

-- The form of a network host with a port other than 0 and no space around its texts, saved as it
-- was filled in, gives the host back, as one that is real and not mounted; of its key only the choice is kept, or the default where none was made.
pub host_from_draft-from_host :
    (to_lowercase : Text → Text) (h : Host)
    → IsEditable h
    → host_from_draft to_lowercase (from_host h) ≡ edited h
unfolding host_from_draft from_host id_of
host_from_draft-from_host to_lowercase h v =
    let unnumbered : eqb h.port 0 ≡ false = ground (arith, v.port_high.0) in
    rw
      (
        v.name,
        v.group,
        v.address,
        v.user,
        v.initial_path,
        v.port_low,
        unnumbered,
        port_of-decimal h.port v.port_high.1,
      )
      refl
