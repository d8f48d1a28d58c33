-- ===== src/Samples/Forms.antt =====
-- Forms of hosts.
use m_kestrel.Prelude.{
  pos, [], ◌∷◌, none, some, codes, ◌≡◌, refl, arith, length, find, trim, parse_u64,
}
use m_kestrel.Core.Host.{Host}
use m_kestrel.Samples.{nas}
use m_kestrel.Ui.Hosts.{
  HostDraft, Connections, new_draft, from_host, host_from_draft, draft_error, save_host_draft,
}
use m_kestrel.Ui.Hosts.Editing.{edited, host_from_draft-from_host}
use m_kestrel.Ui.Hosts.Saving.{
  IsStored, has_id, save_host_draft-IsStored, save_host_draft_same_name,
}

abbrev box : Host
box = record nas {
  port = 22;
  user = codes "root";
  address = codes "box.lan";
  initial_path = codes "/";
}

host_from_draft-from_host_example : host_from_draft (λ t. t) (from_host box) ≡ edited box
unfolding trim
host_from_draft-from_host_example =
    host_from_draft-from_host (λ t. t) box
      (record {
        name = refl;
        group = refl;
        address = refl;
        user = refl;
        initial_path = refl;
        port_low = refl;
        port_high = omega arith;
      })

abbrev connections : Connections
connections = record { hosts = nas ∷ []; vault = []; known_hosts = []; dialog = none }

save_host_draft-IsStored_example :
    let (answer, after) = save_host_draft (λ t. t) (pos 1) new_draft connections in
    (answer ≡ none)
    × (after.dialog ≡ none)
    × IsStored (host_from_draft (λ t. t) new_draft) connections.hosts after.hosts
unfolding draft_error trim parse_u64
save_host_draft-IsStored_example =
    save_host_draft-IsStored (λ t. t) (pos 1) new_draft connections refl

abbrev elsewhere : HostDraft
elsewhere = record new_draft { address = codes "10.0.0.2" }

save_host_draft_same_name_example :
    let between = (save_host_draft (λ t. t) (pos 1) new_draft connections).1 in
    let after = (save_host_draft (λ t. t) (pos 1) elsewhere between).1 in
    (length after.hosts ≡ length between.hosts)
    × (find (has_id (host_from_draft (λ t. t) new_draft).id) after.hosts
        ≡ some (host_from_draft (λ t. t) elsewhere))
unfolding draft_error trim parse_u64
save_host_draft_same_name_example =
    save_host_draft_same_name (λ t. t) (pos 1) new_draft elsewhere connections refl refl refl refl
      refl
