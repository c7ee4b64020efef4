-- ===== src/Server/Tests.antt =====
-- The choice of a provider at hosts with one and with two of them.
use desktop_hypervisor_mcp.Base.{true, [], ◌∷◌, ◌≡◌, ◌≢◌, ◌↔◌}
use desktop_hypervisor_mcp.Base.Text.{Text, text}
use desktop_hypervisor_mcp.Provider.Contract.{
  Kind, virtualbox, fusion, Status, ready, missing_tooling, Descriptor,
}
use desktop_hypervisor_mcp.Provider.Errors.{ok}
use desktop_hypervisor_mcp.Server.{ops, is_ready, select_ops}
use desktop_hypervisor_mcp.Server.Select.{IsSole, IsFirst, select_ops-auto, select_ops-named}

abbrev reported : Text → Kind → Status → Descriptor
reported id k s = record {
  id = id;
  kind = k;
  status = s;
  remediation = [];
  host_os = [];
  host_arch = [];
  version = [];
  guest_arches = [];
  formats = [];
  network_modes = [];
  capabilities = [];
  vm_dir = [];
}

abbrev vbox : Descriptor
vbox = reported (text "virtualbox") virtualbox missing_tooling

abbrev vmware : Descriptor
vmware = reported (text "fusion") fusion ready

select_ops-auto_example :
    (select_ops (vbox ∷ vmware ∷ []) [] ≡ ok (ops vmware))
    ↔ ((d : Descriptor) × IsSole d (vbox ∷ vmware ∷ []) × (ops vmware ≡ ops d))
select_ops-auto_example = select_ops-auto (vbox ∷ vmware ∷ []) (ops vmware)

named : text "fusion" ≢ []
unfolding text
named e = cc e

select_ops-named_example : (select_ops (vbox ∷ vmware ∷ []) (text "fusion") ≡ ok (ops vmware)) ↔ (
    (d : Descriptor) × IsFirst (text "fusion") d (vbox ∷ vmware ∷ [])
    × (is_ready d.status ≡ true)
    × (ops vmware ≡ ops d))
select_ops-named_example = select_ops-named (vbox ∷ vmware ∷ []) (text "fusion") (ops vmware) named
