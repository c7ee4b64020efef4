-- ===== src/VMware/Create/Tests.antt =====
-- `Create` on a host in memory.
use desktop_hypervisor_mcp.Base.{◌≡◌, refl, arith, false, []}
use desktop_hypervisor_mcp.Base.Int.{pos}
use desktop_hypervisor_mcp.Base.Text.{text, ◌==◌, split, join, has_prefix}
use desktop_hypervisor_mcp.Base.Text.Cut.{lacks→Lacks}
use desktop_hypervisor_mcp.FilePath.{join_path, clean, clean_parts, clean_onto, from_parts}
use desktop_hypervisor_mcp.Provider.RunCmd.{run_cmd}
use desktop_hypervisor_mcp.VMware.Run.{vm_bundle}
use desktop_hypervisor_mcp.VMware.Tools.{platform}
use desktop_hypervisor_mcp.Provider.Errors.{is_ok}
use desktop_hypervisor_mcp.Provider.Host.{Host}
use desktop_hypervisor_mcp.Provider.Memory.{memory_host, printed}
use desktop_hypervisor_mcp.Provider.Specs.{CreateSpec}
use desktop_hypervisor_mcp.VMware.Create.{create, create_disk}
use desktop_hypervisor_mcp.VMware.Create.Fails.{MakesNoVmx, create_fails}
use desktop_hypervisor_mcp.VMware.Tests.{here, disk}

-- The disk tool ends well, and there is the file of another VM, which can be read.
abbrev bare : Host
bare = memory_host (printed [])

abbrev spec : CreateSpec
spec = record {
  name = text "b";
  cpus = pos 0;
  memory_mb = pos 0;
  disk_gb = pos 0;
  guest_os = [];
  firmware = [];
  nested_virt = false;
}

bare-MakesNoVmx : MakesNoVmx bare here spec disk
unfolding vm_bundle platform text ◌==◌ join_path clean clean_parts clean_onto from_parts split join
    has_prefix
bare-MakesNoVmx = record {
  read_missing = λ e plain h. refl;
  read-mkdir_all = refl;
  read_after_disk = λ u. unfold create_disk run_cmd in ground arith;
}

create_fails_example : is_ok (create bare here spec disk).0 ≡ false
unfolding text
create_fails_example =
    create_fails bare here spec disk bare-MakesNoVmx (lacks→Lacks b'/' spec.name refl)
