-- ===== src/Server/Discover/Tests.antt =====
-- The providers of a host in memory on which both products are installed.
use desktop_hypervisor_mcp.Base.{◌≡◌, ◌≢◌, refl, []}
use desktop_hypervisor_mcp.Base.Text.{text}
use desktop_hypervisor_mcp.Provider.Creds.{guest_creds}
use desktop_hypervisor_mcp.Provider.Errors.{Error, err}
use desktop_hypervisor_mcp.Provider.Host.{Host}
use desktop_hypervisor_mcp.Provider.Memory.{Files, memory_host, printed, no_matches}
use desktop_hypervisor_mcp.Provider.Ops.{Ops}
use desktop_hypervisor_mcp.Server.Discover.{discover}
use desktop_hypervisor_mcp.Server.Inputs.{GuestIn}
use desktop_hypervisor_mcp.Server.Tools.{guest_tool}
use desktop_hypervisor_mcp.Server.Tools.NoCreds.{guest_tool-NotServed}
use desktop_hypervisor_mcp.VirtualBox.Adapter.{new_virtualbox}
use desktop_hypervisor_mcp.VirtualBox.Detect.{virtualbox_ready}

abbrev host : Host
host = memory_host (printed (text "a"))

abbrev boxes : Ops Files
boxes = new_virtualbox host no_matches (virtualbox_ready host no_matches (text "a") [])

abbrev copy_in : GuestIn
copy_in = record {
  action = text "copy_in";
  provider = text "virtualbox-local";
  vm = text "a";
  program = [];
  script = [];
  interp = [];
  args = [];
  src = text "x";
  dest = text "/y";
}

no_screenshot : text "copy_in" ≢ text "screenshot"
unfolding text
no_screenshot e = cc e

guest_tool-NotServed_example :
    (e : Error) × (guest_tool host no_matches copy_in [] ≡ (err e, (discover host no_matches []).1))
guest_tool-NotServed_example =
    guest_tool-NotServed host no_matches copy_in [] (unfold guest_creds in refl) no_screenshot
