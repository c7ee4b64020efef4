-- ===== src/Provider/Patterns.antt =====
-- What the program's regular expressions find: package regexp is what the code calls, so each match
-- is a parameter.
use desktop_hypervisor_mcp.Base.{Bool, Option, List}
use desktop_hypervisor_mcp.Base.Text.{Text}
use desktop_hypervisor_mcp.Provider.Host.{Process}

pub record Patterns : Type 0 where
  -- provider/vmware/detect.go: `versionRe`, in the streams of a process.
  pub vmrun_version : Process → Option Text
  -- provider/vmware/ops.go: `leaseBlockRe`, the address and the block; `subnetRe`.
  pub lease_blocks : Text → List (Text × Text)
  pub subnet_of : Text → Option Text
  -- provider/virtualbox/detect.go: `machineFolderRe`.
  pub machine_folder : Text → Option Text
  -- provider/virtualbox/ops.go: `vmLineRe`, the name and the id; `valueRe`, `macRe` and `leaseRe`.
  pub vm_lines : Text → List (Text × Text)
  pub value_of : Text → Option Text
  pub mac_in : Text → Option Text
  pub lease_of : Text → Option Text
  -- The names of the networks in a list of them, and whether one has the name.
  pub network_names : Text → List Text
  pub has_network : Text → Text → Bool
