-- ===== src/Server/Inputs.antt =====
-- main.go: the inputs of the tools. `Keys` is a list of the pairs in the order of the walk over the
-- map, and `Enabled` an option for the pointer.
use desktop_hypervisor_mcp.Base.{Bool, Option, List}
use desktop_hypervisor_mcp.Base.Int.{ℤ}
use desktop_hypervisor_mcp.Base.Text.{Text}

pub record ArtifactIn : Type 0 where
  pub action : Text
  pub provider : Text
  pub image : Text
  pub version : Text
  pub dry_run : Bool
  pub dir : Text

pub record LifecycleIn : Type 0 where
  pub action : Text
  pub provider : Text
  pub vm : Text
  pub cpus : ℤ
  pub memory_mb : ℤ
  pub disk_gb : ℤ
  pub guest_os : Text
  pub firmware : Text
  pub nested : Bool
  pub gui : Bool
  pub hard : Bool
  pub dest : Text
  pub snapshot : Text
  pub linked : Bool
  pub path : Text

pub record InfoIn : Type 0 where
  pub action : Text
  pub provider : Text
  pub vm : Text
  pub network : Text

pub record ConfigIn : Type 0 where
  pub action : Text
  pub provider : Text
  pub vm : Text
  pub cpus : ℤ
  pub memory_mb : ℤ
  pub enabled : Option Bool
  pub iso : Text
  pub slot : Text
  pub keys : List (Text × Text)

pub record SnapshotIn : Type 0 where
  pub action : Text
  pub provider : Text
  pub vm : Text
  pub name : Text
  pub tree : Bool
  pub children : Bool

pub record GuestIn : Type 0 where
  pub action : Text
  pub provider : Text
  pub vm : Text
  pub program : Text
  pub script : Text
  pub interp : Text
  pub args : List Text
  pub src : Text
  pub dest : Text

pub record NetworkIn : Type 0 where
  pub action : Text
  pub provider : Text
  pub name : Text
  pub cidr : Text
  pub proto : Text
  pub guest_ip : Text
  pub guest_port : ℤ
  pub host_port : ℤ
  pub src_dir : Text
  pub dest : Text
  pub label : Text
  pub iso : Text
  pub boot_args : Text
  pub grub_cfg : Text

pub record ExecIn : Type 0 where
  pub provider : Text
  pub args : List Text
