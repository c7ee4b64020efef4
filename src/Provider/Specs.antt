-- ===== src/Provider/Specs.antt =====
-- The plain types of provider/ops.go.
use desktop_hypervisor_mcp.Base.{Bool, if◌then◌else◌}
use desktop_hypervisor_mcp.Base.Int.{ℤ, is_zero}
use desktop_hypervisor_mcp.Base.Text.{Text}

pub record VmRef : Type 0 where
  pub name : Text
  pub path : Text
  pub state : Text

pub record CreateSpec : Type 0 where
  pub name : Text
  pub cpus : ℤ
  pub memory_mb : ℤ
  pub disk_gb : ℤ
  pub guest_os : Text
  pub firmware : Text
  pub nested_virt : Bool

pub record CloneSpec : Type 0 where
  pub source : Text
  pub dest : Text
  pub snapshot : Text
  pub linked : Bool

-- `orInt`, which both adapters have.
unfoldable pub or_int : ℤ → ℤ → ℤ
or_int v default = if is_zero v then default else v
