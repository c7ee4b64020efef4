-- ===== src/Provider/Files.antt =====
-- What the program relies on in the file operations of the host, as documented: a file that was
-- written without an error holds what was written.
use desktop_hypervisor_mcp.Base.{◌≡◌}
use desktop_hypervisor_mcp.Base.Text.{Text}
use desktop_hypervisor_mcp.Provider.Errors.{ok}
use desktop_hypervisor_mcp.Provider.Host.{Host}

pub record IsFaithful (H : Host) : Type 0 where
  pub read-write :
      (path content : Text) (s t : H.State)
      → H.write_file path content s ≡ (ok tt, t)
      → H.read_file t path ≡ ok content
