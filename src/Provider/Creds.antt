-- ===== src/Provider/Creds.antt =====
-- provider/ops.go: `GuestCreds` and `Unsupported`.
use desktop_hypervisor_mcp.Base.{Bool, ◌||◌}
use desktop_hypervisor_mcp.Base.Text.{Text, text, or_text, is_empty}

pub record Creds : Type 0 where
  pub user : Text
  pub pass : Text

-- `GuestCreds`
unfoldable pub guest_creds : (Text → Text) → Creds
guest_creds get = record {
  user = or_text (get (text "HV_GUEST_USER")) (get (text "VMRUN_GUEST_USER"));
  pass = or_text (get (text "HV_GUEST_PASSWORD")) (get (text "VMRUN_GUEST_PASSWORD"));
}

abbrev pub incomplete : Creds → Bool
incomplete c = is_empty c.user || is_empty c.pass

-- The error of guest operations without credentials, which both adapters have.
unfoldable pub creds_needed : Text
creds_needed =
    text
      "guest operations need HV_GUEST_USER and HV_GUEST_PASSWORD in the server environment — credentials are never tool parameters"
