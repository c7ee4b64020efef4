-- ===== src/Provider/RunCmd.antt =====
-- provider/runcmd.go: running a command of the host.
use desktop_hypervisor_mcp.Base.{none, some, List, ◌++◌, if◌then◌else◌}
use desktop_hypervisor_mcp.Base.Text.{Text, text, or_text, trim_space}
use desktop_hypervisor_mcp.FilePath.{base}
use desktop_hypervisor_mcp.Provider.Env.{child_env}
use desktop_hypervisor_mcp.Provider.Errors.{Result, ok, err, message, M}
use desktop_hypervisor_mcp.Provider.Host.{Process, Host}

-- What `RunCmd` returns for a process that has ended.
unfoldable pub outcome : Text → Process → Result Text
outcome name p =
    if p.timed_out then err (message (name ++ text " timed out after 10m0s")) else elim p.failure [
      | some e ↦ err (
          message (
            name
            ++ (text " failed: "
                ++ or_text (trim_space p.stderr) (or_text (trim_space p.stdout) e))))
      | none ↦ ok (or_text (trim_space p.stdout) (or_text (trim_space p.stderr) (text "(ok)")))
    ]

-- `RunCmd`
unfoldable pub run_cmd : (H : Host) → Text → List Text → M H.State Text
run_cmd H bin args s =
    let (p, s') = H.run_process bin args (child_env H.goos H.current_user H.environ) s in
    (outcome (base bin) p, s')
