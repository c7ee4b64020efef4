-- ===== src/Provider/Host.antt =====
-- The host as the program sees it: the operating system, processes and files are what the program
-- calls and does not implement, so they are a record of operations on an unknown state. The process
-- environment and the account are fixed while the server runs.
use desktop_hypervisor_mcp.Base.{Bool, Option, List}
use desktop_hypervisor_mcp.Base.Text.{Text}
use desktop_hypervisor_mcp.Provider.Env.{User}
use desktop_hypervisor_mcp.Provider.Errors.{Error, Result, M}

-- What `exec.Cmd.Run` leaves: whether the deadline passed, the text of its error, and both streams.
pub record Process : Type 0 where
  pub timed_out : Bool
  pub failure : Option Text
  pub stdout : Text
  pub stderr : Text

pub record Host : Type 1 where
  pub State : Type 0
  pub goos : Text
  pub goarch : Text
  pub getenv : Text → Text
  pub environ : List Text
  pub current_user : Option User
  pub user_home : Result Text
  pub look_path : State → Text → Option Text
  pub run_process : Text → List Text → Option (List Text) → State → Process × State
  pub stat : State → Text → Option Error
  pub glob : State → Text → List Text
  pub read_file : State → Text → Result Text
  pub write_file : Text → Text → M State (Unit {0})
  pub mkdir_all : Text → M State (Unit {0})
  pub chmod : Text → M State (Unit {0})
  pub remove : Text → M State (Unit {0})
  pub remove_all : Text → State → State
  pub make_temp_dir : Text → M State Text
