-- ===== src/Process.antt =====
-- The subprocess port's values, drei/process.py. Launching a child is the port's; its answer is a
-- parameter of `run_process`.
use drei.Base.{Str, ℤ, List}
use drei.Files.{
  OsError, file_not_found, permission_error, other_os_error, ErrorToken, not_found,
  permission_denied, io_error, timeout,
}

pub record ProcessResult : Type 0 where
  pub argv : List Str
  pub exit_code : ℤ
  pub stdout : Str
  pub stderr : Str

pub data ProcessError : Type 0 where
  timed_out : ProcessError
  launch_error : OsError → ProcessError

unfoldable pub normalize_process_error : ProcessError → ErrorToken
normalize_process_error timed_out = timeout
normalize_process_error (launch_error file_not_found) = not_found
normalize_process_error (launch_error permission_error) = permission_denied
normalize_process_error (launch_error other_os_error) = io_error

-- What `ProcessPort.run` does: returns a result, or raises.
pub data RunResult : Type 0 where
  completed : ProcessResult → RunResult
  failed : ProcessError → RunResult
