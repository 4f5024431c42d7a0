-- ===== src/Error.antt =====
-- crates/carryctx-core/src/error.rs: the error type, its codes and exit codes. A constructor stands
-- for each function that makes an error and holds that function's arguments; what the function puts
-- into `code` and `exit_code` is computed from it. The rendered message, the details and the
-- suggestions are left out: they are text for people, made from the same arguments.
use carryctx.Base.{ℕ, String, Option}

pub data ExitCode : Type 0 where
  success general invalid_arguments_exit state_conflict_exit git database configuration : ExitCode
  resource_not_found_exit validation permission_scope_exit unsupported : ExitCode
  migration_required_exit interrupted_exit : ExitCode

-- `exit_code as i32`
unfoldable pub exit_number : ExitCode → ℕ
exit_number success = 0
exit_number general = 1
exit_number invalid_arguments_exit = 2
exit_number state_conflict_exit = 3
exit_number git = 4
exit_number database = 5
exit_number configuration = 6
exit_number resource_not_found_exit = 7
exit_number validation = 8
exit_number permission_scope_exit = 9
exit_number unsupported = 10
exit_number migration_required_exit = 11
exit_number interrupted_exit = 12

pub data CarryCtxError : Type 0 where
  permission_scope invalid_arguments state_conflict resource_not_found : String → CarryCtxError
  merge_conflicts : String → String → ℕ → CarryCtxError
  task_already_claimed task_not_owned : String → String → CarryCtxError
  role_mismatch : String → Option String → String → CarryCtxError
  single_active_task_violation : String → String → CarryCtxError
  migration_required : String → CarryCtxError
  dependency_cycle : CarryCtxError
  dependency_incomplete : String → CarryCtxError
  invalid_task_transition : String → String → CarryCtxError
  git_error database_error configuration_error io_error validation_error : String → CarryCtxError
  unsupported_operation : String → CarryCtxError
  interrupted : CarryCtxError

-- The field `code`.
unfoldable pub code : CarryCtxError → String
code (permission_scope _) = "PERMISSION_SCOPE"
code (invalid_arguments _) = "INVALID_ARGUMENTS"
code (state_conflict _) = "STATE_CONFLICT"
code (resource_not_found _) = "RESOURCE_NOT_FOUND"
code (merge_conflicts _ _ _) = "MERGE_CONFLICTS"
code (task_already_claimed _ _) = "TASK_ALREADY_CLAIMED"
code (task_not_owned _ _) = "TASK_NOT_OWNED"
code (role_mismatch _ _ _) = "ROLE_MISMATCH"
code (single_active_task_violation _ _) = "SINGLE_ACTIVE_TASK_VIOLATION"
code (migration_required _) = "MIGRATION_REQUIRED"
code dependency_cycle = "DEPENDENCY_CYCLE"
code (dependency_incomplete _) = "DEPENDENCY_INCOMPLETE"
code (invalid_task_transition _ _) = "INVALID_TASK_TRANSITION"
code (git_error _) = "GIT_ERROR"
code (database_error _) = "DATABASE_ERROR"
code (configuration_error _) = "CONFIGURATION_ERROR"
code (io_error _) = "IO_ERROR"
code (validation_error _) = "VALIDATION_FAILED"
code (unsupported_operation _) = "UNSUPPORTED_OPERATION"
code interrupted = "INTERRUPTED"

-- The field `exit_code`.
unfoldable pub exit_code : CarryCtxError → ExitCode
exit_code (permission_scope _) = permission_scope_exit
exit_code (invalid_arguments _) = invalid_arguments_exit
exit_code (state_conflict _) = state_conflict_exit
exit_code (resource_not_found _) = resource_not_found_exit
exit_code (merge_conflicts _ _ _) = state_conflict_exit
exit_code (task_already_claimed _ _) = state_conflict_exit
exit_code (task_not_owned _ _) = permission_scope_exit
exit_code (role_mismatch _ _ _) = permission_scope_exit
exit_code (single_active_task_violation _ _) = state_conflict_exit
exit_code (migration_required _) = migration_required_exit
exit_code dependency_cycle = state_conflict_exit
exit_code (dependency_incomplete _) = state_conflict_exit
exit_code (invalid_task_transition _ _) = state_conflict_exit
exit_code (git_error _) = git
exit_code (database_error _) = database
exit_code (configuration_error _) = configuration
exit_code (io_error _) = general
exit_code (validation_error _) = validation
exit_code (unsupported_operation _) = unsupported
exit_code interrupted = interrupted_exit
