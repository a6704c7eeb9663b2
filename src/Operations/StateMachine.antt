-- ===== src/Operations/StateMachine.antt =====
-- src-tauri/src/operations/state_machine.rs: which lifecycle transitions are allowed, and what a
-- restart does with an operation of an older runtime.
pub mod Graph
pub mod Walks
use Prim.Native.String.{String, ◌++◌}
use agent_db.Base.{Bool, true, false, if◌then◌else◌}
use agent_db.Operations.Model.{
  OperationState, OperationKind, is_terminal, is_resumable_job, may_mutate_target, state_eq,
}
use agent_db.Base.{◌==◌, not}

pub record TransitionError : Type 0 where
  pub from : OperationState
  pub to : OperationState

-- The name that `{:?}` prints.
debug_name : OperationState → String
debug_name OperationState.planned = "Planned"
debug_name OperationState.pending_approval = "PendingApproval"
debug_name OperationState.ready = "Ready"
debug_name OperationState.approved = "Approved"
debug_name OperationState.rejected = "Rejected"
debug_name OperationState.expired = "Expired"
debug_name OperationState.cancelled = "Cancelled"
debug_name OperationState.executing = "Executing"
debug_name OperationState.succeeded = "Succeeded"
debug_name OperationState.failed = "Failed"
debug_name OperationState.outcome_unknown = "OutcomeUnknown"

-- The text of the error.
unfoldable pub error_text : TransitionError → String
unfolding debug_name
error_text e = "operation cannot transition from " ++ debug_name e.from ++ " to " ++ debug_name e.to

pub data TransitionResult : Type 0 where
  ok : TransitionResult
  err : TransitionError → TransitionResult

pub data RestartRecovery : Type 0 where
  keep_terminal expire mark_failed outcome_unknown validate_job_checkpoint : RestartRecovery

-- The pairs of the `matches!`.
abbrev pub allowed : OperationState → OperationState → Bool
allowed OperationState.planned OperationState.pending_approval = true
allowed OperationState.planned OperationState.ready = true
allowed OperationState.planned OperationState.cancelled = true
allowed OperationState.planned OperationState.expired = true
allowed OperationState.pending_approval OperationState.approved = true
allowed OperationState.pending_approval OperationState.rejected = true
allowed OperationState.pending_approval OperationState.cancelled = true
allowed OperationState.pending_approval OperationState.expired = true
allowed OperationState.ready OperationState.executing = true
allowed OperationState.ready OperationState.cancelled = true
allowed OperationState.ready OperationState.expired = true
allowed OperationState.approved OperationState.executing = true
allowed OperationState.approved OperationState.cancelled = true
allowed OperationState.approved OperationState.expired = true
allowed OperationState.executing OperationState.succeeded = true
allowed OperationState.executing OperationState.failed = true
allowed OperationState.executing OperationState.cancelled = true
allowed OperationState.executing OperationState.outcome_unknown = true
allowed _ _ = false

unfoldable pub ensure_transition : OperationState → OperationState → TransitionResult
ensure_transition from to =
    if allowed from to
    then TransitionResult.ok
    else TransitionResult.err (record { from = from; to = to })

unfoldable pub restart_recovery : OperationKind → OperationState → RestartRecovery
restart_recovery kind state =
    if is_terminal state
    then RestartRecovery.keep_terminal
    else if not (state == OperationState.executing)
    then RestartRecovery.expire
    else if is_resumable_job kind
    then RestartRecovery.validate_job_checkpoint
    else if may_mutate_target kind
    then RestartRecovery.outcome_unknown
    else RestartRecovery.mark_failed
