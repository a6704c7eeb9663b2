-- ===== src/Operations/Repository.antt =====
-- The lifecycle half of src-tauri/src/operations/repository.rs: reads, `transition_tx` and the
-- operations that end in it. `write_lock` makes the operations atomic, so each is a function of the
-- tables. Drawn ids and clock readings are arguments.
pub mod Steps
pub mod Claim
pub mod Moves
pub mod Decide
pub mod Refusals
pub mod ClaimRefusals
pub mod Queries
use agent_db.Base.{
  ℕ, ◌≤◌, Bool, true, false, not, ◌&&◌, ◌||◌, Option, some, none, List, [], ◌∷◌, ◌++◌, String, len,
  ◌==◌, ◌!=◌, text_eq, nat_eq, ltb, leb, is_blank, if◌then◌else◌,
}
use agent_db.Error.{AppError, config, not_found, blocked, Result, ok, err, ok_or}
use agent_db.Error
use agent_db.Json.{Value, Fields}
use agent_db.Operations.Crates.{Crates}
use agent_db.Operations.Model.{
  Uuid, DateTime, OperationState, OperationKind, OperationActorKind, OperationApprovalDecision,
  OperationEventKind, may_mutate_target, state_eq, is_terminal,
}
use agent_db.Operations.Model.Labels.{state_str, actor_kind_str, approval_decision_str, parse_state}
use agent_db.Operations.StateMachine.{
  TransitionResult, error_text, ensure_transition, RestartRecovery, restart_recovery,
}
use agent_db.Operations.Rows.{
  ApprovalRow, OperationRow, OperationRecord, OperationApprover, OperationEventRecord,
  row_to_operation,
}
use agent_db.Operations.Store.{
  Db, Tx, ◌>>=◌, ◌>>◌, lift, return, reject_if, select_operation, update_rows, affected,
  exists_approval, insert_approval, is_executing,
}
use agent_db.Operations.Ledger.{
  max_request_bytes, transition_event_kind, append_event_tx, events, verify_from,
}

-- How an operation of the repository ends: its tables, and what it returns.
abbrev pub Outcome : Type 0 → Type 0
Outcome A = Db × Result A

-- A transaction that ends in `tx.commit()`; the value committed with may be an `Err` to return.
abbrev pub commit : {A : Type 0} → Db → Result (Result A × Db) → Outcome A
commit tables (ok (result, tables')) = (tables', result)
commit tables (err e) = (tables, err e)

abbrev pub has_expired : Option DateTime → DateTime → Bool
has_expired none now = false
has_expired (some expires_at) now = leb expires_at now

abbrev pub reason_object : String → Value
reason_object reason = Value.object (Fields.field "reason" (Value.string reason) Fields.end)

abbrev pub payload_hash_object : String → Value
payload_hash_object hash = Value.object (Fields.field "payloadHash" (Value.string hash) Fields.end)

unfoldable pub ensure_runtime : OperationRecord → Uuid → Tx (Unit {0})
ensure_runtime operation runtime_id =
    reject_if (not (operation.runtime_id == runtime_id))
      (blocked "the operation belongs to a previous application runtime")

unfoldable pub lift_transition : TransitionResult → Tx (Unit {0})
lift_transition TransitionResult.ok tables = ok (tt, tables)
lift_transition (TransitionResult.err e) tables = err (blocked (error_text e))

unfoldable pub apply_update : OperationState → DateTime → OperationRecord → Tx (Unit {0})
apply_update target now current tables =
    if affected target now current.id (state_str current.state) current.payload_hash
        tables.operations
      == 1
    then ok (
      tt,
      record tables {
        operations =
            update_rows target now current.id (state_str current.state) current.payload_hash
              tables.operations;
      },
    )
    else err (blocked "the operation state changed before it could be updated")

pub record OperationApprovalCommand : Type 0 where
  pub operation_id : Uuid
  pub runtime_id : Uuid
  pub expected_payload_hash : String
  pub approver : OperationApprover
  pub decision : OperationApprovalDecision
  pub reason : Option String
  pub current_policy_revision : String
  pub now : DateTime

abbrev pub may_decide : OperationActorKind → Bool
may_decide OperationActorKind.local_user = true
may_decide OperationActorKind.workspace_user = true
may_decide _ = false

abbrev pub too_long : Option String → Bool
too_long none = false
too_long (some reason) = ltb max_request_bytes (len reason)

abbrev pub decided_state : OperationApprovalDecision → OperationState
decided_state OperationApprovalDecision.approved = OperationState.approved
decided_state OperationApprovalDecision.rejected = OperationState.rejected

abbrev pub is_executable : OperationState → Bool
is_executable OperationState.ready = true
is_executable OperationState.approved = true
is_executable _ = false

abbrev pub is_ready : OperationState → Bool
is_ready OperationState.ready = true
is_ready _ = false

abbrev pub is_approved : OperationState → Bool
is_approved OperationState.approved = true
is_approved _ = false

abbrev pub is_pending : OperationState → Bool
is_pending OperationState.pending_approval = true
is_pending _ = false

unfoldable pub require_exact_approval : OperationRecord → DateTime → Tx (Unit {0})
require_exact_approval current now tables =
    reject_if
      (is_approved current.state
        && not (
            exists_approval current.id current.payload_hash current.policy_revision now
              tables.approvals))
      (blocked "the operation has no current exact approval") tables

-- The row that a decision inserts.
abbrev pub approval_row : Uuid → OperationRecord → OperationApprovalCommand → ApprovalRow
approval_row approval_id current command = record {
  id = approval_id;
  operation_id = current.id;
  payload_hash = current.payload_hash;
  approver_kind = actor_kind_str command.approver.kind;
  approver_id = command.approver.id;
  decision = approval_decision_str command.decision;
  reason = command.reason;
  policy_revision = current.policy_revision;
  created_at = command.now;
  expires_at = current.expires_at;
}

module _ (crates : Crates) where
  unfoldable pub fetch_operation_tx : Uuid → Tx OperationRecord
  fetch_operation_tx id tables =
      lift
        (Error.◌>>=◌ (ok_or (select_operation id tables.operations) (not_found id))
          (row_to_operation crates))
        tables

  -- `get`: outside a transaction the tables are only read.
  unfoldable pub get : Uuid → Db → Result OperationRecord
  get id tables =
      Error.◌>>=◌ (ok_or (select_operation id tables.operations) (not_found id))
        (row_to_operation crates)

  unfoldable pub transition_tx :
      Uuid → OperationRecord → OperationState → Value → DateTime → Tx OperationRecord
  transition_tx event_id current target details now = do
    lift_transition (ensure_transition current.state target)
    apply_update target now current
    event ←
        append_event_tx crates event_id current.id (transition_event_kind target) target details now
    fetch_operation_tx current.id

  -- `transition`.
  unfoldable pub transition_body :
      Uuid → Uuid → Uuid → OperationState → Value → DateTime → Tx (Result OperationRecord)
  transition_body event_id operation_id runtime_id target details now = do
    current ← fetch_operation_tx operation_id
    ensure_runtime current runtime_id
    updated ← transition_tx event_id current target details now
    return (ok updated)

  unfoldable pub transition :
      Uuid → Uuid → Uuid → OperationState → Value → DateTime → Db → Outcome OperationRecord
  transition event_id operation_id runtime_id target details now tables =
      let result =
        commit tables
          (transition_body event_id operation_id runtime_id target details now tables) in
      if is_executing target
      then (tables, err (config "execution must be entered through the atomic claim API"))
      else result

  -- Expiry is committed before the error is returned.
  unfoldable pub expire_and_refuse :
      Uuid → OperationRecord → String → DateTime → Tx (Result OperationRecord)
  expire_and_refuse event_id current reason now = do
    updated ← transition_tx event_id current OperationState.expired (reason_object reason) now
    return (err (blocked "the operation has expired"))

  unfoldable pub claim_current : Uuid → OperationRecord → DateTime → Tx (Result OperationRecord)
  claim_current event_id current now = do
    require_exact_approval current now
    updated ←
        transition_tx event_id current OperationState.executing
          (payload_hash_object current.payload_hash) now
    return (ok updated)

  -- The checks of `claim_execution` on the row that it fetched.
  unfoldable pub claim_fetched :
      Uuid → OperationRecord → Uuid → DateTime → Tx (Result OperationRecord)
  claim_fetched event_id current runtime_id now = do
    ensure_runtime current runtime_id
    reject_if (not (is_executable current.state))
        (blocked "the operation is not in an executable state")
    reject_if (is_ready current.state && may_mutate_target current.kind)
        (blocked "a target-mutating operation cannot execute without exact approval")
    if has_expired current.expires_at now
        then expire_and_refuse event_id current "operation_expired" now
        else claim_current event_id current now

  unfoldable pub claim_body : Uuid → Uuid → Uuid → DateTime → Tx (Result OperationRecord)
  claim_body event_id operation_id runtime_id now = do
    current ← fetch_operation_tx operation_id
    claim_fetched event_id current runtime_id now

  -- `claim_execution`.
  unfoldable pub claim_execution : Uuid → Uuid → Uuid → DateTime → Db → Outcome OperationRecord
  claim_execution event_id operation_id runtime_id now tables =
      commit tables (claim_body event_id operation_id runtime_id now tables)

  -- The details of a decision's event.
  abbrev pub decision_object : Uuid → OperationRecord → OperationApprovalCommand → Value
  decision_object approval_id current command = Value.object (
      Fields.field "approvalId" (Value.string (crates.uuid_text approval_id)) (
        Fields.field "approverId" (Value.string command.approver.id) (
          Fields.field "approverKind" (Value.string (actor_kind_str command.approver.kind)) (
            Fields.field "payloadHash" (Value.string current.payload_hash)
              (Fields.field "policyRevision" (Value.string current.policy_revision) Fields.end)))))

  -- The decision itself: the approval row and the transition.
  unfoldable pub decide_current :
      Uuid → Uuid → OperationRecord → OperationApprovalCommand → Tx (Result OperationRecord)
  decide_current approval_id event_id current command = do
    insert_approval (approval_row approval_id current command)
    updated ←
        transition_tx event_id current (decided_state command.decision)
          (decision_object approval_id current command) command.now
    return (ok updated)

  -- The checks of `decide_approval` on the row that it fetched.
  unfoldable pub decide_fetched :
      Uuid → Uuid → OperationRecord → OperationApprovalCommand → Tx (Result OperationRecord)
  decide_fetched approval_id event_id current command = do
    ensure_runtime current command.runtime_id
    reject_if (not (is_pending current.state))
        (blocked "the operation is not awaiting an approval decision")
    reject_if (current.payload_hash != command.expected_payload_hash)
        (blocked "the reviewed payload hash does not match the stored operation")
    reject_if (current.policy_revision != command.current_policy_revision)
        (blocked "the active safety policy changed after the operation was planned")
    if has_expired current.expires_at command.now
        then expire_and_refuse event_id current "approval_expired" command.now
        else decide_current approval_id event_id current command

  unfoldable pub decide_body : Uuid → Uuid → OperationApprovalCommand → Tx (Result OperationRecord)
  decide_body approval_id event_id command = do
    current ← fetch_operation_tx command.operation_id
    decide_fetched approval_id event_id current command

  -- `decide_approval`.
  unfoldable pub decide_approval :
      Uuid → Uuid → OperationApprovalCommand → Db → Outcome OperationRecord
  decide_approval approval_id event_id command tables =
      let result = commit tables (decide_body approval_id event_id command tables) in
      if not (may_decide command.approver.kind) || is_blank command.approver.id
      then (
        tables,
        err (blocked "only an identified local or workspace user can approve an operation"),
      )
      else if too_long command.reason
      then (
        tables,
        err (config "operation approval reason exceeds the local control-message limit"),
      )
      else result

  -- `append_progress`.
  unfoldable pub progress_fetched_body :
      Uuid → Uuid → Uuid → Value → DateTime → OperationRecord → Tx (Result OperationEventRecord)
  progress_fetched_body event_id operation_id runtime_id details now current = do
    ensure_runtime current runtime_id
    reject_if (not (is_executing current.state))
        (blocked "progress can only be recorded for an executing operation")
    event ←
        append_event_tx crates event_id operation_id OperationEventKind.progress current.state
          details now
    return (ok event)

  unfoldable pub progress_body :
      Uuid → Uuid → Uuid → Value → DateTime → Tx (Result OperationEventRecord)
  progress_body event_id operation_id runtime_id details now = do
    current ← fetch_operation_tx operation_id
    progress_fetched_body event_id operation_id runtime_id details now current

  unfoldable pub append_progress :
      Uuid → Uuid → Uuid → Value → DateTime → Db → Outcome OperationEventRecord
  append_progress event_id operation_id runtime_id details now tables =
      commit tables (progress_body event_id operation_id runtime_id details now tables)

  unfoldable pub verify_event_chain : Uuid → Db → Result Bool
  verify_event_chain operation_id tables = Error.◌>>=◌ (get operation_id tables) λ projection.
      Error.◌>>=◌ (events crates operation_id tables)
        λ chain. ok (verify_from crates 0 none none chain projection.state)
