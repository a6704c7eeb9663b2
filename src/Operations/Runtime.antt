-- ===== src/Operations/Runtime.antt =====
-- src-tauri/src/operations/runtime.rs: the facade over the repository. The runtime is its id and the
-- tables; each call to the repository is one step of the tables.
pub mod Histories
pub mod Durable
pub mod Settled
pub mod Consent
use agent_db.Base.{ℕ, Bool, true, false, not, ◌&&◌, Option, String, ◌==◌, nat_eq, if◌then◌else◌}
use agent_db.Error.{blocked, AppError, Result, ok, err}
use agent_db.Json.{Value, Fields}
use agent_db.Operations.Crates.{Crates}
use agent_db.Operations.Model.{
  Uuid, DateTime, OperationState, OperationApprovalDecision, may_mutate_target,
}
use agent_db.Operations.Rows.{OperationRecord, OperationApprover, OperationEventRecord}
use agent_db.Operations.Store.{Db}
use agent_db.Operations.Repository.{
  Outcome, OperationApprovalCommand, transition, claim_execution, decide_approval, append_progress,
}
use agent_db.Operations.Planning.{NewOperation, insert_planned}
use agent_db.Operations.Execute.{ExecutionGrant, issue}

pub data OperationPlanDisposition : Type 0 where
  ready approval_required : OperationPlanDisposition

abbrev pub requires_approval : OperationPlanDisposition → Bool
requires_approval OperationPlanDisposition.ready = false
requires_approval OperationPlanDisposition.approval_required = true

abbrev pub disposition_str : OperationPlanDisposition → String
disposition_str OperationPlanDisposition.ready = "ready"
disposition_str OperationPlanDisposition.approval_required = "approval_required"

abbrev pub planned_target : OperationPlanDisposition → OperationState
planned_target OperationPlanDisposition.ready = OperationState.ready
planned_target OperationPlanDisposition.approval_required = OperationState.pending_approval

abbrev pub is_planned : OperationState → Bool
is_planned OperationState.planned = true
is_planned _ = false

pub record ExactApprovalRequest : Type 0 where
  pub operation_id : Uuid
  pub expected_payload_hash : String
  pub approver : OperationApprover
  pub current_policy_revision : String
  pub reason : Option String

pub record ClaimedOperation : Type 0 where
  pub operation : OperationRecord
  pub grant : ExecutionGrant

-- The capability to decide; `runtime_id` is private to the source's module.
pub record LocalApprovalAuthority : Type 0 where
  pub runtime_id : Uuid

-- `?` between two calls of the repository.
abbrev pub and_then : {A B : Type 0} → Outcome A → (A → Db → Outcome B) → Outcome B
and_then (tables, ok a) f = f a tables
and_then (tables, err e) f = (tables, err e)

unfoldable pub ensure_local_approval_authority : Uuid → LocalApprovalAuthority → Result (Unit {0})
ensure_local_approval_authority runtime_id authority =
    if authority.runtime_id == runtime_id
    then ok tt
    else err (blocked "approval authority belongs to a different application runtime")

unfoldable pub grant_claimed : OperationRecord → Db → Outcome ClaimedOperation
grant_claimed operation tables = elim (issue operation) [
  | ok grant ↦ (tables, ok (record { operation = operation; grant = grant }))
  | err e ↦ (tables, err e)
]

module _ (crates : Crates) (runtime_id : Uuid) where
  -- The transition of `plan`, on the record that `insert_planned` returned.
  unfoldable pub plan_target :
      Uuid → OperationPlanDisposition → DateTime → OperationRecord → Db → Outcome OperationRecord
  plan_target event_id disposition now planned tables =
      if not (is_planned planned.state)
      then (tables, ok planned)
      else transition crates event_id planned.id runtime_id (planned_target disposition)
          (Value.object
            (Fields.field "disposition" (Value.string (disposition_str disposition)) Fields.end))
          now tables

  unfoldable pub plan :
      Uuid
      → Uuid
      → NewOperation
      → OperationPlanDisposition
      → DateTime
      → DateTime
      → Db
      → Outcome OperationRecord
  plan first_event second_event operation disposition created_at now tables =
      if may_mutate_target operation.kind && not (requires_approval disposition)
      then (tables, err (blocked "target-mutating operations always require an exact approval"))
      else and_then (insert_planned crates first_event runtime_id operation created_at tables)
          (plan_target second_event disposition now)

  unfoldable pub decide_exact :
      Uuid
      → Uuid
      → ExactApprovalRequest
      → OperationApprovalDecision
      → DateTime
      → Db
      → Outcome OperationRecord
  decide_exact approval_id event_id request decision now tables =
      decide_approval crates approval_id event_id
        (record {
          operation_id = request.operation_id;
          runtime_id = runtime_id;
          expected_payload_hash = request.expected_payload_hash;
          approver = request.approver;
          decision = decision;
          reason = request.reason;
          current_policy_revision = request.current_policy_revision;
          now = now;
        })
        tables

  unfoldable pub approve_exact :
      Uuid
      → Uuid
      → LocalApprovalAuthority
      → ExactApprovalRequest
      → DateTime
      → Db
      → Outcome OperationRecord
  unfolding ensure_local_approval_authority
  approve_exact approval_id event_id authority request now tables =
      elim (ensure_local_approval_authority runtime_id authority) [
        | ok _ ↦
            decide_exact approval_id event_id request OperationApprovalDecision.approved now tables
        | err e ↦ (tables, err e)
      ]

  unfoldable pub reject_exact :
      Uuid
      → Uuid
      → LocalApprovalAuthority
      → ExactApprovalRequest
      → DateTime
      → Db
      → Outcome OperationRecord
  unfolding ensure_local_approval_authority
  reject_exact approval_id event_id authority request now tables =
      elim (ensure_local_approval_authority runtime_id authority) [
        | ok _ ↦
            decide_exact approval_id event_id request OperationApprovalDecision.rejected now tables
        | err e ↦ (tables, err e)
      ]

  unfoldable pub claim : Uuid → Uuid → DateTime → Db → Outcome ClaimedOperation
  claim event_id operation_id now tables =
      and_then (claim_execution crates event_id operation_id runtime_id now tables) grant_claimed

  unfoldable pub progress : Uuid → Uuid → Value → DateTime → Db → Outcome (Unit {0})
  progress event_id operation_id details now tables =
      and_then (append_progress crates event_id operation_id runtime_id details now tables)
        (λ _ tables'. (tables', ok tt))

  -- `finish`, and its callers `succeed`, `fail`, `confirm_cancelled`, `cancel_before_execution` and
  -- `mark_outcome_unknown`.
  unfoldable pub finish :
      Uuid → Uuid → OperationState → Value → DateTime → Db → Outcome OperationRecord
  finish event_id operation_id target details now tables =
      transition crates event_id operation_id runtime_id target details now tables
