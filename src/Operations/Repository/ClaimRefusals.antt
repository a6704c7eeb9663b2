-- ===== src/Operations/Repository/ClaimRefusals.antt =====
-- What a claim that fails (`claim_execution` of src-tauri/src/operations/repository.rs) leaves in the
-- tables.
use agent_db.Base.{◌≡◌, ◌≤◌, true, ◌⊎◌, some, nat_eq, text_eq}
use agent_db.Error.{ok}
use agent_db.Operations.Crates.{Crates}
use agent_db.Operations.Model.{Uuid, DateTime, OperationState, may_mutate_target}
use agent_db.Operations.Rows.{OperationRow, OperationRecord, row_to_operation}
use agent_db.Operations.Store.{Db, select_operation}
use agent_db.Operations.Repository.{reason_object}
use agent_db.Operations.Repository.Steps.{Transitioned}

module _ (crates : Crates) (event_id id runtime_id : Uuid) (now : DateTime) where
  -- The operation to be claimed could have been, but for its expiry, and is moved to `expired`.
  pub record ExpiredClaim (t t' : Db) : Type 0 where
    pub current : OperationRecord
    pub row : OperationRow
    pub row_selected : select_operation id t.operations ≡ some row
    pub row_read : row_to_operation crates row ≡ ok current
    pub own_runtime : current.runtime_id ≡ runtime_id
    pub executable :
        (current.state ≡ OperationState.ready) ⊎ (current.state ≡ OperationState.approved)
    pub approved : may_mutate_target current.kind ≡ true → (current.state ≡ OperationState.approved)
    pub expires_at : DateTime
    pub expiry_stored : current.expires_at ≡ some expires_at
    pub past : expires_at ≤ now
    pub updated : OperationRecord
    pub moved :
        Transitioned crates event_id current OperationState.expired
          (reason_object "operation_expired")
          now
          t
          t'
          updated
