-- ===== src/Operations/Repository/Refusals.antt =====
-- What a decision that fails (`decide_approval` of src-tauri/src/operations/repository.rs) leaves in
-- the tables.
use agent_db.Base.{
  ◌≡◌, refl, ◌≤◌, true, false, ◌⊎◌, inl, inr, Option, some, none, String, arith, nat_eq, text_eq,
  is_blank,
}
use agent_db.Error.{AppError, blocked, Result, ok, err, Result-cases}
use agent_db.Operations.Crates.{Crates}
use agent_db.Operations.Model.{Uuid, DateTime, OperationState, OperationActorKind}
use agent_db.Operations.Rows.{OperationRow, OperationRecord, row_to_operation}
use agent_db.Operations.Store.{Db, select_operation, ◌>>=◌, return}
use agent_db.Operations.Store.Laws.{bind-eq-ok}
use agent_db.Operations.Repository.{
  transition_tx, expire_and_refuse, has_expired, reason_object, OperationApprovalCommand,
}
use agent_db.Operations.Repository.Steps.{Transitioned, transition_tx_lem}

pub has_expired_lem :
    (expires_at : Option DateTime) (now : DateTime)
    → has_expired expires_at now ≡ true
    → (at : DateTime) × (expires_at ≡ some at) × (at ≤ now)
has_expired_lem none now h = cc
has_expired_lem (some at) now h = (at, refl, ground arith)

-- A step that ends in `Ok` commits no error.
pub return_ok-ne-err :
    {A : Type 0} (m : Db → Result (A × Db)) (t : Db) {e : AppError} {t' : Db}
    → (m >>= λ x. return (ok x)) t ≡ ok (err e, t')
    → ⊥
return_ok-ne-err m t h = elim (Result-cases (m t)) [
  | inl ((a, t1), k) ↦ absurd (ground arith)
  | inr (x, k) ↦ absurd (ground arith)
]

module _ (crates : Crates) (event_id : Uuid) where
  -- Expiry is committed with the error that is returned.
  pub expire_and_refuse_lem :
      (current : OperationRecord) (reason : String) (now : DateTime) (t : Db) {e : AppError}
      {t' : Db}
      → expire_and_refuse crates event_id current reason now t ≡ ok (err e, t')
      → (e ≡ blocked "the operation has expired")
        × (updated : OperationRecord) × Transitioned crates event_id current OperationState.expired
            (reason_object reason)
            now
            t
            t'
            updated
  unfolding expire_and_refuse
  expire_and_refuse_lem current reason now t {e} {t'} h =
      let move =
        transition_tx crates event_id current OperationState.expired (reason_object reason) now in
      let (updated, t1, moved, h1) = bind-eq-ok move _ t h in
      let made =
        transition_tx_lem crates event_id current OperationState.expired (reason_object reason) now
          t moved in
      let same : t1 ≡ t' = ground (arith, h1) in (ground (arith, h1), updated, rw same at made)

module _ (crates : Crates) (approval_id event_id : Uuid) (command : OperationApprovalCommand) where
  -- The operation to be decided has expired, and is moved to `expired`.
  pub record Lapsed (t t' : Db) : Type 0 where
    pub person :
        (command.approver.kind ≡ OperationActorKind.local_user)
        ⊎ (command.approver.kind ≡ OperationActorKind.workspace_user)
    pub named : is_blank command.approver.id ≡ false
    pub current : OperationRecord
    pub row : OperationRow
    pub row_selected : select_operation command.operation_id t.operations ≡ some row
    pub row_read : row_to_operation crates row ≡ ok current
    pub own_runtime : current.runtime_id ≡ command.runtime_id
    pub pending : current.state ≡ OperationState.pending_approval
    pub reviewed : current.payload_hash ≡ command.expected_payload_hash
    pub same_policy : current.policy_revision ≡ command.current_policy_revision
    pub expires_at : DateTime
    pub expiry_stored : current.expires_at ≡ some expires_at
    pub past : expires_at ≤ command.now
    pub updated : OperationRecord
    pub moved :
        Transitioned crates event_id current OperationState.expired
          (reason_object "approval_expired")
          command.now
          t
          t'
          updated
