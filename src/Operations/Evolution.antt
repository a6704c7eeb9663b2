-- ===== src/Operations/Evolution.antt =====
-- Every operation of the repository as a sequence of few kinds of change to the tables.
pub mod Calls
pub mod Plans
pub mod Restarts
use agent_db.Base.{ℕ, ◌≡◌, Bool, true, false, none, some, refl, ◌∷◌}
use agent_db.Error.{Result, ok, err}
use agent_db.Json.{Value}
use agent_db.Operations.Crates.{Crates}
use agent_db.Operations.Model.{
  Uuid, DateTime, OperationState, OperationEventKind, may_mutate_target,
}
use agent_db.Operations.Model.Labels.{actor_kind_str}
use agent_db.Operations.Rows.{OperationRecord, OperationRow, row_to_operation}
use agent_db.Operations.Store.{Db, select_operation, exists_approval, is_executing}
use agent_db.Operations.Repository.{commit, OperationApprovalCommand, approval_row, may_decide}
use agent_db.Operations.Repository.Steps.{Transitioned, Appended}
use agent_db.Operations.Planning.{PreparedOperation, planned_row, planned_object}

module _ (crates : Crates) where
  -- What a claim has established before it moves an operation to `executing`.
  pub record Guarded (t : Db) (current : OperationRecord) (now : DateTime) : Type 0 where
    pub row : OperationRow
    pub found : select_operation current.id t.operations ≡ some row
    pub read : row_to_operation crates row ≡ ok current
    pub consent :
        may_mutate_target current.kind ≡ true
        → exists_approval current.id current.payload_hash current.policy_revision now t.approvals
          ≡ true

  -- One change: a plan is inserted, a decision recorded, an operation moved, or progress noted.
  pub data Change (t t' : Db) : Type 0 where
    plans :
        (event_id : Uuid) (p : PreparedOperation) (now : DateTime)
        → select_operation p.operation.id t.operations ≡ none
        → t'.operations ≡ planned_row p now ∷ t.operations
        → t'.approvals ≡ t.approvals
        → Appended crates event_id p.operation.id OperationEventKind.planned OperationState.planned
            (planned_object p)
            now
            t.events
            t'.events
        → Change t t'
    decides :
        (approval_id : Uuid) (current : OperationRecord) (command : OperationApprovalCommand)
        → may_decide command.approver.kind ≡ true
        → t' ≡ record t { approvals = approval_row approval_id current command ∷ t.approvals }
        → Change t t'
    moves :
        (event_id : Uuid) (current : OperationRecord) (target : OperationState) (details : Value)
        (now : DateTime) (r : OperationRecord)
        → (is_executing target ≡ true → Guarded t current now)
        → Transitioned crates event_id current target details now t t' r
        → Change t t'
    notes :
        (event_id id : Uuid) (current : OperationRecord) (row : OperationRow) (details : Value)
        (now : DateTime)
        → select_operation id t.operations ≡ some row
        → row_to_operation crates row ≡ ok current
        → current.state ≡ OperationState.executing
        → t'.operations ≡ t.operations
        → t'.approvals ≡ t.approvals
        → Appended crates event_id id OperationEventKind.progress OperationState.executing details
            now t.events t'.events
        → Change t t'

  pub data Changes (t : Db) : Db → Type 0 where
    here : Changes t t
    next : {t1 t2 : Db} → Changes t t1 → Change t1 t2 → Changes t t2

  pub join : {t t1 t2 : Db} → Changes t t1 → Changes t1 t2 → Changes t t2
  join c here = c
  join c (next d s) = next (join c d) s

  pub one : {t t' : Db} → Change t t' → Changes t t'
  one c = next here c

  pub commit-Changes :
      {A : Type 0} (t : Db) (x : Result (Result A × Db))
      → ((result : Result A) (t' : Db) → x ≡ ok (result, t') → Changes t t')
      → Changes t (commit t x).0
  commit-Changes t (ok (result, t')) f = f result t' refl
  commit-Changes t (err e) f = here
