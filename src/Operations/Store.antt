-- ===== src/Operations/Store.antt =====
-- The SQL of src-tauri/src/operations/repository.rs over the tables of store/migrations.rs. A table
-- is the list of its rows, newest first. `Tx` is a transaction: what follows a failed statement is
-- not run, and its changes are dropped.
pub mod Laws
use agent_db.Base.{
  ℕ, suc, ◌+◌, Bool, true, false, not, ◌&&◌, ◌||◌, Option, some, none, List, [], ◌∷◌, String, ◌==◌,
  ◌!=◌, text_eq, nat_eq, ltb, if◌then◌else◌,
}
use agent_db.Error.{AppError, db, Result, ok, err}
use agent_db.Operations.Model.{Uuid, DateTime, OperationState, is_terminal}
use agent_db.Operations.Model.Labels.{state_str}
use agent_db.Operations.Rows.{OperationRow, ApprovalRow, EventRow}

pub record Db : Type 0 where
  pub operations : List OperationRow
  pub approvals : List ApprovalRow
  pub events : List EventRow

abbrev pub Tx : Type 0 → Type 0
Tx A = Db → Result (A × Db)

infixl 5 ◌>>=◌ ◌>>◌
abbrev pub ◌>>=◌ : {A B : Type 0} → Tx A → (A → Tx B) → Tx B
◌>>=◌ m f tables = elim (m tables) [ ok (a, tables') ↦ f a tables' | err e ↦ err e ]

abbrev pub ◌>>◌ : {B : Type 0} → Tx (Unit {0}) → Tx B → Tx B
m >> k = m >>= λ _. k

abbrev pub lift : {A : Type 0} → Result A → Tx A
lift (ok a) tables = ok (a, tables)
lift (err e) tables = err e

abbrev pub return : {A : Type 0} → A → Tx A
return a tables = ok (a, tables)

abbrev pub reject_if : Bool → AppError → Tx (Unit {0})
reject_if true e tables = err e
reject_if false e tables = ok (tt, tables)

-- `SELECT * FROM operations WHERE id = ?1`.
unfoldable pub select_operation : Uuid → List OperationRow → Option OperationRow
select_operation id [] = none
select_operation id (row ∷ rows) = if row.id == id then some row else select_operation id rows

-- The row under a workspace, an actor and an idempotency key.
unfoldable pub select_by_key :
    Uuid → String → String → String → List OperationRow → Option OperationRow
select_by_key workspace actor_kind actor_id key [] = none
select_by_key workspace actor_kind actor_id key (row ∷ rows) =
    if row.workspace_id == workspace
      && row.actor_kind == actor_kind
      && row.actor_id == actor_id
      && row.idempotency_key == key
    then some row
    else select_by_key workspace actor_kind actor_id key rows

abbrev pub is_some {ℓ} : {A : Type ℓ} → Option A → Bool
is_some none = false
is_some (some _) = true

-- The primary key and the unique index refuse a second row.
unfoldable pub insert_operation : OperationRow → Tx (Unit {0})
insert_operation row tables =
    if is_some (select_operation row.id tables.operations)
      || is_some (
          select_by_key row.workspace_id row.actor_kind row.actor_id row.idempotency_key
            tables.operations)
    then err (db "UNIQUE constraint failed: operations")
    else ok (tt, record tables { operations = row ∷ tables.operations })

-- `expires_at IS NULL OR expires_at > now`.
abbrev pub is_live : Option DateTime → DateTime → Bool
is_live none now = true
is_live (some expires_at) now = ltb now expires_at

abbrev pub is_executing : OperationState → Bool
is_executing OperationState.executing = true
is_executing _ = false

-- The `WHERE` of the state update.
abbrev pub selected : OperationState → DateTime → Uuid → String → String → OperationRow → Bool
selected target now id state payload_hash row =
    row.id == id
    && row.state == state
    && row.payload_hash == payload_hash
    && (not (is_executing target) || is_live row.expires_at now)

-- Its `SET`.
abbrev pub written : OperationState → DateTime → OperationRow → OperationRow
written target now row = record row {
  state = state_str target;
  updated_at = now;
  started_at = if is_executing target then some now else row.started_at;
  finished_at = if is_terminal target then some now else row.finished_at;
}

unfoldable pub update_rows :
    OperationState → DateTime → Uuid → String → String → List OperationRow → List OperationRow
update_rows target now id state hash [] = []
update_rows target now id state hash (row ∷ rows) =
    (if selected target now id state hash row then written target now row else row)
    ∷ update_rows target now id state hash rows

-- `rows_affected`.
unfoldable pub affected : OperationState → DateTime → Uuid → String → String → List OperationRow → ℕ
affected target now id state hash [] = 0
affected target now id state hash (row ∷ rows) =
    (if selected target now id state hash row then 1 else 0)
    + affected target now id state hash rows

-- `EXISTS(SELECT 1 FROM operation_approvals WHERE …)` of `claim_execution`.
abbrev pub approves : Uuid → String → String → DateTime → ApprovalRow → Bool
approves id payload_hash policy_revision now row =
    row.operation_id == id
    && row.payload_hash == payload_hash
    && row.decision == "approved"
    && row.policy_revision == policy_revision
    && is_live row.expires_at now

unfoldable pub exists_approval : Uuid → String → String → DateTime → List ApprovalRow → Bool
exists_approval id payload_hash policy_revision now [] = false
exists_approval id payload_hash policy_revision now (row ∷ rows) =
    approves id payload_hash policy_revision now row
    || exists_approval id payload_hash policy_revision now rows

unfoldable pub has_approval_id : Uuid → List ApprovalRow → Bool
has_approval_id id [] = false
has_approval_id id (row ∷ rows) = row.id == id || has_approval_id id rows

unfoldable pub insert_approval : ApprovalRow → Tx (Unit {0})
insert_approval row tables =
    if has_approval_id row.id tables.approvals
    then err (db "UNIQUE constraint failed: operation_approvals")
    else ok (tt, record tables { approvals = row ∷ tables.approvals })

-- The later of two events by sequence.
abbrev pub later_event : EventRow → Option EventRow → Option EventRow
later_event row none = some row
later_event row (some other) = if ltb row.sequence other.sequence then some other else some row

-- `ORDER BY sequence DESC LIMIT 1`.
unfoldable pub tail_event : Uuid → List EventRow → Option EventRow
tail_event id [] = none
tail_event id (row ∷ rows) =
    let rest = tail_event id rows in if row.operation_id == id then later_event row rest else rest

unfoldable pub clashes : EventRow → List EventRow → Bool
clashes row [] = false
clashes row (other ∷ rows) =
    other.id == row.id
    || (other.operation_id == row.operation_id && other.sequence == row.sequence)
    || clashes row rows

-- The primary key and `UNIQUE(operation_id, sequence)`.
unfoldable pub insert_event : EventRow → Tx (Unit {0})
insert_event row tables =
    if clashes row tables.events
    then err (db "UNIQUE constraint failed: operation_events")
    else ok (tt, record tables { events = row ∷ tables.events })

unfoldable pub insert_by_sequence : EventRow → List EventRow → List EventRow
insert_by_sequence row [] = row ∷ []
insert_by_sequence row (other ∷ rows) =
    if ltb row.sequence other.sequence
    then row ∷ other ∷ rows
    else other ∷ insert_by_sequence row rows

-- `SELECT * FROM operation_events WHERE operation_id = ?1 ORDER BY sequence ASC`.
unfoldable pub select_events : Uuid → List EventRow → List EventRow
unfolding insert_by_sequence
select_events id [] = []
select_events id (row ∷ rows) =
    let rest = select_events id rows in
    if row.operation_id == id then insert_by_sequence row rest else rest
