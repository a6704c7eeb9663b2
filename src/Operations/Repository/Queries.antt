-- ===== src/Operations/Repository/Queries.antt =====
-- `find` and `approvals` of src-tauri/src/operations/repository.rs, which only read.
use agent_db.Base.{
  ◌≡◌, Bool, ◌||◌, ◌&&◌, Option, none, some, List, [], ◌∷◌, ◌==◌, nat_eq, ltb, arith, inl, inr,
  Option-cases, if◌then◌else◌,
}
use agent_db.Error.{Result, ok, ◌>>=◌, not_found, ok_or}
use agent_db.Operations.Crates.{Crates}
use agent_db.Operations.Model.{Uuid}
use agent_db.Operations.Rows.{
  ApprovalRow, OperationRecord, OperationApprovalRecord, row_to_operation, row_to_approval,
}
use agent_db.Operations.Store.{Db, select_operation}
use agent_db.Operations.Repository.{get}

-- `created_at ASC, id ASC`: the texts of two ids are ordered as their numbers.
abbrev older : ApprovalRow → ApprovalRow → Bool
older a b = ltb a.created_at b.created_at || (a.created_at == b.created_at && ltb a.id b.id)

unfoldable insert_oldest : ApprovalRow → List ApprovalRow → List ApprovalRow
insert_oldest row [] = row ∷ []
insert_oldest row (other ∷ rows) =
    let rest = insert_oldest row rows in
    if older other row then other ∷ rest else row ∷ other ∷ rows

unfoldable select_approvals : Uuid → List ApprovalRow → List ApprovalRow
unfolding insert_oldest
select_approvals id [] = []
select_approvals id (row ∷ rows) =
    let rest = select_approvals id rows in
    if row.operation_id == id then insert_oldest row rest else rest

module _ (crates : Crates) where
  unfoldable find : Uuid → Db → Result (Option OperationRecord)
  find id tables = elim (select_operation id tables.operations) [
    | none ↦ ok none
    | some row ↦ row_to_operation crates row >>= λ operation. ok (some operation)
  ]

  unfoldable read_approvals : List ApprovalRow → Result (List OperationApprovalRecord)
  read_approvals [] = ok []
  read_approvals (row ∷ rows) =
      row_to_approval crates row >>= λ a. read_approvals rows >>= λ rest. ok (a ∷ rest)

  unfoldable approvals : Uuid → Db → Result (List OperationApprovalRecord)
  unfolding select_approvals read_approvals
  approvals id tables = read_approvals (select_approvals id tables.approvals)

  -- `get` is `find`, with an error where there is no operation.
  get-find :
      (id : Uuid) (t : Db) → get crates id t ≡ (find id t >>= λ found. ok_or found (not_found id))
  unfolding get find
  get-find id t = elim (Option-cases (select_operation id t.operations)) [
    | inl absent ↦ ground arith
    | inr (row, found) ↦ ground arith
  ]
