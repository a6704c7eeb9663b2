-- ===== src/Operations/Rows/Laws.antt =====
-- What a row that reads successfully says of the record.
use agent_db.Base.{◌≡◌, arith, inl, inr}
use agent_db.Error.{ok, Result-cases}
use agent_db.Operations.Crates.{Crates}
use agent_db.Operations.Model.Labels.{state_str, operation_kind_str}
use agent_db.Operations.Model.Labels.Inverse.{state_str_of_parse, operation_kind_str_of_parse}
use agent_db.Operations.Rows.{
  OperationRow, OperationRecord, row_to_operation, StoredLabels, read_labels,
}

-- The columns that a successful read copies or parses.
pub record Reads (row : OperationRow) (r : OperationRecord) : Type 0 where
  pub id : r.id ≡ row.id
  pub runtime_id : r.runtime_id ≡ row.runtime_id
  pub kind : row.operation_kind ≡ operation_kind_str r.kind
  pub state : row.state ≡ state_str r.state
  pub payload_hash : r.payload_hash ≡ row.payload_hash
  pub policy_revision : r.policy_revision ≡ row.policy_revision
  pub expires_at : r.expires_at ≡ row.expires_at

read_labels_lem :
    (row : OperationRow) {l : StoredLabels}
    → read_labels row ≡ ok l
    → (row.operation_kind ≡ operation_kind_str l.kind) × (row.state ≡ state_str l.state)
unfolding read_labels
read_labels_lem row {l} h = ground (
  arith,
  state_str_of_parse row.state l.state,
  operation_kind_str_of_parse row.operation_kind l.kind,
)

-- A row that is read gives a record with the id, runtime, payload hash, policy revision and expiry of
-- the row, and with the kind and state that its labels name.
pub row_to_operation-Reads :
    (crates : Crates) (row : OperationRow) {r : OperationRecord}
    → row_to_operation crates row ≡ ok r
    → Reads row r
unfolding row_to_operation
row_to_operation-Reads crates row {r} h = elim (Result-cases (read_labels row)) [
  | inl (l, e) ↦ ground (arith, read_labels_lem row e)
  | inr (x, e) ↦ absurd (ground arith)
]
