-- ===== src/Operations/Repository/Moves.antt =====
-- The row that a transition rewrites, before and after.
use agent_db.Base.{
  ◌≡◌, refl, sym, true, false, Option, some, none, nat_eq, text_eq, arith, ==_self, ◌∙◌,
}
use agent_db.Error.{ok}
use agent_db.Json.{Value}
use agent_db.Operations.Crates.{Crates}
use agent_db.Operations.Model.{Uuid, DateTime, OperationState}
use agent_db.Operations.Model.Labels.{state_str}
use agent_db.Operations.Model.Labels.Inverse.{state_str-injective}
use agent_db.Operations.Rows.{OperationRow, OperationRecord, row_to_operation}
use agent_db.Operations.Rows.Laws.{Reads, row_to_operation-Reads}
use agent_db.Operations.Store.{Db, select_operation, selected, written, is_executing, is_live}
use agent_db.Operations.Store.Laws.{select_operation-id, select_operation-update_rows}
use agent_db.Operations.Repository.{has_expired}
use agent_db.Operations.Repository.Steps.{Transitioned}

is_live_of :
    (e : Option DateTime) (now : DateTime) → has_expired e now ≡ false → is_live e now ≡ true
is_live_of none now h = refl
is_live_of (some x) now h = ground arith

module _ (crates : Crates) where
  -- The row that a record was read from is the one that its transition selects.
  selected_own :
      (target : OperationState) (now : DateTime) (id : Uuid) (row : OperationRow)
      (current : OperationRecord)
      → row.id ≡ id
      → Reads row current
      → (is_executing target ≡ true → has_expired current.expires_at now ≡ false)
      → selected target now current.id (state_str current.state) current.payload_hash row ≡ true
  selected_own target now id row current e v live = ground (
    arith,
    ==_self row.id,
    ==_self row.state,
    ==_self row.payload_hash,
    is_live_of row.expires_at now,
  )

  -- The row under an id, once its operation has moved.
  pub record Moved (id : Uuid) (target : OperationState) (now : DateTime) (row : OperationRow)
      (r : OperationRecord) (t' : Db) : Type 0 where
    pub selected_after : select_operation id t'.operations ≡ some (written target now row)
    pub read_after : row_to_operation crates (written target now row) ≡ ok r
    pub state_after : r.state ≡ target

  pub Transitioned-Moved :
      (event_id id : Uuid) (current : OperationRecord) (target : OperationState) (details : Value)
      (now : DateTime) (t t' : Db) (r : OperationRecord) (row : OperationRow)
      → select_operation id t.operations ≡ some row
      → row_to_operation crates row ≡ ok current
      → (is_executing target ≡ true → has_expired current.expires_at now ≡ false)
      → Transitioned crates event_id current target details now t t' r
      → Moved id target now row r t'
  Transitioned-Moved event_id id current target details now t t' r row s read live m =
      let v = row_to_operation-Reads crates row read in
      let found : current.id ≡ id = v.id ∙ select_operation-id id t.operations s in
      let own = selected_own target now current.id row current (sym v.id) v live in
      let after : select_operation id t'.operations ≡ some (written target now row) = ground (
        arith,
        m.rows,
        own,
        select_operation-update_rows target now current.id (state_str current.state)
            current.payload_hash id t.operations,
      ) in
      let same : m.row ≡ written target now row = cc (m.row_selected, after, found) in
      let read' : row_to_operation crates (written target now row) ≡ ok r = rw same at m.row_read in
      record {
        selected_after = after;
        read_after = read';
        state_after = sym (
            state_str-injective target r.state
              (row_to_operation-Reads crates (written target now row) read').state);
      }
