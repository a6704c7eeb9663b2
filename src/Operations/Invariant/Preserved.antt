-- ===== src/Operations/Invariant/Preserved.antt =====
-- The invariant of the tables across each kind of change.
use agent_db.Base.{
  ℕ, ◌≡◌, refl, sym, ◌∙◌, subst, true, false, ◌≢◌, ==_self, Option, some, none, List, [], ◌∷◌, ◌==◌,
  nat_eq, text_eq, arith, eq_of_==,
}
use native.Mathlib.Decide.{ℕ_discrete}
use agent_db.Error.{ok}
use agent_db.Json.{Value}
use agent_db.Operations.Crates.{Crates}
use agent_db.Operations.Model.{Uuid, DateTime, OperationState, OperationEventKind}
use agent_db.Operations.Model.Labels.{state_str}
use agent_db.Operations.Model.Labels.Inverse.{state_str-injective}
use agent_db.Operations.Rows.{
  ApprovalRow, OperationRow, OperationRecord, EventRow, row_to_operation,
}
use agent_db.Operations.Rows.Laws.{row_to_operation-Reads}
use agent_db.Operations.Store.{Db, select_operation, selected}
use agent_db.Operations.Ledger.{transition_event_kind}
use agent_db.Operations.Repository.Steps.{Transitioned, Appended}
use agent_db.Operations.Planning.{PreparedOperation, planned_row, planned_object}
use agent_db.Operations.Evolution.{Change, Changes}
use agent_db.Operations.Invariant.{Inv, LedgerOf, EventChain, ledger}
use agent_db.Operations.Invariant.Tables.{
  affected-selected, update_rows-UniqueIds, select_own, select_other,
}
use agent_db.Operations.Invariant.Chain.{Counted, EventChain-Counted, ledger-own, ledger-other}

ne_beq : (a b : ℕ) → b ≢ a → (a == b) ≡ false
ne_beq a b d = ground arith

module _ (crates : Crates) where
  LedgerOf-Counted :
      (id : Uuid) (o : Option OperationRow) (events : List EventRow)
      → LedgerOf crates id o events
      → Counted events
  LedgerOf-Counted id none events l = rw l tt
  LedgerOf-Counted id (some row) events l = EventChain-Counted crates id l.2

  ledger-Counted : (t : Db) (id : Uuid) → Inv crates t → Counted (ledger id t.events)
  ledger-Counted t id v =
      LedgerOf-Counted id (select_operation id t.operations) (ledger id t.events) (v.ledgers id)

  -- The chain of the operation that a selected row describes.
  chain_at :
      (t : Db) (id : Uuid) (row : OperationRow) (s : OperationState)
      → Inv crates t
      → select_operation id t.operations ≡ some row
      → row.state ≡ state_str s
      → EventChain crates id s (ledger id t.events)
  chain_at t id row s v found label =
      let l : LedgerOf crates id (some row) (ledger id t.events) = rw found at (v.ledgers id) in
      subst (λ (x : OperationState). EventChain crates id x (ledger id t.events))
        (state_str-injective l.0 s (sym l.1 ∙ label)) l.2

  moved-Inv :
      (event_id : Uuid) (current : OperationRecord) (target : OperationState) (details : Value)
      (now : DateTime) (t t' : Db) (r : OperationRecord)
      → Inv crates t
      → Transitioned crates event_id current target details now t t' r
      → Inv crates t'
  moved-Inv event_id current target details now t t' r v m =
      let state = state_str current.state in
      let hash = current.payload_hash in
      let (row, found, sel) =
        affected-selected target now current.id state hash t.operations v.unique m.one_row in
      let chain = chain_at t current.id row current.state v found (selected_state row sel) in
      let own =
        ledger-own crates event_id current.id (transition_event_kind target) target details now
          t.events t'.events m.ledger (ledger-Counted t current.id v) in
      record {
        unique =
            rw (m.rows)
              (update_rows-UniqueIds target now current.id state hash t.operations v.unique);
        ledgers = λ j. elim (ℕ_discrete j current.id) [
          | yes e ↦
              rw
                (
                  e,
                  m.rows,
                  select_own target now current.id state hash t.operations row found sel,
                  own,
                )
                (target, refl, EventChain.moved event_id details now m.edge chain)
          | no d ↦
              rw
                (
                  m.rows,
                  select_other target now current.id state hash j t.operations d,
                  ledger-other crates event_id current.id (transition_event_kind target) target
                      details now t.events t'.events m.ledger j d,
                )
                (v.ledgers j)
        ];
      }
    where
      selected_state :
          (row : OperationRow)
          → selected target now current.id (state_str current.state) current.payload_hash row ≡ true
          → row.state ≡ state_str current.state
      selected_state row h = ground (arith, eq_of_== row.state (state_str current.state))

  planned-Inv :
      (event_id : Uuid) (p : PreparedOperation) (now : DateTime) (t t' : Db)
      → Inv crates t
      → select_operation p.operation.id t.operations ≡ none
      → t'.operations ≡ planned_row p now ∷ t.operations
      → Appended crates event_id p.operation.id OperationEventKind.planned OperationState.planned
          (planned_object p)
          now
          t.events
          t'.events
      → Inv crates t'
  unfolding planned_row select_operation
  planned-Inv event_id p now t t' v absent rows a =
      let id = p.operation.id in
      let empty : ledger id t.events ≡ [] = rw absent at (v.ledgers id) in
      let own =
        ledger-own crates event_id id OperationEventKind.planned OperationState.planned
          (planned_object p) now t.events t'.events a (rw empty tt) in
      record {
        unique = rw rows (absent, v.unique);
        ledgers = λ j. elim (ℕ_discrete j id) [
          | yes e ↦
              rw (e, rows, ==_self id, own, empty)
                (OperationState.planned, refl, EventChain.first event_id (planned_object p) now)
          | no d ↦
              rw
                (
                  rows,
                  ne_beq id j d,
                  ledger-other crates event_id id OperationEventKind.planned OperationState.planned
                      (planned_object p) now t.events t'.events a j d,
                )
                (v.ledgers j)
        ];
      }

  noted-Inv :
      (event_id id : Uuid) (current : OperationRecord) (row : OperationRow) (details : Value)
      (now : DateTime) (t t' : Db)
      → Inv crates t
      → select_operation id t.operations ≡ some row
      → row_to_operation crates row ≡ ok current
      → current.state ≡ OperationState.executing
      → t'.operations ≡ t.operations
      → Appended crates event_id id OperationEventKind.progress OperationState.executing details now
          t.events t'.events
      → Inv crates t'
  noted-Inv event_id id current row details now t t' v found read running rows a =
      let label : row.state ≡ state_str OperationState.executing =
        rw running at (row_to_operation-Reads crates row read).state in
      let chain = chain_at t id row OperationState.executing v found label in
      let own =
        ledger-own crates event_id id OperationEventKind.progress OperationState.executing details
          now t.events t'.events a (ledger-Counted t id v) in
      record {
        unique = rw rows v.unique;
        ledgers = λ j. elim (ℕ_discrete j id) [
          | yes e ↦
              rw (e, rows, found, own)
                (OperationState.executing, label, EventChain.noted event_id details now chain)
          | no d ↦
              rw
                (
                  rows,
                  ledger-other crates event_id id OperationEventKind.progress
                      OperationState.executing details now t.events t'.events a j d,
                )
                (v.ledgers j)
        ];
      }

  decided-Inv :
      (t : Db) (rows : List ApprovalRow) → Inv crates t → Inv crates (record t { approvals = rows })
  decided-Inv t rows v = record { unique = v.unique; ledgers = v.ledgers }

  pub Change-Inv : {t t' : Db} → Change crates t t' → Inv crates t → Inv crates t'
  Change-Inv {t} {t'} (Change.plans event_id p now absent rows approvals a) v =
      planned-Inv event_id p now t t' v absent rows a
  Change-Inv {t} {t'} (Change.decides approval_id current command person same) v =
      rw same (decided-Inv t _ v)
  Change-Inv {t} {t'} (Change.moves event_id current target details now r guard m) v =
      moved-Inv event_id current target details now t t' r v m
  Change-Inv {t} {t'}
        (Change.notes event_id id current row details now found read running rows approvals a) v =
      noted-Inv event_id id current row details now t t' v found read running rows a

  -- Whatever changes are made, the invariant is kept.
  pub Changes-Inv : {t t' : Db} → Changes crates t t' → Inv crates t → Inv crates t'
  Changes-Inv Changes.here v = v
  Changes-Inv (Changes.next cs c) v = Change-Inv c (Changes-Inv cs v)
