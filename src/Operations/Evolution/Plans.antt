-- ===== src/Operations/Evolution/Plans.antt =====
-- `insert_planned`, whatever it returns, makes a sequence of changes.
use agent_db.Base.{◌≡◌, refl, ap, subst, Option-cases, inl, inr, none, ◌∷◌, arith}
use agent_db.Error.{Result, ok, Result-cases}
use agent_db.Operations.Crates.{Crates}
use agent_db.Operations.Model.{Uuid, DateTime, OperationState, OperationEventKind}
use agent_db.Operations.Model.Labels.{actor_kind_str}
use agent_db.Operations.Rows.{OperationRecord, OperationRow, row_to_operation}
use agent_db.Operations.Store.{Db, insert_operation, select_operation, select_by_key}
use agent_db.Operations.Store.Laws.{bind-eq-ok, insert_operation_lem}
use agent_db.Operations.Repository.{fetch_operation_tx}
use agent_db.Operations.Ledger.{append_event_tx}
use agent_db.Operations.Repository.Steps.{Appended, append_event_tx_lem, fetch_lem}
use agent_db.Operations.Evolution.{Changes, here, one, commit-Changes, plans}
use agent_db.Operations.Planning.{
  NewOperation, PreparedOperation, planned_row, planned_object, insert_new, replay, insert_prepared,
  insert_planned, prepare,
}

module _ (crates : Crates) where
  planned_change :
      (event_id : Uuid) (p : PreparedOperation) (now : DateTime) (t t1 t2 t' : Db)
      → select_operation p.operation.id t.operations ≡ none
      → t1 ≡ record t { operations = planned_row p now ∷ t.operations }
      → Appended crates event_id p.operation.id OperationEventKind.planned OperationState.planned
          (planned_object p)
          now
          t1.events
          t2.events
      → t2.operations ≡ t1.operations
      → t2.approvals ≡ t1.approvals
      → t' ≡ t2
      → Changes crates t t'
  planned_change event_id p now t t1 t2 t' absent same ledger rows approvals last = rw last (
      one crates (
        plans event_id p now absent (ground arith) (ground arith) (
          subst
            (λ before.
              Appended crates event_id p.operation.id OperationEventKind.planned
                OperationState.planned (planned_object p) now before t2.events)
            (ap (λ (d : Db). d.events) same) ledger)))

  planned_row_id :
      (p : PreparedOperation) (now : DateTime) → (planned_row p now).id ≡ p.operation.id
  unfolding planned_row
  planned_row_id p now = refl

  replay_same :
      (p : PreparedOperation) (row : OperationRow) (t : Db) {x : Result OperationRecord} {t' : Db}
      → replay crates p row t ≡ ok (x, t')
      → t' ≡ t
  unfolding replay
  replay_same p row t h = elim (Result-cases (row_to_operation crates row)) [
    | inl (existing, e) ↦ ground arith
    | inr (x, e) ↦ absurd (ground arith)
  ]

  replay-Changes :
      (p : PreparedOperation) (row : OperationRow) (t : Db) {x : Result OperationRecord} {t' : Db}
      → replay crates p row t ≡ ok (x, t')
      → Changes crates t t'
  unfolding replay
  replay-Changes p row t {x} {t'} h = let same : t' ≡ t = replay_same p row t h in rw same here

  insert_new-Changes :
      (event_id : Uuid) (p : PreparedOperation) (now : DateTime) (t : Db)
      {x : Result OperationRecord} {t' : Db}
      → insert_new crates event_id p now t ≡ ok (x, t')
      → Changes crates t t'
  unfolding insert_new
  insert_new-Changes event_id p now t {x} {t'} h =
      let (u, t1, inserted, h1) = bind-eq-ok (insert_operation (planned_row p now)) _ t h in
      let (absent, same) = insert_operation_lem (planned_row p now) t inserted in
      let (event, t2, appended, h2) =
        bind-eq-ok
          (append_event_tx crates event_id p.operation.id OperationEventKind.planned
            OperationState.planned (planned_object p) now)
          _ t1 h1 in
      let (ledger, rows, approvals) =
        append_event_tx_lem crates event_id p.operation.id OperationEventKind.planned
          OperationState.planned (planned_object p) now t1 appended in
      let (fetched, t3, found, h3) =
        bind-eq-ok (fetch_operation_tx crates p.operation.id) _ t2 h2 in
      let (row, selected, read, same') = fetch_lem crates p.operation.id t2 found in
      planned_change event_id p now t t1 t2 t' (rw (planned_row_id p now) at absent) same ledger
        rows approvals (ground arith)

  insert_prepared-Changes :
      (event_id : Uuid) (p : PreparedOperation) (now : DateTime) (t : Db)
      {x : Result OperationRecord} {t' : Db}
      → insert_prepared crates event_id p now t ≡ ok (x, t')
      → Changes crates t t'
  unfolding insert_prepared
  insert_prepared-Changes event_id p now t {x} {t'} h =
      elim (Option-cases (
        select_by_key p.operation.workspace_id (actor_kind_str p.operation.actor.kind)
          p.operation.actor.id p.operation.idempotency_key t.operations)) [
            | inl e ↦ insert_new-Changes event_id p now t {x = x} (ground arith)
            | inr (row, e) ↦ replay-Changes p row t {x = x} (ground arith)
          ]

  pub insert_planned-Changes :
      (event_id runtime_id : Uuid) (operation : NewOperation) (now : DateTime) (t : Db)
      → Changes crates t (insert_planned crates event_id runtime_id operation now t).0
  unfolding insert_planned
  insert_planned-Changes event_id runtime_id operation now t =
      elim (Result-cases (prepare crates runtime_id operation)) [
        | inl (p, e) ↦
            rw (e, insert_planned)
              (commit-Changes crates t _
                λ x t' h. insert_prepared-Changes event_id p now t {x = x} h)
        | inr (x, e) ↦ rw (e, insert_planned) here
      ]
