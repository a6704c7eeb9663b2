-- ===== src/Operations/Repository/Steps.antt =====
-- What each part of a transaction has done once it succeeds.
use agent_db.Base.{
  ℕ, ◌≡◌, subst, true, false, ◌⊎◌, inl, inr, Option, some, List, ◌∷◌, String, nat_eq, text_eq,
  arith, Bool-cases, Option-cases,
}
use agent_db.Error.{AppError, db, Result, ok, err, Result-cases}
use agent_db.Json.{Value}
use agent_db.Operations.Crates.{Crates}
use agent_db.Operations.Canonicalize.{canonical_json}
use agent_db.Operations.Model.{Uuid, DateTime, OperationState, OperationEventKind}
use agent_db.Operations.Model.Labels.{state_str}
use agent_db.Operations.StateMachine.{ensure_transition, allowed}
use agent_db.Operations.Rows.{
  OperationRow, OperationRecord, OperationEventRecord, EventRow, row_to_operation,
}
use agent_db.Operations.Store.{
  Db, select_operation, update_rows, affected, tail_event, clashes, insert_event,
}
use agent_db.Operations.Store.Laws.{bind-eq-ok}
use agent_db.Operations.Ledger.{append_event_tx, event_row, next_link, transition_event_kind}
use agent_db.Operations.Repository.{
  commit, apply_update, fetch_operation_tx, transition_tx, lift_transition,
}

pub commit-eq-ok :
    {A : Type 0} (t : Db) (x : Result (Result A × Db)) {a : A}
    → (commit t x).1 ≡ ok a
    → x ≡ ok (ok a, (commit t x).0)
commit-eq-ok t (ok (ok b, t')) h = ground arith
commit-eq-ok t (ok (err e, t')) h = absurd (ground arith)
commit-eq-ok t (err e) h = absurd (ground arith)

apply_update_lem :
    (target : OperationState) (now : DateTime) (current : OperationRecord) (t : Db) {u : Unit {0}}
    {t' : Db}
    → apply_update target now current t ≡ ok (u, t')
    → (affected target now current.id (state_str current.state) current.payload_hash t.operations
        ≡ 1)
      × (t' ≡ record t {
        operations =
            update_rows target now current.id
              (state_str current.state)
              current.payload_hash
              t.operations;
      })
unfolding apply_update
apply_update_lem target now current t h = ground arith

insert_event-cases :
    (row : EventRow) (t : Db)
    → ((clashes row t.events ≡ false)
        × (insert_event row t ≡ ok (tt, record t { events = row ∷ t.events })))
      ⊎ ((e : AppError) × (insert_event row t ≡ err e))
unfolding insert_event
insert_event-cases row t = elim (Bool-cases (clashes row t.events)) [
  | inl e ↦ inr (db "UNIQUE constraint failed: operation_events", rw e)
  | inr e ↦ inl (e, rw e)
]

ensured_lem :
    (s target : OperationState) (t : Db) {u : Unit {0}} {t' : Db}
    → lift_transition (ensure_transition s target) t ≡ ok (u, t')
    → (allowed s target ≡ true) × (t' ≡ t)
unfolding lift_transition ensure_transition
ensured_lem s target t h = elim (Bool-cases (allowed s target)) [
  | inl e ↦ (e, ground arith)
  | inr e ↦ absurd (ground arith)
]

module _ (crates : Crates) where
  -- An appended event continues the ledger of its operation.
  pub record Appended (event_id id : Uuid) (kind : OperationEventKind) (state : OperationState)
      (details : Value) (now : DateTime) (before after : List EventRow) : Type 0 where
    pub link : ℕ × Option String
    pub continues : next_link (tail_event id before) ≡ ok link
    pub fresh :
        clashes
          (event_row crates event_id id link kind state (canonical_json crates details) now)
          before
        ≡ false
    pub appended :
        after
        ≡ event_row crates event_id id link kind state (canonical_json crates details) now ∷ before

  pub append_event_tx_lem :
      (event_id id : Uuid) (kind : OperationEventKind) (state : OperationState) (details : Value)
      (now : DateTime) (t : Db) {event : OperationEventRecord} {t' : Db}
      → append_event_tx crates event_id id kind state details now t ≡ ok (event, t')
      → Appended event_id id kind state details now t.events t'.events
        × (t'.operations ≡ t.operations)
        × (t'.approvals ≡ t.approvals)
  unfolding append_event_tx
  append_event_tx_lem event_id id kind state details now t {event} {t'} h =
      elim (Result-cases (next_link (tail_event id t.events))) [
        | inl (link, e) ↦
            let row =
              event_row crates event_id id link kind state (canonical_json crates details) now in
            elim (insert_event-cases row t) [
              | inl (c, f) ↦ (
                record { link = link; continues = e; fresh = c; appended = ground arith },
                ground arith,
                ground arith,
              )
              | inr (x, f) ↦ absurd (ground arith)
            ]
        | inr (x, e) ↦ absurd (ground arith)
      ]

  pub fetch_lem :
      (id : Uuid) (t : Db) {r : OperationRecord} {t' : Db}
      → fetch_operation_tx crates id t ≡ ok (r, t')
      → (row : OperationRow) × (select_operation id t.operations ≡ some row)
        × (row_to_operation crates row ≡ ok r)
        × (t' ≡ t)
  unfolding fetch_operation_tx
  fetch_lem id t h = elim (Option-cases (select_operation id t.operations)) [
    | inl e ↦ absurd (ground arith)
    | inr (row, e) ↦ (row, e, ground arith, ground arith)
  ]

  -- A transition: an allowed edge, one row rewritten, one event appended, and the row read back.
  pub record Transitioned (event_id : Uuid) (current : OperationRecord) (target : OperationState)
      (details : Value) (now : DateTime) (t t' : Db) (r : OperationRecord) : Type 0 where
    pub edge : allowed current.state target ≡ true
    pub one_row :
        affected target now current.id (state_str current.state) current.payload_hash t.operations
        ≡ 1
    pub rows :
        t'.operations
        ≡ update_rows target now current.id
            (state_str current.state)
            current.payload_hash
            t.operations
    pub approvals : t'.approvals ≡ t.approvals
    pub ledger :
        Appended event_id current.id
          (transition_event_kind target)
          target
          details
          now
          t.events
          t'.events
    pub row : OperationRow
    pub row_selected : select_operation current.id t'.operations ≡ some row
    pub row_read : row_to_operation crates row ≡ ok r

  pub transition_tx_lem :
      (event_id : Uuid) (current : OperationRecord) (target : OperationState) (details : Value)
      (now : DateTime) (t : Db) {r : OperationRecord} {t' : Db}
      → transition_tx crates event_id current target details now t ≡ ok (r, t')
      → Transitioned event_id current target details now t t' r
  unfolding transition_tx
  transition_tx_lem event_id current target details now t {r} {t'} h =
      let (u, t1, ensured, h1) =
        bind-eq-ok (lift_transition (ensure_transition current.state target)) _ t h in
      let (u', t2, updated, h2) = bind-eq-ok (apply_update target now current) _ t1 h1 in
      let (event, t3, appended, h3) =
        bind-eq-ok
          (append_event_tx crates event_id current.id (transition_event_kind target) target details
            now)
          _ t2 h2 in
      let (allowed_edge, same1) = ensured_lem current.state target t ensured in
      let (one, same2) = apply_update_lem target now current t1 updated in
      let (ledger, same3, same4) =
        append_event_tx_lem event_id current.id (transition_event_kind target) target details now t2
          appended in
      let (row, selected, read, same5) = fetch_lem current.id t3 h3 in
      rw (same5) (record {
        edge = allowed_edge;
        one_row = rw same1 at one;
        rows = ground arith;
        approvals = ground arith;
        ledger =
            subst
              (λ before.
                Appended event_id current.id (transition_event_kind target) target details now
                  before t3.events)
              (ground arith) ledger;
        row = row;
        row_selected = selected;
        row_read = read;
      })

  pub fetch_operation_tx-selected :
      (id : Uuid) (t : Db) {row : OperationRow} {r : OperationRecord}
      → select_operation id t.operations ≡ some row
      → row_to_operation crates row ≡ ok r
      → fetch_operation_tx crates id t ≡ ok (r, t)
  unfolding fetch_operation_tx
  fetch_operation_tx-selected id t s read = ground arith
