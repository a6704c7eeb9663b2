-- ===== src/Operations/Runtime/Settled.antt =====
-- What a restart leaves behind of the operations of older runtimes.
pub mod Restart
use agent_db.Base.{
  ◌≡◌, ◌≢◌, refl, sym, ap, ◌∙◌, ◌⊎◌, inl, inr, Bool, true, false, not, some, List, [], ◌∷◌, ◌!=◌,
  ◌==◌, ◌&&◌, eq_of_==, nat_eq, text_eq, if◌then◌else◌, Bool-cases, arith,
}
use mathlib.Core.List.{Memᴰ}
use native.Mathlib.Decide.{ℕ_discrete}
use agent_db.Error.{Result, ok, err, Result-cases}
use agent_db.Json.{Value}
use agent_db.Operations.Crates.{Crates}
use agent_db.Operations.Model.{
  Uuid, DateTime, OperationState, OperationKind, is_resumable_job, is_terminal, state_eq,
  may_mutate_target,
}
use agent_db.Operations.Model.Labels.{state_str, operation_kind_str}
use agent_db.Operations.StateMachine.{RestartRecovery, restart_recovery}
use agent_db.Operations.Rows.{OperationRow, OperationRecord, row_to_operation}
use agent_db.Operations.Rows.Laws.{Reads, row_to_operation-Reads}
use agent_db.Operations.Store.{Db, lift, return, ◌>>=◌, select_operation, selected, written}
use agent_db.Operations.Store.Laws.{bind-eq-ok, select_operation-id}
use agent_db.Operations.Repository.{Outcome, transition_tx, reason_object}
use agent_db.Operations.Repository.Steps.{Transitioned, transition_tx_lem}
use agent_db.Operations.Recovery.{
  RestartRecoveryReport, empty_report, is_terminal_label, insert_row, precedes, select_stale,
  recover_operation, recover_rows, recover_body, recover_previous_runtimes,
}
use agent_db.Operations.Evolution.Restarts.{lift_lem, recover_operation-Changes}
use agent_db.Operations.Invariant.{Inv}
use agent_db.Operations.Invariant.Tables.{affected-selected, select_own, select_other}
use agent_db.Operations.Invariant.Preserved.{Changes-Inv}
use agent_db.Operations.Runtime.Histories.{Call, run, run-Inv}
use agent_db.Operations.Runtime.Durable.{run-Kept}

-- An operation that has ended, or an executing job whose checkpoint is still to be validated.
abbrev pub Settled : OperationRow → Type 0
Settled row =
    (is_terminal_label row.state ≡ true)
    ⊎ ((row.state ≡ state_str OperationState.executing)
        × (kind : OperationKind) × (row.operation_kind ≡ operation_kind_str kind)
        × (is_resumable_job kind ≡ true))

abbrev pub SettledIn : Uuid → Db → Type 0
SettledIn id t = (row : OperationRow) → select_operation id t.operations ≡ some row → Settled row

-- What one change does to the operation under an id: it settles it, or leaves its row.
abbrev pub Advanced : Uuid → Db → Db → Type 0
Advanced id t t' =
    SettledIn id t' ⊎ (select_operation id t'.operations ≡ select_operation id t.operations)

insert_row-head : (r : OperationRow) (rows : List OperationRow) → Memᴰ r (insert_row r rows)
unfolding insert_row
insert_row-head r [] = Memᴰ.head refl
insert_row-head r (x ∷ rows) = elim (Bool-cases (precedes x r)) [
  | inl e ↦ rw e (Memᴰ.tail (insert_row-head r rows))
  | inr e ↦ rw e (Memᴰ.head refl)
]

insert_row-tail :
    (x r : OperationRow) (rows : List OperationRow) → Memᴰ x rows → Memᴰ x (insert_row r rows)
unfolding insert_row
insert_row-tail x r [] m = elim m [ ]
insert_row-tail x r (y ∷ rows) (Memᴰ.head e) = elim (Bool-cases (precedes y r)) [
  | inl first ↦ rw first (Memᴰ.head e)
  | inr later ↦ rw later (Memᴰ.tail (Memᴰ.head e))
]
insert_row-tail x r (y ∷ rows) (Memᴰ.tail m) = elim (Bool-cases (precedes y r)) [
  | inl first ↦ rw first (Memᴰ.tail (insert_row-tail x r rows m))
  | inr later ↦ rw later (Memᴰ.tail (Memᴰ.tail m))
]

pub select_stale-stored :
    (runtime_id id : Uuid) (rows : List OperationRow) (row : OperationRow)
    → select_operation id rows ≡ some row
    → (row.runtime_id != runtime_id) ≡ true
    → is_terminal_label row.state ≡ false
    → Memᴰ row (select_stale runtime_id rows)
unfolding select_operation select_stale
select_stale-stored runtime_id id [] row found other live = cc
select_stale-stored runtime_id id (r ∷ rows) row found other live = elim (Bool-cases (r.id == id)) [
  | inl own ↦
      let same : r ≡ row = cc (rw own at found) in
      rw (same, other, live) (insert_row-head row (select_stale runtime_id rows))
  | inr apart ↦
      let later = select_stale-stored runtime_id id rows row (rw apart at found) other live in
      elim (Bool-cases (r.runtime_id != runtime_id && not (is_terminal_label r.state))) [
        | inl stale ↦ rw stale (insert_row-tail row r (select_stale runtime_id rows) later)
        | inr kept ↦ rw kept later
      ]
]

pub answered :
    (o : Outcome RestartRecoveryReport) {report : RestartRecoveryReport}
    → o.1 ≡ ok report
    → o ≡ (o.0, ok report)
answered (t, x) h = ap (λ y. (t, y)) h

terminal_label :
    (s : OperationState) → is_terminal s ≡ true → is_terminal_label (state_str s) ≡ true
unfolding state_str
terminal_label OperationState.planned h = cc
terminal_label OperationState.pending_approval h = cc
terminal_label OperationState.ready h = cc
terminal_label OperationState.approved h = cc
terminal_label OperationState.rejected h = refl
terminal_label OperationState.expired h = refl
terminal_label OperationState.cancelled h = refl
terminal_label OperationState.executing h = cc
terminal_label OperationState.succeeded h = refl
terminal_label OperationState.failed h = refl
terminal_label OperationState.outcome_unknown h = refl

executing_job :
    (kind : OperationKind) (state : OperationState)
    → is_terminal state ≡ false
    → (restart_recovery kind state ≡ RestartRecovery.keep_terminal)
      ⊎ (restart_recovery kind state ≡ RestartRecovery.validate_job_checkpoint)
    → ((state == OperationState.executing) ≡ true) × (is_resumable_job kind ≡ true)
unfolding restart_recovery
executing_job kind state live v = ground arith

-- Which rows the restart leaves as they are.
pub left_as_is :
    (kind : OperationKind) (state : OperationState) (row : OperationRow)
    → row.state ≡ state_str state
    → row.operation_kind ≡ operation_kind_str kind
    → (restart_recovery kind state ≡ RestartRecovery.keep_terminal)
      ⊎ (restart_recovery kind state ≡ RestartRecovery.validate_job_checkpoint)
    → Settled row
left_as_is kind state row s k v = elim (Bool-cases (is_terminal state)) [
  | inl ended ↦ inl (ap is_terminal_label s ∙ terminal_label state ended)
  | inr live ↦
      let (running, resumable) = executing_job kind state live v in
      inr (s ∙ ap state_str (eq_of_== state OperationState.executing running), kind, k, resumable)
]
