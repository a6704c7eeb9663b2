-- ===== src/Operations/Recovery.antt =====
-- `recover_previous_runtimes` of src-tauri/src/operations/repository.rs. The clock reading and the
-- drawn id of each transition are functions of the operation that it moves.
use agent_db.Base.{
  Bool, not, ◌&&◌, ◌||◌, List, [], ◌∷◌, ◌++◌, String, ◌==◌, ◌!=◌, text_eq, nat_eq, ltb,
  if◌then◌else◌,
}
use agent_db.Error.{Result, ok}
use agent_db.Operations.Crates.{Crates}
use agent_db.Operations.Model.{Uuid, DateTime, OperationState}
use agent_db.Operations.StateMachine.{RestartRecovery, restart_recovery}
use agent_db.Operations.Rows.{OperationRow, OperationRecord, row_to_operation}
use agent_db.Operations.Store.{Db, Tx, ◌>>=◌, lift, return}
use agent_db.Operations.Repository.{Outcome, commit, transition_tx, reason_object}

pub record RestartRecoveryReport : Type 0 where
  pub expired : List Uuid
  pub failed : List Uuid
  pub outcome_unknown : List Uuid
  pub checkpoint_validation_required : List Uuid

abbrev pub empty_report : RestartRecoveryReport
empty_report = record {
  expired = [];
  failed = [];
  outcome_unknown = [];
  checkpoint_validation_required = [];
}

-- The states of the `NOT IN`.
abbrev pub is_terminal_label : String → Bool
is_terminal_label s =
    s == "rejected"
    || s == "expired"
    || s == "cancelled"
    || s == "succeeded"
    || s == "failed"
    || s == "outcome_unknown"

-- `created_at ASC, id ASC`: the texts of two ids are ordered as their numbers.
abbrev pub precedes : OperationRow → OperationRow → Bool
precedes a b = ltb a.created_at b.created_at || (a.created_at == b.created_at && ltb a.id b.id)

unfoldable pub insert_row : OperationRow → List OperationRow → List OperationRow
insert_row row [] = row ∷ []
insert_row row (other ∷ rows) =
    if precedes other row then other ∷ insert_row row rows else row ∷ other ∷ rows

-- The `SELECT` of the operations of older runtimes that have not ended.
unfoldable pub select_stale : Uuid → List OperationRow → List OperationRow
unfolding insert_row
select_stale runtime_id [] = []
select_stale runtime_id (row ∷ rows) =
    let rest = select_stale runtime_id rows in
    if row.runtime_id != runtime_id && not (is_terminal_label row.state)
    then insert_row row rest
    else rest

module _ (crates : Crates) (event_ids : Uuid → Uuid) (clock : Uuid → DateTime) where
  -- One round of the loop.
  unfoldable pub recover_operation :
      RestartRecovery → OperationRecord → RestartRecoveryReport → Tx RestartRecoveryReport
  recover_operation RestartRecovery.keep_terminal operation report = return report
  recover_operation RestartRecovery.expire operation report = do
    updated ←
        transition_tx crates (event_ids operation.id) operation OperationState.expired
          (reason_object "runtime_restarted") (clock operation.id)
    return (record report { expired = report.expired ++ operation.id ∷ [] })
  recover_operation RestartRecovery.mark_failed operation report = do
    updated ←
        transition_tx crates (event_ids operation.id) operation OperationState.failed
          (reason_object "runtime_interrupted_before_receipt") (clock operation.id)
    return (record report { failed = report.failed ++ operation.id ∷ [] })
  recover_operation RestartRecovery.outcome_unknown operation report = do
    updated ←
        transition_tx crates (event_ids operation.id) operation OperationState.outcome_unknown
          (reason_object "target_commit_status_unknown_after_restart") (clock operation.id)
    return (record report { outcome_unknown = report.outcome_unknown ++ operation.id ∷ [] })
  recover_operation RestartRecovery.validate_job_checkpoint operation report =
      return (record report {
        checkpoint_validation_required = report.checkpoint_validation_required ++ operation.id ∷ [];
      })

  unfoldable pub recover_rows : List OperationRow → RestartRecoveryReport → Tx RestartRecoveryReport
  recover_rows [] report = return report
  recover_rows (row ∷ rows) report = do
    operation ← lift (row_to_operation crates row)
    report' ← recover_operation (restart_recovery operation.kind operation.state) operation report
    recover_rows rows report'

  unfoldable pub recover_body : Uuid → Tx (Result RestartRecoveryReport)
  recover_body current_runtime_id tables =
      (do
        report ← recover_rows (select_stale current_runtime_id tables.operations) empty_report
        return (ok report))
        tables

  -- `recover_previous_runtimes`.
  unfoldable pub recover_previous_runtimes : Uuid → Db → Outcome RestartRecoveryReport
  recover_previous_runtimes current_runtime_id tables =
      commit tables (recover_body current_runtime_id tables)
