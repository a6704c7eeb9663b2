-- ===== src/Operations/Evolution/Restarts.antt =====
-- `recover_previous_runtimes`, whatever it returns, makes a sequence of changes.
use agent_db.Base.{◌≡◌, List, [], ◌∷◌, arith}
use agent_db.Error.{Result, ok, err}
use agent_db.Operations.Crates.{Crates}
use agent_db.Operations.Model.{Uuid, DateTime, OperationState}
use agent_db.Operations.StateMachine.{RestartRecovery, restart_recovery}
use agent_db.Operations.Rows.{OperationRow, OperationRecord, row_to_operation}
use agent_db.Operations.Store.{Db, lift}
use agent_db.Operations.Store.Laws.{bind-eq-ok}
use agent_db.Operations.Repository.{reason_object}
use agent_db.Operations.Recovery.{
  RestartRecoveryReport, empty_report, select_stale, recover_operation, recover_rows, recover_body,
  recover_previous_runtimes,
}
use agent_db.Operations.Evolution.{Changes, here, join, commit-Changes}
use agent_db.Operations.Evolution.Calls.{transition_return-Changes}

pub lift_lem :
    {A : Type 0} (m : Result A) (t : Db) {a : A} {t' : Db}
    → lift m t ≡ ok (a, t')
    → (m ≡ ok a) × (t' ≡ t)
lift_lem (ok b) t h = ground arith
lift_lem (err e) t h = absurd (ground arith)

module _ (crates : Crates) (event_ids : Uuid → Uuid) (clock : Uuid → DateTime) where
  pub recover_operation-Changes :
      (verdict : RestartRecovery) (operation : OperationRecord) (report : RestartRecoveryReport)
      (t : Db) {report' : RestartRecoveryReport} {t' : Db}
      → recover_operation crates event_ids clock verdict operation report t ≡ ok (report', t')
      → Changes crates t t'
  unfolding recover_operation
  recover_operation-Changes RestartRecovery.keep_terminal operation report t {report'} {t'} h =
      let same : t' ≡ t = ground arith in rw same here
  recover_operation-Changes RestartRecovery.expire operation report t h =
      transition_return-Changes crates (event_ids operation.id) operation OperationState.expired
        (reason_object "runtime_restarted") (clock operation.id) _ t (λ e. absurd (ground arith)) h
  recover_operation-Changes RestartRecovery.mark_failed operation report t h =
      transition_return-Changes crates (event_ids operation.id) operation OperationState.failed
        (reason_object "runtime_interrupted_before_receipt") (clock operation.id) _ t
        (λ e. absurd (ground arith)) h
  recover_operation-Changes RestartRecovery.outcome_unknown operation report t h =
      transition_return-Changes crates (event_ids operation.id) operation
        OperationState.outcome_unknown (reason_object "target_commit_status_unknown_after_restart")
        (clock operation.id) _ t (λ e. absurd (ground arith)) h
  recover_operation-Changes RestartRecovery.validate_job_checkpoint operation report t {report'}
        {t'} h =
      let same : t' ≡ t = ground arith in rw same here

  recover_rows-Changes :
      (rows : List OperationRow) (report : RestartRecoveryReport) (t : Db)
      {report' : RestartRecoveryReport} {t' : Db}
      → recover_rows crates event_ids clock rows report t ≡ ok (report', t')
      → Changes crates t t'
  unfolding recover_rows
  recover_rows-Changes [] report t {report'} {t'} h =
      let same : t' ≡ t = ground arith in rw same here
  recover_rows-Changes (row ∷ rows) report t {report'} {t'} h =
      let (operation, t1, read, h1) = bind-eq-ok (lift (row_to_operation crates row)) _ t h in
      let (parsed, same) = lift_lem (row_to_operation crates row) t read in
      let (report1, t2, moved, h2) =
        bind-eq-ok
          (recover_operation crates event_ids clock
            (restart_recovery operation.kind operation.state) operation report)
          _ t (rw same at h1) in
      join crates
        (recover_operation-Changes (restart_recovery operation.kind operation.state) operation
          report t moved)
        (recover_rows-Changes rows report1 t2 {report' = report'} {t' = t'} h2)

  recover_body-Changes :
      (runtime_id : Uuid) (t : Db) {x : Result RestartRecoveryReport} {t' : Db}
      → recover_body crates event_ids clock runtime_id t ≡ ok (x, t')
      → Changes crates t t'
  unfolding recover_body
  recover_body-Changes runtime_id t {x} {t'} h =
      let (report, t1, recovered, h1) =
        bind-eq-ok
          (recover_rows crates event_ids clock (select_stale runtime_id t.operations) empty_report)
          _ t h in
      let same : t' ≡ t1 = ground arith in
      rw same (recover_rows-Changes (select_stale runtime_id t.operations) empty_report t recovered)

  pub recover-Changes :
      (runtime_id : Uuid) (t : Db)
      → Changes crates t (recover_previous_runtimes crates event_ids clock runtime_id t).0
  unfolding recover_previous_runtimes
  recover-Changes runtime_id t =
      commit-Changes crates t _ λ x t' h. recover_body-Changes runtime_id t {x = x} h
