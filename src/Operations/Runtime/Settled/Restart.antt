-- ===== src/Operations/Runtime/Settled/Restart.antt =====
-- A restart settles the operations of older runtimes, one after the other.
use agent_db.Base.{
  ◌≡◌, refl, sym, ap, ◌∙◌, ◌⊎◌, inl, inr, true, some, List, [], ◌∷◌, ◌!=◌, nat_eq, text_eq,
  Bool-cases, arith,
}
use mathlib.Core.List.{Memᴰ}
use native.Mathlib.Decide.{ℕ_discrete}
use agent_db.Error.{ok, Result-cases}
use agent_db.Json.{Value}
use agent_db.Operations.Crates.{Crates}
use agent_db.Operations.Model.{Uuid, DateTime, OperationState, state_eq}
use agent_db.Operations.Model.Labels.{state_str}
use agent_db.Operations.StateMachine.{RestartRecovery, restart_recovery}
use agent_db.Operations.Rows.{OperationRow, OperationRecord, row_to_operation}
use agent_db.Operations.Rows.Laws.{row_to_operation-Reads}
use agent_db.Operations.Store.{Db, lift, return, ◌>>=◌, select_operation, written}
use agent_db.Operations.Store.Laws.{bind-eq-ok, select_operation-id}
use agent_db.Operations.Repository.{transition_tx}
use agent_db.Operations.Repository.Steps.{transition_tx_lem}
use agent_db.Operations.Recovery.{
  RestartRecoveryReport, empty_report, is_terminal_label, select_stale, recover_operation,
  recover_rows, recover_body, recover_previous_runtimes,
}
use agent_db.Operations.Evolution.Restarts.{lift_lem, recover_operation-Changes}
use agent_db.Operations.Invariant.{Inv}
use agent_db.Operations.Invariant.Tables.{affected-selected, select_own, select_other}
use agent_db.Operations.Invariant.Preserved.{Changes-Inv}
use agent_db.Operations.Runtime.Histories.{Call, run, run-Inv}
use agent_db.Operations.Runtime.Durable.{run-Kept}
use agent_db.Operations.Runtime.Settled.{
  Settled, SettledIn, Advanced, select_stale-stored, answered, left_as_is,
}

module _ (crates : Crates) where
  transition-Advanced :
      (event_id : Uuid) (current : OperationRecord) (target : OperationState) (details : Value)
      (now : DateTime) (t : Db) {r : OperationRecord} {t' : Db} (id : Uuid)
      → Inv crates t
      → is_terminal_label (state_str target) ≡ true
      → transition_tx crates event_id current target details now t ≡ ok (r, t')
      → Advanced id t t' × (id ≡ current.id → SettledIn id t')
  transition-Advanced event_id current target details now t {r} {t'} id v ended h =
      let m = transition_tx_lem crates event_id current target details now t h in
      let state = state_str current.state in
      let hash = current.payload_hash in
      let (own, own_found, sel) =
        affected-selected target now current.id state hash t.operations v.unique m.one_row in
      let own_after = select_own target now current.id state hash t.operations own own_found sel in
      let settles : (id ≡ current.id → SettledIn id t') = (λ same row found.
        let same_row : row ≡ written target now own = cc (same, found, m.rows, own_after) in
        inl (ap (λ (x : OperationRow). is_terminal_label x.state) same_row ∙ ended)) in
      elim (ℕ_discrete id current.id) [
        | yes e ↦ (inl (settles e), settles)
        | no d ↦ (
          inr (
              ap (select_operation id) m.rows
              ∙ select_other target now current.id state hash id t.operations d),
          settles,
        )
      ]

  module _ (event_ids : Uuid → Uuid) (clock : Uuid → DateTime) where
    ended_return :
        (event_id : Uuid) (current : OperationRecord) (target : OperationState) (details : Value)
        (now : DateTime) (t : Db) {t' : Db} (report : RestartRecoveryReport)
        {report' : RestartRecoveryReport} (id : Uuid)
        → Inv crates t
        → is_terminal_label (state_str target) ≡ true
        → (transition_tx crates event_id current target details now >>= λ _. return report) t
          ≡ ok (report', t')
        → Advanced id t t' × (id ≡ current.id → SettledIn id t')
    ended_return event_id current target details now t {t'} report {report'} id v ended h =
        let (r, t1, moved, h1) =
          bind-eq-ok (transition_tx crates event_id current target details now) _ t h in
        let same : t' ≡ t1 = ground arith in
        rw same (transition-Advanced event_id current target details now t {r = r} id v ended moved)

    -- One round: the operation that it reads is settled afterwards, and another is as it was.
    recover_operation-Advanced :
        (verdict : RestartRecovery) (current : OperationRecord) (report : RestartRecoveryReport)
        (t : Db) {report' : RestartRecoveryReport} {t' : Db} (id : Uuid)
        → Inv crates t
        → recover_operation crates event_ids clock verdict current report t ≡ ok (report', t')
        → Advanced id t t'
          × (id ≡ current.id
              → SettledIn id t'
                ⊎ ((t' ≡ t)
                    × ((verdict ≡ RestartRecovery.keep_terminal)
                        ⊎ (verdict ≡ RestartRecovery.validate_job_checkpoint))))
    unfolding recover_operation state_str
    recover_operation-Advanced RestartRecovery.keep_terminal current report t {report'} {t'} id v
          h =
        let same : t' ≡ t = ground arith in
        (inr (ap (λ (d : Db). select_operation id d.operations) same), λ _. inr (same, inl refl))
    recover_operation-Advanced RestartRecovery.validate_job_checkpoint current report t {report'}
          {t'} id v h =
        let same : t' ≡ t = ground arith in
        (inr (ap (λ (d : Db). select_operation id d.operations) same), λ _. inr (same, inr refl))
    recover_operation-Advanced RestartRecovery.expire current report t id v h =
        let (a, s) = ended_return _ current OperationState.expired _ _ t _ id v refl h in
        (a, λ e. inl (s e))
    recover_operation-Advanced RestartRecovery.mark_failed current report t id v h =
        let (a, s) = ended_return _ current OperationState.failed _ _ t _ id v refl h in
        (a, λ e. inl (s e))
    recover_operation-Advanced RestartRecovery.outcome_unknown current report t id v h =
        let (a, s) = ended_return _ current OperationState.outcome_unknown _ _ t _ id v refl h in
        (a, λ e. inl (s e))

    -- What is settled stays so, and what is still to come is as it was.
    abbrev Pending : Uuid → List OperationRow → Db → Type 0
    Pending id rows t =
        SettledIn id t
        ⊎ ((row : OperationRow) × Memᴰ row rows × (select_operation id t.operations ≡ some row))

    still_settled : (id : Uuid) (t t' : Db) → SettledIn id t → Advanced id t t' → SettledIn id t'
    still_settled id t t' s (inl s') = s'
    still_settled id t t' s (inr same) = λ row found. s row (sym same ∙ found)

    kept_or_gone :
        {V : Type 0} (id : Uuid) (t t' : Db) (r : OperationRow)
        → select_operation id t.operations ≡ some r
        → (V → Settled r)
        → SettledIn id t' ⊎ ((t' ≡ t) × V)
        → SettledIn id t'
    kept_or_gone id t t' r mine left (inl s) = s
    kept_or_gone id t t' r mine left (inr (same, v)) =
        λ row found. let row_same : row ≡ r = cc (same, found, mine) in rw row_same (left v)

    round-Pending :
        (r : OperationRow) (rows : List OperationRow) (current : OperationRecord)
        (report : RestartRecoveryReport) (t : Db) {report' : RestartRecoveryReport} {t' : Db}
        (id : Uuid)
        → Inv crates t
        → row_to_operation crates r ≡ ok current
        → recover_operation crates event_ids clock
            (restart_recovery current.kind current.state)
            current
            report
            t
          ≡ ok (report', t')
        → Pending id (r ∷ rows) t
        → Pending id rows t'
    round-Pending r rows current report t {report'} {t'} id v read h p =
        let (advanced, own) =
          recover_operation-Advanced (restart_recovery current.kind current.state) current report t
            id v h in
        elim p [
          | inl s ↦ inl (still_settled id t t' s advanced)
          | inr (row, Memᴰ.head e, found) ↦
              let reads = row_to_operation-Reads crates r read in
              let mine : select_operation id t.operations ≡ some r = cc (e, found) in
              let own_id : id ≡ current.id =
                sym (reads.id ∙ select_operation-id id t.operations mine) in
              inl (
                kept_or_gone id t t' r mine
                  (λ verdict.
                    left_as_is current.kind current.state r reads.state reads.kind verdict)
                  (own own_id))
          | inr (row, Memᴰ.tail m, found) ↦ elim advanced [
            | inl s ↦ inl s
            | inr same ↦ inr (row, m, same ∙ found)
          ]
        ]

    recover_rows-Settled :
        (rows : List OperationRow) (report : RestartRecoveryReport) (t : Db)
        {report' : RestartRecoveryReport} {t' : Db} (id : Uuid)
        → Inv crates t
        → recover_rows crates event_ids clock rows report t ≡ ok (report', t')
        → Pending id rows t
        → SettledIn id t'
    unfolding recover_rows
    recover_rows-Settled [] report t {report'} {t'} id v h p = elim p [
      | inl s ↦ λ row found. let same : t' ≡ t = ground arith in s row (cc (same, found))
      | inr (row, m, found) ↦ elim m [ ]
    ]
    recover_rows-Settled (r ∷ rows) report t {report'} {t'} id v h p =
        let (current, t1, lifted, h1) = bind-eq-ok (lift (row_to_operation crates r)) _ t h in
        let (read, same) = lift_lem (row_to_operation crates r) t lifted in
        let (report1, t2, moved, h2) =
          bind-eq-ok
            (recover_operation crates event_ids clock (restart_recovery current.kind current.state)
              current report)
            _ t (rw same at h1) in
        let v2 =
          Changes-Inv crates
            (recover_operation-Changes crates event_ids clock
              (restart_recovery current.kind current.state) current report t moved)
            v in
        recover_rows-Settled rows report1 t2 id v2 h2
          (round-Pending r rows current report t id v read moved p)

    recover-Settled :
        (runtime_id : Uuid) (t : Db) {report : RestartRecoveryReport} {t' : Db} (id : Uuid)
        (row : OperationRow)
        → Inv crates t
        → recover_previous_runtimes crates event_ids clock runtime_id t ≡ (t', ok report)
        → select_operation id t.operations ≡ some row
        → (row.runtime_id != runtime_id) ≡ true
        → SettledIn id t'
    unfolding recover_previous_runtimes recover_body
    recover-Settled runtime_id t {report} {t'} id row v h found other =
        elim (Result-cases (
          recover_rows crates event_ids clock (select_stale runtime_id t.operations) empty_report
            t)) [
              | inl ((report1, t1), e) ↦
                  let same : t' ≡ t1 = ground arith in
                  let pending : Pending id (select_stale runtime_id t.operations) t =
                    elim (Bool-cases (is_terminal_label row.state)) [
                      | inl ended ↦ inl (λ row' found'. inl (cc (ended, found, found')))
                      | inr live ↦ inr (
                        row,
                        select_stale-stored runtime_id id t.operations row found other live,
                        found,
                      )
                    ] in
                  rw same (
                    recover_rows-Settled (select_stale runtime_id t.operations) empty_report t id v
                      e pending)
              | inr (x, e) ↦ absurd (ground arith)
            ]

  -- After every history, a restart that succeeds leaves each stored operation of another runtime
  -- stored, and either ended or an executing resumable job, which waits for its checkpoint to be
  -- validated.
  pub restart-Settled :
      (calls : List Call) (event_ids : Uuid → Uuid) (clock : Uuid → DateTime) (runtime_id : Uuid)
      (report : RestartRecoveryReport) (id : Uuid) (row : OperationRow)
      → (recover_previous_runtimes crates event_ids clock runtime_id (run crates calls)).1
        ≡ ok report
      → select_operation id (run crates calls).operations ≡ some row
      → (row.runtime_id != runtime_id) ≡ true
      → (row' : OperationRow) × (select_operation id
            (run crates (Call.restarts runtime_id event_ids clock ∷ calls)).operations
          ≡ some row')
        × Settled row'
  restart-Settled calls event_ids clock runtime_id report id row h found other =
      let (row', found', _) =
        run-Kept crates (Call.restarts runtime_id event_ids clock ∷ []) calls id row found in
      (
        row',
        found',
        recover-Settled event_ids clock runtime_id (run crates calls) {report = report} id row
            (run-Inv crates calls)
            (answered
              (recover_previous_runtimes crates event_ids clock runtime_id (run crates calls)) h)
            found other row' found',
      )
