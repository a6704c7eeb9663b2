-- ===== src/Operations/Evolution/Calls.antt =====
-- Each operation of the repository, whatever it returns, makes a sequence of changes.
use agent_db.Base.{
  ◌∙◌, ◌≡◌, Bool, true, false, not, ◌&&◌, inl, inr, some, String, arith, Bool-cases, ◌⊎◌,
}
use agent_db.Error.{Result, ok, Result-cases}
use agent_db.Json.{Value}
use agent_db.Operations.Crates.{Crates}
use agent_db.Operations.Model.{
  Uuid, DateTime, OperationState, OperationEventKind, OperationApprovalDecision, may_mutate_target,
}
use agent_db.Operations.Repository.Claim.{executable_mutation}
use agent_db.Operations.Rows.Laws.{row_to_operation-Reads}
use agent_db.Operations.Rows.{OperationEventRecord, OperationRecord, OperationRow, row_to_operation}
use agent_db.Operations.Store.{Db, return, ◌>>=◌, is_executing, insert_approval, select_operation}
use agent_db.Operations.Store.Laws.{bind-eq-ok, select_operation-id, reject_if_lem}
use agent_db.Operations.Repository.{
  OperationApprovalCommand, commit, transition_tx, fetch_operation_tx, ensure_runtime,
  expire_and_refuse, approval_row, decided_state, is_approved, is_executable, is_ready,
  decision_object, progress_fetched_body, claim_current, claim_fetched, claim_body, claim_execution,
  transition_body, transition, require_exact_approval, reason_object, payload_hash_object,
  decide_current, decide_fetched, decide_body, decide_approval, may_decide, progress_body,
  append_progress,
}
use agent_db.Operations.Repository.Decide.{insert_approval_lem}
use agent_db.Operations.Ledger.{append_event_tx}
use agent_db.Operations.Repository.Steps.{append_event_tx_lem, fetch_lem, transition_tx_lem}
use agent_db.Operations.Evolution.{
  Guarded, Changes, here, one, join, commit-Changes, moves, decides, notes,
}

module _ (crates : Crates) where
  transition_tx-Changes :
      (event_id : Uuid) (current : OperationRecord) (target : OperationState) (details : Value)
      (now : DateTime) (t : Db) {r : OperationRecord} {t' : Db}
      → (is_executing target ≡ true → Guarded crates t current now)
      → transition_tx crates event_id current target details now t ≡ ok (r, t')
      → Changes crates t t'
  transition_tx-Changes event_id current target details now t {r} guard h = one crates (
      moves event_id current target details now r guard
        (transition_tx_lem crates event_id current target details now t h))

  -- The same with any last step that keeps the tables.
  pub transition_return-Changes :
      {A : Type 0} (event_id : Uuid) (current : OperationRecord) (target : OperationState)
      (details : Value) (now : DateTime) (f : OperationRecord → A) (t : Db) {a : A} {t' : Db}
      → (is_executing target ≡ true → Guarded crates t current now)
      → (transition_tx crates event_id current target details now >>= λ r. return (f r)) t
        ≡ ok (a, t')
      → Changes crates t t'
  transition_return-Changes event_id current target details now f t {a} {t'} guard h =
      elim (Result-cases (transition_tx crates event_id current target details now t)) [
        | inl ((r, t1), e) ↦
            transition_tx-Changes event_id current target details now t {r = r} guard (ground arith)
        | inr (x, e) ↦ absurd (ground arith)
      ]

  expire_and_refuse-Changes :
      (event_id : Uuid) (current : OperationRecord) (reason : String) (now : DateTime) (t : Db)
      {x : Result OperationRecord} {t' : Db}
      → expire_and_refuse crates event_id current reason now t ≡ ok (x, t')
      → Changes crates t t'
  unfolding expire_and_refuse
  expire_and_refuse-Changes event_id current reason now t h =
      transition_return-Changes event_id current OperationState.expired (reason_object reason) now _
        t (λ e. absurd (ground arith)) h

  consent_lem :
      (current : OperationRecord) (found : Bool)
      → (is_approved current.state && not found) ≡ false
      → (may_mutate_target current.kind ≡ true → current.state ≡ OperationState.approved)
      → may_mutate_target current.kind ≡ true
      → found ≡ true
  consent_lem current found checked consenting m = let e = consenting m in ground arith

  claim_current-Changes :
      (event_id : Uuid) (current : OperationRecord) (row : OperationRow) (now : DateTime) (t : Db)
      {x : Result OperationRecord} {t' : Db}
      → select_operation current.id t.operations ≡ some row
      → row_to_operation crates row ≡ ok current
      → (may_mutate_target current.kind ≡ true → current.state ≡ OperationState.approved)
      → claim_current crates event_id current now t ≡ ok (x, t')
      → Changes crates t t'
  unfolding claim_current require_exact_approval
  claim_current-Changes event_id current row now t found read consenting h =
      let (u, t1, required, h1) = bind-eq-ok (require_exact_approval current now) _ t h in
      let (checked, same) = reject_if_lem _ _ t required in
      transition_return-Changes event_id current OperationState.executing
        (payload_hash_object current.payload_hash) now ok t
        (λ e. record {
          row = row;
          found = found;
          read = read;
          consent = λ m. consent_lem current _ checked consenting m;
        })
        (rw same at h1)

  claim_fetched_split :
      (event_id runtime_id : Uuid) (current : OperationRecord) (now : DateTime) (t : Db)
      {x : Result OperationRecord} {t' : Db}
      → claim_fetched crates event_id current runtime_id now t ≡ ok (x, t')
      → (expire_and_refuse crates event_id current "operation_expired" now t ≡ ok (x, t'))
        ⊎ ((is_executable current.state ≡ true)
            × ((is_ready current.state && may_mutate_target current.kind) ≡ false)
            × (claim_current crates event_id current now t ≡ ok (x, t')))
  unfolding claim_fetched ensure_runtime
  claim_fetched_split event_id runtime_id current now t h = ground arith

  -- The row that was fetched by an id is the one selected by the record's own id.
  own_id :
      (id : Uuid) (current : OperationRecord) (row : OperationRow) (t : Db)
      → select_operation id t.operations ≡ some row
      → row_to_operation crates row ≡ ok current
      → current.id ≡ id
  own_id id current row t selected read =
      (row_to_operation-Reads crates row read).id ∙ select_operation-id id t.operations selected

  claim_body-Changes :
      (event_id id runtime_id : Uuid) (now : DateTime) (t : Db) {x : Result OperationRecord}
      {t' : Db}
      → claim_body crates event_id id runtime_id now t ≡ ok (x, t')
      → Changes crates t t'
  unfolding claim_body
  claim_body-Changes event_id id runtime_id now t {x} {t'} h =
      let (current, t1, fetched, h1) = bind-eq-ok (fetch_operation_tx crates id) _ t h in
      let (row, selected, read, same) = fetch_lem crates id t fetched in
      elim (claim_fetched_split event_id runtime_id current now t {x = x} {t' = t'}
        (rw same at h1)) [
          | inl e ↦ expire_and_refuse-Changes event_id current "operation_expired" now t e
          | inr (executable, unready, e) ↦
              claim_current-Changes event_id current row now t
                (rw (own_id id current row t selected read) selected) read
                (λ m. executable_mutation current.state current.kind executable unready m) e
        ]

  pub claim_execution-Changes :
      (event_id id runtime_id : Uuid) (now : DateTime) (t : Db)
      → Changes crates t (claim_execution crates event_id id runtime_id now t).0
  unfolding claim_execution
  claim_execution-Changes event_id id runtime_id now t =
      commit-Changes crates t _ λ x t' h. claim_body-Changes event_id id runtime_id now t {x = x} h

  transition_body-Changes :
      (event_id id runtime_id : Uuid) (target : OperationState) (details : Value) (now : DateTime)
      (t : Db) {x : Result OperationRecord} {t' : Db}
      → is_executing target ≡ false
      → transition_body crates event_id id runtime_id target details now t ≡ ok (x, t')
      → Changes crates t t'
  unfolding transition_body ensure_runtime
  transition_body-Changes event_id id runtime_id target details now t {x} {t'} plain h =
      let (current, t1, fetched, h1) = bind-eq-ok (fetch_operation_tx crates id) _ t h in
      let (row, selected, read, same) = fetch_lem crates id t fetched in
      let (u, t2, owned, h2) = bind-eq-ok (ensure_runtime current runtime_id) _ t (rw same at h1) in
      let (checked, same') = reject_if_lem _ _ t owned in
      transition_return-Changes event_id current target details now ok t {a = x}
        (λ e. absurd (ground arith)) (rw same' at h2)

  pub transition-Changes :
      (event_id id runtime_id : Uuid) (target : OperationState) (details : Value) (now : DateTime)
      (t : Db)
      → Changes crates t (transition crates event_id id runtime_id target details now t).0
  unfolding transition
  transition-Changes event_id id runtime_id target details now t =
      elim (Bool-cases (is_executing target)) [
        | inl e ↦ rw e here
        | inr e ↦ rw e (
            commit-Changes crates t _ λ x t' h.
              transition_body-Changes event_id id runtime_id target details now t {x = x} e h)
      ]

  deciding : (d : OperationApprovalDecision) → is_executing (decided_state d) ≡ true → ⊥
  deciding d e = ground arith

  decide_current-Changes :
      (approval_id event_id : Uuid) (current : OperationRecord) (command : OperationApprovalCommand)
      (t : Db) {x : Result OperationRecord} {t' : Db}
      → may_decide command.approver.kind ≡ true
      → decide_current crates approval_id event_id current command t ≡ ok (x, t')
      → Changes crates t t'
  unfolding decide_current
  decide_current-Changes approval_id event_id current command t {x} {t'} person h =
      let a = approval_row approval_id current command in
      let (u, t1, inserted, h1) = bind-eq-ok (insert_approval a) _ t h in
      let (fresh, same) = insert_approval_lem a t inserted in
      join crates (one crates (decides approval_id current command person same)) (
        transition_return-Changes event_id current (decided_state command.decision)
          (decision_object crates approval_id current command) command.now ok t1 {a = x}
          (λ e. absurd (deciding command.decision e)) h1)

  decide_fetched_split :
      (approval_id event_id : Uuid) (current : OperationRecord) (command : OperationApprovalCommand)
      (t : Db) {x : Result OperationRecord} {t' : Db}
      → decide_fetched crates approval_id event_id current command t ≡ ok (x, t')
      → (expire_and_refuse crates event_id current "approval_expired" command.now t ≡ ok (x, t'))
        ⊎ (decide_current crates approval_id event_id current command t ≡ ok (x, t'))
  unfolding decide_fetched ensure_runtime
  decide_fetched_split approval_id event_id current command t h = ground arith

  decide_body-Changes :
      (approval_id event_id : Uuid) (command : OperationApprovalCommand) (t : Db)
      {x : Result OperationRecord} {t' : Db}
      → may_decide command.approver.kind ≡ true
      → decide_body crates approval_id event_id command t ≡ ok (x, t')
      → Changes crates t t'
  unfolding decide_body
  decide_body-Changes approval_id event_id command t {x} {t'} person h =
      let (current, t1, fetched, h1) =
        bind-eq-ok (fetch_operation_tx crates command.operation_id) _ t h in
      let (row, selected, read, same) = fetch_lem crates command.operation_id t fetched in
      elim (decide_fetched_split approval_id event_id current command t {x = x} {t' = t'}
        (rw same at h1)) [
          | inl e ↦ expire_and_refuse-Changes event_id current "approval_expired" command.now t e
          | inr e ↦ decide_current-Changes approval_id event_id current command t person e
        ]

  decide_approval_split :
      (approval_id event_id : Uuid) (command : OperationApprovalCommand) (t : Db)
      → ((decide_approval crates approval_id event_id command t).0 ≡ t)
        ⊎ ((may_decide command.approver.kind ≡ true)
            × ((decide_approval crates approval_id event_id command t).0
                ≡ (commit t (decide_body crates approval_id event_id command t)).0))
  unfolding decide_approval
  decide_approval_split approval_id event_id command t = ground arith

  pub decide_approval-Changes :
      (approval_id event_id : Uuid) (command : OperationApprovalCommand) (t : Db)
      → Changes crates t (decide_approval crates approval_id event_id command t).0
  decide_approval-Changes approval_id event_id command t =
      elim (decide_approval_split approval_id event_id command t) [
        | inl same ↦ rw same here
        | inr (person, e) ↦ rw e (
            commit-Changes crates t _
              λ x t' h. decide_body-Changes approval_id event_id command t {x = x} person h)
      ]

  progress_fetched :
      (event_id id runtime_id : Uuid) (details : Value) (now : DateTime) (current : OperationRecord)
      (t : Db) {x : Result OperationEventRecord} {t' : Db}
      → progress_fetched_body crates event_id id runtime_id details now current t ≡ ok (x, t')
      → (current.state ≡ OperationState.executing)
        × (event : OperationEventRecord) × (append_event_tx crates event_id id
              OperationEventKind.progress current.state details now t
            ≡ ok (event, t'))
  unfolding progress_fetched_body ensure_runtime
  progress_fetched event_id id runtime_id details now current t {x} {t'} h =
      elim (Result-cases (
        append_event_tx crates event_id id OperationEventKind.progress current.state details now
          t)) [
            | inl ((event, t1), e) ↦ (ground arith, event, ground arith)
            | inr (y, e) ↦ absurd (ground arith)
          ]

  progress_body-Changes :
      (event_id id runtime_id : Uuid) (details : Value) (now : DateTime) (t : Db)
      {x : Result OperationEventRecord} {t' : Db}
      → progress_body crates event_id id runtime_id details now t ≡ ok (x, t')
      → Changes crates t t'
  unfolding progress_body
  progress_body-Changes event_id id runtime_id details now t {x} {t'} h =
      let (current, t1, fetched, h1) = bind-eq-ok (fetch_operation_tx crates id) _ t h in
      let (row, selected, read, same) = fetch_lem crates id t fetched in
      let (running, event, appended) =
        progress_fetched event_id id runtime_id details now current t {x = x} (rw same at h1) in
      let (ledger, rows, approvals) =
        append_event_tx_lem crates event_id id OperationEventKind.progress OperationState.executing
          details now t (rw running at appended) in
      one crates
        (notes event_id id current row details now selected read running rows approvals ledger)

  pub append_progress-Changes :
      (event_id id runtime_id : Uuid) (details : Value) (now : DateTime) (t : Db)
      → Changes crates t (append_progress crates event_id id runtime_id details now t).0
  unfolding append_progress
  append_progress-Changes event_id id runtime_id details now t =
      commit-Changes crates t _
        λ x t' h. progress_body-Changes event_id id runtime_id details now t {x = x} h
