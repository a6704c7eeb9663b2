-- ===== src/Operations/Repository/Decide.antt =====
-- `decide_approval`: who may decide, what a decision has checked, and what it records.
use agent_db.Base.{
  ◌≡◌, true, false, inl, inr, some, ◌∷◌, String, nat_eq, text_eq, arith, eq_of_!=, Bool-cases,
  is_blank,
}
use agent_db.Error.{ok}
use agent_db.Operations.Crates.{Crates}
use agent_db.Operations.Model.{Uuid}
use agent_db.Operations.Rows.{OperationRow, OperationRecord, ApprovalRow, row_to_operation}
use agent_db.Operations.Store.{Db, select_operation, insert_approval, has_approval_id}
use agent_db.Operations.Store.Laws.{bind-eq-ok, bind-return-eq-ok}
use agent_db.Operations.Repository.{
  fetch_operation_tx, transition_tx, ensure_runtime, decide_body, decide_fetched, decide_current,
  decide_approval, expire_and_refuse, is_pending, has_expired, commit, decided_state, may_decide,
  too_long, OperationApprovalCommand, approval_row, decision_object,
}
use agent_db.Operations.Repository.Steps.{commit-eq-ok, fetch_lem, Transitioned, transition_tx_lem}

pub insert_approval_lem :
    (a : ApprovalRow) (t : Db) {u : Unit {0}} {t' : Db}
    → insert_approval a t ≡ ok (u, t')
    → (has_approval_id a.id t.approvals ≡ false) × (t' ≡ record t { approvals = a ∷ t.approvals })
unfolding insert_approval
insert_approval_lem a t h = elim (Bool-cases (has_approval_id a.id t.approvals)) [
  | inl e ↦ absurd (ground arith)
  | inr e ↦ (e, ground arith)
]

module _ (crates : Crates) (approval_id event_id : Uuid) (command : OperationApprovalCommand) where
  -- What has been checked when a decision succeeds, and what has been recorded.
  pub record Decided (t t' : Db) (r : OperationRecord) : Type 0 where
    pub person : may_decide command.approver.kind ≡ true
    pub named : is_blank command.approver.id ≡ false
    pub short : too_long command.reason ≡ false
    pub current : OperationRecord
    pub row : OperationRow
    pub row_selected : select_operation command.operation_id t.operations ≡ some row
    pub row_read : row_to_operation crates row ≡ ok current
    pub own_runtime : current.runtime_id ≡ command.runtime_id
    pub pending : is_pending current.state ≡ true
    pub reviewed : current.payload_hash ≡ command.expected_payload_hash
    pub same_policy : current.policy_revision ≡ command.current_policy_revision
    pub unexpired : has_expired current.expires_at command.now ≡ false
    pub fresh : has_approval_id approval_id t.approvals ≡ false
    pub moved :
        Transitioned crates event_id current
          (decided_state command.decision)
          (decision_object crates approval_id current command)
          command.now
          (record t { approvals = approval_row approval_id current command ∷ t.approvals })
          t'
          r

  expire_and_refuse-ne-ok :
      (current : OperationRecord) (reason : String) (t : Db) {r : OperationRecord} {t' : Db}
      → expire_and_refuse crates event_id current reason command.now t ≡ ok (ok r, t')
      → ⊥
  unfolding expire_and_refuse
  expire_and_refuse-ne-ok current reason t h = ground arith

  decide_fetched_lem :
      (current : OperationRecord) (t : Db) {r : OperationRecord} {t' : Db}
      → decide_fetched crates approval_id event_id current command t ≡ ok (ok r, t')
      → (current.runtime_id ≡ command.runtime_id)
        × (is_pending current.state ≡ true)
        × (current.payload_hash ≡ command.expected_payload_hash)
        × (current.policy_revision ≡ command.current_policy_revision)
        × (has_expired current.expires_at command.now ≡ false)
        × (decide_current crates approval_id event_id current command t ≡ ok (ok r, t'))
  unfolding decide_fetched ensure_runtime
  decide_fetched_lem current t {r} {t'} h = ground (
    arith,
    expire_and_refuse-ne-ok current "approval_expired" t {r = r} {t' = t'},
    eq_of_!= current.payload_hash command.expected_payload_hash,
    eq_of_!= current.policy_revision command.current_policy_revision,
  )

  decide_current_lem :
      (current : OperationRecord) (t : Db) {r : OperationRecord} {t' : Db}
      → decide_current crates approval_id event_id current command t ≡ ok (ok r, t')
      → (has_approval_id approval_id t.approvals ≡ false)
        × Transitioned crates event_id current
            (decided_state command.decision)
            (decision_object crates approval_id current command)
            command.now
            (record t { approvals = approval_row approval_id current command ∷ t.approvals })
            t'
            r
  unfolding decide_current
  decide_current_lem current t {r} {t'} h =
      let a = approval_row approval_id current command in
      let details = decision_object crates approval_id current command in
      let move =
        transition_tx crates event_id current (decided_state command.decision) details
          command.now in
      let (u, t1, inserted, h1) = bind-eq-ok (insert_approval a) _ t h in
      let (fresh, same) = insert_approval_lem a t inserted in
      (
        fresh,
        transition_tx_lem crates event_id current (decided_state command.decision) details
            command.now _ (bind-return-eq-ok move _ (rw same at h1)),
      )

  decide_body_lem :
      (t : Db) {r : OperationRecord} {t' : Db}
      → may_decide command.approver.kind ≡ true
      → is_blank command.approver.id ≡ false
      → too_long command.reason ≡ false
      → decide_body crates approval_id event_id command t ≡ ok (ok r, t')
      → Decided t t' r
  unfolding decide_body
  decide_body_lem t person named short h =
      let (current, t1, fetched, h1) =
        bind-eq-ok (fetch_operation_tx crates command.operation_id) _ t h in
      let (row, selected, read, same) = fetch_lem crates command.operation_id t fetched in
      let (own, pending, reviewed, policy, unexpired, decided) =
        decide_fetched_lem current t (rw same at h1) in
      let (fresh, moved) = decide_current_lem current t decided in
      record {
        person = person;
        named = named;
        short = short;
        current = current;
        row = row;
        row_selected = selected;
        row_read = read;
        own_runtime = own;
        pending = pending;
        reviewed = reviewed;
        same_policy = policy;
        unexpired = unexpired;
        fresh = fresh;
        moved = moved;
      }

  decide_approval-accepted :
      (t : Db) {r : OperationRecord}
      → (decide_approval crates approval_id event_id command t).1 ≡ ok r
      → (may_decide command.approver.kind ≡ true)
        × (is_blank command.approver.id ≡ false)
        × (too_long command.reason ≡ false)
        × (decide_approval crates approval_id event_id command t
            ≡ commit t (decide_body crates approval_id event_id command t))
  unfolding decide_approval
  decide_approval-accepted t {r} h = ground arith

  -- A decision that succeeds was made by a named local or workspace user of this runtime, on a
  -- pending unexpired operation, about the stored payload and under the stored policy; it records
  -- one approval row with them and moves the operation to the decided state.
  pub decide_approval-Decided :
      (t : Db) {r : OperationRecord}
      → (decide_approval crates approval_id event_id command t).1 ≡ ok r
      → Decided t (decide_approval crates approval_id event_id command t).0 r
  decide_approval-Decided t {r} h =
      let (person, named, short, e) = decide_approval-accepted t h in
      let body = decide_body crates approval_id event_id command t in
      rw e (decide_body_lem t person named short (commit-eq-ok t body (rw e at h)))
