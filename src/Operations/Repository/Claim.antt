-- ===== src/Operations/Repository/Claim.antt =====
-- `claim_execution`: what a successful claim has checked, and what a second one meets.
use agent_db.Base.{
  ◌≡◌, refl, true, false, not, ◌&&◌, inl, inr, some, String, ◌==◌, nat_eq, text_eq, arith,
  Bool-cases,
}
use mathlib.Core.List.{Memᴰ}
use agent_db.Error.{blocked, ok, err}
use agent_db.Operations.Crates.{Crates}
use agent_db.Operations.Model.{Uuid, DateTime, OperationState, OperationKind, may_mutate_target}
use agent_db.Operations.Rows.{OperationRow, OperationRecord, ApprovalRow, row_to_operation}
use agent_db.Operations.Store.{Db, select_operation, approves, exists_approval}
use agent_db.Operations.Store.Laws.{
  bind-eq-ok, reject_if_lem, bind-return-eq-ok, exists_approval_lem,
}
use agent_db.Operations.Repository.{
  fetch_operation_tx, transition_tx, ensure_runtime, claim_body, claim_current, claim_fetched,
  claim_execution, expire_and_refuse, require_exact_approval, payload_hash_object, is_executable,
  is_ready, is_approved, has_expired,
}
use agent_db.Operations.Repository.Moves.{Transitioned-Moved}
use agent_db.Operations.Repository.Steps.{
  fetch_operation_tx-selected, commit-eq-ok, fetch_lem, Transitioned, transition_tx_lem,
}

pub executable_mutation :
    (s : OperationState) (k : OperationKind)
    → is_executable s ≡ true
    → (is_ready s && may_mutate_target k) ≡ false
    → may_mutate_target k ≡ true
    → s ≡ OperationState.approved
executable_mutation s k e u m = ground arith

module _ (crates : Crates) (event_id id runtime_id : Uuid) (now : DateTime) where
  -- What has been checked of the operation that a claim moves to `executing`.
  pub record Claimed (t t' : Db) (r : OperationRecord) : Type 0 where
    pub current : OperationRecord
    pub row : OperationRow
    pub row_selected : select_operation id t.operations ≡ some row
    pub row_read : row_to_operation crates row ≡ ok current
    pub own_runtime : current.runtime_id ≡ runtime_id
    pub executable : is_executable current.state ≡ true
    pub unexpired : has_expired current.expires_at now ≡ false
    pub approved : may_mutate_target current.kind ≡ true → (current.state ≡ OperationState.approved)
    pub approval :
        current.state ≡ OperationState.approved
        → (a : ApprovalRow) × Memᴰ a t.approvals
          × (approves current.id current.payload_hash current.policy_revision now a ≡ true)
    pub moved :
        Transitioned crates event_id current OperationState.executing
          (payload_hash_object current.payload_hash)
          now
          t
          t'
          r

  expire_and_refuse-ne-ok :
      (current : OperationRecord) (reason : String) (t : Db) {r : OperationRecord} {t' : Db}
      → expire_and_refuse crates event_id current reason now t ≡ ok (ok r, t')
      → ⊥
  unfolding expire_and_refuse
  expire_and_refuse-ne-ok current reason t h = ground arith

  claim_fetched_lem :
      (current : OperationRecord) (t : Db) {r : OperationRecord} {t' : Db}
      → claim_fetched crates event_id current runtime_id now t ≡ ok (ok r, t')
      → (current.runtime_id ≡ runtime_id)
        × (is_executable current.state ≡ true)
        × ((is_ready current.state && may_mutate_target current.kind) ≡ false)
        × (has_expired current.expires_at now ≡ false)
        × (claim_current crates event_id current now t ≡ ok (ok r, t'))
  unfolding claim_fetched ensure_runtime
  claim_fetched_lem current t {r} {t'} h =
      ground (arith, expire_and_refuse-ne-ok current "operation_expired" t {r = r} {t' = t'})

  claim_current_lem :
      (current : OperationRecord) (t : Db) {r : OperationRecord} {t' : Db}
      → claim_current crates event_id current now t ≡ ok (ok r, t')
      → ((is_approved current.state
            && not (
                exists_approval current.id current.payload_hash current.policy_revision now
                  t.approvals))
          ≡ false)
        × Transitioned crates event_id current OperationState.executing
            (payload_hash_object current.payload_hash)
            now
            t
            t'
            r
  unfolding claim_current require_exact_approval
  claim_current_lem current t {r} {t'} h =
      let (u, t1, required, h1) = bind-eq-ok (require_exact_approval current now) _ t h in
      let (checked, same) = reject_if_lem _ _ t required in
      let start =
        transition_tx crates event_id current OperationState.executing
          (payload_hash_object current.payload_hash) now in
      (
        checked,
        transition_tx_lem crates event_id current OperationState.executing
            (payload_hash_object current.payload_hash) now t
            (bind-return-eq-ok start t (rw same at h1)),
      )

  claim_body_lem :
      (t : Db) {r : OperationRecord} {t' : Db}
      → claim_body crates event_id id runtime_id now t ≡ ok (ok r, t')
      → Claimed t t' r
  unfolding claim_body
  claim_body_lem t {r} {t'} h =
      let (current, t1, fetched, h1) = bind-eq-ok (fetch_operation_tx crates id) _ t h in
      let (row, selected, read, same) = fetch_lem crates id t fetched in
      let (own, executable, unready, unexpired, claimed) =
        claim_fetched_lem current t (rw same at h1) in
      let (approved, moved) = claim_current_lem current t claimed in
      record {
        current = current;
        row = row;
        row_selected = selected;
        row_read = read;
        own_runtime = own;
        executable = executable;
        unexpired = unexpired;
        approved = λ m. executable_mutation current.state current.kind executable unready m;
        approval = λ e.
            exists_approval_lem current.id current.payload_hash current.policy_revision now
              t.approvals (ground arith);
        moved = moved;
      }

  -- A claim that succeeds has found an executable operation of this runtime that has not expired,
  -- one that mutates its target only in the state `approved`, and then with an unexpired approval of
  -- its payload and policy; the claim moved it to `executing`.
  pub claim_execution-Claimed :
      (t : Db) {r : OperationRecord}
      → (claim_execution crates event_id id runtime_id now t).1 ≡ ok r
      → Claimed t (claim_execution crates event_id id runtime_id now t).0 r
  unfolding claim_execution
  claim_execution-Claimed t h = claim_body_lem t (commit-eq-ok t _ h)

module _ (crates : Crates) where
  claim_fetched_refused :
      (event_id runtime_id : Uuid) (now : DateTime) (current : OperationRecord) (t : Db)
      → is_executable current.state ≡ false
      → (reason : String) × (claim_fetched crates event_id current runtime_id now t
          ≡ err (blocked reason))
  unfolding claim_fetched ensure_runtime
  claim_fetched_refused event_id runtime_id now current t h =
      elim (Bool-cases (current.runtime_id == runtime_id)) [
        | inl e ↦ ("the operation is not in an executable state", ground arith)
        | inr e ↦ ("the operation belongs to a previous application runtime", ground arith)
      ]

  claim_refused :
      (event_id id runtime_id : Uuid) (now : DateTime) (current : OperationRecord) (t : Db)
      → fetch_operation_tx crates id t ≡ ok (current, t)
      → is_executable current.state ≡ false
      → (reason : String) × (claim_execution crates event_id id runtime_id now t
          ≡ (t, err (blocked reason)))
  unfolding claim_execution claim_body
  claim_refused event_id id runtime_id now current t f h =
      let (reason, e) = claim_fetched_refused event_id runtime_id now current t h in
      (reason, ground arith)

  -- Once an operation has been claimed, every later claim of it on the resulting tables is refused
  -- and changes nothing, whichever runtime makes it and whenever.
  pub claim_execution-once :
      (event_id id runtime_id : Uuid) (now : DateTime) (t : Db) {r : OperationRecord}
      → (claim_execution crates event_id id runtime_id now t).1 ≡ ok r
      → (event_id' runtime_id' : Uuid) (now' : DateTime)
      → let t' = (claim_execution crates event_id id runtime_id now t).0 in
        (reason : String) × (claim_execution crates event_id' id runtime_id' now' t'
          ≡ (t', err (blocked reason)))
  claim_execution-once event_id id runtime_id now t {r} h event_id' runtime_id' now' =
      let c = claim_execution-Claimed crates event_id id runtime_id now t h in
      let t' = (claim_execution crates event_id id runtime_id now t).0 in
      let m =
        Transitioned-Moved crates event_id id c.current OperationState.executing _ now t t' r c.row
          c.row_selected c.row_read (λ _. c.unexpired) c.moved in
      claim_refused event_id' id runtime_id' now' r t'
        (fetch_operation_tx-selected crates id t' m.selected_after m.read_after)
        (rw m.state_after refl)
