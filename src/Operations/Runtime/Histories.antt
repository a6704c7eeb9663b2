-- ===== src/Operations/Runtime/Histories.antt =====
-- Histories: every call of the Operation Runtime (src-tauri/src/operations/runtime.rs), in any order,
-- from empty tables, whatever each call returns.
use agent_db.Base.{refl, ◌&&◌, not, inl, inr, List, [], ◌∷◌, Bool-cases}
use agent_db.Error.{ok, err, Result-cases}
use agent_db.Json.{Value}
use agent_db.Operations.Crates.{Crates}
use agent_db.Operations.Model.{
  Uuid, DateTime, OperationState, OperationApprovalDecision, may_mutate_target,
}
use agent_db.Operations.Rows.{OperationRecord}
use agent_db.Operations.Store.{Db, select_operation}
use agent_db.Operations.Repository.{Outcome}
use agent_db.Operations.Planning.{NewOperation}
use agent_db.Operations.Recovery.{recover_previous_runtimes}
use agent_db.Operations.Execute.{issue}
use agent_db.Operations.Runtime.{
  OperationPlanDisposition, ExactApprovalRequest, LocalApprovalAuthority, and_then, is_planned,
  plan, plan_target, decide_exact, approve_exact, reject_exact, claim, grant_claimed, progress,
  finish, requires_approval, ensure_local_approval_authority,
}
use agent_db.Operations.Evolution.{Changes, here, join}
use agent_db.Operations.Evolution.Calls.{
  claim_execution-Changes, transition-Changes, decide_approval-Changes, append_progress-Changes,
}
use agent_db.Operations.Evolution.Plans.{insert_planned-Changes}
use agent_db.Operations.Evolution.Restarts.{recover-Changes}
use agent_db.Operations.Invariant.{Inv, ledger}
use agent_db.Operations.Invariant.Preserved.{Changes-Inv}
use agent_db.Base.{◌≡◌, ◌↔◌, true, some}
use agent_db.Operations.Rows.{OperationRow, row_to_operation}
use agent_db.Operations.Repository.{verify_event_chain}
use agent_db.Operations.Invariant.Reread.{AllReread}
use agent_db.Operations.Invariant.Verified.{Inv-verify_event_chain}

-- A call, with the runtime that makes it and what it draws and reads while it runs.
pub data Call : Type 0 where
  plans :
      (runtime_id first_event second_event : Uuid) (operation : NewOperation)
      (disposition : OperationPlanDisposition) (created_at now : DateTime)
      → Call
  approves_exact rejects_exact :
      (runtime_id approval_id event_id : Uuid) (authority : LocalApprovalAuthority)
      (request : ExactApprovalRequest) (now : DateTime)
      → Call
  claims : (runtime_id event_id operation_id : Uuid) (now : DateTime) → Call
  progresses : (runtime_id event_id operation_id : Uuid) (details : Value) (now : DateTime) → Call
  finishes :
      (runtime_id event_id operation_id : Uuid) (target : OperationState) (details : Value)
      (now : DateTime)
      → Call
  restarts : (runtime_id : Uuid) (event_ids : Uuid → Uuid) (clock : Uuid → DateTime) → Call

abbrev pub empty_tables : Db
empty_tables = record { operations = []; approvals = []; events = [] }

module _ (crates : Crates) where
  -- The tables after one call.
  abbrev pub step : Call → Db → Db
  step (Call.plans runtime_id first_event second_event operation disposition created_at now) t =
      (plan crates runtime_id first_event second_event operation disposition created_at now t).0
  step (Call.approves_exact runtime_id approval_id event_id authority request now) t =
      (approve_exact crates runtime_id approval_id event_id authority request now t).0
  step (Call.rejects_exact runtime_id approval_id event_id authority request now) t =
      (reject_exact crates runtime_id approval_id event_id authority request now t).0
  step (Call.claims runtime_id event_id operation_id now) t =
      (claim crates runtime_id event_id operation_id now t).0
  step (Call.progresses runtime_id event_id operation_id details now) t =
      (progress crates runtime_id event_id operation_id details now t).0
  step (Call.finishes runtime_id event_id operation_id target details now) t =
      (finish crates runtime_id event_id operation_id target details now t).0
  step (Call.restarts runtime_id event_ids clock) t =
      (recover_previous_runtimes crates event_ids clock runtime_id t).0

  -- The tables after a history, the last call first.
  abbrev pub run : List Call → Db
  run [] = empty_tables
  run (call ∷ calls) = step call (run calls)

  and_then-Changes :
      {A B : Type 0} (t : Db) (o : Outcome A) (f : A → Db → Outcome B)
      → Changes crates t o.0
      → ((a : A) (t' : Db) → Changes crates t' (f a t').0)
      → Changes crates t (and_then o f).0
  and_then-Changes t (t', ok a) f c k = join crates c (k a t')
  and_then-Changes t (t', err e) f c k = c

  plan_target-Changes :
      (runtime_id event_id : Uuid) (disposition : OperationPlanDisposition) (now : DateTime)
      (planned : OperationRecord) (t : Db)
      → Changes crates t (plan_target crates runtime_id event_id disposition now planned t).0
  unfolding plan_target
  plan_target-Changes runtime_id event_id disposition now planned t =
      elim (Bool-cases (is_planned planned.state)) [
        | inl e ↦ rw e (transition-Changes crates event_id planned.id runtime_id _ _ now t)
        | inr e ↦ rw e here
      ]

  plan-Changes :
      (runtime_id first_event second_event : Uuid) (operation : NewOperation)
      (disposition : OperationPlanDisposition) (created_at now : DateTime) (t : Db)
      → Changes crates t
          (plan crates runtime_id first_event second_event operation disposition created_at now t).0
  unfolding plan
  plan-Changes runtime_id first_event second_event operation disposition created_at now t =
      elim (Bool-cases (may_mutate_target operation.kind && not (requires_approval disposition))) [
        | inl e ↦ rw e here
        | inr e ↦ rw e (
            and_then-Changes t _ _
              (insert_planned-Changes crates first_event runtime_id operation created_at t)
              (plan_target-Changes runtime_id second_event disposition now))
      ]

  decide_exact-Changes :
      (runtime_id approval_id event_id : Uuid) (request : ExactApprovalRequest)
      (decision : OperationApprovalDecision) (now : DateTime) (t : Db)
      → Changes crates t
          (decide_exact crates runtime_id approval_id event_id request decision now t).0
  unfolding decide_exact
  decide_exact-Changes runtime_id approval_id event_id request decision now t =
      decide_approval-Changes crates approval_id event_id _ t

  approve_exact-Changes :
      (runtime_id approval_id event_id : Uuid) (authority : LocalApprovalAuthority)
      (request : ExactApprovalRequest) (now : DateTime) (t : Db)
      → Changes crates t
          (approve_exact crates runtime_id approval_id event_id authority request now t).0
  unfolding approve_exact
  approve_exact-Changes runtime_id approval_id event_id authority request now t =
      elim (Result-cases (ensure_local_approval_authority runtime_id authority)) [
        | inl (u, e) ↦
            rw (e, approve_exact)
              (decide_exact-Changes runtime_id approval_id event_id request
                OperationApprovalDecision.approved now t)
        | inr (x, e) ↦ rw (e, approve_exact) here
      ]

  reject_exact-Changes :
      (runtime_id approval_id event_id : Uuid) (authority : LocalApprovalAuthority)
      (request : ExactApprovalRequest) (now : DateTime) (t : Db)
      → Changes crates t
          (reject_exact crates runtime_id approval_id event_id authority request now t).0
  unfolding reject_exact
  reject_exact-Changes runtime_id approval_id event_id authority request now t =
      elim (Result-cases (ensure_local_approval_authority runtime_id authority)) [
        | inl (u, e) ↦
            rw (e, reject_exact)
              (decide_exact-Changes runtime_id approval_id event_id request
                OperationApprovalDecision.rejected now t)
        | inr (x, e) ↦ rw (e, reject_exact) here
      ]

  grant_claimed-Changes :
      (operation : OperationRecord) (t : Db) → Changes crates t (grant_claimed operation t).0
  unfolding grant_claimed
  grant_claimed-Changes operation t = elim (Result-cases (issue operation)) [
    | inl (grant, e) ↦ rw (e, grant_claimed) here
    | inr (x, e) ↦ rw (e, grant_claimed) here
  ]

  -- Each call makes a sequence of changes.
  pub step-Changes : (call : Call) (t : Db) → Changes crates t (step call t)
  unfolding claim progress finish
  step-Changes (Call.plans runtime_id first_event second_event operation disposition created_at now)
        t =
      plan-Changes runtime_id first_event second_event operation disposition created_at now t
  step-Changes (Call.approves_exact runtime_id approval_id event_id authority request now) t =
      approve_exact-Changes runtime_id approval_id event_id authority request now t
  step-Changes (Call.rejects_exact runtime_id approval_id event_id authority request now) t =
      reject_exact-Changes runtime_id approval_id event_id authority request now t
  step-Changes (Call.claims runtime_id event_id operation_id now) t =
      and_then-Changes t _ _ (claim_execution-Changes crates event_id operation_id runtime_id now t)
        grant_claimed-Changes
  step-Changes (Call.progresses runtime_id event_id operation_id details now) t =
      and_then-Changes t _ _
        (append_progress-Changes crates event_id operation_id runtime_id details now t)
        (λ _ t'. here)
  step-Changes (Call.finishes runtime_id event_id operation_id target details now) t =
      transition-Changes crates event_id operation_id runtime_id target details now t
  step-Changes (Call.restarts runtime_id event_ids clock) t =
      recover-Changes crates event_ids clock runtime_id t

  pub run-Changes : (calls : List Call) → Changes crates empty_tables (run calls)
  run-Changes [] = here
  run-Changes (call ∷ calls) = join crates (run-Changes calls) (step-Changes call (run calls))

  empty-Inv : Inv crates empty_tables
  unfolding select_operation
  empty-Inv = record { unique = tt; ledgers = λ id. refl }

  -- After every history from empty tables, ids are unique and each operation's events are a chain,
  -- numbered without gaps, linked by hashes, following the lifecycle and ending in the stored state.
  pub run-Inv : (calls : List Call) → Inv crates (run calls)
  run-Inv calls = Changes-Inv crates (run-Changes calls) empty-Inv

  -- After every history, for every stored operation whose row can be read, `verify_event_chain`
  -- answers `true` exactly when serde_json reads the stored details of each of the operation's events
  -- as a value that prints the same: nothing but this reading back can make it fail.
  pub run-verify_event_chain :
      (calls : List Call) (id : Uuid) (row : OperationRow) (r : OperationRecord)
      → select_operation id (run calls).operations ≡ some row
      → row_to_operation crates row ≡ ok r
      → (verify_event_chain crates id (run calls) ≡ ok true)
        ↔ AllReread crates (ledger id (run calls).events)
  run-verify_event_chain calls id row r found read =
      Inv-verify_event_chain crates id (run calls) row r (run-Inv calls) found read
