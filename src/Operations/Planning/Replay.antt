-- ===== src/Operations/Planning/Replay.antt =====
-- `insert_planned` when the idempotency key of the actor is taken.
use agent_db.Base.{◌≡◌, ◌⊎◌, some, inl, inr, Bool-cases, if◌then◌else◌, arith}
use agent_db.Error.{blocked, ok, err}
use agent_db.Operations.Crates.{Crates}
use agent_db.Operations.Model.{Uuid, DateTime}
use agent_db.Operations.Model.Labels.{actor_kind_str}
use agent_db.Operations.Rows.{OperationRow, OperationRecord, row_to_operation}
use agent_db.Operations.Store.{Db, select_by_key}
use agent_db.Operations.Planning.SamePlan.{SamePlan, matches_iff}
use agent_db.Operations.Planning.{
  NewOperation, PreparedOperation, prepare, matches, replay, insert_prepared, insert_planned,
}

module _ (crates : Crates) where
  replay_lem :
      (p : PreparedOperation) (row : OperationRow) (existing : OperationRecord) (t : Db)
      → row_to_operation crates row ≡ ok existing
      → replay crates p row t ≡ (
          if matches p existing
          then ok (ok existing, t)
          else err
              (blocked "the idempotency key is already bound to a different immutable operation"))
  unfolding replay
  replay_lem p row existing t read = elim (Bool-cases (matches p existing)) [
    | inl e ↦ rw (read, e)
    | inr e ↦ rw (read, e)
  ]

  insert_planned_taken :
      (event_id runtime_id : Uuid) (operation : NewOperation) (now : DateTime) (t : Db)
      (p : PreparedOperation) (row : OperationRow) (existing : OperationRecord)
      → prepare crates runtime_id operation ≡ ok p
      → select_by_key p.operation.workspace_id
          (actor_kind_str p.operation.actor.kind)
          p.operation.actor.id
          p.operation.idempotency_key
          t.operations
        ≡ some row
      → row_to_operation crates row ≡ ok existing
      → insert_planned crates event_id runtime_id operation now t ≡ (
        t,
        if matches p existing
            then ok existing
            else err
                (blocked "the idempotency key is already bound to a different immutable operation"),
      )
  unfolding insert_planned insert_prepared
  insert_planned_taken event_id runtime_id operation now t p row existing prepared taken read =
      elim (Bool-cases (matches p existing)) [
        | inl e ↦ ground (arith, prepared, taken, replay_lem p row existing t read, e)
        | inr e ↦ ground (arith, prepared, taken, replay_lem p row existing t read, e)
      ]

  -- When the workspace and actor have planned an operation under the same idempotency key, a plan
  -- that passes validation changes no table. Either the stored operation agrees with the plan in its
  -- runtime, workspace, account scope, connection, connection revision, terminal session, whole actor,
  -- kind, payload version, payload hash, schema fingerprint, risk, preview, policy snapshot, policy
  -- revision, single use, key and expiry, and is returned; or it differs in one of them, and the plan
  -- is refused.
  pub insert_planned-SamePlan :
      (event_id runtime_id : Uuid) (operation : NewOperation) (now : DateTime) (t : Db)
      (p : PreparedOperation) (row : OperationRow) (existing : OperationRecord)
      → prepare crates runtime_id operation ≡ ok p
      → select_by_key p.operation.workspace_id
          (actor_kind_str p.operation.actor.kind)
          p.operation.actor.id
          p.operation.idempotency_key
          t.operations
        ≡ some row
      → row_to_operation crates row ≡ ok existing
      → (SamePlan p existing
          × (insert_planned crates event_id runtime_id operation now t ≡ (t, ok existing)))
        ⊎ (¬ SamePlan p existing
            × (insert_planned crates event_id runtime_id operation now t ≡ (
              t,
              err (
                  blocked
                    "the idempotency key is already bound to a different immutable operation"),
            )))
  insert_planned-SamePlan event_id runtime_id operation now t p row existing prepared taken read =
      let whole =
        insert_planned_taken event_id runtime_id operation now t p row existing prepared taken
          read in
      let fits = matches_iff p existing in
      elim (Bool-cases (matches p existing)) [
        | inl e ↦ inl (fits.0 e, rw e at whole)
        | inr e ↦ inr (λ same. absurd (ground (arith, fits.1 same)), rw e at whole)
      ]
