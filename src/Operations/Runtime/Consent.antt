-- ===== src/Operations/Runtime/Consent.antt =====
-- Who has consented to an operation that is claimed, whatever was called before.
use agent_db.Base.{◌≡◌, refl, sym, ap, true, List, [], ◌∷◌}
use mathlib.Core.List.{Memᴰ}
use agent_db.Error.{ok}
use agent_db.Operations.Crates.{Crates}
use agent_db.Operations.Model.{
  Uuid, DateTime, OperationActorKind, OperationKind, OperationState, may_mutate_target,
}
use agent_db.Operations.Model.Labels.{actor_kind_str, operation_kind_str, parse_operation_kind}
use agent_db.Operations.Model.Labels.Inverse.{parse_operation_kind-operation_kind_str}
use agent_db.Operations.Rows.{OperationRow, OperationRecord, ApprovalRow, row_to_operation}
use agent_db.Operations.Rows.Laws.{row_to_operation-Reads}
use agent_db.Operations.Store.{Db, approves, written}
use agent_db.Operations.Repository.{may_decide, claim_execution}
use agent_db.Operations.Repository.Claim.{claim_execution-Claimed}
use agent_db.Operations.Repository.Moves.{Transitioned-Moved}
use agent_db.Operations.Evolution.{Change, Changes}
use agent_db.Operations.Runtime.Histories.{Call, run, run-Changes}

-- The approver of a row is a local or a workspace user.
abbrev pub ByPerson : ApprovalRow → Type 0
ByPerson a = (k : OperationActorKind) × (may_decide k ≡ true) × (a.approver_kind ≡ actor_kind_str k)

abbrev pub AllByPersons : List ApprovalRow → Type 0
AllByPersons [] = Unit {0}
AllByPersons (a ∷ rows) = ByPerson a × AllByPersons rows

AllByPersons-Memᴰ :
    (a : ApprovalRow) (rows : List ApprovalRow) → AllByPersons rows → Memᴰ a rows → ByPerson a
AllByPersons-Memᴰ a [] v m = elim m [ ]
AllByPersons-Memᴰ a (b ∷ rows) (p, ps) (Memᴰ.head e) = rw e p
AllByPersons-Memᴰ a (b ∷ rows) (p, ps) (Memᴰ.tail m) = AllByPersons-Memᴰ a rows ps m

operation_kind_str-injective :
    (x y : OperationKind) → operation_kind_str x ≡ operation_kind_str y → x ≡ y
operation_kind_str-injective x y h = cc (
  parse_operation_kind-operation_kind_str x,
  parse_operation_kind-operation_kind_str y,
  ap parse_operation_kind h,
)

module _ (crates : Crates) where
  Change-AllByPersons :
      {t t' : Db} → Change crates t t' → AllByPersons t.approvals → AllByPersons t'.approvals
  Change-AllByPersons (Change.plans event_id p now absent rows approvals a) v = rw approvals v
  Change-AllByPersons (Change.decides approval_id current command person same) v =
      rw same ((command.approver.kind, person, refl), v)
  Change-AllByPersons (Change.moves event_id current target details now r guard m) v =
      rw m.approvals v
  Change-AllByPersons
        (Change.notes event_id id current row details now found read running rows approvals a) v =
      rw approvals v

  Changes-AllByPersons :
      {t t' : Db} → Changes crates t t' → AllByPersons t.approvals → AllByPersons t'.approvals
  Changes-AllByPersons Changes.here v = v
  Changes-AllByPersons (Changes.next cs c) v = Change-AllByPersons c (Changes-AllByPersons cs v)

  -- After every history, each stored approval names a local or workspace user as its approver.
  pub run-AllByPersons : (calls : List Call) → AllByPersons (run crates calls).approvals
  run-AllByPersons calls = Changes-AllByPersons (run-Changes crates calls) tt

  -- A record that was read from the row that a transition wrote keeps what it was approved for.
  same_subject :
      (target : OperationState) (now : DateTime) (row : OperationRow) (current r : OperationRecord)
      → row_to_operation crates row ≡ ok current
      → row_to_operation crates (written target now row) ≡ ok r
      → (r.id ≡ current.id)
        × (r.payload_hash ≡ current.payload_hash)
        × (r.policy_revision ≡ current.policy_revision)
        × (r.kind ≡ current.kind)
  same_subject target now row current r before after =
      let b = row_to_operation-Reads crates row before in
      let a = row_to_operation-Reads crates (written target now row) after in
      (
        cc (a.id, b.id),
        cc (a.payload_hash, b.payload_hash),
        cc (a.policy_revision, b.policy_revision),
        operation_kind_str-injective r.kind current.kind (cc (a.kind, b.kind)),
      )

  same_approves :
      (now : DateTime) (a : ApprovalRow) (current r : OperationRecord)
      → r.id ≡ current.id
      → r.payload_hash ≡ current.payload_hash
      → r.policy_revision ≡ current.policy_revision
      → approves current.id current.payload_hash current.policy_revision now a ≡ true
      → approves r.id r.payload_hash r.policy_revision now a ≡ true
  same_approves now a current r ids hashes policies h = cc (ids, hashes, policies, h)

  -- After every history, when the claim of an operation that mutates its target succeeds, a local or
  -- workspace user has approved exactly its id, payload hash and policy revision, and that approval
  -- has not expired.
  pub claim_execution-ByPerson :
      (calls : List Call) (event_id id runtime_id : Uuid) (now : DateTime) {r : OperationRecord}
      → (claim_execution crates event_id id runtime_id now (run crates calls)).1 ≡ ok r
      → may_mutate_target r.kind ≡ true
      → (a : ApprovalRow) × Memᴰ a (run crates calls).approvals
        × ByPerson a
        × (approves r.id r.payload_hash r.policy_revision now a ≡ true)
  claim_execution-ByPerson calls event_id id runtime_id now {r} h m =
      let t = run crates calls in
      let c = claim_execution-Claimed crates event_id id runtime_id now t h in
      let moved =
        Transitioned-Moved crates event_id id c.current OperationState.executing _ now t _ r c.row
          c.row_selected c.row_read (λ _. c.unexpired) c.moved in
      let (ids, hashes, policies, kinds) =
        same_subject OperationState.executing now c.row c.current r c.row_read moved.read_after in
      let (a, stored, approved) = c.approval (c.approved (rw (sym kinds) m)) in
      (
        a,
        stored,
        AllByPersons-Memᴰ a t.approvals (run-AllByPersons calls) stored,
        same_approves now a c.current r ids hashes policies approved,
      )
