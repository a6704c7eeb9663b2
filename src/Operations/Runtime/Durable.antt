-- ===== src/Operations/Runtime/Durable.antt =====
-- What no later call can take back: events, approvals, and the columns of a stored operation.
use agent_db.Base.{
  ◌≡◌, refl, sym, ap, ◌∙◌, true, some, none, List, [], ◌∷◌, ◌++◌, arith, eq_of_==, nat_eq, text_eq,
}
use mathlib.Core.List.{append_assoc}
use native.Mathlib.Decide.{ℕ_discrete}
use agent_db.Json.{Value}
use agent_db.Operations.Crates.{Crates}
use agent_db.Operations.Model.{Uuid, DateTime, OperationState}
use agent_db.Operations.Model.Labels.{state_str}
use agent_db.Operations.Model.Labels.Inverse.{state_str-injective}
use agent_db.Operations.StateMachine.Graph.{Path*, allowed-Edge}
use agent_db.Operations.Rows.{OperationRow, OperationRecord}
use agent_db.Operations.Store.{Db, select_operation, selected, written}
use agent_db.Operations.Planning.{planned_row}
use agent_db.Operations.Repository.Steps.{Transitioned}
use agent_db.Operations.Evolution.{Change, Changes, here, join}
use agent_db.Operations.Invariant.{Inv, LedgerOf, ledger}
use agent_db.Operations.Invariant.Tables.{affected-selected, select_own, select_other}
use agent_db.Operations.Invariant.Preserved.{Changes-Inv}
use agent_db.Operations.Runtime.Histories.{Call, run, run-Inv, step-Changes}

-- The columns of an operation that are fixed when it is planned.
abbrev pub fixed_columns : OperationRow → OperationRow
fixed_columns row = record row { state = ""; updated_at = 0; started_at = none; finished_at = none }

join-Path* : {s t u : OperationState} → Path* s t → Path* t u → Path* s u
join-Path* Path*.here q = q
join-Path* (Path*.step e p) q = Path*.step e (join-Path* p q)

-- A row later on: its fixed columns are as they were, and its state is one that the lifecycle
-- leads to.
pub record Kept (row row' : OperationRow) : Type 0 where
  pub fixed : fixed_columns row' ≡ fixed_columns row
  pub before : OperationState
  pub after : OperationState
  pub label_before : row.state ≡ state_str before
  pub label_after : row'.state ≡ state_str after
  pub path : Path* before after

-- The row under an id later on.
abbrev pub KeptIn : Uuid → OperationRow → Db → Type 0
KeptIn id row t =
    (row' : OperationRow) × (select_operation id t.operations ≡ some row') × Kept row row'

Kept-trans : {a b c : OperationRow} → Kept a b → Kept b c → Kept a c
Kept-trans {a} {b} {c} k l =
    let same : k.after ≡ l.before =
      state_str-injective k.after l.before (sym k.label_after ∙ l.label_before) in
    record {
      fixed = l.fixed ∙ k.fixed;
      before = k.before;
      after = l.after;
      label_before = k.label_before;
      label_after = l.label_after;
      path = join-Path* k.path (rw same l.path);
    }

-- A table that has grown.
abbrev pub Grown {ℓ} : {A : Type ℓ} → List A → List A → Type ℓ
Grown {A = A} old new = (added : List A) × (new ≡ added ++ old)

Grown-trans {ℓ} : {A : Type ℓ} {a b c : List A} → Grown a b → Grown b c → Grown a c
Grown-trans (xs, e) (ys, f) = (ys ++ xs, f ∙ ap (◌++◌ ys) e ∙ sym (append_assoc ys xs _))

module _ (crates : Crates) where
  Change-events : {t t' : Db} → Change crates t t' → Grown t.events t'.events
  Change-events (Change.plans event_id p now absent rows approvals a) = (_ ∷ [], a.appended)
  Change-events (Change.decides approval_id current command person same) = ([], rw same refl)
  Change-events (Change.moves event_id current target details now r guard m) =
      (_ ∷ [], m.ledger.appended)
  Change-events
        (Change.notes event_id id current row details now found read running rows approvals a) =
      (_ ∷ [], a.appended)

  Change-approvals : {t t' : Db} → Change crates t t' → Grown t.approvals t'.approvals
  Change-approvals (Change.plans event_id p now absent rows approvals a) = ([], approvals)
  Change-approvals (Change.decides approval_id current command person same) =
      (_ ∷ [], ap (λ (d : Db). d.approvals) same)
  Change-approvals (Change.moves event_id current target details now r guard m) = ([], m.approvals)
  Change-approvals
        (Change.notes event_id id current row details now found read running rows approvals a) =
      ([], approvals)

  Changes-Grown :
      {t t' : Db} → Changes crates t t' → Grown t.events t'.events × Grown t.approvals t'.approvals
  Changes-Grown Changes.here = (([], refl), ([], refl))
  Changes-Grown (Changes.next cs c) =
      let (e, a) = Changes-Grown cs in
      (Grown-trans e (Change-events c), Grown-trans a (Change-approvals c))

  -- A stored row has the label of a state.
  Kept-refl :
      (t : Db) (id : Uuid) (row : OperationRow)
      → Inv crates t
      → select_operation id t.operations ≡ some row
      → Kept row row
  Kept-refl t id row v found =
      let l : LedgerOf crates id (some row) (ledger id t.events) = rw found at (v.ledgers id) in
      record {
        fixed = refl;
        before = l.0;
        after = l.0;
        label_before = l.1;
        label_after = l.1;
        path = Path*.here;
      }

  Kept-same :
      (t t' : Db) (id : Uuid) (row : OperationRow)
      → Inv crates t
      → select_operation id t.operations ≡ some row
      → select_operation id t'.operations ≡ select_operation id t.operations
      → KeptIn id row t'
  Kept-same t t' id row v found same = (row, same ∙ found, Kept-refl t id row v found)

  selected_label :
      (target : OperationState) (now : DateTime) (current : OperationRecord) (row : OperationRow)
      → selected target now current.id (state_str current.state) current.payload_hash row ≡ true
      → row.state ≡ state_str current.state
  selected_label target now current row h =
      ground (arith, eq_of_== row.state (state_str current.state))

  moved-Kept :
      (event_id : Uuid) (current : OperationRecord) (target : OperationState) (details : Value)
      (now : DateTime) (t t' : Db) (r : OperationRecord) (id : Uuid) (row : OperationRow)
      → Inv crates t
      → Transitioned crates event_id current target details now t t' r
      → select_operation id t.operations ≡ some row
      → KeptIn id row t'
  moved-Kept event_id current target details now t t' r id row v m found =
      let state = state_str current.state in
      let hash = current.payload_hash in
      let (own, own_found, sel) =
        affected-selected target now current.id state hash t.operations v.unique m.one_row in
      elim (ℕ_discrete id current.id) [
        | yes e ↦
            let same : own ≡ row = cc (e, found, own_found) in
            let sel' = rw same at sel in
            (
              written target now row,
              cc (
                e,
                m.rows,
                select_own target now current.id state hash t.operations own own_found sel,
                same,
              ),
              record {
                fixed = refl;
                before = current.state;
                after = target;
                label_before = selected_label target now current row sel';
                label_after = refl;
                path = Path*.step (allowed-Edge current.state target m.edge) Path*.here;
              },
            )
        | no d ↦ Kept-same t t' id row v found (
            ap (select_operation id) m.rows
            ∙ select_other target now current.id state hash id t.operations d)
      ]

  planned-Kept :
      (t t' : Db) (id : Uuid) (row fresh : OperationRow)
      → Inv crates t
      → select_operation fresh.id t.operations ≡ none
      → t'.operations ≡ fresh ∷ t.operations
      → select_operation id t.operations ≡ some row
      → KeptIn id row t'
  unfolding select_operation
  planned-Kept t t' id row fresh v absent rows found =
      Kept-same t t' id row v found (rw rows (ground (arith, eq_of_== fresh.id id)))

  Change-Kept :
      {t t' : Db} (c : Change crates t t') (id : Uuid) (row : OperationRow)
      → Inv crates t
      → select_operation id t.operations ≡ some row
      → KeptIn id row t'
  unfolding planned_row
  Change-Kept {t} {t'} (Change.plans event_id p now absent rows approvals a) id row v found =
      planned-Kept t t' id row (planned_row p now) v absent rows found
  Change-Kept {t} {t'} (Change.decides approval_id current command person same) id row v found =
      Kept-same t t' id row v found (ap (λ (d : Db). select_operation id d.operations) same)
  Change-Kept {t} {t'} (Change.moves event_id current target details now r guard m) id row v found =
      moved-Kept event_id current target details now t t' r id row v m found
  Change-Kept {t} {t'}
        (Change.notes event_id other current r details now f read running rows approvals a) id row v
        found =
      Kept-same t t' id row v found (ap (select_operation id) rows)

  Changes-Kept :
      {t t' : Db} (cs : Changes crates t t') (id : Uuid) (row : OperationRow)
      → Inv crates t
      → select_operation id t.operations ≡ some row
      → KeptIn id row t'
  Changes-Kept {t} Changes.here id row v found = (row, found, Kept-refl t id row v found)
  Changes-Kept (Changes.next cs c) id row v found =
      let (row1, found1, k) = Changes-Kept cs id row v found in
      let (row2, found2, l) = Change-Kept c id row1 (Changes-Inv crates cs v) found1 in
      (row2, found2, Kept-trans k l)

  later-Changes :
      (later calls : List Call) → Changes crates (run crates calls) (run crates (later ++ calls))
  later-Changes [] calls = here
  later-Changes (call ∷ later) calls =
      join crates (later-Changes later calls)
        (step-Changes crates call (run crates (later ++ calls)))

  -- No later call removes or changes an event of the ledger or an approval.
  pub run-Grown :
      (later calls : List Call)
      → Grown (run crates calls).events (run crates (later ++ calls)).events
        × Grown (run crates calls).approvals (run crates (later ++ calls)).approvals
  run-Grown later calls = Changes-Grown (later-Changes later calls)

  -- An operation that is stored stays stored under every later call, with the columns that its plan
  -- fixed, in a state that the lifecycle graph leads to.
  pub run-Kept :
      (later calls : List Call) (id : Uuid) (row : OperationRow)
      → select_operation id (run crates calls).operations ≡ some row
      → KeptIn id row (run crates (later ++ calls))
  run-Kept later calls id row found =
      Changes-Kept (later-Changes later calls) id row (run-Inv crates calls) found
