-- ===== src/Operations/Store/Laws.antt =====
-- Laws of the tables: what an update leaves alone, and what a selected row is.
use agent_db.Base.{
  ◌≡◌, refl, Bool, true, false, inl, inr, some, none, List, [], ◌∷◌, String, nat_eq, text_eq,
  if◌then◌else◌, arith, Bool-cases,
}
use agent_db.Operations.Model.{Uuid, DateTime, OperationState}
use agent_db.Operations.Rows.{OperationRow, ApprovalRow}
use mathlib.Core.List.{Memᴰ}
use agent_db.Error.{AppError, ok, Result-cases}
use agent_db.Operations.Store.{
  Db, insert_operation, Tx, ◌>>=◌, reject_if, return, select_operation, update_rows, selected,
  written, exists_approval, approves,
}

-- The row under an id has that id.
pub select_operation-id :
    (id : Uuid) (rows : List OperationRow) {row : OperationRow}
    → select_operation id rows ≡ some row
    → row.id ≡ id
unfolding select_operation
select_operation-id id [] h = cc
select_operation-id id (r ∷ rows) {row} h = ground (arith, select_operation-id id rows {row = row})

-- The update changes the row that the id selects in place.
pub select_operation-update_rows :
    (target : OperationState) (now : DateTime) (id : Uuid) (state hash : String) (j : Uuid)
    (rows : List OperationRow)
    → select_operation j (update_rows target now id state hash rows)
      ≡ elim (select_operation j rows) [
        | none ↦ none
        | some row ↦
            some (if selected target now id state hash row then written target now row else row)
      ]
unfolding select_operation update_rows
select_operation-update_rows target now id state hash j [] = refl
select_operation-update_rows target now id state hash j (r ∷ rows) =
    ground (arith, select_operation-update_rows target now id state hash j rows)

pub exists_approval_lem :
    (id : Uuid) (hash revision : String) (now : DateTime) (rows : List ApprovalRow)
    → exists_approval id hash revision now rows ≡ true
    → (row : ApprovalRow) × Memᴰ row rows × (approves id hash revision now row ≡ true)
unfolding exists_approval
exists_approval_lem id hash revision now [] h = absurd (ground arith)
exists_approval_lem id hash revision now (r ∷ rows) h =
    elim (Bool-cases (approves id hash revision now r)) [
      | inl e ↦ (r, Memᴰ.head refl, e)
      | inr e ↦
          let (row, m, p) = exists_approval_lem id hash revision now rows (ground arith) in
          (row, Memᴰ.tail m, p)
    ]

module _ {A B : Type 0} (m : Tx A) (f : A → Tx B) (t : Db) {b : B} {t' : Db} where
  -- A transaction that succeeds has succeeded in its first part.
  pub bind-eq-ok :
      (m >>= f) t ≡ ok (b, t') → (a : A) × (t1 : Db) × (m t ≡ ok (a, t1)) × (f a t1 ≡ ok (b, t'))
  bind-eq-ok h = elim (Result-cases (m t)) [
    | inl ((a, t1), e) ↦ (a, t1, e, ground arith)
    | inr (x, e) ↦ absurd (ground arith)
  ]

pub reject_if_lem :
    (test : Bool) (e : AppError) (t : Db) {u : Unit {0}} {t' : Db}
    → reject_if test e t ≡ ok (u, t')
    → (test ≡ false) × (t' ≡ t)
reject_if_lem true e t h = absurd (ground arith)
reject_if_lem false e t h = (refl, ground arith)

-- `let x = m?; Ok(x)`.
pub bind-return-eq-ok :
    {A : Type 0} (m : Tx A) (t : Db) {a : A} {t' : Db}
    → (m >>= λ x. return (ok x)) t ≡ ok (ok a, t')
    → m t ≡ ok (a, t')
bind-return-eq-ok m t h = elim (Result-cases (m t)) [
  | inl ((b, t1), e) ↦ ground arith
  | inr (x, e) ↦ absurd (ground arith)
]

pub insert_operation_lem :
    (row : OperationRow) (t : Db) {u : Unit {0}} {t' : Db}
    → insert_operation row t ≡ ok (u, t')
    → (select_operation row.id t.operations ≡ none)
      × (t' ≡ record t { operations = row ∷ t.operations })
unfolding insert_operation
insert_operation_lem row t h = ground arith
