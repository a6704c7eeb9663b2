-- ===== src/Operations/Invariant/Tables.antt =====
-- The tables under the invariant: which row an update that affects one row has rewritten.
use agent_db.Base.{
  ◌≡◌, true, inl, inr, ◌≢◌, some, List, [], ◌∷◌, String, nat_eq, text_eq, arith, Bool-cases,
  Option-cases,
}
use agent_db.Operations.Model.{Uuid, DateTime, OperationState}
use agent_db.Operations.Rows.{OperationRow}
use agent_db.Operations.Store.{select_operation, update_rows, affected, selected, written}
use agent_db.Operations.Store.Laws.{select_operation-update_rows, select_operation-id}
use agent_db.Operations.Invariant.{UniqueIds}

module _ (target : OperationState) (now : DateTime) (id : Uuid) (state hash : String) where
  selected-id : (row : OperationRow) → selected target now id state hash row ≡ true → row.id ≡ id
  selected-id row h = ground arith

  -- An update that affects a row rewrites the row that the id selects.
  pub affected-selected :
      (rows : List OperationRow)
      → UniqueIds rows
      → affected target now id state hash rows ≡ 1
      → (row : OperationRow) × (select_operation id rows ≡ some row)
        × (selected target now id state hash row ≡ true)
  unfolding affected select_operation
  affected-selected [] u h = absurd (omega arith)
  affected-selected (r ∷ rows) u h = elim (Bool-cases (selected target now id state hash r)) [
    | inl e ↦ (r, ground (arith, selected-id r), e)
    | inr e ↦
        let (row, found, sel) = affected-selected rows u.1 (ground arith) in
        (row, ground (arith, u.0), sel)
  ]

  pub update_rows-UniqueIds :
      (rows : List OperationRow)
      → UniqueIds rows
      → UniqueIds (update_rows target now id state hash rows)
  unfolding update_rows
  update_rows-UniqueIds [] u = tt
  update_rows-UniqueIds (r ∷ rows) u = ground (
    arith,
    select_operation-update_rows target now id state hash r.id rows,
    update_rows-UniqueIds rows u.1,
  )

  -- What is found afterwards under the id, and under another.
  pub select_own :
      (rows : List OperationRow) (row : OperationRow)
      → select_operation id rows ≡ some row
      → selected target now id state hash row ≡ true
      → select_operation id (update_rows target now id state hash rows)
        ≡ some (written target now row)
  select_own rows row found sel =
      ground (arith, select_operation-update_rows target now id state hash id rows)

  pub select_other :
      (j : Uuid) (rows : List OperationRow)
      → j ≢ id
      → select_operation j (update_rows target now id state hash rows) ≡ select_operation j rows
  select_other j rows d = elim (Option-cases (select_operation j rows)) [
    | inl e ↦ ground (arith, select_operation-update_rows target now id state hash j rows)
    | inr (row, e) ↦ ground (
      arith,
      select_operation-update_rows target now id state hash j rows,
      select_operation-id j rows e,
      selected-id row,
    )
  ]
