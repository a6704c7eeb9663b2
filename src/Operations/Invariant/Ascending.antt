-- ===== src/Operations/Invariant/Ascending.antt =====
-- The events of an operation by ascending sequence number.
use agent_db.Base.{
  ℕ, suc, ◌≤◌, ◌≡◌, refl, ap, false, inl, inr, List, [], ◌∷◌, ◌++◌, ◌==◌, nat_eq, text_eq,
  option_eq, arith, length, Bool-cases, ltb,
}
use agent_db.Operations.Model.{Uuid, state_eq, event_kind_eq}
use agent_db.Operations.Rows.{EventRow}
use agent_db.Operations.Store.{select_events, insert_by_sequence}
use agent_db.Operations.Invariant.{ledger}
use agent_db.Operations.Invariant.Chain.{Counted}

-- The oldest event first.
abbrev pub oldest_first : List EventRow → List EventRow
oldest_first [] = []
oldest_first (row ∷ rows) = oldest_first rows ++ (row ∷ [])

-- No sequence number is above a bound.
abbrev Below : ℕ → List EventRow → Type 0
Below n [] = Unit {0}
Below n (row ∷ rows) = (row.sequence ≤ n) × Below n rows

Below-suc : (n : ℕ) (rows : List EventRow) → Below n rows → Below (suc n) rows
Below-suc n [] b = tt
Below-suc n (row ∷ rows) b = (omega (arith, b.0), Below-suc n rows b.1)

Below-last :
    (n : ℕ) (rows : List EventRow) (row : EventRow)
    → Below n rows
    → row.sequence ≤ n
    → Below n (rows ++ (row ∷ []))
Below-last n [] row b e = (e, tt)
Below-last n (other ∷ rows) row b e = (b.0, Below-last n rows row b.1 e)

oldest_first-Below : (rows : List EventRow) → Counted rows → Below (length rows) (oldest_first rows)
oldest_first-Below [] c = tt
oldest_first-Below (row ∷ rows) c =
    Below-last (suc (length rows)) (oldest_first rows) row
      (Below-suc (length rows) (oldest_first rows) (oldest_first-Below rows c.1))
      (omega (arith, c.0))

insert_last :
    (row : EventRow) (rows : List EventRow)
    → Below row.sequence rows
    → insert_by_sequence row rows ≡ rows ++ (row ∷ [])
unfolding insert_by_sequence
insert_last row [] b = refl
insert_last row (other ∷ rows) b =
    let shut : ltb row.sequence other.sequence ≡ false = ground (arith, b.0) in
    rw shut (ap (◌∷◌ other) (insert_last row rows b.1))

oldest_first-Below_own :
    (row : EventRow) (rows : List EventRow)
    → row.sequence ≡ suc (length rows)
    → Counted rows
    → Below row.sequence (oldest_first rows)
oldest_first-Below_own row rows e c =
    rw e (Below-suc (length rows) (oldest_first rows) (oldest_first-Below rows c))

-- `ORDER BY sequence ASC` puts a counted ledger in the order in which it was appended.
pub select_events_lem :
    (id : Uuid) (rows : List EventRow)
    → Counted (ledger id rows)
    → select_events id rows ≡ oldest_first (ledger id rows)
unfolding select_events
select_events_lem id [] c = refl
select_events_lem id (row ∷ rows) c = elim (Bool-cases (row.operation_id == id)) [
  | inl e ↦
      let c' : Counted (row ∷ ledger id rows) = rw e at c in
      rw (e, select_events, select_events_lem id rows c'.1)
        (insert_last row (oldest_first (ledger id rows))
          (oldest_first-Below_own row (ledger id rows) c'.0 c'.1))
  | inr e ↦ rw (e, select_events) (select_events_lem id rows (rw e at c))
]
