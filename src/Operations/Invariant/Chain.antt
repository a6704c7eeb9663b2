-- ===== src/Operations/Invariant/Chain.antt =====
-- Chains of events: the tail that the next event continues.
use agent_db.Base.{
  ℕ, suc, ◌≡◌, refl, ◌≢◌, ==_self, inl, inr, Option, some, none, List, [], ◌∷◌, String, ◌==◌,
  nat_eq, arith, length, Bool-cases,
}
use agent_db.Error.{ok}
use agent_db.Operations.Crates.{Crates}
use agent_db.Operations.Model.{Uuid, DateTime, OperationState, OperationEventKind}
use agent_db.Operations.Canonicalize.{canonical_json}
use agent_db.Json.{Value}
use agent_db.Operations.Repository.Steps.{Appended}
use agent_db.Operations.Rows.{EventRow}
use agent_db.Operations.Store.{tail_event, later_event}
use agent_db.Operations.Ledger.{event_row, next_link}
use agent_db.Operations.Invariant.{ledger, last_hash, EventChain}

-- Sequence numbers that count a list down to 1.
abbrev pub Counted : List EventRow → Type 0
Counted [] = Unit {0}
Counted (row ∷ rows) = (row.sequence ≡ suc (length rows)) × Counted rows

abbrev pub newest : List EventRow → Option EventRow
newest [] = none
newest (row ∷ rows) = some row

pub EventChain-Counted :
    (crates : Crates) (id : Uuid) {s : OperationState} {events : List EventRow}
    → EventChain crates id s events
    → Counted events
unfolding event_row
EventChain-Counted crates id (EventChain.first e d n) = (refl, tt)
EventChain-Counted crates id (EventChain.moved e d n a c) = (refl, EventChain-Counted crates id c)
EventChain-Counted crates id (EventChain.noted e d n c) = (refl, EventChain-Counted crates id c)

later_newest :
    (row : EventRow) (rest : List EventRow)
    → row.sequence ≡ suc (length rest)
    → Counted rest
    → later_event row (newest rest) ≡ some row
later_newest row [] e c = refl
later_newest row (other ∷ rest) e c = ground arith

-- `ORDER BY sequence DESC LIMIT 1` finds the newest event.
pub tail_event-newest :
    (id : Uuid) (events : List EventRow)
    → Counted (ledger id events)
    → tail_event id events ≡ newest (ledger id events)
unfolding tail_event
tail_event-newest id [] c = refl
tail_event-newest id (row ∷ rows) c = elim (Bool-cases (row.operation_id == id)) [
  | inl e ↦
      let c' : Counted (row ∷ ledger id rows) = rw e at c in
      rw (e, tail_event, tail_event-newest id rows c'.1)
        (later_newest row (ledger id rows) c'.0 c'.1)
  | inr e ↦ rw (e, tail_event) (tail_event-newest id rows (rw e at c))
]

pub next_link-Counted :
    (events : List EventRow) {link : ℕ × Option String}
    → Counted events
    → next_link (newest events) ≡ ok link
    → link ≡ (suc (length events), last_hash events)
unfolding next_link
next_link-Counted [] c h = ground arith
next_link-Counted (row ∷ rows) c h = ground arith

module _ (crates : Crates) (event_id id : Uuid) (kind : OperationEventKind) (state : OperationState)
    (details : Value) (now : DateTime) (before after : List EventRow)
    (a : Appended crates event_id id kind state details now before after) where
  ledger_event :
      (link : ℕ × Option String)
      → ledger id (
          event_row crates event_id id link kind state (canonical_json crates details) now ∷ before)
        ≡ event_row crates event_id id link kind state (canonical_json crates details) now
          ∷ ledger id before
  unfolding event_row
  ledger_event link = rw (==_self id)

  -- An appended event continues the ledger of its operation, and no other.
  pub ledger-own :
      Counted (ledger id before)
      → ledger id after
        ≡ event_row crates event_id id
            (suc (length (ledger id before)), last_hash (ledger id before))
            kind
            state
            (canonical_json crates details)
            now
          ∷ ledger id before
  ledger-own c =
      let e : a.link ≡ (suc (length (ledger id before)), last_hash (ledger id before)) =
        next_link-Counted (ledger id before) c
          (rw (tail_event-newest id before c) at a.continues) in
      rw (a.appended, ledger_event a.link, e)

  pub ledger-other : (j : Uuid) → j ≢ id → ledger j after ≡ ledger j before
  unfolding event_row
  ledger-other j d = rw (a.appended) (ground arith)
