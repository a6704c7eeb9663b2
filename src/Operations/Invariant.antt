-- ===== src/Operations/Invariant.antt =====
-- What holds of the tables between two operations of the repository.
pub mod Tables
pub mod Chain
pub mod Preserved
pub mod Ascending
pub mod Reread
pub mod Verified
use agent_db.Base.{
  ℕ, suc, ◌≡◌, Bool, true, false, Option, some, none, List, [], ◌∷◌, String, ◌==◌, nat_eq, length,
  if◌then◌else◌,
}
use agent_db.Json.{Value}
use agent_db.Operations.Crates.{Crates}
use agent_db.Operations.Canonicalize.{canonical_json}
use agent_db.Operations.Model.{Uuid, DateTime, OperationState, OperationEventKind}
use agent_db.Operations.Model.Labels.{state_str}
use agent_db.Operations.StateMachine.{allowed}
use agent_db.Operations.Rows.{OperationRow, EventRow}
use agent_db.Operations.Store.{Db, select_operation}
use agent_db.Operations.Ledger.{event_row, transition_event_kind}

-- No two rows of `operations` have one id.
abbrev pub UniqueIds : List OperationRow → Type 0
UniqueIds [] = Unit {0}
UniqueIds (row ∷ rows) = (select_operation row.id rows ≡ none) × UniqueIds rows

-- The events of one operation, newest first.
abbrev pub ledger : Uuid → List EventRow → List EventRow
ledger id [] = []
ledger id (row ∷ rows) =
    let rest = ledger id rows in if row.operation_id == id then row ∷ rest else rest

-- The hash that the next event links to.
abbrev pub last_hash : List EventRow → Option String
last_hash [] = none
last_hash (row ∷ rows) = some row.hash

module _ (crates : Crates) (id : Uuid) where
  -- A ledger in which each event has the next number, the hash of its predecessor and its own hash,
  -- and whose states follow the lifecycle; it ends in the state `s`.
  pub data EventChain : OperationState → List EventRow → Type 0 where
    first :
        (event_id : Uuid) (details : Value) (now : DateTime)
        → EventChain OperationState.planned (
            event_row crates event_id id
              (1, none)
              OperationEventKind.planned
              OperationState.planned
              (canonical_json crates details)
              now
            ∷ [])
    moved :
        {from s : OperationState} {events : List EventRow} (event_id : Uuid) (details : Value)
        (now : DateTime)
        → allowed from s ≡ true
        → EventChain from events
        → EventChain s (
            event_row crates event_id id
              (suc (length events), last_hash events)
              (transition_event_kind s)
              s
              (canonical_json crates details)
              now
            ∷ events)
    noted :
        {events : List EventRow} (event_id : Uuid) (details : Value) (now : DateTime)
        → EventChain OperationState.executing events
        → EventChain OperationState.executing (
            event_row crates event_id id
              (suc (length events), last_hash events)
              OperationEventKind.progress
              OperationState.executing
              (canonical_json crates details)
              now
            ∷ events)

  -- An operation that is stored has a chain that ends in its state; another has no events.
  abbrev pub LedgerOf : Option OperationRow → List EventRow → Type 0
  LedgerOf none events = events ≡ []
  LedgerOf (some row) events =
      (s : OperationState) × (row.state ≡ state_str s) × EventChain s events

pub record Inv (crates : Crates) (t : Db) : Type 0 where
  pub unique : UniqueIds t.operations
  pub ledgers :
      (id : Uuid) → LedgerOf crates id (select_operation id t.operations) (ledger id t.events)
