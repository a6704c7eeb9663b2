-- ===== src/Operations/Invariant/Reread.antt =====
-- Reading stored events (`row_to_event` and `parse_canonical_json` of
-- src-tauri/src/operations/repository.rs): when it succeeds, and what is read.
use agent_db.Base.{
  Option-cases, eq_of_!=, ℕ, ◌≡◌, inl, inr, Option, some, List, [], ◌∷◌, ◌++◌, String, nat_eq,
  text_eq, option_eq, arith, !=_self,
}
use agent_db.Error.{ok, Result-cases}
use agent_db.Json.{Value}
use agent_db.Operations.Crates.{Crates}
use agent_db.Operations.Canonicalize.{canonical_json}
use agent_db.Operations.Model.{
  Uuid, DateTime, OperationState, OperationEventKind, state_eq, event_kind_eq,
}
use agent_db.Operations.Model.Labels.Inverse.{
  parse_state-state_str, parse_event_kind-event_kind_str,
}
use agent_db.Operations.Rows.{OperationEventRecord, EventRow, row_to_event, parse_canonical_json}
use agent_db.Operations.Ledger.{event_row, read_events}
use agent_db.Operations.Invariant.Ascending.{oldest_first}

module _ (crates : Crates) where
  -- serde_json reads the details of a stored event as a value that prints the same.
  abbrev pub Reread : EventRow → Type 0
  Reread row =
      (w : Value) × (crates.from_str row.event_json ≡ some w)
      × (canonical_json crates w ≡ row.event_json)

  abbrev pub AllReread : List EventRow → Type 0
  AllReread [] = Unit {0}
  AllReread (row ∷ rows) = Reread row × AllReread rows

  row_to_event-Reread :
      (row : EventRow) {event : OperationEventRecord}
      → row_to_event crates row ≡ ok event
      → Reread row
  unfolding row_to_event parse_canonical_json
  row_to_event-Reread row h = elim (Option-cases (crates.from_str row.event_json)) [
    | inl e ↦ absurd (ground arith)
    | inr (w, e) ↦ (w, e, eq_of_!= (canonical_json crates w) row.event_json (ground arith))
  ]

  pub read_events-AllReread :
      (rows : List EventRow) {es : List OperationEventRecord}
      → read_events crates rows ≡ ok es
      → AllReread rows
  unfolding read_events
  read_events-AllReread [] h = tt
  read_events-AllReread (row ∷ rows) h = elim (Result-cases (row_to_event crates row)) [
    | inl (x, f) ↦ elim (Result-cases (read_events crates rows)) [
      | inl (xs, g) ↦ (row_to_event-Reread row f, read_events-AllReread rows g)
      | inr (y, g) ↦ absurd (ground arith)
    ]
    | inr (y, f) ↦ absurd (ground arith)
  ]

  AllReread-last :
      (rows : List EventRow) (row : EventRow)
      → AllReread (rows ++ (row ∷ []))
      → AllReread rows × Reread row
  AllReread-last [] row a = (tt, a.0)
  AllReread-last (first ∷ rows) row a = let (l, r) = AllReread-last rows row a.1 in ((a.0, l), r)

  pub AllReread-oldest_first :
      (rows : List EventRow) → AllReread (oldest_first rows) → AllReread rows
  AllReread-oldest_first [] a = tt
  AllReread-oldest_first (row ∷ rows) a =
      let (older, newest) = AllReread-last (oldest_first rows) row a in
      (newest, AllReread-oldest_first rows older)

  pub read_last :
      (rows : List EventRow) (row : EventRow) {es : List OperationEventRecord}
      {event : OperationEventRecord}
      → read_events crates rows ≡ ok es
      → row_to_event crates row ≡ ok event
      → read_events crates (rows ++ (row ∷ [])) ≡ ok (es ++ (event ∷ []))
  unfolding read_events
  read_last [] row h e = ground arith
  read_last (first ∷ rows) row {es} {event} h e = elim (Result-cases (row_to_event crates first)) [
    | inl (x, f) ↦ elim (Result-cases (read_events crates rows)) [
      | inl (xs, g) ↦ let l = read_last rows row {es = xs} {event = event} g e in ground arith
      | inr (y, g) ↦ absurd (ground arith)
    ]
    | inr (y, f) ↦ absurd (ground arith)
  ]

  -- The record that a stored event is read as.
  abbrev pub read_back :
      Uuid
      → Uuid
      → ℕ
      → Option String
      → OperationEventKind
      → OperationState
      → Value
      → Value
      → DateTime
      → OperationEventRecord
  read_back event_id id sequence prev kind state v w now = record {
    id = event_id;
    operation_id = id;
    sequence = sequence;
    kind = kind;
    state = state;
    details = w;
    created_at = now;
    prev_hash = prev;
    hash =
        (event_row crates event_id id (sequence, prev) kind state (canonical_json crates v)
          now).hash;
  }

  parse_lem :
      (v w : Value)
      → crates.from_str (canonical_json crates v) ≡ some w
      → canonical_json crates w ≡ canonical_json crates v
      → parse_canonical_json crates (canonical_json crates v) ≡ ok w
  unfolding parse_canonical_json
  parse_lem v w e same = rw (e, same, !=_self (canonical_json crates v))

  pub row_to_event_lem :
      (event_id id : Uuid) (sequence : ℕ) (prev : Option String) (kind : OperationEventKind)
      (state : OperationState) (v w : Value) (now : DateTime)
      → crates.from_str (canonical_json crates v) ≡ some w
      → canonical_json crates w ≡ canonical_json crates v
      → row_to_event crates
          (event_row crates event_id id (sequence, prev) kind state (canonical_json crates v) now)
        ≡ ok (read_back event_id id sequence prev kind state v w now)
  unfolding row_to_event event_row
  row_to_event_lem event_id id sequence prev kind state v w now e same =
      rw (parse_event_kind-event_kind_str kind, parse_state-state_str state, parse_lem v w e same)
