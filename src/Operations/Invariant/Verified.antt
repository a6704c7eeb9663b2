-- ===== src/Operations/Invariant/Verified.antt =====
-- The loop of `verify_event_chain` on the ledger of a stored operation.
use agent_db.Base.{
  ℕ, suc, ◌≡◌, refl, sym, ◌∙◌, ap, true, false, inl, inr, Option, some, none, List, [], ◌∷◌, ◌++◌,
  String, ◌==◌, ◌!=◌, ◌||◌, ◌&&◌, nat_eq, text_eq, option_eq, arith, length, ==_self, !=_self, ◌↔◌,
}
use mathlib.Core.List.{append_assoc, append-nil}
use agent_db.Error.{ok, Result-cases}
use agent_db.Json.{Value}
use agent_db.Operations.Crates.{Crates}
use agent_db.Operations.Canonicalize.{canonical_json}
use agent_db.Operations.Model.{
  Uuid, DateTime, OperationState, OperationEventKind, OperationEventKind-discrete,
  OperationState-discrete, state_eq, event_kind_eq,
}
use agent_db.Operations.Model.Labels.Inverse.{state_str-injective}
use agent_db.Operations.Rows.{
  OperationRow, OperationRecord, OperationEventRecord, EventRow, row_to_operation,
}
use agent_db.Operations.Rows.Laws.{row_to_operation-Reads}
use agent_db.Operations.Store.{Db, select_operation}
use agent_db.Operations.Ledger.{event_row, read_events, events, verify_from, broken}
use agent_db.Operations.Repository.{get, verify_event_chain}
use agent_db.Operations.Invariant.{Inv, LedgerOf, EventChain, ledger, last_hash}
use agent_db.Operations.Invariant.Chain.{Counted, EventChain-Counted}
use agent_db.Operations.Invariant.Reread.{
  read_last, read_back, row_to_event_lem, Reread, AllReread, read_events-AllReread,
  AllReread-oldest_first,
}
use agent_db.Operations.Invariant.Ascending.{oldest_first, select_events_lem}

module _ (crates : Crates) where
  unbroken :
      (event_id id : Uuid) (n : ℕ) (prev : Option String) (kind : OperationEventKind)
      (state : OperationState) (v w : Value) (now : DateTime)
      → canonical_json crates w ≡ canonical_json crates v
      → (n == 0 && (kind != OperationEventKind.planned || state != OperationState.planned)) ≡ false
      → broken crates n prev (read_back crates event_id id (suc n) prev kind state v w now) ≡ false
  unfolding event_row
  unbroken event_id id n prev kind state v w now same start =
      let h =
        !=_self
          (event_row crates event_id id (suc n, prev) kind state (canonical_json crates v)
            now).hash in
      rw same (ground (arith, start, h, !=_self prev))

  -- The events read so far pass, and what follows goes on from their last number, hash and state.
  record Prefix (s : OperationState) (rows : List EventRow) : Type 0 where
    records : List OperationEventRecord
    reads : read_events crates (oldest_first rows) ≡ ok records
    passes :
        (tail : List OperationEventRecord) (p : OperationState)
        → verify_from crates 0 none none (records ++ tail) p
          ≡ verify_from crates (length rows) (last_hash rows) (some s) tail p

  verify_step :
      (n : ℕ) (prev : Option String) (last : Option OperationState) (event : OperationEventRecord)
      (tail : List OperationEventRecord) (p : OperationState)
      → broken crates n prev event ≡ false
      → verify_from crates n prev last (event ∷ tail) p
        ≡ verify_from crates (suc n) (some event.hash) (some event.state) tail p
  unfolding verify_from
  verify_step n prev last event tail p h = ground (arith, h)

  extend :
      (id : Uuid) {from : OperationState} {rows : List EventRow} (event_id : Uuid)
      (kind : OperationEventKind) (state : OperationState) (v : Value) (now : DateTime)
      → Reread crates (
          event_row crates event_id id
            (suc (length rows), last_hash rows)
            kind
            state
            (canonical_json crates v)
            now)
      → (length rows == 0) ≡ false
      → Prefix from rows
      → Prefix state (
          event_row crates event_id id
            (suc (length rows), last_hash rows)
            kind
            state
            (canonical_json crates v)
            now
          ∷ rows)
  unfolding event_row
  extend id {from} {rows} event_id kind state v now reread long before =
      let (w, e, same) = reread in
      let event =
        read_back crates event_id id (suc (length rows)) (last_hash rows) kind state v w now in
      let whole =
        unbroken event_id id (length rows) (last_hash rows) kind state v w now same
          (ground (arith, long)) in
      record {
        records = before.records ++ (event ∷ []);
        reads =
            read_last crates (oldest_first rows) _ {es = before.records} {event = event}
              before.reads
              (row_to_event_lem crates event_id id (suc (length rows)) (last_hash rows) kind state v
                w now e same);
        passes = λ tail p.
            ap (λ events. verify_from crates 0 none none events p)
              (append_assoc before.records (event ∷ []) tail)
            ∙ before.passes (event ∷ tail) p
            ∙ verify_step (length rows) (last_hash rows) (some from) event tail p whole;
      }

  long_chain :
      (id : Uuid) {s : OperationState} {rows : List EventRow}
      → EventChain crates id s rows
      → (length rows == 0) ≡ false
  long_chain id (EventChain.first e v now) = ground arith
  long_chain id (EventChain.moved e v now a c) = ground arith
  long_chain id (EventChain.noted e v now c) = ground arith

  EventChain-Prefix :
      (id : Uuid) {s : OperationState} {rows : List EventRow}
      → AllReread crates rows
      → EventChain crates id s rows
      → Prefix s rows
  unfolding event_row read_events OperationEventKind-discrete OperationState-discrete
  EventChain-Prefix id rereads (EventChain.first event_id v now) =
      let (w, e, same) = rereads.0 in
      let event =
        read_back crates event_id id 1 none OperationEventKind.planned OperationState.planned v w
          now in
      let whole =
        unbroken event_id id 0 none OperationEventKind.planned OperationState.planned v w now same
          refl in
      record {
        records = event ∷ [];
        reads = rw (
            row_to_event_lem crates event_id id 1 none OperationEventKind.planned
              OperationState.planned v w now e same);
        passes = λ tail p. verify_step 0 none none event tail p whole;
      }
  EventChain-Prefix id rereads (EventChain.moved event_id v now a c) =
      extend id event_id _ _ v now rereads.0 (long_chain id c) (EventChain-Prefix id rereads.1 c)
  EventChain-Prefix id rereads (EventChain.noted event_id v now c) =
      extend id event_id _ _ v now rereads.0 (long_chain id c) (EventChain-Prefix id rereads.1 c)

  last_state :
      (n : ℕ) (prev : Option String) (s p : OperationState)
      → s ≡ p
      → verify_from crates n prev (some s) [] p ≡ true
  unfolding verify_from
  last_state n prev s p e = rw e (==_self (some p))

  verified :
      (id : Uuid) (t : Db) (r : OperationRecord) (s : OperationState)
      → get crates id t ≡ ok r
      → s ≡ r.state
      → Counted (ledger id t.events)
      → Prefix s (ledger id t.events)
      → verify_event_chain crates id t ≡ ok true
  unfolding verify_event_chain events verify_from
  verified id t r s found same counted chain =
      let passed =
        ap (λ events. verify_from crates 0 none none events r.state) (append-nil chain.records) in
      rw (found, select_events_lem id t.events counted, chain.reads)
        (ap ok (
          sym passed
          ∙ chain.passes [] r.state
          ∙ last_state (length (ledger id t.events)) (last_hash (ledger id t.events)) s r.state
              same))

  reread_of_ok :
      (id : Uuid) (t : Db)
      → Counted (ledger id t.events)
      → verify_event_chain crates id t ≡ ok true
      → AllReread crates (ledger id t.events)
  unfolding verify_event_chain events
  reread_of_ok id t counted h =
      elim (Result-cases (read_events crates (oldest_first (ledger id t.events)))) [
        | inl (es, e) ↦
            AllReread-oldest_first crates (ledger id t.events)
              (read_events-AllReread crates (oldest_first (ledger id t.events)) e)
        | inr (x, e) ↦ absurd (ground (arith, rw (select_events_lem id t.events counted) at h, e))
      ]

  -- The ledger of a stored operation whose row can be read passes `verify_event_chain` exactly when
  -- serde_json reads the details of each of its events as a value that prints the same.
  pub Inv-verify_event_chain :
      (id : Uuid) (t : Db) (row : OperationRow) (r : OperationRecord)
      → Inv crates t
      → select_operation id t.operations ≡ some row
      → row_to_operation crates row ≡ ok r
      → (verify_event_chain crates id t ≡ ok true) ↔ AllReread crates (ledger id t.events)
  unfolding get
  Inv-verify_event_chain id t row r v found read =
      let l : LedgerOf crates id (some row) (ledger id t.events) = rw found at (v.ledgers id) in
      let same =
        state_str-injective l.0 r.state
          (sym l.1 ∙ (row_to_operation-Reads crates row read).state) in
      let counted = EventChain-Counted crates id l.2 in
      (
        reread_of_ok id t counted,
        λ rereads.
            verified id t r l.0 (rw found read) same counted (EventChain-Prefix id rereads l.2),
      )
