-- ===== src/Operations/Ledger.antt =====
-- The event ledger of src-tauri/src/operations/repository.rs: `append_event_tx`, `event_hash`,
-- `transition_event_kind` and `verify_event_chain`.
use agent_db.Base.{
  ℕ, ◌+◌, ◌*◌, ◌^◌, Bool, false, ◌||◌, ◌&&◌, Option, some, none, List, [], ◌∷◌, String, len, ◌==◌,
  ◌!=◌, text_eq, option_eq, nat_eq, ltb, if◌then◌else◌,
}
use agent_db.Error.{AppError, serialization, config, Result, ok, err, ok_or}
use agent_db.Error
use agent_db.Json.{Value, Fields, Number}
use agent_db.Operations.Crates.{Crates}
use agent_db.Operations.Canonicalize.{canonical_json, lower_hex}
use agent_db.Operations.Model.{
  Uuid, DateTime, OperationState, OperationEventKind, state_eq, event_kind_eq,
}
use agent_db.Operations.Model.Labels.{state_str, event_kind_str}
use agent_db.Operations.Rows.{EventRow, OperationEventRecord, row_to_event}
use agent_db.Operations.Store.{
  Db, Tx, ◌>>=◌, ◌>>◌, lift, return, reject_if, tail_event, insert_event, select_events,
}

abbrev pub max_request_bytes : ℕ
max_request_bytes = 1024 * 1024

abbrev pub max_response_bytes : ℕ
max_response_bytes = 8 * 1024 * 1024

unfoldable pub transition_event_kind : OperationState → OperationEventKind
transition_event_kind OperationState.planned = OperationEventKind.planned
transition_event_kind OperationState.ready = OperationEventKind.planned
transition_event_kind OperationState.pending_approval = OperationEventKind.approval_requested
transition_event_kind OperationState.approved = OperationEventKind.approved
transition_event_kind OperationState.rejected = OperationEventKind.rejected
transition_event_kind OperationState.expired = OperationEventKind.expired
transition_event_kind OperationState.cancelled = OperationEventKind.cancelled
transition_event_kind OperationState.executing = OperationEventKind.execution_started
transition_event_kind OperationState.succeeded = OperationEventKind.succeeded
transition_event_kind OperationState.failed = OperationEventKind.failed
transition_event_kind OperationState.outcome_unknown = OperationEventKind.outcome_unknown

pub record EventHashInput : Type 0 where
  pub event_id : Uuid
  pub operation_id : Uuid
  pub sequence : ℕ
  pub kind : OperationEventKind
  pub state : OperationState
  pub event_json : String
  pub created_at : DateTime
  pub prev_hash : Option String

-- `json!` of an optional text.
abbrev pub optional_text : Option String → Value
optional_text none = Value.null
optional_text (some s) = Value.string s

-- The sequence number and the back link of the next event. The sequence is an `i64`.
unfoldable pub next_link : Option EventRow → Result (ℕ × Option String)
next_link none = ok (1, none)
next_link (some row) =
    if ltb (row.sequence + 1) (2 ^ 63)
    then ok (row.sequence + 1, some row.hash)
    else err (config "operation event sequence overflowed")

module _ (crates : Crates) where
  open crates use {from_str, digest, uuid_text, rfc3339_nanos}

  unfoldable pub event_hash : EventHashInput → String
  event_hash input = lower_hex (
      digest (
        canonical_json crates (
          Value.object (
            Fields.field "createdAt" (Value.string (rfc3339_nanos input.created_at)) (
              Fields.field "eventId" (Value.string (uuid_text input.event_id)) (
                Fields.field "eventJson" (Value.string input.event_json) (
                  Fields.field "eventKind" (Value.string (event_kind_str input.kind)) (
                    Fields.field "operationId" (Value.string (uuid_text input.operation_id)) (
                      Fields.field "prevHash" (optional_text input.prev_hash) (
                        Fields.field "sequence" (Value.number (Number.pos_int input.sequence)) (
                          Fields.field "state" (Value.string (state_str input.state))
                            Fields.end)))))))))))

  -- The row that `append_event_tx` inserts.
  unfoldable pub event_row :
      Uuid
      → Uuid
      → ℕ × Option String
      → OperationEventKind
      → OperationState
      → String
      → DateTime
      → EventRow
  event_row event_id operation_id (sequence, prev_hash) kind state event_json created_at = record {
    id = event_id;
    operation_id = operation_id;
    sequence = sequence;
    event_kind = event_kind_str kind;
    state = state_str state;
    event_json = event_json;
    created_at = created_at;
    prev_hash = prev_hash;
    hash = event_hash (record {
      event_id = event_id;
      operation_id = operation_id;
      sequence = sequence;
      kind = kind;
      state = state;
      event_json = event_json;
      created_at = created_at;
      prev_hash = prev_hash;
    });
  }

  -- `event_id` is the `Uuid::new_v4()` that is drawn for the event.
  unfoldable pub append_event_tx :
      Uuid → Uuid → OperationEventKind → OperationState → Value → DateTime → Tx OperationEventRecord
  append_event_tx event_id operation_id kind state details created_at tables =
      (do
        let details_json = canonical_json crates details
        reject_if (ltb max_response_bytes (len details_json))
            (config "operation event details exceed the local control-message limit")
        link ← lift (next_link (tail_event operation_id tables.events))
        let row = event_row event_id operation_id link kind state details_json created_at
        insert_event row
        value ← lift (ok_or (from_str details_json) serialization)
        return (record {
          id = event_id;
          operation_id = operation_id;
          sequence = row.sequence;
          kind = kind;
          state = state;
          details = value;
          created_at = created_at;
          prev_hash = row.prev_hash;
          hash = row.hash;
        }))
        tables

  -- `rows.iter().map(row_to_event).collect()`.
  unfoldable pub read_events : List EventRow → Result (List OperationEventRecord)
  read_events [] = ok []
  read_events (row ∷ rows) =
      Error.◌>>=◌ (row_to_event crates row)
        λ event. Error.◌>>=◌ (read_events rows) λ events. ok (event ∷ events)

  unfoldable pub events : Uuid → Db → Result (List OperationEventRecord)
  unfolding read_events
  events operation_id tables = read_events (select_events operation_id tables.events)

  abbrev pub hash_input : OperationEventRecord → EventHashInput
  hash_input event = record {
    event_id = event.id;
    operation_id = event.operation_id;
    sequence = event.sequence;
    kind = event.kind;
    state = event.state;
    event_json = canonical_json crates event.details;
    created_at = event.created_at;
    prev_hash = event.prev_hash;
  }

  -- The tests of one round of the loop of `verify_event_chain`.
  abbrev pub broken : ℕ → Option String → OperationEventRecord → Bool
  broken index previous_hash event =
      event.sequence != index + 1
      || event.prev_hash != previous_hash
      || (index == 0
          && (event.kind != OperationEventKind.planned || event.state != OperationState.planned))
      || event_hash (hash_input event) != event.hash

  -- The loop from a position on, with the state of the last event seen.
  unfoldable pub verify_from :
      ℕ → Option String → Option OperationState → List OperationEventRecord → OperationState → Bool
  verify_from index previous_hash last [] projection = last == some projection
  verify_from index previous_hash last (event ∷ rest) projection =
      let later = verify_from (index + 1) (some event.hash) (some event.state) rest projection in
      if broken index previous_hash event then false else later
