-- ===== src/Operations/Planning.antt =====
-- `insert_planned` of src-tauri/src/operations/repository.rs, with `PreparedOperation` and
-- `validate_new_operation`.
pub mod SamePlan
pub mod Replay
use agent_db.Base.{
  ℕ, ◌+◌, ◌-◌, ◌^◌, min, Bool, true, false, not, ◌&&◌, ◌||◌, Option, some, none, List, [], ◌∷◌,
  String, len, ◌==◌, text_eq, option_eq, nat_eq, ltb, leb, nat_beq, is_blank, all_chars,
  if◌then◌else◌,
}
use agent_db.Error.{AppError, config, blocked, Result, ok, err, ok_or}
use agent_db.Error
use agent_db.Json.{Value, Fields}
use agent_db.Json.Equality.{value_beq}
use agent_db.Operations.Crates.{Crates, OperationActorProvenance}
use agent_db.Operations.Canonicalize.{CanonicalJson, from_value, canonical_json}
use agent_db.Operations.Model.{
  Uuid, DateTime, OperationKind, OperationState, OperationEventKind, OperationRiskLevel, kind_eq,
  actor_kind_eq, risk_eq,
}
use agent_db.Operations.Model.Labels.{actor_kind_str, operation_kind_str, risk_level_str, state_str}
use agent_db.Operations.Rows.{OperationActor, OperationRecord, OperationRow, row_to_operation}
use agent_db.Operations.Store.{Db, Tx, ◌>>=◌, ◌>>◌, lift, return, select_by_key, insert_operation}
use agent_db.Operations.Ledger.{max_request_bytes, max_response_bytes, append_event_tx}
use agent_db.Operations.Repository.{Outcome, commit, fetch_operation_tx}

pub record NewOperation : Type 0 where
  pub id : Uuid
  pub workspace_id : Uuid
  pub account_scope : String
  pub connection_id : Uuid
  pub connection_revision : ℕ
  pub terminal_session_id : Option Uuid
  pub actor : OperationActor
  pub kind : OperationKind
  pub payload_schema_version : ℕ
  pub payload : Value
  pub schema_fingerprint : Option String
  pub risk_level : OperationRiskLevel
  pub preview : Value
  pub policy_snapshot : Value
  pub policy_revision : String
  pub single_use : Bool
  pub idempotency_key : String
  pub expires_at : Option DateTime

pub record PreparedOperation : Type 0 where
  pub runtime_id : Uuid
  pub operation : NewOperation
  pub payload : CanonicalJson
  pub actor_provenance_json : String
  pub preview_json : String
  pub policy_snapshot_json : String

-- The loop over the texts that must not be blank, each with the error that it causes.
unfoldable pub require_texts : List (String × String) → Result (Unit {0})
require_texts [] = ok tt
require_texts ((message, value) ∷ rest) =
    let later = require_texts rest in if is_blank value then err (config message) else later

abbrev pub is_lower_hex : ℕ → Bool
is_lower_hex c = (leb b'0' c && leb c b'9') || (leb b'a' c && leb c b'f')

-- Lowercase SHA-256, or absent.
abbrev pub is_fingerprint : Option String → Bool
is_fingerprint none = true
is_fingerprint (some value) = nat_beq (len value) 64 && all_chars is_lower_hex value

unfoldable pub validate_new_operation : NewOperation → Result (Unit {0})
unfolding require_texts
validate_new_operation operation =
    Error.◌>>◌
      (require_texts (
        ("operation account scope cannot be empty", operation.account_scope)
        ∷ ("operation actor id cannot be empty", operation.actor.id)
        ∷ (
          "operation actor origin surface cannot be empty",
          operation.actor.provenance.origin_surface,
        )
        ∷ ("operation policy revision cannot be empty", operation.policy_revision)
        ∷ ("operation idempotency key cannot be empty", operation.idempotency_key)
        ∷ []))
      (if ltb operation.connection_revision 1
        then err (config "operation connection revision must be positive")
        else if operation.payload_schema_version == 0
        then err (config "operation payload schema version must be positive")
        else if not (is_fingerprint operation.schema_fingerprint)
        then err (config "operation schema fingerprint must be lowercase SHA-256")
        else ok tt)

abbrev saturating_add : ℕ → ℕ → ℕ
saturating_add a b = min (a + b) (2 ^ 64 - 1)

abbrev same_provenance : OperationActorProvenance → OperationActorProvenance → Bool
same_provenance a b =
    a.local_account_id == b.local_account_id
    && a.workspace_account_id == b.workspace_account_id
    && a.agent_provider == b.agent_provider
    && a.agent_model == b.agent_model
    && a.plugin_id == b.plugin_id
    && a.plugin_version == b.plugin_version
    && a.client_protocol_version == b.client_protocol_version
    && a.origin_surface == b.origin_surface

abbrev same_actor : OperationActor → OperationActor → Bool
same_actor a b = a.kind == b.kind && a.id == b.id && same_provenance a.provenance b.provenance

abbrev same_bool : Bool → Bool → Bool
same_bool true b = b
same_bool false b = not b

-- `PreparedOperation::matches`.
unfoldable pub matches : PreparedOperation → OperationRecord → Bool
matches p existing =
    existing.runtime_id == p.runtime_id
    && existing.workspace_id == p.operation.workspace_id
    && existing.account_scope == p.operation.account_scope
    && existing.connection_id == p.operation.connection_id
    && existing.connection_revision == p.operation.connection_revision
    && existing.terminal_session_id == p.operation.terminal_session_id
    && same_actor existing.actor p.operation.actor
    && existing.kind == p.operation.kind
    && existing.payload_schema_version == p.operation.payload_schema_version
    && existing.payload_hash == p.payload.sha256
    && existing.schema_fingerprint == p.operation.schema_fingerprint
    && existing.risk_level == p.operation.risk_level
    && value_beq existing.preview p.operation.preview
    && value_beq existing.policy_snapshot p.operation.policy_snapshot
    && existing.policy_revision == p.operation.policy_revision
    && same_bool existing.single_use p.operation.single_use
    && existing.idempotency_key == p.operation.idempotency_key
    && existing.expires_at == p.operation.expires_at

-- The row that `insert_planned` inserts.
unfoldable pub planned_row : PreparedOperation → DateTime → OperationRow
planned_row p created_at = record {
  id = p.operation.id;
  runtime_id = p.runtime_id;
  workspace_id = p.operation.workspace_id;
  account_scope = p.operation.account_scope;
  connection_id = p.operation.connection_id;
  connection_revision = p.operation.connection_revision;
  terminal_session_id = p.operation.terminal_session_id;
  actor_kind = actor_kind_str p.operation.actor.kind;
  actor_id = p.operation.actor.id;
  actor_provenance_json = p.actor_provenance_json;
  operation_kind = operation_kind_str p.operation.kind;
  payload_schema_version = p.operation.payload_schema_version;
  payload_json = p.payload.json;
  payload_hash = p.payload.sha256;
  schema_fingerprint = p.operation.schema_fingerprint;
  risk_level = risk_level_str p.operation.risk_level;
  preview_json = p.preview_json;
  policy_snapshot_json = p.policy_snapshot_json;
  policy_revision = p.operation.policy_revision;
  state = state_str OperationState.planned;
  single_use = if p.operation.single_use then 1 else 0;
  idempotency_key = p.operation.idempotency_key;
  expires_at = p.operation.expires_at;
  started_at = none;
  finished_at = none;
  created_at = created_at;
  updated_at = created_at;
}

abbrev pub planned_object : PreparedOperation → Value
planned_object p = Value.object (
    Fields.field "payloadHash" (Value.string p.payload.sha256)
      (Fields.field "riskLevel" (Value.string (risk_level_str p.operation.risk_level)) Fields.end))

module _ (crates : Crates) where
  -- `PreparedOperation::new`.
  unfoldable pub prepare : Uuid → NewOperation → Result PreparedOperation
  prepare runtime_id operation =
      let payload = from_value crates operation.payload in
      let actor_provenance_json =
        canonical_json crates (crates.provenance_to_value operation.actor.provenance) in
      let preview_json = canonical_json crates operation.preview in
      let policy_snapshot_json = canonical_json crates operation.policy_snapshot in
      Error.◌>>◌ (validate_new_operation operation) (
        if ltb max_request_bytes (len payload.json)
        then err (config "operation payload exceeds the local control-message limit")
        else if ltb max_response_bytes (
            saturating_add (saturating_add (len actor_provenance_json) (len preview_json))
              (len policy_snapshot_json))
        then err (config "operation metadata exceeds the local control-message limit")
        else ok (record {
          runtime_id = runtime_id;
          operation = operation;
          payload = payload;
          actor_provenance_json = actor_provenance_json;
          preview_json = preview_json;
          policy_snapshot_json = policy_snapshot_json;
        }))

  -- The idempotency key is taken: the same plan is returned, another one is refused.
  unfoldable pub replay : PreparedOperation → OperationRow → Tx (Result OperationRecord)
  replay p row = do
    existing ← lift (row_to_operation crates row)
    if matches p existing
        then return (ok existing)
        else lift (
            err (blocked "the idempotency key is already bound to a different immutable operation"))

  unfoldable pub insert_new : Uuid → PreparedOperation → DateTime → Tx (Result OperationRecord)
  insert_new event_id p created_at = do
    insert_operation (planned_row p created_at)
    event ←
        append_event_tx crates event_id p.operation.id OperationEventKind.planned
          OperationState.planned (planned_object p) created_at
    fetched ← fetch_operation_tx crates p.operation.id
    return (ok fetched)

  abbrev replay_or_insert :
      Uuid → PreparedOperation → DateTime → Option OperationRow → Tx (Result OperationRecord)
  replay_or_insert event_id p created_at (some row) = replay p row
  replay_or_insert event_id p created_at none = insert_new event_id p created_at

  unfoldable pub insert_prepared : Uuid → PreparedOperation → DateTime → Tx (Result OperationRecord)
  insert_prepared event_id p created_at tables =
      replay_or_insert event_id p created_at
        (select_by_key p.operation.workspace_id (actor_kind_str p.operation.actor.kind)
          p.operation.actor.id p.operation.idempotency_key tables.operations)
        tables

  -- `insert_planned`.
  unfoldable pub insert_planned :
      Uuid → Uuid → NewOperation → DateTime → Db → Outcome OperationRecord
  insert_planned event_id runtime_id operation created_at tables =
      elim (prepare runtime_id operation) [
        | ok p ↦ commit tables (insert_prepared event_id p created_at tables)
        | err e ↦ (tables, err e)
      ]
