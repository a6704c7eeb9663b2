-- ===== src/Operations/Rows.antt =====
-- The tables of src-tauri/src/store/migrations.rs and their readers in operations/repository.rs.
-- Labels and JSON are text columns; ids and times are read as numbers.
pub mod Laws
use agent_db.Base.{
  ℕ, zero, suc, ◌<◌, ◌^◌, Bool, true, false, Option, some, none, String, ◌!=◌, ◌==◌, text_eq, ltb,
  if◌then◌else◌,
}
use agent_db.Error.{AppError, serialization, config, Result, ok, err, ◌>>=◌, ◌>>◌, reject_if, ok_or}
use agent_db.Json.{Value}
use agent_db.Operations.Crates.{Crates, OperationActorProvenance}
use agent_db.Operations.Canonicalize.{CanonicalJson, from_stored, into_value, canonical_json}
use agent_db.Operations.Model.{
  Uuid, DateTime, OperationKind, OperationActorKind, OperationState, OperationEventKind,
  OperationRiskLevel, OperationApprovalDecision,
}
use agent_db.Operations.Model.Labels.{
  parse_actor_kind, parse_operation_kind, parse_risk_level, parse_state, parse_event_kind,
  parse_approval_decision,
}

pub record OperationActor : Type 0 where
  pub kind : OperationActorKind
  pub id : String
  pub provenance : OperationActorProvenance

pub record OperationRecord : Type 0 where
  pub id : Uuid
  pub runtime_id : Uuid
  pub workspace_id : Uuid
  pub account_scope : String
  pub connection_id : Uuid
  pub connection_revision : ℕ
  pub terminal_session_id : Option Uuid
  pub actor : OperationActor
  pub kind : OperationKind
  pub payload_schema_version : ℕ
  pub payload : Value
  pub payload_hash : String
  pub schema_fingerprint : Option String
  pub risk_level : OperationRiskLevel
  pub preview : Value
  pub policy_snapshot : Value
  pub policy_revision : String
  pub state : OperationState
  pub single_use : Bool
  pub idempotency_key : String
  pub expires_at : Option DateTime
  pub started_at : Option DateTime
  pub finished_at : Option DateTime
  pub created_at : DateTime
  pub updated_at : DateTime

pub record OperationApprover : Type 0 where
  pub kind : OperationActorKind
  pub id : String

pub record OperationApprovalRecord : Type 0 where
  pub id : Uuid
  pub operation_id : Uuid
  pub payload_hash : String
  pub approver : OperationApprover
  pub decision : OperationApprovalDecision
  pub reason : Option String
  pub policy_revision : String
  pub created_at : DateTime
  pub expires_at : Option DateTime

pub record OperationEventRecord : Type 0 where
  pub id : Uuid
  pub operation_id : Uuid
  pub sequence : ℕ
  pub kind : OperationEventKind
  pub state : OperationState
  pub details : Value
  pub created_at : DateTime
  pub prev_hash : Option String
  pub hash : String

-- A row of `operations`. The columns of `state`, `started_at`, `finished_at` and `updated_at` are
-- those that an update may write.
pub record OperationRow : Type 0 where
  pub id : Uuid
  pub runtime_id : Uuid
  pub workspace_id : Uuid
  pub account_scope : String
  pub connection_id : Uuid
  pub connection_revision : ℕ
  pub terminal_session_id : Option Uuid
  pub actor_kind : String
  pub actor_id : String
  pub actor_provenance_json : String
  pub operation_kind : String
  pub payload_schema_version : ℕ
  pub payload_json : String
  pub payload_hash : String
  pub schema_fingerprint : Option String
  pub risk_level : String
  pub preview_json : String
  pub policy_snapshot_json : String
  pub policy_revision : String
  pub state : String
  pub single_use : ℕ
  pub idempotency_key : String
  pub expires_at : Option DateTime
  pub started_at : Option DateTime
  pub finished_at : Option DateTime
  pub created_at : DateTime
  pub updated_at : DateTime

-- A row of `operation_approvals`.
pub record ApprovalRow : Type 0 where
  pub id : Uuid
  pub operation_id : Uuid
  pub payload_hash : String
  pub approver_kind : String
  pub approver_id : String
  pub decision : String
  pub reason : Option String
  pub policy_revision : String
  pub created_at : DateTime
  pub expires_at : Option DateTime

-- A row of `operation_events`.
pub record EventRow : Type 0 where
  pub id : Uuid
  pub operation_id : Uuid
  pub sequence : ℕ
  pub event_kind : String
  pub state : String
  pub event_json : String
  pub created_at : DateTime
  pub prev_hash : Option String
  pub hash : String

unfoldable pub parse_bool : ℕ → Result Bool
parse_bool zero = ok false
parse_bool (suc zero) = ok true
parse_bool (suc (suc n)) = err (config "invalid operation single_use in local operation store")

-- `u32::try_from`.
unfoldable pub u32_from : ℕ → Result ℕ
u32_from n =
    if ltb n (2 ^ 32) then ok n else err (config "invalid operation payload schema version")

pub record StoredJson : Type 0 where
  pub payload : Value
  pub provenance : OperationActorProvenance
  pub preview : Value
  pub policy_snapshot : Value

pub record StoredLabels : Type 0 where
  pub actor_kind : OperationActorKind
  pub kind : OperationKind
  pub payload_schema_version : ℕ
  pub risk_level : OperationRiskLevel
  pub state : OperationState
  pub single_use : Bool

-- The label and integer columns of `row_to_operation`, in its order.
unfoldable pub read_labels : OperationRow → Result StoredLabels
read_labels row = do
  actor_kind ←
      ok_or (parse_actor_kind row.actor_kind) (config "invalid stored operation actor kind")
  kind ← ok_or (parse_operation_kind row.operation_kind) (config "invalid stored operation kind")
  payload_schema_version ← u32_from row.payload_schema_version
  risk_level ←
      ok_or (parse_risk_level row.risk_level) (config "invalid stored operation risk level")
  state ← ok_or (parse_state row.state) (config "invalid stored operation state")
  single_use ← parse_bool row.single_use
  ok (record {
    actor_kind = actor_kind;
    kind = kind;
    payload_schema_version = payload_schema_version;
    risk_level = risk_level;
    state = state;
    single_use = single_use;
  })

module _ (crates : Crates) where
  open crates use {from_str, provenance_from_value}

  unfoldable pub parse_canonical_json : String → Result Value
  parse_canonical_json json = do
    value ← ok_or (from_str json) serialization
    reject_if (canonical_json crates value != json)
        (config "stored operation JSON is not canonical")
    ok value

  -- The JSON columns of `row_to_operation`, in its order.
  unfoldable pub read_json : OperationRow → Result StoredJson
  read_json row = do
    canonical ← from_stored crates row.payload_json row.payload_hash
    payload ← into_value crates canonical
    actor_provenance_value ← parse_canonical_json row.actor_provenance_json
    provenance ← ok_or (provenance_from_value actor_provenance_value) serialization
    preview ← parse_canonical_json row.preview_json
    policy_snapshot ← parse_canonical_json row.policy_snapshot_json
    ok (record {
      payload = payload;
      provenance = provenance;
      preview = preview;
      policy_snapshot = policy_snapshot;
    })

  unfoldable pub row_to_operation : OperationRow → Result OperationRecord
  row_to_operation row = do
    json ← read_json row
    labels ← read_labels row
    ok (record {
      id = row.id;
      runtime_id = row.runtime_id;
      workspace_id = row.workspace_id;
      account_scope = row.account_scope;
      connection_id = row.connection_id;
      connection_revision = row.connection_revision;
      terminal_session_id = row.terminal_session_id;
      actor = record { kind = labels.actor_kind; id = row.actor_id; provenance = json.provenance };
      kind = labels.kind;
      payload_schema_version = labels.payload_schema_version;
      payload = json.payload;
      payload_hash = row.payload_hash;
      schema_fingerprint = row.schema_fingerprint;
      risk_level = labels.risk_level;
      preview = json.preview;
      policy_snapshot = json.policy_snapshot;
      policy_revision = row.policy_revision;
      state = labels.state;
      single_use = labels.single_use;
      idempotency_key = row.idempotency_key;
      expires_at = row.expires_at;
      started_at = row.started_at;
      finished_at = row.finished_at;
      created_at = row.created_at;
      updated_at = row.updated_at;
    })

  unfoldable pub row_to_approval : ApprovalRow → Result OperationApprovalRecord
  row_to_approval row = do
    kind ←
        ok_or (parse_actor_kind row.approver_kind) (config "invalid stored operation approver kind")
    decision ←
        ok_or (parse_approval_decision row.decision)
          (config "invalid stored operation approval decision")
    ok (record {
      id = row.id;
      operation_id = row.operation_id;
      payload_hash = row.payload_hash;
      approver = record { kind = kind; id = row.approver_id };
      decision = decision;
      reason = row.reason;
      policy_revision = row.policy_revision;
      created_at = row.created_at;
      expires_at = row.expires_at;
    })

  unfoldable pub row_to_event : EventRow → Result OperationEventRecord
  row_to_event row = do
    kind ← ok_or (parse_event_kind row.event_kind) (config "invalid stored operation event kind")
    state ← ok_or (parse_state row.state) (config "invalid stored operation event state")
    details ← parse_canonical_json row.event_json
    ok (record {
      id = row.id;
      operation_id = row.operation_id;
      sequence = row.sequence;
      kind = kind;
      state = state;
      details = details;
      created_at = row.created_at;
      prev_hash = row.prev_hash;
      hash = row.hash;
    })
