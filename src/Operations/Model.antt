-- ===== src/Operations/Model.antt =====
-- dopedb-protocol/src/operation.rs and the types of src-tauri/src/operations/model.rs.
-- A `Uuid` is a number, a `DateTime<Utc>` the number of its nanosecond.
pub mod Labels
use agent_db.Base.{ℕ, ◌≡◌, Bool, true, false, Option, String, Eq, text_eq, option_eq, discrete_eq}
use agent_db.Json.{Value}

abbrev pub Uuid : Type 0
Uuid = ℕ

abbrev pub DateTime : Type 0
DateTime = ℕ

pub data OperationKind : Type 0 where
  read_query document_read write_sql ddl privilege sql_script table_data_change : OperationKind
  schema_change import export migration dashboard_create plugin_action : OperationKind
  provider_action : OperationKind

abbrev pub is_read : OperationKind → Bool
is_read OperationKind.read_query = true
is_read OperationKind.document_read = true
is_read _ = false

abbrev pub is_resumable_job : OperationKind → Bool
is_resumable_job OperationKind.import = true
is_resumable_job OperationKind.export = true
is_resumable_job _ = false

abbrev pub may_mutate_target : OperationKind → Bool
may_mutate_target OperationKind.write_sql = true
may_mutate_target OperationKind.ddl = true
may_mutate_target OperationKind.privilege = true
may_mutate_target OperationKind.sql_script = true
may_mutate_target OperationKind.table_data_change = true
may_mutate_target OperationKind.schema_change = true
may_mutate_target OperationKind.import = true
may_mutate_target OperationKind.migration = true
may_mutate_target OperationKind.plugin_action = true
may_mutate_target OperationKind.provider_action = true
may_mutate_target _ = false

pub data OperationActorKind : Type 0 where
  local_user workspace_user agent plugin system : OperationActorKind

pub data OperationState : Type 0 where
  planned pending_approval ready approved rejected expired cancelled : OperationState
  executing succeeded failed outcome_unknown : OperationState

abbrev pub is_terminal : OperationState → Bool
is_terminal OperationState.rejected = true
is_terminal OperationState.expired = true
is_terminal OperationState.cancelled = true
is_terminal OperationState.succeeded = true
is_terminal OperationState.failed = true
is_terminal OperationState.outcome_unknown = true
is_terminal _ = false

pub data OperationEventKind : Type 0 where
  proposed planned approval_requested approved rejected : OperationEventKind
  execution_started progress succeeded failed cancelled : OperationEventKind
  outcome_unknown expired : OperationEventKind

pub data OperationRiskLevel : Type 0 where
  low medium high critical : OperationRiskLevel

pub data OperationApprovalDecision : Type 0 where
  approved rejected : OperationApprovalDecision

unfoldable pub OperationKind-discrete : Discrete OperationKind
OperationKind-discrete = hlevel

unfoldable pub OperationActorKind-discrete : Discrete OperationActorKind
OperationActorKind-discrete = hlevel

unfoldable pub OperationState-discrete : Discrete OperationState
OperationState-discrete = hlevel

unfoldable pub OperationEventKind-discrete : Discrete OperationEventKind
OperationEventKind-discrete = hlevel

unfoldable pub OperationRiskLevel-discrete : Discrete OperationRiskLevel
OperationRiskLevel-discrete = hlevel

instance abbrev pub kind_eq : Eq OperationKind
kind_eq = discrete_eq OperationKind-discrete

instance abbrev pub actor_kind_eq : Eq OperationActorKind
actor_kind_eq = discrete_eq OperationActorKind-discrete

instance abbrev pub state_eq : Eq OperationState
state_eq = discrete_eq OperationState-discrete

instance abbrev pub event_kind_eq : Eq OperationEventKind
event_kind_eq = discrete_eq OperationEventKind-discrete

instance abbrev pub risk_eq : Eq OperationRiskLevel
risk_eq = discrete_eq OperationRiskLevel-discrete
