-- ===== src/Operations/Model/Labels.antt =====
-- The text columns of src-tauri/src/operations/model.rs: each enumeration's label and its parser.
pub mod Inverse
use agent_db.Base.{◌≡◌, refl, ap, arith, Option, some, none, String, ◌==◌, text_eq, if◌then◌else◌}
use text.Mathlib.TextEquality.{eq_iff}
use agent_db.Operations.Model.{
  OperationActorKind, OperationApprovalDecision, OperationKind, OperationRiskLevel, OperationState,
  OperationEventKind,
}

unfoldable pub actor_kind_str : OperationActorKind → String
actor_kind_str OperationActorKind.local_user = "local_user"
actor_kind_str OperationActorKind.workspace_user = "workspace_user"
actor_kind_str OperationActorKind.agent = "agent"
actor_kind_str OperationActorKind.plugin = "plugin"
actor_kind_str OperationActorKind.system = "system"

unfoldable pub parse_actor_kind : String → Option OperationActorKind
parse_actor_kind value =
    if value == "local_user"
    then some OperationActorKind.local_user
    else if value == "workspace_user"
    then some OperationActorKind.workspace_user
    else if value == "agent"
    then some OperationActorKind.agent
    else if value == "plugin"
    then some OperationActorKind.plugin
    else if value == "system"
    then some OperationActorKind.system
    else none

unfoldable pub approval_decision_str : OperationApprovalDecision → String
approval_decision_str OperationApprovalDecision.approved = "approved"
approval_decision_str OperationApprovalDecision.rejected = "rejected"

unfoldable pub parse_approval_decision : String → Option OperationApprovalDecision
parse_approval_decision value =
    if value == "approved"
    then some OperationApprovalDecision.approved
    else if value == "rejected"
    then some OperationApprovalDecision.rejected
    else none

unfoldable pub operation_kind_str : OperationKind → String
operation_kind_str OperationKind.read_query = "read_query"
operation_kind_str OperationKind.document_read = "document_read"
operation_kind_str OperationKind.write_sql = "write_sql"
operation_kind_str OperationKind.ddl = "ddl"
operation_kind_str OperationKind.privilege = "privilege"
operation_kind_str OperationKind.sql_script = "sql_script"
operation_kind_str OperationKind.table_data_change = "table_data_change"
operation_kind_str OperationKind.schema_change = "schema_change"
operation_kind_str OperationKind.import = "import"
operation_kind_str OperationKind.export = "export"
operation_kind_str OperationKind.migration = "migration"
operation_kind_str OperationKind.dashboard_create = "dashboard_create"
operation_kind_str OperationKind.plugin_action = "plugin_action"
operation_kind_str OperationKind.provider_action = "provider_action"

unfoldable pub parse_operation_kind : String → Option OperationKind
parse_operation_kind value =
    if value == "read_query"
    then some OperationKind.read_query
    else if value == "document_read"
    then some OperationKind.document_read
    else if value == "write_sql"
    then some OperationKind.write_sql
    else if value == "ddl"
    then some OperationKind.ddl
    else if value == "privilege"
    then some OperationKind.privilege
    else if value == "sql_script"
    then some OperationKind.sql_script
    else if value == "table_data_change"
    then some OperationKind.table_data_change
    else if value == "schema_change"
    then some OperationKind.schema_change
    else if value == "import"
    then some OperationKind.import
    else if value == "export"
    then some OperationKind.export
    else if value == "migration"
    then some OperationKind.migration
    else if value == "dashboard_create"
    then some OperationKind.dashboard_create
    else if value == "plugin_action"
    then some OperationKind.plugin_action
    else if value == "provider_action"
    then some OperationKind.provider_action
    else none

unfoldable pub risk_level_str : OperationRiskLevel → String
risk_level_str OperationRiskLevel.low = "low"
risk_level_str OperationRiskLevel.medium = "medium"
risk_level_str OperationRiskLevel.high = "high"
risk_level_str OperationRiskLevel.critical = "critical"

unfoldable pub parse_risk_level : String → Option OperationRiskLevel
parse_risk_level value =
    if value == "low"
    then some OperationRiskLevel.low
    else if value == "medium"
    then some OperationRiskLevel.medium
    else if value == "high"
    then some OperationRiskLevel.high
    else if value == "critical"
    then some OperationRiskLevel.critical
    else none

unfoldable pub state_str : OperationState → String
state_str OperationState.planned = "planned"
state_str OperationState.pending_approval = "pending_approval"
state_str OperationState.ready = "ready"
state_str OperationState.approved = "approved"
state_str OperationState.rejected = "rejected"
state_str OperationState.expired = "expired"
state_str OperationState.cancelled = "cancelled"
state_str OperationState.executing = "executing"
state_str OperationState.succeeded = "succeeded"
state_str OperationState.failed = "failed"
state_str OperationState.outcome_unknown = "outcome_unknown"

unfoldable pub parse_state : String → Option OperationState
parse_state value =
    if value == "planned"
    then some OperationState.planned
    else if value == "pending_approval"
    then some OperationState.pending_approval
    else if value == "ready"
    then some OperationState.ready
    else if value == "approved"
    then some OperationState.approved
    else if value == "rejected"
    then some OperationState.rejected
    else if value == "expired"
    then some OperationState.expired
    else if value == "cancelled"
    then some OperationState.cancelled
    else if value == "executing"
    then some OperationState.executing
    else if value == "succeeded"
    then some OperationState.succeeded
    else if value == "failed"
    then some OperationState.failed
    else if value == "outcome_unknown"
    then some OperationState.outcome_unknown
    else none

unfoldable pub event_kind_str : OperationEventKind → String
event_kind_str OperationEventKind.proposed = "proposed"
event_kind_str OperationEventKind.planned = "planned"
event_kind_str OperationEventKind.approval_requested = "approval_requested"
event_kind_str OperationEventKind.approved = "approved"
event_kind_str OperationEventKind.rejected = "rejected"
event_kind_str OperationEventKind.execution_started = "execution_started"
event_kind_str OperationEventKind.progress = "progress"
event_kind_str OperationEventKind.succeeded = "succeeded"
event_kind_str OperationEventKind.failed = "failed"
event_kind_str OperationEventKind.cancelled = "cancelled"
event_kind_str OperationEventKind.outcome_unknown = "outcome_unknown"
event_kind_str OperationEventKind.expired = "expired"

unfoldable pub parse_event_kind : String → Option OperationEventKind
parse_event_kind value =
    if value == "proposed"
    then some OperationEventKind.proposed
    else if value == "planned"
    then some OperationEventKind.planned
    else if value == "approval_requested"
    then some OperationEventKind.approval_requested
    else if value == "approved"
    then some OperationEventKind.approved
    else if value == "rejected"
    then some OperationEventKind.rejected
    else if value == "execution_started"
    then some OperationEventKind.execution_started
    else if value == "progress"
    then some OperationEventKind.progress
    else if value == "succeeded"
    then some OperationEventKind.succeeded
    else if value == "failed"
    then some OperationEventKind.failed
    else if value == "cancelled"
    then some OperationEventKind.cancelled
    else if value == "outcome_unknown"
    then some OperationEventKind.outcome_unknown
    else if value == "expired"
    then some OperationEventKind.expired
    else none
