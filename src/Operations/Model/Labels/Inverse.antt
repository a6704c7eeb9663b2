-- ===== src/Operations/Model/Labels/Inverse.antt =====
-- The labels of src-tauri/src/operations/model.rs and their parsers as inverses.
use agent_db.Base.{◌≡◌, refl, ap, arith, Option, some, String, ◌==◌, text_eq, if◌then◌else◌}
use text.Mathlib.TextEquality.{eq_iff}
use agent_db.Operations.Model.{
  OperationActorKind, OperationApprovalDecision, OperationKind, OperationRiskLevel, OperationState,
  OperationEventKind,
}
use agent_db.Operations.Model.Labels.{
  actor_kind_str, approval_decision_str, event_kind_str, operation_kind_str, parse_actor_kind,
  parse_approval_decision, parse_event_kind, parse_operation_kind, parse_risk_level, parse_state,
  risk_level_str, state_str,
}

-- One arm of a parser that is to be inverse to the labels `label`.
module _ {T : Type 0} (label : T → String) (value : String) {y : T} where
  arm :
      (x : T) (rest : Option T)
      → (rest ≡ some y → value ≡ label y)
      → (if value == label x then some x else rest) ≡ some y
      → value ≡ label y
  arm x rest later h = ground (arith, eq_iff value (label x), later)

pub parse_actor_kind-actor_kind_str :
    (x : OperationActorKind) → parse_actor_kind (actor_kind_str x) ≡ some x
unfolding parse_actor_kind actor_kind_str
parse_actor_kind-actor_kind_str OperationActorKind.local_user = refl
parse_actor_kind-actor_kind_str OperationActorKind.workspace_user = refl
parse_actor_kind-actor_kind_str OperationActorKind.agent = refl
parse_actor_kind-actor_kind_str OperationActorKind.plugin = refl
parse_actor_kind-actor_kind_str OperationActorKind.system = refl

pub actor_kind_str_of_parse :
    (s : String) (x : OperationActorKind) → parse_actor_kind s ≡ some x → s ≡ actor_kind_str x
unfolding parse_actor_kind actor_kind_str
actor_kind_str_of_parse s x = arm actor_kind_str s OperationActorKind.local_user _ (
    arm actor_kind_str s OperationActorKind.workspace_user _ (
      arm actor_kind_str s OperationActorKind.agent _ (
        arm actor_kind_str s OperationActorKind.plugin _
          (arm actor_kind_str s OperationActorKind.system _ (λ h. cc)))))

pub parse_approval_decision-approval_decision_str :
    (x : OperationApprovalDecision) → parse_approval_decision (approval_decision_str x) ≡ some x
unfolding parse_approval_decision approval_decision_str
parse_approval_decision-approval_decision_str OperationApprovalDecision.approved = refl
parse_approval_decision-approval_decision_str OperationApprovalDecision.rejected = refl

pub approval_decision_str_of_parse :
    (s : String) (x : OperationApprovalDecision)
    → parse_approval_decision s ≡ some x
    → s ≡ approval_decision_str x
unfolding parse_approval_decision approval_decision_str
approval_decision_str_of_parse s x =
    arm approval_decision_str s OperationApprovalDecision.approved _
      (arm approval_decision_str s OperationApprovalDecision.rejected _ (λ h. cc))

pub parse_operation_kind-operation_kind_str :
    (x : OperationKind) → parse_operation_kind (operation_kind_str x) ≡ some x
unfolding parse_operation_kind operation_kind_str
parse_operation_kind-operation_kind_str OperationKind.read_query = refl
parse_operation_kind-operation_kind_str OperationKind.document_read = refl
parse_operation_kind-operation_kind_str OperationKind.write_sql = refl
parse_operation_kind-operation_kind_str OperationKind.ddl = refl
parse_operation_kind-operation_kind_str OperationKind.privilege = refl
parse_operation_kind-operation_kind_str OperationKind.sql_script = refl
parse_operation_kind-operation_kind_str OperationKind.table_data_change = refl
parse_operation_kind-operation_kind_str OperationKind.schema_change = refl
parse_operation_kind-operation_kind_str OperationKind.import = refl
parse_operation_kind-operation_kind_str OperationKind.export = refl
parse_operation_kind-operation_kind_str OperationKind.migration = refl
parse_operation_kind-operation_kind_str OperationKind.dashboard_create = refl
parse_operation_kind-operation_kind_str OperationKind.plugin_action = refl
parse_operation_kind-operation_kind_str OperationKind.provider_action = refl

-- Only the label of a kind of operation is read as that kind.
pub operation_kind_str_of_parse :
    (s : String) (x : OperationKind) → parse_operation_kind s ≡ some x → s ≡ operation_kind_str x
unfolding parse_operation_kind operation_kind_str
operation_kind_str_of_parse s x = arm operation_kind_str s OperationKind.read_query _ (
    arm operation_kind_str s OperationKind.document_read _ (
      arm operation_kind_str s OperationKind.write_sql _ (
        arm operation_kind_str s OperationKind.ddl _ (
          arm operation_kind_str s OperationKind.privilege _ (
            arm operation_kind_str s OperationKind.sql_script _ (
              arm operation_kind_str s OperationKind.table_data_change _ (
                arm operation_kind_str s OperationKind.schema_change _ (
                  arm operation_kind_str s OperationKind.import _ (
                    arm operation_kind_str s OperationKind.export _ (
                      arm operation_kind_str s OperationKind.migration _ (
                        arm operation_kind_str s OperationKind.dashboard_create _ (
                          arm operation_kind_str s OperationKind.plugin_action _ (
                            arm operation_kind_str s OperationKind.provider_action _
                              (λ h. cc))))))))))))))

pub parse_risk_level-risk_level_str :
    (x : OperationRiskLevel) → parse_risk_level (risk_level_str x) ≡ some x
unfolding parse_risk_level risk_level_str
parse_risk_level-risk_level_str OperationRiskLevel.low = refl
parse_risk_level-risk_level_str OperationRiskLevel.medium = refl
parse_risk_level-risk_level_str OperationRiskLevel.high = refl
parse_risk_level-risk_level_str OperationRiskLevel.critical = refl

pub risk_level_str_of_parse :
    (s : String) (x : OperationRiskLevel) → parse_risk_level s ≡ some x → s ≡ risk_level_str x
unfolding parse_risk_level risk_level_str
risk_level_str_of_parse s x = arm risk_level_str s OperationRiskLevel.low _ (
    arm risk_level_str s OperationRiskLevel.medium _ (
      arm risk_level_str s OperationRiskLevel.high _
        (arm risk_level_str s OperationRiskLevel.critical _ (λ h. cc))))

-- The stored label of a state is read back as that state.
pub parse_state-state_str : (x : OperationState) → parse_state (state_str x) ≡ some x
unfolding parse_state state_str
parse_state-state_str OperationState.planned = refl
parse_state-state_str OperationState.pending_approval = refl
parse_state-state_str OperationState.ready = refl
parse_state-state_str OperationState.approved = refl
parse_state-state_str OperationState.rejected = refl
parse_state-state_str OperationState.expired = refl
parse_state-state_str OperationState.cancelled = refl
parse_state-state_str OperationState.executing = refl
parse_state-state_str OperationState.succeeded = refl
parse_state-state_str OperationState.failed = refl
parse_state-state_str OperationState.outcome_unknown = refl

-- Only the label of a state is read as that state.
pub state_str_of_parse :
    (s : String) (x : OperationState) → parse_state s ≡ some x → s ≡ state_str x
unfolding parse_state state_str
state_str_of_parse s x = arm state_str s OperationState.planned _ (
    arm state_str s OperationState.pending_approval _ (
      arm state_str s OperationState.ready _ (
        arm state_str s OperationState.approved _ (
          arm state_str s OperationState.rejected _ (
            arm state_str s OperationState.expired _ (
              arm state_str s OperationState.cancelled _ (
                arm state_str s OperationState.executing _ (
                  arm state_str s OperationState.succeeded _ (
                    arm state_str s OperationState.failed _
                      (arm state_str s OperationState.outcome_unknown _ (λ h. cc)))))))))))

pub parse_event_kind-event_kind_str :
    (x : OperationEventKind) → parse_event_kind (event_kind_str x) ≡ some x
unfolding parse_event_kind event_kind_str
parse_event_kind-event_kind_str OperationEventKind.proposed = refl
parse_event_kind-event_kind_str OperationEventKind.planned = refl
parse_event_kind-event_kind_str OperationEventKind.approval_requested = refl
parse_event_kind-event_kind_str OperationEventKind.approved = refl
parse_event_kind-event_kind_str OperationEventKind.rejected = refl
parse_event_kind-event_kind_str OperationEventKind.execution_started = refl
parse_event_kind-event_kind_str OperationEventKind.progress = refl
parse_event_kind-event_kind_str OperationEventKind.succeeded = refl
parse_event_kind-event_kind_str OperationEventKind.failed = refl
parse_event_kind-event_kind_str OperationEventKind.cancelled = refl
parse_event_kind-event_kind_str OperationEventKind.outcome_unknown = refl
parse_event_kind-event_kind_str OperationEventKind.expired = refl

pub event_kind_str_of_parse :
    (s : String) (x : OperationEventKind) → parse_event_kind s ≡ some x → s ≡ event_kind_str x
unfolding parse_event_kind event_kind_str
event_kind_str_of_parse s x = arm event_kind_str s OperationEventKind.proposed _ (
    arm event_kind_str s OperationEventKind.planned _ (
      arm event_kind_str s OperationEventKind.approval_requested _ (
        arm event_kind_str s OperationEventKind.approved _ (
          arm event_kind_str s OperationEventKind.rejected _ (
            arm event_kind_str s OperationEventKind.execution_started _ (
              arm event_kind_str s OperationEventKind.progress _ (
                arm event_kind_str s OperationEventKind.succeeded _ (
                  arm event_kind_str s OperationEventKind.failed _ (
                    arm event_kind_str s OperationEventKind.cancelled _ (
                      arm event_kind_str s OperationEventKind.outcome_unknown _
                        (arm event_kind_str s OperationEventKind.expired _ (λ h. cc))))))))))))

pub state_str-injective : (x y : OperationState) → state_str x ≡ state_str y → x ≡ y
state_str-injective x y h = cc (parse_state-state_str x, parse_state-state_str y, ap parse_state h)
