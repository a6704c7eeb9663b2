-- ===== src/Operations/Examples.antt =====
-- A run of the Operation Runtime on concrete tables: one SQL write that a local user approves and
-- that is then claimed. The codecs are constant functions.
use agent_db.Operations.Recovery.{
  empty_report, insert_row, select_stale, recover_operation, recover_rows, recover_body,
  recover_previous_runtimes,
}
use agent_db.Operations.Runtime.Settled.{Settled}
use agent_db.Operations.Runtime.Settled.Restart.{restart-Settled}
use agent_db.Base.{is_blank, ◌≡◌, refl, true, some, none, List, [], ◌∷◌, String}
use agent_db.Error.{ok}
use agent_db.Json.{Value, Fields}
use agent_db.Operations.Crates.{Crates, OperationActorProvenance}
use agent_db.Operations.Model.{
  OperationKind, OperationActorKind, OperationState, OperationRiskLevel, OperationApprovalDecision,
}
use agent_db.Operations.Rows.{OperationRecord}
use agent_db.Operations.Store.{Db}
use agent_db.Operations.Planning.{NewOperation}
use agent_db.Operations.Runtime.{OperationPlanDisposition}
use agent_db.Operations.Runtime.Histories.{Call, run}
use agent_db.Operations.Store.{
  select_operation, select_by_key, insert_operation, update_rows, affected, exists_approval,
  has_approval_id, insert_approval, tail_event, clashes, insert_event, insert_by_sequence,
  select_events,
}
use agent_db.Operations.Ledger.{
  transition_event_kind, next_link, event_hash, event_row, append_event_tx, read_events, events,
  verify_from,
}
use agent_db.Operations.Repository.{
  ensure_runtime, lift_transition, apply_update, require_exact_approval, fetch_operation_tx, get,
  transition_tx, transition_body, transition, expire_and_refuse, claim_current, claim_fetched,
  claim_body, claim_execution, decide_current, decide_fetched, decide_body, decide_approval,
  progress_fetched_body, progress_body, append_progress, verify_event_chain,
}
use agent_db.Operations.Planning.{
  require_texts, validate_new_operation, matches, planned_row, prepare, replay, insert_new,
  insert_prepared, insert_planned,
}
use agent_db.Operations.Execute.{issue}
use agent_db.Operations.Runtime.{
  ensure_local_approval_authority, grant_claimed, plan_target, plan, decide_exact, approve_exact,
  reject_exact, claim, progress, finish,
}
use agent_db.Operations.Rows.{
  parse_bool, u32_from, read_labels, parse_canonical_json, read_json, row_to_operation,
  row_to_approval, row_to_event,
}
use agent_db.Operations.Canonicalize.{
  lower_hex, from_value, from_stored, into_value, canonical_json, canonical_hash,
}
use agent_db.Operations.StateMachine.{ensure_transition, restart_recovery}
use agent_db.Operations.Model.Labels.{
  actor_kind_str, parse_actor_kind, approval_decision_str, parse_approval_decision,
  operation_kind_str, parse_operation_kind, risk_level_str, parse_risk_level, state_str,
  parse_state, event_kind_str, parse_event_kind,
}
use agent_db.Json.Equality.{value_beq}
use agent_db.Operations.Model.{
  OperationKind-discrete, OperationActorKind-discrete, OperationState-discrete,
  OperationEventKind-discrete, OperationRiskLevel-discrete,
}
use mathlib.Core.List.{Memᴰ}
use agent_db.Error.{err, blocked}
use agent_db.Operations.Rows.{ApprovalRow}
use agent_db.Operations.Store.{approves}
use agent_db.Operations.Invariant.{Inv}
use agent_db.Operations.Repository.Claim.{Claimed, claim_execution-Claimed, claim_execution-once}
use agent_db.Operations.Runtime.Consent.{ByPerson, claim_execution-ByPerson}
use agent_db.Operations.Runtime.Histories.{run-Inv}
use agent_db.Base.{◌⊎◌, ◌≢◌, ◌↔◌, ◌≤◌}
use agent_db.Json.Canonical.{canonical_value}
use agent_db.Json.Canonical.Laws.{Reordered, ReorderedFields, IsCanonical, canonical_value-Sorted}
use agent_db.Operations.Canonicalize.Laws.{
  ReadsBack, from_value-Reordered, from_stored-from_value, from_stored_sound,
}
use agent_db.Operations.StateMachine.{TransitionResult}
use agent_db.Operations.StateMachine.Walks.{
  Walk, moves, passes_through, moves_bounded, executed_was_approved,
}
use agent_db.Operations.StateMachine.Graph.{
  Edge, Recovers, ensure_transition-Edge, restart_recovery-Recovers,
}
use agent_db.Operations.Rows.{OperationRow}
use agent_db.Operations.Rows.Laws.{Reads, row_to_operation-Reads}
use agent_db.Operations.Repository.{OperationApprovalCommand}
use agent_db.Operations.Repository.Decide.{Decided, decide_approval-Decided}
use agent_db.Operations.Runtime.Consent.{AllByPersons, run-AllByPersons}
use agent_db.Operations.Runtime.Durable.{KeptIn, Grown, run-Kept, run-Grown}
use agent_db.Operations.Model.Labels.Inverse.{parse_operation_kind-operation_kind_str}
use agent_db.Base.{arith, text_eq}
use agent_db.Operations.Invariant.Reread.{AllReread}
use agent_db.Operations.Invariant.{ledger}
use agent_db.Operations.Runtime.Histories.{run-verify_event_chain}
use agent_db.Operations.Planning.{PreparedOperation}
use agent_db.Operations.Planning.Replay.{insert_planned-SamePlan}
use agent_db.Operations.Planning.SamePlan.{SamePlan}

abbrev local_provenance : OperationActorProvenance
local_provenance = record {
  local_account_id = none;
  workspace_account_id = none;
  agent_provider = none;
  agent_model = none;
  plugin_id = none;
  plugin_version = none;
  client_protocol_version = none;
  origin_surface = "desktop";
}

abbrev toy : Crates
toy = record {
  to_string = λ _. "{}";
  from_str = λ _. some (Value.object Fields.end);
  digest = λ _. 171 ∷ [];
  uuid_text = λ _. "id";
  rfc3339_nanos = λ _. "time";
  provenance_to_value = λ _. Value.object Fields.end;
  provenance_from_value = λ _. some local_provenance;
}

abbrev write : NewOperation
write = record {
  id = 7;
  workspace_id = 1;
  account_scope = "local";
  connection_id = 2;
  connection_revision = 1;
  terminal_session_id = none;
  actor = record { kind = OperationActorKind.agent; id = "agent-1"; provenance = local_provenance };
  kind = OperationKind.write_sql;
  payload_schema_version = 1;
  payload = Value.object Fields.end;
  schema_fingerprint = none;
  risk_level = OperationRiskLevel.high;
  preview = Value.object Fields.end;
  policy_snapshot = Value.object Fields.end;
  policy_revision = "policy-1";
  single_use = true;
  idempotency_key = "key-1";
  expires_at = some 100;
}

abbrev planned : List Call
planned = Call.plans 9 20 21 write OperationPlanDisposition.approval_required 10 11 ∷ []

abbrev hash_text : String
hash_text = "ab"

abbrev approval : Call
approval =
    Call.approves_exact 9 40 22 (record { runtime_id = 9 })
      (record {
        operation_id = 7;
        expected_payload_hash = hash_text;
        approver = record { kind = OperationActorKind.local_user; id = "user-1" };
        current_policy_revision = "policy-1";
        reason = none;
      })
      12

abbrev approved : List Call
approved = approval ∷ planned

abbrev stored_text : String
stored_text = "{}"

abbrev claimed : OperationRecord
claimed = record {
  id = 7;
  runtime_id = 9;
  workspace_id = 1;
  account_scope = "local";
  connection_id = 2;
  connection_revision = 1;
  terminal_session_id = none;
  actor = record { kind = OperationActorKind.agent; id = "agent-1"; provenance = local_provenance };
  kind = OperationKind.write_sql;
  payload_schema_version = 1;
  payload = Value.object Fields.end;
  payload_hash = hash_text;
  schema_fingerprint = none;
  risk_level = OperationRiskLevel.high;
  preview = Value.object Fields.end;
  policy_snapshot = Value.object Fields.end;
  policy_revision = "policy-1";
  state = OperationState.executing;
  single_use = true;
  idempotency_key = "key-1";
  expires_at = some 100;
  started_at = some 13;
  finished_at = none;
  created_at = 10;
  updated_at = 13;
}

abbrev before : Db
before = run toy approved

abbrev after : Db
after = (claim_execution toy 23 7 9 13 before).0

claimed_lem : (claim_execution toy 23 7 9 13 before).1 ≡ ok claimed
unfolding is_blank select_operation select_by_key insert_operation update_rows affected
    exists_approval has_approval_id insert_approval tail_event clashes insert_event
    insert_by_sequence select_events transition_event_kind next_link event_hash event_row
    append_event_tx read_events events verify_from ensure_runtime lift_transition apply_update
    require_exact_approval fetch_operation_tx get transition_tx transition_body transition
    expire_and_refuse claim_current claim_fetched claim_body claim_execution decide_current
    decide_fetched decide_body decide_approval progress_fetched_body progress_body append_progress
    verify_event_chain require_texts validate_new_operation matches planned_row prepare replay
    insert_new insert_prepared insert_planned issue ensure_local_approval_authority grant_claimed
    plan_target plan decide_exact approve_exact reject_exact claim progress finish parse_bool
    u32_from read_labels parse_canonical_json read_json row_to_operation row_to_approval
    row_to_event lower_hex from_value from_stored into_value canonical_json canonical_hash
    ensure_transition restart_recovery actor_kind_str parse_actor_kind approval_decision_str
    parse_approval_decision operation_kind_str parse_operation_kind risk_level_str parse_risk_level
    state_str parse_state event_kind_str parse_event_kind value_beq OperationKind-discrete
    OperationActorKind-discrete OperationState-discrete OperationEventKind-discrete
    OperationRiskLevel-discrete
claimed_lem = refl

run-Inv_example : Inv toy (run toy approved)
run-Inv_example = run-Inv toy approved

claim_execution-ByPerson_example :
    (a : ApprovalRow) × Memᴰ a (run toy approved).approvals
    × ByPerson a
    × (approves claimed.id claimed.payload_hash claimed.policy_revision 13 a ≡ true)
claim_execution-ByPerson_example = claim_execution-ByPerson toy approved 23 7 9 13 claimed_lem refl

claim_execution-once_example :
    (reason : String) × (claim_execution toy 24 7 9 14 after ≡ (after, err (blocked reason)))
claim_execution-once_example = claim_execution-once toy 23 7 9 13 before claimed_lem 24 9 14

claim_execution-Claimed_example : Claimed toy 23 7 9 13 before after claimed
claim_execution-Claimed_example = claim_execution-Claimed toy 23 7 9 13 before claimed_lem

abbrev pending_row : OperationRow
pending_row = record {
  id = 7;
  runtime_id = 9;
  workspace_id = 1;
  account_scope = "local";
  connection_id = 2;
  connection_revision = 1;
  terminal_session_id = none;
  actor_kind = "agent";
  actor_id = "agent-1";
  actor_provenance_json = "{}";
  operation_kind = "write_sql";
  payload_schema_version = 1;
  payload_json = "{}";
  payload_hash = hash_text;
  schema_fingerprint = none;
  risk_level = "high";
  preview_json = "{}";
  policy_snapshot_json = "{}";
  policy_revision = "policy-1";
  state = "pending_approval";
  single_use = 1;
  idempotency_key = "key-1";
  expires_at = some 100;
  started_at = none;
  finished_at = none;
  created_at = 10;
  updated_at = 11;
}

abbrev decided : OperationRecord
decided = record claimed { state = OperationState.approved; started_at = none; updated_at = 12 }

abbrev command_by : OperationActorKind → OperationApprovalCommand
command_by kind = record {
  operation_id = 7;
  runtime_id = 9;
  expected_payload_hash = hash_text;
  approver = record { kind = kind; id = "user-1" };
  decision = OperationApprovalDecision.approved;
  reason = none;
  current_policy_revision = "policy-1";
  now = 12;
}

decided_lem :
    (decide_approval toy 40 22 (command_by OperationActorKind.local_user) (run toy planned)).1
    ≡ ok decided
unfolding is_blank select_operation select_by_key insert_operation update_rows affected
    exists_approval has_approval_id insert_approval tail_event clashes insert_event
    insert_by_sequence select_events transition_event_kind next_link event_hash event_row
    append_event_tx read_events events verify_from ensure_runtime lift_transition apply_update
    require_exact_approval fetch_operation_tx get transition_tx transition_body transition
    expire_and_refuse claim_current claim_fetched claim_body claim_execution decide_current
    decide_fetched decide_body decide_approval progress_fetched_body progress_body append_progress
    verify_event_chain require_texts validate_new_operation matches planned_row prepare replay
    insert_new insert_prepared insert_planned issue ensure_local_approval_authority grant_claimed
    plan_target plan decide_exact approve_exact reject_exact claim progress finish parse_bool
    u32_from read_labels parse_canonical_json read_json row_to_operation row_to_approval
    row_to_event lower_hex from_value from_stored into_value canonical_json canonical_hash
    ensure_transition restart_recovery actor_kind_str parse_actor_kind approval_decision_str
    parse_approval_decision operation_kind_str parse_operation_kind risk_level_str parse_risk_level
    state_str parse_state event_kind_str parse_event_kind value_beq OperationKind-discrete
    OperationActorKind-discrete OperationState-discrete OperationEventKind-discrete
    OperationRiskLevel-discrete
decided_lem = refl

pending_lem : select_operation 7 (run toy planned).operations ≡ some pending_row
unfolding is_blank select_operation select_by_key insert_operation update_rows affected
    exists_approval has_approval_id insert_approval tail_event clashes insert_event
    insert_by_sequence select_events transition_event_kind next_link event_hash event_row
    append_event_tx read_events events verify_from ensure_runtime lift_transition apply_update
    require_exact_approval fetch_operation_tx get transition_tx transition_body transition
    expire_and_refuse claim_current claim_fetched claim_body claim_execution decide_current
    decide_fetched decide_body decide_approval progress_fetched_body progress_body append_progress
    verify_event_chain require_texts validate_new_operation matches planned_row prepare replay
    insert_new insert_prepared insert_planned issue ensure_local_approval_authority grant_claimed
    plan_target plan decide_exact approve_exact reject_exact claim progress finish parse_bool
    u32_from read_labels parse_canonical_json read_json row_to_operation row_to_approval
    row_to_event lower_hex from_value from_stored into_value canonical_json canonical_hash
    ensure_transition restart_recovery actor_kind_str parse_actor_kind approval_decision_str
    parse_approval_decision operation_kind_str parse_operation_kind risk_level_str parse_risk_level
    state_str parse_state event_kind_str parse_event_kind value_beq OperationKind-discrete
    OperationActorKind-discrete OperationState-discrete OperationEventKind-discrete
    OperationRiskLevel-discrete
pending_lem = refl

read_lem :
    row_to_operation toy pending_row
    ≡ ok (record decided { state = OperationState.pending_approval; updated_at = 11 })
unfolding is_blank select_operation select_by_key insert_operation update_rows affected
    exists_approval has_approval_id insert_approval tail_event clashes insert_event
    insert_by_sequence select_events transition_event_kind next_link event_hash event_row
    append_event_tx read_events events verify_from ensure_runtime lift_transition apply_update
    require_exact_approval fetch_operation_tx get transition_tx transition_body transition
    expire_and_refuse claim_current claim_fetched claim_body claim_execution decide_current
    decide_fetched decide_body decide_approval progress_fetched_body progress_body append_progress
    verify_event_chain require_texts validate_new_operation matches planned_row prepare replay
    insert_new insert_prepared insert_planned issue ensure_local_approval_authority grant_claimed
    plan_target plan decide_exact approve_exact reject_exact claim progress finish parse_bool
    u32_from read_labels parse_canonical_json read_json row_to_operation row_to_approval
    row_to_event lower_hex from_value from_stored into_value canonical_json canonical_hash
    ensure_transition restart_recovery actor_kind_str parse_actor_kind approval_decision_str
    parse_approval_decision operation_kind_str parse_operation_kind risk_level_str parse_risk_level
    state_str parse_state event_kind_str parse_event_kind value_beq OperationKind-discrete
    OperationActorKind-discrete OperationState-discrete OperationEventKind-discrete
    OperationRiskLevel-discrete
read_lem = refl

decide_approval-Decided_example :
    Decided toy 40 22
      (command_by OperationActorKind.local_user)
      (run toy planned)
      (decide_approval toy 40 22 (command_by OperationActorKind.local_user) (run toy planned)).0
      decided
decide_approval-Decided_example =
    decide_approval-Decided toy 40 22 (command_by OperationActorKind.local_user) (run toy planned)
      decided_lem

abbrev late_command : OperationApprovalCommand
late_command = record (command_by OperationActorKind.local_user) { now = 100 }

-- A restart by the runtime 30, which expires the pending operation.
restarted_lem :
    (recover_previous_runtimes toy (λ _. 50) (λ _. 60) 30 (run toy planned)).1
    ≡ ok (record empty_report { expired = 7 ∷ [] })
unfolding is_blank select_operation select_by_key insert_operation update_rows affected
    exists_approval has_approval_id insert_approval tail_event clashes insert_event
    insert_by_sequence select_events transition_event_kind next_link event_hash event_row
    append_event_tx read_events events verify_from ensure_runtime lift_transition apply_update
    require_exact_approval fetch_operation_tx get transition_tx transition_body transition
    expire_and_refuse claim_current claim_fetched claim_body claim_execution decide_current
    decide_fetched decide_body decide_approval progress_fetched_body progress_body append_progress
    verify_event_chain require_texts validate_new_operation matches planned_row prepare replay
    insert_new insert_prepared insert_planned issue ensure_local_approval_authority grant_claimed
    plan_target plan decide_exact approve_exact reject_exact claim progress finish parse_bool
    u32_from read_labels parse_canonical_json read_json row_to_operation row_to_approval
    row_to_event lower_hex from_value from_stored into_value canonical_json canonical_hash
    ensure_transition restart_recovery actor_kind_str parse_actor_kind approval_decision_str
    parse_approval_decision operation_kind_str parse_operation_kind risk_level_str parse_risk_level
    state_str parse_state event_kind_str parse_event_kind value_beq OperationKind-discrete
    OperationActorKind-discrete OperationState-discrete OperationEventKind-discrete
    OperationRiskLevel-discrete insert_row select_stale recover_operation recover_rows recover_body
    recover_previous_runtimes
restarted_lem = refl

restart-Settled_example :
    (row' : OperationRow) × (select_operation 7
        (run toy (Call.restarts 30 (λ _. 50) (λ _. 60) ∷ planned)).operations
      ≡ some row')
    × Settled row'
restart-Settled_example =
    restart-Settled toy planned (λ _. 50) (λ _. 60) 30 (record empty_report { expired = 7 ∷ [] }) 7
      pending_row restarted_lem pending_lem refl

run-Kept_example : KeptIn 7 pending_row (run toy approved)
run-Kept_example = run-Kept toy (approval ∷ []) planned 7 pending_row pending_lem

run-Grown_example :
    Grown (run toy planned).events (run toy approved).events
    × Grown (run toy planned).approvals (run toy approved).approvals
run-Grown_example = run-Grown toy (approval ∷ []) planned

run-AllByPersons_example : AllByPersons (run toy approved).approvals
run-AllByPersons_example = run-AllByPersons toy approved

row_to_operation-Reads_example :
    Reads pending_row (record decided { state = OperationState.pending_approval; updated_at = 11 })
row_to_operation-Reads_example = row_to_operation-Reads toy pending_row read_lem

ensure_transition-Edge_example :
    (ensure_transition OperationState.approved OperationState.executing ≡ TransitionResult.ok)
    ↔ Edge OperationState.approved OperationState.executing
ensure_transition-Edge_example =
    ensure_transition-Edge OperationState.approved OperationState.executing

approve_allowed :
    ensure_transition OperationState.pending_approval OperationState.approved ≡ TransitionResult.ok
unfolding ensure_transition OperationState-discrete
approve_allowed = refl

run_allowed :
    ensure_transition OperationState.approved OperationState.executing ≡ TransitionResult.ok
unfolding ensure_transition OperationState-discrete
run_allowed = refl

succeed_allowed :
    ensure_transition OperationState.executing OperationState.succeeded ≡ TransitionResult.ok
unfolding ensure_transition OperationState-discrete
succeed_allowed = refl

abbrev approved_run : Walk OperationState.pending_approval OperationState.succeeded
approved_run =
    Walk.move approve_allowed (Walk.move run_allowed (Walk.move succeed_allowed Walk.start))

moves_bounded_example : moves approved_run ≤ 4
moves_bounded_example = moves_bounded approved_run

executed_was_approved_example : passes_through OperationState.approved approved_run ≡ true
executed_was_approved_example = executed_was_approved approved_run refl

restart_recovery-Recovers_example :
    Recovers OperationKind.write_sql OperationState.executing
      (restart_recovery OperationKind.write_sql OperationState.executing)
restart_recovery-Recovers_example =
    restart_recovery-Recovers OperationKind.write_sql OperationState.executing

abbrev entries : String → String → Value
entries first second =
    Value.object (Fields.field first Value.null (Fields.field second Value.null Fields.end))

abbrev key_a : String
key_a = "a"

abbrev key_b : String
key_b = "b"

a_ne_b : key_a ≢ key_b
a_ne_b e = ground (arith, (text_eq.beq_iff key_a key_b).1 e)

reordered : Reordered (entries "a" "b") (entries "b" "a")
reordered = Reordered.in_object (ReorderedFields.swap a_ne_b)

from_value-Reordered_example : from_value toy (entries "a" "b") ≡ from_value toy (entries "b" "a")
from_value-Reordered_example = from_value-Reordered toy reordered

canonical_value-Sorted_example :
    IsCanonical (canonical_value (entries "b" "a"))
    × Reordered (entries "b" "a") (canonical_value (entries "b" "a"))
canonical_value-Sorted_example = canonical_value-Sorted (entries "b" "a")

reads_back : ReadsBack toy (Value.object Fields.end)
unfolding canonical_value
reads_back = refl

from_stored-from_value_example :
    (from_stored toy
        (from_value toy (Value.object Fields.end)).json
        (from_value toy (Value.object Fields.end)).sha256
      ≡ ok (from_value toy (Value.object Fields.end)))
    × (into_value toy (from_value toy (Value.object Fields.end))
        ≡ ok (canonical_value (Value.object Fields.end)))
from_stored-from_value_example = from_stored-from_value toy (Value.object Fields.end) reads_back

stored_lem :
    from_stored toy stored_text hash_text ≡ ok (record { json = stored_text; sha256 = hash_text })
unfolding is_blank select_operation select_by_key insert_operation update_rows affected
    exists_approval has_approval_id insert_approval tail_event clashes insert_event
    insert_by_sequence select_events transition_event_kind next_link event_hash event_row
    append_event_tx read_events events verify_from ensure_runtime lift_transition apply_update
    require_exact_approval fetch_operation_tx get transition_tx transition_body transition
    expire_and_refuse claim_current claim_fetched claim_body claim_execution decide_current
    decide_fetched decide_body decide_approval progress_fetched_body progress_body append_progress
    verify_event_chain require_texts validate_new_operation matches planned_row prepare replay
    insert_new insert_prepared insert_planned issue ensure_local_approval_authority grant_claimed
    plan_target plan decide_exact approve_exact reject_exact claim progress finish parse_bool
    u32_from read_labels parse_canonical_json read_json row_to_operation row_to_approval
    row_to_event lower_hex from_value from_stored into_value canonical_json canonical_hash
    ensure_transition restart_recovery actor_kind_str parse_actor_kind approval_decision_str
    parse_approval_decision operation_kind_str parse_operation_kind risk_level_str parse_risk_level
    state_str parse_state event_kind_str parse_event_kind value_beq OperationKind-discrete
    OperationActorKind-discrete OperationState-discrete OperationEventKind-discrete
    OperationRiskLevel-discrete
stored_lem = refl

from_stored_sound_example :
    (v : Value) × (toy.from_str stored_text ≡ some v)
    × (record { json = stored_text; sha256 = hash_text } ≡ from_value toy v)
    × (stored_text ≡ stored_text)
    × (hash_text ≡ hash_text)
from_stored_sound_example = from_stored_sound toy stored_text hash_text stored_lem

parse_operation_kind-operation_kind_str_example :
    parse_operation_kind (operation_kind_str OperationKind.ddl) ≡ some OperationKind.ddl
parse_operation_kind-operation_kind_str_example =
    parse_operation_kind-operation_kind_str OperationKind.ddl

run-verify_event_chain_example :
    (verify_event_chain toy 7 (run toy planned) ≡ ok true)
    ↔ AllReread toy (ledger 7 (run toy planned).events)
run-verify_event_chain_example =
    run-verify_event_chain toy planned 7 pending_row
      (record decided { state = OperationState.pending_approval; updated_at = 11 }) pending_lem
      read_lem

abbrev pending_record : OperationRecord
pending_record = record decided { state = OperationState.pending_approval; updated_at = 11 }

abbrev prepared : PreparedOperation
prepared = record {
  runtime_id = 9;
  operation = write;
  payload = record { json = stored_text; sha256 = hash_text };
  actor_provenance_json = stored_text;
  preview_json = stored_text;
  policy_snapshot_json = stored_text;
}

prepared_lem : prepare toy 9 write ≡ ok prepared
unfolding is_blank select_operation select_by_key insert_operation update_rows affected
    exists_approval has_approval_id insert_approval tail_event clashes insert_event
    insert_by_sequence select_events transition_event_kind next_link event_hash event_row
    append_event_tx read_events events verify_from ensure_runtime lift_transition apply_update
    require_exact_approval fetch_operation_tx get transition_tx transition_body transition
    expire_and_refuse claim_current claim_fetched claim_body claim_execution decide_current
    decide_fetched decide_body decide_approval progress_fetched_body progress_body append_progress
    verify_event_chain require_texts validate_new_operation matches planned_row prepare replay
    insert_new insert_prepared insert_planned issue ensure_local_approval_authority grant_claimed
    plan_target plan decide_exact approve_exact reject_exact claim progress finish parse_bool
    u32_from read_labels parse_canonical_json read_json row_to_operation row_to_approval
    row_to_event lower_hex from_value from_stored into_value canonical_json canonical_hash
    ensure_transition restart_recovery actor_kind_str parse_actor_kind approval_decision_str
    parse_approval_decision operation_kind_str parse_operation_kind risk_level_str parse_risk_level
    state_str parse_state event_kind_str parse_event_kind value_beq OperationKind-discrete
    OperationActorKind-discrete OperationState-discrete OperationEventKind-discrete
    OperationRiskLevel-discrete
prepared_lem = refl

taken_lem :
    select_by_key 1
      (actor_kind_str OperationActorKind.agent)
      "agent-1"
      "key-1"
      (run toy planned).operations
    ≡ some pending_row
unfolding is_blank select_operation select_by_key insert_operation update_rows affected
    exists_approval has_approval_id insert_approval tail_event clashes insert_event
    insert_by_sequence select_events transition_event_kind next_link event_hash event_row
    append_event_tx read_events events verify_from ensure_runtime lift_transition apply_update
    require_exact_approval fetch_operation_tx get transition_tx transition_body transition
    expire_and_refuse claim_current claim_fetched claim_body claim_execution decide_current
    decide_fetched decide_body decide_approval progress_fetched_body progress_body append_progress
    verify_event_chain require_texts validate_new_operation matches planned_row prepare replay
    insert_new insert_prepared insert_planned issue ensure_local_approval_authority grant_claimed
    plan_target plan decide_exact approve_exact reject_exact claim progress finish parse_bool
    u32_from read_labels parse_canonical_json read_json row_to_operation row_to_approval
    row_to_event lower_hex from_value from_stored into_value canonical_json canonical_hash
    ensure_transition restart_recovery actor_kind_str parse_actor_kind approval_decision_str
    parse_approval_decision operation_kind_str parse_operation_kind risk_level_str parse_risk_level
    state_str parse_state event_kind_str parse_event_kind value_beq OperationKind-discrete
    OperationActorKind-discrete OperationState-discrete OperationEventKind-discrete
    OperationRiskLevel-discrete
taken_lem = refl

insert_planned-SamePlan_example :
    (SamePlan prepared pending_record
      × (insert_planned toy 50 9 write 60 (run toy planned) ≡ (run toy planned, ok pending_record)))
    ⊎ (¬ SamePlan prepared pending_record
        × (insert_planned toy 50 9 write 60 (run toy planned) ≡ (
          run toy planned,
          err (blocked "the idempotency key is already bound to a different immutable operation"),
        )))
insert_planned-SamePlan_example =
    insert_planned-SamePlan toy 50 9 write 60 (run toy planned) prepared pending_row pending_record
      prepared_lem taken_lem read_lem
