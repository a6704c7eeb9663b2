-- ===== src/Operations/Planning/SamePlan.antt =====
-- When a stored operation is the one that a plan describes (`PreparedOperation::matches` of
-- src-tauri/src/operations/repository.rs).
use agent_db.Base.{
  ◌≡◌, ◌↔◌, refl, ap, ◌==◌, Bool, true, false, ◌&&◌, Eq, nat_eq, text_eq, option_eq,
}
use agent_db.Json.Equality.{value_beq}
use agent_db.Operations.Crates.{OperationActorProvenance}
use agent_db.Operations.Model.{kind_eq, actor_kind_eq, risk_eq}
use agent_db.Operations.Rows.{OperationActor, OperationRecord}
use agent_db.Operations.Planning.{
  PreparedOperation, same_provenance, same_actor, same_bool, matches,
}

infixl 35 ◌and◌
◌and◌ : {P Q : Type 0} {a b : Bool} → (a ≡ true) ↔ P → (b ≡ true) ↔ Q → ((a && b) ≡ true) ↔ (P × Q)
◌and◌ {a = true} p q = (λ h. (p.0 refl, q.0 h), λ (x, y). q.1 y)
◌and◌ {a = false} p q = (λ h. cc, λ (x, y). p.1 x)

infixl 35 ◌also◌
◌also◌ : {P Q : Type 0} → P → Q → P × Q
p also q = (p, q)

same_bool_iff : (a b : Bool) → (same_bool a b ≡ true) ↔ (a ≡ b)
same_bool_iff true true = (λ _. refl, λ _. refl)
same_bool_iff true false = (λ h. cc, λ h. cc)
same_bool_iff false true = (λ h. cc, λ h. cc)
same_bool_iff false false = (λ _. refl, λ _. refl)

test : {A : Type 0} ⦃e : Eq A⦄ (a b : A) → ((a == b) ≡ true) ↔ (a ≡ b)
test ⦃e⦄ a b = e.beq_iff a b

same_provenance_iff : (a b : OperationActorProvenance) → (same_provenance a b ≡ true) ↔ (a ≡ b)
same_provenance_iff a b =
    let parts =
      test a.local_account_id b.local_account_id
      and test a.workspace_account_id b.workspace_account_id
      and test a.agent_provider b.agent_provider
      and test a.agent_model b.agent_model
      and test a.plugin_id b.plugin_id
      and test a.plugin_version b.plugin_version
      and test a.client_protocol_version b.client_protocol_version
      and test a.origin_surface b.origin_surface in
    (
      λ h.
          let (((((((h1, h2), h3), h4), h5), h6), h7), h8) = parts.0 h in
          cc (h1, h2, h3, h4, h5, h6, h7, h8),
      λ e. parts.1 (
          ap (λ (p : OperationActorProvenance). p.local_account_id) e
          also ap (λ (p : OperationActorProvenance). p.workspace_account_id) e
          also ap (λ (p : OperationActorProvenance). p.agent_provider) e
          also ap (λ (p : OperationActorProvenance). p.agent_model) e
          also ap (λ (p : OperationActorProvenance). p.plugin_id) e
          also ap (λ (p : OperationActorProvenance). p.plugin_version) e
          also ap (λ (p : OperationActorProvenance). p.client_protocol_version) e
          also ap (λ (p : OperationActorProvenance). p.origin_surface) e),
    )

same_actor_iff : (a b : OperationActor) → (same_actor a b ≡ true) ↔ (a ≡ b)
same_actor_iff a b =
    let parts =
      test a.kind b.kind and test a.id b.id and same_provenance_iff a.provenance b.provenance in
    (
      λ h. let ((h1, h2), h3) = parts.0 h in cc (h1, h2, h3),
      λ e. parts.1 (
        (ap (λ (x : OperationActor). x.kind) e, ap (λ (x : OperationActor). x.id) e),
        ap (λ (x : OperationActor). x.provenance) e,
      ),
    )

-- The fields in which a stored operation agrees with a plan. The preview and the policy snapshot agree
-- as JSON values.
pub record SamePlan (p : PreparedOperation) (existing : OperationRecord) : Type 0 where
  pub same_runtime_id : existing.runtime_id ≡ p.runtime_id
  pub same_workspace_id : existing.workspace_id ≡ p.operation.workspace_id
  pub same_account_scope : existing.account_scope ≡ p.operation.account_scope
  pub same_connection_id : existing.connection_id ≡ p.operation.connection_id
  pub same_connection_revision : existing.connection_revision ≡ p.operation.connection_revision
  pub same_terminal_session_id : existing.terminal_session_id ≡ p.operation.terminal_session_id
  pub same_whole_actor : existing.actor ≡ p.operation.actor
  pub same_kind : existing.kind ≡ p.operation.kind
  pub same_payload_schema_version :
      existing.payload_schema_version ≡ p.operation.payload_schema_version
  pub same_payload_hash : existing.payload_hash ≡ p.payload.sha256
  pub same_schema_fingerprint : existing.schema_fingerprint ≡ p.operation.schema_fingerprint
  pub same_risk_level : existing.risk_level ≡ p.operation.risk_level
  pub same_preview : value_beq existing.preview p.operation.preview ≡ true
  pub same_policy_snapshot : value_beq existing.policy_snapshot p.operation.policy_snapshot ≡ true
  pub same_policy_revision : existing.policy_revision ≡ p.operation.policy_revision
  pub same_single_use : existing.single_use ≡ p.operation.single_use
  pub same_idempotency_key : existing.idempotency_key ≡ p.operation.idempotency_key
  pub same_expires_at : existing.expires_at ≡ p.operation.expires_at

pub matches_iff :
    (p : PreparedOperation) (existing : OperationRecord)
    → (matches p existing ≡ true) ↔ SamePlan p existing
unfolding matches
matches_iff p existing =
    let parts =
      test existing.runtime_id p.runtime_id
      and test existing.workspace_id p.operation.workspace_id
      and test existing.account_scope p.operation.account_scope
      and test existing.connection_id p.operation.connection_id
      and test existing.connection_revision p.operation.connection_revision
      and test existing.terminal_session_id p.operation.terminal_session_id
      and same_actor_iff existing.actor p.operation.actor
      and test existing.kind p.operation.kind
      and test existing.payload_schema_version p.operation.payload_schema_version
      and test existing.payload_hash p.payload.sha256
      and test existing.schema_fingerprint p.operation.schema_fingerprint
      and test existing.risk_level p.operation.risk_level
      and (λ h. h, λ h. h)
      and (λ h. h, λ h. h)
      and test existing.policy_revision p.operation.policy_revision
      and same_bool_iff existing.single_use p.operation.single_use
      and test existing.idempotency_key p.operation.idempotency_key
      and test existing.expires_at p.operation.expires_at in
    (
      λ h.
          let (
            (
              (
                (
                  (
                    ((((((((((((h0, h1), h2), h3), h4), h5), h6), h7), h8), h9), h10), h11), h12),
                    h13,
                  ),
                  h14,
                ),
                h15,
              ),
              h16,
            ),
            h17,
          ) =
            parts.0 h in
          record {
            same_runtime_id = h0;
            same_workspace_id = h1;
            same_account_scope = h2;
            same_connection_id = h3;
            same_connection_revision = h4;
            same_terminal_session_id = h5;
            same_whole_actor = h6;
            same_kind = h7;
            same_payload_schema_version = h8;
            same_payload_hash = h9;
            same_schema_fingerprint = h10;
            same_risk_level = h11;
            same_preview = h12;
            same_policy_snapshot = h13;
            same_policy_revision = h14;
            same_single_use = h15;
            same_idempotency_key = h16;
            same_expires_at = h17;
          },
      λ s. parts.1 (
          s.same_runtime_id also s.same_workspace_id also s.same_account_scope
          also s.same_connection_id also s.same_connection_revision also s.same_terminal_session_id
          also s.same_whole_actor also s.same_kind also s.same_payload_schema_version
          also s.same_payload_hash also s.same_schema_fingerprint also s.same_risk_level
          also s.same_preview also s.same_policy_snapshot also s.same_policy_revision
          also s.same_single_use also s.same_idempotency_key also s.same_expires_at),
    )
