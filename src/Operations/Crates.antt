-- ===== src/Operations/Crates.antt =====
-- What the Operation Runtime calls of other crates: serde_json, sha2, uuid and chrono, and the
-- serde implementation derived for `OperationActorProvenance`.
use agent_db.Base.{ℕ, Option, String, List, text_eq, option_eq}
use agent_db.Json.{Value}

-- Provenance attached to an actor (operations/model.rs).
pub record OperationActorProvenance : Type 0 where
  pub local_account_id : Option String
  pub workspace_account_id : Option String
  pub agent_provider : Option String
  pub agent_model : Option String
  pub plugin_id : Option String
  pub plugin_version : Option String
  pub client_protocol_version : Option ℕ
  pub origin_surface : String

pub record Crates : Type 0 where
  -- `serde_json::to_string` and `serde_json::from_str`. The first does not fail on a `Value`.
  pub to_string : Value → String
  pub from_str : String → Option Value
  -- The bytes of `Sha256::digest` over the bytes of a text.
  pub digest : String → List ℕ
  -- `Uuid::to_string`, and `DateTime::to_rfc3339_opts` with nanoseconds.
  pub uuid_text : ℕ → String
  pub rfc3339_nanos : ℕ → String
  -- `serde_json::to_value` and `serde_json::from_value` at the provenance.
  pub provenance_to_value : OperationActorProvenance → Value
  pub provenance_from_value : Value → Option OperationActorProvenance
