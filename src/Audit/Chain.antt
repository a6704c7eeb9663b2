-- ===== src/Audit/Chain.antt =====
-- src-tauri/src/audit/chain.rs: the length-prefixed form of an audit row and its chained hash.
pub mod Injective
use Prim.Native.Char.{Char, char}
use Prim.Native.String.{◌++◌}
use agent_db.Base.{ℕ, ℤ, Option, some, none, List, [], ◌∷◌, String, len, decimal, int_text}
use agent_db.Engine.{Engine, engine_str, kind_str}
use agent_db.Safety.Gate.{QueryKind}
use agent_db.Operations.Model.{Uuid, DateTime}

-- What the log calls of other crates: sha2's digest of a text, `hex::encode`, `Uuid::to_string` and
-- `DateTime::to_rfc3339`.
pub record Digests : Type 0 where
  pub digest : String → List ℕ
  pub encode : List ℕ → String
  pub uuid_text : Uuid → String
  pub rfc3339 : DateTime → String

pub record AuditFields : Type 0 where
  pub connection_id : Uuid
  pub ts : DateTime
  pub engine : Engine
  pub agent_prompt : Option String
  pub sql : String
  pub kind : QueryKind
  pub action : String
  pub approved_by : Option String
  pub affected_estimate : Option ℤ
  pub error : Option String

-- `unwrap_or("")`.
abbrev pub or_empty : Option String → String
or_empty none = ""
or_empty (some s) = s

abbrev pub estimate_text : Option ℤ → String
estimate_text none = ""
estimate_text (some n) = int_text n

-- `field(s)`, in front of what the later calls push.
unfoldable pub prefixed : String → String → String
prefixed s rest = decimal (len s) ++ (String.◌∷◌ ":" (s ++ rest))

unfoldable pub push_fields : List String → String
unfolding prefixed
push_fields [] = ""
push_fields (s ∷ texts) = prefixed s (push_fields texts)

-- U+001E, between the previous hash and the row.
abbrev pub separator : Char
separator = char 0x1e tt

module _ (digests : Digests) where
  open digests use {digest, encode, uuid_text, rfc3339}

  -- The texts that `canonical` pushes, in its order.
  abbrev pub texts : AuditFields → List String
  texts f =
      uuid_text f.connection_id
      ∷ rfc3339 f.ts
      ∷ engine_str f.engine
      ∷ or_empty f.agent_prompt
      ∷ f.sql
      ∷ kind_str f.kind
      ∷ f.action
      ∷ or_empty f.approved_by
      ∷ estimate_text f.affected_estimate
      ∷ or_empty f.error
      ∷ []

  unfoldable pub canonical : AuditFields → String
  unfolding push_fields
  canonical f = push_fields (texts f)

  -- What is digested for a row.
  abbrev pub hash_text : Option String → AuditFields → String
  hash_text prev_hash fields = or_empty prev_hash ++ (String.◌∷◌ separator (canonical fields))

  unfoldable pub compute_hash : Option String → AuditFields → String
  compute_hash prev_hash fields = encode (digest (hash_text prev_hash fields))
