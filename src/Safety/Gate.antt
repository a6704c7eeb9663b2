-- ===== src/Safety/Gate.antt =====
-- src-tauri/src/safety/l4_gate.rs: how a classified statement may proceed, by the policy of its
-- connection (SafetySettings, Classification and QueryKind of src-tauri/src/model.rs).
use Prim.Native.String.{◌++◌}
use agent_db.Base.{
  ℤ, ℕ, ◌≤◌, ◌≡◌, ◌↔◌, ◌⊎◌, Bool, true, false, not, List, String, ltb, if◌then◌else◌, arith,
}

pub data QueryKind : Type 0 where
  read write ddl privilege : QueryKind

pub data RiskLevel : Type 0 where
  low medium high : RiskLevel

pub record Classification : Type 0 where
  pub kind : QueryKind
  pub risk : RiskLevel
  pub statement_count : ℕ
  pub no_where : Bool
  pub tables : List String
  pub notes : List String
  pub rollback_safe : Bool

pub record SafetySettings : Type 0 where
  pub require_approval : Bool
  pub allow_writes : Bool
  pub wrap_writes_in_tx : Bool
  pub explain_preview : Bool
  pub auto_run_reads : Bool
  pub max_rows : ℕ
  pub exec_preview_row_limit : ℤ

pub data GateDecision : Type 0 where
  auto_run require_approval : GateDecision
  block : String → GateDecision

abbrev pub kind_label : QueryKind → String
kind_label QueryKind.read = "reading"
kind_label QueryKind.write = "writing"
kind_label QueryKind.ddl = "schema change (DDL)"
kind_label QueryKind.privilege = "privilege change"

-- The answer of the `match` for a single statement.
unfoldable pub decide_kind : SafetySettings → QueryKind → GateDecision
decide_kind settings QueryKind.read =
    if settings.auto_run_reads then GateDecision.auto_run else GateDecision.require_approval
decide_kind settings QueryKind.privilege =
    GateDecision.block
      "arbitrary privilege SQL is blocked; use a supported, narrowly scoped administrative action"
decide_kind settings kind =
    if not settings.allow_writes
    then GateDecision.block (
        kind_label kind
        ++ " is disabled for this connection (writes are off by default). Enable writes in the connection's safety settings to propose it.")
    else GateDecision.require_approval

unfoldable pub decide : SafetySettings → Classification → GateDecision
unfolding decide_kind
decide settings c =
    let decision = decide_kind settings c.kind in
    if ltb 1 c.statement_count
    then GateDecision.block "multiple statements are not allowed — submit one statement at a time"
    else decision

-- A kind of statement that changes its target.
abbrev pub is_mutation : QueryKind → Bool
is_mutation QueryKind.write = true
is_mutation QueryKind.ddl = true
is_mutation _ = false

-- A statement runs without a prompt exactly when it is at most one read on a connection that runs
-- reads automatically.
pub decide-auto_run :
    (settings : SafetySettings) (c : Classification)
    → (decide settings c ≡ GateDecision.auto_run)
      ↔ ((c.statement_count ≤ 1) × (c.kind ≡ QueryKind.read) × (settings.auto_run_reads ≡ true))
unfolding decide
decide-auto_run settings c = (λ h. ground arith, λ h. ground arith)

-- A statement is put to a person exactly when it is at most one statement, and either a read on a
-- connection that does not run reads automatically, or a write or schema change on a connection that
-- allows writes; the stored `require_approval` plays no part.
pub decide-require_approval :
    (settings : SafetySettings) (c : Classification)
    → (decide settings c ≡ GateDecision.require_approval) ↔ (
        (c.statement_count ≤ 1)
        × (((c.kind ≡ QueryKind.read) × (settings.auto_run_reads ≡ false))
            ⊎ ((is_mutation c.kind ≡ true) × (settings.allow_writes ≡ true))))
unfolding decide
decide-require_approval settings c = (λ h. ground arith, λ h. ground arith)
