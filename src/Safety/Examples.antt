-- ===== src/Safety/Examples.antt =====
-- Concrete runs of the classification and the gate.
use agent_db.Base.{◌≡◌, refl, true, false, [], ◌∷◌, arith, ℤ}
use agent_db.Error.{ok}
use agent_db.Engine.{Engine}
use agent_db.Safety.Gate.{
  QueryKind, RiskLevel, Classification, SafetySettings, GateDecision, decide,
}
use agent_db.Safety.Ast.{
  Statement, Query, With, SetExpr, Tables, TableWithJoins, Joins, TableFactor,
}
use agent_db.Safety.Parse.{Parse, Sqlparser, classify, classify_stmt, query_has_dml}
use agent_db.Safety.Parse.Reads.{classify-several}

abbrev users : Tables
users =
    Tables.and_table (TableWithJoins.joined (TableFactor.named "users") Joins.no_joins)
      Tables.no_tables

-- SELECT * FROM users, with or without INTO.
abbrev select_users : SetExpr
select_users = SetExpr.select false users

abbrev read_users : Statement
read_users = Statement.query (Query.select_from With.no_with select_users 0)

abbrev one_read : Sqlparser
one_read = record { parse_sql = λ _ _. Parse.parsed (read_users ∷ []) }

abbrev two_reads : Sqlparser
two_reads = record { parse_sql = λ _ _. Parse.parsed (read_users ∷ read_users ∷ []) }

abbrev settings : SafetySettings
settings = record {
  require_approval = true;
  allow_writes = false;
  wrap_writes_in_tx = true;
  explain_preview = true;
  auto_run_reads = true;
  max_rows = 1000;
  exec_preview_row_limit = ℤ.pos 50000;
}

abbrev a_read : Classification
a_read = record {
  kind = QueryKind.read;
  risk = RiskLevel.low;
  statement_count = 1;
  no_where = false;
  tables = "users" ∷ [];
  notes = [];
  rollback_safe = false;
}

classify-several_example :
    (c : Classification) × (classify two_reads "SELECT * FROM users; SELECT * FROM users"
        Engine.sqlite
      ≡ ok c)
    × (c.kind ≡ QueryKind.write)
    × (c.risk ≡ RiskLevel.high)
    × (decide settings c
        ≡ GateDecision.block "multiple statements are not allowed — submit one statement at a time")
classify-several_example =
    classify-several two_reads "SELECT * FROM users; SELECT * FROM users" Engine.sqlite settings
      (read_users ∷ read_users ∷ []) refl refl (omega arith) (omega arith)

-- A selection into a table is no read, but it is not seen where it is the operand of a set operation.
into_seen :
    (classify_stmt
      (Statement.query (Query.select_from With.no_with (SetExpr.select true users) 0))
      []
      false).kind
    ≡ QueryKind.write
unfolding classify_stmt query_has_dml
into_seen = refl

into_missed :
    (classify_stmt
      (Statement.query (
        Query.select_from With.no_with
          (SetExpr.set_operation (SetExpr.select true users) select_users)
          0))
      []
      false).kind
    ≡ QueryKind.read
unfolding classify_stmt query_has_dml
into_missed = refl
