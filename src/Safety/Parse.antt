-- ===== src/Safety/Parse.antt =====
-- src-tauri/src/safety/l1_parse.rs: classifying a text of SQL. sqlparser is a parameter.
pub mod Dml
pub mod Reads
use Prim.Native.String.{◌++◌}
use mathlib.Core.List.{◌++◌ as append}
use agent_db.Base.{
  ℕ, zero, suc, ◌%◌, ◌^◌, Bool, true, false, not, ◌&&◌, ◌||◌, List, [], ◌∷◌, String, ◌==◌, text_eq,
  nat_eq, ltb, length, decimal, if◌then◌else◌,
}
use agent_db.Error.{Result, ok}
use agent_db.Engine.{Engine}
use agent_db.Safety.Gate.{QueryKind, RiskLevel, Classification}
use agent_db.Safety.Ast.{
  Statement, Source, Query, With, Queries, SetExpr, Tables, TableWithJoins, Joins, TableFactor,
}

-- What `Parser::parse_sql` answers: the statements, or the text of its error.
pub data Parse : Type 0 where
  parsed : List Statement → Parse
  parse_error : String → Parse

pub record Sqlparser : Type 0 where
  pub parse_sql : Engine → String → Parse

-- `dialect_for` answers for these.
abbrev pub has_dialect : Engine → Bool
has_dialect Engine.mongodb = false
has_dialect _ = true

abbrev pub fail_safe : String → Classification
fail_safe note = record {
  kind = QueryKind.write;
  risk = RiskLevel.high;
  statement_count = 1;
  no_where = false;
  tables = [];
  notes = note ∷ [];
  rollback_safe = false;
}

unfoldable mutual
  pub query_has_dml : Query → Bool
  query_has_dml (Query.select_from clause body locks) = with_has_dml clause || setexpr_has_dml body

  pub with_has_dml : With → Bool
  with_has_dml With.no_with = false
  with_has_dml (With.cte_tables qs) = any_has_dml qs

  pub any_has_dml : Queries → Bool
  any_has_dml Queries.no_queries = false
  any_has_dml (Queries.and_query q qs) = query_has_dml q || any_has_dml qs

  pub setexpr_has_dml : SetExpr → Bool
  setexpr_has_dml (SetExpr.insert_body _) = true
  setexpr_has_dml (SetExpr.update_body _) = true
  setexpr_has_dml (SetExpr.parenthesized q) = query_has_dml q
  setexpr_has_dml (SetExpr.set_operation left right) = setexpr_has_dml left || setexpr_has_dml right
  setexpr_has_dml (SetExpr.select _ _) = false
  setexpr_has_dml SetExpr.other_body = false

abbrev pub query_selects_into : Query → Bool
query_selects_into (Query.select_from _ (SetExpr.select has_into _) _) = has_into
query_selects_into _ = false

abbrev pub takes_locks : Query → Bool
takes_locks (Query.select_from _ _ locks) = ltb 0 locks

abbrev short_kind : Statement → String
short_kind (Statement.query _) = "Query"
short_kind (Statement.insert _) = "Insert"
short_kind (Statement.update _ _) = "Update"
short_kind (Statement.delete _ _) = "Delete"
short_kind _ = "Other"

-- What `classify_stmt` answers and leaves in its two borrowed variables.
pub record Seen : Type 0 where
  pub kind : QueryKind
  pub notes : List String
  pub no_where : Bool

abbrev pub classify_query : Query → List String → Bool → Seen
classify_query q notes no_where =
    if query_has_dml q
    then record {
      kind = QueryKind.write;
      notes = append notes ("write DML inside a CTE — reclassified as a write" ∷ []);
      no_where = no_where;
    }
    else if query_selects_into q
    then record {
      kind = QueryKind.write;
      notes = append notes ("SELECT ... INTO creates a table — reclassified as a write" ∷ []);
      no_where = no_where;
    }
    else if takes_locks q
    then record {
      kind = QueryKind.write;
      notes =
          append notes
            ("SELECT ... FOR UPDATE/SHARE takes row locks — reclassified as a write" ∷ []);
      no_where = no_where;
    }
    else record { kind = QueryKind.read; notes = notes; no_where = no_where }

unfoldable pub classify_stmt : Statement → List String → Bool → Seen
unfolding query_has_dml
classify_stmt (Statement.query q) notes no_where = classify_query q notes no_where
classify_stmt (Statement.explain true statement) notes no_where =
    classify_stmt statement
      (append notes
        ("EXPLAIN ANALYZE executes the statement — classified by its inner statement" ∷ []))
      no_where
classify_stmt (Statement.explain false _) notes no_where = record {
  kind = QueryKind.read;
  notes = notes;
  no_where = no_where;
}
classify_stmt (Statement.insert _) notes no_where = record {
  kind = QueryKind.write;
  notes = notes;
  no_where = no_where;
}
classify_stmt (Statement.update _ has_selection) notes no_where = record {
  kind = QueryKind.write;
  notes = notes;
  no_where = not has_selection;
}
classify_stmt (Statement.delete _ has_selection) notes no_where = record {
  kind = QueryKind.write;
  notes = notes;
  no_where = not has_selection;
}
classify_stmt Statement.create_table notes no_where = record {
  kind = QueryKind.ddl;
  notes = notes;
  no_where = no_where;
}
classify_stmt Statement.create_index notes no_where = record {
  kind = QueryKind.ddl;
  notes = notes;
  no_where = no_where;
}
classify_stmt Statement.create_view notes no_where = record {
  kind = QueryKind.ddl;
  notes = notes;
  no_where = no_where;
}
classify_stmt Statement.create_schema notes no_where = record {
  kind = QueryKind.ddl;
  notes = notes;
  no_where = no_where;
}
classify_stmt Statement.create_database notes no_where = record {
  kind = QueryKind.ddl;
  notes = notes;
  no_where = no_where;
}
classify_stmt Statement.alter_table notes no_where = record {
  kind = QueryKind.ddl;
  notes = notes;
  no_where = no_where;
}
classify_stmt Statement.drop notes no_where = record {
  kind = QueryKind.ddl;
  notes = notes;
  no_where = no_where;
}
classify_stmt Statement.truncate notes no_where = record {
  kind = QueryKind.ddl;
  notes = notes;
  no_where = no_where;
}
classify_stmt Statement.grant notes no_where = record {
  kind = QueryKind.privilege;
  notes = notes;
  no_where = no_where;
}
classify_stmt Statement.revoke notes no_where = record {
  kind = QueryKind.privilege;
  notes = notes;
  no_where = no_where;
}
classify_stmt Statement.other_statement notes no_where = record {
  kind = QueryKind.write;
  notes = append notes (
      ("unrecognized statement shape — treated as a write (fail-safe): "
        ++ short_kind Statement.other_statement)
      ∷ []);
  no_where = no_where;
}

-- The tables that a statement names, appended to those found before.
unfoldable mutual
  pub collect_tables : Statement → List String → List String
  collect_tables (Statement.query q) out = walk_query q out
  collect_tables (Statement.update table _) out = walk_twj table out
  collect_tables (Statement.delete from _) out = walk_tables from out
  collect_tables (Statement.insert source) out = walk_source source out
  collect_tables (Statement.explain _ _) out = out
  collect_tables Statement.create_table out = out
  collect_tables Statement.create_index out = out
  collect_tables Statement.create_view out = out
  collect_tables Statement.create_schema out = out
  collect_tables Statement.create_database out = out
  collect_tables Statement.alter_table out = out
  collect_tables Statement.drop out = out
  collect_tables Statement.truncate out = out
  collect_tables Statement.grant out = out
  collect_tables Statement.revoke out = out
  collect_tables Statement.other_statement out = out

  pub walk_source : Source → List String → List String
  walk_source Source.no_source out = out
  walk_source (Source.from_query q) out = walk_query q out

  pub walk_query : Query → List String → List String
  walk_query (Query.select_from clause body _) out = walk_setexpr body (walk_with clause out)

  pub walk_with : With → List String → List String
  walk_with With.no_with out = out
  walk_with (With.cte_tables qs) out = walk_queries qs out

  pub walk_queries : Queries → List String → List String
  walk_queries Queries.no_queries out = out
  walk_queries (Queries.and_query q qs) out = walk_queries qs (walk_query q out)

  pub walk_setexpr : SetExpr → List String → List String
  walk_setexpr (SetExpr.select _ from) out = walk_tables from out
  walk_setexpr (SetExpr.parenthesized q) out = walk_query q out
  walk_setexpr (SetExpr.set_operation left right) out = walk_setexpr right (walk_setexpr left out)
  walk_setexpr (SetExpr.insert_body stmt) out = collect_tables stmt out
  walk_setexpr (SetExpr.update_body stmt) out = collect_tables stmt out
  walk_setexpr SetExpr.other_body out = out

  pub walk_tables : Tables → List String → List String
  walk_tables Tables.no_tables out = out
  walk_tables (Tables.and_table twj tables) out = walk_tables tables (walk_twj twj out)

  pub walk_twj : TableWithJoins → List String → List String
  walk_twj (TableWithJoins.joined relation joins) out = walk_joins joins (walk_tf relation out)

  pub walk_joins : Joins → List String → List String
  walk_joins Joins.no_joins out = out
  walk_joins (Joins.and_join relation joins) out = walk_joins joins (walk_tf relation out)

  pub walk_tf : TableFactor → List String → List String
  walk_tf (TableFactor.named name) out = append out (name ∷ [])
  walk_tf (TableFactor.derived q) out = walk_query q out
  walk_tf TableFactor.other_factor out = out

abbrev pub collect_all : List Statement → List String → List String
collect_all [] out = out
collect_all (s ∷ statements) out = collect_all statements (collect_tables s out)

abbrev pub member : String → List String → Bool
member t [] = false
member t (x ∷ xs) = x == t || member t xs

-- `retain` with the names seen so far.
unfoldable pub dedup_from : List String → List String → List String
dedup_from seen [] = []
dedup_from seen (t ∷ v) =
    let again = dedup_from seen v in
    let first = dedup_from (t ∷ seen) v in if member t seen then again else t ∷ first

unfoldable pub dedup : List String → List String
unfolding dedup_from
dedup v = dedup_from [] v

abbrev pub risk_of : QueryKind → Bool → RiskLevel
risk_of QueryKind.read no_where = RiskLevel.low
risk_of QueryKind.write true = RiskLevel.high
risk_of QueryKind.write false = RiskLevel.medium
risk_of QueryKind.ddl no_where = RiskLevel.high
risk_of QueryKind.privilege no_where = RiskLevel.high

abbrev pub is_direct_dml : Statement → Bool
is_direct_dml (Statement.insert _) = true
is_direct_dml (Statement.update _ _) = true
is_direct_dml (Statement.delete _ _) = true
is_direct_dml _ = false

-- The classification of a single statement.
unfoldable pub classify_one : Statement → Classification
unfolding classify_stmt collect_tables dedup
classify_one stmt =
    let seen = classify_stmt stmt [] false in
    record {
      kind = seen.kind;
      risk = risk_of seen.kind seen.no_where;
      statement_count = 1;
      no_where = seen.no_where;
      tables = dedup (collect_tables stmt []);
      notes =
          if seen.no_where
          then append seen.notes ("UPDATE/DELETE without a WHERE clause — affects every row" ∷ [])
          else seen.notes;
      rollback_safe = is_direct_dml stmt;
    }

-- The classification of several statements.
unfoldable pub classify_many : List Statement → Classification
unfolding collect_tables dedup
classify_many statements = record {
  kind = QueryKind.write;
  risk = RiskLevel.high;
  statement_count = length statements % 2 ^ 32;
  no_where = false;
  tables = dedup (collect_all statements []);
  notes =
      (decimal (length statements) ++ " statements found — only single statements are allowed")
      ∷ [];
  rollback_safe = false;
}

unfoldable pub classify_parsed : Parse → Classification
unfolding classify_one classify_many
classify_parsed (Parse.parse_error e) =
    fail_safe ("parse error — treated as a write (fail-safe): " ++ e)
classify_parsed (Parse.parsed []) =
    fail_safe "no parseable statement — treated as a write (fail-safe)"
classify_parsed (Parse.parsed (stmt ∷ [])) = classify_one stmt
classify_parsed (Parse.parsed (s ∷ t ∷ statements)) = classify_many (s ∷ t ∷ statements)

unfoldable pub classify : Sqlparser → String → Engine → Result Classification
unfolding classify_parsed
classify sqlparser sql engine =
    if not (has_dialect engine)
    then ok (fail_safe "MongoDB document operations must use the typed document-query API")
    else ok (classify_parsed (sqlparser.parse_sql engine sql))
