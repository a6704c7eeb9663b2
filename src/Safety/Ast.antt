-- ===== src/Safety/Ast.antt =====
-- sqlparser's syntax trees, as far as src-tauri/src/safety/l1_parse.rs looks into them: a constructor
-- for each shape that it matches, and one named `other` for the rest.
use agent_db.Base.{ℕ, Bool, String}

mutual
  pub data Statement : Type 0 where
    query : Query → Statement
    explain : (analyze : Bool) → Statement → Statement
    insert : (source : Source) → Statement
    update : (table : TableWithJoins) (has_selection : Bool) → Statement
    delete : (from : Tables) (has_selection : Bool) → Statement
    create_table create_index create_view create_schema create_database : Statement
    alter_table drop truncate grant revoke other_statement : Statement

  -- The source of an `INSERT`, if it has one.
  pub data Source : Type 0 where
    no_source : Source
    from_query : Query → Source

  -- A query: its `WITH` clause, its body and the number of its locking clauses.
  pub data Query : Type 0 where
    select_from : With → (body : SetExpr) → (locks : ℕ) → Query

  pub data With : Type 0 where
    no_with : With
    cte_tables : Queries → With

  pub data Queries : Type 0 where
    no_queries : Queries
    and_query : Query → Queries → Queries

  pub data SetExpr : Type 0 where
    select : (has_into : Bool) (from : Tables) → SetExpr
    parenthesized : Query → SetExpr
    set_operation : (left right : SetExpr) → SetExpr
    insert_body update_body : Statement → SetExpr
    other_body : SetExpr

  pub data Tables : Type 0 where
    no_tables : Tables
    and_table : TableWithJoins → Tables → Tables

  pub data TableWithJoins : Type 0 where
    joined : (relation : TableFactor) (joins : Joins) → TableWithJoins

  pub data Joins : Type 0 where
    no_joins : Joins
    and_join : (relation : TableFactor) → Joins → Joins

  -- A table by its printed name, a derived table, or another factor.
  pub data TableFactor : Type 0 where
    named : String → TableFactor
    derived : Query → TableFactor
    other_factor : TableFactor
