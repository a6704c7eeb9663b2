-- ===== src/Safety/Parse/Reads.antt =====
-- What a statement is that the classification calls a read.
use agent_db.Base.{
  ◌≡◌, ◌≢◌, refl, true, false, List, [], ◌∷◌, String, ltb, length, ◌<◌, ◌%◌, ◌^◌, suc, arith,
}
use agent_db.Error.{ok}
use agent_db.Engine.{Engine}
use agent_db.Safety.Gate.{
  QueryKind, RiskLevel, Classification, SafetySettings, GateDecision, decide,
}
use agent_db.Safety.Ast.{Statement, Query, SetExpr, Tables}
use agent_db.Safety.Parse.Dml.{Quiet}
use agent_db.Safety.Parse.{Parse, Sqlparser, has_dialect, classify_many, classify_parsed, classify}

-- The query's own body, outside any parentheses and set operations, is no selection into a table.
abbrev pub KeepsRows : SetExpr → Type 0
KeepsRows body = (from : Tables) → body ≢ SetExpr.select true from

-- A query without insertion and update where `Quiet` looks, whose own body is no selection into a
-- table and has no locking clause; the plan of any statement; or the run of such a query for its plan.
-- The operands of a set operation, parenthesized queries, common table expressions and derived tables
-- may select into a table or lock rows.
abbrev pub Reads : Statement → Type 0
Reads (Statement.query (Query.select_from clause body locks)) =
    Quiet (Query.select_from clause body locks) × KeepsRows body × (locks ≡ 0)
Reads (Statement.explain true statement) = Reads statement
Reads (Statement.explain false _) = Unit {0}
Reads _ = ⊥

-- The one statement of a text that is called a read.
pub record OneRead (sqlparser : Sqlparser) (sql : String) (engine : Engine) : Type 0 where
  pub statement : Statement
  pub dialect : has_dialect engine ≡ true
  pub parsed_as : sqlparser.parse_sql engine sql ≡ Parse.parsed (statement ∷ [])
  pub reads : Reads statement

many_count :
    (s t : Statement) (statements : List Statement)
    → length (s ∷ t ∷ statements) < 2 ^ 32
    → ltb 1 ((classify_many (s ∷ t ∷ statements)).statement_count) ≡ true
unfolding classify_many
many_count s t statements h =
    let n = length statements in
    let small : suc (suc n) % 2 ^ 32 ≡ suc (suc n) = omega (arith, h) in rw small (ground arith)

-- A text of several statements, fewer than 2^32, is never run: its classification is a write of high
-- risk, and the gate blocks it under every setting.
pub classify-several :
    (sqlparser : Sqlparser) (sql : String) (engine : Engine) (settings : SafetySettings)
    (statements : List Statement)
    → has_dialect engine ≡ true
    → sqlparser.parse_sql engine sql ≡ Parse.parsed statements
    → 1 < length statements
    → length statements < 2 ^ 32
    → (c : Classification) × (classify sqlparser sql engine ≡ ok c)
      × (c.kind ≡ QueryKind.write)
      × (c.risk ≡ RiskLevel.high)
      × (decide settings c
          ≡ GateDecision.block
              "multiple statements are not allowed — submit one statement at a time")
unfolding classify classify_parsed decide
classify-several sqlparser sql engine settings [] d p h k = absurd (omega (arith, h))
classify-several sqlparser sql engine settings (s ∷ []) d p h k = absurd (omega (arith, h))
classify-several sqlparser sql engine settings (s ∷ t ∷ statements) d p h k =
    let several : ltb 1 ((classify_many (s ∷ t ∷ statements)).statement_count) ≡ true =
      many_count s t statements k in
    rw (d, p) (classify_many (s ∷ t ∷ statements), refl, refl, refl, rw several refl)
