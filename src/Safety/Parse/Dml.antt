-- ===== src/Safety/Parse/Dml.antt =====
-- Where `query_has_dml` finds an insertion or an update.
use agent_db.Base.{◌≡◌, ◌↔◌, ◌⊎◌, inl, inr, refl, Bool, true, false, ◌||◌, Bool-cases, arith}
use agent_db.Safety.Ast.{Query, With, Queries, SetExpr}
use agent_db.Safety.Parse.{query_has_dml, with_has_dml, any_has_dml, setexpr_has_dml}

abbrev mutual
  -- The set expressions that a query runs: its body, those of its common table expressions, and what
  -- these hold as operands or as parenthesized queries.
  pub InQuery : Query → SetExpr → Type 0
  InQuery (Query.select_from clause body _) s = InWith clause s ⊎ InSet body s

  InWith : With → SetExpr → Type 0
  InWith With.no_with s = ⊥
  InWith (With.cte_tables qs) s = InQueries qs s

  InQueries : Queries → SetExpr → Type 0
  InQueries Queries.no_queries s = ⊥
  InQueries (Queries.and_query q qs) s = InQuery q s ⊎ InQueries qs s

  InSet : SetExpr → SetExpr → Type 0
  InSet (SetExpr.parenthesized q) s = (SetExpr.parenthesized q ≡ s) ⊎ InQuery q s
  InSet (SetExpr.set_operation left right) s =
      (SetExpr.set_operation left right ≡ s) ⊎ (InSet left s ⊎ InSet right s)
  InSet (SetExpr.insert_body stmt) s = SetExpr.insert_body stmt ≡ s
  InSet (SetExpr.update_body stmt) s = SetExpr.update_body stmt ≡ s
  InSet (SetExpr.select i t) s = SetExpr.select i t ≡ s
  InSet SetExpr.other_body s = SetExpr.other_body ≡ s

abbrev pub is_dml : SetExpr → Bool
is_dml (SetExpr.insert_body _) = true
is_dml (SetExpr.update_body _) = true
is_dml _ = false

or_true : (a b : Bool) → (a || b) ≡ true → (a ≡ true) ⊎ (b ≡ true)
or_true true b h = inl refl
or_true false b h = inr h

or_left : (a b : Bool) → a ≡ true → (a || b) ≡ true
or_left a b h = ground arith

or_right : (a b : Bool) → b ≡ true → (a || b) ≡ true
or_right a b h = ground arith

mutual
  unfolding query_has_dml

  has_dml_of_query :
      (q : Query) (s : SetExpr) → InQuery q s → is_dml s ≡ true → query_has_dml q ≡ true
  has_dml_of_query (Query.select_from clause body _) s (inl i) d =
      or_left _ (setexpr_has_dml body) (has_dml_of_with clause s i d)
  has_dml_of_query (Query.select_from clause body _) s (inr i) d =
      or_right (with_has_dml clause) _ (has_dml_of_set body s i d)

  has_dml_of_with : (w : With) (s : SetExpr) → InWith w s → is_dml s ≡ true → with_has_dml w ≡ true
  has_dml_of_with With.no_with s i d = absurd i
  has_dml_of_with (With.cte_tables qs) s i d = has_dml_of_any qs s i d

  has_dml_of_any :
      (qs : Queries) (s : SetExpr) → InQueries qs s → is_dml s ≡ true → any_has_dml qs ≡ true
  has_dml_of_any Queries.no_queries s i d = absurd i
  has_dml_of_any (Queries.and_query q qs) s (inl i) d =
      or_left _ (any_has_dml qs) (has_dml_of_query q s i d)
  has_dml_of_any (Queries.and_query q qs) s (inr i) d =
      or_right (query_has_dml q) _ (has_dml_of_any qs s i d)

  has_dml_of_set : (e s : SetExpr) → InSet e s → is_dml s ≡ true → setexpr_has_dml e ≡ true
  has_dml_of_set (SetExpr.parenthesized q) s (inl i) d = cc (i, d)
  has_dml_of_set (SetExpr.parenthesized q) s (inr i) d = has_dml_of_query q s i d
  has_dml_of_set (SetExpr.set_operation left right) s (inl i) d = cc (i, d)
  has_dml_of_set (SetExpr.set_operation left right) s (inr (inl i)) d =
      or_left _ (setexpr_has_dml right) (has_dml_of_set left s i d)
  has_dml_of_set (SetExpr.set_operation left right) s (inr (inr i)) d =
      or_right (setexpr_has_dml left) _ (has_dml_of_set right s i d)
  has_dml_of_set (SetExpr.insert_body stmt) s i d = refl
  has_dml_of_set (SetExpr.update_body stmt) s i d = refl
  has_dml_of_set (SetExpr.select into from) s i d = cc (i, d)
  has_dml_of_set SetExpr.other_body s i d = cc (i, d)

mutual
  unfolding query_has_dml

  some_dml_of_query :
      (q : Query) → query_has_dml q ≡ true → (s : SetExpr) × InQuery q s × (is_dml s ≡ true)
  some_dml_of_query (Query.select_from clause body _) h =
      elim (or_true (with_has_dml clause) (setexpr_has_dml body) h) [
        | inl w ↦ let (s, i, d) = some_dml_of_with clause w in (s, inl i, d)
        | inr b ↦ let (s, i, d) = some_dml_of_set body b in (s, inr i, d)
      ]

  some_dml_of_with :
      (w : With) → with_has_dml w ≡ true → (s : SetExpr) × InWith w s × (is_dml s ≡ true)
  some_dml_of_with With.no_with h = cc
  some_dml_of_with (With.cte_tables qs) h = some_dml_of_any qs h

  some_dml_of_any :
      (qs : Queries) → any_has_dml qs ≡ true → (s : SetExpr) × InQueries qs s × (is_dml s ≡ true)
  some_dml_of_any Queries.no_queries h = cc
  some_dml_of_any (Queries.and_query q qs) h = elim (or_true (query_has_dml q) (any_has_dml qs) h) [
    | inl w ↦ let (s, i, d) = some_dml_of_query q w in (s, inl i, d)
    | inr b ↦ let (s, i, d) = some_dml_of_any qs b in (s, inr i, d)
  ]

  some_dml_of_set :
      (e : SetExpr) → setexpr_has_dml e ≡ true → (s : SetExpr) × InSet e s × (is_dml s ≡ true)
  some_dml_of_set (SetExpr.parenthesized q) h =
      let (s, i, d) = some_dml_of_query q h in (s, inr i, d)
  some_dml_of_set (SetExpr.set_operation left right) h =
      elim (or_true (setexpr_has_dml left) (setexpr_has_dml right) h) [
        | inl w ↦ let (s, i, d) = some_dml_of_set left w in (s, inr (inl i), d)
        | inr b ↦ let (s, i, d) = some_dml_of_set right b in (s, inr (inr i), d)
      ]
  some_dml_of_set (SetExpr.insert_body stmt) h = (SetExpr.insert_body stmt, refl, refl)
  some_dml_of_set (SetExpr.update_body stmt) h = (SetExpr.update_body stmt, refl, refl)
  some_dml_of_set (SetExpr.select into from) h = cc
  some_dml_of_set SetExpr.other_body h = cc

-- No set expression that a query runs writes.
abbrev pub Quiet : Query → Type 0
Quiet q = (s : SetExpr) → InQuery q s → is_dml s ≡ false

pub no_dml_iff : (q : Query) → (query_has_dml q ≡ false) ↔ Quiet q
no_dml_iff q = (
  λ h s i. elim (Bool-cases (is_dml s)) [
    | inl d ↦ absurd (ground (arith, has_dml_of_query q s i d))
    | inr d ↦ d
  ],
  λ quiet. elim (Bool-cases (query_has_dml q)) [
    | inl h ↦ let (s, i, d) = some_dml_of_query q h in absurd (ground (arith, quiet s i))
    | inr h ↦ h
  ],
)
