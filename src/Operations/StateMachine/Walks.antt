-- ===== src/Operations/StateMachine/Walks.antt =====
-- The moves that `ensure_transition` of src-tauri/src/operations/state_machine.rs allows, one after the
-- other.
use agent_db.Base.{◌≡◌, refl, sym, ap, ◌∙◌, ℕ, suc, ◌≤◌, Bool, true, ◌==◌, ◌||◌, arith}
use agent_db.Operations.Model.{OperationState, state_eq}
use agent_db.Operations.StateMachine.{TransitionResult, ensure_transition}
use agent_db.Operations.StateMachine.Graph.{
  Path*, here, step, edges, visits, has_run, ensure_transition-Edge, Path*-bounded,
  path_was_approved,
}

-- States one after the other, each move allowed by `ensure_transition`.
pub data Walk : OperationState → OperationState → Type 0 where
  start : {s : OperationState} → Walk s s
  move :
      {s t u : OperationState} → ensure_transition s t ≡ TransitionResult.ok → Walk t u → Walk s u

abbrev pub moves : {s t : OperationState} → Walk s t → ℕ
moves start = 0
moves (move e w) = suc (moves w)

abbrev pub passes_through : {s t : OperationState} → OperationState → Walk s t → Bool
passes_through {s} v start = s == v
passes_through {s} v (move e w) = s == v || passes_through v w

path_of : {s t : OperationState} → Walk s t → Path* s t
path_of start = here
path_of (move {s} {t} e w) = step ((ensure_transition-Edge s t).0 e) (path_of w)

edges-path_of : {s t : OperationState} (w : Walk s t) → edges (path_of w) ≡ moves w
unfolding path_of
edges-path_of start = refl
edges-path_of (move e w) = ap suc (edges-path_of w)

visits-path_of :
    {s t : OperationState} (v : OperationState) (w : Walk s t)
    → visits v (path_of w) ≡ passes_through v w
unfolding path_of
visits-path_of v start = refl
visits-path_of {s} v (move e w) = ap (λ (b : Bool). s == v || b) (visits-path_of v w)

-- However the states of an operation follow one another, each move allowed by `ensure_transition`,
-- there are at most four moves.
pub moves_bounded : {s t : OperationState} (w : Walk s t) → moves w ≤ 4
moves_bounded w = omega (arith, edges-path_of w, Path*-bounded (path_of w))

-- Moves that `ensure_transition` allows lead from `pending_approval` to `executing`, `succeeded`,
-- `failed` or `outcome_unknown` only by way of `approved`.
pub executed_was_approved :
    {t : OperationState} (w : Walk OperationState.pending_approval t)
    → has_run t ≡ true
    → passes_through OperationState.approved w ≡ true
executed_was_approved w h =
    sym (visits-path_of OperationState.approved w) ∙ path_was_approved (path_of w) h
