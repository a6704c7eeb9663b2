-- ===== src/Operations/StateMachine/Graph.antt =====
-- The lifecycle graph behind `ensure_transition`, its paths, and what they must pass through.
use agent_db.Base.{◌≡◌, refl, ◌↔◌, ◌≢◌, ℕ, suc, ◌+◌, ◌≤◌, true, false, arith, Bool, ◌==◌, ◌||◌}
use agent_db.Operations.Model.{
  OperationState, OperationKind, is_terminal, is_resumable_job, may_mutate_target,
  OperationState-discrete, state_eq,
}
use agent_db.Operations.StateMachine.{
  TransitionResult, RestartRecovery, allowed, ensure_transition, restart_recovery,
}

-- The edges, by the part of the lifecycle that they belong to.
pub data Edge : OperationState → OperationState → Type 0 where
  request : Edge OperationState.planned OperationState.pending_approval
  admit : Edge OperationState.planned OperationState.ready
  approve : Edge OperationState.pending_approval OperationState.approved
  reject : Edge OperationState.pending_approval OperationState.rejected
  run_ready : Edge OperationState.ready OperationState.executing
  run_approved : Edge OperationState.approved OperationState.executing
  succeed : Edge OperationState.executing OperationState.succeeded
  fail : Edge OperationState.executing OperationState.failed
  lose_outcome : Edge OperationState.executing OperationState.outcome_unknown
  cancel : {s : OperationState} → is_terminal s ≡ false → Edge s OperationState.cancelled
  expire :
      {s : OperationState}
      → is_terminal s ≡ false
      → s ≢ OperationState.executing
      → Edge s OperationState.expired

pub data Path* : OperationState → OperationState → Type 0 where
  here : {s : OperationState} → Path* s s
  step : {s t u : OperationState} → Edge s t → Path* t u → Path* s u

pub allowed-Edge : (s t : OperationState) → allowed s t ≡ true → Edge s t
allowed-Edge OperationState.planned OperationState.planned h = cc
allowed-Edge s t h = grind (
  arith, request, admit, approve, reject, run_ready, run_approved, succeed, fail, lose_outcome,
  cancel, expire,
)

Edge-allowed : {s t : OperationState} → Edge s t → allowed s t ≡ true
Edge-allowed request = refl
Edge-allowed admit = refl
Edge-allowed approve = refl
Edge-allowed reject = refl
Edge-allowed run_ready = refl
Edge-allowed run_approved = refl
Edge-allowed succeed = refl
Edge-allowed fail = refl
Edge-allowed lose_outcome = refl
Edge-allowed (cancel {s} live) = ground arith
Edge-allowed (expire {s} live idle) = ground arith

-- `ensure_transition` allows exactly the edges of the graph.
pub ensure_transition-Edge :
    (s t : OperationState) → (ensure_transition s t ≡ TransitionResult.ok) ↔ Edge s t
unfolding ensure_transition
ensure_transition-Edge s t = (λ h. allowed-Edge s t (ground arith), λ e. rw (Edge-allowed e))

-- How far along its lifecycle a state is.
stage : OperationState → ℕ
stage OperationState.planned = 0
stage OperationState.pending_approval = 1
stage OperationState.ready = 2
stage OperationState.approved = 2
stage OperationState.executing = 3
stage _ = 4

stage-Edge : {s t : OperationState} → Edge s t → suc (stage s) ≤ stage t
unfolding stage
stage-Edge request = omega arith
stage-Edge admit = omega arith
stage-Edge approve = omega arith
stage-Edge reject = omega arith
stage-Edge run_ready = omega arith
stage-Edge run_approved = omega arith
stage-Edge succeed = omega arith
stage-Edge fail = omega arith
stage-Edge lose_outcome = omega arith
stage-Edge (cancel {s} live) = ground arith
stage-Edge (expire {s} live idle) = ground arith

abbrev pub edges : {s t : OperationState} → Path* s t → ℕ
edges here = 0
edges (step e p) = suc (edges p)

stage-Path* : {s t : OperationState} (p : Path* s t) → stage s + edges p ≤ stage t
stage-Path* here = omega arith
stage-Path* (step e p) = omega (arith, stage-Edge e, stage-Path* p)

stage_bounded : (s : OperationState) → stage s ≤ 4
unfolding stage
stage_bounded s = ground arith

pub Path*-bounded : {s t : OperationState} (p : Path* s t) → edges p ≤ 4
Path*-bounded {t = t} p = omega (arith, stage-Path* p, stage_bounded t)

abbrev pub visits : {s t : OperationState} → OperationState → Path* s t → Bool
visits {s} v here = s == v
visits {s} v (step e p) = s == v || visits v p

visits_start : {s t : OperationState} (p : Path* s t) → visits s p ≡ true
visits_start {s} here = (state_eq.beq_iff s s).1 refl
visits_start {s} (step e p) = ground (arith, (state_eq.beq_iff s s).1 refl)

-- States that only an execution reaches.
abbrev pub has_run : OperationState → Bool
has_run OperationState.executing = true
has_run OperationState.succeeded = true
has_run OperationState.failed = true
has_run OperationState.outcome_unknown = true
has_run _ = false

stuck : {s t : OperationState} → Path* s t → is_terminal s ≡ true → s ≡ t
stuck here h = refl
stuck (step e p) h = absurd (ground (arith, Edge-allowed e))

pub path_was_approved :
    {t : OperationState} (p : Path* OperationState.pending_approval t)
    → has_run t ≡ true
    → visits OperationState.approved p ≡ true
unfolding OperationState-discrete
path_was_approved here h = cc
path_was_approved (step approve p) h = visits_start p
path_was_approved (step reject p) h = absurd (ground (arith, stuck p refl))
path_was_approved (step (cancel _) p) h = absurd (ground (arith, stuck p refl))
path_was_approved (step (expire _ _) p) h = absurd (ground (arith, stuck p refl))

-- What a restart may do with an operation, state by state.
pub data Recovers (kind : OperationKind) : OperationState → RestartRecovery → Type 0 where
  keep : {s : OperationState} → is_terminal s ≡ true → Recovers kind s RestartRecovery.keep_terminal
  expires :
      {s : OperationState} → Edge s OperationState.expired → Recovers kind s RestartRecovery.expire
  resumes :
      is_resumable_job kind ≡ true
      → Recovers kind OperationState.executing RestartRecovery.validate_job_checkpoint
  loses_outcome :
      may_mutate_target kind ≡ true
      → is_resumable_job kind ≡ false
      → Recovers kind OperationState.executing RestartRecovery.outcome_unknown
  fails :
      may_mutate_target kind ≡ false
      → is_resumable_job kind ≡ false
      → Recovers kind OperationState.executing RestartRecovery.mark_failed

-- `restart_recovery` keeps exactly the terminal states, expires what has not started, and gives an
-- interrupted run the verdict that its kind allows.
pub restart_recovery-Recovers :
    (kind : OperationKind) (s : OperationState) → Recovers kind s (restart_recovery kind s)
unfolding restart_recovery OperationState-discrete
restart_recovery-Recovers kind OperationState.planned = expires (expire refl (λ e. cc))
restart_recovery-Recovers kind OperationState.pending_approval = expires (expire refl (λ e. cc))
restart_recovery-Recovers kind OperationState.ready = expires (expire refl (λ e. cc))
restart_recovery-Recovers kind OperationState.approved = expires (expire refl (λ e. cc))
restart_recovery-Recovers kind OperationState.executing =
    grind (arith, resumes, loses_outcome, fails)
restart_recovery-Recovers kind _ = keep refl
