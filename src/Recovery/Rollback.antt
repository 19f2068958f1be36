-- ===== src/Recovery/Rollback.antt =====
-- forza_bootstrap/coordinator.py: `rollback` and `_rollback_under_lease`.
pub mod Steps
pub mod Kept
pub mod Progress
pub mod Begin
pub mod Outcome
pub mod Safety
pub mod Works
pub mod Completion
use forza_motorsport_linux.Base.{
  String, ◌<>◌, Text, codes, Bool, true, false, not, ◌||◌, nat_eq, list_eq, string_eq, Option, none,
  some, List, [], ◌∷◌, ◌++◌, Result, ok, err, Error, message, about, raise, raise_if, ◌==◌,
  contains, if◌then◌else◌,
}
use forza_motorsport_linux.Base.Actions.{Action, pure, fail, lift, ◌>>=◌, ◌>>◌, try_then}
use forza_motorsport_linux.State.{
  BootstrapPhase, BootstrapState, accepted, rolling_back, rolled_back, recovery_required, phase_eq,
}
use forza_motorsport_linux.State.Transition.{boundary_updates}
use forza_motorsport_linux.Recovery.{
  World, RecoveryOperations, RecoveryStatus, pending, undone, not_applicable, was_accepted, other,
  status_eq, RollbackStep, steps_of, transition, durable_recovery_state, rollback_checkpoint,
  require_recovery,
}

-- status in {"rolled_back", "not_applicable"}
abbrev pub is_settled : RecoveryStatus → Bool
is_settled undone = true
is_settled not_applicable = true
is_settled status = false

-- The dict `preflight` and the list `preflight_errors` of the first loop.
pub record Preflight : Type 0 where
  pub statuses : List (String × RecoveryStatus)
  pub errors : List Error

abbrev pub nothing_found : Preflight
nothing_found = record { statuses = []; errors = [] }

-- preflight.get(name) == "accepted"
unfoldable pub is_accepted : String → List (String × RecoveryStatus) → Bool
is_accepted name [] = false
is_accepted name ((found, status) ∷ statuses) =
    if found == name then status == was_accepted else is_accepted name statuses

module _ {H : Type 0} where
  abbrev pub inspected : RollbackStep H → BootstrapState → Action (World H) RecoveryStatus
  inspected step state w = (step.inspect state w.host, w)

  -- The body of the first loop.
  unfoldable pub preflight_step :
      RollbackStep H → BootstrapState → Preflight → Action (World H) Preflight
  preflight_step step state found =
      try_then
        (do
          status ← inspected step state
          lift (raise_if (status == other) (step.boundary <> " inspection is ambiguous"))
          pure status)
        (λ error. pure (record found { errors = found.errors ++ (error ∷ []) }))
        (λ status.
          pure (record found { statuses = found.statuses ++ ((step.boundary, status) ∷ []) }))

  unfoldable pub preflight :
      List (RollbackStep H) → BootstrapState → Preflight → Action (World H) Preflight
  preflight [] state found = pure found
  preflight (step ∷ steps) state found = preflight_step step state found >>= preflight steps state

  unfoldable pub undo :
      RollbackStep H → BootstrapState → RecoveryStatus → Action (World H) (Unit {0})
  undo step state pending = do
    step.act state
    status ← inspected step state
    lift (raise_if (not (is_settled status)) (step.boundary <> " did not reach an exact state"))
  undo step state undone = pure tt
  undo step state not_applicable = pure tt
  undo step state status = fail (message (step.boundary <> " inspection is ambiguous"))

  unfoldable pub settle : RollbackStep H → BootstrapState → Action (World H) (Unit {0})
  unfolding undo
  settle step state = do status ← inspected step state; undo step state status

  -- The body of the second loop. What the callback `boundary` raises is handled with the state
  -- that the checkpoint has left.
  unfoldable pub roll_back_step :
      RecoveryOperations H
      → Text
      → RollbackStep H
      → BootstrapState
      → Action (World H) BootstrapState
  roll_back_step operations root step state =
      try_then (settle step state >> rollback_checkpoint state step.boundary)
        (require_recovery root state)
        (λ next.
          try_then (operations.boundary (codes step.boundary)) (require_recovery root next)
            (λ _. pure next))

  unfoldable pub roll_back_steps :
      RecoveryOperations H
      → Text
      → List (RollbackStep H)
      → BootstrapState
      → Action (World H) BootstrapState
  roll_back_steps operations root [] state = pure state
  roll_back_steps operations root (step ∷ steps) state =
      roll_back_step operations root step state >>= roll_back_steps operations root steps

  -- From `if preflight_errors` to the second loop.
  unfoldable pub begin_rollback :
      Text → List Error → BootstrapState → Action (World H) BootstrapState
  begin_rollback root (error ∷ errors) state = require_recovery root state error
  begin_rollback root [] state =
      if state.phase == recovery_required
      then transition state recovery_required rolling_back []
      else if not (state.phase == rolling_back)
      then transition state state.phase rolling_back []
      else pure state

  unfoldable pub confirmed_rollback :
      RecoveryOperations H → Text → BootstrapState → Action (World H) BootstrapState
  confirmed_rollback operations root state = do
    found ← preflight (steps_of operations) state nothing_found
    lift (
        raise_if (is_accepted "rollback-runtime" found.statuses)
          "accepted runtime child refuses ordinary rollback")
    begun ← begin_rollback root found.errors state
    done ← roll_back_steps operations root (steps_of operations) begun
    transition done rolling_back rolled_back (boundary_updates done (codes "rolled-back"))

  unfoldable pub rollback_under_lease :
      RecoveryOperations H → Text → BootstrapState → Text → Action (World H) BootstrapState
  rollback_under_lease operations root context_state confirm = do
    state ← durable_recovery_state root context_state
    if state.phase == accepted
        then fail (message "accepted transaction refuses ordinary rollback")
        else if state.phase == rolled_back
        then pure state
        else if not (confirm == codes "ROLLBACK")
        then pure state
        else confirmed_rollback operations root state

  unfoldable pub under_lease :
      Option (Action (World H) (Unit {0}))
      → Action (World H) BootstrapState
      → Action (World H) BootstrapState
  under_lease none rest = rest
  under_lease (some acquire) rest = acquire >> rest

  -- `lease` acquires the launcher's lease and validates it; without a host there is none.
  unfoldable pub rollback :
      RecoveryOperations H
      → Text
      → Option (Action (World H) (Unit {0}))
      → BootstrapState
      → Text
      → Action (World H) BootstrapState
  unfolding under_lease
  rollback operations root lease context_state confirm = do
    state ← durable_recovery_state root context_state
    if state.phase == accepted
        then fail (message "accepted transaction refuses ordinary rollback")
        else if state.phase == rolled_back || not (confirm == codes "ROLLBACK")
        then pure state
        else under_lease lease (rollback_under_lease operations root context_state confirm)
