-- ===== src/Recovery/Resume.antt =====
-- forza_bootstrap/coordinator.py: `resume`.
pub mod Safety
use forza_motorsport_linux.Base.{
  Text, Bool, true, false, ◌&&◌, ◌||◌, not, List, [], ◌∷◌, ◌++◌, Result, ok, err, Error, message,
  about, raise_if, ◌==◌, contains, if◌then◌else◌,
}
use forza_motorsport_linux.Base.Actions.{Action, pure, fail, lift, ◌>>=◌, ◌>>◌, try_then}
use forza_motorsport_linux.State.{
  BootstrapPhase, BootstrapState, new, preparing, awaiting_steam_prefix, planned_finish,
  installing_finish, ready_to_attempt, accepted, rolling_back, rolled_back, recovery_required,
  phase_eq, phase_value, same_state,
}
use forza_motorsport_linux.Recovery.{
  World, RecoveryOperations, durable_recovery_state, load_transaction, require_recovery,
}
use forza_motorsport_linux.Recovery.Plans.{validate_awaiting_plan_handoff}

-- The phases that the call of an owner may lead to.
unfoldable pub allowed_results : BootstrapPhase → List BootstrapPhase
allowed_results new = awaiting_steam_prefix ∷ []
allowed_results preparing = awaiting_steam_prefix ∷ []
allowed_results phase = ready_to_attempt ∷ []

module _ {H : Type 0} (root : Text) where
  -- latest = load_transaction(…); _recovery_required(context, latest, error)
  unfoldable pub require_latest : Text → Error → Action (World H) BootstrapState
  require_latest transaction_id error =
      load_transaction root transaction_id >>= λ latest. require_recovery root latest error

  -- What follows the `try`.
  unfoldable pub accept_result : BootstrapState → BootstrapState → Action (World H) BootstrapState
  accept_result state result =
      if not (contains (allowed_results state.phase) result.phase)
      then require_latest state.transaction_id (message "recovery owner returned an invalid state")
      else load_transaction root state.transaction_id >>= λ durable.
          if not (same_state durable result)
          then require_latest state.transaction_id
              (message "recovery owner did not persist its result")
          else pure result

  unfoldable pub resume_awaiting : BootstrapState → Action (World H) BootstrapState
  resume_awaiting state =
      try_then
        (λ w.
          (validate_awaiting_plan_handoff state.manifest_sha256 w.plan_file w.prepare_plan_file, w))
        (require_recovery root state) (λ _. pure state)

module _ {H : Type 0} (operations : RecoveryOperations H) where
  -- The call of an owner.
  unfoldable pub resume_owner : BootstrapState → BootstrapPhase → Action (World H) BootstrapState
  resume_owner state new = operations.resume_prepare state
  resume_owner state preparing = operations.resume_prepare state
  resume_owner state planned_finish = operations.resume_finish state
  resume_owner state installing_finish = operations.resume_finish state
  resume_owner state phase =
      fail (about "bootstrap transaction requires rollback recovery from " (phase_value phase))

  unfoldable pub resume : Text → BootstrapState → Action (World H) BootstrapState
  resume root context_state = do
    state ← durable_recovery_state root context_state
    if contains (ready_to_attempt ∷ accepted ∷ rolled_back ∷ []) state.phase
        then pure state
        else if state.phase == awaiting_steam_prefix
        then resume_awaiting root state
        else try_then (resume_owner state state.phase) (require_latest root state.transaction_id)
            (accept_result root state)
