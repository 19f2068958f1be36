-- ===== src/Recovery.antt =====
-- forza_bootstrap/coordinator.py: `resume` and `rollback`, with what they call. The callables of
-- `RecoveryOperations` are a parameter.
pub mod Plans
pub mod Tracks
pub mod Required
pub mod Rollback
pub mod Resume
mod Tests
use forza_motorsport_linux.Base.{
  String, ◌<>◌, Text, codes, Bool, true, false, ◌&&◌, ◌||◌, not, Option, none, some, List, [], ◌∷◌,
  ◌++◌, Result, ok, err, Error, message, about, refuse_if, raise_if, raise, Eq, ◌==◌, nat_eq,
  list_eq, option_eq, string_eq, contains, starts_with, if◌then◌else◌,
}
use forza_motorsport_linux.Base.Actions.{Action, pure, fail, lift, ◌>>=◌, ◌>>◌, try_then}
use forza_motorsport_linux.Json.{
  Json, bool, int, float, str, list, dict, Fields, to_items, get_item,
}
use forza_motorsport_linux.State.{
  BootstrapPhase, BootstrapState, new, preparing, awaiting_steam_prefix, planned_finish,
  installing_finish, ready_to_attempt, accepted, rolling_back, rolled_back, recovery_required,
  phase_eq, phase_value, same_state, require_token,
}
use forza_motorsport_linux.State.Value.{state_from_value}
use forza_motorsport_linux.State.Transition.{Updates, transition_locked, boundary_updates}

-- RecoveryStatus, with `other` for any other value, which the code refuses
pub data RecoveryStatus : Type 0 where
  pending undone not_applicable was_accepted other : RecoveryStatus

status_dec : Discrete RecoveryStatus
status_dec = hlevel

instance unfoldable pub status_eq : Eq RecoveryStatus
unfolding status_dec
status_eq = record { dec = status_dec }

-- What the coordinator sees: the files of the transaction's directory, the text that it has
-- written, and the host, which the owners of the installed parts read and change.
pub record World (H : Type 0) : Type 0 where
  pub state_file : Json
  pub plan_file : Option Json
  pub prepare_plan_file : Option Json
  pub output : List Text
  pub host : H

-- The callables, without `event`, which neither operation calls. An inspection reads the host, which
-- is all but the files of the world; the others may change the host and write any file.
pub record RecoveryOperations (H : Type 0) : Type 0 where
  pub resume_prepare : BootstrapState → Action (World H) BootstrapState
  pub resume_finish : BootstrapState → Action (World H) BootstrapState
  pub inspect_patches : BootstrapState → H → Result RecoveryStatus
  pub restore_patches : BootstrapState → Action (World H) (Unit {0})
  pub inspect_runtime : BootstrapState → H → Result RecoveryStatus
  pub rollback_runtime : BootstrapState → Action (World H) (Unit {0})
  pub inspect_threading : BootstrapState → H → Result RecoveryStatus
  pub rollback_threading : BootstrapState → Action (World H) (Unit {0})
  pub inspect_tool : BootstrapState → H → Result RecoveryStatus
  pub rollback_tool : BootstrapState → Action (World H) (Unit {0})
  pub boundary : Text → Action (World H) (Unit {0})

-- An entry of `steps`.
pub record RollbackStep (H : Type 0) : Type 0 where
  pub boundary : String
  pub inspect : BootstrapState → H → Result RecoveryStatus
  pub act : BootstrapState → Action (World H) (Unit {0})

-- root.is_absolute()
unfoldable pub is_absolute : Text → Bool
is_absolute root = starts_with root (b'/' ∷ [])

-- The path is the root's with the name of the transaction's directory behind it.
journal_line : Text → BootstrapState → Text
journal_line root state =
    codes "RECOVERY_REQUIRED: inspect private journal "
    ++ (root ++ (b'/' ∷ (state.transaction_id ++ codes "\n")))

module _ {H : Type 0} where
  unfoldable pub steps_of : RecoveryOperations H → List (RollbackStep H)
  steps_of operations =
      record {
        boundary = "rollback-patches";
        inspect = operations.inspect_patches;
        act = operations.restore_patches;
      }
      ∷ record {
        boundary = "rollback-runtime";
        inspect = operations.inspect_runtime;
        act = operations.rollback_runtime;
      }
      ∷ record {
        boundary = "rollback-threading";
        inspect = operations.inspect_threading;
        act = operations.rollback_threading;
      }
      ∷ record {
        boundary = "rollback-compat-tool";
        inspect = operations.inspect_tool;
        act = operations.rollback_tool;
      }
      ∷ []

  saved : Result (BootstrapState × Json) → Action (World H) BootstrapState
  saved (err e) w = (err e, w)
  saved (ok (next, written)) w = (ok next, record w { state_file = written })

  -- transition (forza_bootstrap/state.py), on the file that the transaction's directory holds
  unfoldable pub transition :
      BootstrapState → BootstrapPhase → BootstrapPhase → Updates → Action (World H) BootstrapState
  unfolding saved
  transition state expected target updates w =
      saved (transition_locked w.state_file state expected target updates) w

  -- load_transaction (forza_bootstrap/state.py)
  unfoldable pub load_transaction : Text → Text → Action (World H) BootstrapState
  load_transaction root transaction_id = do
    lift (require_token (str transaction_id) "transaction_id")
    λ w. (state_from_value w.state_file (some root), w)

  -- The types of the context are those of its annotations, and its state root is the text of a path.
  unfoldable pub durable_recovery_state : Text → BootstrapState → Action (World H) BootstrapState
  durable_recovery_state root state = do
    lift (
        raise_if (not (is_absolute root) || not (state.state_root == some root))
          "recovery state is invalid")
    durable ← load_transaction root state.transaction_id
    lift
        (raise_if (not (same_state durable state)) "recovery does not match the last durable state")
    pure durable

  unfoldable pub rollback_checkpoint : BootstrapState → String → Action (World H) BootstrapState
  rollback_checkpoint state name =
      if contains state.completed_boundaries (codes name)
      then pure state
      else transition state rolling_back rolling_back (boundary_updates state (codes name))

  write_line : Text → Action (World H) (Unit {0})
  write_line line w = (ok tt, record w { output = w.output ++ (line ∷ []) })

  -- What is left of `_recovery_required` once the state is RECOVERY_REQUIRED.
  unfoldable pub raise_with_journal :
      {A : Type 0} → Text → BootstrapState → Error → Action (World H) A
  unfolding journal_line write_line
  raise_with_journal root state error = do write_line (journal_line root state); fail error

  -- _recovery_required, which always raises
  unfoldable pub require_recovery :
      {A : Type 0} → Text → BootstrapState → Error → Action (World H) A
  unfolding raise_with_journal
  require_recovery root state error =
      if state.phase == recovery_required
      then raise_with_journal root state error
      else transition state state.phase recovery_required [] >>= λ next.
          raise_with_journal root next error
