-- ===== src/State/Transition.antt =====
-- forza_bootstrap/state.py: `_validate_transition_request`, `_updated_state`, `transition_locked`.
-- `updates` are the keyword arguments; a tuple passed for one is the list of its items, since the
-- code treats the two alike.
pub mod Laws
pub mod Durable
pub mod History
pub mod Boundaries
use forza_motorsport_linux.Base.{
  String, ◌<>◌, Text, codes, Bool, true, false, ◌&&◌, not, Option, none, some, List, [], ◌∷◌, ◌++◌,
  Result, ok, err, message, about, refuse_if, raise_if, raise, ◌>>=◌, ◌>>◌, Eq, ◌==◌, list_eq,
  nat_eq, string_eq, option_eq, contains, any_of, take, length, if◌then◌else◌,
}
use forza_motorsport_linux.Json.{Json, str, list, dict, Fields, set_item, to_items}
use forza_motorsport_linux.State.{
  BootstrapPhase, BootstrapState, Disposition, phase_eq, disposition_eq, allowed_transitions,
  terminal_phases, phase_value, same_state,
}
use forza_motorsport_linux.State.Value.{state_from_value, state_value}

abbrev pub Updates : Type 0
Updates = List (String × Json)

abbrev pub updatable_fields : List String
updatable_fields =
    "completed_boundaries" ∷ "child_runtime_transaction" ∷ "patch_backup_manifest"
    ∷ "compatibility_tool_disposition" ∷ "finish_plan_sha256" ∷ []

not_allowed : BootstrapPhase → BootstrapPhase → Result (Unit {0})
not_allowed expected target = err (
    about "transition from "
      (phase_value expected ++ (codes " to " ++ (phase_value target ++ codes " is not allowed"))))

-- set(updates) - _UPDATABLE_FIELDS is not empty
unfoldable pub has_invalid_update : Updates → Bool
has_invalid_update updates = any_of (λ (key, _). not (contains updatable_fields key)) updates

unfoldable pub validate_transition_request :
    BootstrapState → BootstrapPhase → BootstrapPhase → Updates → Result (Unit {0})
unfolding not_allowed has_invalid_update
validate_transition_request state expected target updates = do
  refuse_if (not (state.phase == expected)) (
      about "transition expected "
        (phase_value state.phase ++ codes ", not " ++ phase_value expected))
  if target == expected && contains terminal_phases target
      then not_allowed expected target
      else ok tt
  if not (target == expected) && not (contains (allowed_transitions expected) target)
      then not_allowed expected target
      else ok tt
  raise_if (has_invalid_update updates) "bootstrap state update is not allowed"
  raise_if (state.state_root == none) "bootstrap state is not bound to private storage"

-- for key, update in updates.items(): value[key] = update
unfoldable pub apply_updates : Updates → Fields → Fields
apply_updates [] fields = fields
apply_updates ((key, update) ∷ updates) fields = apply_updates updates (set_item key update fields)

unfoldable pub updated_fields : BootstrapPhase → Updates → Json → Json
unfolding apply_updates
updated_fields target updates (dict fields) =
    dict (apply_updates updates (set_item "phase" (str (phase_value target)) fields))
updated_fields target updates value = value

-- One round of the loop over _WRITE_ONCE_FIELDS.
unfoldable pub write_once {ℓ} :
    {A : Type ℓ} ⦃e : Eq A⦄ → String → Option A → Option A → Result (Unit {0})
write_once name none next = ok tt
write_once name (some existing) next =
    raise_if (not (next == some existing)) ("state " <> name <> " is write-once")

unfoldable pub updated_state : BootstrapState → BootstrapPhase → Updates → Result BootstrapState
updated_state state target updates = do
  next ← state_from_value (updated_fields target updates (state_value state)) state.state_root
  raise_if
      (not (
        take (length state.completed_boundaries) next.completed_boundaries
        == state.completed_boundaries))
      "state completed_boundaries may only append new entries"
  write_once "child_runtime_transaction" state.child_runtime_transaction
      next.child_runtime_transaction
  write_once "patch_backup_manifest" state.patch_backup_manifest next.patch_backup_manifest
  write_once "compatibility_tool_disposition" state.compatibility_tool_disposition
      next.compatibility_tool_disposition
  write_once "finish_plan_sha256" state.finish_plan_sha256 next.finish_plan_sha256
  raise_if (target == state.phase && same_state next state)
      "same-phase bootstrap transition is a no-op"
  ok next

-- With the locks held and the transaction directory open: `file` is what state.json holds, and
-- what it holds afterwards comes back beside the result.
unfoldable pub transition_locked :
    Json
    → BootstrapState
    → BootstrapPhase
    → BootstrapPhase
    → Updates
    → Result (BootstrapState × Json)
transition_locked file state expected target updates = do
  validate_transition_request state expected target updates
  durable ← state_from_value file state.state_root
  refuse_if (not (same_state durable state))
      (about "transition does not match last durable state; expected " (phase_value durable.phase))
  next ← updated_state durable target updates
  ok (next, state_value next)

-- The keyword argument completed_boundaries=(*state.completed_boundaries, boundary), with which
-- forza_bootstrap/coordinator.py records a boundary.
unfoldable pub boundary_updates : BootstrapState → Text → Updates
boundary_updates state boundary =
    ("completed_boundaries", list (to_items str (state.completed_boundaries ++ (boundary ∷ []))))
    ∷ []
