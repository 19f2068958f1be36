-- ===== src/State.antt =====
-- forza_bootstrap/state.py: the record of one bootstrap transaction, its phases, and its JSON form.
pub mod Value
pub mod Phases
pub mod Transition
pub mod Root
pub mod Tests
use forza_motorsport_linux.Base.{
  ℕ, suc, ◌-◌, String, ◌<>◌, Text, codes, Bool, true, false, ◌&&◌, ◌||◌, not, Option, none, some,
  List, [], ◌∷◌, Result, ok, err, raise, raise_if, ◌>>=◌, ◌>>◌, Eq, ◌==◌, nat_eq, list_eq,
  option_eq, string_eq, contains, any_of, all_of, take, drop, length, is_digit, is_hex_of_length,
  starts_with, split, if◌then◌else◌,
}
use forza_motorsport_linux.Json.{
  Json, null, bool, int, negative, float, str, list, dict, Items, nil, item, Fields, end, field,
  get_item, set_item, has_keys, to_items,
}

pub data BootstrapPhase : Type 0 where
  new preparing awaiting_steam_prefix planned_finish installing_finish : BootstrapPhase
  ready_to_attempt accepted rolling_back rolled_back recovery_required : BootstrapPhase

phase_dec : Discrete BootstrapPhase
phase_dec = hlevel

instance unfoldable pub phase_eq : Eq BootstrapPhase
unfolding phase_dec
phase_eq = record { dec = phase_dec }

-- Literal["created", "adopted"]
pub data Disposition : Type 0 where
  created adopted : Disposition

disposition_dec : Discrete Disposition
disposition_dec = hlevel

instance unfoldable pub disposition_eq : Eq Disposition
unfolding disposition_dec
disposition_eq = record { dec = disposition_dec }

pub record BootstrapState : Type 0 where
  pub version : ℕ
  pub transaction_id : Text
  pub manifest_sha256 : Text
  pub phase : BootstrapPhase
  pub completed_boundaries : List Text
  pub child_runtime_transaction : Option Text
  pub patch_backup_manifest : Option Text
  pub compatibility_tool_disposition : Option Disposition
  pub finish_plan_sha256 : Option Text
  pub state_root : Option Text

abbrev pub state_version : ℕ
state_version = 1

abbrev pub state_keys : List String
state_keys =
    "version" ∷ "transaction_id" ∷ "manifest_sha256" ∷ "phase" ∷ "completed_boundaries"
    ∷ "child_runtime_transaction" ∷ "patch_backup_manifest" ∷ "compatibility_tool_disposition"
    ∷ "finish_plan_sha256" ∷ []

unfoldable pub allowed_transitions : BootstrapPhase → List BootstrapPhase
allowed_transitions new = preparing ∷ rolling_back ∷ recovery_required ∷ []
allowed_transitions preparing = awaiting_steam_prefix ∷ rolling_back ∷ recovery_required ∷ []
allowed_transitions awaiting_steam_prefix = planned_finish ∷ rolling_back ∷ recovery_required ∷ []
allowed_transitions planned_finish = installing_finish ∷ rolling_back ∷ recovery_required ∷ []
allowed_transitions installing_finish = ready_to_attempt ∷ rolling_back ∷ recovery_required ∷ []
allowed_transitions ready_to_attempt = accepted ∷ rolling_back ∷ recovery_required ∷ []
allowed_transitions accepted = []
allowed_transitions rolling_back = rolled_back ∷ recovery_required ∷ []
allowed_transitions rolled_back = []
allowed_transitions recovery_required = rolling_back ∷ []

unfoldable pub terminal_phases : List BootstrapPhase
terminal_phases = accepted ∷ rolled_back ∷ []

-- BootstrapPhase.value
unfoldable pub phase_value : BootstrapPhase → Text
phase_value new = codes "NEW"
phase_value preparing = codes "PREPARING"
phase_value awaiting_steam_prefix = codes "AWAITING_STEAM_PREFIX"
phase_value planned_finish = codes "PLANNED_FINISH"
phase_value installing_finish = codes "INSTALLING_FINISH"
phase_value ready_to_attempt = codes "READY_TO_ATTEMPT"
phase_value accepted = codes "ACCEPTED"
phase_value rolling_back = codes "ROLLING_BACK"
phase_value rolled_back = codes "ROLLED_BACK"
phase_value recovery_required = codes "RECOVERY_REQUIRED"

abbrev pub phases : List BootstrapPhase
phases =
    new ∷ preparing ∷ awaiting_steam_prefix ∷ planned_finish ∷ installing_finish ∷ ready_to_attempt
    ∷ accepted ∷ rolling_back ∷ rolled_back ∷ recovery_required ∷ []

-- The member of the enumeration with a value.
unfoldable pub member_with : Text → List BootstrapPhase → Option BootstrapPhase
member_with text [] = none
member_with text (p ∷ rest) = if text == phase_value p then some p else member_with text rest

-- BootstrapPhase(text), whose ValueError becomes "state phase is invalid"
unfoldable pub phase_of : Text → Result BootstrapPhase
unfolding member_with
phase_of text = elim (member_with text phases) [
  | none ↦ raise "state phase is invalid"
  | some p ↦ ok p
]

unfoldable pub disposition_value : Disposition → Text
disposition_value created = codes "created"
disposition_value adopted = codes "adopted"

-- Equality of the dataclass: `_state_root` has compare=False.
unfoldable pub same_state : BootstrapState → BootstrapState → Bool
same_state a b =
    a.version == b.version
    && a.transaction_id == b.transaction_id
    && a.manifest_sha256 == b.manifest_sha256
    && a.phase == b.phase
    && a.completed_boundaries == b.completed_boundaries
    && a.child_runtime_transaction == b.child_runtime_transaction
    && a.patch_backup_manifest == b.patch_backup_manifest
    && a.compatibility_tool_disposition == b.compatibility_tool_disposition
    && a.finish_plan_sha256 == b.finish_plan_sha256

unfoldable pub require_string : Json → String → Result Text
require_string (str text) label = ok text
require_string _ label = raise ("state " <> label <> " must be a string")

unfoldable pub require_token : Json → String → Result Text
unfolding require_string is_hex_of_length
require_token value label = do
  result ← require_string value label
  raise_if (not (is_hex_of_length 24 result)) ("state " <> label <> " is invalid")
  ok result

unfoldable pub require_sha256 : Json → String → Result Text
unfolding require_string is_hex_of_length
require_sha256 value label = do
  result ← require_string value label
  raise_if (not (is_hex_of_length 64 result)) ("state " <> label <> " must be a lowercase SHA-256")
  ok result
