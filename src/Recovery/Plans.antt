-- ===== src/Recovery/Plans.antt =====
-- forza_bootstrap/coordinator.py: `_transaction_json_if_present` and what
-- `_validate_awaiting_plan_handoff` asks of the two plan files.
use forza_motorsport_linux.Base.{
  String, ◌<>◌, Text, codes, Bool, false, ◌&&◌, not, Option, none, some, Result, ok, err, raise,
  raise_if, ◌>>=◌, ◌==◌, nat_eq, list_eq, if◌then◌else◌,
}
use forza_motorsport_linux.Json.{Json, bool, int, float, str, dict, Fields, get_item}

-- A file of the transaction's directory, if it is there.
unfoldable pub transaction_json_if_present : String → Option Json → Result (Option Fields)
transaction_json_if_present name none = ok none
transaction_json_if_present name (some (dict fields)) = ok (some fields)
transaction_json_if_present name (some value) = raise ("bootstrap " <> name <> " is invalid")

is_text : Text → Json → Bool
is_text text (str value) = value == text
is_text text value = false

-- value == 1, which holds of True too, and of the float that `canonical_json` prints as 1.0
is_one : Json → Bool
is_one (int n) = n == 1
is_one (bool b) = b
is_one (float text) = text == codes "1.0"
is_one value = false

-- A test of current.get(key), where None fails it
unfoldable pub get_passes : (Json → Bool) → String → Fields → Bool
get_passes test key fields = elim (get_item key fields) [ err e ↦ false | ok value ↦ test value ]

unfoldable pub is_prepare_plan : Text → Option Fields → Bool
unfolding is_text is_one get_passes
is_prepare_plan manifest_sha256 none = false
is_prepare_plan manifest_sha256 (some prepare) =
    get_passes is_one "schema" prepare
    && get_passes (is_text (codes "prepare")) "phase" prepare
    && get_passes (is_text manifest_sha256) "manifest_sha256" prepare

unfoldable pub is_finish_plan : Option Fields → Bool
unfolding is_text get_passes
is_finish_plan none = false
is_finish_plan (some current) = get_passes (is_text (codes "finish")) "phase" current

handed_over : Text → Option Json → Result (Unit {0})
handed_over manifest_sha256 prepare_plan_file = do
  prepare ← transaction_json_if_present "prepare-plan.json" prepare_plan_file
  raise_if (not (is_prepare_plan manifest_sha256 prepare))
      "Finish plan was published before its state transition and the Prepare plan cannot be reconstructed"

-- _validate_awaiting_plan_handoff, on the manifest's digest in the state and the two files
unfoldable pub validate_awaiting_plan_handoff : Text → Option Json → Option Json → Result (Unit {0})
unfolding handed_over transaction_json_if_present is_prepare_plan is_finish_plan
validate_awaiting_plan_handoff manifest_sha256 plan_file prepare_plan_file = do
  current ← transaction_json_if_present "plan.json" plan_file
  if is_finish_plan current then handed_over manifest_sha256 prepare_plan_file else ok tt
