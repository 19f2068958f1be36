-- ===== src/State/Value.antt =====
-- forza_bootstrap/state.py: `_require_patch_backup_manifest`, `_state_from_value`, `_state_value`.
pub mod RoundTrip
pub mod Soundness
use forza_motorsport_linux.Base.{
  ℕ, zero, suc, String, Text, codes, Bool, true, false, ◌&&◌, ◌||◌, not, Option, none, some, List,
  [], ◌∷◌, Result, ok, raise, raise_if, ◌>>=◌, ◌>>◌, ◌==◌, nat_eq, list_eq, string_eq, contains,
  any_of, ltb, leb, drop, is_digit, starts_with, split, if◌then◌else◌,
}
use forza_motorsport_linux.Json.{
  Json, null, int, str, list, dict, Items, nil, item, end, field, get_item, has_keys, to_items,
}
use forza_motorsport_linux.State.{
  BootstrapPhase, BootstrapState, Disposition, created, adopted, state_version, state_keys,
  phase_value, phase_of, disposition_value, require_string, require_token, require_sha256,
}

-- [0-9]{n}: what is left of the text behind n digits
unfoldable pub after_digits : ℕ → Text → Option Text
after_digits zero text = some text
after_digits (suc n) [] = none
after_digits (suc n) (c ∷ text) = if is_digit c then after_digits n text else none

unfoldable pub after_character : ℕ → Option Text → Option Text
after_character d (some (c ∷ text)) = if c == d then some text else none
after_character d _ = none

-- [0-9]*\.json\Z
unfoldable pub ends_numbered : Text → Bool
ends_numbered [] = false
ends_numbered (c ∷ text) = (c ∷ text) == codes ".json" || (is_digit c && ends_numbered text)

-- (?:\.[1-9][0-9]*)?\.json\Z
unfoldable pub ends_backup_name : Option Text → Bool
ends_backup_name none = false
ends_backup_name (some []) = false
ends_backup_name (some (c ∷ [])) = false
ends_backup_name (some (c ∷ d ∷ text)) =
    (c ∷ d ∷ text) == codes ".json" || (c == b'.' && leb b'1' d && leb d b'9' && ends_numbered text)

-- _PATCH_BACKUP_MANIFEST.fullmatch(name)
unfoldable pub is_backup_name : Text → Bool
unfolding after_digits after_character ends_numbered ends_backup_name starts_with
is_backup_name name =
    starts_with name (codes "forza-patch-")
    && (let date = after_character b'T' (after_digits 8 (drop 12 name)) in
        elim date [
          | none ↦ false
          | some rest ↦ ends_backup_name (after_character b'Z' (after_digits 6 rest))
        ])

unfoldable pub last_or : Text → List Text → Text
last_or text [] = text
last_or text (part ∷ parts) = last_or part parts

abbrev is_dots_or_empty : Text → Bool
is_dots_or_empty part = contains ([] ∷ (b'.' ∷ []) ∷ (b'.' ∷ b'.' ∷ []) ∷ []) part

unfoldable pub is_backup_path : Text → Bool
unfolding is_backup_name last_or starts_with split
is_backup_path text =
    let parts = drop 1 (split b'/' text) in
    starts_with text (b'/' ∷ [])
    && not (contains text 0)
    && not (parts == [])
    && not (any_of is_dots_or_empty parts)
    && is_backup_name (last_or [] parts)

unfoldable pub require_patch_backup_manifest : Json → Result Text
unfolding require_string
require_patch_backup_manifest value = do
  result ← require_string value "patch_backup_manifest"
  raise_if (not (is_backup_path result)) "state patch_backup_manifest is invalid"
  ok result

-- type(version) is not int or version != _STATE_VERSION
unfoldable pub require_version : Json → Result ℕ
require_version (int n) =
    if n == state_version then ok n else raise "state schema version is invalid"
require_version _ = raise "state schema version is invalid"

-- The entries of a list of non-empty strings.
unfoldable pub boundary_texts : Items → Option (List Text)
boundary_texts nil = some []
boundary_texts (item (str []) rest) = none
boundary_texts (item (str (c ∷ text)) rest) = elim (boundary_texts rest) [
  | none ↦ none
  | some texts ↦ some ((c ∷ text) ∷ texts)
]
boundary_texts (item _ rest) = none

-- len(set(texts)) == len(texts)
unfoldable pub is_distinct : List Text → Bool
is_distinct [] = true
is_distinct (text ∷ texts) = not (contains texts text) && is_distinct texts

unfoldable pub distinct_boundaries : Option (List Text) → Result (List Text)
unfolding is_distinct
distinct_boundaries none = raise "state completed_boundaries is invalid"
distinct_boundaries (some texts) =
    if is_distinct texts then ok texts else raise "state completed_boundaries is invalid"

unfoldable pub require_boundaries : Json → Result (List Text)
unfolding boundary_texts distinct_boundaries
require_boundaries (list items) = distinct_boundaries (boundary_texts items)
require_boundaries _ = raise "state completed_boundaries is invalid"

-- if value is not None: value = require(value)
unfoldable pub optional : (Json → Result Text) → Json → Result (Option Text)
optional require null = ok none
optional require value = require value >>= λ text. ok (some text)

unfoldable pub require_disposition : Json → Result (Option Disposition)
unfolding disposition_value
require_disposition null = ok none
require_disposition (str text) =
    if text == disposition_value created
    then ok (some created)
    else if text == disposition_value adopted
    then ok (some adopted)
    else raise "state compatibility_tool_disposition is invalid"
require_disposition _ = raise "state compatibility_tool_disposition is invalid"

unfoldable pub state_from_value : Json → Option Text → Result BootstrapState
unfolding has_keys get_item
state_from_value (dict fields) root = do
  raise_if (not (has_keys state_keys fields)) "state schema is invalid"
  version ← require_version (← get_item "version" fields)
  transaction_id ← require_token (← get_item "transaction_id" fields) "transaction_id"
  manifest_sha256 ← require_sha256 (← get_item "manifest_sha256" fields) "manifest_sha256"
  phase ← phase_of (← require_string (← get_item "phase" fields) "phase")
  boundaries ← require_boundaries (← get_item "completed_boundaries" fields)
  child ←
      optional (λ v. require_token v "child_runtime_transaction")
        (← get_item "child_runtime_transaction" fields)
  backup ← optional require_patch_backup_manifest (← get_item "patch_backup_manifest" fields)
  disposition ← require_disposition (← get_item "compatibility_tool_disposition" fields)
  finish ←
      optional (λ v. require_sha256 v "finish_plan_sha256") (← get_item "finish_plan_sha256" fields)
  ok (record {
    version = version;
    transaction_id = transaction_id;
    manifest_sha256 = manifest_sha256;
    phase = phase;
    completed_boundaries = boundaries;
    child_runtime_transaction = child;
    patch_backup_manifest = backup;
    compatibility_tool_disposition = disposition;
    finish_plan_sha256 = finish;
    state_root = root;
  })
state_from_value _ root = raise "state schema is invalid"

unfoldable pub optional_text : Option Text → Json
optional_text none = null
optional_text (some text) = str text

unfoldable pub optional_disposition : Option Disposition → Json
unfolding disposition_value
optional_disposition none = null
optional_disposition (some d) = str (disposition_value d)

unfoldable pub state_value : BootstrapState → Json
unfolding optional_text optional_disposition phase_value to_items
state_value s = dict (
    field "version" (int s.version) (
      field "transaction_id" (str s.transaction_id) (
        field "manifest_sha256" (str s.manifest_sha256) (
          field "phase" (str (phase_value s.phase)) (
            field "completed_boundaries" (list (to_items str s.completed_boundaries)) (
              field "child_runtime_transaction" (optional_text s.child_runtime_transaction) (
                field "patch_backup_manifest" (optional_text s.patch_backup_manifest) (
                  field "compatibility_tool_disposition"
                    (optional_disposition s.compatibility_tool_disposition)
                    (field "finish_plan_sha256" (optional_text s.finish_plan_sha256) end)))))))))

-- A test by `refl` names this on its `unfolding` line, so that the parts of `state_from_value` compute.
unfoldable pub state_parsing : Unit {0}
unfolding state_from_value state_value require_version require_token require_sha256 require_string
    phase_of require_boundaries optional require_patch_backup_manifest is_backup_path
    require_disposition
state_parsing = tt
