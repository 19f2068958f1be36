-- ===== src/Snapshot/Compare.antt =====
-- forza_bootstrap/snapshot.py: change rules, `compare_snapshots` and `render_comparison`.
pub mod Follows
pub mod Verdict
pub mod Privacy
use forza_motorsport_linux.Base.{
  ℕ, String, Text, codes, Bool, true, false, ◌&&◌, ◌||◌, not, Option, none, some, List, [], ◌∷◌,
  ◌++◌, map, Result, ok, err, message, about, key_error, raise, raise_if, refuse_if, ◌>>=◌, ◌>>◌,
  ◌==◌, nat_eq, list_eq, option_eq, bool_eq, contains, any_of, all_of, sorted_by, if◌then◌else◌,
}
use forza_motorsport_linux.Snapshot.{
  FileRecord, FileState, absent, regular, Policy, expected, unchanged, ChangeRule, Snapshot,
  ComparedRecord, Comparison, file_state_eq, same_record, is_ok, private_comparison_error,
  require_logical_path, require_sha256, is_mode, validate_record, find_record, path_of,
  indexed_records,
}

unfoldable pub validate_after : Option Text → Option ℕ → Result (Unit {0})
unfolding is_mode
validate_after none none = ok tt
validate_after none (some mode) = raise "comparison rule after state is invalid"
validate_after (some digest) none = raise "comparison rule after state is invalid"
validate_after (some digest) (some mode) = do
  _ ← require_sha256 digest "comparison rule after_sha256 must be a lowercase SHA-256"
  raise_if (not (is_mode (some mode))) "comparison rule after_mode is invalid"

unfoldable pub validate_rule : ChangeRule → Result (Unit {0})
validate_rule rule = do
  _ ← require_logical_path rule.logical_path "comparison rule logical path is invalid"
  validate_after rule.after_sha256 rule.after_mode

unfoldable pub matches_after : FileRecord → Option Text → Option ℕ → Bool
matches_after item none mode = item.state == absent
matches_after item (some digest) mode =
    item.state == regular && item.sha256 == some digest && item.mode == mode

unfoldable pub matches_rule : FileRecord → ChangeRule → Bool
unfolding matches_after
matches_rule item rule = matches_after item rule.after_sha256 rule.after_mode

-- The first component of `_snapshot_privacy`; its paths are not empty exactly when it holds.
unfoldable pub snapshot_privacy : Snapshot → Bool
snapshot_privacy s = any_of (λ item. item.private) s.records

unfoldable pub find_rule : Text → List ChangeRule → Option ChangeRule
find_rule path [] = none
find_rule path (rule ∷ rules) =
    if rule.logical_path == path then some rule else find_rule path rules

unfoldable pub duplicate_rule : ChangeRule → Option ChangeRule → Result (Unit {0})
duplicate_rule rule none = ok tt
duplicate_rule rule (some earlier) = err (about "duplicate comparison rule: " rule.logical_path)

-- The loop that fills `indexed_rules`; the dict is the list of its rules.
unfoldable pub index_rules : List ChangeRule → List ChangeRule → Result (List ChangeRule)
unfolding duplicate_rule
index_rules indexed [] = ok indexed
index_rules indexed (rule ∷ rules) = do
  validate_rule rule
  duplicate_rule rule (find_rule rule.logical_path indexed)
  index_rules (indexed ++ (rule ∷ [])) rules

-- set(a) == set(b), on lists of keys
unfoldable pub same_keys : List Text → List Text → Bool
same_keys a b = all_of (contains b) a && all_of (contains a) b

abbrev pub rule_path : ChangeRule → Text
rule_path rule = rule.logical_path

-- d[path], which raises KeyError
unfoldable pub at_path {ℓ} : {A : Type ℓ} → Option A → Result A
at_path none = err (key_error "logical_path")
at_path (some a) = ok a

unfoldable pub expects_change : Policy → Bool
expects_change expected = true
expects_change unchanged = false

-- The classification at the end of the loop's body.
unfoldable pub classify : Text → FileRecord → FileRecord → ChangeRule → Comparison → Comparison
unfolding expects_change
classify path before after rule c =
    let compared : ComparedRecord = record {
      logical_path = path;
      before = before;
      after = after;
      policy = rule.policy;
    } in
    if expects_change rule.policy && not (same_record before after) && matches_rule after rule
    then record c { expected_changes = c.expected_changes ++ (compared ∷ []) }
    else if not (expects_change rule.policy) && same_record before after && matches_rule after rule
    then record c { required_unchanged = c.required_unchanged ++ (compared ∷ []) }
    else record c { unexpected_changes = c.unexpected_changes ++ (compared ∷ []) }

module _ (before_records after_records : List FileRecord) (rules : List ChangeRule) where
  unfoldable pub compare_path : Text → Comparison → Result Comparison
  compare_path path c = do
    before ← at_path (find_record path before_records)
    after ← at_path (find_record path after_records)
    rule ← at_path (find_rule path rules)
    raise_if (not (before.private == after.private)) "snapshot privacy metadata does not match"
    ok (classify path before after rule c)

  -- for logical_path in paths
  unfoldable pub compare_paths : List Text → Comparison → Result Comparison
  compare_paths [] c = ok c
  compare_paths (path ∷ paths) c = compare_path path c >>= compare_paths paths

-- except BootstrapError: if private: raise BootstrapError(text) from None
unfoldable pub hide {ℓ} : {A : Type ℓ} → Bool → String → Result A → Result A
hide true text (err (message m)) = err (message text)
hide true text (err (about m t)) = err (message text)
hide private text r = r

abbrev pub nothing_compared : Comparison
nothing_compared = record {
  expected_changes = [];
  required_unchanged = [];
  unexpected_changes = [];
}

-- The body of the `try` block.
unfoldable pub compare_checked : Snapshot → Snapshot → List ChangeRule → Result Comparison
compare_checked before after rules = do
  before_records ← indexed_records before
  after_records ← indexed_records after
  raise_if (not (before.transaction_id == after.transaction_id))
      "snapshot transaction_id does not match"
  raise_if (not (before.manifest_sha256 == after.manifest_sha256))
      "snapshot manifest_sha256 does not match"
  raise_if (not (before.steam_root_id == after.steam_root_id))
      "snapshot steam_root_id does not match"
  raise_if (not (before.version == after.version)) "snapshot version does not match"
  raise_if (not (same_keys (map path_of before_records) (map path_of after_records)))
      "snapshot record coverage does not match"
  indexed_rules ← index_rules [] rules
  raise_if (not (same_keys (map rule_path indexed_rules) (map path_of before_records)))
      "comparison rule coverage does not match snapshot records"
  compare_paths before_records after_records indexed_rules
      (sorted_by (λ path. path) (map path_of before_records)) nothing_compared

unfoldable pub compare_snapshots : Snapshot → Snapshot → List ChangeRule → Result Comparison
unfolding hide
compare_snapshots before after rules =
    hide (snapshot_privacy before || snapshot_privacy after) private_comparison_error
      (compare_checked before after rules)
