-- ===== src/Snapshot/Tests.antt =====
-- Runs of `compare_snapshots`, and its theorems at concrete snapshots.
use forza_motorsport_linux.Base.{
  ◌≡◌, refl, equality, Text, codes, true, false, some, none, [], ◌∷◌, ok, err, message, copies,
  Error, insert_by, text_leb, ◌||◌, is_hex_of_length, starts_with, split, onto_first, sorted_by,
}
use forza_motorsport_linux.Snapshot.{
  FileRecord, absent, regular, expected, unchanged, ChangeRule, Snapshot, Comparison, state_dec,
  file_state_eq, same_record, unsafe_character, is_logical_path, require_logical_path,
  require_sha256, is_decimal, is_root_id, validate_identity, is_mode, require_digest,
  validate_metadata, validate_record, find_record, duplicate_path, index_records, indexed_records,
  is_ok,
}
use forza_motorsport_linux.Snapshot.Compare.{
  compare_snapshots, validate_after, validate_rule, matches_after, matches_rule, snapshot_privacy,
  find_rule, duplicate_rule, index_rules, same_keys, at_path, expects_change, classify,
  compare_path, compare_paths, hide, compare_checked,
}
use forza_motorsport_linux.Snapshot.Compare.Verdict.{Judged, compare_snapshots-Judged}
use forza_motorsport_linux.Snapshot.Compare.Privacy.{compare_snapshots-private}

-- A test by `refl` names this on its `unfolding` line, so that the comparison computes.
unfoldable pub comparing : Unit {0}
unfolding equality sorted_by insert_by text_leb starts_with split onto_first is_hex_of_length
    state_dec file_state_eq same_record unsafe_character is_logical_path require_logical_path
    require_sha256 is_decimal is_root_id validate_identity is_mode require_digest validate_metadata
    validate_record find_record duplicate_path index_records indexed_records is_ok validate_after
    validate_rule matches_after matches_rule snapshot_privacy find_rule duplicate_rule index_rules
    same_keys at_path expects_change classify compare_path compare_paths hide compare_checked
    compare_snapshots
comparing = tt

abbrev digest : Text
digest = copies 64 b'a'

abbrev game : FileRecord
game = record {
  logical_path = codes "steam/game.exe";
  state = regular;
  mode = some 493;
  size = some 7;
  sha256 = some digest;
  private = false;
}

abbrev save : FileRecord
save = record game { logical_path = codes "prefix/save"; private = true }

abbrev gone : FileRecord
gone = record game { state = absent; mode = none; size = none; sha256 = none }

abbrev taken : Snapshot
taken = record {
  version = 1;
  transaction_id = copies 24 b'0';
  manifest_sha256 = digest;
  steam_root_id = codes "20:1234";
  records = game ∷ save ∷ [];
}

abbrev later : Snapshot
later = record taken { records = save ∷ gone ∷ [] }

abbrev keep : ChangeRule
keep = record {
  logical_path = codes "prefix/save";
  policy = unchanged;
  after_sha256 = some digest;
  after_mode = some 493;
}

abbrev remove : ChangeRule
remove = record {
  logical_path = codes "steam/game.exe";
  policy = expected;
  after_sha256 = none;
  after_mode = none;
}

abbrev verdict : Comparison
verdict = record {
  expected_changes =
      record {
        logical_path = codes "steam/game.exe";
        before = game;
        after = gone;
        policy = expected;
      }
      ∷ [];
  required_unchanged =
      record { logical_path = codes "prefix/save"; before = save; after = save; policy = unchanged }
      ∷ [];
  unexpected_changes = [];
}

removal_planned : compare_snapshots taken later (keep ∷ remove ∷ []) ≡ ok verdict
unfolding comparing
removal_planned = refl

-- A rule is missing, and the error does not say which.
rule_missing :
    compare_snapshots taken later (keep ∷ []) ≡ err (message "private snapshot comparison failed")
unfolding comparing
rule_missing = refl

save_is_private : (snapshot_privacy taken || snapshot_privacy later) ≡ true
unfolding comparing
save_is_private = refl

compare_snapshots-Judged_example : Judged taken later (keep ∷ remove ∷ []) verdict
compare_snapshots-Judged_example =
    compare_snapshots-Judged taken later (keep ∷ remove ∷ []) verdict removal_planned

compare_snapshots-private_example :
    ◌≡◌ {A = Error}
      (message "private snapshot comparison failed")
      (message "private snapshot comparison failed")
compare_snapshots-private_example =
    compare_snapshots-private taken later (keep ∷ []) (message "private snapshot comparison failed")
      save_is_private rule_missing
