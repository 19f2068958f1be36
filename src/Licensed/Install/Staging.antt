-- ===== src/Licensed/Install/Staging.antt =====
-- `_validate_fresh_action`, `_load_or_create_journal`, `_preserve_partial_stage` and `_copy_stage`.
use forza_motorsport_linux.Base.{
  ℕ, suc, Text, codes, Bool, true, false, ◌&&◌, not, Option, none, some, List, [], ◌∷◌, ◌++◌, map,
  message, Result, ok, err, raise_if, ◌==◌, nat_eq, list_eq, option_eq, bool_eq, contains, any_of,
  leb, split, starts_with, drop, is_hex_of_length, if◌then◌else◌,
}
use forza_motorsport_linux.Base.Actions.{Action, pure, fail, lift, ◌>>=◌, ◌>>◌}
use forza_motorsport_linux.Files.{regular}
use forza_motorsport_linux.Snapshot.{FileState, FileRecord, absent}
use forza_motorsport_linux.Snapshot as Snapshots
use forza_motorsport_linux.Licensed.{
  LicensedAction, LicensedDisposition, install, replace, keep, Journal, planned, HeldFile,
  CopyWorld, PrivateFileIdentity, max_licensed_size, source_mode, disposition_eq, is_regular,
  is_absent, record_eq, name_of, open_regular, open_record, same_file, same_named_file, move,
  write_journal, matches_source, matches_staged_source,
}

-- _absolute_path accepts the text
unfoldable pub is_absolute_path : Text → Bool
is_absolute_path text =
    let parts = drop 1 (split b'/' text) in
    starts_with text (b'/' ∷ [])
    && not (contains text 0)
    && not (parts == [])
    && not (any_of (contains ([] ∷ codes "." ∷ codes ".." ∷ [])) parts)

-- _record_from_value accepts the value of the record
unfoldable pub is_record : FileState → FileRecord → Bool
is_record absent r = r.mode == none && r.size == none && r.sha256 == none
is_record Snapshots.regular r =
    elim r.mode [ none ↦ false | some mode ↦ leb mode 4095 ]
    && elim r.size [ none ↦ false | some size ↦ true ]
    && elim r.sha256 [ none ↦ false | some digest ↦ is_hex_of_length 64 digest ]

unfoldable pub before_matches : FileRecord → ℕ → Text → Bool
before_matches before size sha256 =
    is_regular before.state && before.size == some size && before.sha256 == some sha256

-- the disposition that a destination and a source call for
unfoldable pub fits : LicensedDisposition → FileRecord → ℕ → Text → Bool
fits install before size sha256 = is_absent before.state
fits keep before size sha256 = before_matches before size sha256
fits replace before size sha256 = is_regular before.state && not (before_matches before size sha256)

unfoldable pub is_action : LicensedAction → Bool
is_action action =
    is_absolute_path action.destination_logical
    && is_absolute_path action.source
    && action.destination == action.destination_logical
    && leb action.source_size max_licensed_size
    && is_hex_of_length 64 action.source_sha256
    && action.before.logical_path == action.destination_logical
    && action.before.private
    && not (action.before.logical_path == [])
    && is_record action.before.state action.before
    && fits action.disposition action.before action.source_size action.source_sha256

-- what is caught around `_open_validated_source`
unfoldable pub validated : Result PrivateFileIdentity → Result PrivateFileIdentity
validated (ok identity) = ok identity
validated (err e) = err (message "licensed input validation failed")

-- _validate_fresh_action, with the identity of the source that it leaves open
unfoldable pub validate_fresh_action : LicensedAction → Action CopyWorld PrivateFileIdentity
validate_fresh_action action = do
  lift (raise_if (not (is_action action)) "licensed action is invalid")
  identity ← λ w. (validated w.source, w)
  lift (
      raise_if
        (not (identity.size == action.source_size && identity.sha256 == action.source_sha256))
        "licensed input changed after planning")
  pure identity

-- f".{action._destination.name}.{token}"
unfoldable pub stem : Text → Text → Text
stem logical token = b'.' ∷ (name_of logical ++ (b'.' ∷ token))

-- _new_journal, with the token of `secrets.token_hex(12)`
unfoldable pub new_journal : LicensedAction → Text → Journal
new_journal action token =
    let s = stem action.destination_logical token in
    record {
      destination_logical = action.destination_logical;
      source_size = action.source_size;
      source_sha256 = action.source_sha256;
      before = action.before;
      disposition = action.disposition;
      stage_name = s ++ codes ".licensed-stage";
      backup_name = s ++ codes ".licensed-backup";
      rollback_name = s ++ codes ".rollback-held";
      recovery_name = s ++ codes ".recovery";
      status = planned;
    }

-- actual == expected
unfoldable pub is_for : LicensedAction → Journal → Bool
is_for action journal =
    journal.destination_logical == action.destination_logical
    && journal.source_size == action.source_size
    && journal.source_sha256 == action.source_sha256
    && record_eq journal.before action.before
    && disposition_eq journal.disposition action.disposition

unfoldable pub journal_found :
    LicensedAction → Text → Option (Result Journal) → Action CopyWorld Journal
journal_found action token none =
    write_journal (new_journal action token) >>= λ _. pure (new_journal action token)
journal_found action token (some loaded) = do
  journal ← lift loaded
  lift (raise_if (not (is_for action journal)) "licensed action does not match private journal")
  pure journal

-- _load_or_create_journal
unfoldable pub load_or_create_journal : LicensedAction → Text → Action CopyWorld Journal
load_or_create_journal action token w = journal_found action token w.journal w

-- The loop over the tokens: a name that is taken is passed over. Without renameat2 the first rename
-- raises.
unfoldable pub free_recovery : Text → Text → List Text → Action CopyWorld Text
free_recovery stage logical [] w = fail (message "licensed partial recovery name conflicts") w
free_recovery stage logical (token ∷ tokens) w =
    let name = stem logical token ++ codes ".partial.recovery" in
    let next = free_recovery stage logical tokens in
    (if w.can_rename && contains (map (λ s. s.0) w.siblings) name
        then next
        else (move stage name "" >>= λ _. pure name))
      w

-- _preserve_partial_stage
unfoldable pub preserve_partial_stage : List Text → Journal → Action CopyWorld (Unit {0})
preserve_partial_stage tokens journal = do
  held ← open_regular journal.stage_name "licensed partial stage"
  same ← same_named_file journal.stage_name held
  lift (raise_if (not same) "licensed partial stage changed before recovery")
  name ← free_recovery journal.stage_name journal.destination_logical tokens
  recovered ← open_regular name "licensed partial recovery"
  lift (raise_if (not (same_file recovered held)) "licensed partial recovery evidence changed")

-- The stage that is created at a free name, with what is read from the source.
unfoldable pub stage_file : CopyWorld → PrivateFileIdentity → HeldFile
stage_file w identity = record {
  kind = regular;
  owned = true;
  inode = w.next_inode;
  mode = source_mode;
  size = identity.size;
  sha256 = identity.sha256;
}

unfoldable pub add_stage : PrivateFileIdentity → Journal → Action CopyWorld (Unit {0})
add_stage identity journal w = (
  ok tt,
  record w {
    siblings = (journal.stage_name, stage_file w identity) ∷ w.siblings;
    next_inode = suc w.next_inode;
  },
)

unfoldable pub write_stage : PrivateFileIdentity → Journal → Action CopyWorld (Unit {0})
write_stage identity journal = do
  add_stage identity journal
  lift (raise_if (not (leb identity.size max_licensed_size)) "licensed input exceeds size limit")
  lift (
      raise_if
        (not (identity.size == journal.source_size && identity.sha256 == journal.source_sha256))
        "licensed input changed after planning")

-- The stage exists: it is complete, conflicts, or is put aside.
unfoldable pub stage_exists :
    List Text → PrivateFileIdentity → Journal → Action CopyWorld (Unit {0})
stage_exists tokens identity journal = do
  (r, _) ← open_record journal.stage_name journal.destination_logical
  if matches_staged_source r journal
      then pure tt
      else if matches_source r journal
      then fail (message "licensed stage conflicts")
      else preserve_partial_stage tokens journal >> write_stage identity journal

-- _copy_stage: what is put aside leaves the name free, so the loop has two rounds at most.
unfoldable pub copy_stage : List Text → PrivateFileIdentity → Journal → Action CopyWorld (Unit {0})
copy_stage tokens identity journal w =
    let there = contains (map (λ s. s.0) w.siblings) journal.stage_name in
    (if there then stage_exists tokens identity journal else write_stage identity journal) w
