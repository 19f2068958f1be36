-- ===== src/Licensed/Install.antt =====
-- `_publish_stage` and `install_threading_copy`; Staging has what comes before the publication.
mod Staging
unfoldable pub use Staging.*
use forza_motorsport_linux.Base.{
  ℕ, zero, suc, String, Text, codes, Bool, true, false, ◌&&◌, ◌||◌, not, Option, none, some, List,
  [], ◌∷◌, ◌++◌, map, Error, message, about, file_not_found, Result, ok, err, raise_if, ◌==◌,
  nat_eq, list_eq, option_eq, bool_eq, contains, any_of, leb, split, starts_with, drop,
  is_hex_of_length, if◌then◌else◌,
}
use forza_motorsport_linux.Base.Actions.{Action, pure, fail, lift, handle, ◌>>=◌, ◌>>◌}
use forza_motorsport_linux.Files.{regular}
use forza_motorsport_linux.Snapshot.{FileState, FileRecord, absent}
use forza_motorsport_linux.Snapshot as Snapshots
use forza_motorsport_linux.Licensed.{
  LicensedAction, LicensedDisposition, install, replace, keep, Journal, JournalStatus, planned,
  installed, rolled_back, recovery_required, HeldFile, CopyWorld, PrivateFileIdentity,
  max_licensed_size, source_mode, disposition_eq, status_eq, is_regular, is_absent, record_eq,
  name_of, absent_record, record_fd, open_regular, open_record, same_file, same_named_file, move,
  write_journal, matches_source, matches_staged_source, quarantine_destination,
}

unfoldable pub mark_installed : Journal → Action CopyWorld (Unit {0})
mark_installed journal =
    if status_eq journal.status installed
    then pure tt
    else write_journal (record journal { status = installed })

-- What is wrong with the published file: `verification_error is None`.
unfoldable pub is_published : HeldFile → Journal → Result (FileRecord × Option HeldFile) → Bool
is_published stage journal (ok (r, some held)) =
    matches_staged_source r journal && stage.mode == source_mode && same_file held stage
is_published stage journal _ = false

unfoldable pub verify_published : HeldFile → Journal → Action CopyWorld (Unit {0})
verify_published stage journal w =
    let name = name_of journal.destination_logical in
    let found = (open_record name journal.destination_logical w).0 in
    (if is_published stage journal found
        then pure tt
        else (quarantine_destination journal >>= λ _.
            fail (message "licensed publication changed; recovery evidence preserved")))
      w

unfoldable pub publish_held : Journal → FileRecord → Option HeldFile → Action CopyWorld (Unit {0})
publish_held journal r none = fail (message "licensed stage conflicts")
publish_held journal r (some stage) = do
  lift (raise_if (not (matches_staged_source r journal)) "licensed stage conflicts")
  same ← same_named_file journal.stage_name stage
  lift (
      raise_if (not same || not (stage.mode == source_mode))
        "licensed stage changed before publication")
  move journal.stage_name (name_of journal.destination_logical)
      "licensed destination changed before publication"
  verify_published stage journal
  write_journal (record journal { status = installed })

-- _publish_stage
unfoldable pub publish_stage : Journal → Action CopyWorld (Unit {0})
publish_stage journal = do
  (r, stage) ← open_record journal.stage_name journal.destination_logical
  publish_held journal r stage

unfoldable pub check_backup :
    Journal → HeldFile → FileRecord → Option HeldFile → Action CopyWorld (Unit {0})
check_backup journal held r none = fail (message "licensed backup recovery evidence is missing")
check_backup journal held r (some moved) =
    if not (record_eq r journal.before) || not (moved.inode == held.inode)
    then (write_journal (record journal { status = recovery_required })
        >> fail (message "licensed backup changed; recovery evidence preserved"))
    else pure tt

-- The destination is moved to the backup's name.
unfoldable pub take_backup : Journal → Action CopyWorld (Unit {0})
take_backup journal = do
  held ← open_regular (name_of journal.destination_logical) "licensed destination"
  same ← same_named_file (name_of journal.destination_logical) held
  lift (raise_if (not same) "licensed destination changed before backup")
  move (name_of journal.destination_logical) journal.backup_name "licensed backup conflicts"
  (r, moved) ← open_record journal.backup_name journal.destination_logical
  check_backup journal held r moved

-- if state.disposition == "replace", behind `_copy_stage`
unfoldable pub back_up : Journal → Action CopyWorld (Unit {0})
back_up journal = do
  (backup, _) ← open_record journal.backup_name journal.destination_logical
  (current, _) ← open_record (name_of journal.destination_logical) journal.destination_logical
  if is_absent backup.state && record_eq current journal.before
      then take_backup journal
      else if not (record_eq backup journal.before)
          || (not (is_absent current.state) && not (matches_source current journal))
      then fail (message "licensed backup or destination conflicts")
      else pure tt

unfoldable pub back_up_if : LicensedDisposition → Journal → Action CopyWorld (Unit {0})
back_up_if replace journal = back_up journal
back_up_if _ journal = pure tt

-- A source that is there with another mode is put aside.
unfoldable pub refuse_mode : Journal → Action CopyWorld (Unit {0})
refuse_mode journal = quarantine_destination journal >>= λ _.
    fail (message "licensed publication mode changed; recovery evidence preserved")

unfoldable pub finish_install : Journal → FileRecord → Action CopyWorld (Unit {0})
finish_install journal current =
    if matches_staged_source current journal
    then mark_installed journal
    else if matches_source current journal
    then refuse_mode journal
    else if not (is_absent current.state)
    then fail (message "licensed destination changed before publication")
    else publish_stage journal

unfoldable pub stage_and_publish :
    List Text → PrivateFileIdentity → Journal → Action CopyWorld (Unit {0})
stage_and_publish tokens identity journal = do
  copy_stage tokens identity journal
  back_up_if journal.disposition journal
  (current, _) ← open_record (name_of journal.destination_logical) journal.destination_logical
  finish_install journal current

-- The destination holds the source: a replacement needs its backup.
unfoldable pub confirm_backup : LicensedDisposition → Journal → Action CopyWorld (Unit {0})
confirm_backup replace journal = do
  (backup, _) ← open_record journal.backup_name journal.destination_logical
  lift (raise_if (not (record_eq backup journal.before)) "licensed backup or destination conflicts")
confirm_backup _ journal = pure tt

unfoldable pub install_as :
    LicensedDisposition
    → List Text
    → PrivateFileIdentity
    → Journal
    → FileRecord
    → Action CopyWorld (Unit {0})
install_as keep tokens identity journal current =
    if not (matches_source current journal)
    then fail (message "licensed destination changed after planning")
    else mark_installed journal
install_as _ tokens identity journal current =
    if matches_staged_source current journal
    then (confirm_backup journal.disposition journal >> mark_installed journal)
    else if matches_source current journal
    then refuse_mode journal
    else stage_and_publish tokens identity journal

unfoldable pub install_open :
    List Text → PrivateFileIdentity → Journal → Action CopyWorld (Unit {0})
install_open tokens identity journal = do
  lift (
      raise_if (status_eq journal.status recovery_required)
        "licensed transaction requires recovery")
  lift (
      raise_if (status_eq journal.status rolled_back)
        "licensed transaction was already rolled back")
  (λ w. (w.parent, w))
  (current, _) ← open_record (name_of journal.destination_logical) journal.destination_logical
  install_as journal.disposition tokens identity journal current

-- except OSError
unfoldable pub as_failure : String → Result (Unit {0}) × CopyWorld → Result (Unit {0}) × CopyWorld
as_failure text (err (file_not_found name), w) = (err (message text), w)
as_failure text outcome = outcome

-- install_threading_copy, with the tokens of `secrets.token_hex(12)`: one for the journal, and those
-- for a partial stage
unfoldable pub install_threading_copy :
    LicensedAction → Text → List Text → Action CopyWorld (Unit {0})
install_threading_copy action token tokens w = as_failure "licensed transaction failed" (
    (do
      identity ← validate_fresh_action action
      journal ← load_or_create_journal action token
      install_open tokens identity journal)
      w)
