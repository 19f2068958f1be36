-- ===== src/Licensed/Rollback.antt =====
-- `_move_bound` and `rollback_threading_copy`.
use forza_motorsport_linux.Base.{
  Text, codes, true, ◌&&◌, ◌||◌, not, Option, none, some, Error, message, file_not_found, Result,
  err, raise_if, if◌then◌else◌,
}
use forza_motorsport_linux.Base.Actions.{Action, pure, fail, lift, try_then, ◌>>=◌, ◌>>◌}
use forza_motorsport_linux.Snapshot.{FileRecord, absent}
use forza_motorsport_linux.Snapshot as Snapshots
use forza_motorsport_linux.Licensed.{
  LicensedDisposition, replace, keep, Journal, rolled_back, recovery_required, HeldFile, CopyWorld,
  source_mode, status_eq, is_regular, is_absent, record_eq, name_of, absent_record, record_fd,
  open_regular, open_record, same_file, same_named_file, move, write_journal, matches_source,
  quarantine_destination,
}
use forza_motorsport_linux.Licensed.Install.{as_failure}

unfoldable pub check_moved :
    FileRecord → HeldFile → FileRecord → Option HeldFile → Action CopyWorld (Unit {0})
check_moved expected held r none = fail (message "licensed rollback evidence is missing")
check_moved expected held r (some moved) = lift (
    raise_if (not (record_eq r expected) || not (same_file moved held))
      "licensed rollback evidence changed")

-- _move_bound
unfoldable pub move_bound : Text → Text → FileRecord → Text → Action CopyWorld (Unit {0})
move_bound source destination expected logical = do
  held ← open_regular source "licensed transaction file"
  same ← same_named_file source held
  lift (
      raise_if (not (record_eq (record_fd held logical) expected) || not same)
        "licensed transaction file changed before rollback")
  move source destination "licensed rollback destination conflicts"
  (r, moved) ← open_record destination logical
  check_moved expected held r moved

unfoldable pub mark_rolled_back : Journal → Action CopyWorld (Unit {0})
mark_rolled_back journal = write_journal (record journal { status = rolled_back })

-- the record of a destination that the transaction has installed
unfoldable pub source_record : Journal → FileRecord
source_record journal = record {
  logical_path = journal.destination_logical;
  state = Snapshots.regular;
  mode = some source_mode;
  size = some journal.source_size;
  sha256 = some journal.source_sha256;
  private = true;
}

unfoldable pub keep_evidence : Journal → Action CopyWorld (Unit {0})
keep_evidence journal = quarantine_destination journal >>= λ _.
    fail (message "licensed destination changed; recovery evidence preserved")

-- A destination that is neither absent nor the source.
unfoldable pub settle_other :
    LicensedDisposition → Journal → FileRecord → Action CopyWorld (Unit {0})
settle_other replace journal current =
    if record_eq current journal.before
    then (open_record journal.backup_name journal.destination_logical >>= λ found.
        if is_absent found.0.state then mark_rolled_back journal else keep_evidence journal)
    else keep_evidence journal
settle_other _ journal current = keep_evidence journal

-- except BootstrapError, around the move of the backup
unfoldable pub restore_failed : Journal → Error → Action CopyWorld (Unit {0})
restore_failed journal error = do
  (restored, _) ← open_record (name_of journal.destination_logical) journal.destination_logical
  if is_regular restored.state
      then (quarantine_destination journal >>= λ _. pure tt)
      else write_journal (record journal { status = recovery_required })
  fail (message "licensed restore changed; recovery evidence preserved")

unfoldable pub restore_backup : Journal → Action CopyWorld (Unit {0})
restore_backup journal =
    try_then
      (move_bound journal.backup_name (name_of journal.destination_logical) journal.before
        journal.destination_logical)
      (restore_failed journal) λ _. pure tt

unfoldable pub restore : LicensedDisposition → Journal → FileRecord → Action CopyWorld (Unit {0})
restore replace journal current = do
  (backup, _) ← open_record journal.backup_name journal.destination_logical
  if is_absent current.state && record_eq backup journal.before
      then restore_backup journal
      else lift
          (raise_if (not (record_eq current journal.before)) "licensed rollback requires recovery")
restore _ journal current =
    lift (raise_if (not (is_absent current.state)) "licensed rollback requires recovery")

-- The file that was installed is put aside, and the destination is absent.
unfoldable pub put_aside : Journal → FileRecord → Action CopyWorld FileRecord
put_aside journal current =
    if matches_source current journal
    then (move_bound (name_of journal.destination_logical) journal.rollback_name
          (source_record journal) journal.destination_logical
        >>= λ _. pure (absent_record journal.destination_logical))
    else pure current

unfoldable pub undo : LicensedDisposition → Journal → FileRecord → Action CopyWorld (Unit {0})
undo keep journal current =
    if not (matches_source current journal)
    then fail (message "licensed no-op destination changed")
    else mark_rolled_back journal
undo _ journal current =
    if is_regular current.state && not (matches_source current journal)
    then settle_other journal.disposition journal current
    else (do
      aside ← put_aside journal current
      restore journal.disposition journal aside
      mark_rolled_back journal)

unfoldable pub rollback_open : Journal → Action CopyWorld (Unit {0})
rollback_open journal = do
  (λ w. (w.parent, w))
  (current, _) ← open_record (name_of journal.destination_logical) journal.destination_logical
  undo journal.disposition journal current

-- read_private_json of the journal, and _journal_from_value
unfoldable pub load_journal : Option (Result Journal) → Result Journal
load_journal none = err (file_not_found (codes "licensed.json"))
load_journal (some loaded) = loaded

-- rollback_threading_copy
unfoldable pub rollback_threading_copy : Action CopyWorld (Unit {0})
rollback_threading_copy w = as_failure "licensed rollback failed" (
    (do
      journal ← λ v. (load_journal v.journal, v)
      if status_eq journal.status rolled_back then pure tt else rollback_open journal)
      w)
