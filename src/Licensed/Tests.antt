-- ===== src/Licensed/Tests.antt =====
-- Runs of the transaction on a small directory, and its theorems there.
use forza_motorsport_linux.Base.{
  ◌≡◌, refl, ℕ, Text, codes, true, false, contains, nat_eq, list_eq, none, some, List, [], ◌∷◌, map,
  ok, err, message, equality, is_hex_of_length, starts_with, split, copies,
}
use forza_motorsport_linux.Base.Actions.{Leaves}
use forza_motorsport_linux.Files.{regular, symlink, find_named}
use forza_motorsport_linux.Snapshot.{FileRecord, absent}
use forza_motorsport_linux.Snapshot as Snapshots
use forza_motorsport_linux.Licensed.{
  LicensedAction, replace, install, rolled_back, HeldFile, CopyWorld, disposition_eq, status_eq,
  is_regular, is_absent, record_eq, last_part, name_of, absent_record, record_fd, open_kind,
  open_found, open_regular, record_opened, open_record, same_kind, same_file, same_opened,
  same_named_file, siblings_without, siblings_moved, siblings_renamed, move, write_journal,
  matches_source, matches_staged_source, check_recovered, quarantine_held, quarantine_current,
  quarantine_destination,
}
use forza_motorsport_linux.Licensed.Install.{
  is_absolute_path, is_record, before_matches, fits, is_action, validated, validate_fresh_action,
  stem, new_journal, is_for, journal_found, load_or_create_journal, free_recovery,
  preserve_partial_stage, stage_file, add_stage, write_stage, stage_exists, copy_stage,
  mark_installed, is_published, verify_published, publish_held, publish_stage, check_backup,
  take_backup, back_up, back_up_if, refuse_mode, finish_install, stage_and_publish, confirm_backup,
  install_as, install_open, as_failure, install_threading_copy,
}
use forza_motorsport_linux.Licensed.Rollback.{
  check_moved, move_bound, mark_rolled_back, source_record, keep_evidence, settle_other,
  restore_failed, restore_backup, restore, put_aside, undo, rollback_open, load_journal,
  rollback_threading_copy,
}
use forza_motorsport_linux.Licensed.Keeping.{Kept}
use forza_motorsport_linux.Licensed.InstallKeeps.{install_threading_copy-Kept}
use forza_motorsport_linux.Licensed.RollbackKeeps.{rollback_threading_copy-Kept}
use forza_motorsport_linux.Licensed.Fresh.{
  staged_file, fresh_world, installed_journal, install_threading_copy_fresh,
}
use forza_motorsport_linux.Licensed.Undone.{rollback_threading_copy_fresh}

unfoldable licensed_code : Unit {0}
unfolding equality is_hex_of_length starts_with split find_named disposition_eq status_eq is_regular
    is_absent record_eq last_part name_of absent_record record_fd open_kind open_found open_regular
    record_opened open_record same_kind same_file same_opened same_named_file siblings_without
    siblings_moved siblings_renamed move write_journal matches_source matches_staged_source
    check_recovered quarantine_held quarantine_current quarantine_destination is_absolute_path
    is_record before_matches fits is_action validated validate_fresh_action stem new_journal is_for
    journal_found load_or_create_journal free_recovery preserve_partial_stage stage_file add_stage
    write_stage stage_exists copy_stage mark_installed is_published verify_published publish_held
    publish_stage check_backup take_backup back_up back_up_if refuse_mode finish_install
    stage_and_publish confirm_backup install_as install_open as_failure install_threading_copy
    check_moved move_bound mark_rolled_back source_record keep_evidence settle_other restore_failed
    restore_backup restore put_aside undo rollback_open load_journal rollback_threading_copy
licensed_code = tt

abbrev old_digest : Text
old_digest = copies 64 b'a'

abbrev new_digest : Text
new_digest = copies 64 b'b'

abbrev path : Text
path = codes "/steam/x.dll"

abbrev name : Text
name = codes "x.dll"

abbrev old_file : HeldFile
old_file = record {
  kind = regular;
  owned = true;
  inode = 7;
  mode = 420;
  size = 5;
  sha256 = old_digest;
}

abbrev old_record : FileRecord
old_record = record {
  logical_path = path;
  state = Snapshots.regular;
  mode = some 420;
  size = some 5;
  sha256 = some old_digest;
  private = true;
}

abbrev action : LicensedAction
action = record {
  destination_logical = path;
  source_size = 9;
  source_sha256 = new_digest;
  before = old_record;
  disposition = replace;
  source = codes "/in/x.dll";
  destination = path;
}

abbrev token : Text
token = codes "0123"

abbrev world : CopyWorld
world = record {
  siblings = (name, old_file) ∷ [];
  parent = ok tt;
  source = ok (record { size = 9; sha256 = new_digest });
  journal = none;
  next_inode = 8;
  can_rename = true;
}

-- the world behind the installation
abbrev done : CopyWorld
done = (install_threading_copy action token [] world).1

abbrev places : CopyWorld → List (Text × ℕ)
places w = map (λ (n, held). (n, held.inode)) w.siblings

-- The old file lies under the backup's name, and the new one at the destination.
installs :
    let (r, w) = install_threading_copy action token [] world in
    (r ≡ ok tt) × (places w ≡ (name, 8) ∷ (codes ".x.dll.0123.licensed-backup", 7) ∷ [])
unfolding licensed_code
installs = (refl, refl)

restores :
    let (r, w) = rollback_threading_copy done in
    (r ≡ ok tt) × (places w ≡ (name, 7) ∷ (codes ".x.dll.0123.rollback-held", 8) ∷ [])
unfolding licensed_code
restores = (refl, refl)

-- A link at the destination is refused.
refuses_link :
    (install_threading_copy action token []
      (record world { siblings = (name, record old_file { kind = symlink }) ∷ [] })).0
    ≡ err (message "symlink refused for licensed destination")
unfolding licensed_code
refuses_link = refl

install_threading_copy-Kept_example :
    Leaves
      (λ _ v. Kept world v)
      (λ _ v. Kept world v)
      (install_threading_copy action token [] world)
install_threading_copy-Kept_example = install_threading_copy-Kept action token [] world

rollback_threading_copy-Kept_example :
    Leaves (λ _ v. Kept done v) (λ _ v. Kept done v) (rollback_threading_copy done)
rollback_threading_copy-Kept_example = rollback_threading_copy-Kept done

abbrev first_action : LicensedAction
first_action = record action { before = absent_record path; disposition = install }

abbrev other_files : List (Text × HeldFile)
other_files = (codes "y.dll", old_file) ∷ []

first_action_valid : is_action first_action ≡ true
unfolding licensed_code
first_action_valid = refl

abbrev other_names : List Text
other_names = map (λ s. s.0) other_files

stage_free : contains other_names (new_journal first_action token).stage_name ≡ false
unfolding licensed_code
stage_free = refl

name_free : contains other_names (name_of path) ≡ false
unfolding licensed_code
name_free = refl

rollback_free : contains other_names (new_journal first_action token).rollback_name ≡ false
unfolding licensed_code
rollback_free = refl

install_threading_copy_fresh_example :
    install_threading_copy first_action token [] (fresh_world first_action other_files 8) ≡ (
      ok tt,
      record (fresh_world first_action other_files 8) {
        siblings = (name_of path, staged_file (new_journal first_action token) 8) ∷ other_files;
        journal = some (ok (installed_journal first_action token));
        next_inode = 9;
      },
    )
install_threading_copy_fresh_example =
    install_threading_copy_fresh first_action token [] other_files 8 first_action_valid refl
      stage_free name_free

rollback_threading_copy_fresh_example :
    rollback_threading_copy
      (install_threading_copy first_action token [] (fresh_world first_action other_files 8)).1
    ≡ (
      ok tt,
      record (fresh_world first_action other_files 8) {
        siblings =
            (
              (new_journal first_action token).rollback_name,
              staged_file (new_journal first_action token) 8,
            )
            ∷ other_files;
        journal = some (ok (record (new_journal first_action token) { status = rolled_back }));
        next_inode = 9;
      },
    )
rollback_threading_copy_fresh_example =
    rollback_threading_copy_fresh first_action token [] other_files 8 first_action_valid refl
      stage_free name_free rollback_free
