-- ===== src/Licensed/RollbackKeeps.antt =====
-- `rollback_threading_copy` loses no file.
use forza_motorsport_linux.Base.{Text, ◌&&◌, Option, none, some, Error, nat_eq, list_eq, option_eq}
use forza_motorsport_linux.Base.Actions.{
  Action, pure, lift, try_then, ◌>>=◌, ◌>>◌, Leaves, Leaves-ok, Leaves-map, Leaves-handle,
}
use forza_motorsport_linux.Snapshot.{FileRecord}
use forza_motorsport_linux.Licensed.{
  name_of, is_absent, record_eq, LicensedDisposition, install, replace, keep, Journal, HeldFile,
  CopyWorld,
}
use forza_motorsport_linux.Licensed.InstallKeeps.{as_failure-Keeps}
use forza_motorsport_linux.Licensed.Rollback.{
  load_journal, check_moved, move_bound, mark_rolled_back, keep_evidence, settle_other,
  restore_failed, restore_backup, restore, put_aside, undo, rollback_open, rollback_threading_copy,
}
use forza_motorsport_linux.Licensed.Keeping.{
  Kept, Kept-trans, Keeps, Keeps-pure, Keeps-fail, Keeps-read, Keeps-lift, Keeps-if, Keeps-bind,
  Keeps-move, Keeps-write_journal, Keeps-open_record, Keeps-open_regular, Keeps-same_named_file,
  Keeps-quarantine,
}

check_moved-Keeps :
    (expected : FileRecord) (held : HeldFile) (r : FileRecord) (moved : Option HeldFile)
    → Keeps (check_moved expected held r moved)
unfolding check_moved
check_moved-Keeps expected held r none = Keeps-fail _
check_moved-Keeps expected held r (some moved) = Keeps-read _

move_bound-Keeps :
    (source destination : Text) (expected : FileRecord) (logical : Text)
    → Keeps (move_bound source destination expected logical)
unfolding move_bound
move_bound-Keeps source destination expected logical =
    Keeps-bind _ _ (Keeps-open_regular _ _) λ held.
      Keeps-bind _ _ (Keeps-same_named_file _ held) λ same.
        Keeps-bind (lift _) _ (Keeps-lift _) λ _. Keeps-bind _ _ (Keeps-move _ _ _) λ _.
          Keeps-bind _ _ (Keeps-open_record _ _)
            λ (r, moved). check_moved-Keeps expected held r moved

mark_rolled_back-Keeps : (journal : Journal) → Keeps (mark_rolled_back journal)
unfolding mark_rolled_back
mark_rolled_back-Keeps journal = Keeps-write_journal _

keep_evidence-Keeps : (journal : Journal) → Keeps (keep_evidence journal)
unfolding keep_evidence
keep_evidence-Keeps journal = Keeps-bind _ _ (Keeps-quarantine journal) λ _. Keeps-fail _

settle_other-Keeps :
    (d : LicensedDisposition) (journal : Journal) (current : FileRecord)
    → Keeps (settle_other d journal current)
unfolding settle_other
settle_other-Keeps install journal current = keep_evidence-Keeps journal
settle_other-Keeps keep journal current = keep_evidence-Keeps journal
settle_other-Keeps replace journal current =
    Keeps-if _ _ _
      (Keeps-bind _ _ (Keeps-open_record _ _)
        λ found. Keeps-if _ _ _ (mark_rolled_back-Keeps journal) (keep_evidence-Keeps journal))
      (keep_evidence-Keeps journal)

restore_failed-Keeps : (journal : Journal) (error : Error) → Keeps (restore_failed journal error)
unfolding restore_failed
restore_failed-Keeps journal error = Keeps-bind _ _ (Keeps-open_record _ _) λ (restored, _).
    Keeps-bind _ _
      (Keeps-if _ _ _ (Keeps-bind _ _ (Keeps-quarantine journal) λ _. Keeps-pure tt)
        (Keeps-write_journal _))
      λ _. Keeps-fail _

Keeps-try :
    (m : Action CopyWorld (Unit {0})) (caught : Error → Action CopyWorld (Unit {0}))
    → Keeps m
    → ((e : Error) → Keeps (caught e))
    → Keeps (try_then m caught (λ _. pure tt))
Keeps-try m caught h k = record {
  at = λ w.
      Leaves-handle caught (λ _. pure tt) (m w) (h.at w) (λ a v kept. Leaves-ok tt v kept)
        (λ e v kept.
          Leaves-map (caught e v) ((k e).at v) (λ b u. Kept-trans w v u kept)
            (λ d u. Kept-trans w v u kept))
        (λ e v _ kept. kept);
}

restore_backup-Keeps : (journal : Journal) → Keeps (restore_backup journal)
unfolding restore_backup
restore_backup-Keeps journal =
    Keeps-try
      (move_bound journal.backup_name (name_of journal.destination_logical) journal.before
        journal.destination_logical)
      (restore_failed journal) (move_bound-Keeps _ _ _ _) λ e. restore_failed-Keeps journal e

restore-Keeps :
    (d : LicensedDisposition) (journal : Journal) (current : FileRecord)
    → Keeps (restore d journal current)
unfolding restore
restore-Keeps install journal current = Keeps-lift _
restore-Keeps keep journal current = Keeps-lift _
restore-Keeps replace journal current = Keeps-bind _ _ (Keeps-open_record _ _) λ (backup, _).
    let whole = is_absent current.state && record_eq backup journal.before in
    Keeps-if whole (restore_backup journal) _ (restore_backup-Keeps journal) (Keeps-lift _)

put_aside-Keeps : (journal : Journal) (current : FileRecord) → Keeps (put_aside journal current)
unfolding put_aside
put_aside-Keeps journal current =
    Keeps-if _ _ _ (Keeps-bind _ _ (move_bound-Keeps _ _ _ _) λ _. Keeps-pure _)
      (Keeps-pure current)

undo_moves :
    (journal : Journal) (current : FileRecord)
    → Keeps (
        put_aside journal current >>= λ aside.
        restore journal.disposition journal aside >> mark_rolled_back journal)
undo_moves journal current = Keeps-bind _ _ (put_aside-Keeps journal current) λ aside.
    Keeps-bind _ _ (restore-Keeps journal.disposition journal aside)
      λ _. mark_rolled_back-Keeps journal

undo-Keeps :
    (d : LicensedDisposition) (journal : Journal) (current : FileRecord)
    → Keeps (undo d journal current)
unfolding undo
undo-Keeps keep journal current = Keeps-if _ _ _ (Keeps-fail _) (mark_rolled_back-Keeps journal)
undo-Keeps install journal current =
    Keeps-if _ _ _ (settle_other-Keeps journal.disposition journal current)
      (undo_moves journal current)
undo-Keeps replace journal current =
    Keeps-if _ _ _ (settle_other-Keeps journal.disposition journal current)
      (undo_moves journal current)

rollback_open-Keeps : (journal : Journal) → Keeps (rollback_open journal)
unfolding rollback_open
rollback_open-Keeps journal = Keeps-bind _ _ (Keeps-read (λ w. w.parent)) λ _.
    Keeps-bind _ _ (Keeps-open_record _ _)
      λ (current, _). undo-Keeps journal.disposition journal current

rollback-Keeps : Keeps rollback_threading_copy
unfolding rollback_threading_copy
rollback-Keeps = as_failure-Keeps "licensed rollback failed" _ (
    Keeps-bind _ _ (Keeps-read (λ w. load_journal w.journal))
      λ journal. Keeps-if _ _ _ (Keeps-pure tt) (rollback_open-Keeps journal))

-- Whether the rollback returns or raises, every file that was found under a name is found afterwards
-- with its contents, if under another name.
pub rollback_threading_copy-Kept :
    (w : CopyWorld) → Leaves (λ _ v. Kept w v) (λ _ v. Kept w v) (rollback_threading_copy w)
rollback_threading_copy-Kept = rollback-Keeps.at
