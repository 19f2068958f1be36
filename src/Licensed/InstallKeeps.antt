-- ===== src/Licensed/InstallKeeps.antt =====
-- `install_threading_copy` loses no file.
mod Staging
use forza_motorsport_linux.Base.{
  String, Text, codes, ◌&&◌, not, Option, none, some, List, [], ◌∷◌, ◌++◌, map, Error, message,
  file_not_found, about, key_error, recursion_error, Result, ok, err, raise_if, ◌==◌, nat_eq,
  list_eq, option_eq, contains, leb, inl, inr, refl, false, ◌≡◌, ◌≢◌, sym, ap, ◌∙◌, subst, arith,
  Bool-cases,
}
use forza_motorsport_linux.Base.Actions.{
  Action, pure, fail, lift, ◌>>=◌, Leaves, Leaves-ok, Leaves-err, Leaves-bind, Leaves-map,
}
use mathlib.Core.Option.{none-ne-some}
use forza_motorsport_linux.Files.{LeafKind, regular, symlink, find_named}
use forza_motorsport_linux.Licensed.Renaming.{find_named-contains, find_named-left}
use forza_motorsport_linux.Snapshot.{FileRecord}
use forza_motorsport_linux.Licensed.{
  LicensedAction, LicensedDisposition, install, replace, keep, Journal, status_eq, rolled_back,
  recovery_required, HeldFile, CopyWorld, PrivateFileIdentity, max_licensed_size,
  quarantine_destination, move, open_kind, open_found, open_regular, same_named_file, same_opened,
  same_file,
}
use forza_motorsport_linux.Licensed.Install.{
  stem, is_action, is_for, validated, validate_fresh_action, journal_found, load_or_create_journal,
  free_recovery, preserve_partial_stage, add_stage, write_stage, stage_exists, copy_stage,
  mark_installed, verify_published, publish_held, publish_stage, check_backup, take_backup, back_up,
  back_up_if, refuse_mode, finish_install, stage_and_publish, confirm_backup, install_as,
  install_open, as_failure, install_threading_copy,
}
use forza_motorsport_linux.Licensed.Keeping.{
  Kept, Kept-refl, Kept-trans, siblings_renamed-Kept, Keeps, Keeps-pure, Keeps-fail, Keeps-read,
  Keeps-lift, Keeps-if, Keeps-bind, Keeps-move, Keeps-write_journal, Keeps-open_record,
  Keeps-open_regular, Keeps-same_named_file, Keeps-quarantine,
}
use forza_motorsport_linux.Licensed.InstallKeeps.Staging.{copy_stage-Keeps}

mark_installed-Keeps : (journal : Journal) → Keeps (mark_installed journal)
unfolding mark_installed
mark_installed-Keeps journal = Keeps-if _ _ _ (Keeps-pure tt) (Keeps-write_journal _)

after_quarantine :
    (journal : Journal) (e : Error)
    → Keeps (quarantine_destination journal >>= λ _. fail {A = Unit {0}} e)
after_quarantine journal e = Keeps-bind _ _ (Keeps-quarantine journal) λ _. Keeps-fail e

verify_published-Keeps :
    (stage : HeldFile) (journal : Journal) → Keeps (verify_published stage journal)
unfolding verify_published
verify_published-Keeps stage journal = record {
  at = λ w. (Keeps-if _ _ _ (Keeps-pure tt) (after_quarantine journal _)).at w;
}

publish_held-Keeps :
    (journal : Journal) (r : FileRecord) (stage : Option HeldFile)
    → Keeps (publish_held journal r stage)
unfolding publish_held
publish_held-Keeps journal r none = Keeps-fail _
publish_held-Keeps journal r (some stage) = Keeps-bind (lift _) _ (Keeps-lift _) λ _.
    Keeps-bind _ _ (Keeps-same_named_file _ stage) λ same. Keeps-bind (lift _) _ (Keeps-lift _) λ _.
      Keeps-bind _ _ (Keeps-move _ _ _)
        λ _. Keeps-bind _ _ (verify_published-Keeps stage journal) λ _. Keeps-write_journal _

publish_stage-Keeps : (journal : Journal) → Keeps (publish_stage journal)
unfolding publish_stage
publish_stage-Keeps journal =
    Keeps-bind _ _ (Keeps-open_record _ _) λ (r, stage). publish_held-Keeps journal r stage

check_backup-Keeps :
    (journal : Journal) (held : HeldFile) (r : FileRecord) (moved : Option HeldFile)
    → Keeps (check_backup journal held r moved)
unfolding check_backup
check_backup-Keeps journal held r none = Keeps-fail _
check_backup-Keeps journal held r (some moved) =
    Keeps-if _ _ _ (Keeps-bind _ _ (Keeps-write_journal _) λ _. Keeps-fail _) (Keeps-pure tt)

take_backup-Keeps : (journal : Journal) → Keeps (take_backup journal)
unfolding take_backup
take_backup-Keeps journal = Keeps-bind _ _ (Keeps-open_regular _ _) λ held.
    Keeps-bind _ _ (Keeps-same_named_file _ held) λ same. Keeps-bind (lift _) _ (Keeps-lift _) λ _.
      Keeps-bind _ _ (Keeps-move _ _ _) λ _.
        Keeps-bind _ _ (Keeps-open_record _ _) λ (r, moved). check_backup-Keeps journal held r moved

back_up_if-Keeps : (d : LicensedDisposition) (journal : Journal) → Keeps (back_up_if d journal)
unfolding back_up_if back_up
back_up_if-Keeps install journal = Keeps-pure tt
back_up_if-Keeps keep journal = Keeps-pure tt
back_up_if-Keeps replace journal = Keeps-bind _ _ (Keeps-open_record _ _) λ (backup, _).
    Keeps-bind _ _ (Keeps-open_record _ _) λ (current, _).
      Keeps-if _ _ _ (take_backup-Keeps journal) (Keeps-if _ _ _ (Keeps-fail _) (Keeps-pure tt))

finish_install-Keeps :
    (journal : Journal) (current : FileRecord) → Keeps (finish_install journal current)
unfolding finish_install refuse_mode
finish_install-Keeps journal current = Keeps-if _ _ _ (mark_installed-Keeps journal) (
    Keeps-if _ _ _ (after_quarantine journal _)
      (Keeps-if _ _ _ (Keeps-fail _) (publish_stage-Keeps journal)))

stage_and_publish-Keeps :
    (tokens : List Text) (identity : PrivateFileIdentity) (journal : Journal)
    → Keeps (stage_and_publish tokens identity journal)
unfolding stage_and_publish
stage_and_publish-Keeps tokens identity journal =
    Keeps-bind _ _ (copy_stage-Keeps tokens identity journal) λ _.
      Keeps-bind _ _ (back_up_if-Keeps journal.disposition journal) λ _.
        Keeps-bind _ _ (Keeps-open_record _ _) λ (current, _). finish_install-Keeps journal current

confirm_backup-Keeps :
    (d : LicensedDisposition) (journal : Journal) → Keeps (confirm_backup d journal)
unfolding confirm_backup
confirm_backup-Keeps install journal = Keeps-pure tt
confirm_backup-Keeps keep journal = Keeps-pure tt
confirm_backup-Keeps replace journal =
    Keeps-bind _ _ (Keeps-open_record _ _) λ (backup, _). Keeps-read _

install_as-Keeps :
    (d : LicensedDisposition) (tokens : List Text) (identity : PrivateFileIdentity)
    (journal : Journal) (current : FileRecord)
    → Keeps (install_as d tokens identity journal current)
unfolding install_as refuse_mode
install_as-Keeps keep tokens identity journal current =
    Keeps-if _ _ _ (Keeps-fail _) (mark_installed-Keeps journal)
install_as-Keeps install tokens identity journal current =
    Keeps-if _ _ _
      (Keeps-bind _ _ (confirm_backup-Keeps journal.disposition journal)
        λ _. mark_installed-Keeps journal)
      (Keeps-if _ _ _ (after_quarantine journal _)
        (stage_and_publish-Keeps tokens identity journal))
install_as-Keeps replace tokens identity journal current =
    Keeps-if _ _ _
      (Keeps-bind _ _ (confirm_backup-Keeps journal.disposition journal)
        λ _. mark_installed-Keeps journal)
      (Keeps-if _ _ _ (after_quarantine journal _)
        (stage_and_publish-Keeps tokens identity journal))

install_open-Keeps :
    (tokens : List Text) (identity : PrivateFileIdentity) (journal : Journal)
    → Keeps (install_open tokens identity journal)
unfolding install_open
install_open-Keeps tokens identity journal =
    let needed =
      raise_if (status_eq journal.status recovery_required)
        "licensed transaction requires recovery" in
    let undone =
      raise_if (status_eq journal.status rolled_back)
        "licensed transaction was already rolled back" in
    Keeps-bind (lift needed) _ (Keeps-lift needed) λ _.
      Keeps-bind (lift undone) _ (Keeps-lift undone) λ _.
        Keeps-bind (λ w. (w.parent, w)) _ (Keeps-read (λ w. w.parent))
          λ _.
            Keeps-bind _ _ (Keeps-open_record _ _)
              λ (current, _). install_as-Keeps journal.disposition tokens identity journal current

validate-Keeps : (action : LicensedAction) → Keeps (validate_fresh_action action)
unfolding validate_fresh_action
validate-Keeps action =
    let valid = raise_if (not (is_action action)) "licensed action is invalid" in
    Keeps-bind (lift valid) _ (Keeps-lift valid) λ _.
      Keeps-bind _ _ (Keeps-read (λ w. validated w.source)) λ identity.
        let same =
          raise_if
            (not (identity.size == action.source_size && identity.sha256 == action.source_sha256))
            "licensed input changed after planning" in
        Keeps-bind (lift same) _ (Keeps-lift same) λ _. Keeps-pure identity

journal_found-Keeps :
    (action : LicensedAction) (token : Text) (found : Option (Result Journal))
    → Keeps (journal_found action token found)
unfolding journal_found
journal_found-Keeps action token none = Keeps-bind _ _ (Keeps-write_journal _) λ _. Keeps-pure _
journal_found-Keeps action token (some loaded) =
    Keeps-bind (lift loaded) _ (Keeps-lift loaded) λ journal.
      let same =
        raise_if (not (is_for action journal)) "licensed action does not match private journal" in
      Keeps-bind (lift same) _ (Keeps-lift same) λ _. Keeps-pure journal

load_or_create-Keeps :
    (action : LicensedAction) (token : Text) → Keeps (load_or_create_journal action token)
unfolding load_or_create_journal
load_or_create-Keeps action token = record {
  at = λ w. (journal_found-Keeps action token w.journal).at w;
}

pub as_failure-Keeps :
    (text : String) (m : Action CopyWorld (Unit {0})) → Keeps m → Keeps (λ w. as_failure text (m w))
unfolding as_failure
as_failure-Keeps text m h = record { at = λ w. failed w (m w) (h.at w) }
  where
    failed :
        (w : CopyWorld) (o : Result (Unit {0}) × CopyWorld)
        → Leaves (λ a v. Kept w v) (λ e v. Kept w v) o
        → Leaves (λ a v. Kept w v) (λ e v. Kept w v) (as_failure text o)
    failed w (ok a, v) l = l
    failed w (err (message t), v) l = l
    failed w (err (about t d), v) l = l
    failed w (err (key_error k), v) l = l
    failed w (err recursion_error, v) l = l
    failed w (err (file_not_found n), v) l = Leaves-err (message text) v (l.on_err _ v refl)

install-Keeps :
    (action : LicensedAction) (token : Text) (tokens : List Text)
    → Keeps (install_threading_copy action token tokens)
unfolding install_threading_copy
install-Keeps action token tokens = as_failure-Keeps "licensed transaction failed" _ (
    Keeps-bind _ _ (validate-Keeps action) λ identity.
      Keeps-bind _ _ (load_or_create-Keeps action token)
        λ journal. install_open-Keeps tokens identity journal)

-- Whether the installation returns or raises, every file that was found under a name is found
-- afterwards with its contents, if under another name.
pub install_threading_copy-Kept :
    (action : LicensedAction) (token : Text) (tokens : List Text) (w : CopyWorld)
    → Leaves (λ _ v. Kept w v) (λ _ v. Kept w v) (install_threading_copy action token tokens w)
install_threading_copy-Kept action token tokens = (install-Keeps action token tokens).at
