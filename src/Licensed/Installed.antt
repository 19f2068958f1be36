-- ===== src/Licensed/Installed.antt =====
-- What `install_threading_copy` leaves when it returns, from the opening of the destination on.
mod Conditions
unfoldable pub use Conditions.*
use forza_motorsport_linux.Base.{
  ℕ, String, Text, codes, Bool, true, false, ◌&&◌, ◌||◌, not, Option, none, some, List, [], ◌∷◌,
  ◌++◌, map, Error, message, file_not_found, about, key_error, recursion_error, Result, ok, err,
  raise_if, refuse_if-ok, ◌==◌, ==_iff, nat_eq, list_eq, option_eq, contains, leb, inl, inr, ◌⊎◌,
  ◌≡◌, ◌≢◌, refl, sym, ap, subst, ◌∙◌, arith, if◌then◌else◌, Bool-cases, Result-cases,
}
use forza_motorsport_linux.Base.Actions.{
  Action, pure, fail, lift, continue_with, ◌>>=◌, ◌>>◌, Leaves, Leaves-ok, Leaves-err, Leaves-bind,
  Leaves-map,
}
use forza_motorsport_linux.Files.{find_named}
use forza_motorsport_linux.Snapshot.{FileRecord}
use forza_motorsport_linux.Licensed.{
  LicensedAction, LicensedDisposition, install, replace, keep, Journal, JournalStatus, planned,
  installed, rolled_back, recovery_required, status_eq, HeldFile, CopyWorld, PrivateFileIdentity,
  quarantine_destination, move, siblings_renamed, name_of, record_opened, open_found, open_record,
  open_regular, same_named_file, same_opened, source_mode, write_journal, matches_source,
  matches_staged_source, record_eq, is_absent,
}
use forza_motorsport_linux.Licensed.Install.{
  copy_stage, mark_installed, is_published, verify_published, publish_held, publish_stage,
  check_backup, take_backup, back_up, back_up_if, refuse_mode, finish_install, stage_and_publish,
  confirm_backup, install_as, install_open,
}

publish_stage-IsInstalled :
    (j : Journal) (w : CopyWorld)
    → AreApart j
    → HasBackup j.disposition j w.siblings
    → Leaves (λ _. IsInstalled j) Any (publish_stage j w)
unfolding publish_stage open_record
publish_stage-IsInstalled j w a b =
    lift_then (record_at j.stage_name j.destination_logical w.siblings) _ w
      λ (r, stage) _. publish_held-IsInstalled j r stage w a b

finish_install-IsInstalled :
    (j : Journal) (r : FileRecord) (f : Option HeldFile) (w : CopyWorld)
    → AreApart j
    → record_at (name_of j.destination_logical) j.destination_logical w.siblings ≡ ok (r, f)
    → HasBackup j.disposition j w.siblings
    → Leaves (λ _. IsInstalled j) Any (finish_install j r w)
unfolding finish_install refuse_mode
finish_install-IsInstalled j r f w a e b =
    if_then (matches_staged_source r j) _ _ w
      (λ y. mark_installed-IsInstalled j w (r, f, e, matches_staged-source r j y) b)
      (λ _.
        if_then (matches_source r j) _ _ w
          (λ _.
            raises (quarantine_destination j)
              (message "licensed publication mode changed; recovery evidence preserved") w)
          (λ _.
            if_then (not (is_absent r.state)) _ _ w (λ _. Leaves-err _ w tt)
              (λ _. publish_stage-IsInstalled j w a b)))

check_backup-HasBackup :
    (j : Journal) (held : HeldFile) (r : FileRecord) (f : Option HeldFile) (w : CopyWorld)
    → record_at j.backup_name j.destination_logical w.siblings ≡ ok (r, f)
    → Leaves (λ _ v. HasBackup replace j v.siblings) Any (check_backup j held r f w)
unfolding check_backup
check_backup-HasBackup j held r none w e = Leaves-err _ w tt
check_backup-HasBackup j held r (some moved) w e =
    if_then (not (record_eq r j.before) || not (moved.inode == held.inode)) _ _ w
      (λ _. raises (write_journal (record j { status = recovery_required })) _ w)
      (λ n. Leaves-ok tt w (r, some moved, e, ground arith))

take_backup-HasBackup :
    (j : Journal) (w : CopyWorld)
    → Leaves (λ _ v. HasBackup replace j v.siblings) Any (take_backup j w)
unfolding take_backup open_record
take_backup-HasBackup j w =
    let name = name_of j.destination_logical in
    any_then (open_regular name "licensed destination" w) _ λ held v.
      any_then (same_named_file name held v) _ λ same u.
        any_then (lift (raise_if (not same) "licensed destination changed before backup") u) _
          λ _ t. any_then (move name j.backup_name "licensed backup conflicts" t) _ λ _ s.
            lift_then (record_at j.backup_name j.destination_logical s.siblings) _ s
              λ (r, f) e. check_backup-HasBackup j held r f s e

back_up-HasBackup :
    (j : Journal) (w : CopyWorld) → Leaves (λ _ v. HasBackup replace j v.siblings) Any (back_up j w)
unfolding back_up open_record
back_up-HasBackup j w =
    lift_then (record_at j.backup_name j.destination_logical w.siblings) _ w λ (r, f) e.
      lift_then (record_at (name_of j.destination_logical) j.destination_logical w.siblings) _ w
        λ (current, _) _.
          if_then (is_absent r.state && record_eq current j.before) _ _ w
            (λ _. take_backup-HasBackup j w)
            (λ _.
              if_then
                (not (record_eq r j.before)
                  || (not (is_absent current.state) && not (matches_source current j)))
                _ _ w (λ _. Leaves-err _ w tt) (λ n. Leaves-ok tt w (r, f, e, ground arith)))

back_up_if-HasBackup :
    (d : LicensedDisposition) (j : Journal) (w : CopyWorld)
    → Leaves (λ _ v. HasBackup d j v.siblings) Any (back_up_if d j w)
unfolding back_up_if
back_up_if-HasBackup install j w = Leaves-ok tt w tt
back_up_if-HasBackup keep j w = Leaves-ok tt w tt
back_up_if-HasBackup replace j w = back_up-HasBackup j w

stage_and_publish-IsInstalled :
    (tokens : List Text) (identity : PrivateFileIdentity) (j : Journal) (w : CopyWorld)
    → AreApart j
    → Leaves (λ _. IsInstalled j) Any (stage_and_publish tokens identity j w)
unfolding stage_and_publish open_record
stage_and_publish-IsInstalled tokens identity j w a =
    any_then (copy_stage tokens identity j w) _ λ _ v.
      Leaves-bind _ _ (back_up_if-HasBackup j.disposition j v) λ _ u b.
        lift_then (record_at (name_of j.destination_logical) j.destination_logical u.siblings) _ u
          λ (r, f) e. finish_install-IsInstalled j r f u a e b

confirm_backup-HasBackup :
    (d : LicensedDisposition) (j : Journal) (w : CopyWorld)
    → Leaves (λ _ v. (v ≡ w) × HasBackup d j w.siblings) Any (confirm_backup d j w)
unfolding confirm_backup open_record
confirm_backup-HasBackup install j w = Leaves-ok tt w (refl, tt)
confirm_backup-HasBackup keep j w = Leaves-ok tt w (refl, tt)
confirm_backup-HasBackup replace j w =
    lift_then (record_at j.backup_name j.destination_logical w.siblings) _ w λ (r, f) e.
      elim (Bool-cases (record_eq r j.before)) [
        | inl y ↦ rw y (Leaves-ok tt w (refl, (r, f, e, y)))
        | inr n ↦ rw n (Leaves-err _ w tt)
      ]

matched-IsInstalled :
    (tokens : List Text) (identity : PrivateFileIdentity) (j : Journal) (r : FileRecord)
    (f : Option HeldFile) (w : CopyWorld)
    → AreApart j
    → record_at (name_of j.destination_logical) j.destination_logical w.siblings ≡ ok (r, f)
    → Leaves
        (λ _. IsInstalled j)
        Any
        ((if matches_staged_source r j
            then (confirm_backup j.disposition j >> mark_installed j)
            else if matches_source r j
            then refuse_mode j
            else stage_and_publish tokens identity j)
          w)
unfolding refuse_mode
matched-IsInstalled tokens identity j r f w a e =
    if_then (matches_staged_source r j) _ _ w
      (λ y. Leaves-bind _ _ (confirm_backup-HasBackup j.disposition j w) λ _ v (g, b).
        subst (λ u. Leaves (λ _. IsInstalled j) Any (mark_installed j u)) (sym g)
          (mark_installed-IsInstalled j w (r, f, e, matches_staged-source r j y) b))
      (λ _.
        if_then (matches_source r j) _ _ w
          (λ _.
            raises (quarantine_destination j)
              (message "licensed publication mode changed; recovery evidence preserved") w)
          (λ _. stage_and_publish-IsInstalled tokens identity j w a))

install_as-IsInstalled :
    (d : LicensedDisposition) (tokens : List Text) (identity : PrivateFileIdentity) (j : Journal)
    (r : FileRecord) (f : Option HeldFile) (w : CopyWorld)
    → j.disposition ≡ d
    → AreApart j
    → record_at (name_of j.destination_logical) j.destination_logical w.siblings ≡ ok (r, f)
    → Leaves (λ _. IsInstalled j) Any (install_as d tokens identity j r w)
unfolding install_as
install_as-IsInstalled install tokens identity j r f w s a e =
    matched-IsInstalled tokens identity j r f w a e
install_as-IsInstalled replace tokens identity j r f w s a e =
    matched-IsInstalled tokens identity j r f w a e
install_as-IsInstalled keep tokens identity j r f w s a e = elim (Bool-cases (matches_source r j)) [
  | inl y ↦ rw y (mark_installed-IsInstalled j w (r, f, e, y) (rw s tt))
  | inr n ↦ rw n (Leaves-err _ w tt)
]

pub install_open-IsInstalled :
    (tokens : List Text) (identity : PrivateFileIdentity) (j : Journal) (w : CopyWorld)
    → AreApart j
    → Leaves (λ _. IsInstalled j) Any (install_open tokens identity j w)
unfolding install_open open_record
install_open-IsInstalled tokens identity j w a =
    let needed =
      raise_if (status_eq j.status recovery_required) "licensed transaction requires recovery" in
    let undone =
      raise_if (status_eq j.status rolled_back) "licensed transaction was already rolled back" in
    any_then (lift needed w) _ λ _ v. any_then (lift undone v) _ λ _ u.
      any_then (u.parent, u) _
        λ _ t.
          lift_then (record_at (name_of j.destination_logical) j.destination_logical t.siblings) _ t
            λ (r, f) e. install_as-IsInstalled j.disposition tokens identity j r f t refl a e
