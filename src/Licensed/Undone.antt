-- ===== src/Licensed/Undone.antt =====
-- The rollback of a first installation.
use forza_motorsport_linux.Base.{
  ℕ, suc, Text, codes, true, false, some, List, ◌∷◌, map, ok, ◌==◌, ==_refl, nat_eq, list_eq,
  option_eq, contains, ◌≡◌, ◌≢◌, refl, sym, ap, ◌∙◌, arith,
}
use forza_motorsport_linux.Files.{find_named}
use forza_motorsport_linux.Licensed.{
  LicensedAction, install, Journal, rolled_back, HeldFile, CopyWorld, is_regular, is_absent,
  name_of, absent_record, record_fd, record_eq, open_kind, open_found, record_opened, open_record,
  open_regular, same_opened, same_named_file, move, write_journal, matches_source, status_eq,
}
use forza_motorsport_linux.Licensed.Install.{
  new_journal, is_action, as_failure, install_threading_copy,
}
use forza_motorsport_linux.Licensed.Rollback.{
  check_moved, move_bound, mark_rolled_back, source_record, restore, put_aside, undo, rollback_open,
  load_journal, rollback_threading_copy,
}
use forza_motorsport_linux.Licensed.Returned.{longer, record_eq_refl}
use forza_motorsport_linux.Licensed.Renaming.{renamed-head}
use forza_motorsport_linux.Licensed.Fresh.{
  staged_file, same_staged, fresh_world, installed_journal, install_threading_copy_fresh,
}

module _ (j : Journal) (inode : ℕ) where
  source_matches : matches_source (record_fd (staged_file j inode) j.destination_logical) j ≡ true
  unfolding matches_source record_fd is_regular option_eq
  source_matches = ground arith

  source_recorded :
      record_eq (record_fd (staged_file j inode) j.destination_logical) (source_record j) ≡ true
  unfolding record_fd source_record
  source_recorded = record_eq_refl (source_record j)

  move_installed :
      (w : CopyWorld) (siblings : List (Text × HeldFile))
      → w.siblings ≡ (name_of j.destination_logical, staged_file j inode) ∷ siblings
      → w.can_rename ≡ true
      → contains (map (λ s. s.0) siblings) (name_of j.destination_logical) ≡ false
      → contains (map (λ s. s.0) siblings) j.rollback_name ≡ false
      → j.rollback_name ≢ name_of j.destination_logical
      → move_bound
          (name_of j.destination_logical)
          j.rollback_name
          (source_record j)
          j.destination_logical
          w
        ≡ (ok tt, record w { siblings = (j.rollback_name, staged_file j inode) ∷ siblings })
  unfolding move_bound check_moved open_regular open_record record_opened open_found open_kind
      find_named same_named_file same_opened move
  move_installed w siblings e able free_name free differ =
      let name = name_of j.destination_logical in
      let n : (j.rollback_name == name) ≡ false = ground arith in
      rw (e, ==_refl name)
        (rw (==_refl name) (
          rw (same_staged j inode, source_recorded)
            (rw (able, n, free)
              (rw
                (
                  renamed-head name j.rollback_name (staged_file j inode) siblings free_name free
                      (λ same. differ (sym same)),
                  ==_refl j.rollback_name,
                )
                (rw (source_recorded, same_staged j inode) refl)))))

undo_installed :
    (j : Journal) (inode : ℕ) (w : CopyWorld) (siblings : List (Text × HeldFile))
    → w.siblings ≡ (name_of j.destination_logical, staged_file j inode) ∷ siblings
    → w.parent ≡ ok tt
    → w.can_rename ≡ true
    → j.disposition ≡ install
    → contains (map (λ s. s.0) siblings) (name_of j.destination_logical) ≡ false
    → contains (map (λ s. s.0) siblings) j.rollback_name ≡ false
    → j.rollback_name ≢ name_of j.destination_logical
    → rollback_open j w ≡ (
      ok tt,
      record w {
        siblings = (j.rollback_name, staged_file j inode) ∷ siblings;
        journal = some (ok (record j { status = rolled_back }));
      },
    )
unfolding rollback_open undo put_aside restore mark_rolled_back write_journal open_record
    record_opened open_found open_kind find_named is_regular is_absent absent_record record_fd
undo_installed j inode w siblings e p able d free_name free differ =
    let name = name_of j.destination_logical in
    rw (p, e, ==_refl name)
      (rw d (
        rw (source_matches (record j { disposition = install }) inode) (
          rw
            (move_installed (record j { disposition = install }) inode
              (record w { siblings = (name, staged_file j inode) ∷ siblings; parent = ok tt })
              siblings refl able free_name free differ)
            refl)))

-- Under the conditions of a first installation, and with a free name for the file that is put aside,
-- the rollback of the installation returns: the destination is free again, the other files are as
-- they were, and the journal says that the transaction is rolled back.
pub rollback_threading_copy_fresh :
    (action : LicensedAction) (token : Text) (tokens : List Text)
    (siblings : List (Text × HeldFile)) (n : ℕ)
    → is_action action ≡ true
    → action.disposition ≡ install
    → contains (map (λ s. s.0) siblings) (new_journal action token).stage_name ≡ false
    → contains (map (λ s. s.0) siblings) (name_of action.destination_logical) ≡ false
    → contains (map (λ s. s.0) siblings) (new_journal action token).rollback_name ≡ false
    → rollback_threading_copy
        (install_threading_copy action token tokens (fresh_world action siblings n)).1
      ≡ (
        ok tt,
        record (fresh_world action siblings n) {
          siblings =
              ((new_journal action token).rollback_name, staged_file (new_journal action token) n)
              ∷ siblings;
          journal = some (ok (record (new_journal action token) { status = rolled_back }));
          next_inode = suc n;
        },
      )
unfolding rollback_threading_copy load_journal status_eq as_failure new_journal
rollback_threading_copy_fresh action token tokens siblings n valid d free_stage free_name free =
    let j = installed_journal action token in
    let w = record (fresh_world action siblings n) {
      siblings =
          (name_of action.destination_logical, staged_file (new_journal action token) n) ∷ siblings;
      journal = some (ok j);
      next_inode = suc n;
    } in
    ap (λ o. rollback_threading_copy o.1)
      (install_threading_copy_fresh action token tokens siblings n valid d free_stage free_name)
    ∙ ap (as_failure "licensed rollback failed") (
        undo_installed j n w siblings refl refl refl d free_name free
          (longer action.destination_logical token (codes ".rollback-held")))
