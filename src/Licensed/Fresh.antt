-- ===== src/Licensed/Fresh.antt =====
-- The installation of a file that is not there yet, and its rollback: both return.
use forza_motorsport_linux.Base.{
  ℕ, suc, Text, codes, true, false, none, some, List, ◌∷◌, map, ok, ◌==◌, ==_refl, nat_eq, list_eq,
  option_eq, contains, leb, ◌≡◌, ◌≢◌, refl, ap, arith,
}
use forza_motorsport_linux.Files.{regular, find_named}
use forza_motorsport_linux.Licensed.{
  LicensedAction, install, Journal, planned, installed, HeldFile, CopyWorld, PrivateFileIdentity,
  max_licensed_size, is_regular, is_absent, name_of, absent_record, record_fd, open_kind,
  open_found, record_opened, open_record, same_kind, same_file, same_opened, same_named_file, move,
  write_journal, matches_source, matches_staged_source, source_mode, status_eq,
}
use forza_motorsport_linux.Licensed.Install.{
  new_journal, is_action, validated, validate_fresh_action, journal_found, load_or_create_journal,
  stage_file, add_stage, write_stage, copy_stage, is_published, verify_published, publish_held,
  publish_stage, back_up_if, finish_install, stage_and_publish, install_as, install_open,
  as_failure, install_threading_copy,
}
use forza_motorsport_linux.Licensed.Returned.{longer}
use forza_motorsport_linux.Licensed.Renaming.{find_named-contains, renamed-head}

module _ (j : Journal) (inode : ℕ) where
  abbrev pub staged_file : HeldFile
  staged_file = record {
    kind = regular;
    owned = true;
    inode = inode;
    mode = source_mode;
    size = j.source_size;
    sha256 = j.source_sha256;
  }

pub staged_matches :
    (j : Journal) (inode : ℕ)
    → matches_staged_source (record_fd (staged_file j inode) j.destination_logical) j ≡ true
unfolding matches_staged_source matches_source record_fd is_regular option_eq
staged_matches j inode = ground arith

pub same_staged :
    (j : Journal) (inode : ℕ) → same_file (staged_file j inode) (staged_file j inode) ≡ true
unfolding same_file same_kind
same_staged j inode = rw (==_refl inode, ==_refl j.source_size, ==_refl source_mode) refl

publish_fresh :
    (j : Journal) (inode : ℕ) (w : CopyWorld) (siblings : List (Text × HeldFile))
    → w.siblings ≡ (j.stage_name, staged_file j inode) ∷ siblings
    → w.can_rename ≡ true
    → contains (map (λ s. s.0) siblings) j.stage_name ≡ false
    → contains (map (λ s. s.0) siblings) (name_of j.destination_logical) ≡ false
    → j.stage_name ≢ name_of j.destination_logical
    → publish_stage j w ≡ (
      ok tt,
      record w {
        siblings = (name_of j.destination_logical, staged_file j inode) ∷ siblings;
        journal = some (ok (record j { status = installed }));
      },
    )
unfolding publish_stage publish_held open_record record_opened open_found open_kind find_named
    same_named_file same_opened move verify_published is_published write_journal
publish_fresh j inode w siblings e able free_stage fresh differ =
    let name = name_of j.destination_logical in
    let n : (name == j.stage_name) ≡ false = ground arith in
    rw (e, ==_refl j.stage_name, staged_matches j inode)
      (rw (==_refl j.stage_name) (
        rw (same_staged j inode) (
          rw (==_refl source_mode) (
            rw (able, n, fresh)
              (rw
                (
                  renamed-head j.stage_name name (staged_file j inode) siblings free_stage fresh
                      differ,
                  ==_refl name,
                  staged_matches j inode,
                  ==_refl source_mode,
                  same_staged j inode,
                )
                refl)))))

-- A first installation: nothing is known of the action, and the system can rename without
-- replacing.
abbrev pub fresh_world : LicensedAction → List (Text × HeldFile) → ℕ → CopyWorld
fresh_world action siblings n = record {
  siblings = siblings;
  parent = ok tt;
  source = ok (record { size = action.source_size; sha256 = action.source_sha256 });
  journal = none;
  next_inode = n;
  can_rename = true;
}

stage_fresh :
    (tokens : List Text) (identity : PrivateFileIdentity) (j : Journal) (w : CopyWorld)
    → identity ≡ record { size = j.source_size; sha256 = j.source_sha256 }
    → j.disposition ≡ install
    → w.can_rename ≡ true
    → leb j.source_size max_licensed_size ≡ true
    → contains (map (λ s. s.0) w.siblings) j.stage_name ≡ false
    → contains (map (λ s. s.0) w.siblings) (name_of j.destination_logical) ≡ false
    → j.stage_name ≢ name_of j.destination_logical
    → stage_and_publish tokens identity j w ≡ (
      ok tt,
      record w {
        siblings = (name_of j.destination_logical, staged_file j w.next_inode) ∷ w.siblings;
        journal = some (ok (record j { status = installed }));
        next_inode = suc w.next_inode;
      },
    )
unfolding stage_and_publish copy_stage write_stage add_stage stage_file back_up_if finish_install
    open_record record_opened open_found find_named matches_staged_source matches_source is_regular
    absent_record is_absent
stage_fresh tokens identity j w i d able size free_stage free_name differ =
    let m : (j.stage_name == name_of j.destination_logical) ≡ false = ground arith in
    let absent = find_named-contains (name_of j.destination_logical) w.siblings free_name in
    rw (i, d, free_stage)
      (rw size (
        rw (==_refl j.source_size, ==_refl j.source_sha256)
          (rw (m, absent)
            (publish_fresh (record j { disposition = install }) w.next_inode
              (record w {
                siblings = (j.stage_name, staged_file j w.next_inode) ∷ w.siblings;
                next_inode = suc w.next_inode;
              })
              w.siblings refl able free_stage free_name differ))))

open_fresh :
    (tokens : List Text) (identity : PrivateFileIdentity) (j : Journal) (w : CopyWorld)
    → identity ≡ record { size = j.source_size; sha256 = j.source_sha256 }
    → j.disposition ≡ install
    → j.status ≡ planned
    → w.parent ≡ ok tt
    → w.can_rename ≡ true
    → leb j.source_size max_licensed_size ≡ true
    → contains (map (λ s. s.0) w.siblings) j.stage_name ≡ false
    → contains (map (λ s. s.0) w.siblings) (name_of j.destination_logical) ≡ false
    → j.stage_name ≢ name_of j.destination_logical
    → install_open tokens identity j w ≡ (
      ok tt,
      record w {
        siblings = (name_of j.destination_logical, staged_file j w.next_inode) ∷ w.siblings;
        journal = some (ok (record j { status = installed }));
        next_inode = suc w.next_inode;
      },
    )
unfolding install_open install_as status_eq open_record record_opened open_found
    matches_staged_source matches_source is_regular absent_record
open_fresh tokens identity j w i d planned_now p able size free_stage free_name differ =
    let absent = find_named-contains (name_of j.destination_logical) w.siblings free_name in
    rw planned_now (
      rw p (
        rw (absent, d)
          (stage_fresh tokens identity (record j { disposition = install; status = planned })
            (record w { parent = ok tt }) i refl able size free_stage free_name differ)))

-- The journal of a first installation, behind it.
abbrev pub installed_journal : LicensedAction → Text → Journal
installed_journal action token = record (new_journal action token) { status = installed }

size_of_action :
    (action : LicensedAction)
    → is_action action ≡ true
    → leb action.source_size max_licensed_size ≡ true
unfolding is_action
size_of_action action h = ground arith

-- On a first installation of a valid action, with a source as planned and free names, the
-- installation returns: the source lies at the destination, the other files as they were, and the
-- journal says that it is installed.
pub install_threading_copy_fresh :
    (action : LicensedAction) (token : Text) (tokens : List Text)
    (siblings : List (Text × HeldFile)) (n : ℕ)
    → is_action action ≡ true
    → action.disposition ≡ install
    → contains (map (λ s. s.0) siblings) (new_journal action token).stage_name ≡ false
    → contains (map (λ s. s.0) siblings) (name_of action.destination_logical) ≡ false
    → install_threading_copy action token tokens (fresh_world action siblings n) ≡ (
      ok tt,
      record (fresh_world action siblings n) {
        siblings =
            (name_of action.destination_logical, staged_file (new_journal action token) n)
            ∷ siblings;
        journal = some (ok (installed_journal action token));
        next_inode = suc n;
      },
    )
unfolding install_threading_copy validate_fresh_action validated load_or_create_journal
    journal_found write_journal new_journal as_failure
install_threading_copy_fresh action token tokens siblings n valid d free_stage free_name =
    let opened =
      open_fresh tokens (record { size = action.source_size; sha256 = action.source_sha256 })
        (new_journal action token)
        (record (fresh_world action siblings n) { journal = some (ok (new_journal action token)) })
        refl d refl refl refl (size_of_action action valid) free_stage free_name
        (longer action.destination_logical token (codes ".licensed-stage")) in
    rw valid (
      rw (==_refl action.source_size, ==_refl action.source_sha256)
        (ap (as_failure "licensed transaction failed") opened))
