-- ===== src/Licensed/Returned.antt =====
-- `install_threading_copy` as a whole, when it returns.
use forza_motorsport_linux.Base.{
  Text, codes, true, ◌∷◌, ◌++◌, ==_refl, nat_eq, list_eq, option_eq, bool_eq, ◌≡◌, ◌≢◌, refl, ap,
  arith, length, length-append, if◌then◌else◌,
}
use forza_motorsport_linux.Snapshot.{FileState, FileRecord, absent}
use forza_motorsport_linux.Snapshot as Snapshots
use forza_motorsport_linux.Licensed.{
  LicensedAction, Journal, CopyWorld, name_of, record_eq, is_absent, is_regular,
}
use forza_motorsport_linux.Licensed.Install.{stem, is_for}
use forza_motorsport_linux.Licensed.Installed.{IsInstalled}

-- The names of a journal: `_journal_from_value` accepts no others.
pub record HasNames (j : Journal) : Type 0 where
  pub token : Text
  pub staged : j.stage_name ≡ stem j.destination_logical token ++ codes ".licensed-stage"
  pub backed_up : j.backup_name ≡ stem j.destination_logical token ++ codes ".licensed-backup"
  pub rolled : j.rollback_name ≡ stem j.destination_logical token ++ codes ".rollback-held"
  pub recovered : j.recovery_name ≡ stem j.destination_logical token ++ codes ".recovery"

pub longer : (logical token suffix : Text) → stem logical token ++ suffix ≢ name_of logical
unfolding stem
longer logical token suffix h =
    let name = name_of logical in
    absurd (
      omega (
        arith,
        ap length h,
        length-append (name ++ (b'.' ∷ token)) suffix,
        length-append name (b'.' ∷ token),
      ))

state_refl : (s : FileState) → (if is_absent s then is_absent s else is_regular s) ≡ true
unfolding is_absent is_regular
state_refl absent = refl
state_refl Snapshots.regular = refl

pub record_eq_refl : (r : FileRecord) → record_eq r r ≡ true
unfolding record_eq
record_eq_refl r =
    rw
      (
        state_refl r.state,
        ==_refl r.logical_path,
        ==_refl r.mode,
        ==_refl r.size,
        ==_refl r.sha256,
        ==_refl r.private,
      )
      refl

-- The journal is one of the action, it has its names, and what it plans is installed.
pub record IsDone (action : LicensedAction) (w : CopyWorld) : Type 0 where
  pub journal : Journal
  pub for_action : is_for action journal ≡ true
  pub names : HasNames journal
  pub done : IsInstalled journal w
