-- ===== src/Licensed/Installed/Conditions.antt =====
-- What an installation leaves, and the steps that establish it up to the publication.
use forza_motorsport_linux.Base.{
  String, Text, Bool, true, false, ◌||◌, not, Option, none, some, List, map, Error, message, Result,
  ok, err, raise_if, ◌==◌, nat_eq, list_eq, option_eq, contains, inl, inr, ◌⊎◌, ◌≡◌, ◌≢◌, refl, sym,
  ap, subst, ◌∙◌, arith, if◌then◌else◌, Bool-cases,
}
use forza_motorsport_linux.Base.Actions.{
  Action, fail, continue_with, ◌>>=◌, Leaves, Leaves-ok, Leaves-err, Leaves-bind,
}
use forza_motorsport_linux.Files.{find_named}
use forza_motorsport_linux.Snapshot.{FileRecord}
use forza_motorsport_linux.Licensed.Renaming.{find_named-renamed}
use forza_motorsport_linux.Licensed.{
  LicensedDisposition, install, replace, keep, Journal, JournalStatus, planned, installed,
  rolled_back, recovery_required, status_eq, HeldFile, CopyWorld, quarantine_destination, move,
  siblings_renamed, name_of, record_opened, open_found, open_record, same_named_file, same_opened,
  source_mode, write_journal, matches_source, matches_staged_source, record_eq,
}
use forza_motorsport_linux.Licensed.Install.{
  mark_installed, is_published, verify_published, publish_held,
}

abbrev pub Any : Error → CopyWorld → Type 0
Any e w = Unit

-- what `_open_record` finds under a name
abbrev pub record_at : Text → Text → List (Text × HeldFile) → Result (FileRecord × Option HeldFile)
record_at name logical siblings =
    record_opened logical (open_found (find_named name siblings) name "licensed destination")

module _ {A B : Type 0} {Q : B → CopyWorld → Type 0} where
  -- a result that changes nothing
  pub lift_then :
      (r : Result A) (rest : A → Action CopyWorld B) (w : CopyWorld)
      → ((a : A) → r ≡ ok a → Leaves Q Any (rest a w))
      → Leaves Q Any (continue_with rest (r, w))
  lift_then (err e) rest w h = Leaves-err e w tt
  lift_then (ok a) rest w h = h a refl

  -- an action of which nothing is needed
  pub any_then :
      (o : Result A × CopyWorld) (rest : A → Action CopyWorld B)
      → ((a : A) (v : CopyWorld) → Leaves Q Any (rest a v))
      → Leaves Q Any (continue_with rest o)
  any_then (ok a, v) rest h = h a v
  any_then (err e, v) rest h = Leaves-err e v tt

module _ {A : Type 0} {Q : A → CopyWorld → Type 0} where
  pub if_then :
      (b : Bool) (m n : Action CopyWorld A) (w : CopyWorld)
      → (b ≡ true → Leaves Q Any (m w))
      → (b ≡ false → Leaves Q Any (n w))
      → Leaves Q Any ((if b then m else n) w)
  if_then true m n w h k = h refl
  if_then false m n w h k = k refl

-- The destination holds the source.
abbrev pub HasSource : Journal → List (Text × HeldFile) → Type 0
HasSource j siblings =
    (r : FileRecord) × (f : Option HeldFile) × (record_at (name_of j.destination_logical)
        j.destination_logical siblings
      ≡ ok (r, f))
    × (matches_source r j ≡ true)

-- The backup of a replaced file is the file that was there before.
abbrev pub HasBackup : LicensedDisposition → Journal → List (Text × HeldFile) → Type 0
HasBackup replace j siblings =
    (r : FileRecord) × (f : Option HeldFile) × (record_at j.backup_name j.destination_logical
        siblings
      ≡ ok (r, f))
    × (record_eq r j.before ≡ true)
HasBackup _ j siblings = Unit

pub record IsInstalled (j : Journal) (w : CopyWorld) : Type 0 where
  pub has_source : HasSource j w.siblings
  pub has_backup : HasBackup j.disposition j w.siblings
  pub is_recorded :
      (w.journal ≡ some (ok (record j { status = installed }))) ⊎ (j.status ≡ installed)

pub status_eq-installed : (s : JournalStatus) → status_eq s installed ≡ true → s ≡ installed
unfolding status_eq
status_eq-installed planned h = cc
status_eq-installed installed h = refl
status_eq-installed rolled_back h = cc
status_eq-installed recovery_required h = cc

pub mark_installed-IsInstalled :
    (j : Journal) (w : CopyWorld)
    → HasSource j w.siblings
    → HasBackup j.disposition j w.siblings
    → Leaves (λ _. IsInstalled j) Any (mark_installed j w)
unfolding mark_installed write_journal
mark_installed-IsInstalled j w s b =
    if_then (status_eq j.status installed) _ _ w
      (λ y. Leaves-ok tt w (record {
        has_source = s;
        has_backup = b;
        is_recorded = inr (status_eq-installed j.status y);
      }))
      (λ n. Leaves-ok tt _ (record { has_source = s; has_backup = b; is_recorded = inl refl }))

-- what raises whatever it leaves
pub raises :
    {A B : Type 0} {Q : B → CopyWorld → Type 0} (m : Action CopyWorld A) (e : Error) (w : CopyWorld)
    → Leaves Q Any ((m >>= λ _. fail e) w)
raises m e w = any_then (m w) (λ _. fail e) λ a v. Leaves-err e v tt

pub matches_staged-source :
    (r : FileRecord) (j : Journal) → matches_staged_source r j ≡ true → matches_source r j ≡ true
unfolding matches_staged_source
matches_staged-source r j h = ground arith

pub move-siblings :
    (source destination : Text) (conflict : String) (w : CopyWorld)
    → Leaves
        (λ _ v. v.siblings ≡ siblings_renamed source destination w.siblings)
        Any
        (move source destination conflict w)
unfolding move
move-siblings source destination conflict w = elim (Bool-cases w.can_rename) [
  | inr missing ↦ simp missing (Leaves-err _ w tt)
  | inl has ↦ simp has (elim (Bool-cases (contains (map (λ s. s.0) w.siblings) destination)) [
    | inl y ↦ rw y (Leaves-err _ w tt)
    | inr n ↦ rw n (Leaves-ok tt _ refl)
  ])
]

-- The names that the transaction uses are different.
abbrev pub AreApart : Journal → Type 0
AreApart j = (j.backup_name ≢ j.stage_name) × (j.backup_name ≢ name_of j.destination_logical)

pub HasBackup-renamed :
    (d : LicensedDisposition) (j : Journal) (siblings : List (Text × HeldFile))
    → AreApart j
    → HasBackup d j siblings
    → HasBackup d j (siblings_renamed j.stage_name (name_of j.destination_logical) siblings)
HasBackup-renamed install j siblings a h = tt
HasBackup-renamed keep j siblings a h = tt
HasBackup-renamed replace j siblings a (r, f, e, same) = (
  r,
  f,
  ap (λ t. record_opened j.destination_logical (open_found t j.backup_name "licensed destination"))
        (find_named-renamed j.backup_name j.stage_name (name_of j.destination_logical) siblings a.0
          a.1)
      ∙ e,
  same,
)

pub is_published-source :
    (stage : HeldFile) (j : Journal) (found : Result (FileRecord × Option HeldFile))
    → is_published stage j found ≡ true
    → (r : FileRecord) × (f : Option HeldFile) × (found ≡ ok (r, f)) × (matches_source r j ≡ true)
unfolding is_published
is_published-source stage j (ok (r, some held)) h =
    (r, some held, refl, matches_staged-source r j (ground arith))
is_published-source stage j (ok (r, none)) h = cc
is_published-source stage j (err e) h = cc

pub verify_published-source :
    (stage : HeldFile) (j : Journal) (w : CopyWorld)
    → Leaves
        (λ _ v. (v.siblings ≡ w.siblings) × HasSource j w.siblings)
        Any
        (verify_published stage j w)
unfolding verify_published open_record
verify_published-source stage j w =
    if_then
      (is_published stage j
        (record_at (name_of j.destination_logical) j.destination_logical w.siblings))
      _ _ w (λ y. Leaves-ok tt w (refl, is_published-source stage j _ y))
      (λ n.
        raises (quarantine_destination j)
          (message "licensed publication changed; recovery evidence preserved") w)

pub published :
    (j : Journal) (stage : HeldFile) (w : CopyWorld)
    → HasSource j w.siblings
    → HasBackup j.disposition j w.siblings
    → Leaves (λ _. IsInstalled j) Any (write_journal (record j { status = installed }) w)
unfolding write_journal
published j stage w s b =
    Leaves-ok tt _ (record { has_source = s; has_backup = b; is_recorded = inl refl })

pub publish_held-IsInstalled :
    (j : Journal) (r : FileRecord) (stage : Option HeldFile) (w : CopyWorld)
    → AreApart j
    → HasBackup j.disposition j w.siblings
    → Leaves (λ _. IsInstalled j) Any (publish_held j r stage w)
unfolding publish_held same_named_file
publish_held-IsInstalled j r none w a b = Leaves-err _ w tt
publish_held-IsInstalled j r (some stage) w a b =
    let named =
      open_found (find_named j.stage_name w.siblings) j.stage_name "licensed transaction file" in
    let same = same_opened stage named in
    lift_then (raise_if (not (matches_staged_source r j)) "licensed stage conflicts") _ w λ _ _.
      lift_then
        (raise_if (not same || not (stage.mode == source_mode))
          "licensed stage changed before publication")
        _ w
        λ _ _. Leaves-bind _ _ (move-siblings _ _ _ w) λ _ v e.
          Leaves-bind _ _ (verify_published-source stage j v) λ _ u (f, s).
            published j stage u (subst (HasSource j) (sym f) s) (
              subst (HasBackup j.disposition j) (sym (f ∙ e))
                (HasBackup-renamed j.disposition j w.siblings a b))
