-- ===== src/Licensed/InstallKeeps/Staging.antt =====
-- `_copy_stage` loses no file: a stage is created at a free name, and a partial one leaves its name free.
use forza_motorsport_linux.Base.{
  String, Text, codes, ◌&&◌, not, Option, none, some, List, [], ◌∷◌, ◌++◌, map, Result, ok, err,
  raise_if, ◌==◌, nat_eq, list_eq, option_eq, contains, leb, inl, inr, refl, false, ◌≡◌, ◌≢◌, sym,
  ap, ◌∙◌, subst, arith, Bool-cases,
}
use forza_motorsport_linux.Base.Actions.{
  pure, Leaves, Leaves-ok, Leaves-err, Leaves-bind, Leaves-map,
}
use mathlib.Core.Option.{none-ne-some}
use forza_motorsport_linux.Files.{LeafKind, regular, symlink, find_named}
use forza_motorsport_linux.Licensed.Renaming.{find_named-contains, find_named-left}
use forza_motorsport_linux.Licensed.{
  Journal, HeldFile, CopyWorld, PrivateFileIdentity, max_licensed_size, move, open_kind, open_found,
  open_regular, same_named_file, same_opened, same_file,
}
use forza_motorsport_linux.Licensed.Install.{
  stem, free_recovery, preserve_partial_stage, add_stage, write_stage, stage_exists, copy_stage,
}
use forza_motorsport_linux.Licensed.Keeping.{
  Kept, Kept-refl, Kept-trans, siblings_renamed-Kept, Keeps, Keeps-pure, Keeps-fail, Keeps-if,
  Keeps-bind, Keeps-open_record,
}

-- What only looks at the world.
looked :
    {A : Type 0} (r : Result A) (origin w : CopyWorld)
    → w ≡ origin
    → Leaves (λ a v. (v ≡ origin) × (r ≡ ok a)) (λ e v. Kept origin v) (r, w)
looked (ok a) origin w same = Leaves-ok a w (same, refl)
looked (err e) origin w same = Leaves-err e w (subst (Kept origin) (sym same) (Kept-refl origin))

unchanged :
    {A : Type 0} {P : CopyWorld → Type 0} {Q : CopyWorld → Type 0} (r : Result A) (w : CopyWorld)
    → P w
    → Q w
    → Leaves (λ a v. P v) (λ e v. Q v) (r, w)
unchanged (ok a) w p q = Leaves-ok a w p
unchanged (err e) w p q = Leaves-err e w q

open_kind-same :
    (kind : LeafKind) (file held : HeldFile) (label : String)
    → open_kind kind file label ≡ ok held
    → file ≡ held
unfolding open_kind
open_kind-same regular file held label e = ground arith
open_kind-same symlink file held label e = cc
open_kind-same _ file held label e = cc

open_found-some :
    (found : Option HeldFile) (name : Text) (label : String) (held : HeldFile)
    → open_found found name label ≡ ok held
    → found ≡ some held
unfolding open_found
open_found-some none name label held e = cc
open_found-some (some file) name label held e = ap some (open_kind-same file.kind file held label e)

added-Kept :
    (identity : PrivateFileIdentity) (journal : Journal) (w : CopyWorld)
    → find_named journal.stage_name w.siblings ≡ none
    → Kept w (add_stage identity journal w).1
unfolding add_stage Kept find_named
added-Kept identity journal w free name held h =
    let apart : name ≢ journal.stage_name =
      λ e. none-ne-some held (sym free ∙ subst (λ n. find_named n w.siblings ≡ some held) e h) in
    let n : (journal.stage_name == name) ≡ false = ground arith in (name, rw n h)

-- A stage is created at a name that is free.
write_stage-Kept :
    (identity : PrivateFileIdentity) (journal : Journal) (w : CopyWorld)
    → find_named journal.stage_name w.siblings ≡ none
    → Leaves (λ a v. Kept w v) (λ e v. Kept w v) (write_stage identity journal w)
unfolding write_stage add_stage
write_stage-Kept identity journal w free =
    let kept = added-Kept identity journal w free in
    Leaves-bind _ _
      (unchanged
        (raise_if (not (leb identity.size max_licensed_size)) "licensed input exceeds size limit")
        (add_stage identity journal w).1 kept kept)
      λ _ v again. unchanged _ v again again

move-frees :
    (source destination : Text) (conflict : String) (w : CopyWorld) (held : HeldFile)
    → find_named source w.siblings ≡ some held
    → Leaves
        (λ a v. Kept w v × (find_named source v.siblings ≡ none))
        (λ e v. Kept w v)
        (move source destination conflict w)
unfolding move Kept
move-frees source destination conflict w held found = elim (Bool-cases w.can_rename) [
  | inr missing ↦ simp missing (Leaves-err _ w (Kept-refl w))
  | inl has ↦ simp has (elim (Bool-cases (contains (map (λ s. s.0) w.siblings) destination)) [
    | inl y ↦ rw y (Leaves-err _ w (Kept-refl w))
    | inr n ↦
        let differ : source ≢ destination = λ e. none-ne-some held (
          sym (find_named-contains destination w.siblings n)
          ∙ subst (λ name. find_named name w.siblings ≡ some held) e found) in
        rw n (
          Leaves-ok tt _ (
            siblings_renamed-Kept source destination w n,
            find_named-left source destination held w.siblings found differ,
          ))
  ])
]

-- The stage is moved to a name that is free, and so leaves its own name free.
free_recovery-frees :
    (stage logical : Text) (tokens : List Text) (w : CopyWorld) (held : HeldFile)
    → find_named stage w.siblings ≡ some held
    → Leaves
        (λ name v. Kept w v × (find_named stage v.siblings ≡ none))
        (λ e v. Kept w v)
        (free_recovery stage logical tokens w)
unfolding free_recovery
free_recovery-frees stage logical [] w held found = Leaves-err _ w (Kept-refl w)
free_recovery-frees stage logical (token ∷ tokens) w held found =
    let name = stem logical token ++ codes ".partial.recovery" in
    elim (Bool-cases (w.can_rename && contains (map (λ s. s.0) w.siblings) name)) [
      | inl taken ↦ simp taken (free_recovery-frees stage logical tokens w held found)
      | inr free ↦ simp free (
          Leaves-bind (λ _. pure name) _ (move-frees stage name "" w held found)
            λ _ v kept. Leaves-ok name v kept)
    ]

preserve-frees :
    (tokens : List Text) (journal : Journal) (w : CopyWorld)
    → Leaves
        (λ a v. Kept w v × (find_named journal.stage_name v.siblings ≡ none))
        (λ e v. Kept w v)
        (preserve_partial_stage tokens journal w)
unfolding preserve_partial_stage open_regular same_named_file
preserve-frees tokens journal w =
    let stage = journal.stage_name in
    Leaves-bind _ _
      (looked (open_found (find_named stage w.siblings) stage "licensed partial stage") w w refl)
      λ held v (here, opened).
        Leaves-bind _ _
          (looked
            (raise_if
              (not (
                same_opened held
                  (open_found (find_named stage v.siblings) stage "licensed transaction file")))
              "licensed partial stage changed before recovery")
            w v here)
          λ _ x (still, _).
            let found : find_named stage x.siblings ≡ some held =
              subst (λ u. find_named stage u.siblings ≡ some held) (sym still)
                (open_found-some (find_named stage w.siblings) stage "licensed partial stage" held
                  opened) in
            let since : Kept w x = subst (Kept w) (sym still) (Kept-refl w) in
            Leaves-bind _ _
              (Leaves-map _
                (free_recovery-frees stage journal.destination_logical tokens x held found)
                (λ name z (kept, free). (Kept-trans w x z since kept, free))
                (λ e z kept. Kept-trans w x z since kept))
              λ name z kept.
                Leaves-bind _ _
                  (unchanged
                    (open_found (find_named name z.siblings) name "licensed partial recovery") z
                    kept kept.0)
                  λ recovered u again.
                    unchanged
                      (raise_if (not (same_file recovered held))
                        "licensed partial recovery evidence changed")
                      u again again.0

stage_exists-Keeps :
    (tokens : List Text) (identity : PrivateFileIdentity) (journal : Journal)
    → Keeps (stage_exists tokens identity journal)
unfolding stage_exists
stage_exists-Keeps tokens identity journal = Keeps-bind _ _ (Keeps-open_record _ _) λ (r, _).
    Keeps-if _ _ _ (Keeps-pure tt) (
      Keeps-if _ _ _ (Keeps-fail _) (record {
        at = λ w. Leaves-bind _ _ (preserve-frees tokens journal w) λ _ v (kept, free).
            Leaves-map _ (write_stage-Kept identity journal v free) (λ a u. Kept-trans w v u kept)
              (λ e u. Kept-trans w v u kept);
      }))

pub copy_stage-Keeps :
    (tokens : List Text) (identity : PrivateFileIdentity) (journal : Journal)
    → Keeps (copy_stage tokens identity journal)
unfolding copy_stage
copy_stage-Keeps tokens identity journal = record {
  at = λ w. elim (Bool-cases (contains (map (λ s. s.0) w.siblings) journal.stage_name)) [
    | inl there ↦ rw there ((stage_exists-Keeps tokens identity journal).at w)
    | inr free ↦ rw free (
        write_stage-Kept identity journal w
          (find_named-contains journal.stage_name w.siblings free))
  ];
}
