-- ===== src/Licensed/Keeping.antt =====
-- No file is lost: what is found under a name before a step is found behind it, if under another
-- name.
use forza_motorsport_linux.Base.{
  String, Text, Bool, true, false, Option, none, some, map, Error, Result, ok, err, ◌==◌, nat_eq,
  list_eq, option_eq, contains, inl, inr, if◌then◌else◌, Bool-cases, ◌≡◌, ◌≢◌, sym, ◌∙◌, subst,
  ==_iff, arith,
}
use forza_motorsport_linux.Base.Actions.{
  Action, pure, fail, lift, ◌>>=◌, Leaves, Leaves-ok, Leaves-err, Leaves-bind, Leaves-map,
}
use mathlib.Core.Option.{none-ne-some}
use forza_motorsport_linux.Files.{find_named}
use forza_motorsport_linux.Licensed.Renaming.{
  find_named-contains, find_named-renamed, find_named-moved,
}
use forza_motorsport_linux.Licensed.{
  Journal, HeldFile, CopyWorld, siblings_renamed, move, write_journal, open_regular, open_record,
  same_named_file, check_recovered, quarantine_held, quarantine_current, quarantine_destination,
}

unfoldable pub Kept : CopyWorld → CopyWorld → Type 0
Kept w v =
    (name : Text) (held : HeldFile)
    → find_named name w.siblings ≡ some held
    → (other : Text) × (find_named other v.siblings ≡ some held)

pub Kept-refl : (w : CopyWorld) → Kept w w
unfolding Kept
Kept-refl w name held h = (name, h)

pub Kept-trans : (w v u : CopyWorld) → Kept w v → Kept v u → Kept w u
unfolding Kept
Kept-trans w v u h k name held a = let (other, b) = h name held a in k other held b

pub record Keeps {A : Type 0} (m : Action CopyWorld A) : Type 0 where
  pub at : (w : CopyWorld) → Leaves (λ a v. Kept w v) (λ e v. Kept w v) (m w)

module _ {A : Type 0} where
  pub Keeps-pure : (a : A) → Keeps (pure {W = CopyWorld} a)
  Keeps-pure a = record { at = λ w. Leaves-ok a w (Kept-refl w) }

  pub Keeps-fail : (e : Error) → Keeps {A = A} (fail e)
  Keeps-fail e = record { at = λ w. Leaves-err e w (Kept-refl w) }

  -- what only looks at the world
  pub Keeps-read : (f : CopyWorld → Result A) → Keeps (λ w. (f w, w))
  Keeps-read f = record { at = λ w. read w (f w) }
    where
      read : (w : CopyWorld) (r : Result A) → Leaves (λ a v. Kept w v) (λ e v. Kept w v) (r, w)
      read w (ok a) = Leaves-ok a w (Kept-refl w)
      read w (err e) = Leaves-err e w (Kept-refl w)

  pub Keeps-lift : (r : Result A) → Keeps (lift {W = CopyWorld} r)
  Keeps-lift r = Keeps-read (λ w. r)

  pub Keeps-if :
      (b : Bool) (m n : Action CopyWorld A) → Keeps m → Keeps n → Keeps (if b then m else n)
  Keeps-if true m n h k = h
  Keeps-if false m n h k = k

module _ {A B : Type 0} where
  pub Keeps-bind :
      (m : Action CopyWorld A) (rest : A → Action CopyWorld B)
      → Keeps m
      → ((a : A) → Keeps (rest a))
      → Keeps (m >>= rest)
  Keeps-bind m rest h k = record {
    at = λ w. Leaves-bind rest (m w) (h.at w) λ a v kept.
        Leaves-map (rest a v) ((k a).at v) (λ b u. Kept-trans w v u kept)
          (λ e u. Kept-trans w v u kept);
  }

-- A rename to a free name: the file is found under the new name, every other under its own.
pub siblings_renamed-Kept :
    (source destination : Text) (w : CopyWorld)
    → contains (map (λ s. s.0) w.siblings) destination ≡ false
    → Kept w (record w { siblings = siblings_renamed source destination w.siblings })
unfolding Kept
siblings_renamed-Kept source destination w free name held h = elim (Bool-cases (name == source)) [
  | inl same ↦
      let e : find_named source w.siblings ≡ some held =
        subst (λ n. find_named n w.siblings ≡ some held) ((==_iff name source).0 same) h in
      (destination, find_named-moved source destination held w.siblings e)
  | inr differ ↦
      let other : name ≢ source = ground arith in
      let apart : name ≢ destination = λ e. none-ne-some held (
        sym (find_named-contains destination w.siblings free)
        ∙ subst (λ n. find_named n w.siblings ≡ some held) e h) in
      (name, find_named-renamed name source destination w.siblings other apart ∙ h)
]

pub Keeps-move :
    (source destination : Text) (conflict : String) → Keeps (move source destination conflict)
unfolding move Kept
Keeps-move source destination conflict = record { at = moves }
  where
    moves :
        (w : CopyWorld)
        → Leaves (λ a v. Kept w v) (λ e v. Kept w v) (move source destination conflict w)
    moves w = elim (Bool-cases w.can_rename) [
      | inr missing ↦ simp missing (Leaves-err _ w (Kept-refl w))
      | inl has ↦ simp has (elim (Bool-cases (contains (map (λ s. s.0) w.siblings) destination)) [
        | inl y ↦ rw y (Leaves-err _ w (Kept-refl w))
        | inr n ↦ rw n (Leaves-ok tt _ (siblings_renamed-Kept source destination w n))
      ])
    ]

pub Keeps-write_journal : (journal : Journal) → Keeps (write_journal journal)
unfolding write_journal Kept
Keeps-write_journal journal = record { at = λ w. Leaves-ok tt _ (λ name held a. (name, a)) }

pub Keeps-open_record : (name logical : Text) → Keeps (open_record name logical)
unfolding open_record
Keeps-open_record name logical = Keeps-read _

pub Keeps-open_regular : (name : Text) (label : String) → Keeps (open_regular name label)
unfolding open_regular
Keeps-open_regular name label = Keeps-read _

pub Keeps-same_named_file : (name : Text) (held : HeldFile) → Keeps (same_named_file name held)
unfolding same_named_file
Keeps-same_named_file name held = Keeps-read _

check_recovered-Keeps :
    (current : HeldFile) (found : Option HeldFile) → Keeps (check_recovered current found)
unfolding check_recovered
check_recovered-Keeps current none = Keeps-fail _
check_recovered-Keeps current (some held) = Keeps-read _

quarantine_current-Keeps :
    (journal : Journal) (current : Option HeldFile) → Keeps (quarantine_current journal current)
unfolding quarantine_current quarantine_held
quarantine_current-Keeps journal none = Keeps-pure journal
quarantine_current-Keeps journal (some held) = Keeps-bind _ _ (Keeps-same_named_file _ held) λ same.
    Keeps-bind _ _ (Keeps-read _) λ _. Keeps-bind _ _ (Keeps-move _ _ _) λ _.
      Keeps-bind _ _ (Keeps-open_record _ _) λ (r, found).
        Keeps-bind _ _ (check_recovered-Keeps held found)
          λ _. Keeps-bind _ _ (Keeps-write_journal _) λ _. Keeps-pure _

pub Keeps-quarantine : (journal : Journal) → Keeps (quarantine_destination journal)
unfolding quarantine_destination
Keeps-quarantine journal =
    Keeps-bind _ _ (Keeps-open_record _ _) λ (r, current). quarantine_current-Keeps journal current
