-- ===== src/Licensed/Renaming.antt =====
-- What is found under a name after a rename (rename_noreplace in forza_bootstrap/safeio.py).
use forza_motorsport_linux.Base.{
  ◌≡◌, ◌≢◌, refl, ◌∙◌, Text, false, none, some, List, [], ◌∷◌, map, arith, ◌==◌, ==_refl, nat_eq,
  list_eq, contains, inl, inr, Bool-cases, Option-cases,
}
use forza_motorsport_linux.Files.{find_named}
use forza_motorsport_linux.Licensed.{HeldFile, siblings_without, siblings_moved, siblings_renamed}

abbrev pub Siblings : Type 0
Siblings = List (Text × HeldFile)

-- A name that no file has is found nowhere.
pub find_named-contains :
    (name : Text) (siblings : Siblings)
    → contains (map (λ s. s.0) siblings) name ≡ false
    → find_named name siblings ≡ none
unfolding find_named
find_named-contains name [] h = refl
find_named-contains name ((first, held) ∷ siblings) h =
    let n : (first == name) ≡ false = ground arith in
    rw n (find_named-contains name siblings (ground arith))

without-free :
    (name : Text) (siblings : Siblings)
    → contains (map (λ s. s.0) siblings) name ≡ false
    → siblings_without name siblings ≡ siblings
unfolding siblings_without
without-free name [] h = refl
without-free name ((first, held) ∷ siblings) h =
    let n : (first == name) ≡ false = ground arith in
    rw (n, without-free name siblings (ground arith)) refl

find_named-without :
    (name gone : Text) (siblings : Siblings)
    → name ≢ gone
    → find_named name (siblings_without gone siblings) ≡ find_named name siblings
unfolding find_named siblings_without
find_named-without name gone [] n = refl
find_named-without name gone ((first, held) ∷ siblings) n = elim (Bool-cases (first == gone)) [
  | inl same ↦
      let other : (first == name) ≡ false = ground arith in
      rw (same, other) (find_named-without name gone siblings n)
  | inr differ ↦ rw (differ, find_named-without name gone siblings n) refl
]

find_named-gone :
    (gone : Text) (siblings : Siblings) → find_named gone (siblings_without gone siblings) ≡ none
unfolding find_named siblings_without
find_named-gone gone [] = refl
find_named-gone gone ((first, held) ∷ siblings) = elim (Bool-cases (first == gone)) [
  | inl same ↦ rw same (find_named-gone gone siblings)
  | inr differ ↦ rw (differ, differ) (find_named-gone gone siblings)
]

-- The first file, renamed to a free name.
pub renamed-head :
    (source destination : Text) (held : HeldFile) (siblings : Siblings)
    → contains (map (λ s. s.0) siblings) source ≡ false
    → contains (map (λ s. s.0) siblings) destination ≡ false
    → source ≢ destination
    → siblings_renamed source destination ((source, held) ∷ siblings)
      ≡ (destination, held) ∷ siblings
unfolding siblings_renamed siblings_moved siblings_without find_named
renamed-head source destination held siblings free_source free differ =
    let n : (source == destination) ≡ false = ground arith in
    rw (==_refl source, n, without-free destination siblings free)
      (rw (==_refl source, without-free source siblings free_source) refl)

-- Other names are left alone.
pub find_named-renamed :
    (name source destination : Text) (siblings : Siblings)
    → name ≢ source
    → name ≢ destination
    → find_named name (siblings_renamed source destination siblings) ≡ find_named name siblings
unfolding siblings_renamed siblings_moved find_named
find_named-renamed name source destination siblings n m =
    elim (Option-cases (find_named source siblings)) [
      | inl e ↦ rw e refl
      | inr (held, e) ↦
          let d : (destination == name) ≡ false = ground arith in
          rw (e, d)
            (find_named-without name source (siblings_without destination siblings) n
              ∙ find_named-without name destination siblings m)
    ]

pub find_named-moved :
    (source destination : Text) (held : HeldFile) (siblings : Siblings)
    → find_named source siblings ≡ some held
    → find_named destination (siblings_renamed source destination siblings) ≡ some held
unfolding siblings_renamed siblings_moved find_named
find_named-moved source destination held siblings e = rw (e, ==_refl destination) refl

pub find_named-left :
    (source destination : Text) (held : HeldFile) (siblings : Siblings)
    → find_named source siblings ≡ some held
    → source ≢ destination
    → find_named source (siblings_renamed source destination siblings) ≡ none
unfolding siblings_renamed siblings_moved find_named
find_named-left source destination held siblings e differ =
    let d : (destination == source) ≡ false = ground arith in
    rw (e, d) (find_named-gone source (siblings_without destination siblings))
