-- ===== src/Snapshot/Compare/Follows.antt =====
-- What it means to follow a change rule, and the branch of `compare_snapshots`
-- (forza_bootstrap/snapshot.py) that is taken then.
use forza_motorsport_linux.Base.{
  ℕ, ◌≡◌, ◌≢◌, refl, ◌⊎◌, inl, inr, ◌↔◌, Text, true, false, not, Option, none, some, List, [], ◌∷◌,
  ◌++◌, arith, nat_eq, list_eq, option_eq, bool_eq,
}
use forza_motorsport_linux.Snapshot.{
  FileRecord, absent, regular, Policy, expected, unchanged, ChangeRule, ComparedRecord, Comparison,
  file_state_eq, same_record, find_record,
}
use forza_motorsport_linux.Snapshot.Compare.{
  matches_after, matches_rule, find_rule, expects_change, classify,
}

-- The state that a rule asks for: absence, or a regular file with a digest and a mode.
abbrev pub AfterState : FileRecord → Option Text → Option ℕ → Type 0
AfterState item none mode = item.state ≡ absent
AfterState item (some digest) mode =
    (item.state ≡ regular) × (item.sha256 ≡ some digest) × (item.mode ≡ mode)

-- A file has changed as expected, or is the same, and in both cases is in the state asked for.
pub data Follows (before after : FileRecord) (rule : ChangeRule) : Type 0 where
  changed :
      rule.policy ≡ expected
      → before ≢ after
      → AfterState after rule.after_sha256 rule.after_mode
      → Follows before after rule
  kept :
      rule.policy ≡ unchanged
      → before ≡ after
      → AfterState after rule.after_sha256 rule.after_mode
      → Follows before after rule

-- The records and the rule of a path, and that they agree.
abbrev pub AsPlanned : List FileRecord → List FileRecord → List ChangeRule → Text → Type 0
AsPlanned befores afters rules path =
    (before : FileRecord) × (after : FileRecord) × (rule : ChangeRule) × (find_record path befores
      ≡ some before)
    × (find_record path afters ≡ some after)
    × (find_rule path rules ≡ some rule)
    × Follows before after rule

same_record-eq : (a b : FileRecord) → same_record a b ≡ true → a ≡ b
unfolding same_record
same_record-eq a b h = ground arith

same_record-ne : (a b : FileRecord) → same_record a b ≡ false → a ≢ b
unfolding same_record
same_record-ne a b h e = ground arith

matches_after-AfterState :
    (item : FileRecord) (digest : Option Text) (mode : Option ℕ)
    → (matches_after item digest mode ≡ true) ↔ AfterState item digest mode
unfolding matches_after
matches_after-AfterState item none mode = ground arith
matches_after-AfterState item (some d) mode = ground arith

append_one_ne_nil {ℓ} : {A : Type ℓ} (xs : List A) (x : A) → (xs ++ (x ∷ [])) ≢ []
append_one_ne_nil [] x e = cc
append_one_ne_nil (y ∷ ys) x e = cc

Policy-cases : (p : Policy) → (p ≡ expected) ⊎ (p ≡ unchanged)
Policy-cases expected = inl refl
Policy-cases unchanged = inr refl

module _ (path : Text) (before after : FileRecord) (rule : ChangeRule) (c : Comparison) where
  abbrev pub compared : ComparedRecord
  compared = record { logical_path = path; before = before; after = after; policy = rule.policy }

  abbrev more_unexpected : List ComparedRecord
  more_unexpected = c.unexpected_changes ++ (compared ∷ [])

  -- The three tests of the branches, read off an outcome with nothing unexpected.
  branch_taken :
      (classify path before after rule c).unexpected_changes ≡ []
      → (c.unexpected_changes ≡ [])
        × (matches_rule after rule ≡ true)
        × (same_record before after ≡ not (expects_change rule.policy))
  unfolding classify expects_change
  branch_taken h =
      let no_more : more_unexpected ≢ [] = append_one_ne_nil c.unexpected_changes compared in
      (ground arith, ground arith, ground arith)

  pub classify-Follows :
      (classify path before after rule c).unexpected_changes ≡ []
      → (c.unexpected_changes ≡ []) × Follows before after rule
  unfolding expects_change matches_rule
  classify-Follows h =
      let (none_yet, matched, same) = branch_taken h in
      let state = (matches_after-AfterState after rule.after_sha256 rule.after_mode).0 matched in
      (
        none_yet,
        elim (Policy-cases rule.policy) [
          | inl e ↦ changed e (same_record-ne before after (ground arith)) state
          | inr e ↦ kept e (same_record-eq before after (ground arith)) state
        ],
      )

  pub Follows-classify :
      Follows before after rule
      → c.unexpected_changes ≡ []
      → (classify path before after rule c).unexpected_changes ≡ []
  unfolding classify expects_change matches_rule
  Follows-classify (changed e differ state) h =
      let matched = (matches_after-AfterState after rule.after_sha256 rule.after_mode).1 state in
      let other : same_record before after ≡ false = ground (arith, same_record-eq before after) in
      ground arith
  Follows-classify (kept e same state) h =
      let matched = (matches_after-AfterState after rule.after_sha256 rule.after_mode).1 state in
      let equal : same_record before after ≡ true = ground (arith, same_record-ne before after) in
      ground arith
