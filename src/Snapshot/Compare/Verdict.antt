-- ===== src/Snapshot/Compare/Verdict.antt =====
-- What the verdict of `compare_snapshots` (forza_bootstrap/snapshot.py) means.
use forza_motorsport_linux.Base.{
  ℕ, ◌+◌, ◌≡◌, refl, sym, ◌∙◌, subst, ◌↔◌, Text, Bool, true, false, not, Option, none, some, List,
  [], ◌∷◌, ◌++◌, map, Result, ok, err, arith, Ensures, Ensures-ok, Ensures-bind, >>=-eq-ok,
  raise_if, All, length, length-append, length-map, length-sorted_by, String, message, about,
  key_error, recursion_error, file_not_found, ◌||◌, ◌==◌, nat_eq, list_eq, option_eq, bool_eq,
  sorted_by, All-sorted_by, All-of_sorted_by,
}
use mathlib.Core.Option.{some-injective}
use mathlib.Core.List.{append-nil, append_assoc}
use forza_motorsport_linux.Snapshot.{
  FileRecord, ChangeRule, Snapshot, ComparedRecord, Comparison, file_state_eq, is_ok,
  validate_record, validate_identity, find_record, path_of, duplicate_path, index_records,
  indexed_records,
}
use forza_motorsport_linux.Snapshot.Compare.{
  find_rule, duplicate_rule, index_rules, validate_rule, at_path, classify, compare_path,
  compare_paths, nothing_compared, rule_path, same_keys, hide, compare_checked, compare_snapshots,
  snapshot_privacy,
}
use forza_motorsport_linux.Snapshot.Compare.Follows.{
  AsPlanned, Follows, classify-Follows, Follows-classify, compared,
}

abbrev pub total : Comparison → ℕ
total c = length c.expected_changes + length c.required_unchanged + length c.unexpected_changes

total-classify :
    (path : Text) (before after : FileRecord) (rule : ChangeRule) (c : Comparison)
    → total (classify path before after rule c) ≡ total c + 1
unfolding classify
total-classify path before after rule c =
    let x : List ComparedRecord = compared path before after rule c ∷ [] in
    ground (
      arith,
      length-append c.expected_changes x,
      length-append c.required_unchanged x,
      length-append c.unexpected_changes x,
    )

at_path-ok {ℓ} : {A : Type ℓ} (o : Option A) (a : A) → at_path o ≡ ok a → o ≡ some a
unfolding at_path
at_path-ok none a h = cc
at_path-ok (some b) a h = cc

module _ (befores afters : List FileRecord) (rules : List ChangeRule) where
  abbrev Verdict : List Text → Comparison → Comparison → Type 0
  Verdict paths c c' =
      ((c'.unexpected_changes ≡ [])
        ↔ ((c.unexpected_changes ≡ []) × All (AsPlanned befores afters rules) paths))
      × (total c' ≡ total c + length paths)

  compare_path-Verdict :
      (path : Text) (c : Comparison)
      → Ensures (Verdict (path ∷ []) c) (compare_path befores afters rules path c)
  unfolding compare_path
  compare_path-Verdict path c = Ensures-bind (at_path (find_record path befores)) _ λ b eb.
      Ensures-bind (at_path (find_record path afters)) _ λ a ea.
        Ensures-bind (at_path (find_rule path rules)) _ λ r er.
          Ensures-bind (raise_if (not (b.private == a.private)) _) _ λ _ _.
            let fb : find_record path befores ≡ some b =
              at_path-ok (find_record path befores) b eb in
            let fa : find_record path afters ≡ some a = at_path-ok (find_record path afters) a ea in
            let fr : find_rule path rules ≡ some r = at_path-ok (find_rule path rules) r er in
            Ensures-ok (classify path b a r c) (
              (
                λ h.
                    let (none_yet, follows) = classify-Follows path b a r c h in
                    (none_yet, ((b, a, r, fb, fa, fr, follows), tt)),
                λ (none_yet, ((b', a', r', gb, ga, gr, follows), _)).
                    let same_b : b' ≡ b = some-injective b' b (sym gb ∙ fb) in
                    let same_a : a' ≡ a = some-injective a' a (sym ga ∙ fa) in
                    let same_r : r' ≡ r = some-injective r' r (sym gr ∙ fr) in
                    Follows-classify path b a r c
                      (subst (λ x. Follows x a r) same_b
                        (subst (λ x. Follows b' x r) same_a
                          (subst (λ x. Follows b' a' x) same_r follows)))
                      none_yet,
              ),
              total-classify path b a r c,
            )

  compare_paths-Verdict :
      (paths : List Text) (c : Comparison)
      → Ensures (Verdict paths c) (compare_paths befores afters rules paths c)
  unfolding compare_paths
  compare_paths-Verdict [] c = Ensures-ok c ((λ h. (h, tt), λ (h, _). h), omega arith)
  compare_paths-Verdict (path ∷ paths) c =
      Ensures-bind (compare_path befores afters rules path c) _ λ c1 e.
        let (first, grew) = (compare_path-Verdict path c).at c1 e in
        record {
          at = λ c' h.
              let (rest, more) = (compare_paths-Verdict paths c1).at c' h in
              (
                (
                  λ done.
                      let (so_far, all) = rest.0 done in
                      let (none_yet, one) = first.0 so_far in (none_yet, (one.0, all)),
                  λ (none_yet, (one, all)). rest.1 (first.1 (none_yet, (one, tt)), all),
                ),
                omega arith,
              );
        }

index_records-append :
    (items indexed : List FileRecord)
    → Ensures (λ all. all ≡ indexed ++ items) (index_records indexed items)
unfolding index_records
index_records-append [] indexed = Ensures-ok indexed (sym (append-nil indexed))
index_records-append (item ∷ items) indexed = Ensures-bind (validate_record item) _ λ _ _.
    Ensures-bind (duplicate_path item (find_record item.logical_path indexed)) _ λ _ _. record {
      at = λ all h.
          (index_records-append items (indexed ++ (item ∷ []))).at all h
          ∙ append_assoc indexed (item ∷ []) items;
    }

index_rules-append :
    (items indexed : List ChangeRule)
    → Ensures (λ all. all ≡ indexed ++ items) (index_rules indexed items)
unfolding index_rules
index_rules-append [] indexed = Ensures-ok indexed (sym (append-nil indexed))
index_rules-append (rule ∷ rules) indexed = Ensures-bind (validate_rule rule) _ λ _ _.
    Ensures-bind (duplicate_rule rule (find_rule rule.logical_path indexed)) _ λ _ _. record {
      at = λ all h.
          (index_rules-append rules (indexed ++ (rule ∷ []))).at all h
          ∙ append_assoc indexed (rule ∷ []) rules;
    }

indexed_records-eq :
    (s : Snapshot) (all : List FileRecord) → indexed_records s ≡ ok all → all ≡ s.records
unfolding indexed_records
indexed_records-eq s all h =
    let (_, _, k) = >>=-eq-ok (validate_identity s) (λ _. index_records [] s.records) h in
    (index_records-append s.records []).at all k

is_ok_iff : (c : Comparison) → (is_ok c ≡ true) ↔ (c.unexpected_changes ≡ [])
unfolding is_ok
is_ok_iff c = ground arith

module _ (before after : Snapshot) (rules : List ChangeRule) where
  abbrev pub Judged : Comparison → Type 0
  Judged c =
      ((is_ok c ≡ true)
        ↔ All (AsPlanned before.records after.records rules) (map path_of before.records))
      × (total c ≡ length before.records)

  abbrev paths : List Text
  paths = map path_of before.records

  Judged-of_Verdict :
      (c : Comparison)
      → Verdict before.records after.records rules
          (sorted_by (λ path. path) paths)
          nothing_compared
          c
      → Judged c
  Judged-of_Verdict c (verdict, count) =
      let Plan : Text → Type 0 = AsPlanned before.records after.records rules in
      (
        (
          λ h. All-of_sorted_by (λ path. path) Plan paths (verdict.0 ((is_ok_iff c).0 h)).1,
          λ plans.
              (is_ok_iff c).1 (verdict.1 (refl, All-sorted_by (λ path. path) Plan paths plans)),
        ),
        omega (
          arith,
          length-sorted_by (λ (path : Text). path) paths,
          length-map path_of before.records,
        ),
      )

  compare_checked-Judged : Ensures Judged (compare_checked before after rules)
  unfolding compare_checked
  compare_checked-Judged = Ensures-bind (indexed_records before) _ λ bs eb.
      Ensures-bind (indexed_records after) _ λ as_ ea.
        Ensures-bind (raise_if (not (before.transaction_id == after.transaction_id)) _) _ λ _ _.
          Ensures-bind (raise_if (not (before.manifest_sha256 == after.manifest_sha256)) _) _ λ _ _.
            Ensures-bind (raise_if (not (before.steam_root_id == after.steam_root_id)) _) _ λ _ _.
              Ensures-bind (raise_if (not (before.version == after.version)) _) _ λ _ _.
                Ensures-bind (raise_if (not (same_keys (map path_of bs) (map path_of as_))) _) _
                  λ _ _. Ensures-bind (index_rules [] rules) _ λ rs er.
                    Ensures-bind (raise_if (not (same_keys (map rule_path rs) (map path_of bs))) _)
                      _
                      λ _ _.
                        let b : bs ≡ before.records = indexed_records-eq before bs eb in
                        let a : as_ ≡ after.records = indexed_records-eq after as_ ea in
                        let r : rs ≡ rules = (index_rules-append rules []).at rs er in
                        rw (b, a, r)
                          (record {
                            at = λ c h. Judged-of_Verdict c (
                                (compare_paths-Verdict before.records after.records rules
                                    (sorted_by (λ path. path) paths) nothing_compared).at
                                  c h);
                          })

hide-ok {ℓ} :
    {A : Type ℓ} (private : Bool) (text : String) (r : Result A) (a : A)
    → hide private text r ≡ ok a
    → r ≡ ok a
unfolding hide
hide-ok true text (ok b) a h = h
hide-ok true text (err (message m)) a h = cc
hide-ok true text (err (about m t)) a h = cc
hide-ok true text (err (key_error k)) a h = cc
hide-ok true text (err recursion_error) a h = cc
hide-ok true text (err (file_not_found name)) a h = cc
hide-ok false text r a h = h

-- When a comparison succeeds, its `ok` holds exactly if the rule of every path of the snapshot is
-- followed by the two records of the path, and the three lists together have one entry for each
-- record.
pub compare_snapshots-Judged :
    (before after : Snapshot) (rules : List ChangeRule) (c : Comparison)
    → compare_snapshots before after rules ≡ ok c
    → Judged before after rules c
unfolding compare_snapshots
compare_snapshots-Judged before after rules c h =
    (compare_checked-Judged before after rules).at c
      (hide-ok (snapshot_privacy before || snapshot_privacy after) _ _ c h)
