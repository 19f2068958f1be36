-- ===== src/Snapshot/Compare/Privacy.antt =====
-- `compare_snapshots` (forza_bootstrap/snapshot.py) tells nothing of a private record by an error.
use forza_motorsport_linux.Base.{
  String, ◌≡◌, ◌≢◌, refl, sym, inl, inr, Text, true, not, ◌||◌, Option, none, some, List, [], ◌∷◌,
  ◌++◌, map, Result, ok, err, Error, message, about, key_error, recursion_error, file_not_found,
  arith, Raises, Raises-ok, Raises-err, Eq, all_of-All, All-map, All-zip, err-injective, ℕ,
  Raises-bind, Raises-refuse_if, refuse_if-ok, refuse_if, raise_if, IsBootstrapError, All, ◌==◌,
  nat_eq, list_eq, option_eq, bool_eq, contains, sorted_by, All-sorted_by, is_hex_of_length,
  Bool-cases,
}
use forza_motorsport_linux.Snapshot.{
  FileRecord, FileState, absent, regular, ChangeRule, Snapshot, Comparison, file_state_eq,
  snapshot_version, is_mode, is_logical_path, private_comparison_error, require_logical_path,
  require_sha256, require_digest, validate_metadata, validate_record, validate_identity,
  find_record, path_of, duplicate_path, index_records, indexed_records,
}
use forza_motorsport_linux.Snapshot.Compare.{
  validate_after, validate_rule, find_rule, duplicate_rule, index_rules, at_path, compare_path,
  compare_paths, nothing_compared, rule_path, same_keys, hide, compare_checked, compare_snapshots,
  snapshot_privacy, classify,
}

abbrev Safe {ℓ} : {A : Type ℓ} → Result A → Type ℓ
Safe r = Raises IsBootstrapError r

require_logical_path-Safe : (path : Text) (label : String) → Safe (require_logical_path path label)
unfolding require_logical_path
require_logical_path-Safe path label =
    Raises-bind (refuse_if (not (is_logical_path path)) (message label)) _ (Raises-refuse_if _ _ tt)
      λ _ _. Raises-ok path

require_sha256-Safe : (digest : Text) (label : String) → Safe (require_sha256 digest label)
unfolding require_sha256
require_sha256-Safe digest label =
    Raises-bind (refuse_if (not (is_hex_of_length 64 digest)) (message label)) _
      (Raises-refuse_if _ _ tt) λ _ _. Raises-ok digest

require_digest-Safe : (digest : Option Text) → Safe (require_digest digest)
unfolding require_digest
require_digest-Safe none = Raises-err _ tt
require_digest-Safe (some d) =
    Raises-bind (require_sha256 d _) _ (require_sha256-Safe d _) λ _ _. Raises-ok tt

validate_metadata-Safe :
    (state : FileState) (item : FileRecord) → Safe (validate_metadata state item)
unfolding validate_metadata
validate_metadata-Safe absent item = Raises-refuse_if _ _ tt
validate_metadata-Safe regular item =
    Raises-bind (raise_if (not (is_mode item.mode)) _) _ (Raises-refuse_if _ _ tt) λ _ _.
      Raises-bind (raise_if (item.size == none) _) _ (Raises-refuse_if _ _ tt)
        λ _ _. require_digest-Safe item.sha256

validate_record-Safe : (item : FileRecord) → Safe (validate_record item)
unfolding validate_record
validate_record-Safe item =
    Raises-bind (require_logical_path item.logical_path _) _
      (require_logical_path-Safe item.logical_path _) λ _ _. validate_metadata-Safe item.state item

duplicate_path-Safe :
    (item : FileRecord) (earlier : Option FileRecord) → Safe (duplicate_path item earlier)
unfolding duplicate_path
duplicate_path-Safe item none = Raises-ok tt
duplicate_path-Safe item (some earlier) = elim (Bool-cases (item.private || earlier.private)) [
  | inl e ↦ rw e (Raises-err _ tt)
  | inr e ↦ rw e (Raises-err _ tt)
]

index_records-Safe : (items indexed : List FileRecord) → Safe (index_records indexed items)
unfolding index_records
index_records-Safe [] indexed = Raises-ok indexed
index_records-Safe (item ∷ items) indexed =
    Raises-bind (validate_record item) _ (validate_record-Safe item) λ _ _.
      Raises-bind (duplicate_path item (find_record item.logical_path indexed)) _
        (duplicate_path-Safe item (find_record item.logical_path indexed))
        λ _ _. index_records-Safe items (indexed ++ (item ∷ []))

indexed_records-Safe : (s : Snapshot) → Safe (indexed_records s)
unfolding indexed_records validate_identity
indexed_records-Safe s =
    Raises-bind (validate_identity s) _
      (Raises-bind (raise_if (not (s.version == snapshot_version)) _) _ (Raises-refuse_if _ _ tt)
        λ _ _.
          Raises-bind (raise_if (not (is_hex_of_length 24 s.transaction_id)) _) _
            (Raises-refuse_if _ _ tt)
            λ _ _.
              Raises-bind (require_sha256 s.manifest_sha256 _) _
                (require_sha256-Safe s.manifest_sha256 _) λ _ _. Raises-refuse_if _ _ tt)
      λ _ _. index_records-Safe s.records []

validate_after-Safe : (digest : Option Text) (mode : Option ℕ) → Safe (validate_after digest mode)
unfolding validate_after
validate_after-Safe none none = Raises-ok tt
validate_after-Safe none (some m) = Raises-err _ tt
validate_after-Safe (some d) none = Raises-err _ tt
validate_after-Safe (some d) (some m) =
    Raises-bind (require_sha256 d _) _ (require_sha256-Safe d _) λ _ _. Raises-refuse_if _ _ tt

validate_rule-Safe : (rule : ChangeRule) → Safe (validate_rule rule)
unfolding validate_rule
validate_rule-Safe rule =
    Raises-bind (require_logical_path rule.logical_path _) _
      (require_logical_path-Safe rule.logical_path _)
      λ _ _. validate_after-Safe rule.after_sha256 rule.after_mode

duplicate_rule-Safe :
    (rule : ChangeRule) (earlier : Option ChangeRule) → Safe (duplicate_rule rule earlier)
unfolding duplicate_rule
duplicate_rule-Safe rule none = Raises-ok tt
duplicate_rule-Safe rule (some earlier) = Raises-err _ tt

index_rules-Safe : (rules indexed : List ChangeRule) → Safe (index_rules indexed rules)
unfolding index_rules
index_rules-Safe [] indexed = Raises-ok indexed
index_rules-Safe (rule ∷ rules) indexed =
    Raises-bind (validate_rule rule) _ (validate_rule-Safe rule) λ _ _.
      Raises-bind (duplicate_rule rule (find_rule rule.logical_path indexed)) _
        (duplicate_rule-Safe rule (find_rule rule.logical_path indexed))
        λ _ _. index_rules-Safe rules (indexed ++ (rule ∷ []))

-- A path that is among the keys of a dict is found in it.
find_record-ne-none :
    (path : Text) (items : List FileRecord)
    → contains (map path_of items) path ≡ true
    → find_record path items ≢ none
unfolding find_record
find_record-ne-none path [] h e = cc
find_record-ne-none path (item ∷ items) h e = ground (arith, find_record-ne-none path items)

find_rule-ne-none :
    (path : Text) (rules : List ChangeRule)
    → contains (map rule_path rules) path ≡ true
    → find_rule path rules ≢ none
unfolding find_rule
find_rule-ne-none path [] h e = cc
find_rule-ne-none path (rule ∷ rules) h e = ground (arith, find_rule-ne-none path rules)

at_path-Safe {ℓ} : {A : Type ℓ} (o : Option A) → o ≢ none → Safe (at_path o)
unfolding at_path
at_path-Safe none h = absurd (h refl)
at_path-Safe (some a) h = Raises-ok a

module _ (befores afters : List FileRecord) (rules : List ChangeRule) where
  abbrev IsCovered : Text → Type 0
  IsCovered path =
      (contains (map path_of befores) path ≡ true)
      × (contains (map path_of afters) path ≡ true)
      × (contains (map rule_path rules) path ≡ true)

  compare_paths-Safe :
      (paths : List Text) (c : Comparison)
      → All IsCovered paths
      → Safe (compare_paths befores afters rules paths c)
  unfolding compare_paths compare_path
  compare_paths-Safe [] c h = Raises-ok c
  compare_paths-Safe (path ∷ paths) c ((hb, ha, hr), rest) =
      Raises-bind (compare_path befores afters rules path c) _
        (Raises-bind (at_path (find_record path befores)) _
          (at_path-Safe (find_record path befores) (find_record-ne-none path befores hb))
          λ b _.
            Raises-bind (at_path (find_record path afters)) _
              (at_path-Safe (find_record path afters) (find_record-ne-none path afters ha))
              λ a _.
                Raises-bind (at_path (find_rule path rules)) _
                  (at_path-Safe (find_rule path rules) (find_rule-ne-none path rules hr))
                  λ r _.
                    Raises-bind (raise_if (not (b.private == a.private)) _) _
                      (Raises-refuse_if _ _ tt) λ _ _. Raises-ok (classify path b a r c))
        λ c' _. compare_paths-Safe paths c' rest

All-contained {ℓ} : {A : Type ℓ} ⦃e : Eq A⦄ (xs : List A) → All (λ x. contains xs x ≡ true) xs
All-contained [] = tt
All-contained (x ∷ xs) = (
  ground arith,
  All-map (λ y. contains xs y ≡ true) (λ y. contains (x ∷ xs) y ≡ true) xs (λ y h. ground arith)
      (All-contained xs),
)

-- Equal sets of keys cover one another.
same_keys-left : (a b : List Text) → same_keys a b ≡ true → All (λ x. contains b x ≡ true) a
unfolding same_keys
same_keys-left a b h = all_of-All (contains b) a (ground arith)

same_keys-right : (a b : List Text) → same_keys a b ≡ true → All (λ x. contains a x ≡ true) b
unfolding same_keys
same_keys-right a b h = all_of-All (contains a) b (ground arith)

compare_checked-Safe :
    (before after : Snapshot) (rules : List ChangeRule) → Safe (compare_checked before after rules)
unfolding compare_checked
compare_checked-Safe before after rules =
    Raises-bind (indexed_records before) _ (indexed_records-Safe before) λ bs _.
      Raises-bind (indexed_records after) _ (indexed_records-Safe after) λ as_ _.
        Raises-bind (raise_if (not (before.transaction_id == after.transaction_id)) _) _
          (Raises-refuse_if _ _ tt)
          λ _ _.
            Raises-bind (raise_if (not (before.manifest_sha256 == after.manifest_sha256)) _) _
              (Raises-refuse_if _ _ tt)
              λ _ _.
                Raises-bind (raise_if (not (before.steam_root_id == after.steam_root_id)) _) _
                  (Raises-refuse_if _ _ tt)
                  λ _ _.
                    Raises-bind (raise_if (not (before.version == after.version)) _) _
                      (Raises-refuse_if _ _ tt)
                      λ _ _.
                        Raises-bind
                          (raise_if (not (same_keys (map path_of bs) (map path_of as_))) _) _
                          (Raises-refuse_if _ _ tt)
                          λ _ ha.
                            Raises-bind (index_rules [] rules) _ (index_rules-Safe rules []) λ rs _.
                              Raises-bind
                                (raise_if (not (same_keys (map rule_path rs) (map path_of bs))) _) _
                                (Raises-refuse_if _ _ tt)
                                λ _ hr.
                                  let ps : List Text = map path_of bs in
                                  let covered : All (IsCovered bs as_ rs) ps =
                                    let in_after : Text → Type 0 =
                                      λ p. contains (map path_of as_) p ≡ true in
                                    let in_rules : Text → Type 0 =
                                      λ p. contains (map rule_path rs) p ≡ true in
                                    let in_before : Text → Type 0 = λ p. contains ps p ≡ true in
                                    All-map (λ p. in_before p × (in_after p × in_rules p))
                                      (IsCovered bs as_ rs) ps (λ p (b, (a, r)). (b, a, r))
                                      (All-zip in_before (λ p. in_after p × in_rules p) ps
                                        (All-contained ps)
                                        (All-zip in_after in_rules ps
                                          (same_keys-left ps (map path_of as_)
                                            (ground (arith, refuse_if-ok _ _ _ ha)))
                                          (same_keys-right (map rule_path rs) ps
                                            (ground (arith, refuse_if-ok _ _ _ hr))))) in
                                  compare_paths-Safe bs as_ rs (sorted_by (λ path. path) ps)
                                    nothing_compared
                                    (All-sorted_by (λ path. path) (IsCovered bs as_ rs) ps covered)

hide-private {ℓ} :
    {A : Type ℓ} (text : String) (r : Result A) (e : Error)
    → Safe r
    → hide true text r ≡ err e
    → e ≡ message text
unfolding hide
hide-private text (ok a) e safe h = cc
hide-private {A = A} text (err (message m)) e safe h = sym (err-injective A h)
hide-private {A = A} text (err (about m t)) e safe h = sym (err-injective A h)
hide-private text (err (key_error k)) e safe h = absurd (safe.at (key_error k) refl)
hide-private text (err recursion_error) e safe h = absurd (safe.at recursion_error refl)
hide-private text (err (file_not_found name)) e safe h = absurd (safe.at (file_not_found name) refl)

-- Where a record of either snapshot is private, a comparison that fails says nothing but that a
-- private comparison failed: the one error carries no path, and no lookup raises KeyError.
pub compare_snapshots-private :
    (before after : Snapshot) (rules : List ChangeRule) (e : Error)
    → (snapshot_privacy before || snapshot_privacy after) ≡ true
    → compare_snapshots before after rules ≡ err e
    → e ≡ message private_comparison_error
unfolding compare_snapshots
compare_snapshots-private before after rules e private h =
    hide-private private_comparison_error (compare_checked before after rules) e
      (compare_checked-Safe before after rules) (rw private at h)
