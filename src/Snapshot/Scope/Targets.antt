-- ===== src/Snapshot/Scope/Targets.antt =====
-- The targets of a scope that `build_snapshot_scope` (forza_bootstrap/snapshot.py) makes.
mod Names
use forza_motorsport_linux.Base.{
  ℕ, ◌≤◌, ◌<◌, ◌≡◌, ◌≢◌, refl, sym, ap, ◌∙◌, subst, ◌⊎◌, inl, inr, Text, Bool, true, false,
  false≢true, not, ◌&&◌, List, [], ◌∷◌, ◌++◌, map, ok, err, String, message, about, raise, ◌||◌,
  any_of, all_of-All, raise_if, refuse_if, arith, ◌==◌, ==_iff, nat_eq, list_eq, contains, length,
  All, All-append, All-map, Among, split, is_digit, ltb, Bool-cases, length-sorted_by,
  All-sorted_by, All-of_sorted_by, IsDistinctBy, sorted_by, sorted_by-IsDistinctBy,
  append-IsDistinctBy, Ensures, Ensures-ok, Ensures-err, Ensures-bind, Ensures-if, refuse_if-ok,
  is_hex_of_length, if◌then◌else◌,
}
use mathlib.Core.List.{append-nil, append_assoc}
use forza_motorsport_linux.Paths.Normal.{IsSafePart}
use forza_motorsport_linux.Model.{ArtifactSpec}
use forza_motorsport_linux.Snapshot.{
  SnapshotTarget, private_capture_error, SnapshotScope, is_logical_path, require_logical_path,
  require_sha256, unsafe_character, is_dots_or_empty,
}
use forza_motorsport_linux.Snapshot.Scope.{
  is_root_name, is_lower, Scoping, duplicate_target, add_target, add_artifacts, add_root, add_roots,
  no_targets, build_snapshot_scope,
}
use forza_motorsport_linux.Snapshot.Scope.Targets.Names.{
  IsRelativePath, IsRootName, is_logical_path-IsRelativePath, is_root_name-IsRootName,
}

abbrev pub path_of_target : SnapshotTarget → Text
path_of_target target = target.logical_path

abbrev pub IsTarget : SnapshotTarget → Type 0
IsTarget target =
    IsRelativePath target.logical_path
    × IsRelativePath target.relative_path
    × IsRootName target.root_name

-- The target that an artifact of a root asks for.
abbrev target_of : Text → ArtifactSpec → SnapshotTarget
target_of root_name artifact = record {
  logical_path = artifact.logical_name;
  root_name = root_name;
  relative_path = artifact.relative_path;
  private = artifact.private;
}

unfoldable pub expected_targets : List (Text × List ArtifactSpec) → List SnapshotTarget
expected_targets [] = []
expected_targets ((root_name, artifacts) ∷ roots) =
    map (target_of root_name) artifacts ++ expected_targets roots

record IsScoped (made : List SnapshotTarget) (s : Scoping) : Type 0 where
  targets : All IsTarget s.targets
  distinct : IsDistinctBy path_of_target s.targets
  seen : All (λ t. contains s.seen t.logical_path ≡ true) s.targets
  made_up : s.targets ≡ made

require_logical_path-eq :
    (path : Text) (label : String)
    → Ensures (λ t. (t ≡ path) × IsRelativePath path) (require_logical_path path label)
unfolding require_logical_path
require_logical_path-eq path label =
    let bad = not (is_logical_path path) in
    Ensures-bind (refuse_if bad (message label)) _ λ u e.
      let b : bad ≡ false = refuse_if-ok bad _ u e in
      Ensures-ok path (refl, is_logical_path-IsRelativePath path (ground arith))

-- A path that was seen before ends the call.
seen-raises :
    (artifact : ArtifactSpec) (targets : List SnapshotTarget) (was_seen : Bool)
    → Ensures
        (λ _. was_seen ≡ false)
        (if was_seen then duplicate_target artifact targets else ok tt)
unfolding duplicate_target
seen-raises artifact targets true =
    Ensures-if
      (artifact.private
        || any_of (λ target. target.logical_path == artifact.logical_name && target.private)
            targets)
      (raise private_capture_error)
      (err (about "duplicate snapshot logical path: " artifact.logical_name)) (λ _. Ensures-err _)
      (λ _. Ensures-err _)
seen-raises artifact targets false = Ensures-ok tt refl

added-IsScoped :
    (made : List SnapshotTarget) (s : Scoping) (t : SnapshotTarget)
    → IsScoped made s
    → IsTarget t
    → contains s.seen t.logical_path ≡ false
    → IsScoped
        (made ++ (t ∷ []))
        (record { targets = s.targets ++ (t ∷ []); seen = t.logical_path ∷ s.seen })
added-IsScoped made s t v target new = record {
  targets = All-append IsTarget s.targets (t ∷ []) v.targets (target, tt);
  distinct =
      append-IsDistinctBy path_of_target s.targets t
        (All-map (λ u. contains s.seen u.logical_path ≡ true) (λ u. u.logical_path ≢ t.logical_path)
          s.targets (λ u h e. false≢true (sym new ∙ ap (contains s.seen) (sym e) ∙ h)) v.seen)
        v.distinct;
  seen =
      All-append (λ u. contains (t.logical_path ∷ s.seen) u.logical_path ≡ true) s.targets (t ∷ [])
        (All-map (λ u. contains s.seen u.logical_path ≡ true)
          (λ u. contains (t.logical_path ∷ s.seen) u.logical_path ≡ true) s.targets
          (λ u h. ground arith) v.seen)
        (ground arith, tt);
  made_up = ap (λ l. l ++ (t ∷ [])) v.made_up;
}

add_target-IsScoped :
    (root_name : Text) (artifact : ArtifactSpec) (made : List SnapshotTarget) (s : Scoping)
    → is_root_name root_name ≡ true
    → IsScoped made s
    → Ensures
        (IsScoped (made ++ (target_of root_name artifact ∷ [])))
        (add_target root_name artifact s)
unfolding add_target
add_target-IsScoped root_name artifact made s named v =
    Ensures-bind (require_logical_path artifact.logical_name _) _ λ logical el.
      Ensures-bind (require_logical_path artifact.relative_path _) _ λ relative er.
        Ensures-bind
          (if contains s.seen logical then duplicate_target artifact s.targets else ok tt) _
          λ u eu.
            let (l, hl) = (require_logical_path-eq artifact.logical_name _).at logical el in
            let (r, hr) = (require_logical_path-eq artifact.relative_path _).at relative er in
            let new = (seen-raises artifact s.targets (contains s.seen logical)).at u eu in
            Ensures-ok _ (
              subst
                (λ t.
                  IsScoped (made ++ (target_of root_name artifact ∷ []))
                    (record { targets = s.targets ++ (t ∷ []); seen = t.logical_path ∷ s.seen }))
                (λ i. record {
                  logical_path = sym l i;
                  root_name = root_name;
                  relative_path = sym r i;
                  private = artifact.private;
                })
                (added-IsScoped made s (target_of root_name artifact) v
                  (hl, hr, is_root_name-IsRootName root_name named)
                  (ap (contains s.seen) (sym l) ∙ new)))

add_artifacts-IsScoped :
    (root_name : Text) (artifacts : List ArtifactSpec) (made : List SnapshotTarget) (s : Scoping)
    → is_root_name root_name ≡ true
    → IsScoped made s
    → Ensures
        (IsScoped (made ++ map (target_of root_name) artifacts))
        (add_artifacts root_name artifacts s)
unfolding add_artifacts
add_artifacts-IsScoped root_name [] made s named v =
    Ensures-ok s (subst (λ k. IsScoped k s) (sym (append-nil made)) v)
add_artifacts-IsScoped root_name (artifact ∷ artifacts) made s named v =
    let t : SnapshotTarget = target_of root_name artifact in
    Ensures-bind (add_target root_name artifact s) _ λ next e.
      subst (λ k. Ensures (IsScoped k) (add_artifacts root_name artifacts next))
        (append_assoc made (t ∷ []) (map (target_of root_name) artifacts))
        (add_artifacts-IsScoped root_name artifacts (made ++ (t ∷ [])) next named
          ((add_target-IsScoped root_name artifact made s named v).at next e))

add_roots-IsScoped :
    (roots : List (Text × List ArtifactSpec)) (made : List SnapshotTarget) (s : Scoping)
    → IsScoped made s
    → Ensures (IsScoped (made ++ expected_targets roots)) (add_roots roots s)
unfolding add_roots add_root expected_targets
add_roots-IsScoped [] made s v = Ensures-ok s (subst (λ k. IsScoped k s) (sym (append-nil made)) v)
add_roots-IsScoped ((root_name, artifacts) ∷ roots) made s v =
    let bad = not (is_root_name root_name) in
    let here : List SnapshotTarget = map (target_of root_name) artifacts in
    Ensures-bind (add_root (root_name, artifacts) s) _ λ next e.
      let scoped : Ensures (IsScoped (made ++ here)) (add_root (root_name, artifacts) s) =
        Ensures-bind (raise_if bad _) _ λ u eu.
          let b : bad ≡ false = refuse_if-ok bad _ u eu in
          add_artifacts-IsScoped root_name artifacts made s (ground arith) v in
      subst (λ k. Ensures (IsScoped k) (add_roots roots next))
        (append_assoc made here (expected_targets roots))
        (add_roots-IsScoped roots (made ++ here) next (scoped.at next e))

no_targets-IsScoped : IsScoped [] no_targets
unfolding IsDistinctBy
no_targets-IsScoped = record { targets = tt; distinct = tt; seen = tt; made_up = refl }

All-Among : {A : Type 0} (xs ys : List A) → ((x : A) → Among xs x → Among ys x) → All (Among ys) xs
unfolding Among
All-Among [] ys f = tt
All-Among (x ∷ xs) ys f = (f x (inl refl), All-Among xs ys (λ y h. f y (inr h)))

-- What a scope's targets are: those that the artifacts ask for, each once.
pub record IsScope (roots : List (Text × List ArtifactSpec)) (targets : List SnapshotTarget)
    : Type 0 where
  pub expected : All (Among (expected_targets roots)) targets
  pub complete : All (Among targets) (expected_targets roots)
  pub count : length targets ≡ length (expected_targets roots)
  pub distinct : IsDistinctBy path_of_target targets
  pub valid : All IsTarget targets

-- The targets of a scope that is built are those that the artifacts of its roots ask for, each once:
-- no two have the same logical path. Both paths of a target are relative, have no empty, `.` or `..`
-- component and no control character or surrogate; the name of its root begins with a lower-case
-- letter and has lower-case letters, digits, `_` and `-` only.
pub build_snapshot_scope-IsTarget :
    (transaction_id manifest_sha256 : Text) (roots : List (Text × List ArtifactSpec))
    (scope : SnapshotScope)
    → build_snapshot_scope transaction_id manifest_sha256 roots ≡ ok scope
    → IsScope roots scope.targets
unfolding build_snapshot_scope
build_snapshot_scope-IsTarget transaction_id manifest_sha256 roots scope h = outcome.at scope h
  where
    outcome :
        Ensures
          (λ c. IsScope roots c.targets)
          (build_snapshot_scope transaction_id manifest_sha256 roots)
    outcome = Ensures-bind (raise_if (not (is_hex_of_length 24 transaction_id)) _) _ λ _ _.
        Ensures-bind (require_sha256 manifest_sha256 _) _ λ _ _.
          Ensures-bind (add_roots roots no_targets) _ λ s e.
            let v : IsScoped ([] ++ expected_targets roots) s =
              (add_roots-IsScoped roots [] no_targets no_targets-IsScoped).at s e in
            let sorted : List SnapshotTarget = sorted_by path_of_target s.targets in
            let all : List SnapshotTarget = expected_targets roots in
            Ensures-ok _ (record {
              expected =
                  subst (λ l. All (Among l) sorted) v.made_up
                    (All-sorted_by path_of_target (Among s.targets) s.targets
                      (All-Among s.targets s.targets (λ x a. a)));
              complete =
                  subst (λ l. All (Among sorted) l) v.made_up
                    (All-of_sorted_by path_of_target (Among sorted) s.targets
                      (All-Among sorted sorted (λ x a. a)));
              count = length-sorted_by path_of_target s.targets ∙ ap length v.made_up;
              distinct = sorted_by-IsDistinctBy path_of_target s.targets v.distinct;
              valid = All-sorted_by path_of_target IsTarget s.targets v.targets;
            })
