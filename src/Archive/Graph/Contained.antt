-- ===== src/Archive/Graph/Contained.antt =====
-- Member names and link targets that forza_bootstrap/artifacts.py accepts stay below the root of
-- their archive: `_normalized_member_name`, `_resolved_link`, `_safe_relative_path`.
use forza_motorsport_linux.Base.{
  ◌≡◌, ◌≢◌, refl, sym, ap, ◌∙◌, ◌⊎◌, inl, inr, Text, true, false, false≢true, not, ◌||◌, List, [],
  ◌∷◌, ◌++◌, ok, arith, Ensures, Ensures-ok, Ensures-bind, refuse_if-ok, raise_if, All, ◌==◌,
  ==_iff, nat_eq, list_eq, option_eq, contains, any_of, starts_with, starts_with-append, split,
  join, Bool-cases,
}
use mathlib.Core.List.{append_assoc}
use forza_motorsport_linux.Paths.{
  slash, dot_text, dot_dot, normpath, is_control, dirname, join_paths,
}
use forza_motorsport_linux.Paths.Normal.{
  IsSafePart, HasNo, first_or, split-HasNo, split-append, join-split, normpath-safe,
}
use forza_motorsport_linux.Archive.{
  ArchiveMember, MemberKind, hardlink, is_short, is_encodable, is_safe_root, is_inside,
  normalized_member_name, safe_relative_path,
}
use forza_motorsport_linux.Archive.Graph.{link_text, link_path, resolved_link}

-- Every component names an entry of its directory.
abbrev pub IsContained : Text → Type 0
IsContained path = All IsSafePart (split slash path)

-- A path whose first component is `..` is `..` or begins with `../`.
first_dot_dot :
    (parts : List Text)
    → first_or [] parts ≡ dot_dot
    → (join slash parts ≡ dot_dot)
      ⊎ (starts_with (join slash parts) (b'.' ∷ b'.' ∷ slash ∷ []) ≡ true)
unfolding join starts_with
first_dot_dot [] e = cc
first_dot_dot (part ∷ []) e = inl e
first_dot_dot (part ∷ next ∷ parts) e = inr (rw e (ground arith))

first-ne-dot_dot :
    (path : Text)
    → path ≢ dot_dot
    → starts_with path (b'.' ∷ b'.' ∷ slash ∷ []) ≡ false
    → first_or [] (split slash path) ≢ dot_dot
first-ne-dot_dot path named below e = elim (first_dot_dot (split slash path) e) [
  | inl d ↦ named (sym (join-split slash path) ∙ d)
  | inr d ↦ false≢true (
      sym below
      ∙ (ap (λ t. starts_with t (b'.' ∷ b'.' ∷ slash ∷ [])) (sym (join-split slash path)) ∙ d))
]

-- A path equal to its normal form, relative, and neither above nor at the current directory.
normal-IsContained :
    (path : Text)
    → normpath path ≡ path
    → starts_with path (slash ∷ []) ≡ false
    → path ≢ dot_text
    → path ≢ dot_dot
    → starts_with path (b'.' ∷ b'.' ∷ slash ∷ []) ≡ false
    → IsContained path
normal-IsContained path normal relative here above below =
    let safe : starts_with (normpath path) (slash ∷ []) ≡ false
        → normpath path ≢ dot_text
        → first_or [] (split slash (normpath path)) ≢ dot_dot
        → All IsSafePart (split slash (normpath path)) =
      normpath-safe path in
    (rw normal at safe) relative here (first-ne-dot_dot path above below)

abbrev Named : Text → List Text → Text × List Text → Type 0
Named raw seen (name, seen') =
    (name ≡ raw) × (contains seen raw ≡ false) × (seen' ≡ raw ∷ seen) × IsContained name

normalized_member_name-Named :
    (raw : Text) (seen : List Text) → Ensures (Named raw seen) (normalized_member_name raw seen)
unfolding normalized_member_name
normalized_member_name-Named raw seen = Ensures-bind (raise_if (raw == []) _) _ λ _ _.
    Ensures-bind (raise_if (contains seen (normpath raw)) _) _ λ _ new.
      Ensures-bind
        (raise_if
          (not (raw == normpath raw)
            || starts_with raw (slash ∷ [])
            || contains ([] ∷ dot_text ∷ dot_dot ∷ []) (normpath raw)
            || starts_with (normpath raw) (b'.' ∷ b'.' ∷ slash ∷ [])
            || contains raw 0
            || any_of is_control raw)
          _)
        _
        λ _ safe. Ensures-bind (raise_if (not (is_short raw)) _) _ λ _ _.
          let fresh : contains seen (normpath raw) ≡ false = refuse_if-ok _ _ _ new in
          let fact = refuse_if-ok _ _ _ safe in
          let normal : normpath raw ≡ raw = ground arith in
          Ensures-ok (normpath raw, normpath raw ∷ seen)
            (
              normal,
              rw normal at fresh,
              ap (λ t. t ∷ seen) normal,
              rw normal (
                  normal-IsContained raw normal (ground arith) (ground arith) (ground arith)
                    (ground arith)),
            )

-- An accepted name is the raw name itself, was not seen before, is recorded as seen, and has safe
-- components only: it is relative and leads to no directory above.
pub normalized_member_name-IsContained :
    (raw : Text) (seen : List Text) (name : Text) (seen' : List Text)
    → normalized_member_name raw seen ≡ ok (name, seen')
    → (name ≡ raw) × (contains seen raw ≡ false) × (seen' ≡ raw ∷ seen) × IsContained name
normalized_member_name-IsContained raw seen name seen' h =
    (normalized_member_name-Named raw seen).at (name, seen') h

safe_relative_path-Ensures :
    (value : Text) → Ensures (λ path. (path ≡ value) × IsContained path) (safe_relative_path value)
unfolding safe_relative_path
safe_relative_path-Ensures value = Ensures-bind (raise_if (value == []) _) _ λ _ _.
    Ensures-bind
      (raise_if
        (not (value == normpath value)
          || starts_with value (slash ∷ [])
          || contains (dot_text ∷ dot_dot ∷ []) (normpath value)
          || starts_with (normpath value) (b'.' ∷ b'.' ∷ slash ∷ [])
          || contains value 0
          || any_of is_control value)
        _)
      _
      λ _ safe. Ensures-bind (raise_if (not (is_encodable value)) _) _ λ _ _.
        let fact = refuse_if-ok _ _ _ safe in
        let normal : normpath value ≡ value = ground arith in
        Ensures-ok value (
          refl,
          normal-IsContained value normal (ground arith) (ground arith) (ground arith)
              (ground arith),
        )

-- A path of a bundle's manifest that is accepted is unchanged and has safe components only: it is
-- relative and leads to no directory above.
pub safe_relative_path-IsContained :
    (value path : Text) → safe_relative_path value ≡ ok path → (path ≡ value) × IsContained path
safe_relative_path-IsContained value path h = (safe_relative_path-Ensures value).at path h

-- The first component of a path inside a root is the root.
pub first-is_inside :
    (root path : Text)
    → HasNo slash root
    → is_inside root path ≡ true
    → first_or [] (split slash path) ≡ root
unfolding is_inside
first-is_inside root path flat h = elim (Bool-cases (path == root)) [
  | inl same ↦ rw ((==_iff path root).0 same) (ap (first_or []) (split-HasNo slash root flat))
  | inr below ↦
      let (rest, e) = starts_with-append path (root ++ (slash ∷ [])) (ground arith) in
      ap (λ t. first_or [] (split slash t)) (e ∙ append_assoc root (slash ∷ []) rest)
      ∙ ap (first_or []) (split-append slash root rest flat)
]

pub IsSafeRoot-part : (root : Text) → is_safe_root root ≡ true → IsSafePart root × HasNo slash root
unfolding is_safe_root
IsSafeRoot-part root h = (
  record { nonempty = ground arith; no_dot = ground arith; no_dot_dot = ground arith },
  ground arith,
)

rooted-first :
    (path : Text) → starts_with path (slash ∷ []) ≡ true → first_or [] (split slash path) ≡ []
unfolding starts_with split
rooted-first [] h = cc
rooted-first (c ∷ path) h = ground arith

-- A normal form inside a safe root has safe components only.
normpath-inside :
    (root path : Text)
    → is_safe_root root ≡ true
    → is_inside root (normpath path) ≡ true
    → IsContained (normpath path)
normpath-inside root path safe inside =
    let (part, flat) = IsSafeRoot-part root safe in
    let first : first_or [] (split slash (normpath path)) ≡ root =
      first-is_inside root (normpath path) flat inside in
    normpath-safe path
      (elim (Bool-cases (starts_with (normpath path) (slash ∷ []))) [
        | inl rooted ↦ absurd (part.nonempty (sym first ∙ rooted-first (normpath path) rooted))
        | inr relative ↦ relative
      ])
      (λ e. part.no_dot (
        sym first
        ∙ (ap (λ t. first_or [] (split slash t)) e
            ∙ ap (first_or []) (split-HasNo slash dot_text (unfold nat_eq in refl)))))
      (λ e. part.no_dot_dot (sym first ∙ e))

resolved_link-Ensures :
    (member : ArchiveMember) (root : Text)
    → is_safe_root root ≡ true
    → Ensures (λ path. (is_inside root path ≡ true) × IsContained path) (resolved_link member root)
unfolding resolved_link link_path
resolved_link-Ensures member root safe = Ensures-bind (link_text member.link_target) _ λ target _.
    Ensures-bind (raise_if (not (is_inside root (link_path member.kind member.path target))) _) _
      λ _ e.
        let inside : is_inside root (link_path member.kind member.path target) ≡ true =
          ground (arith, refuse_if-ok _ _ _ e) in
        Ensures-ok _ (inside, link_path-contained member.kind target inside)
  where
    link_path-contained :
        (kind : MemberKind) (target : Text)
        → is_inside root (link_path kind member.path target) ≡ true
        → IsContained (link_path kind member.path target)
    link_path-contained hardlink target h = normpath-inside root target safe h
    link_path-contained _ target h =
        normpath-inside root (join_paths (dirname member.path) target) safe h

-- Under a safe root, a link that is accepted leads to the root of the archive or below it, and the path that it
-- resolves to has no `..` among its components.
pub resolved_link-IsContained :
    (member : ArchiveMember) (root path : Text)
    → is_safe_root root ≡ true
    → resolved_link member root ≡ ok path
    → (is_inside root path ≡ true) × IsContained path
resolved_link-IsContained member root path safe h =
    (resolved_link-Ensures member root safe).at path h
