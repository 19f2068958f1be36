-- ===== src/Paths/Normal.antt =====
-- What `normpath` returns: components that are safe, below leading `..` components at most.
use forza_motorsport_linux.Base.{
  ℕ, ◌≡◌, ◌≢◌, refl, sym, ap, ◌∙◌, ◌⊎◌, inl, inr, Text, Bool, true, false, not, ◌&&◌, ◌||◌,
  false≢true, List, [], ◌∷◌, ◌++◌, arith, All, All-map, ◌==◌, ==_iff, nat_eq, list_eq, contains,
  starts_with, split, onto_first, join, drop, Bool-cases,
}
use forza_motorsport_linux.Paths.{
  slash, dot_text, dot_dot, reverse_onto, is_kept, push_component, normal_stack, initial_slashes,
  or_dot, normal_parts, normpath,
}

-- A component that names an entry of its directory.
pub record IsSafePart (part : Text) : Type 0 where
  pub nonempty : part ≢ []
  pub no_dot : part ≢ dot_text
  pub no_dot_dot : part ≢ dot_dot

abbrev pub HasNo : ℕ → Text → Type 0
HasNo s part = contains part s ≡ false

HasNo-onto_first :
    (s c : ℕ) (parts : List Text)
    → (c == s) ≡ false
    → All (HasNo s) parts
    → All (HasNo s) (onto_first c parts)
unfolding onto_first
HasNo-onto_first s c [] h hs = (ground arith, tt)
HasNo-onto_first s c (p ∷ parts) h hs = (ground arith, hs.1)

-- The parts of a split do not hold the separator.
pub HasNo-split : (s : ℕ) (text : Text) → All (HasNo s) (split s text)
unfolding split
HasNo-split s [] = (refl, tt)
HasNo-split s (c ∷ text) = elim (Bool-cases (c == s)) [
  | inl e ↦ rw e (refl, HasNo-split s text)
  | inr e ↦ rw e (HasNo-onto_first s c (split s text) e (HasNo-split s text))
]

pub split-HasNo : (s : ℕ) (part : Text) → HasNo s part → split s part ≡ part ∷ []
unfolding split onto_first
split-HasNo s [] h = refl
split-HasNo s (c ∷ part) h = ground (arith, split-HasNo s part)

pub split-append :
    (s : ℕ) (part rest : Text) → HasNo s part → split s (part ++ (s ∷ rest)) ≡ part ∷ split s rest
unfolding split onto_first
split-append s [] rest h = ground arith
split-append s (c ∷ part) rest h = ground (arith, split-append s part rest)

-- Splitting what was joined gives the parts back.
pub split-join :
    (s : ℕ) (part : Text) (parts : List Text)
    → HasNo s part
    → All (HasNo s) parts
    → split s (join s (part ∷ parts)) ≡ part ∷ parts
unfolding join
split-join s part [] h hs = split-HasNo s part h
split-join s part (next ∷ parts) h hs =
    split-append s part _ h ∙ ap (λ t. part ∷ t) (split-join s next parts hs.0 hs.1)

split-ne-nil : (s : ℕ) (text : Text) → split s text ≢ []
unfolding split onto_first
split-ne-nil s [] e = cc
split-ne-nil s (c ∷ text) e = ground (arith, split-ne-nil s text)

join-onto_first :
    (s c : ℕ) (parts : List Text) → parts ≢ [] → join s (onto_first c parts) ≡ c ∷ join s parts
unfolding join onto_first
join-onto_first s c [] h = absurd (h refl)
join-onto_first s c (p ∷ []) h = refl
join-onto_first s c (p ∷ q ∷ parts) h = refl

join-nil : (s : ℕ) (parts : List Text) → parts ≢ [] → join s ([] ∷ parts) ≡ s ∷ join s parts
unfolding join
join-nil s [] h = absurd (h refl)
join-nil s (p ∷ parts) h = refl

-- Joining what was split gives the text back.
pub join-split : (s : ℕ) (text : Text) → join s (split s text) ≡ text
unfolding split
join-split s [] = unfold join in refl
join-split s (c ∷ text) = elim (Bool-cases (c == s)) [
  | inl e ↦
      rw e
        (join-nil s (split s text) (split-ne-nil s text) ∙ cc (join-split s text, (==_iff c s).0 e))
  | inr e ↦ rw e (
      join-onto_first s c (split s text) (split-ne-nil s text)
      ∙ ap (λ t. c ∷ t) (join-split s text))
]

-- What the stack of `normpath` holds: named components, with `..` only under `..`.
abbrev IsNamed : Text → Type 0
IsNamed part = (part ≢ []) × (part ≢ dot_text) × HasNo slash part

abbrev HasShape : List Text → Type 0
HasShape [] = Unit
HasShape (top ∷ stack) =
    IsNamed top × (top ≡ dot_dot → All (λ part. part ≡ dot_dot) stack) × HasShape stack

HasShape-drop : (stack : List Text) → HasShape stack → HasShape (drop 1 stack)
HasShape-drop [] h = tt
HasShape-drop (top ∷ stack) h = h.2

-- A component is pushed onto a stack that it may stand on.
HasShape-cons :
    (rooted : Bool) (part : Text) (stack : List Text)
    → IsNamed part
    → is_kept rooted part stack ≡ true
    → HasShape stack
    → HasShape (part ∷ stack)
unfolding is_kept
HasShape-cons rooted part [] named kept h = (named, (λ e. tt), tt)
HasShape-cons rooted part (top ∷ stack) named kept h =
    (named, (λ e. let t : top ≡ dot_dot = ground arith in (t, h.1 t)), h)

HasShape-push_component :
    (rooted : Bool) (part : Text) (stack : List Text)
    → HasNo slash part
    → HasShape stack
    → HasShape (push_component rooted part stack)
unfolding push_component
HasShape-push_component rooted part stack flat h =
    elim (Bool-cases (part == [] || part == dot_text)) [
      | inl skip ↦ rw skip h
      | inr named ↦ rw named (elim (Bool-cases (is_kept rooted part stack)) [
        | inl kept ↦
            rw kept (HasShape-cons rooted part stack (ground arith, ground arith, flat) kept h)
        | inr up ↦ rw up (HasShape-drop stack h)
      ])
    ]

HasShape-normal_stack :
    (rooted : Bool) (parts stack : List Text)
    → All (HasNo slash) parts
    → HasShape stack
    → HasShape (normal_stack rooted parts stack)
unfolding normal_stack
HasShape-normal_stack rooted [] stack flat h = h
HasShape-normal_stack rooted (part ∷ parts) stack flat h =
    HasShape-normal_stack rooted parts (push_component rooted part stack) flat.1
      (HasShape-push_component rooted part stack flat.0 h)

abbrev bottom_or : Text → List Text → Text
bottom_or d [] = d
bottom_or d (top ∷ stack) = bottom_or top stack

abbrev pub first_or : Text → List Text → Text
first_or d [] = d
first_or d (part ∷ parts) = part

first_or-reverse_onto :
    (d : Text) (stack acc : List Text)
    → first_or d (reverse_onto stack acc) ≡ bottom_or (first_or d acc) stack
unfolding reverse_onto
first_or-reverse_onto d [] acc = refl
first_or-reverse_onto d (top ∷ stack) acc = first_or-reverse_onto d stack (top ∷ acc)

bottom_or-dot_dot :
    (d : Text) (stack : List Text)
    → d ≡ dot_dot
    → All (λ part. part ≡ dot_dot) stack
    → bottom_or d stack ≡ dot_dot
bottom_or-dot_dot d [] e h = e
bottom_or-dot_dot d (top ∷ stack) e h = bottom_or-dot_dot top stack h.0 h.1

-- Without `..` at the bottom there is none.
HasShape-safe :
    (d : Text) (stack : List Text)
    → HasShape stack
    → bottom_or d stack ≢ dot_dot
    → All (λ part. IsSafePart part × HasNo slash part) stack
HasShape-safe d [] h b = tt
HasShape-safe d (top ∷ stack) h b = (
  (
    record {
      nonempty = h.0.0;
      no_dot = h.0.1;
      no_dot_dot = λ e. b (bottom_or-dot_dot top stack e (h.1 e));
    },
    h.0.2,
  ),
  HasShape-safe top stack h.2 b,
)

All-reverse_onto {κ} :
    (P : Text → Type κ) (xs acc : List Text) → All P xs → All P acc → All P (reverse_onto xs acc)
unfolding reverse_onto
All-reverse_onto P [] acc h k = k
All-reverse_onto P (x ∷ xs) acc h k = All-reverse_onto P xs (x ∷ acc) h.1 (h.0, k)

-- The components of a normalised path are safe if the first is not `..`.
normal_parts-safe :
    (path : Text)
    → first_or [] (normal_parts path) ≢ dot_dot
    → All (λ part. IsSafePart part × HasNo slash part) (normal_parts path)
unfolding normal_parts
normal_parts-safe path h =
    let stack : List Text = normal_stack (starts_with path (slash ∷ [])) (split slash path) [] in
    All-reverse_onto _ stack []
      (HasShape-safe [] stack
        (HasShape-normal_stack _ (split slash path) [] (HasNo-split slash path) tt)
        (λ e. h (first_or-reverse_onto [] stack [] ∙ e)))
      tt

normal_parts-HasNo : (path : Text) → All (HasNo slash) (normal_parts path)
unfolding normal_parts
normal_parts-HasNo path =
    let stack : List Text = normal_stack (starts_with path (slash ∷ [])) (split slash path) [] in
    All-reverse_onto _ stack []
      (flat stack (HasShape-normal_stack _ (split slash path) [] (HasNo-split slash path) tt)) tt
  where
    flat : (stack : List Text) → HasShape stack → All (HasNo slash) stack
    flat [] h = tt
    flat (top ∷ stack) h = (h.0.2, flat stack h.2)

or_dot-ne : (text : Text) → or_dot text ≢ dot_text → or_dot text ≡ text
unfolding or_dot
or_dot-ne [] h = absurd (h refl)
or_dot-ne (c ∷ text) h = refl

split-or_dot :
    (parts : List Text)
    → All (HasNo slash) parts
    → or_dot (join slash parts) ≢ dot_text
    → split slash (or_dot (join slash parts)) ≡ parts
split-or_dot [] flat h = absurd (h (unfold or_dot join in refl))
split-or_dot (part ∷ parts) flat h =
    ap (split slash) (or_dot-ne (join slash (part ∷ parts)) h)
    ∙ split-join slash part parts flat.0 flat.1

initial_slashes-cases :
    (path : Text)
    → (initial_slashes path ≡ []) ⊎ ((rest : Text) × (initial_slashes path ≡ slash ∷ rest))
unfolding initial_slashes
initial_slashes-cases path = elim (Bool-cases (starts_with path (slash ∷ []))) [
  | inr e ↦ inl (ground arith)
  | inl e ↦
      elim (Bool-cases (
        starts_with path (slash ∷ slash ∷ [])
        && not (starts_with path (slash ∷ slash ∷ slash ∷ [])))) [
          | inl two ↦ inr (slash ∷ [], ground arith)
          | inr one ↦ inr ([], ground arith)
        ]
]

or_dot-rooted :
    (rest more : Text) → starts_with (or_dot ((slash ∷ rest) ++ more)) (slash ∷ []) ≡ true
unfolding or_dot starts_with
or_dot-rooted rest more = ground arith

split-normpath :
    (c : ℕ) (path : Text)
    → starts_with (normpath (c ∷ path)) (slash ∷ []) ≡ false
    → normpath (c ∷ path) ≢ dot_text
    → split slash (normpath (c ∷ path)) ≡ normal_parts (c ∷ path)
unfolding normpath
split-normpath c path relative named = elim (initial_slashes-cases (c ∷ path)) [
  | inl e ↦
      rw e (
        split-or_dot (normal_parts (c ∷ path)) (normal_parts-HasNo (c ∷ path))
          (λ d. named (rw e d)))
  | inr (rest, e) ↦
      absurd (
        false≢true
          (sym relative ∙ rw e (or_dot-rooted rest (join slash (normal_parts (c ∷ path))))))
]

-- A normalised path that is relative, is not "." and does not begin with ".." has safe parts only.
pub normpath-safe :
    (path : Text)
    → starts_with (normpath path) (slash ∷ []) ≡ false
    → normpath path ≢ dot_text
    → first_or [] (split slash (normpath path)) ≢ dot_dot
    → All IsSafePart (split slash (normpath path))
normpath-safe [] relative named first = absurd (named (unfold normpath in refl))
normpath-safe (c ∷ path) relative named first =
    let e = split-normpath c path relative named in
    rw e (
      All-map _ IsSafePart (normal_parts (c ∷ path)) (λ part (safe, _). safe)
        (normal_parts-safe (c ∷ path) (λ d. first (ap (first_or []) e ∙ d))))
