-- ===== src/Snapshot/Scope/Targets/Names.antt =====
-- What the code accepts as a logical path and as the name of a root (forza_bootstrap/snapshot.py).
use forza_motorsport_linux.Base.{
  ℕ, ◌≤◌, ◌<◌, ◌≡◌, ◌⊎◌, inl, inr, Text, Bool, true, false, List, [], ◌∷◌, ◌||◌, any_of, all_of-All,
  arith, ◌==◌, ==_iff, nat_eq, list_eq, All, All-map, split, is_digit, ltb, Bool-cases,
}
use forza_motorsport_linux.Paths.Normal.{IsSafePart}
use forza_motorsport_linux.Snapshot.{is_logical_path, unsafe_character, is_dots_or_empty}
use forza_motorsport_linux.Snapshot.Scope.{is_root_name, is_lower}

-- No control character and no surrogate.
abbrev pub IsPlain : ℕ → Type 0
IsPlain c = (0x1F < c) × ((c < 0x7F) ⊎ (0x9F < c)) × ((c < 0xD800) ⊎ (0xDFFF < c))

-- A relative path whose components name entries of their directories.
abbrev pub IsRelativePath : Text → Type 0
IsRelativePath path = All IsSafePart (split b'/' path) × All IsPlain path

abbrev pub IsLower : ℕ → Type 0
IsLower c = (b'a' ≤ c) × (c ≤ b'z')

abbrev pub IsNameCharacter : ℕ → Type 0
IsNameCharacter c = IsLower c ⊎ (((b'0' ≤ c) × (c ≤ b'9')) ⊎ ((c ≡ b'_') ⊎ (c ≡ b'-')))

abbrev pub IsRootName : Text → Type 0
IsRootName [] = ⊥
IsRootName (c ∷ name) = IsLower c × All IsNameCharacter name

none_of :
    (p : ℕ → Bool) (P : ℕ → Type 0) (xs : Text)
    → ((x : ℕ) → p x ≡ false → P x)
    → any_of p xs ≡ false
    → All P xs
none_of p P [] f h = tt
none_of p P (x ∷ xs) f h = (f x (ground arith), none_of p P xs f (ground arith))

safe_parts : (parts : List Text) → any_of is_dots_or_empty parts ≡ false → All IsSafePart parts
safe_parts [] h = tt
safe_parts (part ∷ parts) h = (
  record { nonempty = ground arith; no_dot = ground arith; no_dot_dot = ground arith },
  safe_parts parts (ground arith),
)

plain : (c : ℕ) → unsafe_character c ≡ false → IsPlain c
unfolding unsafe_character
plain c h = (
  ground arith,
  elim (Bool-cases (ltb c 0x7F)) [ inl l ↦ inl (ground arith) | inr n ↦ inr (ground arith) ],
  elim (Bool-cases (ltb c 0xD800)) [ inl l ↦ inl (ground arith) | inr n ↦ inr (ground arith) ],
)

pub is_logical_path-IsRelativePath :
    (path : Text) → is_logical_path path ≡ true → IsRelativePath path
unfolding is_logical_path
is_logical_path-IsRelativePath path h = (
  safe_parts (split b'/' path) (ground arith),
  none_of unsafe_character IsPlain path plain (ground arith),
)

lower : (c : ℕ) → is_lower c ≡ true → IsLower c
lower c h = (ground arith, ground arith)

name_character :
    (c : ℕ) → (is_lower c || is_digit c || c == b'_' || c == b'-') ≡ true → IsNameCharacter c
name_character c h = elim (Bool-cases (is_lower c)) [
  | inl l ↦ inl (lower c l)
  | inr n ↦ inr (elim (Bool-cases (is_digit c)) [
    | inl d ↦ inl (ground arith, ground arith)
    | inr m ↦ inr (elim (Bool-cases (c == b'_')) [
      | inl u ↦ inl ((==_iff c b'_').0 u)
      | inr v ↦ inr ((==_iff c b'-').0 (ground arith))
    ])
  ])
]

pub is_root_name-IsRootName : (name : Text) → is_root_name name ≡ true → IsRootName name
unfolding is_root_name
is_root_name-IsRootName [] h = cc
is_root_name-IsRootName (c ∷ name) h = (
  lower c (ground arith),
  All-map (λ d. (is_lower d || is_digit d || d == b'_' || d == b'-') ≡ true) IsNameCharacter name
      name_character (all_of-All _ name (ground arith)),
)
