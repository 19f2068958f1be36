-- ===== src/Base/Texts.antt =====
-- Python's `str` as the list of its code points, with the operations of `str` that the program
-- uses. Texts that are only compared with literals are native strings.
use Prim.Native.Nat.{ℕ}
use Prim.Native.Char.{code}
use Prim.Native.String.{String}
use mathlib.Core.Path.{◌≡◌, refl}
use mathlib.Core.Bool.{Bool, true, false, ◌&&◌, ◌||◌}
use mathlib.Core.List.{List, [], ◌∷◌, ◌++◌}
use native.Mathlib.Omega.{arith}
use forza_motorsport_linux.Base.Tests.{leb, if◌then◌else◌}
use forza_motorsport_linux.Base.Equality.{◌==◌, nat_eq}
use forza_motorsport_linux.Base.Lists.{length, all_of}

abbrev pub Text : Type 0
Text = List ℕ

-- The code points of a literal.
abbrev pub codes : String → Text
codes String.[] = []
codes (String.◌∷◌ c s) = code c ∷ codes s

-- text.startswith(prefix)
unfoldable pub starts_with : Text → Text → Bool
starts_with text [] = true
starts_with [] (p ∷ prefix) = false
starts_with (c ∷ text) (p ∷ prefix) = c == p && starts_with text prefix

unfoldable pub onto_first : ℕ → List Text → List Text
onto_first c [] = (c ∷ []) ∷ []
onto_first c (part ∷ parts) = (c ∷ part) ∷ parts

-- text.split(separator), for a separator of one character
unfoldable pub split : ℕ → Text → List Text
unfolding onto_first
split s [] = [] ∷ []
split s (c ∷ text) = let parts = split s text in if c == s then [] ∷ parts else onto_first c parts

-- separator.join(parts)
unfoldable pub join : ℕ → List Text → Text
join s [] = []
join s (part ∷ []) = part
join s (part ∷ next ∷ parts) = part ++ (s ∷ join s (next ∷ parts))

-- [0-9]
abbrev pub is_digit : ℕ → Bool
is_digit c = leb b'0' c && leb c b'9'

-- [0-9a-f]
abbrev pub is_hex : ℕ → Bool
is_hex c = is_digit c || (leb b'a' c && leb c b'f')

-- The pattern [0-9a-f]{n}\Z under `fullmatch`.
unfoldable pub is_hex_of_length : ℕ → Text → Bool
is_hex_of_length n text = length text == n && all_of is_hex text

pub starts_with-append :
    (text prefix : Text) → starts_with text prefix ≡ true → (rest : Text) × (text ≡ prefix ++ rest)
unfolding starts_with
starts_with-append text [] h = (text, refl)
starts_with-append [] (p ∷ prefix) h = cc
starts_with-append (c ∷ text) (p ∷ prefix) h =
    let (rest, e) = starts_with-append text prefix (ground arith) in (rest, ground arith)
