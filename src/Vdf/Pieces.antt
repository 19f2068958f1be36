-- ===== src/Vdf/Pieces.antt =====
-- A text that `_tokenize_vdf` accepts, as a list of pieces: what the text of the pieces is, and which
-- tokens they stand for.
use forza_motorsport_linux.Base.{
  ℕ, suc, ◌+◌, Text, Bool, true, false, ◌||◌, List, [], ◌∷◌, ◌++◌, map, ◌≡◌, ◌==◌, nat_eq, length,
  All,
}
use forza_motorsport_linux.Vdf.Tokens.{Token, isspace, brace_token, string_token}

-- A character of a quoted string, written as it is or behind a backslash.
pub data Symbol : Type 0 where
  plain escaped : ℕ → Symbol

pub data Piece : Type 0 where
  blank : ℕ → Piece
  comment : Text → Piece
  brace : ℕ → Piece
  quoted : List Symbol → Piece

abbrev pub symbol_value : Symbol → ℕ
symbol_value (plain c) = c
symbol_value (escaped c) = c

unfoldable pub write_symbols : List Symbol → Text
write_symbols [] = []
write_symbols (plain c ∷ symbols) = c ∷ write_symbols symbols
write_symbols (escaped c ∷ symbols) = b'\\' ∷ c ∷ write_symbols symbols

unfoldable pub write_piece : Piece → Text
write_piece (blank c) = c ∷ []
write_piece (comment body) = b'/' ∷ b'/' ∷ body
write_piece (brace c) = c ∷ []
write_piece (quoted symbols) = b'"' ∷ (write_symbols symbols ++ (b'"' ∷ []))

unfoldable pub write : List Piece → Text
write [] = []
write (piece ∷ pieces) = write_piece piece ++ write pieces

unfoldable pub tokens_of : ℕ → List Piece → List Token
tokens_of index [] = []
tokens_of index (brace c ∷ pieces) = brace_token index c ∷ tokens_of (suc index) pieces
tokens_of index (quoted symbols ∷ pieces) =
    let after = index + length (write_piece (quoted symbols)) in
    string_token index (map symbol_value symbols) after ∷ tokens_of after pieces
tokens_of index (blank c ∷ pieces) = tokens_of (suc index) pieces
tokens_of index (comment body ∷ pieces) = tokens_of (suc (suc index) + length body) pieces

-- A quote or a backslash stands behind a backslash, and no other character does.
abbrev pub is_special : ℕ → Bool
is_special c = c == b'"' || c == b'\\'

abbrev pub IsSymbol : Symbol → Type 0
IsSymbol (plain c) = is_special c ≡ false
IsSymbol (escaped c) = is_special c ≡ true

-- A comment goes up to the end of its line.
abbrev pub EndsLine : List Piece → Type 0
EndsLine [] = Unit
EndsLine (blank c ∷ pieces) = c ≡ b'\n'
EndsLine _ = ⊥

abbrev pub IsPiece : Piece → List Piece → Type 0
IsPiece (blank c) pieces = isspace c ≡ true
IsPiece (comment body) pieces = All (λ c. (c == b'\n') ≡ false) body × EndsLine pieces
IsPiece (brace c) pieces = (c == b'{' || c == b'}') ≡ true
IsPiece (quoted symbols) pieces = All IsSymbol symbols

abbrev pub AllPieces : List Piece → Type 0
AllPieces [] = Unit
AllPieces (piece ∷ pieces) = IsPiece piece pieces × AllPieces pieces
