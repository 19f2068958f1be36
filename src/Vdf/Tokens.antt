-- ===== src/Vdf/Tokens.antt =====
-- `_VdfToken` and `_tokenize_vdf`. The mode says in which of the loops of `_tokenize_vdf` the index
-- stands, with the loop's local variables.
use Prim.Native.String.{String}
use forza_motorsport_linux.Base.{
  ℕ, suc, Text, Bool, ◌||◌, ◌&&◌, Option, none, some, List, [], ◌∷◌, ◌++◌, Result, ok, raise, ◌>>=◌,
  ◌==◌, nat_eq, leb, if◌then◌else◌, contains, starts_with, codes,
}

pub data Kind : Type 0 where
  open_brace close_brace string : Kind

pub record Token : Type 0 where
  pub kind : Kind
  pub value : Text
  pub start : ℕ
  pub end : ℕ

-- The bytes of a file are none where `decode` raises, and else stand for the text that they encode:
-- UTF-8 gives each text of Unicode scalars one encoding, and `encode` is the inverse of `decode`.
abbrev pub Contents : Type 0
Contents = Option Text

abbrev pub invalid_vdf : String
invalid_vdf = "compatibility-tool VDF is invalid"

-- character.isspace()
unfoldable pub isspace : ℕ → Bool
isspace c =
    (leb 9 c && leb c 13)
    || (leb 28 c && leb c 32)
    || (leb 8192 c && leb c 8202)
    || contains (133 ∷ 160 ∷ 5760 ∷ 8232 ∷ 8233 ∷ 8239 ∷ 8287 ∷ 12288 ∷ []) c

pub data Mode : Type 0 where
  outside in_comment : Mode
  in_string in_escape : (start : ℕ) (value : Text) → Mode

-- _VdfToken(character, character, index, index + 1)
unfoldable pub brace_token : ℕ → ℕ → Token
brace_token index c = record {
  kind = if c == b'{' then open_brace else close_brace;
  value = c ∷ [];
  start = index;
  end = suc index;
}

unfoldable pub string_token : ℕ → Text → ℕ → Token
string_token index value after = record { kind = string; value = value; start = index; end = after }

-- The character at an index with the text behind it: the next mode, and the tokens appended.
unfoldable pub step : ℕ → Mode → ℕ → Text → Result (Mode × List Token)
step index outside c rest =
    if isspace c
    then ok (outside, [])
    else if starts_with (c ∷ rest) (codes "//")
    then ok (in_comment, [])
    else if c == b'{' || c == b'}'
    then ok (outside, brace_token index c ∷ [])
    else if c == b'"'
    then ok (in_string index [], [])
    else raise invalid_vdf
step index in_comment c rest = if c == b'\n' then ok (outside, []) else ok (in_comment, [])
step index (in_string start value) c rest =
    if c == b'"'
    then ok (outside, string_token start value (suc index) ∷ [])
    else if c == b'\\'
    then ok (in_escape start value, [])
    else ok (in_string start (value ++ (c ∷ [])), [])
step index (in_escape start value) c rest =
    if c == b'"' || c == b'\\'
    then ok (in_string start (value ++ (c ∷ [])), [])
    else raise invalid_vdf

-- at the end of the text
unfoldable pub finish : Mode → Result (List Token)
finish outside = ok []
finish in_comment = ok []
finish _ = raise invalid_vdf

unfoldable pub scan : ℕ → Mode → Text → Result (List Token)
scan index mode [] = finish mode
scan index mode (c ∷ rest) = do
  (next, appended) ← step index mode c rest
  tokens ← scan (suc index) next rest
  ok (appended ++ tokens)

unfoldable pub tokenize_vdf : Contents → Result (List Token)
tokenize_vdf none = raise invalid_vdf
tokenize_vdf (some text) = scan 0 outside text
