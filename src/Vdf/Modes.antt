-- ===== src/Vdf/Modes.antt =====
-- What is left of a text from an index on, in each loop of `_tokenize_vdf`, and how one more character
-- in front of it changes that.
use mathlib.Core.List.{append_assoc, append-nil}
use forza_motorsport_linux.Base.{
  ℕ, suc, ◌+◌, Text, true, false, ◌||◌, List, [], ◌∷◌, ◌++◌, map, ◌≡◌, refl, sym, ap, ◌∙◌, subst,
  ◌==◌, ==_iff, nat_eq, equality, length, All, arith, length-append, starts_with,
  starts_with-append, codes,
}
use forza_motorsport_linux.Vdf.Tokens.{
  Token, Mode, outside, in_comment, in_string, in_escape, isspace, brace_token, string_token,
}
use forza_motorsport_linux.Vdf.Pieces.{
  Symbol, plain, escaped, Piece, blank, comment, brace, quoted, symbol_value, write_symbols,
  write_piece, write, tokens_of, is_special, IsSymbol, EndsLine, AllPieces,
}

-- What is left of a text from an index on, in each mode.
pub record Outside (index : ℕ) (rest : Text) (tokens : List Token) : Type 0 where
  pub pieces : List Piece
  pub valid : AllPieces pieces
  pub written : rest ≡ write pieces
  pub read : tokens ≡ tokens_of index pieces

pub record InComment (index : ℕ) (rest : Text) (tokens : List Token) : Type 0 where
  pub body : Text
  pub one_line : All (λ c. (c == b'\n') ≡ false) body
  pub pieces : List Piece
  pub ends : EndsLine pieces
  pub valid : AllPieces pieces
  pub written : rest ≡ body ++ write pieces
  pub read : tokens ≡ tokens_of (index + length body) pieces

pub record InString (start : ℕ) (value : Text) (index : ℕ) (rest : Text) (tokens : List Token)
    : Type 0 where
  pub symbols : List Symbol
  pub valid_symbols : All IsSymbol symbols
  pub after : ℕ
  pub follows : after ≡ suc (index + length (write_symbols symbols))
  pub pieces : List Piece
  pub valid : AllPieces pieces
  pub written : rest ≡ write_symbols symbols ++ (b'"' ∷ write pieces)
  pub read :
      tokens ≡ string_token start (value ++ map symbol_value symbols) after ∷ tokens_of after pieces

pub record InEscape (start : ℕ) (value : Text) (index : ℕ) (rest : Text) (tokens : List Token)
    : Type 0 where
  pub special : ℕ
  pub is_special_here : is_special special ≡ true
  pub behind : Text
  pub written : rest ≡ special ∷ behind
  pub string : InString start (value ++ (special ∷ [])) (suc index) behind tokens

abbrev pub Reads : ℕ → Mode → Text → List Token → Type 0
Reads index outside = Outside index
Reads index in_comment = InComment index
Reads index (in_string start value) = InString start value index
Reads index (in_escape start value) = InEscape start value index

pub read_blank :
    {index c : ℕ} {rest : Text} {tokens : List Token}
    → isspace c ≡ true
    → Outside (suc index) rest tokens
    → Outside index (c ∷ rest) tokens
unfolding write write_piece tokens_of
read_blank {c} h r = record {
  pieces = blank c ∷ r.pieces;
  valid = (h, r.valid);
  written = ap (λ t. c ∷ t) r.written;
  read = r.read;
}

slashes :
    {index : ℕ} {rest : Text} {tokens : List Token} (body : Text) (pieces : List Piece)
    → All (λ c. (c == b'\n') ≡ false) body
    → EndsLine pieces
    → AllPieces pieces
    → b'/' ∷ rest ≡ body ++ write pieces
    → tokens ≡ tokens_of (suc index + length body) pieces
    → Outside index (b'/' ∷ b'/' ∷ rest) tokens
unfolding write write_piece tokens_of
slashes [] [] l n v w r = cc
slashes [] (blank c ∷ pieces) l n v w r = absurd (ground arith)
slashes [] (comment c ∷ pieces) l n v w r = absurd n
slashes [] (brace c ∷ pieces) l n v w r = absurd n
slashes [] (quoted c ∷ pieces) l n v w r = absurd n
slashes {index} (c ∷ body) pieces l n v w r = record {
  pieces = comment body ∷ pieces;
  valid = ((l.1, n), v);
  written = cc;
  read = r ∙ ap (λ j. tokens_of j pieces) (omega arith);
}

pub read_slashes :
    {index c : ℕ} {rest : Text} {tokens : List Token}
    → starts_with (c ∷ rest) (codes "//") ≡ true
    → InComment (suc index) rest tokens
    → Outside index (c ∷ rest) tokens
read_slashes {index} {c} {rest} {tokens} h r =
    let (behind, e) = starts_with-append (c ∷ rest) (codes "//") h in
    let f : c ≡ b'/' = cc in
    let g : rest ≡ b'/' ∷ behind = cc in
    let found = slashes r.body r.pieces r.one_line r.ends r.valid (sym g ∙ r.written) r.read in
    subst (λ t. Outside index t tokens) (sym e) found

pub read_brace :
    {index c : ℕ} {rest : Text} {tokens : List Token}
    → (c == b'{' || c == b'}') ≡ true
    → Outside (suc index) rest tokens
    → Outside index (c ∷ rest) (brace_token index c ∷ tokens)
unfolding write write_piece tokens_of
read_brace {index} {c} h r = record {
  pieces = brace c ∷ r.pieces;
  valid = (h, r.valid);
  written = ap (λ t. c ∷ t) r.written;
  read = ap (λ t. brace_token index c ∷ t) r.read;
}

pub read_string :
    {index c : ℕ} {rest : Text} {tokens : List Token}
    → (c == b'"') ≡ true
    → InString index [] (suc index) rest tokens
    → Outside index (c ∷ rest) tokens
unfolding write write_piece tokens_of
read_string {index} {c} h r = record {
  pieces = quoted r.symbols ∷ r.pieces;
  valid = (r.valid_symbols, r.valid);
  written =
      rw ((==_iff c b'"').0 h, r.written)
        (ap (λ t. b'"' ∷ t)
          (sym (append_assoc (write_symbols r.symbols) (b'"' ∷ []) (write r.pieces))));
  read =
      r.read
      ∙ ap (λ j. string_token index (map symbol_value r.symbols) j ∷ tokens_of j r.pieces)
          (omega (arith, r.follows, length-append (write_symbols r.symbols) (b'"' ∷ [])));
}

pub read_plain :
    {index start c : ℕ} {value rest : Text} {tokens : List Token}
    → (c == b'"') ≡ false
    → (c == b'\\') ≡ false
    → InString start (value ++ (c ∷ [])) (suc index) rest tokens
    → InString start value index (c ∷ rest) tokens
unfolding write_symbols
read_plain {index} {start} {c} {value} h k r = record {
  symbols = plain c ∷ r.symbols;
  valid_symbols = (ground arith, r.valid_symbols);
  after = r.after;
  follows = omega (arith, r.follows);
  pieces = r.pieces;
  valid = r.valid;
  written = ap (λ t. c ∷ t) r.written;
  read = rw (sym (append_assoc value (c ∷ []) (map symbol_value r.symbols))) r.read;
}

pub read_escape :
    {index start c : ℕ} {value rest : Text} {tokens : List Token}
    → (c == b'\\') ≡ true
    → InEscape start value (suc index) rest tokens
    → InString start value index (c ∷ rest) tokens
unfolding write_symbols
read_escape {index} {start} {c} {value} h r =
    let s = r.string in
    let d = r.special in
    record {
      symbols = escaped d ∷ s.symbols;
      valid_symbols = (r.is_special_here, s.valid_symbols);
      after = s.after;
      follows = omega (arith, s.follows);
      pieces = s.pieces;
      valid = s.valid;
      written = rw ((==_iff c b'\\').0 h, r.written, s.written) refl;
      read = rw (sym (append_assoc value (d ∷ []) (map symbol_value s.symbols))) s.read;
    }

pub read_close :
    {index start c : ℕ} {value rest : Text} {tokens : List Token}
    → (c == b'"') ≡ true
    → Outside (suc index) rest tokens
    → InString start value index (c ∷ rest) (string_token start value (suc index) ∷ tokens)
unfolding write_symbols
read_close {index} {start} {c} {value} h r = record {
  symbols = [];
  valid_symbols = tt;
  after = suc index;
  follows = omega arith;
  pieces = r.pieces;
  valid = r.valid;
  written = rw ((==_iff c b'"').0 h, r.written) refl;
  read = rw r.read (
      ap (λ v. string_token start v (suc index) ∷ tokens_of (suc index) r.pieces)
        (sym (append-nil value)));
}

pub read_line :
    {index c : ℕ} {rest : Text} {tokens : List Token}
    → (c == b'\n') ≡ true
    → Outside (suc index) rest tokens
    → InComment index (c ∷ rest) tokens
unfolding write write_piece tokens_of isspace equality
read_line {index} {c} h r = record {
  body = [];
  one_line = tt;
  pieces = blank c ∷ r.pieces;
  ends = (==_iff c b'\n').0 h;
  valid = (rw ((==_iff c b'\n').0 h) refl, r.valid);
  written = ap (λ t. c ∷ t) r.written;
  read = r.read ∙ ap (λ j. tokens_of j r.pieces) (omega arith);
}

pub read_comment :
    {index c : ℕ} {rest : Text} {tokens : List Token}
    → (c == b'\n') ≡ false
    → InComment (suc index) rest tokens
    → InComment index (c ∷ rest) tokens
read_comment {index} {c} h r = record {
  body = c ∷ r.body;
  one_line = (h, r.one_line);
  pieces = r.pieces;
  ends = r.ends;
  valid = r.valid;
  written = ap (λ t. c ∷ t) r.written;
  read = r.read ∙ ap (λ j. tokens_of j r.pieces) (omega arith);
}
