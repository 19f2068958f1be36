-- ===== src/Vdf/Cutting.antt =====
-- Pieces of a text around a quoted string, and the tokens in front of it and behind it.
use mathlib.Core.List.{append_assoc}
use forza_motorsport_linux.Base.{
  ℕ, suc, ◌+◌, Text, true, List, [], ◌∷◌, ◌++◌, map, ◌≡◌, ◌≢◌, refl, sym, ap, ◌∙◌, ◌==◌, nat_eq,
  equality, not, all_of, length, length-append, All, Bool-cases, inl, inr, arith, drop, take-append,
}
use forza_motorsport_linux.Vdf.Tokens.{Token, string, brace_token, string_token}
use forza_motorsport_linux.Vdf.Identity.{replace, quoted_name, fm_name}
use forza_motorsport_linux.Vdf.Pieces.{
  Symbol, plain, Piece, blank, comment, brace, quoted, symbol_value, write_symbols, write_piece,
  write, tokens_of, is_special, IsSymbol, EndsLine, AllPieces,
}
use forza_motorsport_linux.Vdf.Positions.{strip}

pub write-append : (ps qs : List Piece) → write (ps ++ qs) ≡ write ps ++ write qs
unfolding write
write-append [] qs = refl
write-append (p ∷ ps) qs =
    ap (λ t. write_piece p ++ t) (write-append ps qs)
    ∙ sym (append_assoc (write_piece p) (write ps) (write qs))

-- Tokens at another start are the same tokens at other positions.
pub tokens_of-strip :
    (i j : ℕ) (ps : List Piece) → map strip (tokens_of i ps) ≡ map strip (tokens_of j ps)
unfolding tokens_of strip brace_token string_token
tokens_of-strip i j [] = refl
tokens_of-strip i j (blank c ∷ ps) = tokens_of-strip (suc i) (suc j) ps
tokens_of-strip i j (comment body ∷ ps) =
    tokens_of-strip (suc (suc i) + length body) (suc (suc j) + length body) ps
tokens_of-strip i j (brace c ∷ ps) = rw (tokens_of-strip (suc i) (suc j) ps) refl
tokens_of-strip i j (quoted symbols ∷ ps) =
    let size = length (write_piece (quoted symbols)) in
    rw (tokens_of-strip (i + size) (j + size) ps) refl

pub tokens_of-append :
    (i j : ℕ) (ps qs : List Piece)
    → j ≡ i + length (write ps)
    → tokens_of i (ps ++ qs) ≡ tokens_of i ps ++ tokens_of j qs
unfolding tokens_of write write_piece
tokens_of-append i j [] qs e = ap (λ n. tokens_of n qs) (omega (arith, e))
tokens_of-append i j (blank c ∷ ps) qs e = tokens_of-append (suc i) j ps qs (omega (arith, e))
tokens_of-append i j (comment body ∷ ps) qs e =
    tokens_of-append (suc (suc i) + length body) j ps qs
      (omega (arith, e, length-append body (write ps)))
tokens_of-append i j (brace c ∷ ps) qs e =
    ap (λ t. brace_token i c ∷ t) (tokens_of-append (suc i) j ps qs (omega (arith, e)))
tokens_of-append i j (quoted symbols ∷ ps) qs e =
    let after = i + length (write_piece (quoted symbols)) in
    ap (λ t. string_token i (map symbol_value symbols) after ∷ t)
      (tokens_of-append after j ps qs
        (omega (arith, e, length-append (write_symbols symbols ++ (b'"' ∷ [])) (write ps))))

-- The pieces around the string that is a given token.
pub record Cut (i : ℕ) (pieces : List Piece) (front : List Token) (t : Token) (back : List Token)
    : Type 0 where
  pub before : List Piece
  pub symbols : List Symbol
  pub behind : List Piece
  pub split : pieces ≡ before ++ (quoted symbols ∷ behind)
  pub in_front : tokens_of i before ≡ front
  pub starts : t.start ≡ i + length (write before)
  pub ends : t.end ≡ t.start + length (write_piece (quoted symbols))
  pub in_back : tokens_of t.end behind ≡ back

further :
    (i j : ℕ) (p : Piece) (ps : List Piece) (front more : List Token) (t : Token)
    (back : List Token)
    → j ≡ i + length (write_piece p)
    → ((qs : List Piece) → tokens_of i (p ∷ qs) ≡ more ++ tokens_of j qs)
    → Cut j ps front t back
    → Cut i (p ∷ ps) (more ++ front) t back
unfolding write
further i j p ps front more t back e step c = record {
  before = p ∷ c.before;
  symbols = c.symbols;
  behind = c.behind;
  split = ap (λ qs. p ∷ qs) c.split;
  in_front = step c.before ∙ ap (λ ts. more ++ ts) c.in_front;
  starts = omega (arith, e, c.starts, length-append (write_piece p) (write c.before));
  ends = c.ends;
  in_back = c.in_back;
}

brace_token-kind : (i c : ℕ) → (brace_token i c).kind ≢ string
unfolding brace_token
brace_token-kind i c = elim (Bool-cases (c == b'{')) [
  | inl y ↦ rw y (λ h. cc)
  | inr n ↦ rw n (λ h. cc)
]

string_start :
    (i after : ℕ) (value : Text) {t : Token} → string_token i value after ≡ t → t.start ≡ i
unfolding string_token
string_start i after value e = sym (ap (λ u. u.start) e)

string_end :
    (i after : ℕ) (value : Text) {t : Token} → string_token i value after ≡ t → t.end ≡ after
unfolding string_token
string_end i after value e = sym (ap (λ u. u.end) e)

pub tokens_of-Cut :
    (pieces : List Piece) (i : ℕ) (front : List Token) (t : Token) (back : List Token)
    → t.kind ≡ string
    → tokens_of i pieces ≡ front ++ (t ∷ back)
    → Cut i pieces front t back
unfolding tokens_of write write_piece
tokens_of-Cut [] i [] t back k e = cc
tokens_of-Cut [] i (f ∷ front) t back k e = cc
tokens_of-Cut (blank c ∷ ps) i front t back k e =
    further i (suc i) (blank c) ps front [] t back (omega arith) (λ qs. refl)
      (tokens_of-Cut ps (suc i) front t back k e)
tokens_of-Cut (comment body ∷ ps) i front t back k e =
    let j = suc (suc i) + length body in
    further i j (comment body) ps front [] t back (omega arith) (λ qs. refl)
      (tokens_of-Cut ps j front t back k e)
tokens_of-Cut (brace c ∷ ps) i [] t back k e =
    let same : brace_token i c ≡ t = cc in absurd (brace_token-kind i c (ap (λ u. u.kind) same ∙ k))
tokens_of-Cut (brace c ∷ ps) i (f ∷ front) t back k e =
    let same : brace_token i c ≡ f = cc in
    further i (suc i) (brace c) ps front (f ∷ []) t back (omega arith)
      (λ qs. ap (λ u. u ∷ tokens_of (suc i) qs) same) (tokens_of-Cut ps (suc i) front t back k cc)
tokens_of-Cut (quoted symbols ∷ ps) i [] t back k e =
    let after = i + length (write_piece (quoted symbols)) in
    let same : string_token i (map symbol_value symbols) after ≡ t = cc in
    let rest : tokens_of after ps ≡ back = cc in
    record {
      before = [];
      symbols = symbols;
      behind = ps;
      split = refl;
      in_front = refl;
      starts = omega (arith, string_start i after _ same);
      ends = omega (arith, string_start i after _ same, string_end i after _ same);
      in_back = rw (string_end i after _ same) rest;
    }
tokens_of-Cut (quoted symbols ∷ ps) i (f ∷ front) t back k e =
    let after = i + length (write_piece (quoted symbols)) in
    let same : string_token i (map symbol_value symbols) after ≡ f = cc in
    further i after (quoted symbols) ps front (f ∷ []) t back refl
      (λ qs. ap (λ u. u ∷ tokens_of after qs) same) (tokens_of-Cut ps after front t back k cc)

abbrev pub name_symbols : List Symbol
name_symbols = map plain fm_name

plain-IsSymbol :
    (cs : Text) → all_of (λ c. not (is_special c)) cs ≡ true → All IsSymbol (map plain cs)
plain-IsSymbol [] h = tt
plain-IsSymbol (c ∷ cs) h = (ground arith, plain-IsSymbol cs (ground arith))

name_symbols-IsSymbol : All IsSymbol name_symbols
unfolding equality
name_symbols-IsSymbol = plain-IsSymbol fm_name refl

pub write_name : write_piece (quoted name_symbols) ≡ quoted_name
unfolding write_piece write_symbols
write_name = refl

first_kept :
    (p : Piece) (before behind : List Piece) (symbols : List Symbol)
    → EndsLine (p ∷ (before ++ (quoted symbols ∷ behind)))
    → EndsLine (p ∷ (before ++ (quoted name_symbols ∷ behind)))
first_kept (blank c) before behind symbols h = h
first_kept (comment body) before behind symbols h = h
first_kept (brace c) before behind symbols h = h
first_kept (quoted s) before behind symbols h = h

-- Another name in the place of the string keeps the pieces well formed.
pub AllPieces-replace :
    (before behind : List Piece) (symbols : List Symbol)
    → AllPieces (before ++ (quoted symbols ∷ behind))
    → AllPieces (before ++ (quoted name_symbols ∷ behind))
AllPieces-replace [] behind symbols (h, rest) = (name_symbols-IsSymbol, rest)
AllPieces-replace (blank c ∷ before) behind symbols (h, rest) =
    (h, AllPieces-replace before behind symbols rest)
AllPieces-replace (brace c ∷ before) behind symbols (h, rest) =
    (h, AllPieces-replace before behind symbols rest)
AllPieces-replace (quoted s ∷ before) behind symbols (h, rest) =
    (h, AllPieces-replace before behind symbols rest)
AllPieces-replace (comment body ∷ []) behind symbols (h, rest) = absurd h.1
AllPieces-replace (comment body ∷ p ∷ before) behind symbols ((lines, ends), rest) = (
  (lines, first_kept p before behind symbols ends),
  AllPieces-replace (p ∷ before) behind symbols rest,
)

drop-append {ℓ} : {A : Type ℓ} (xs ys : List A) → drop (length xs) (xs ++ ys) ≡ ys
drop-append [] ys = refl
drop-append (x ∷ xs) ys = drop-append xs ys

-- The quoted name in the place of a slice.
pub replace-slice :
    (s front slice back : Text) (t : Token)
    → s ≡ front ++ (slice ++ back)
    → t.start ≡ length front
    → t.end ≡ length front + length slice
    → replace s t ≡ front ++ (quoted_name ++ back)
unfolding replace
replace-slice s front slice back t e b c =
    rw (e, b, c)
      (rw (take-append front (slice ++ back)) (
        ap (λ t. front ++ (quoted_name ++ t))
          (ap (λ t. drop (length front + length slice) t) (sym (append_assoc front slice back))
            ∙ (ap (λ n. drop n ((front ++ slice) ++ back)) (sym (length-append front slice))
                ∙ drop-append (front ++ slice) back))))
