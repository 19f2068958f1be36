-- ===== src/Vdf/Lexing.antt =====
-- `_tokenize_vdf` accepts the texts that pieces write, and returns their tokens.
use mathlib.Core.List.{append_assoc, append-nil}
use forza_motorsport_linux.Base.{
  ℕ, suc, ◌+◌, Text, true, false, ◌||◌, List, [], ◌∷◌, ◌++◌, map, ◌≡◌, refl, sym, ap, subst, ◌∙◌,
  ◌==◌, ==_iff, nat_eq, equality, length, All, Bool-cases, inl, inr, arith, Result, ok, err, ◌>>=◌,
  length-append, starts_with,
}
use forza_motorsport_linux.Vdf.Tokens.{
  outside, in_comment, in_string, isspace, brace_token, string_token, step, finish, scan,
}
use forza_motorsport_linux.Vdf.Pieces.{
  Symbol, plain, escaped, Piece, blank, comment, brace, quoted, symbol_value, write_symbols,
  write_piece, write, tokens_of, IsSymbol, AllPieces,
}

bind-ok {ℓ} : {A : Type ℓ} (m : Result A) → (m >>= ok) ≡ m
bind-ok (ok a) = refl
bind-ok (err e) = refl

-- the first character of a token or a comment
scan_slashes :
    (index : ℕ) (rest : Text)
    → scan index outside (b'/' ∷ b'/' ∷ rest) ≡ scan (suc (suc index)) in_comment rest
unfolding scan step isspace starts_with equality
scan_slashes index rest = bind-ok _ ∙ bind-ok _

scan_quote :
    (index : ℕ) (rest : Text)
    → scan index outside (b'"' ∷ rest) ≡ scan (suc index) (in_string index []) rest
unfolding scan step isspace starts_with equality
scan_quote index rest = bind-ok _

scan_brace :
    (index c : ℕ) (rest : Text)
    → (c == b'{' || c == b'}') ≡ true
    → scan index outside (c ∷ rest)
      ≡ (scan (suc index) outside rest >>= λ tokens. ok (brace_token index c ∷ tokens))
unfolding scan step isspace starts_with equality
scan_brace index c rest h = elim (Bool-cases (c == b'{')) [
  | inl y ↦ subst (λ d. Opens d) (sym ((==_iff c b'{').0 y)) refl
  | inr n ↦ subst (λ d. Opens d) (sym ((==_iff c b'}').0 (ground arith))) refl
]
  where
    Opens : ℕ → Type 0
    Opens d =
        scan index outside (d ∷ rest)
        ≡ (scan (suc index) outside rest >>= λ tokens. ok (brace_token index d ∷ tokens))

scan-comment :
    (index : ℕ) (body rest : Text)
    → All (λ c. (c == b'\n') ≡ false) body
    → scan index in_comment (body ++ rest) ≡ scan (index + length body) in_comment rest
unfolding scan step
scan-comment index [] rest h = ap (λ j. scan j in_comment rest) (omega arith)
scan-comment index (c ∷ body) rest h =
    rw (h.0, scan-comment (suc index) body rest h.1)
      (bind-ok _ ∙ ap (λ j. scan j in_comment rest) (omega arith))

in_string_at :
    {i j : ℕ} {v w : Text} (start : ℕ) (rest : Text)
    → i ≡ j
    → v ≡ w
    → scan i (in_string start v) rest ≡ scan j (in_string start w) rest
in_string_at start rest e f = rw (e, f) refl

scan-symbols :
    (index start : ℕ) (value : Text) (symbols : List Symbol) (rest : Text)
    → All IsSymbol symbols
    → scan index (in_string start value) (write_symbols symbols ++ rest)
      ≡ scan
          (index + length (write_symbols symbols))
          (in_string start (value ++ map symbol_value symbols))
          rest
unfolding scan step write_symbols equality
scan-symbols index start value [] rest h =
    in_string_at start rest (omega arith) (sym (append-nil value))
scan-symbols index start value (plain c ∷ symbols) rest h =
    let quote : (c == b'"') ≡ false = ground arith in
    let slash : (c == b'\\') ≡ false = ground arith in
    rw (quote, slash, scan-symbols (suc index) start (value ++ (c ∷ [])) symbols rest h.1)
      (bind-ok _
        ∙ in_string_at start rest (omega arith)
            (append_assoc value (c ∷ []) (map symbol_value symbols)))
scan-symbols index start value (escaped c ∷ symbols) rest h =
    rw (h.0, scan-symbols (suc (suc index)) start (value ++ (c ∷ [])) symbols rest h.1)
      (bind-ok _
        ∙ (bind-ok _
            ∙ in_string_at start rest (omega arith)
                (append_assoc value (c ∷ []) (map symbol_value symbols))))

scan_close :
    (index start : ℕ) (value rest : Text)
    → scan index (in_string start value) (b'"' ∷ rest) ≡ (
        scan (suc index) outside rest >>= λ tokens.
        ok (string_token start value (suc index) ∷ tokens))
unfolding scan step equality
scan_close index start value rest = refl

scan_newline :
    (index : ℕ) (rest : Text) → scan index in_comment (b'\n' ∷ rest) ≡ scan (suc index) outside rest
unfolding scan step equality
scan_newline index rest = bind-ok _

scan_quoted :
    (index after : ℕ) (symbols : List Symbol) (rest : Text)
    → All IsSymbol symbols
    → after ≡ index + length (write_piece (quoted symbols))
    → scan index outside (write_piece (quoted symbols) ++ rest) ≡ (
        scan after outside rest >>= λ tokens.
        ok (string_token index (map symbol_value symbols) after ∷ tokens))
unfolding write_piece
scan_quoted index after symbols rest h e =
    scan_quote index _
    ∙ (ap (scan (suc index) (in_string index []))
          (append_assoc (write_symbols symbols) (b'"' ∷ []) rest)
        ∙ (scan-symbols (suc index) index [] symbols (b'"' ∷ rest) h
            ∙ (scan_close _ index (map symbol_value symbols) rest
                ∙ ap
                    (λ j. scan j outside rest >>= λ tokens.
                      ok (string_token index (map symbol_value symbols) j ∷ tokens))
                    (omega (arith, e, length-append (write_symbols symbols) (b'"' ∷ []))))))

-- Scanning what the pieces write gives the tokens of the pieces.
pub scan-write :
    (pieces : List Piece) (index : ℕ)
    → AllPieces pieces
    → scan index outside (write pieces) ≡ ok (tokens_of index pieces)
unfolding scan step finish write write_piece tokens_of
scan-write [] index h = refl
scan-write (blank c ∷ pieces) index h = rw (h.0, scan-write pieces (suc index) h.1) refl
scan-write (comment body ∷ []) index h =
    scan_slashes index _ ∙ scan-comment (suc (suc index)) body [] h.0.0
scan-write (comment body ∷ blank c ∷ pieces) index h =
    scan_slashes index _
    ∙ (scan-comment (suc (suc index)) body (c ∷ write pieces) h.0.0
        ∙ rw h.0.1 (scan_newline _ (write pieces) ∙ scan-write pieces _ h.1.1))
scan-write (brace c ∷ pieces) index h =
    scan_brace index c (write pieces) h.0 ∙ rw (scan-write pieces (suc index) h.1) refl
scan-write (quoted symbols ∷ pieces) index h =
    let after = index + length (write_piece (quoted symbols)) in
    scan_quoted index after symbols (write pieces) h.0 refl ∙ rw (scan-write pieces after h.1) refl
scan-write (comment body ∷ comment c ∷ pieces) index h = absurd h.0.1
scan-write (comment body ∷ brace c ∷ pieces) index h = absurd h.0.1
scan-write (comment body ∷ quoted c ∷ pieces) index h = absurd h.0.1
