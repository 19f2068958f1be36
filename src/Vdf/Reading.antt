-- ===== src/Vdf/Reading.antt =====
-- A text that `_tokenize_vdf` accepts is written by pieces, whose tokens it returns.
use forza_motorsport_linux.Base.{
  ℕ, suc, Text, ◌||◌, List, [], ◌∷◌, ◌++◌, ◌≡◌, refl, sym, ap, ◌∙◌, ◌↔◌, some, ◌==◌, nat_eq, ok,
  Ensures, Ensures-ok, Ensures-err, Ensures-if, Ensures-bind, starts_with, codes,
}
use forza_motorsport_linux.Vdf.Tokens.{
  Token, Mode, outside, in_comment, in_string, in_escape, isspace, step, finish, scan, tokenize_vdf,
}
use forza_motorsport_linux.Vdf.Pieces.{Piece, write, tokens_of, AllPieces}
use forza_motorsport_linux.Vdf.Lexing.{scan-write}
use forza_motorsport_linux.Vdf.Modes.{
  Reads, read_blank, read_slashes, read_brace, read_string, read_plain, read_escape, read_close,
  read_line, read_comment,
}

abbrev Carries : ℕ → Mode → ℕ → Text → List Token → Mode × List Token → Type 0
Carries index mode c rest tokens (next, appended) =
    Reads (suc index) next rest tokens → Reads index mode (c ∷ rest) (appended ++ tokens)

step-Carries :
    (index : ℕ) (mode : Mode) (c : ℕ) (rest : Text) (tokens : List Token)
    → Ensures (Carries index mode c rest tokens) (step index mode c rest)
unfolding step
step-Carries index outside c rest tokens =
    Ensures-if (isspace c) _ _ (λ h. Ensures-ok _ (read_blank h))
      λ _.
        Ensures-if (starts_with (c ∷ rest) (codes "//")) _ _ (λ h. Ensures-ok _ (read_slashes h))
          λ _.
            Ensures-if (c == b'{' || c == b'}') _ _ (λ h. Ensures-ok _ (read_brace h))
              λ _. Ensures-if (c == b'"') _ _ (λ h. Ensures-ok _ (read_string h)) λ _. Ensures-err _
step-Carries index in_comment c rest tokens =
    Ensures-if (c == b'\n') _ _ (λ h. Ensures-ok _ (read_line h))
      (λ h. Ensures-ok _ (read_comment h))
step-Carries index (in_string start value) c rest tokens =
    Ensures-if (c == b'"') _ _ (λ h. Ensures-ok _ (read_close h))
      λ n.
        Ensures-if (c == b'\\') _ _ (λ h. Ensures-ok _ (read_escape h))
          (λ h. Ensures-ok _ (read_plain n h))
step-Carries index (in_escape start value) c rest tokens =
    Ensures-if (c == b'"' || c == b'\\') _ _
      (λ h.
        Ensures-ok _ λ r. record {
          special = c;
          is_special_here = h;
          behind = rest;
          written = refl;
          string = r;
        })
      (λ _. Ensures-err _)

finish-Reads : (index : ℕ) (mode : Mode) → Ensures (Reads index mode []) (finish mode)
unfolding finish write tokens_of
finish-Reads index outside =
    Ensures-ok _ (record { pieces = []; valid = tt; written = refl; read = refl })
finish-Reads index in_comment = Ensures-ok _ (record {
  body = [];
  one_line = tt;
  pieces = [];
  ends = tt;
  valid = tt;
  written = refl;
  read = refl;
})
finish-Reads index (in_string start value) = Ensures-err _
finish-Reads index (in_escape start value) = Ensures-err _

scan-Reads :
    (rest : Text) (index : ℕ) (mode : Mode) → Ensures (Reads index mode rest) (scan index mode rest)
unfolding scan
scan-Reads [] index mode = finish-Reads index mode
scan-Reads (c ∷ rest) index mode = Ensures-bind (step index mode c rest) _ λ (next, appended) e.
    Ensures-bind (scan (suc index) next rest) _ λ tokens f. Ensures-ok _ (
      (step-Carries index mode c rest tokens).at (next, appended) e
        ((scan-Reads rest (suc index) next).at tokens f))

-- A text that is accepted is written by pieces, and the tokens returned are the pieces' tokens.
pub scan-pieces :
    (s : Text) {tokens : List Token}
    → scan 0 outside s ≡ ok tokens
    → (pieces : List Piece) × AllPieces pieces × (s ≡ write pieces) × (tokens ≡ tokens_of 0 pieces)
scan-pieces s h = let r = (scan-Reads s 0 outside).at _ h in (r.pieces, r.valid, r.written, r.read)

abbrev pub Written : Text → List Token → Type 0
Written s tokens =
    (pieces : List Piece) × AllPieces pieces × (s ≡ write pieces) × (tokens ≡ tokens_of 0 pieces)

-- `_tokenize_vdf` returns tokens for a text just if the text is written by blanks, comments up to the
-- end of their line, braces and quoted strings, and it returns the tokens of those pieces, with the
-- escapes taken away and the positions of the pieces in the text.
pub tokenize_vdf_iff :
    (s : Text) (tokens : List Token) → (tokenize_vdf (some s) ≡ ok tokens) ↔ Written s tokens
unfolding tokenize_vdf
tokenize_vdf_iff s tokens = (
  scan-pieces s,
  λ (pieces, valid, written, read). rw written (scan-write pieces 0 valid) ∙ ap ok (sym read),
)
