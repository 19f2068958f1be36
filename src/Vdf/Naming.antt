-- ===== src/Vdf/Naming.antt =====
-- The tokens and the text of a file in which two strings have the new name.
use mathlib.Core.List.{append_assoc, map-append}
use forza_motorsport_linux.Base.{
  ℕ, ◌+◌, ◌<◌, Text, true, List, ◌∷◌, ◌++◌, map, ◌≡◌, refl, sym, ap, subst, ◌∙◌, ltb, arith, length,
  length-append, Result, ok, err, ◌>>=◌,
}
use forza_motorsport_linux.Vdf.Tokens.{Token, string, string_token}
use forza_motorsport_linux.Vdf.Entries.{Entries, empty, parse_entries, start_parser}
use forza_motorsport_linux.Vdf.Identity.{
  fm_name, quoted_name, identity_in, replace, later_first, replace_each,
}
use forza_motorsport_linux.Vdf.Pieces.{
  Symbol, Piece, quoted, write_piece, write, tokens_of, AllPieces,
}
use forza_motorsport_linux.Vdf.Grammar.{IsEntries}
use forza_motorsport_linux.Vdf.Running.{parse_entries-IsEntries}
use forza_motorsport_linux.Vdf.Positions.{strip, strip_entries, on_result, parse_entries-strip}
use forza_motorsport_linux.Vdf.Moved.{strip_pair, identity_in-strip}
use forza_motorsport_linux.Vdf.Spots.{renamed}
use forza_motorsport_linux.Vdf.Cutting.{
  write-append, tokens_of-strip, tokens_of-append, name_symbols, AllPieces-replace, replace-slice,
}

on_result-ok {ℓ κ} :
    {A : Type ℓ} {B : Type κ} (f : A → B) (m : Result A) (b : B)
    → on_result f m ≡ ok b
    → (a : A) × (m ≡ ok a) × (f a ≡ b)
on_result-ok f (ok a) b h = (a, refl, cc)
on_result-ok f (err e) b h = cc

-- Tokens that are spelled at other positions identify the same tool.
pub identity_elsewhere :
    (limit : ℕ) (others : Entries) (name : Text) (target tokens : List Token) (pair : Token × Token)
    → IsEntries limit empty others target
    → map strip tokens ≡ map strip target
    → identity_in others name ≡ ok pair
    → (found : Token × Token) × ((parse_entries limit start_parser tokens >>= λ es.
          identity_in es name)
        ≡ ok found)
identity_elsewhere limit others name target tokens pair spelled same h =
    let whole : on_result strip_entries (parse_entries limit start_parser tokens)
        ≡ ok (strip_entries others) =
      sym (parse_entries-strip limit tokens)
      ∙ (ap (parse_entries limit start_parser) same
          ∙ (parse_entries-strip limit target
              ∙ ap (on_result strip_entries)
                  (parse_entries-IsEntries limit others target spelled))) in
    let (es, parsed, moved) = on_result-ok strip_entries _ (strip_entries others) whole in
    let named : on_result strip_pair (identity_in es name) ≡ ok (strip_pair pair) =
      sym (identity_in-strip es name)
      ∙ (ap (λ t. identity_in t name) moved
          ∙ (identity_in-strip others name ∙ ap (on_result strip_pair) h)) in
    let (found, e, _) = on_result-ok strip_pair _ (strip_pair pair) named in
    (found, ap (λ m. m >>= λ t. identity_in t name) parsed ∙ e)

-- The tokens of a text with the name in the place of a string, but for their positions.
named_tokens :
    (i j : ℕ) (before behind : List Piece) (front : List Token) (t : Token)
    → t.kind ≡ string
    → tokens_of i before ≡ front
    → map strip (tokens_of i (before ++ (quoted name_symbols ∷ behind)))
      ≡ map strip front ++ (strip (renamed fm_name t) ∷ map strip (tokens_of j behind))
unfolding tokens_of strip string_token renamed
named_tokens i j before behind front t kind e =
    let at = i + length (write before) in
    let after = at + length (write_piece (quoted name_symbols)) in
    ap (map strip) (tokens_of-append i at before (quoted name_symbols ∷ behind) refl)
    ∙ (map-append strip (tokens_of i before) _ ∙ rw (e, kind, tokens_of-strip after j behind) refl)

pub named_twice :
    (before middle behind : List Piece) (front between back : List Token) (k d : Token)
    → k.kind ≡ string
    → d.kind ≡ string
    → tokens_of 0 before ≡ front
    → tokens_of k.end middle ≡ between
    → tokens_of d.end behind ≡ back
    → map strip
        (tokens_of 0 (before ++ (quoted name_symbols ∷ (middle ++ (quoted name_symbols ∷ behind)))))
      ≡ map strip (front ++ (renamed fm_name k ∷ (between ++ (renamed fm_name d ∷ back))))
named_twice before middle behind front between back k d k1 k2 e f g =
    named_tokens 0 k.end before (middle ++ (quoted name_symbols ∷ behind)) front k k1 e
    ∙ (ap (λ t. map strip front ++ (strip (renamed fm_name k) ∷ t))
          (named_tokens k.end d.end middle behind between d k2 f
            ∙ (ap (λ t. map strip between ++ (strip (renamed fm_name d) ∷ map strip t)) g
                ∙ sym (map-append strip between (renamed fm_name d ∷ back))))
        ∙ sym
            (map-append strip front (renamed fm_name k ∷ (between ++ (renamed fm_name d ∷ back)))))

pub AllPieces-named :
    (before middle behind : List Piece) (first second : List Symbol)
    → AllPieces (before ++ (quoted first ∷ (middle ++ (quoted second ∷ behind))))
    → AllPieces (before ++ (quoted name_symbols ∷ (middle ++ (quoted name_symbols ∷ behind))))
AllPieces-named before middle behind first second h =
    let apart = append_assoc before (quoted first ∷ middle) (quoted second ∷ behind) in
    let joined = append_assoc before (quoted first ∷ middle) (quoted name_symbols ∷ behind) in
    AllPieces-replace before (middle ++ (quoted name_symbols ∷ behind)) first (
      subst AllPieces joined (
        AllPieces-replace (before ++ (quoted first ∷ middle)) behind second
          (subst AllPieces (sym apart) h)))

-- The text of two strings with pieces around them.
pub write_two :
    (before : List Piece) (first : List Symbol) (middle : List Piece) (second : List Symbol)
    (behind : List Piece)
    → write (before ++ (quoted first ∷ (middle ++ (quoted second ∷ behind))))
      ≡ write before
        ++ (write_piece (quoted first)
            ++ (write middle ++ (write_piece (quoted second) ++ write behind)))
unfolding write
write_two before first middle second behind =
    write-append before _
    ∙ ap (λ t. write before ++ (write_piece (quoted first) ++ t)) (write-append middle _)

-- The later token is replaced first, so the earlier one still stands where it did.
pub replace_two :
    (s front first between second back : Text) (k d : Token)
    → s ≡ front ++ (first ++ (between ++ (second ++ back)))
    → k.start ≡ length front
    → k.end ≡ length front + length first
    → d.start ≡ length (front ++ (first ++ between))
    → d.end ≡ length (front ++ (first ++ between)) + length second
    → 0 < length first
    → replace_each s (later_first k d)
      ≡ front ++ (quoted_name ++ (between ++ (quoted_name ++ back)))
unfolding replace_each later_first
replace_two s front first between second back k d e k1 k2 d1 d2 full =
    let earlier : ltb k.start d.start ≡ true =
      ground (arith, length-append front (first ++ between), length-append first between) in
    rw earlier (
      ap (λ t. replace t k)
        (replace-slice s (front ++ (first ++ between)) second back d (simp (e, append_assoc)) d1 d2)
      ∙ replace-slice ((front ++ (first ++ between)) ++ (quoted_name ++ back)) front first
          (between ++ (quoted_name ++ back)) k (simp append_assoc) k1 k2)
