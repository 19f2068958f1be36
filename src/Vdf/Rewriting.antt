-- ===== src/Vdf/Rewriting.antt =====
-- What `_rewritten_vdf` does with a file that `_vdf_identity` accepts.
use forza_motorsport_linux.Base.{
  ℕ, ◌+◌, ◌<◌, Text, some, List, ◌∷◌, ◌++◌, map, ◌≡◌, refl, sym, ap, subst, ◌∙◌, arith, length,
  length-append, ok, ◌>>=◌, >>=-eq-ok,
}
use forza_motorsport_linux.Vdf.Tokens.{Token, outside, scan, tokenize_vdf}
use forza_motorsport_linux.Vdf.Entries.{Entries, empty, parse_entries, start_parser, parse_vdf}
use forza_motorsport_linux.Vdf.Identity.{
  base_release, fm_name, quoted_name, identity_in, vdf_identity, later_first, replace_each, decode,
  rewritten_vdf,
}
use forza_motorsport_linux.Vdf.Pieces.{
  Symbol, Piece, quoted, write_piece, write, tokens_of, AllPieces,
}
use forza_motorsport_linux.Vdf.Lexing.{scan-write}
use forza_motorsport_linux.Vdf.Reading.{scan-pieces}
use forza_motorsport_linux.Vdf.Grammar.{IsEntries}
use forza_motorsport_linux.Vdf.Parsing.{IsEntries-parse_entries}
use forza_motorsport_linux.Vdf.Positions.{strip}
use forza_motorsport_linux.Vdf.Spots.{renamed, identity_in-Spot}
use forza_motorsport_linux.Vdf.Cutting.{tokens_of-Cut, name_symbols, write_name}
use forza_motorsport_linux.Vdf.Naming.{
  identity_elsewhere, named_twice, AllPieces-named, write_two, replace_two,
}

-- The result is the text with the quoted name in the place of each of the two tokens.
pub record IsRenamed (limit : ℕ) (s : Text) (k d : Token) : Type 0 where
  pub front : Text
  pub first : Text
  pub between : Text
  pub second : Text
  pub back : Text
  pub original : s ≡ front ++ (first ++ (between ++ (second ++ back)))
  pub key_start : k.start ≡ length front
  pub key_end : k.end ≡ length front + length first
  pub display_start : d.start ≡ length (front ++ (first ++ between))
  pub display_end : d.end ≡ length (front ++ (first ++ between)) + length second
  pub returned :
      rewritten_vdf limit (some s)
      ≡ ok (some (front ++ (quoted_name ++ (between ++ (quoted_name ++ back)))))

-- A file whose identity has been read.
record Identified (limit : ℕ) (s expected : Text) (k d : Token) : Type 0 where
  tokens : List Token
  scanned : scan 0 outside s ≡ ok tokens
  entries : Entries
  parsed : parse_entries limit start_parser tokens ≡ ok entries
  identified : identity_in entries expected ≡ ok (k, d)

vdf_identity-Identified :
    (limit : ℕ) (s expected : Text) (k d : Token)
    → vdf_identity limit (some s) expected ≡ ok (k, d)
    → Identified limit s expected k d
unfolding vdf_identity parse_vdf tokenize_vdf
vdf_identity-Identified limit s expected k d h =
    let (es, h1, h2) = >>=-eq-ok (parse_vdf limit (some s)) (λ es. identity_in es expected) h in
    let (tokens, h3, h4) =
      >>=-eq-ok (tokenize_vdf (some s)) (parse_entries limit start_parser) h1 in
    record { tokens = tokens; scanned = h3; entries = es; parsed = h4; identified = h2 }

vdf_identity_of :
    (limit : ℕ) (s expected : Text) (tokens : List Token) (pair : Token × Token)
    → scan 0 outside s ≡ ok tokens
    → (parse_entries limit start_parser tokens >>= λ es. identity_in es expected) ≡ ok pair
    → vdf_identity limit (some s) expected ≡ ok pair
unfolding vdf_identity parse_vdf tokenize_vdf
vdf_identity_of limit s expected tokens pair h e = rw h e

rewritten_vdf_of :
    (limit : ℕ) (s t : Text) (k d : Token) (pair : Token × Token)
    → vdf_identity limit (some s) base_release ≡ ok (k, d)
    → replace_each s (later_first k d) ≡ t
    → vdf_identity limit (some t) fm_name ≡ ok pair
    → rewritten_vdf limit (some s) ≡ ok (some t)
unfolding rewritten_vdf decode
rewritten_vdf_of limit s t k d pair h e g = rw (h, e, g) refl

quoted_full : (symbols : List Symbol) → 0 < length (write_piece (quoted symbols))
unfolding write_piece
quoted_full symbols = omega arith

-- The two strings among the pieces of the text.
record Strings (limit : ℕ) (s : Text) (k d : Token) : Type 0 where
  target : List Token
  others : Entries
  spelled : IsEntries limit empty others target
  pair : Token × Token
  identified : identity_in others fm_name ≡ ok pair
  before : List Piece
  first : List Symbol
  middle : List Piece
  second : List Symbol
  behind : List Piece
  valid : AllPieces (before ++ (quoted first ∷ (middle ++ (quoted second ∷ behind))))
  written : s ≡ write (before ++ (quoted first ∷ (middle ++ (quoted second ∷ behind))))
  key_start : k.start ≡ length (write before)
  key_end : k.end ≡ k.start + length (write_piece (quoted first))
  display_start : d.start ≡ k.end + length (write middle)
  display_end : d.end ≡ d.start + length (write_piece (quoted second))
  same :
      map strip
        (tokens_of 0 (before ++ (quoted name_symbols ∷ (middle ++ (quoted name_symbols ∷ behind)))))
      ≡ map strip target

Identified-Strings :
    (limit : ℕ) (s expected : Text) (k d : Token)
    → Identified limit s expected k d
    → Strings limit s k d
Identified-Strings limit s expected k d i =
    let (pieces, valid, written, read) = scan-pieces s i.scanned in
    let grammar = IsEntries-parse_entries limit i.entries i.tokens i.parsed in
    let spot =
      identity_in-Spot limit i.entries expected fm_name k d i.tokens grammar i.identified in
    let c =
      tokens_of-Cut pieces 0 spot.front k (spot.between ++ (d ∷ spot.back)) spot.key_kind
        (sym read ∙ spot.split) in
    let b = tokens_of-Cut c.behind k.end spot.between d spot.back spot.display_kind c.in_back in
    let split : pieces
        ≡ c.before ++ (quoted c.symbols ∷ (b.before ++ (quoted b.symbols ∷ b.behind))) =
      c.split ∙ ap (λ t. c.before ++ (quoted c.symbols ∷ t)) b.split in
    record {
      target =
          spot.front ++ (renamed fm_name k ∷ (spot.between ++ (renamed fm_name d ∷ spot.back)));
      others = spot.others;
      spelled = spot.spelled;
      pair = (renamed fm_name k, renamed fm_name d);
      identified = spot.good;
      before = c.before;
      first = c.symbols;
      middle = b.before;
      second = b.symbols;
      behind = b.behind;
      valid = subst AllPieces split valid;
      written = written ∙ ap write split;
      key_start = omega (arith, c.starts);
      key_end = c.ends;
      display_start = b.starts;
      display_end = b.ends;
      same =
          named_twice c.before b.before b.behind spot.front spot.between spot.back k d spot.key_kind
            spot.display_kind c.in_front b.in_front b.in_back;
    }

-- A file in which `_vdf_identity` finds the base release is always rewritten, and only the two
-- quoted names change: `_rewritten_vdf` never raises on it.
pub rewritten_vdf-IsRenamed :
    (limit : ℕ) (s : Text) (k d : Token)
    → vdf_identity limit (some s) base_release ≡ ok (k, d)
    → IsRenamed limit s k d
rewritten_vdf-IsRenamed limit s k d h =
    let c =
      Identified-Strings limit s base_release k d
        (vdf_identity-Identified limit s base_release k d h) in
    let pieces =
      c.before ++ (quoted name_symbols ∷ (c.middle ++ (quoted name_symbols ∷ c.behind))) in
    let (found, identified) =
      identity_elsewhere limit c.others fm_name c.target (tokens_of 0 pieces) c.pair c.spelled
        c.same c.identified in
    let scanned =
      scan-write pieces 0 (AllPieces-named c.before c.middle c.behind c.first c.second c.valid) in
    let checked =
      vdf_identity_of limit (write pieces) fm_name (tokens_of 0 pieces) found scanned identified in
    let front = write c.before in
    let first = write_piece (quoted c.first) in
    let between = write c.middle in
    let second = write_piece (quoted c.second) in
    let back = write c.behind in
    let original = c.written ∙ write_two c.before c.first c.middle c.second c.behind in
    let result : write pieces ≡ front ++ (quoted_name ++ (between ++ (quoted_name ++ back))) =
      write_two c.before name_symbols c.middle name_symbols c.behind
      ∙ ap (λ t. front ++ (t ++ (between ++ (t ++ back)))) write_name in
    let size = length-append front (first ++ between) in
    let size' = length-append first between in
    let k1 : k.start ≡ length front = c.key_start in
    let k2 : k.end ≡ length front + length first =
      c.key_end ∙ ap (λ n. n + length first) c.key_start in
    let d1 : d.start ≡ length (front ++ (first ++ between)) =
      c.display_start ∙ (ap (λ n. n + length between) k2 ∙ omega (arith, size, size')) in
    let d2 : d.end ≡ length (front ++ (first ++ between)) + length second =
      c.display_end ∙ ap (λ n. n + length second) d1 in
    let replaced =
      replace_two s front first between second back k d original k1 k2 d1 d2
        (quoted_full c.first) in
    let returned =
      rewritten_vdf_of limit s (write pieces) k d found h (replaced ∙ sym result) checked in
    record {
      front = front;
      first = first;
      between = between;
      second = second;
      back = back;
      original = original;
      key_start = k1;
      key_end = k2;
      display_start = d1;
      display_end = d2;
      returned = returned ∙ ap (λ t. ok (some t)) result;
    }
