-- ===== src/Vdf/Running.antt =====
-- The steps of `parse_entries`, and its run over the tokens that the grammar spells.
use mathlib.Core.List.{append_assoc, append-nil}
use forza_motorsport_linux.Base.{
  ℕ, ◌-◌, ◌<◌, true, false, none, some, List, [], ◌∷◌, ◌++◌, ◌≡◌, refl, sym, ap, ◌∙◌, ◌⊎◌, inl, inr,
  ltb, arith, length, ok,
}
use forza_motorsport_linux.Vdf.Tokens.{Kind, Token, open_brace, close_brace, string}
use forza_motorsport_linux.Vdf.Entries.{
  Value, text, object, Entries, empty, entry, has_key, set_entry, Frame, Parser, return_to, call,
  read_key, read_value, take_token, close, parse_entries, start_parser,
}
use forza_motorsport_linux.Vdf.Grammar.{IsEntries, IsValue, joined, joined-empty, joined-set_entry}

abbrev pub at_key : List Frame → Entries → Parser
at_key frames result = record { frames = frames; result = result; key = none }

abbrev pub at_value : List Frame → Entries → Token → Parser
at_value frames result k = record { frames = frames; result = result; key = some k }

abbrev pub waiting : Entries → Token → Frame
waiting result k = record { result = result; key = k }

pub Kind-cases : (k : Kind) → (k ≡ open_brace) ⊎ ((k ≡ close_brace) ⊎ (k ≡ string))
Kind-cases open_brace = inl refl
Kind-cases close_brace = inr (inl refl)
Kind-cases string = inr (inr refl)

pub key_step :
    (limit : ℕ) (frames : List Frame) (result : Entries) (k : Token) (rest : List Token)
    → k.kind ≡ string
    → parse_entries limit (at_key frames result) (k ∷ rest)
      ≡ parse_entries limit (at_value frames result k) rest
unfolding parse_entries take_token read_key
key_step limit frames result k rest e = rw e refl

pub text_step :
    (limit : ℕ) (frames : List Frame) (result : Entries) (k t : Token) (rest : List Token)
    → t.kind ≡ string
    → has_key k.value result ≡ false
    → parse_entries limit (at_value frames result k) (t ∷ rest)
      ≡ parse_entries limit (at_key frames (set_entry result k (text t))) rest
unfolding parse_entries take_token read_value
text_step limit frames result k t rest e n = rw (n, e) refl

pub open_step :
    (limit : ℕ) (frames : List Frame) (result : Entries) (k t : Token) (rest : List Token)
    → t.kind ≡ open_brace
    → has_key k.value result ≡ false
    → length frames < limit
    → parse_entries limit (at_value frames result k) (t ∷ rest)
      ≡ parse_entries limit (at_key (waiting result k ∷ frames) empty) rest
unfolding parse_entries take_token read_value call
open_step limit frames result k t rest e n h =
    let b : ltb (length frames) limit ≡ true = ground arith in rw (n, e, b) refl

pub close_step :
    (limit : ℕ) (f : Frame) (frames : List Frame) (result : Entries) (t : Token) (rest : List Token)
    → t.kind ≡ close_brace
    → parse_entries limit (at_key (f ∷ frames) result) (t ∷ rest)
      ≡ parse_entries limit (at_key frames (set_entry f.result f.key (object result))) rest
unfolding parse_entries take_token read_key return_to
close_step limit f frames result t rest e = rw e refl

mutual
  unfolding IsEntries IsValue joined

  run_entries :
      (limit n : ℕ) (frames : List Frame) (before es : Entries) (tokens rest : List Token)
      → n ≡ limit - length frames
      → IsEntries n before es tokens
      → parse_entries limit (at_key frames before) (tokens ++ rest)
        ≡ parse_entries limit (at_key frames (joined before es)) rest
  run_entries limit n frames before empty tokens rest e h = rw (h, joined-empty before) refl
  run_entries limit n frames before (entry k v es) tokens rest e
        (first, others, split, kind, fresh, value, later) =
      ap (λ ts. parse_entries limit (at_key frames before) (ts ++ rest)) split
      ∙ (key_step limit frames before k _ kind
          ∙ (ap (parse_entries limit (at_value frames before k)) (append_assoc first others rest)
              ∙ (run_value limit n frames before k v first (others ++ rest) e fresh value
                  ∙ (run_entries limit n frames (set_entry before k v) es others rest e later
                      ∙ ap (λ r. parse_entries limit (at_key frames r) rest)
                          (joined-set_entry before k v es)))))

  run_value :
      (limit n : ℕ) (frames : List Frame) (before : Entries) (k : Token) (v : Value)
      (tokens rest : List Token)
      → n ≡ limit - length frames
      → has_key k.value before ≡ false
      → IsValue n v tokens
      → parse_entries limit (at_value frames before k) (tokens ++ rest)
        ≡ parse_entries limit (at_key frames (set_entry before k v)) rest
  run_value limit n frames before k (text t) tokens rest e fresh (split, kind) =
      rw split (text_step limit frames before k t rest kind fresh)
  run_value limit n frames before k (object es) tokens rest e fresh
        (opening, inside, closing, split, k1, k2, room, h) =
      let inner = waiting before k ∷ frames in
      ap (λ ts. parse_entries limit (at_value frames before k) (ts ++ rest)) split
      ∙ (open_step limit frames before k opening _ k1 fresh (omega (arith, e, room))
          ∙ (ap (parse_entries limit (at_key inner empty)) (append_assoc inside (closing ∷ []) rest)
              ∙ (run_entries limit (n - 1) inner empty es inside (closing ∷ rest)
                    (omega (arith, e, room)) h
                  ∙ close_step limit (waiting before k) frames es closing rest k2)))

-- What the grammar spells is parsed.
pub parse_entries-IsEntries :
    (limit : ℕ) (es : Entries) (tokens : List Token)
    → IsEntries limit empty es tokens
    → parse_entries limit start_parser tokens ≡ ok es
unfolding parse_entries close joined
parse_entries-IsEntries limit es tokens h =
    ap (parse_entries limit start_parser) (sym (append-nil tokens))
    ∙ run_entries limit limit [] empty es tokens [] (omega arith) h
