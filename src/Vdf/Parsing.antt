-- ===== src/Vdf/Parsing.antt =====
-- `_parse_vdf` reads what the grammar spells.
use mathlib.Core.List.{append_assoc}
use forza_motorsport_linux.Base.{
  ℕ, ◌-◌, ◌<◌, false, some, List, [], ◌∷◌, ◌++◌, ◌≡◌, refl, sym, ap, subst, ◌∙◌, ◌↔◌, inl, inr,
  Bool-cases, ok-injective, ltb, arith, length, ok, raise,
}
use forza_motorsport_linux.Vdf.Tokens.{Token, open_brace, close_brace, string, invalid_vdf}
use forza_motorsport_linux.Vdf.Entries.{
  Value, text, object, Entries, empty, entry, has_key, set_entry, Frame, return_to, call, read_key,
  read_value, take_token, close, parse_entries, start_parser,
}
use forza_motorsport_linux.Vdf.Grammar.{IsEntries, IsValue, joined, joined-empty, joined-set_entry}
use forza_motorsport_linux.Vdf.Running.{
  at_key, at_value, waiting, Kind-cases, key_step, text_step, open_step, close_step,
  parse_entries-IsEntries,
}

-- how many more calls may wait
abbrev levels : ℕ → List Frame → ℕ
levels limit [] = limit
levels limit (f ∷ frames) = limit - length (f ∷ frames)

levels_eq : (limit : ℕ) (frames : List Frame) → levels limit frames ≡ limit - length frames
levels_eq limit [] = omega arith
levels_eq limit (f ∷ frames) = refl

close_pending :
    (frames : List Frame) (k : Token) (result : Entries)
    → close frames (some k) result ≡ raise invalid_vdf
unfolding close
close_pending [] k result = refl
close_pending (f ∷ frames) k result = refl

-- What remains to be read, for a call that has stored `result`: entries that end the call, and what
-- the calls that wait still read. `root` is what the outermost call returns.
abbrev Continues : ℕ → List Frame → Entries → List Token → Entries → Type 0
Continues limit [] result tokens root =
    (es : Entries) × IsEntries limit result es tokens × (root ≡ joined result es)
Continues limit (f ∷ frames) result tokens root =
    (es : Entries) × (inside : List Token) × (closing : Token) × (after : List Token) × (tokens
      ≡ inside ++ (closing ∷ after))
    × (closing.kind ≡ close_brace)
    × IsEntries (levels limit (f ∷ frames)) result es inside
    × Continues limit frames (set_entry f.result f.key (object (joined result es))) after root

continue_entry :
    (limit : ℕ) (frames : List Frame) (result : Entries) (k : Token) (v : Value)
    (first tokens : List Token) (root : Entries)
    → k.kind ≡ string
    → has_key k.value result ≡ false
    → IsValue (levels limit frames) v first
    → Continues limit frames (set_entry result k v) tokens root
    → Continues limit frames result (k ∷ (first ++ tokens)) root
unfolding IsEntries
continue_entry limit [] result k v first tokens root kind fresh value (es, h, e) =
    (entry k v es, (first, tokens, refl, kind, fresh, value, h), e ∙ joined-set_entry result k v es)
continue_entry limit (f ∷ frames) result k v first tokens root kind fresh value
      (es, inside, closing, after, split, k2, h, later) =
    (
      entry k v es,
      k ∷ (first ++ inside),
      closing,
      after,
      ap (λ t. k ∷ t) (ap (λ t. first ++ t) split ∙ sym (append_assoc first inside _)),
      k2,
      (first, inside, refl, kind, fresh, value, h),
      subst (λ r. Continues limit frames (set_entry f.result f.key (object r)) after root)
          (joined-set_entry result k v es) later,
    )

close_case :
    (limit : ℕ) (k : Token) (tokens : List Token) (frames : List Frame) (result root : Entries)
    → k.kind ≡ close_brace
    → ((frames : List Frame) (result : Entries)
        → parse_entries limit (at_key frames result) tokens ≡ ok root
        → Continues limit frames result tokens root)
    → parse_entries limit (at_key frames result) (k ∷ tokens) ≡ ok root
    → Continues limit frames result (k ∷ tokens) root
unfolding IsEntries parse_entries take_token read_key return_to
close_case limit k tokens [] result root kind ih e = absurd (cc (rw kind at e))
close_case limit k tokens (f ∷ frames) result root kind ih e = (
  empty,
  [],
  k,
  tokens,
  refl,
  kind,
  refl,
  subst (λ r. Continues limit frames (set_entry f.result f.key (object r)) tokens root)
      (sym (joined-empty result))
      (ih frames _ (sym (close_step limit f frames result k tokens kind) ∙ e)),
)

open_case :
    (limit : ℕ) (k t : Token) (rest : List Token) (frames : List Frame) (result root : Entries)
    → k.kind ≡ string
    → has_key k.value result ≡ false
    → t.kind ≡ open_brace
    → length frames < limit
    → Continues limit (waiting result k ∷ frames) empty rest root
    → Continues limit frames result (k ∷ t ∷ rest) root
unfolding IsValue joined
open_case limit k t rest frames result root kind fresh k1 h
      (es, inside, closing, after, split, k2, inner, later) =
    subst (λ ts. Continues limit frames result (k ∷ t ∷ ts) root)
      (append_assoc inside (closing ∷ []) after ∙ sym split)
      (continue_entry limit frames result k (object es) (t ∷ (inside ++ (closing ∷ []))) after root
        kind fresh
        (
          t,
          inside,
          closing,
          refl,
          k1,
          k2,
          omega (arith, levels_eq limit frames, h),
          subst (λ n. IsEntries n empty es inside) (omega (arith, levels_eq limit frames)) inner,
        )
        later)

value_case :
    (limit : ℕ) (k t : Token) (rest : List Token) (frames : List Frame) (result root : Entries)
    → k.kind ≡ string
    → ((frames : List Frame) (result : Entries)
        → parse_entries limit (at_key frames result) rest ≡ ok root
        → Continues limit frames result rest root)
    → parse_entries limit (at_value frames result k) (t ∷ rest) ≡ ok root
    → Continues limit frames result (k ∷ t ∷ rest) root
unfolding IsValue parse_entries take_token read_value call
value_case limit k t rest frames result root kind ih e =
    elim (Bool-cases (has_key k.value result)) [
      | inl y ↦ absurd (cc (rw y at e))
      | inr fresh ↦ elim (Kind-cases t.kind) [
        | inl k1 ↦ elim (Bool-cases (ltb (length frames) limit)) [
          | inl room ↦
              let room' : length frames < limit = ground arith in
              open_case limit k t rest frames result root kind fresh k1 room'
                (ih _ _ (sym (open_step limit frames result k t rest k1 fresh room') ∙ e))
          | inr full ↦ absurd (cc (rw (fresh, k1, full) at e))
        ]
        | inr (inl k2) ↦ absurd (cc (rw (fresh, k2) at e))
        | inr (inr k3) ↦
            continue_entry limit frames result k (text t) (t ∷ []) rest root kind fresh (refl, k3)
              (ih _ _ (sym (text_step limit frames result k t rest k3 fresh) ∙ e))
      ]
    ]

parse_entries-Continues :
    (limit : ℕ) (tokens : List Token) (frames : List Frame) (result root : Entries)
    → parse_entries limit (at_key frames result) tokens ≡ ok root
    → Continues limit frames result tokens root
unfolding IsEntries parse_entries close take_token read_key
parse_entries-Continues limit [] [] result root e =
    (empty, refl, sym (ok-injective e) ∙ sym (joined-empty result))
parse_entries-Continues limit [] (f ∷ frames) result root e = cc
parse_entries-Continues limit (k ∷ []) frames result root e = elim (Kind-cases k.kind) [
  | inl k1 ↦ absurd (cc (rw k1 at e))
  | inr (inl k2) ↦
      close_case limit k [] frames result root k2
        (λ fs r. parse_entries-Continues limit [] fs r root) e
  | inr (inr k3) ↦
      let left : parse_entries limit (at_value frames result k) [] ≡ ok root =
        sym (key_step limit frames result k [] k3) ∙ e in
      absurd (cc (rw (close_pending frames k result) at left))
]
parse_entries-Continues limit (k ∷ t ∷ rest) frames result root e = elim (Kind-cases k.kind) [
  | inl k1 ↦ absurd (cc (rw k1 at e))
  | inr (inl k2) ↦
      close_case limit k (t ∷ rest) frames result root k2
        (λ fs r. parse_entries-Continues limit (t ∷ rest) fs r root) e
  | inr (inr k3) ↦
      value_case limit k t rest frames result root k3
        (λ fs r. parse_entries-Continues limit rest fs r root)
        (sym (key_step limit frames result k (t ∷ rest) k3) ∙ e)
]

-- What is parsed is spelled by the grammar.
pub IsEntries-parse_entries :
    (limit : ℕ) (es : Entries) (tokens : List Token)
    → parse_entries limit start_parser tokens ≡ ok es
    → IsEntries limit empty es tokens
unfolding joined
IsEntries-parse_entries limit es tokens e =
    let (found, h, same) = parse_entries-Continues limit tokens [] empty es e in
    subst (λ t. IsEntries limit empty t tokens) (sym same) h

-- `parse_entries` returns the entries that the grammar finds in the tokens, and raises if there are
-- none: each token is used, keys and texts are strings, braces match, no key is repeated in its
-- object, and no more than `limit` objects are open at once.
pub parse_entries_iff :
    (limit : ℕ) (es : Entries) (tokens : List Token)
    → (parse_entries limit start_parser tokens ≡ ok es) ↔ IsEntries limit empty es tokens
parse_entries_iff limit es tokens =
    (IsEntries-parse_entries limit es tokens, parse_entries-IsEntries limit es tokens)
