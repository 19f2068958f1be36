-- ===== src/Vdf/Places.antt =====
-- Where an entry stands among the tokens of its object, and what the grammar says of the object when
-- the entry has another value.
use mathlib.Core.List.{append_assoc, append-nil}
use forza_motorsport_linux.Base.{
  ℕ, Text, true, false, ◌||◌, some, List, [], ◌∷◌, ◌++◌, ◌≡◌, refl, sym, ap, subst, ◌∙◌, ◌==◌,
  ==_iff, ==_refl, nat_eq, list_eq, Bool-cases, inl, inr, arith,
}
use forza_motorsport_linux.Vdf.Tokens.{Token, string}
use forza_motorsport_linux.Vdf.Entries.{Value, Entries, empty, entry, has_key, set_entry}
use forza_motorsport_linux.Vdf.Identity.{get_entry, entry_keys, is_only}
use forza_motorsport_linux.Vdf.Grammar.{IsEntries, IsValue}

has_key-set_entry :
    (key : Text) (es : Entries) (k : Token) (v : Value)
    → has_key key (set_entry es k v) ≡ (has_key key es || key == k.value)
unfolding has_key set_entry
has_key-set_entry key empty k v = ground arith
has_key-set_entry key (entry l w es) k v = rw (has_key-set_entry key es k v) (ground arith)

-- Only the keys of the entries in front matter.
IsEntries-before :
    (n : ℕ) (before other es : Entries) (tokens : List Token)
    → ((key : Text) → has_key key before ≡ has_key key other)
    → IsEntries n before es tokens
    → IsEntries n other es tokens
unfolding IsEntries
IsEntries-before n before other empty tokens same h = h
IsEntries-before n before other (entry k v es) tokens same
      (first, others, split, kind, fresh, value, later) =
    (
      first,
      others,
      split,
      kind,
      sym (same k.value) ∙ fresh,
      value,
      IsEntries-before n (set_entry before k v) (set_entry other k v) es others
          (λ key.
            rw (has_key-set_entry key before k v, has_key-set_entry key other k v, same key) refl)
          later,
    )

-- The tokens around an entry, and the entries when it has another value.
pub record Place (n : ℕ) (before : Entries) (name : Text) (k : Token) (v : Value)
    (tokens : List Token) : Type 0 where
  pub front : List Token
  pub inside : List Token
  pub back : List Token
  pub split : tokens ≡ front ++ (k ∷ (inside ++ back))
  pub kind : k.kind ≡ string
  pub value : IsValue n v inside
  pub put :
      (w : Value) (other : List Token)
      → IsValue n w other
      → (es : Entries) × IsEntries n before es (front ++ (k ∷ (other ++ back)))
        × (get_entry name es ≡ some (k, w))

pub get_entry-Place :
    (n : ℕ) (before es : Entries) (name : Text) (k : Token) (v : Value) (tokens : List Token)
    → IsEntries n before es tokens
    → get_entry name es ≡ some (k, v)
    → Place n before name k v tokens
unfolding IsEntries get_entry
get_entry-Place n before empty name k v tokens h e = cc
get_entry-Place n before (entry l w es) name k v tokens
      (first, others, split, kind, fresh, value, later) e =
    elim (Bool-cases (name == l.value)) [
      | inl y ↦
          let same : l ≡ k = cc (rw y at e) in
          let same_value : w ≡ v = cc (rw y at e) in
          subst (λ t. Place n before name t v tokens) same
            (subst (λ t. Place n before name l t tokens) same_value
              (record {
                front = [];
                inside = first;
                back = others;
                split = split;
                kind = kind;
                value = value;
                put = λ u other m. (
                  entry l u es,
                  (
                    other,
                    others,
                    refl,
                    kind,
                    fresh,
                    m,
                    IsEntries-before n (set_entry before l w) (set_entry before l u) es others
                        (λ key.
                          has_key-set_entry key before l w ∙ sym (has_key-set_entry key before l u))
                        later,
                  ),
                  rw y refl,
                );
              }))
      | inr differ ↦
          let p =
            get_entry-Place n (set_entry before l w) es name k v others later (rw differ at e) in
          record {
            front = l ∷ (first ++ p.front);
            inside = p.inside;
            back = p.back;
            split = simp (split, p.split, append_assoc);
            kind = p.kind;
            value = p.value;
            put = λ u other m.
                let (found, g, at) = p.put u other m in
                (
                  entry l w found,
                  (
                    first,
                    p.front ++ (k ∷ (other ++ p.back)),
                    ap (λ t. l ∷ t) (append_assoc first p.front _),
                    kind,
                    fresh,
                    value,
                    g,
                  ),
                  rw differ at,
                );
          }
    ]

-- The only tool of the dict.
pub record Sole (n : ℕ) (name : Text) (k : Token) (v : Value) (tokens : List Token) : Type 0 where
  pub inside : List Token
  pub split : tokens ≡ k ∷ inside
  pub kind : k.kind ≡ string
  pub named : k.value ≡ name
  pub value : IsValue n v inside

one_key :
    (name : Text) (l k : Token) (w v : Value)
    → (l.value == name) ≡ true
    → has_key k.value (set_entry empty l w) ≡ false
    → (k.value == name) ≡ true
    → ⊥
unfolding has_key set_entry
one_key name l k w v y fresh z =
    let same : k.value ≡ l.value = (==_iff k.value name).0 z ∙ sym ((==_iff l.value name).0 y) in
    cc (rw (same, ==_refl l.value) at fresh)

pub is_only-Sole :
    (n : ℕ) (name : Text) (tools : Entries) (k : Token) (v : Value) (tokens : List Token)
    → IsEntries n empty tools tokens
    → is_only name tools ≡ true
    → get_entry name tools ≡ some (k, v)
    → Sole n name k v tokens
unfolding IsEntries is_only entry_keys has_key get_entry
is_only-Sole n name empty k v tokens h o e = cc
is_only-Sole n name (entry l w empty) k v tokens (first, others, split, kind, fresh, value, later) o
      e =
    let y : (l.value == name) ≡ true = ground arith in
    let z : (name == l.value) ≡ true = ground arith in
    let same : l ≡ k = cc (rw z at e) in
    let same_value : w ≡ v = cc (rw z at e) in
    subst (λ t. Sole n name t v tokens) same
      (subst (λ t. Sole n name l t tokens) same_value
        (record {
          inside = first;
          split = split ∙ ap (λ t. l ∷ t) (rw later (append-nil first));
          kind = kind;
          named = (==_iff l.value name).0 y;
          value = value;
        }))
is_only-Sole n name (entry l w (entry m u rest)) k v tokens
      (first, others, split, kind, fresh, value, (_, _, _, _, fresh', _, _)) o e =
    absurd (one_key name l m w u (ground arith) fresh' (ground arith))
