-- ===== src/Vdf/Grammar.antt =====
-- Which tokens spell which entries: the grammar that `_parse_vdf` reads.
use forza_motorsport_linux.Base.{ℕ, ◌-◌, ◌<◌, false, List, [], ◌∷◌, ◌++◌, ◌≡◌, refl, ap}
use forza_motorsport_linux.Vdf.Tokens.{Token, open_brace, close_brace, string}
use forza_motorsport_linux.Vdf.Entries.{
  Value, text, object, Entries, empty, entry, has_key, set_entry,
}

-- `before` are the entries of the same object that stand in front: none has the key of a later one.
-- `n` is how many levels of objects may be nested below.
unfoldable mutual
  pub IsEntries : ℕ → Entries → Entries → List Token → Type 0
  IsEntries n before empty tokens = tokens ≡ []
  IsEntries n before (entry k v rest) tokens =
      (first : List Token) × (others : List Token) × (tokens ≡ k ∷ (first ++ others))
      × (k.kind ≡ string)
      × (has_key k.value before ≡ false)
      × IsValue n v first
      × IsEntries n (set_entry before k v) rest others

  pub IsValue : ℕ → Value → List Token → Type 0
  IsValue n (text token) tokens = (tokens ≡ token ∷ []) × (token.kind ≡ string)
  IsValue n (object entries) tokens =
      (opening : Token) × (inside : List Token) × (closing : Token) × (tokens
        ≡ opening ∷ (inside ++ (closing ∷ [])))
      × (opening.kind ≡ open_brace)
      × (closing.kind ≡ close_brace)
      × (0 < n)
      × IsEntries (n - 1) empty entries inside

-- The entries of one dict followed by those of another.
unfoldable pub joined : Entries → Entries → Entries
joined empty es = es
joined (entry k v rest) es = entry k v (joined rest es)

pub joined-empty : (es : Entries) → joined es empty ≡ es
unfolding joined
joined-empty empty = refl
joined-empty (entry k v es) = ap (entry k v) (joined-empty es)

pub joined-set_entry :
    (es : Entries) (k : Token) (v : Value) (others : Entries)
    → joined (set_entry es k v) others ≡ joined es (entry k v others)
unfolding joined set_entry
joined-set_entry empty k v others = refl
joined-set_entry (entry l w es) k v others = ap (entry l w) (joined-set_entry es k v others)
