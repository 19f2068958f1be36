-- ===== src/Vdf/Spots.antt =====
-- Where the two tokens that `_vdf_identity` returns stand among the tokens of the file, and what the
-- grammar says when they carry another text.
use mathlib.Core.List.{append_assoc, append-nil}
use forza_motorsport_linux.Base.{
  ℕ, ◌-◌, Text, true, false, not, Option, none, some, List, [], ◌∷◌, ◌++◌, ◌≡◌, refl, sym, subst,
  ◌==◌, ==_iff, nat_eq, list_eq, ok, raise_if, refuse_if-ok, Ensures, Ensures-ok, Ensures-bind,
  codes, arith,
}
use forza_motorsport_linux.Vdf.Tokens.{Token, string}
use forza_motorsport_linux.Vdf.Entries.{Value, text, object, Entries, empty, entry, has_key}
use forza_motorsport_linux.Vdf.Identity.{
  get_entry, as_object, as_token, entry_keys, is_only, key_of, display_of, tool_identity,
  identity_in, invalid_identity,
}
use forza_motorsport_linux.Vdf.Grammar.{IsEntries, IsValue}
use forza_motorsport_linux.Vdf.Places.{get_entry-Place, is_only-Sole}

unfoldable pub renamed : Text → Token → Token
renamed name t = record t { value = name }

-- The tokens around the two that are returned, and entries that they spell with another name.
pub record Spot (n : ℕ) (name : Text) (k d : Token) (tokens : List Token) (Good : Entries → Type 0)
    : Type 0 where
  pub front : List Token
  pub between : List Token
  pub back : List Token
  pub split : tokens ≡ front ++ (k ∷ (between ++ (d ∷ back)))
  pub key_kind : k.kind ≡ string
  pub display_kind : d.kind ≡ string
  pub others : Entries
  pub spelled :
      IsEntries n empty others (front ++ (renamed name k ∷ (between ++ (renamed name d ∷ back))))
  pub good : Good others

abbrev Holds : Text → (Entries → Type 0) → Entries → Type 0
Holds name Good es =
    (l : Token) × (inner : Entries) × (get_entry name es ≡ some (l, object inner)) × Good inner

-- An entry that holds an object has the spot of the object.
enclose :
    (n : ℕ) (es inner : Entries) (member name : Text) (l k d : Token) (tokens : List Token)
    (Good : Entries → Type 0)
    → IsEntries n empty es tokens
    → get_entry member es ≡ some (l, object inner)
    → ((inside : List Token)
        → IsEntries (n - 1) empty inner inside
        → Spot (n - 1) name k d inside Good)
    → Spot n name k d tokens (Holds member Good)
unfolding IsValue
enclose n es inner member name l k d tokens Good h e spot =
    let p = get_entry-Place n empty es member l (object inner) tokens h e in
    let (opening, inside, closing, cut, k1, k2, room, g) = p.value in
    let s = spot inside g in
    let other =
      opening
      ∷ ((s.front ++ (renamed name k ∷ (s.between ++ (renamed name d ∷ s.back))))
          ++ (closing ∷ [])) in
    let (found, whole, at) =
      p.put (object s.others) other (opening, _, closing, refl, k1, k2, room, s.spelled) in
    record {
      front = p.front ++ (l ∷ opening ∷ s.front);
      between = s.between;
      back = s.back ++ (closing ∷ p.back);
      split = simp (p.split, cut, s.split, append_assoc);
      key_kind = s.key_kind;
      display_kind = s.display_kind;
      others = found;
      spelled = subst (IsEntries n empty found) (simp append_assoc) whole;
      good = (l, s.others, at, s.good);
    }

as_object-inv :
    (o : Option (Token × Value)) (es : Entries)
    → as_object o ≡ ok es
    → (l : Token) × (o ≡ some (l, object es))
unfolding as_object
as_object-inv (some (l, object es)) other h = (l, cc)
as_object-inv (some (l, text t)) other h = cc
as_object-inv none other h = cc

as_token-inv :
    (o : Option (Token × Value)) (t : Token)
    → as_token o ≡ ok t
    → (l : Token) × (o ≡ some (l, text t))
unfolding as_token
as_token-inv (some (l, text t)) other h = (l, cc)
as_token-inv (some (l, object es)) other h = cc
as_token-inv none other h = cc

key_of-inv :
    (o : Option (Token × Value)) (k : Token) → key_of o ≡ ok k → (v : Value) × (o ≡ some (k, v))
unfolding key_of
key_of-inv (some (l, v)) k h = (v, cc)
key_of-inv none k h = cc

-- What `tool_identity` has found when it returns.
record Tool (tools : Entries) (expected : Text) (k d : Token) : Type 0 where
  only : is_only expected tools ≡ true
  fields : Entries
  found : get_entry expected tools ≡ some (k, object fields)
  label : Token
  shown : get_entry (codes "display_name") fields ≡ some (label, text d)

tool_identity-Tool :
    (tools : Entries) (expected : Text)
    → Ensures (λ (k, d). Tool tools expected k d) (tool_identity tools expected)
unfolding tool_identity display_of
tool_identity-Tool tools expected =
    Ensures-bind (raise_if (not (is_only expected tools)) invalid_identity) _ λ u h1.
      Ensures-bind (key_of (get_entry expected tools)) _ λ key h2.
        Ensures-bind (as_object (get_entry expected tools)) _ λ fields h3.
          Ensures-bind (as_token (get_entry (codes "display_name") fields)) _ λ display h4.
            Ensures-bind (raise_if (not (display.value == expected)) invalid_identity) _ λ _ _.
              let (l, at) = as_object-inv _ fields h3 in
              let (v, at') = key_of-inv _ key h2 in
              let (label, shown) = as_token-inv _ display h4 in
              let same : l ≡ key = cc (at, at') in
              let test : not (is_only expected tools) ≡ false =
                refuse_if-ok (not (is_only expected tools)) _ u h1 in
              Ensures-ok _ (record {
                only = ground arith;
                fields = fields;
                found = rw same at at;
                label = label;
                shown = shown;
              })

tool_identity_ok :
    (key d : Token) (label : Token) (fields : Entries) (name : Text)
    → key.value ≡ name
    → d.value ≡ name
    → get_entry (codes "display_name") fields ≡ some (label, text d)
    → tool_identity (entry key (object fields) empty) name ≡ ok (key, d)
unfolding tool_identity display_of is_only entry_keys has_key get_entry key_of as_object as_token
tool_identity_ok key d label fields name e f g =
    let b : (key.value == name) ≡ true = (==_iff key.value name).1 e in
    let c : (name == key.value) ≡ true = (==_iff name key.value).1 (sym e) in
    let h : (d.value == name) ≡ true = (==_iff d.value name).1 f in rw (b, c, g, h) refl

tool_Spot :
    (n : ℕ) (tools : Entries) (expected name : Text) (k d : Token) (tokens : List Token)
    → IsEntries n empty tools tokens
    → tool_identity tools expected ≡ ok (k, d)
    → Spot n name k d tokens (λ es. tool_identity es name ≡ ok (renamed name k, renamed name d))
unfolding IsEntries IsValue has_key renamed
tool_Spot n tools expected name k d tokens h e =
    let t = (tool_identity-Tool tools expected).at (k, d) e in
    let s = is_only-Sole n expected tools k (object t.fields) tokens h t.only t.found in
    let (opening, inside, closing, cut, k1, k2, room, g) = s.value in
    let p =
      get_entry-Place (n - 1) empty t.fields (codes "display_name") t.label (text d) inside g
        t.shown in
    let (cut', kind') = p.value in
    let (fields, spelled, at) = p.put (text (renamed name d)) (renamed name d ∷ []) (refl, kind') in
    let whole = opening ∷ ((p.front ++ (t.label ∷ renamed name d ∷ p.back)) ++ (closing ∷ [])) in
    record {
      front = [];
      between = opening ∷ (p.front ++ (t.label ∷ []));
      back = p.back ++ (closing ∷ []);
      split = simp (s.split, cut, p.split, cut', append_assoc);
      key_kind = s.kind;
      display_kind = kind';
      others = entry (renamed name k) (object fields) empty;
      spelled = (
        whole,
        [],
        simp (append_assoc, append-nil),
        s.kind,
        refl,
        (opening, _, closing, refl, k1, k2, room, spelled),
        refl,
      );
      good = tool_identity_ok (renamed name k) (renamed name d) t.label fields name refl refl at;
    }

-- What `identity_in` has found when it returns.
record Found (es : Entries) (expected : Text) (k d : Token) : Type 0 where
  outer : Token
  root : Entries
  found_root : get_entry (codes "compatibilitytools") es ≡ some (outer, object root)
  middle : Token
  tools : Entries
  found_tools : get_entry (codes "compat_tools") root ≡ some (middle, object tools)
  identified : tool_identity tools expected ≡ ok (k, d)

identity_in-Found :
    (es : Entries) (expected : Text)
    → Ensures (λ (k, d). Found es expected k d) (identity_in es expected)
unfolding identity_in
identity_in-Found es expected =
    Ensures-bind (as_object (get_entry (codes "compatibilitytools") es)) _ λ root h1.
      Ensures-bind (as_object (get_entry (codes "compat_tools") root)) _ λ tools h2.
        let (outer, at) = as_object-inv _ root h1 in
        let (middle, at') = as_object-inv _ tools h2 in
        record {
          at = λ (k, d) e. record {
            outer = outer;
            root = root;
            found_root = at;
            middle = middle;
            tools = tools;
            found_tools = at';
            identified = e;
          };
        }

identity_in_ok :
    (es : Entries) (name : Text) (k d : Token)
    → Holds
        (codes "compatibilitytools")
        (Holds (codes "compat_tools") (λ tools. tool_identity tools name ≡ ok (k, d)))
        es
    → identity_in es name ≡ ok (k, d)
unfolding identity_in as_object
identity_in_ok es name k d (l, root, h, (m, tools, g, e)) = rw (h, g) e

Spot-map :
    {n : ℕ} {name : Text} {k d : Token} {tokens : List Token} {Good Better : Entries → Type 0}
    → ((es : Entries) → Good es → Better es)
    → Spot n name k d tokens Good
    → Spot n name k d tokens Better
Spot-map f s = record {
  front = s.front;
  between = s.between;
  back = s.back;
  split = s.split;
  key_kind = s.key_kind;
  display_kind = s.display_kind;
  others = s.others;
  spelled = s.spelled;
  good = f s.others s.good;
}

-- The two tokens that `_vdf_identity` returns, and what the file spells with another name.
pub identity_in-Spot :
    (n : ℕ) (es : Entries) (expected name : Text) (k d : Token) (tokens : List Token)
    → IsEntries n empty es tokens
    → identity_in es expected ≡ ok (k, d)
    → Spot n name k d tokens
        (λ others. identity_in others name ≡ ok (renamed name k, renamed name d))
identity_in-Spot n es expected name k d tokens h e =
    let f = (identity_in-Found es expected).at (k, d) e in
    Spot-map (λ others. identity_in_ok others name (renamed name k) (renamed name d))
      (enclose n es f.root (codes "compatibilitytools") name f.outer k d tokens _ h f.found_root
        λ inside g.
          enclose (n - 1) f.root f.tools (codes "compat_tools") name f.middle k d inside _ g
            f.found_tools
            λ inside' g'. tool_Spot (n - 1 - 1) f.tools expected name k d inside' g' f.identified)
