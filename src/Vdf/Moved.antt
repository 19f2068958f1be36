-- ===== src/Vdf/Moved.antt =====
-- `_vdf_identity` does not look at where a token stands.
use forza_motorsport_linux.Base.{
  Text, Option, none, some, ◌∷◌, ◌≡◌, refl, ap, ◌==◌, nat_eq, list_eq, codes, Bool-cases,
  Result-cases, inl, inr,
}
use forza_motorsport_linux.Vdf.Tokens.{Token}
use forza_motorsport_linux.Vdf.Entries.{Value, text, object, Entries, empty, entry}
use forza_motorsport_linux.Vdf.Identity.{
  get_entry, as_object, as_token, entry_keys, is_only, key_of, display_of, tool_identity,
  identity_in,
}
use forza_motorsport_linux.Vdf.Positions.{
  strip, strip_value, strip_entries, on_result, has_key-strip,
}

abbrev pub strip_pair : Token × Token → Token × Token
strip_pair (k, d) = (strip k, strip d)

strip_entry : Option (Token × Value) → Option (Token × Value)
strip_entry none = none
strip_entry (some (k, v)) = some (strip k, strip_value v)

get_entry-strip :
    (key : Text) (es : Entries) → get_entry key (strip_entries es) ≡ strip_entry (get_entry key es)
unfolding get_entry strip_entries strip strip_entry
get_entry-strip key empty = refl
get_entry-strip key (entry k v rest) = elim (Bool-cases (key == k.value)) [
  | inl y ↦ rw y refl
  | inr n ↦ rw n (get_entry-strip key rest)
]

as_object-strip :
    (e : Option (Token × Value)) → as_object (strip_entry e) ≡ on_result strip_entries (as_object e)
unfolding as_object strip_entry strip_value
as_object-strip none = refl
as_object-strip (some (k, text t)) = refl
as_object-strip (some (k, object es)) = refl

as_token-strip :
    (e : Option (Token × Value)) → as_token (strip_entry e) ≡ on_result strip (as_token e)
unfolding as_token strip_entry strip_value
as_token-strip none = refl
as_token-strip (some (k, text t)) = refl
as_token-strip (some (k, object es)) = refl

key_of-strip : (e : Option (Token × Value)) → key_of (strip_entry e) ≡ on_result strip (key_of e)
unfolding key_of strip_entry
key_of-strip none = refl
key_of-strip (some (k, v)) = refl

entry_keys-strip : (es : Entries) → entry_keys (strip_entries es) ≡ entry_keys es
unfolding entry_keys strip_entries strip
entry_keys-strip empty = refl
entry_keys-strip (entry k v rest) = ap (λ ks. k.value ∷ ks) (entry_keys-strip rest)

is_only-strip :
    (expected : Text) (es : Entries) → is_only expected (strip_entries es) ≡ is_only expected es
unfolding is_only
is_only-strip expected es = rw (has_key-strip expected es, entry_keys-strip es) refl

display_of-strip :
    (key : Token) (fields : Entries) (expected : Text)
    → display_of (strip key) (strip_entries fields) expected
      ≡ on_result strip_pair (display_of key fields expected)
unfolding display_of strip
display_of-strip key fields expected =
    let found = get_entry (codes "display_name") fields in
    rw (get_entry-strip (codes "display_name") fields, as_token-strip found)
      (elim (Result-cases (as_token found)) [
        | inl (e, h) ↦ rw h refl
        | inr (d, h) ↦
            rw h (elim (Bool-cases (d.value == expected)) [ inl y ↦ rw y refl | inr n ↦ rw n refl ])
      ])

tool_identity-strip :
    (tools : Entries) (expected : Text)
    → tool_identity (strip_entries tools) expected
      ≡ on_result strip_pair (tool_identity tools expected)
unfolding tool_identity
tool_identity-strip tools expected =
    let found = get_entry expected tools in
    rw
      (
        is_only-strip expected tools,
        get_entry-strip expected tools,
        key_of-strip found,
        as_object-strip found,
      )
      (elim (Bool-cases (is_only expected tools)) [
        | inl y ↦ rw y (elim (Result-cases (key_of found)) [
          | inl (e, h) ↦ rw h refl
          | inr (k, h) ↦ rw h (elim (Result-cases (as_object found)) [
            | inl (e, g) ↦ rw g refl
            | inr (fields, g) ↦ rw g (display_of-strip k fields expected)
          ])
        ])
        | inr n ↦ rw n refl
      ])

-- What identifies the tool is the same at other positions.
pub identity_in-strip :
    (es : Entries) (expected : Text)
    → identity_in (strip_entries es) expected ≡ on_result strip_pair (identity_in es expected)
unfolding identity_in
identity_in-strip es expected =
    let outer = get_entry (codes "compatibilitytools") es in
    rw (get_entry-strip (codes "compatibilitytools") es, as_object-strip outer)
      (elim (Result-cases (as_object outer)) [
        | inl (e, h) ↦ rw h refl
        | inr (root, h) ↦
            let inner = get_entry (codes "compat_tools") root in
            rw (h, get_entry-strip (codes "compat_tools") root, as_object-strip inner)
              (elim (Result-cases (as_object inner)) [
                | inl (e, g) ↦ rw g refl
                | inr (tools, g) ↦ rw g (tool_identity-strip tools expected)
              ])
      ])
