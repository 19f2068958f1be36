-- ===== src/Vdf/Identity.antt =====
-- `_object`, `_vdf_identity` and `_rewritten_vdf`.
use forza_motorsport_linux.Base.{
  ℕ, Text, Bool, ◌&&◌, not, Option, none, some, List, [], ◌∷◌, ◌++◌, Result, ok, raise, raise_if,
  ◌>>=◌, ◌>>◌, ◌==◌, nat_eq, list_eq, ltb, if◌then◌else◌, codes, all_of, take, drop,
}
use forza_motorsport_linux.Vdf.Tokens.{Token, Contents, invalid_vdf}
use forza_motorsport_linux.Vdf.Entries.{
  Value, text, object, Entries, empty, entry, has_key, parse_vdf,
}
use Prim.Native.String.{String}

abbrev pub base_release : Text
base_release = codes "GE-Proton11-3"

abbrev pub fm_name : Text
fm_name = codes "GE-Proton11-3-FM"

abbrev pub invalid_identity : String
invalid_identity = "compatibility-tool VDF identity is invalid"

-- fields.get(key): the key token and the value of an entry
unfoldable pub get_entry : Text → Entries → Option (Token × Value)
get_entry key empty = none
get_entry key (entry k v rest) = if key == k.value then some (k, v) else get_entry key rest

-- _object
unfoldable pub as_object : Option (Token × Value) → Result Entries
as_object (some (key, object entries)) = ok entries
as_object _ = raise invalid_identity

-- display.value, where it is a token
unfoldable pub as_token : Option (Token × Value) → Result Token
as_token (some (key, text token)) = ok token
as_token _ = raise invalid_identity

-- list(fields)
unfoldable pub entry_keys : Entries → List Text
entry_keys empty = []
entry_keys (entry k v rest) = k.value ∷ entry_keys rest

-- set(tools) == {expected}
unfoldable pub is_only : Text → Entries → Bool
unfolding entry_keys
is_only expected tools =
    has_key expected tools && all_of (λ key. key == expected) (entry_keys tools)

-- tools[expected], its key
unfoldable pub key_of : Option (Token × Value) → Result Token
key_of (some (key, value)) = ok key
key_of none = raise invalid_identity

-- the last lines, from `display` on
unfoldable pub display_of : Token → Entries → Text → Result (Token × Token)
display_of key fields expected = do
  display ← as_token (get_entry (codes "display_name") fields)
  raise_if (not (display.value == expected)) invalid_identity
  ok (key, display)

-- the lines from the test on `set(tools)` on
unfoldable pub tool_identity : Entries → Text → Result (Token × Token)
tool_identity tools expected = do
  raise_if (not (is_only expected tools)) invalid_identity
  key ← key_of (get_entry expected tools)
  fields ← as_object (get_entry expected tools)
  display_of key fields expected

unfoldable pub identity_in : Entries → Text → Result (Token × Token)
identity_in parsed expected = do
  root ← as_object (get_entry (codes "compatibilitytools") parsed)
  tools ← as_object (get_entry (codes "compat_tools") root)
  tool_identity tools expected

unfoldable pub vdf_identity : ℕ → Contents → Text → Result (Token × Token)
vdf_identity limit bytes expected = do parsed ← parse_vdf limit bytes; identity_in parsed expected

-- f'"{_FM_NAME}"'
abbrev pub quoted_name : Text
quoted_name = b'"' ∷ (fm_name ++ (b'"' ∷ []))

-- text[: token.start] + name + text[token.end :]
unfoldable pub replace : Text → Token → Text
replace s token = take token.start s ++ (quoted_name ++ drop token.end s)

-- sorted((a, b), key=start, reverse=True), which is stable
unfoldable pub later_first : Token → Token → List Token
later_first a b = if ltb a.start b.start then b ∷ a ∷ [] else a ∷ b ∷ []

unfoldable pub replace_each : Text → List Token → Text
replace_each s [] = s
replace_each s (token ∷ tokens) = replace_each (replace s token) tokens

unfoldable pub decode : Contents → Result Text
decode none = raise invalid_vdf
decode (some s) = ok s

unfoldable pub rewritten_vdf : ℕ → Contents → Result Contents
rewritten_vdf limit bytes = do
  (tool_key, display) ← vdf_identity limit bytes base_release
  s ← decode bytes
  let result = some (replace_each s (later_first tool_key display))
  checked ← vdf_identity limit result fm_name
  ok result
