-- ===== src/Vdf/Entries.antt =====
-- `_VdfEntry`, `_parse_vdf` and its `parse_entries`. A `_VdfEntry` is a key token with its value, in
-- the dict under the key's text; a dict keeps the order of insertion. The nested calls of
-- `parse_entries` are an explicit stack: a frame holds the locals of a call that waits for the value
-- of its key. `limit` is how many calls the interpreter lets wait before it raises RecursionError.
use forza_motorsport_linux.Base.{
  ℕ, Text, Bool, false, ◌||◌, Option, none, some, List, [], ◌∷◌, length, Result, ok, err, about,
  recursion_error, raise, ◌>>=◌, ◌==◌, nat_eq, list_eq, ltb, if◌then◌else◌,
}
use forza_motorsport_linux.Vdf.Tokens.{
  Kind, open_brace, close_brace, string, Token, Contents, invalid_vdf, tokenize_vdf,
}

mutual
  pub data Value : Type 0 where
    text : Token → Value
    object : Entries → Value

  pub data Entries : Type 0 where
    empty : Entries
    entry : Token → Value → Entries → Entries

-- key in result
unfoldable pub has_key : Text → Entries → Bool
has_key key empty = false
has_key key (entry k v rest) = key == k.value || has_key key rest

-- result[key.value] = _VdfEntry(key, value), for a key that is not in the dict
unfoldable pub set_entry : Entries → Token → Value → Entries
set_entry empty key value = entry key value empty
set_entry (entry k v rest) key value = entry k v (set_entry rest key value)

-- A call of `parse_entries` that waits: its `result` and its `key`.
pub record Frame : Type 0 where
  pub result : Entries
  pub key : Token

-- The calls that wait, innermost first; the `result` of the running call, and its `key` once read.
pub record Parser : Type 0 where
  pub frames : List Frame
  pub result : Entries
  pub key : Option Token

-- `return result`: the call that waits stores the object under its key.
unfoldable pub return_to : List Frame → Entries → Result Parser
return_to [] result = raise invalid_vdf
return_to (f ∷ frames) result =
    ok (record { frames = frames; result = set_entry f.result f.key (object result); key = none })

-- parse_entries(True)
unfoldable pub call : ℕ → Parser → Token → Result Parser
call limit p key =
    if ltb (length p.frames) limit
    then ok (record {
      frames = (record { result = p.result; key = key }) ∷ p.frames;
      result = empty;
      key = none;
    })
    else err recursion_error

unfoldable pub read_key : Kind → Parser → Token → Result Parser
read_key close_brace p token = return_to p.frames p.result
read_key open_brace p token = raise invalid_vdf
read_key string p token = ok (record p { key = some token })

unfoldable pub read_value : ℕ → Kind → Parser → Token → Token → Result Parser
read_value limit open_brace p key token = call limit p key
read_value limit string p key token =
    ok (record p { result = set_entry p.result key (text token); key = none })
read_value limit close_brace p key token = raise invalid_vdf

-- One token: a key, the closing brace, or the value of the key read before.
unfoldable pub take_token : ℕ → Option Token → Parser → Token → Result Parser
take_token limit none p token = read_key token.kind p token
take_token limit (some key) p token =
    if has_key key.value p.result
    then err (about "duplicate VDF key: " key.value)
    else read_value limit token.kind p key token

-- `position` has reached `len(tokens)`.
unfoldable pub close : List Frame → Option Token → Entries → Result Entries
close [] none result = ok result
close _ _ result = raise invalid_vdf

unfoldable pub parse_entries : ℕ → Parser → List Token → Result Entries
parse_entries limit p [] = close p.frames p.key p.result
parse_entries limit p (token ∷ tokens) = do
  q ← take_token limit p.key p token
  parse_entries limit q tokens

abbrev pub start_parser : Parser
start_parser = record { frames = []; result = empty; key = none }

unfoldable pub parse_vdf : ℕ → Contents → Result Entries
parse_vdf limit bytes = do tokens ← tokenize_vdf bytes; parse_entries limit start_parser tokens
