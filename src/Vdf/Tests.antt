-- ===== src/Vdf/Tests.antt =====
-- Runs of the code on a `compatibilitytool.vdf`, and its theorems at that file.
use forza_motorsport_linux.Base.{
  ◌≡◌, ◌↔◌, refl, Text, codes, none, some, List, [], ◌∷◌, ◌++◌, ok, err, message, about,
  recursion_error, equality, starts_with,
}
use forza_motorsport_linux.Vdf.Tokens.{
  Token, string, isspace, brace_token, string_token, step, finish, scan, tokenize_vdf, invalid_vdf,
}
use forza_motorsport_linux.Vdf.Entries.{
  text, object, Entries, empty, entry, has_key, set_entry, return_to, call, read_key, read_value,
  take_token, close, parse_entries, start_parser, parse_vdf,
}
use forza_motorsport_linux.Vdf.Identity.{
  base_release, get_entry, as_object, as_token, entry_keys, is_only, key_of, display_of,
  tool_identity, identity_in, vdf_identity, replace, later_first, replace_each, decode,
  rewritten_vdf,
}
use forza_motorsport_linux.Vdf.Grammar.{IsEntries}
use forza_motorsport_linux.Vdf.Parsing.{parse_entries_iff}
use forza_motorsport_linux.Vdf.Reading.{Written, tokenize_vdf_iff}
use forza_motorsport_linux.Vdf.Rewriting.{IsRenamed, rewritten_vdf-IsRenamed}

unfoldable vdf_code : Unit {0}
unfolding equality starts_with isspace brace_token string_token step finish scan tokenize_vdf
    has_key set_entry return_to call read_key read_value take_token close parse_entries parse_vdf
    get_entry as_object as_token entry_keys is_only key_of display_of tool_identity identity_in
    vdf_identity replace later_first replace_each decode rewritten_vdf
vdf_code = tt

abbrev head : Text
head = codes "\"compatibilitytools\" { \"compat_tools\" { // tools\n"

abbrev sample : Text
sample = head ++ codes "\"GE-Proton11-3\" { \"display_name\" \"GE-Proton11-3\" } } }"

abbrev tool_key : Token
tool_key = record { kind = string; value = base_release; start = 49; end = 64 }

abbrev display : Token
display = record { kind = string; value = base_release; start = 82; end = 97 }

sample_identity : vdf_identity 3 (some sample) base_release ≡ ok (tool_key, display)
unfolding vdf_code
sample_identity = refl

sample_rewritten :
    rewritten_vdf 3 (some sample)
    ≡ ok (some (head ++ codes "\"GE-Proton11-3-FM\" { \"display_name\" \"GE-Proton11-3-FM\" } } }"))
unfolding vdf_code
sample_rewritten = refl

rewritten_vdf-IsRenamed_example : IsRenamed 3 sample tool_key display
rewritten_vdf-IsRenamed_example = rewritten_vdf-IsRenamed 3 sample tool_key display sample_identity

-- Three objects are open at once.
deep : vdf_identity 2 (some sample) base_release ≡ err recursion_error
unfolding vdf_code
deep = refl

repeated :
    parse_vdf 2 (some (codes "\"a\" \"b\" \"a\" {")) ≡ err (about "duplicate VDF key: " (codes "a"))
unfolding vdf_code
repeated = refl

unclosed : parse_vdf 2 (some (codes "\"a\" {")) ≡ err (message invalid_vdf)
unfolding vdf_code
unclosed = refl

undecodable : parse_vdf 2 none ≡ err (message invalid_vdf)
unfolding vdf_code
undecodable = refl

-- {"a" {"b" "c"}}, without the outer braces
abbrev nested : List Token
nested =
    string_token 0 (codes "a") 3
    ∷ brace_token 4 b'{'
    ∷ string_token 5 (codes "b") 8
    ∷ string_token 9 (codes "c") 12
    ∷ brace_token 12 b'}'
    ∷ []

abbrev nested_entries : Entries
nested_entries =
    entry (string_token 0 (codes "a") 3)
      (object (entry (string_token 5 (codes "b") 8) (text (string_token 9 (codes "c") 12)) empty))
      empty

parse_entries_iff_example :
    (parse_entries 1 start_parser nested ≡ ok nested_entries)
    ↔ IsEntries 1 empty nested_entries nested
parse_entries_iff_example = parse_entries_iff 1 nested_entries nested

nested_parsed : parse_entries 1 start_parser nested ≡ ok nested_entries
unfolding vdf_code
nested_parsed = refl

-- an escape and a comment that the end of the text ends
abbrev written : Text
written = codes "\"a\\\"\"{} // end"

written_tokens :
    tokenize_vdf (some written)
    ≡ ok (string_token 0 (codes "a\"") 5 ∷ brace_token 5 b'{' ∷ brace_token 6 b'}' ∷ [])
unfolding vdf_code
written_tokens = refl

tokenize_vdf_iff_example :
    (tokenize_vdf (some written)
      ≡ ok (string_token 0 (codes "a\"") 5 ∷ brace_token 5 b'{' ∷ brace_token 6 b'}' ∷ []))
    ↔ Written written
        (string_token 0 (codes "a\"") 5 ∷ brace_token 5 b'{' ∷ brace_token 6 b'}' ∷ [])
tokenize_vdf_iff_example =
    tokenize_vdf_iff written
      (string_token 0 (codes "a\"") 5 ∷ brace_token 5 b'{' ∷ brace_token 6 b'}' ∷ [])
