-- ===== src/Paths.antt =====
-- The functions of Python's `posixpath` and `os` on paths that the program calls.
pub mod Normal
use forza_motorsport_linux.Base.{
  ℕ, suc, ◌+◌, Text, Bool, true, false, ◌&&◌, ◌||◌, not, Option, none, some, List, [], ◌∷◌, ◌++◌,
  ◌==◌, nat_eq, list_eq, contains, all_of, ltb, leb, starts_with, split, join, drop, if◌then◌else◌,
}

abbrev pub slash : ℕ
slash = b'/'

abbrev pub dot_text : Text
dot_text = b'.' ∷ []

abbrev pub dot_dot : Text
dot_dot = b'.' ∷ b'.' ∷ []

unfoldable pub reverse_onto {ℓ} : {A : Type ℓ} → List A → List A → List A
reverse_onto [] acc = acc
reverse_onto (x ∷ xs) acc = reverse_onto xs (x ∷ acc)

-- comp != dotdot or (not rooted and not new_comps) or (new_comps and new_comps[-1] == dotdot)
unfoldable pub is_kept : Bool → Text → List Text → Bool
is_kept rooted part [] = not (part == dot_dot) || not rooted
is_kept rooted part (top ∷ stack) = not (part == dot_dot) || top == dot_dot

-- One round of the loop of `normpath`; the components so far stand in reverse order.
unfoldable pub push_component : Bool → Text → List Text → List Text
unfolding is_kept
push_component rooted part stack =
    if part == [] || part == dot_text
    then stack
    else if is_kept rooted part stack
    then part ∷ stack
    else drop 1 stack

unfoldable pub normal_stack : Bool → List Text → List Text → List Text
normal_stack rooted [] stack = stack
normal_stack rooted (part ∷ parts) stack =
    normal_stack rooted parts (push_component rooted part stack)

-- POSIX keeps two initial slashes, and takes three or more for one.
unfoldable pub initial_slashes : Text → Text
initial_slashes path =
    if not (starts_with path (slash ∷ []))
    then []
    else if starts_with path (slash ∷ slash ∷ [])
        && not (starts_with path (slash ∷ slash ∷ slash ∷ []))
    then slash ∷ slash ∷ []
    else slash ∷ []

or_dot : Text → Text
or_dot [] = dot_text
or_dot (c ∷ text) = c ∷ text

unfoldable pub normal_parts : Text → List Text
normal_parts path =
    reverse_onto (normal_stack (starts_with path (slash ∷ [])) (split slash path) []) []

-- posixpath.normpath(path)
unfoldable pub normpath : Text → Text
unfolding or_dot
normpath [] = dot_text
normpath (c ∷ path) = or_dot (initial_slashes (c ∷ path) ++ join slash (normal_parts (c ∷ path)))

-- path[: path.rfind("/") + 1]
through_last_slash : Text → Text
through_last_slash [] = []
through_last_slash (c ∷ path) =
    let rest = through_last_slash path in
    if contains path slash then c ∷ rest else if c == slash then c ∷ [] else []

-- text.rstrip("/")
strip_slashes : Text → Text
strip_slashes [] = []
strip_slashes (c ∷ text) =
    let rest = strip_slashes text in if rest == [] && c == slash then [] else c ∷ rest

-- posixpath.dirname(path)
unfoldable pub dirname : Text → Text
unfolding through_last_slash strip_slashes
dirname path =
    let head = through_last_slash path in
    if all_of (λ c. c == slash) head then head else strip_slashes head

ends_with_slash : Text → Bool
ends_with_slash [] = false
ends_with_slash (c ∷ []) = c == slash
ends_with_slash (c ∷ d ∷ text) = ends_with_slash (d ∷ text)

-- posixpath.join(a, b)
unfoldable pub join_paths : Text → Text → Text
unfolding ends_with_slash
join_paths a b =
    if starts_with b (slash ∷ [])
    then b
    else if a == [] || ends_with_slash a
    then a ++ b
    else a ++ (slash ∷ b)

-- len(os.fsencode(text)) in UTF-8 with surrogateescape; `none` is the UnicodeEncodeError that a
-- surrogate outside U+DC80..U+DCFF raises.
encoded_character : ℕ → Option ℕ
encoded_character c =
    if ltb c 0x80
    then some 1
    else if ltb c 0x800
    then some 2
    else if leb 0xDC80 c && leb c 0xDCFF
    then some 1
    else if leb 0xD800 c && leb c 0xDFFF
    then none
    else if ltb c 0x10000
    then some 3
    else some 4

plus : Option ℕ → Option ℕ → Option ℕ
plus (some m) (some n) = some (m + n)
plus _ n = none

unfoldable pub encoded_size : Text → Option ℕ
unfolding encoded_character plus
encoded_size [] = some 0
encoded_size (c ∷ text) = plus (encoded_character c) (encoded_size text)

-- any(ord(character) < 0x20 or ord(character) == 0x7F for character in text)
abbrev pub is_control : ℕ → Bool
is_control c = ltb c 0x20 || c == 0x7F
