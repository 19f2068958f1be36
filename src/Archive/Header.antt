-- ===== src/Archive/Header.antt =====
-- forza_bootstrap/artifacts.py: `_tar_number`, `_valid_tar_checksum` and `_validate_raw_tar_name`. A
-- byte is a number below 256.
pub mod Numbers
use forza_motorsport_linux.Base.{
  ℕ, suc, ◌+◌, ◌-◌, ◌*◌, ◌%◌, Bool, ◌&&◌, ◌||◌, not, Option, none, some, List, [], ◌∷◌, ◌++◌,
  reverse, Result, ok, raise, raise_if, ◌>>=◌, ◌==◌, nat_eq, list_eq, option_eq, bool_eq, contains,
  any_of, all_of, leb, ltb, take, drop, split, starts_with, if◌then◌else◌,
}
use forza_motorsport_linux.Paths.{slash, is_control}

-- int.from_bytes for base 256, int(…, 8) for base 8
unfoldable pub from_digits : ℕ → ℕ → List ℕ → ℕ
from_digits base high [] = high
from_digits base high (d ∷ ds) = from_digits base (high * base + d) ds

-- field.lstrip(b" \0")
unfoldable pub strip_left : List ℕ → List ℕ
strip_left [] = []
strip_left (c ∷ field) =
    let rest = strip_left field in if c == 32 || c == 0 then rest else c ∷ field

unfoldable pub strip : List ℕ → List ℕ
unfolding strip_left
strip field = reverse (strip_left (reverse (strip_left field)))

abbrev pub is_octal : ℕ → Bool
is_octal c = leb b'0' c && leb c b'7'

unfoldable pub digits_of : List ℕ → List ℕ
digits_of [] = []
digits_of (c ∷ text) = (c - b'0') ∷ digits_of text

unfoldable pub octal_number : List ℕ → Result ℕ
unfolding digits_of from_digits
octal_number stripped =
    if stripped == []
    then ok 0
    else if not (all_of is_octal stripped)
    then raise "archive stream is invalid"
    else ok (from_digits 8 0 (digits_of stripped))

-- `& 0x80` and `& 0x40` on a byte
unfoldable pub tar_number : List ℕ → Result ℕ
unfolding octal_number strip from_digits
tar_number [] = raise "archive stream is invalid"
tar_number (b ∷ field) =
    if leb 0x80 b
    then if leb 0x40 (b % 0x80)
      then raise "archive stream is invalid"
      else ok (from_digits 256 0 (b % 0x80 ∷ field))
    else octal_number (strip (b ∷ field))

-- data[first:last]
abbrev pub slice : ℕ → ℕ → List ℕ → List ℕ
slice first last bytes = take (last - first) (drop first bytes)

unfoldable pub sum_of : List ℕ → ℕ
sum_of [] = 0
sum_of (b ∷ bytes) = b + sum_of bytes

unfoldable pub high_bytes : List ℕ → ℕ
high_bytes [] = 0
high_bytes (b ∷ bytes) = if ltb b 128 then high_bytes bytes else suc (high_bytes bytes)

-- The signed sum is the unsigned one less 256 for each byte from 128 on.
unfoldable pub valid_tar_checksum : List ℕ → Result Bool
unfolding sum_of high_bytes
valid_tar_checksum header = do
  number ← tar_number (slice 148 156 header)
  let counted = take 148 header ++ drop 156 header
  let unsigned = sum_of counted + 8 * 32
  ok (number == unsigned || number + 256 * high_bytes counted == unsigned)

-- data.split(b"\0", 1)[0]
unfoldable pub until_zero : List ℕ → List ℕ
until_zero [] = []
until_zero (b ∷ bytes) = let rest = until_zero bytes in if b == 0 then [] else b ∷ rest

unfoldable pub header_name : List ℕ → List ℕ
header_name header =
    let name = until_zero (slice 0 100 header) in
    let prefix = until_zero (slice 345 500 header) in
    if prefix == [] then name else prefix ++ (slash ∷ name)

unfoldable pub raw_name : List ℕ → Option (List ℕ) → List ℕ
raw_name header none = header_name header
raw_name header (some long_name) = long_name

-- raw[:-1] for a directory whose name ends with a slash
unfoldable pub without_last_slash : ℕ → List ℕ → List ℕ
without_last_slash typeflag raw = elim (reverse raw) [
  | [] ↦ raw
  | c ∷ rest ↦ if typeflag == b'5' && c == slash then reverse rest else raw
]

unfoldable pub validate_raw_tar_name : List ℕ → ℕ → Option (List ℕ) → Result (Unit {0})
unfolding header_name raw_name without_last_slash
validate_raw_tar_name header typeflag long_name =
    let raw = without_last_slash typeflag (raw_name header long_name) in
    raise_if
      (raw == []
        || starts_with raw (slash ∷ [])
        || any_of (contains ([] ∷ (b'.' ∷ []) ∷ (b'.' ∷ b'.' ∷ []) ∷ [])) (split slash raw)
        || any_of is_control raw)
      "unsafe archive member name"
