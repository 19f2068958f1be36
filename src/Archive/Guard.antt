-- ===== src/Archive/Guard.antt =====
-- forza_bootstrap/artifacts.py: the class `_TarGuard`. What the source's `read` gives is an
-- argument, a list of numbers below 256.
pub mod Bounds
pub mod Reads
pub mod Tests
use forza_motorsport_linux.Base.{
  ℕ, zero, suc, ◌+◌, ◌-◌, ◌*◌, ◌/◌, ◌%◌, codes, Text, Bool, true, false, ◌&&◌, ◌||◌, not, Option,
  none, some, List, [], ◌∷◌, ◌++◌, reverse, Result, ok, err, raise, raise_if, ◌>>=◌, ◌>>◌, ◌==◌,
  nat_eq, list_eq, option_eq, bool_eq, contains, any_of, all_of, leb, ltb, length, take, drop,
  copies, split, starts_with, if◌then◌else◌,
}
use forza_motorsport_linux.Archive.{ArchivePolicy}
use forza_motorsport_linux.Archive.Header.{
  slice, until_zero, tar_number, valid_tar_checksum, validate_raw_tar_name,
}

abbrev pub block_size : ℕ
block_size = 512

abbrev pub max_extension_size : ℕ
max_extension_size = 64 * 1024

abbrev pub max_extension_total : ℕ
max_extension_total = 16 * 1024 * 1024

abbrev pub max_extension_depth : ℕ
max_extension_depth = 8

-- {b"x", b"g", b"X", b"L", b"K"}
abbrev pub extension_types : List ℕ
extension_types = b'x' ∷ b'g' ∷ b'X' ∷ b'L' ∷ b'K' ∷ []

-- The members of a `_TarGuard` that change; the two limits come from the policy.
pub record TarGuard : Type 0 where
  pub consumed : ℕ
  pub position : ℕ
  pub header : List ℕ
  pub data_remaining : ℕ
  pub payload_remaining : ℕ
  pub extension_kind : Option ℕ
  pub payload : List ℕ
  pub long_name : Option (List ℕ)
  pub extension_total : ℕ
  pub extension_count : ℕ
  pub extension_depth : ℕ
  pub zero_blocks : ℕ
  pub terminated : Bool

abbrev pub new_guard : TarGuard
new_guard = record {
  consumed = 0;
  position = 0;
  header = [];
  data_remaining = 0;
  payload_remaining = 0;
  extension_kind = none;
  payload = [];
  long_name = none;
  extension_total = 0;
  extension_count = 0;
  extension_depth = 0;
  zero_blocks = 0;
  terminated = false;
}

abbrev pub maximum_bytes : ArchivePolicy → ℕ
maximum_bytes policy =
    policy.max_total_size + 2 * policy.max_members * 1024 + max_extension_total + 1024

-- part in data, on bytes
unfoldable pub has_part : List ℕ → List ℕ → Bool
has_part part [] = part == []
has_part part (b ∷ bytes) = let rest = has_part part bytes in starts_with (b ∷ bytes) part || rest

abbrev cleared : TarGuard → TarGuard
cleared g = record g { extension_kind = none; payload_remaining = 0; payload = [] }

unfoldable pub finish_extension : TarGuard → Result TarGuard
unfolding has_part until_zero
finish_extension g = elim g.extension_kind [
  | none ↦ ok (cleared g)
  | some kind ↦
      if contains (b'x' ∷ b'g' ∷ b'X' ∷ []) kind
      then raise_if
          (has_part (codes "GNU.sparse.") g.payload || has_part (codes "SCHILY.realsize") g.payload)
          "sparse archive metadata is forbidden"
        >> ok (cleared g)
      else if kind == b'L'
      then ok (record (cleared g) { long_name = some (until_zero g.payload) })
      else ok (cleared g)
]

unfoldable pub finish_if_done : TarGuard → Result TarGuard
finish_if_done g = if g.data_remaining == 0 then finish_extension g else ok g

-- header[156:157] or b"0"
unfoldable pub type_flag : List ℕ → ℕ
type_flag header = elim (drop 156 header) [ [] ↦ b'0' | flag ∷ _ ↦ flag ]

unfoldable pub begin_extension : ArchivePolicy → ℕ → ℕ → ℕ → TarGuard → Result TarGuard
begin_extension policy typeflag size padded g = do
  let total = g.extension_total + size
  raise_if
      (ltb max_extension_size size
        || ltb max_extension_total total
        || ltb policy.max_members (suc g.extension_count))
      "archive metadata exceeds limit"
  raise_if (ltb max_extension_depth (suc g.extension_depth))
      "archive metadata extension depth exceeds limit"
  ok (record g {
    extension_count = suc g.extension_count;
    extension_depth = suc g.extension_depth;
    extension_total = total;
    extension_kind = some typeflag;
    payload_remaining = size;
    payload = [];
    data_remaining = padded;
  })

-- The part of `_consume_header` from the size on.
unfoldable pub begin_data : ArchivePolicy → ℕ → ℕ → TarGuard → Result TarGuard
unfolding begin_extension
begin_data policy typeflag size g =
    let padded = (size + block_size - 1) / block_size * block_size in
    let begun =
      if contains extension_types typeflag
      then begin_extension policy typeflag size padded g
      else ok (record g { extension_depth = 0; data_remaining = padded }) in
    begun >>= finish_if_done

-- The header of a member, whose name is checked and uses up the long name.
unfoldable pub name_member : List ℕ → ℕ → TarGuard → Result TarGuard
name_member header typeflag g =
    if contains extension_types typeflag
    then ok g
    else validate_raw_tar_name header typeflag g.long_name >> ok (record g { long_name = none })

unfoldable pub consume_member : ArchivePolicy → List ℕ → TarGuard → Result TarGuard
unfolding type_flag name_member
consume_member policy header g = do
  raise_if (not (g.zero_blocks == 0) || g.terminated) "archive stream is invalid"
  valid ← valid_tar_checksum header
  raise_if (not valid) "archive stream is invalid"
  let typeflag = type_flag header
  raise_if (typeflag == b'S') "sparse archive metadata is forbidden"
  named ← name_member header typeflag g
  size ← tar_number (slice 124 136 header)
  begin_data policy typeflag size named

unfoldable pub consume_header : ArchivePolicy → List ℕ → TarGuard → Result TarGuard
unfolding consume_member
consume_header policy header g =
    if header == copies block_size 0
    then ok (record g {
      zero_blocks = suc g.zero_blocks;
      terminated = leb 2 (suc g.zero_blocks) || g.terminated;
    })
    else consume_member policy header g

abbrev pub min : ℕ → ℕ → ℕ
min a b = if leb a b then a else b

-- The round of the loop that takes bytes of a member's or an extension's data.
unfoldable pub take_data : ℕ → List ℕ → TarGuard → TarGuard
take_data amount bytes g = elim g.extension_kind [
  | none ↦ record g { data_remaining = g.data_remaining - amount }
  | some kind ↦
      let kept = min g.payload_remaining amount in
      record g {
        payload = g.payload ++ take kept bytes;
        payload_remaining = g.payload_remaining - kept;
        data_remaining = g.data_remaining - amount;
      }
]

unfoldable pub fill_header : ArchivePolicy → ℕ → List ℕ → TarGuard → Result TarGuard
fill_header policy amount bytes g =
    let header = g.header ++ take amount bytes in
    if length header == block_size
    then consume_header policy header (record g { header = [] })
    else ok (record g { header = header })

-- How many bytes a round of the loop takes.
unfoldable pub amount_of : List ℕ → TarGuard → ℕ
amount_of bytes g =
    if ltb 0 g.data_remaining
    then min g.data_remaining (length bytes)
    else min (block_size - length g.header) (length bytes)

unfoldable pub consume_round : ArchivePolicy → List ℕ → TarGuard → Result TarGuard
consume_round policy bytes g =
    if ltb 0 g.data_remaining
    then finish_if_done (take_data (amount_of bytes g) bytes g)
    else fill_header policy (amount_of bytes g) bytes g

-- The loop of `_consume` on fuel, with the bytes from the offset on: `none` is a loop that has not
-- ended.
unfoldable pub consume_rounds : ℕ → ArchivePolicy → List ℕ → TarGuard → Option (Result TarGuard)
unfolding consume_round
consume_rounds fuel policy [] g = some (ok g)
consume_rounds zero policy (b ∷ bytes) g = none
consume_rounds (suc fuel) policy (b ∷ bytes) g = elim (consume_round policy (b ∷ bytes) g) [
  | err e ↦ some (err e)
  | ok next ↦ consume_rounds fuel policy (drop (amount_of (b ∷ bytes) g) (b ∷ bytes)) next
]

unfoldable pub consume : ArchivePolicy → List ℕ → TarGuard → Option (Result TarGuard)
consume policy bytes g =
    let consumed = g.consumed + length bytes in
    if ltb (maximum_bytes policy) consumed
    then some (raise "archive exceeds decompressed size limit")
    else consume_rounds (length bytes) policy bytes (record g { consumed = consumed })

-- `read`, where the source gave `data`
unfoldable pub read : ArchivePolicy → List ℕ → TarGuard → Option (Result TarGuard)
read policy bytes g = elim (consume policy bytes g) [
  | none ↦ none
  | some (err e) ↦ some (err e)
  | some (ok next) ↦ some (ok (record next { position = next.position + length bytes }))
]

-- One read after the other, up to the first error.
unfoldable pub reads : ArchivePolicy → List (List ℕ) → TarGuard → Option (Result TarGuard)
reads policy [] g = some (ok g)
reads policy (bytes ∷ rest) g = elim (read policy bytes g) [
  | none ↦ none
  | some (err e) ↦ some (err e)
  | some (ok next) ↦ reads policy rest next
]

-- The test at the end of `finish`.
unfoldable pub is_complete : TarGuard → Bool
is_complete g =
    g.header == []
    && g.data_remaining == 0
    && g.extension_kind == none
    && g.terminated
    && leb 2 g.zero_blocks

-- `finish`, where the source gives `chunks` and then nothing
unfoldable pub finish : ArchivePolicy → List (List ℕ) → TarGuard → Option (Result TarGuard)
unfolding is_complete
finish policy chunks g = elim (reads policy chunks g) [
  | none ↦ none
  | some (err e) ↦ some (err e)
  | some (ok last) ↦ some (raise_if (not (is_complete last)) "archive stream is invalid" >> ok last)
]
