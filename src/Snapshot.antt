-- ===== src/Snapshot.antt =====
-- forza_bootstrap/snapshot.py: records of managed files, their validation, and the scope of a
-- snapshot. The fields have the types of the source's annotations, so its `isinstance` checks are
-- the types; a mode and a size are not negative.
pub mod Compare
pub mod Scope
pub mod Tests
use forza_motorsport_linux.Base.{
  ℕ, String, Text, codes, Bool, true, false, ◌&&◌, ◌||◌, not, Option, none, some, List, [], ◌∷◌,
  ◌++◌, map, Result, ok, err, message, about, raise, raise_if, refuse_if, ◌>>=◌, ◌>>◌, Error,
  key_error, Eq, ◌==◌, nat_eq, list_eq, option_eq, bool_eq, contains, any_of, all_of, leb, is_digit,
  is_hex_of_length, starts_with, split, sorted_by, if◌then◌else◌,
}
use forza_motorsport_linux.Model.{ArtifactSpec}

-- Literal["absent", "regular"]
pub data FileState : Type 0 where
  absent regular : FileState

pub record FileRecord : Type 0 where
  pub logical_path : Text
  pub state : FileState
  pub mode : Option ℕ
  pub size : Option ℕ
  pub sha256 : Option Text
  pub private : Bool

-- Literal["expected", "unchanged"]
pub data Policy : Type 0 where
  expected unchanged : Policy

pub record ChangeRule : Type 0 where
  pub logical_path : Text
  pub policy : Policy
  pub after_sha256 : Option Text
  pub after_mode : Option ℕ

pub record Snapshot : Type 0 where
  pub version : ℕ
  pub transaction_id : Text
  pub manifest_sha256 : Text
  pub steam_root_id : Text
  pub records : List FileRecord

pub record ComparedRecord : Type 0 where
  pub logical_path : Text
  pub before : FileRecord
  pub after : FileRecord
  pub policy : Policy

pub record Comparison : Type 0 where
  pub expected_changes : List ComparedRecord
  pub required_unchanged : List ComparedRecord
  pub unexpected_changes : List ComparedRecord

pub record SnapshotTarget : Type 0 where
  pub logical_path : Text
  pub root_name : Text
  pub relative_path : Text
  pub private : Bool

pub record SnapshotScope : Type 0 where
  pub version : ℕ
  pub transaction_id : Text
  pub manifest_sha256 : Text
  pub targets : List SnapshotTarget

unfoldable pub state_dec : Discrete FileState
state_dec = hlevel

instance unfoldable pub file_state_eq : Eq FileState
unfolding state_dec
file_state_eq = record { dec = state_dec }

-- The equality of the dataclass.
unfoldable pub same_record : FileRecord → FileRecord → Bool
same_record a b =
    a.logical_path == b.logical_path
    && a.state == b.state
    && a.mode == b.mode
    && a.size == b.size
    && a.sha256 == b.sha256
    && a.private == b.private

-- Comparison.ok
unfoldable pub is_ok : Comparison → Bool
is_ok c = elim c.unexpected_changes [ [] ↦ true | _ ↦ false ]

abbrev pub snapshot_version : ℕ
snapshot_version = 1

abbrev pub private_capture_error : String
private_capture_error = "private snapshot capture failed"

abbrev pub private_comparison_error : String
private_comparison_error = "private snapshot comparison failed"

abbrev pub private_output_error : String
private_output_error = "private snapshot requires explicit owner-only output"

unfoldable pub unsafe_character : ℕ → Bool
unsafe_character c = leb c 0x1F || (leb 0x7F c && leb c 0x9F) || (leb 0xD800 c && leb c 0xDFFF)

-- part in {"", ".", ".."}
abbrev pub is_dots_or_empty : Text → Bool
is_dots_or_empty part = contains ([] ∷ (b'.' ∷ []) ∷ (b'.' ∷ b'.' ∷ []) ∷ []) part

-- `os.fsencode` accepts every text without surrogates, which `unsafe_character` has excluded.
unfoldable pub is_logical_path : Text → Bool
unfolding unsafe_character
is_logical_path value =
    not (value == [])
    && not (any_of unsafe_character value)
    && not (starts_with value (b'/' ∷ []))
    && not (any_of is_dots_or_empty (split b'/' value))

unfoldable pub require_logical_path : Text → String → Result Text
require_logical_path value label = do
  refuse_if (not (is_logical_path value)) (message label)
  ok value

unfoldable pub require_sha256 : Text → String → Result Text
require_sha256 value label = do
  refuse_if (not (is_hex_of_length 64 value)) (message label)
  ok value

-- (?:0|[1-9][0-9]*)
unfoldable pub is_decimal : Text → Bool
is_decimal [] = false
is_decimal (c ∷ []) = is_digit c
is_decimal (c ∷ text) = leb b'1' c && leb c b'9' && all_of is_digit text

-- _ROOT_ID.fullmatch(value)
unfoldable pub is_root_id : Text → Bool
unfolding is_decimal
is_root_id value = elim (split b':' value) [
  | [] ↦ false
  | device ∷ rest ↦ elim rest [
    | [] ↦ false
    | inode ∷ more ↦ is_decimal device && is_decimal inode && more == []
  ]
]

unfoldable pub validate_identity : Snapshot → Result (Unit {0})
validate_identity s = do
  raise_if (not (s.version == snapshot_version)) "snapshot version is invalid"
  raise_if (not (is_hex_of_length 24 s.transaction_id)) "snapshot transaction_id is invalid"
  _ ← require_sha256 s.manifest_sha256 "snapshot manifest_sha256 must be a lowercase SHA-256"
  raise_if (not (is_root_id s.steam_root_id)) "snapshot steam_root_id is invalid"

-- not 0 <= mode <= 0o7777
unfoldable pub is_mode : Option ℕ → Bool
is_mode none = false
is_mode (some mode) = leb mode 0o7777

-- `_sha256(item.sha256, …)`, where None is no string
unfoldable pub require_digest : Option Text → Result (Unit {0})
require_digest none = raise "snapshot record sha256 must be a lowercase SHA-256"
require_digest (some digest) =
    require_sha256 digest "snapshot record sha256 must be a lowercase SHA-256" >>= λ _. ok tt

unfoldable pub validate_metadata : FileState → FileRecord → Result (Unit {0})
unfolding is_mode require_digest
validate_metadata absent item =
    raise_if (not (item.mode == none && item.size == none && item.sha256 == none))
      "absent snapshot record has file metadata"
validate_metadata regular item = do
  raise_if (not (is_mode item.mode)) "snapshot record mode is invalid"
  raise_if (item.size == none) "snapshot record size is invalid"
  require_digest item.sha256

unfoldable pub validate_record : FileRecord → Result (Unit {0})
validate_record item = do
  _ ← require_logical_path item.logical_path "snapshot logical path is invalid"
  validate_metadata item.state item

-- The entry of a dict that maps the logical path of each record to the record.
unfoldable pub find_record : Text → List FileRecord → Option FileRecord
find_record path [] = none
find_record path (item ∷ items) =
    if item.logical_path == path then some item else find_record path items

abbrev pub path_of : FileRecord → Text
path_of item = item.logical_path

unfoldable pub duplicate_path : FileRecord → Option FileRecord → Result (Unit {0})
duplicate_path item none = ok tt
duplicate_path item (some earlier) =
    if item.private || earlier.private
    then raise private_capture_error
    else err (about "duplicate snapshot logical path: " item.logical_path)

-- The loop of `_indexed_records`; the dict is the list of its records.
unfoldable pub index_records : List FileRecord → List FileRecord → Result (List FileRecord)
unfolding duplicate_path
index_records indexed [] = ok indexed
index_records indexed (item ∷ items) = do
  validate_record item
  duplicate_path item (find_record item.logical_path indexed)
  index_records (indexed ++ (item ∷ [])) items

unfoldable pub indexed_records : Snapshot → Result (List FileRecord)
indexed_records s = do validate_identity s; index_records [] s.records
