-- ===== src/Archive.antt =====
-- forza_bootstrap/artifacts.py: archive members, the archive policy, and the names and kinds of
-- members. `TarInfo` stands for the object of Python's `tarfile`, with its predicates as one type.
pub mod Header
pub mod Guard
pub mod Graph
pub mod Scan
pub mod Tests
use forza_motorsport_linux.Base.{
  ℕ, Text, Bool, true, false, ◌&&◌, ◌||◌, not, Option, none, some, List, [], ◌∷◌, Result, ok, err,
  raise, raise_if, message, refuse_if, ◌>>=◌, ◌>>◌, Eq, ◌==◌, nat_eq, list_eq, option_eq, contains,
  any_of, ltb, leb, starts_with, ◌++◌, if◌then◌else◌,
}
use forza_motorsport_linux.Paths.{slash, dot_text, dot_dot, normpath, encoded_size, is_control}

-- Literal["directory", "regular", "symlink", "hardlink"]
pub data MemberKind : Type 0 where
  directory regular symlink hardlink : MemberKind

kind_dec : Discrete MemberKind
kind_dec = hlevel

instance unfoldable pub kind_eq : Eq MemberKind
unfolding kind_dec
kind_eq = record { dec = kind_dec }

pub record ArchiveMember : Type 0 where
  pub path : Text
  pub kind : MemberKind
  pub size : ℕ
  pub mode : ℕ
  pub link_target : Option Text

pub record ArchiveGraph : Type 0 where
  pub root : Text
  pub members : List ArchiveMember
  pub total_regular_size : ℕ

pub record ArchivePolicy : Type 0 where
  pub expected_root : Text
  pub max_members : ℕ
  pub max_total_size : ℕ
  pub allow_contained_links : Bool

-- isdir(), isreg(), issym(), islnk(), or none of them
pub data TarType : Type 0 where
  is_dir is_reg is_sym is_lnk is_other : TarType

pub record TarInfo : Type 0 where
  pub name : Text
  pub type : TarType
  pub size : ℕ
  pub mode : ℕ
  pub linkname : Text

abbrev pub max_tar_path_bytes : ℕ
max_tar_path_bytes = 4096

-- os.fsencode(text) succeeds
abbrev pub is_encodable : Text → Bool
is_encodable text = not (encoded_size text == none)

-- os.fsencode(text) succeeds with at most _MAX_TAR_PATH_BYTES bytes
within : Option ℕ → Bool
within none = false
within (some size) = leb size max_tar_path_bytes

unfoldable pub is_short : Text → Bool
unfolding within
is_short text = within (encoded_size text)

unfoldable pub is_safe_root : Text → Bool
is_safe_root value =
    not (value == [])
    && not (value == dot_text)
    && not (value == dot_dot)
    && not (contains value slash)
    && not (contains value 0)
    && not (any_of is_control value)
    && is_encodable value

unfoldable pub safe_root : Text → Result Text
safe_root value = do
  refuse_if (not (is_safe_root value)) (message "archive expected root is invalid")
  ok value

unfoldable pub validated_policy : ArchivePolicy → Result ArchivePolicy
validated_policy policy = do
  _ ← safe_root policy.expected_root
  raise_if (policy.max_members == 0) "archive member limit is invalid"
  ok policy

-- The name, and the set `seen` after the call.
unfoldable pub normalized_member_name : Text → List Text → Result (Text × List Text)
normalized_member_name raw seen = do
  raise_if (raw == []) "unsafe archive member name"
  raise_if (contains seen (normpath raw)) "duplicate archive member"
  raise_if
      (not (raw == normpath raw)
        || starts_with raw (slash ∷ [])
        || contains ([] ∷ dot_text ∷ dot_dot ∷ []) (normpath raw)
        || starts_with (normpath raw) (b'.' ∷ b'.' ∷ slash ∷ [])
        || contains raw 0
        || any_of is_control raw)
      "unsafe archive member name"
  raise_if (not (is_short raw)) "unsafe archive member name"
  ok (normpath raw, normpath raw ∷ seen)

unfoldable pub link_kind : Bool → MemberKind → Result MemberKind
link_kind true kind = ok kind
link_kind false kind = raise "bundle archive accepts regular files and directories only"

unfoldable pub member_kind : TarType → Bool → Result MemberKind
unfolding link_kind
member_kind is_dir allowed = ok directory
member_kind is_reg allowed = ok regular
member_kind is_sym allowed = link_kind allowed symlink
member_kind is_lnk allowed = link_kind allowed hardlink
member_kind is_other false = raise "bundle archive accepts regular files and directories only"
member_kind is_other true = raise "unsupported archive member type"

-- path == root or path.startswith(root + "/")
unfoldable pub is_inside : Text → Text → Bool
is_inside root path = path == root || starts_with path (root ++ (slash ∷ []))

-- _safe_relative_path
unfoldable pub safe_relative_path : Text → Result Text
safe_relative_path value = do
  raise_if (value == []) "path is invalid"
  raise_if
      (not (value == normpath value)
        || starts_with value (slash ∷ [])
        || contains (dot_text ∷ dot_dot ∷ []) (normpath value)
        || starts_with (normpath value) (b'.' ∷ b'.' ∷ slash ∷ [])
        || contains value 0
        || any_of is_control value)
      "path is invalid"
  raise_if (not (is_encodable value)) "path is invalid"
  ok value
