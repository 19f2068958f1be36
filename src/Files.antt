-- ===== src/Files.antt =====
-- forza_bootstrap/safeio.py: private files and directories, as the checks see them. A directory lists
-- names that `_leaf_name` lets pass.
use forza_motorsport_linux.Base.{
  ℕ, String, ◌<>◌, Text, Bool, not, Option, none, some, List, [], ◌∷◌, Result, ok, err, raise_if,
  refuse_if, about, file_not_found, ◌>>=◌, ◌>>◌, ◌==◌, nat_eq, list_eq, if◌then◌else◌,
}
use forza_motorsport_linux.Json.{Json}

pub data LeafKind : Type 0 where
  regular symlink subdirectory special : LeafKind

-- `content` is what `json.loads` makes of the bytes, with the hooks of `read_private_json`, or none
-- if it raises.
pub record Leaf : Type 0 where
  pub kind : LeafKind
  pub owned : Bool
  pub mode : ℕ
  pub content : Option Json

pub record Folder : Type 0 where
  pub owned : Bool
  pub mode : ℕ
  pub contents : List (Text × Leaf)

pub data Node : Type 0 where
  file : Leaf → Node
  folder : Folder → Node

-- The entries of a directory, each name once.
abbrev pub Directory : Type 0
Directory = List (Text × Node)

-- 0o700 and 0o600
abbrev pub private_directory_mode : ℕ
private_directory_mode = 448

abbrev pub private_file_mode : ℕ
private_file_mode = 384

module _ {ℓ} {A : Type ℓ} where
  unfoldable pub find_named : Text → List (Text × A) → Option A
  find_named name [] = none
  find_named name ((other, a) ∷ entries) = if other == name then some a else find_named name entries

-- What opening a name as a file finds.
abbrev pub as_leaf : Node → Leaf
as_leaf (file leaf) = leaf
as_leaf (folder f) = record { kind = subdirectory; owned = f.owned; mode = f.mode; content = none }

abbrev pub leaf_at : Option Node → Option Leaf
leaf_at none = none
leaf_at (some node) = some (as_leaf node)

validate_private_directory : Folder → String → Result (Unit {0})
validate_private_directory f label = do
  raise_if (not f.owned) (label <> " has unsafe ownership")
  raise_if (not (f.mode == private_directory_mode)) (label <> " has unsafe mode")

validate_private_regular : Leaf → Text → Result (Unit {0})
validate_private_regular leaf name = do
  refuse_if (not leaf.owned) (about "private file has unsafe ownership: " name)
  refuse_if (not (leaf.mode == private_file_mode)) (about "private file has unsafe mode: " name)

open_as : LeafKind → Leaf → Text → Result Leaf
unfolding validate_private_regular
open_as symlink leaf name = err (about "symlink refused for private file: " name)
open_as regular leaf name = do validate_private_regular leaf name; ok leaf
open_as kind leaf name = err (about "private file is not regular: " name)

unfoldable pub open_private_regular : Option Leaf → Text → Result Leaf
unfolding open_as
open_private_regular none name = err (file_not_found name)
open_private_regular (some leaf) name = open_as leaf.kind leaf name

-- _open_private_child (forza_bootstrap/state.py)
unfoldable pub open_private_child : Option Node → Text → String → Result Folder
unfolding validate_private_directory
open_private_child none name label = err (file_not_found name)
open_private_child (some (file leaf)) name label =
    err (about ("symlink refused for " <> label <> ": ") name)
open_private_child (some (folder f)) name label = do validate_private_directory f label; ok f

decoded : Option Json → Text → Result Json
decoded none name = err (about "private JSON is invalid: " name)
decoded (some value) name = ok value

unfoldable pub read_private_json : Folder → Text → Result Json
unfolding validate_private_directory decoded
read_private_json f name = do
  validate_private_directory f "private JSON parent"
  leaf ← open_private_regular (find_named name f.contents) name
  decoded leaf.content name
