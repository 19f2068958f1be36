-- ===== src/Snapshot/Scope.antt =====
-- forza_bootstrap/snapshot.py: `build_snapshot_scope`. The mapping from root names to artifacts is
-- the list of its items.
pub mod Targets
pub mod Tests
use forza_motorsport_linux.Base.{
  ℕ, Text, codes, Bool, true, false, ◌&&◌, ◌||◌, not, List, [], ◌∷◌, ◌++◌, Result, ok, err, message,
  about, raise, raise_if, ◌>>=◌, ◌>>◌, ◌==◌, nat_eq, list_eq, contains, any_of, all_of, leb,
  is_digit, is_hex_of_length, sorted_by, if◌then◌else◌,
}
use forza_motorsport_linux.Model.{ArtifactSpec}
use forza_motorsport_linux.Snapshot.{
  SnapshotTarget, SnapshotScope, snapshot_version, private_capture_error, require_logical_path,
  require_sha256,
}

abbrev is_lower : ℕ → Bool
is_lower c = leb b'a' c && leb c b'z'

-- _ROOT_NAME.fullmatch(value)
unfoldable pub is_root_name : Text → Bool
is_root_name [] = false
is_root_name (c ∷ text) =
    is_lower c && all_of (λ d. is_lower d || is_digit d || d == b'_' || d == b'-') text

-- The two local variables of the loops.
pub record Scoping : Type 0 where
  pub targets : List SnapshotTarget
  pub seen : List Text

unfoldable pub duplicate_target : ArtifactSpec → List SnapshotTarget → Result (Unit {0})
duplicate_target artifact targets =
    if artifact.private
      || any_of (λ target. target.logical_path == artifact.logical_name && target.private) targets
    then raise private_capture_error
    else err (about "duplicate snapshot logical path: " artifact.logical_name)

-- The body of the inner loop.
unfoldable pub add_target : Text → ArtifactSpec → Scoping → Result Scoping
add_target root_name artifact s = do
  logical_path ← require_logical_path artifact.logical_name "snapshot logical path is invalid"
  relative_path ← require_logical_path artifact.relative_path "snapshot relative path is invalid"
  if contains s.seen logical_path then duplicate_target artifact s.targets else ok tt
  ok (record {
    targets =
        s.targets
        ++ (record {
          logical_path = logical_path;
          root_name = root_name;
          relative_path = relative_path;
          private = artifact.private;
        }
            ∷ []);
    seen = logical_path ∷ s.seen;
  })

unfoldable pub add_artifacts : Text → List ArtifactSpec → Scoping → Result Scoping
add_artifacts root_name [] s = ok s
add_artifacts root_name (artifact ∷ artifacts) s =
    add_target root_name artifact s >>= add_artifacts root_name artifacts

unfoldable pub add_root : Text × List ArtifactSpec → Scoping → Result Scoping
add_root (root_name, artifacts) s = do
  raise_if (not (is_root_name root_name)) "snapshot root name is invalid"
  add_artifacts root_name artifacts s

unfoldable pub add_roots : List (Text × List ArtifactSpec) → Scoping → Result Scoping
add_roots [] s = ok s
add_roots (root ∷ roots) s = add_root root s >>= add_roots roots

abbrev pub no_targets : Scoping
no_targets = record { targets = []; seen = [] }

unfoldable pub build_snapshot_scope :
    Text → Text → List (Text × List ArtifactSpec) → Result SnapshotScope
build_snapshot_scope transaction_id manifest_sha256 artifacts_by_root = do
  raise_if (not (is_hex_of_length 24 transaction_id)) "snapshot transaction_id is invalid"
  _ ← require_sha256 manifest_sha256 "snapshot manifest_sha256 must be a lowercase SHA-256"
  s ← add_roots artifacts_by_root no_targets
  ok (record {
    version = snapshot_version;
    transaction_id = transaction_id;
    manifest_sha256 = manifest_sha256;
    targets = sorted_by (λ target. target.logical_path) s.targets;
  })
