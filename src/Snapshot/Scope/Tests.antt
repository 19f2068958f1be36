-- ===== src/Snapshot/Scope/Tests.antt =====
-- Runs of `build_snapshot_scope`, and its theorem at concrete artifacts.
use forza_motorsport_linux.Base.{
  ◌≡◌, refl, Text, codes, true, false, List, [], ◌∷◌, copies, ok, err, message, about,
}
use forza_motorsport_linux.Model.{ArtifactSpec}
use forza_motorsport_linux.Snapshot.{SnapshotScope}
use forza_motorsport_linux.Snapshot.Tests.{comparing}
use forza_motorsport_linux.Snapshot.Scope.{
  is_root_name, duplicate_target, add_target, add_artifacts, add_root, add_roots,
  build_snapshot_scope,
}
use forza_motorsport_linux.Snapshot.Scope.Targets.{IsScope, build_snapshot_scope-IsTarget}

-- A test by `refl` names this on its `unfolding` line, so that the scope computes.
scoping : Unit {0}
unfolding comparing is_root_name duplicate_target add_target add_artifacts add_root add_roots
    build_snapshot_scope
scoping = tt

abbrev some_id : Text
some_id = copies 24 b'0'

abbrev some_digest : Text
some_digest = copies 64 b'a'

abbrev game : ArtifactSpec
game = record {
  logical_name = codes "steam/game";
  relative_path = codes "game.exe";
  size = 7;
  sha256 = some_digest;
  mode = 493;
  private = false;
}

abbrev save : ArtifactSpec
save = record game {
  logical_name = codes "prefix/save";
  relative_path = codes "save";
  private = true;
}

abbrev roots : List (Text × List ArtifactSpec)
roots = (codes "steam", game ∷ []) ∷ (codes "prefix", save ∷ []) ∷ []

abbrev scope : SnapshotScope
scope = record {
  version = 1;
  transaction_id = some_id;
  manifest_sha256 = some_digest;
  targets =
      record {
        logical_path = codes "prefix/save";
        root_name = codes "prefix";
        relative_path = codes "save";
        private = true;
      }
      ∷ record {
        logical_path = codes "steam/game";
        root_name = codes "steam";
        relative_path = codes "game.exe";
        private = false;
      }
      ∷ [];
}

scope_built : build_snapshot_scope some_id some_digest roots ≡ ok scope
unfolding scoping
scope_built = refl

repeated_artifact :
    build_snapshot_scope some_id some_digest ((codes "steam", game ∷ game ∷ []) ∷ [])
    ≡ err (about "duplicate snapshot logical path: " (codes "steam/game"))
unfolding scoping
repeated_artifact = refl

-- The error does not say which path a private artifact repeats.
repeated_private :
    build_snapshot_scope some_id some_digest ((codes "prefix", save ∷ save ∷ []) ∷ [])
    ≡ err (message "private snapshot capture failed")
unfolding scoping
repeated_private = refl

build_snapshot_scope-IsTarget_example : IsScope roots scope.targets
build_snapshot_scope-IsTarget_example =
    build_snapshot_scope-IsTarget some_id some_digest roots scope scope_built
