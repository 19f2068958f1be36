-- ===== src/Model.antt =====
-- forza_bootstrap/model.py: the records that describe artifacts, downloads and the manifest.
use forza_motorsport_linux.Base.{ℕ, Text, Bool}

pub record ArtifactSpec : Type 0 where
  pub logical_name : Text
  pub relative_path : Text
  pub size : ℕ
  pub sha256 : Text
  pub mode : ℕ
  pub private : Bool
