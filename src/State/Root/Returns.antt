-- ===== src/State/Root/Returns.antt =====
-- That `create_transaction` returns (forza_bootstrap/state.py).
use forza_motorsport_linux.Base.{
  ℕ, ◌≡◌, Text, true, false, nat_eq, list_eq, contains, is_hex_of_length,
}
use forza_motorsport_linux.Files.{Directory}
use forza_motorsport_linux.State.Root.{prepublication_name, names_of}
use forza_motorsport_linux.State.Root.Creation.{new_state, with_folder, write_state}

module _ (root manifest_sha256 : Text) (token : ℕ → Text) (w x : Directory)
    (hex : is_hex_of_length 24 (token 0) ≡ true)
    (reserved : contains (names_of x) (prepublication_name (token 0)) ≡ false)
    (free : contains (names_of x) (token 0) ≡ false) where
  abbrev staging : Text
  staging = prepublication_name (token 0)

  abbrev written : Directory
  written = write_state staging (new_state root manifest_sha256 (token 0)) (with_folder staging x)
