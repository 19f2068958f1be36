-- ===== src/State/Root/Creation.antt =====
-- forza_bootstrap/state.py: `create_transaction`. `secrets.token_hex` is a parameter, the tokens that it
-- gives one after the other.
use forza_motorsport_linux.Base.{
  ℕ, zero, suc, Text, Bool, true, false, Option, none, some, [], ◌∷◌, ◌++◌, ok, raise, raise_if,
  ◌==◌, nat_eq, list_eq, contains, if◌then◌else◌,
}
use forza_motorsport_linux.Base.Actions.{Action, pure, lift, ◌>>=◌, ◌>>◌}
use forza_motorsport_linux.Json.{str}
use forza_motorsport_linux.State.{BootstrapState, new, require_sha256}
use forza_motorsport_linux.State.Value.{state_value}
use forza_motorsport_linux.Files.{
  Leaf, regular, Node, file, folder, Directory, private_directory_mode, private_file_mode,
}
use forza_motorsport_linux.State.Root.{
  state_name, names_of, prepublication_name, rename_noreplace, opened,
}
use forza_motorsport_linux.State.Root.Loading.{load_unfinished_transaction}

abbrev pub new_state : Text → Text → Text → BootstrapState
new_state root manifest_sha256 transaction_id = record {
  version = 1;
  transaction_id = transaction_id;
  manifest_sha256 = manifest_sha256;
  phase = new;
  completed_boundaries = [];
  child_runtime_transaction = none;
  patch_backup_manifest = none;
  compatibility_tool_disposition = none;
  finish_plan_sha256 = none;
  state_root = some root;
}

-- os.mkdir with 0o700, where there is no such name
abbrev pub with_folder : Text → Directory → Directory
with_folder name w =
    w
    ++ ((name, folder (record { owned = true; mode = private_directory_mode; contents = [] })) ∷ [])

abbrev pub state_leaf : BootstrapState → Leaf
state_leaf state = record {
  kind = regular;
  owned = true;
  mode = private_file_mode;
  content = some (state_value state);
}

-- What `atomic_write_private_json` leaves of a directory that is empty.
unfoldable pub with_state : BootstrapState → Node → Node
with_state state (file leaf) = file leaf
with_state state (folder f) = folder (record f { contents = (state_name, state_leaf state) ∷ [] })

unfoldable pub write_state : Text → BootstrapState → Directory → Directory
unfolding with_state
write_state name state [] = []
write_state name state ((other, node) ∷ entries) =
    let rest = write_state name state entries in
    if other == name then (other, with_state state node) ∷ entries else (other, node) ∷ rest

-- The reserved name, from the opening of its directory to the return.
unfoldable pub publish_new : Text → Text → Text → Action Directory BootstrapState
publish_new root manifest_sha256 transaction_id = do
  f ← opened (prepublication_name transaction_id) "bootstrap staging directory"
  (λ w. (
    ok tt,
    write_state (prepublication_name transaction_id) (new_state root manifest_sha256 transaction_id)
        w,
  ))
  rename_noreplace (prepublication_name transaction_id) transaction_id
      "bootstrap transaction id collision"
  pure (new_state root manifest_sha256 transaction_id)

-- The loop over the tokens, `left` of which may be tried.
unfoldable pub reserve : Text → Text → ℕ → (ℕ → Text) → Action Directory BootstrapState
reserve root manifest_sha256 zero token w = (raise "cannot reserve bootstrap transaction id", w)
reserve root manifest_sha256 (suc left) token w =
    let rest = reserve root manifest_sha256 left (λ n. token (suc n)) w in
    if contains (names_of w) (prepublication_name (token 0))
    then rest
    else publish_new root manifest_sha256 (token 0) (with_folder (prepublication_name (token 0)) w)

unfoldable pub is_some : Option BootstrapState → Bool
is_some none = false
is_some (some state) = true

unfoldable pub create_transaction : Text → Text → (ℕ → Text) → Action Directory BootstrapState
unfolding is_some
create_transaction root manifest_sha256 token = do
  digest ← lift (require_sha256 (str manifest_sha256) "manifest_sha256")
  unfinished ← load_unfinished_transaction root
  lift (raise_if (is_some unfinished) "unfinished bootstrap transaction already exists")
  reserve root digest 100 token
