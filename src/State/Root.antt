-- ===== src/State/Root.antt =====
-- forza_bootstrap/state.py: the directory of the transactions. It is the world of the actions.
pub mod Loading
pub mod Names
pub mod Reading
pub mod Collecting
pub mod Sole
pub mod Creation
pub mod Written
pub mod Created
pub mod Returns
mod Tests
use forza_motorsport_linux.Base.{
  ℕ, zero, suc, String, ◌<>◌, Text, codes, Bool, true, false, not, ◌&&◌, Option, none, some, List,
  [], ◌∷◌, ◌++◌, map, Result, ok, err, Error, message, about, raise, raise_if, refuse_if, ◌==◌,
  nat_eq, list_eq, contains, take, drop, length, starts_with, is_hex_of_length, sorted_by,
  if◌then◌else◌,
}
use forza_motorsport_linux.Base.Actions.{Action, pure, fail, lift, ◌>>=◌, ◌>>◌}
use forza_motorsport_linux.Json.{Json, str}
use forza_motorsport_linux.State.{
  BootstrapState, new, phase_eq, terminal_phases, require_token, require_sha256,
}
use forza_motorsport_linux.State.Value.{state_from_value, state_value}
use forza_motorsport_linux.Files.{
  Leaf, regular, Folder, Node, file, folder, Directory, as_leaf, find_named, open_private_regular,
  open_private_child, read_private_json, private_directory_mode, private_file_mode,
}

abbrev pub bootstrap_lock_name : Text
bootstrap_lock_name = codes "bootstrap.lock"

abbrev pub journal_lock_name : Text
journal_lock_name = codes "journal.lock"

abbrev pub state_name : Text
state_name = codes "state.json"

abbrev pub staging_prefix : Text
staging_prefix = codes ".bootstrap-staging-"

abbrev pub prepublication_name : Text → Text
prepublication_name transaction_id = staging_prefix ++ transaction_id

-- The group of _PREPUBLICATION_DIRECTORY, if the name matches.
unfoldable pub staging_id : Text → Option Text
staging_id name =
    let transaction_id = drop (length staging_prefix) name in
    if starts_with name staging_prefix && is_hex_of_length 24 transaction_id
    then some transaction_id
    else none

-- \.state\.json\.[0-9a-f]{24}\.tmp\Z
unfoldable pub is_temporary : Text → Bool
is_temporary name =
    let rest = drop 12 name in
    starts_with name (codes ".state.json.")
    && (is_hex_of_length 24 (take 24 rest) && drop 24 rest == codes ".tmp")

abbrev pub names_of {ℓ} : {A : Type ℓ} → List (Text × A) → List Text
names_of entries = map (λ entry. entry.0) entries

unfoldable pub renamed : Text → Text → Directory → Directory
renamed source destination [] = []
renamed source destination ((name, node) ∷ entries) =
    let rest = renamed source destination entries in
    if name == source then (destination, node) ∷ entries else (name, node) ∷ rest

-- rename_noreplace, and what each caller says when there is such a name already
unfoldable pub rename_noreplace : Text → Text → String → Action Directory (Unit {0})
rename_noreplace source destination conflict w =
    if contains (names_of w) destination
    then (err (message conflict), w)
    else (ok tt, renamed source destination w)

unfoldable pub folder_state : Text → Folder → Result BootstrapState
folder_state root f = elim (read_private_json f state_name) [
  | err e ↦ err e
  | ok value ↦ state_from_value value (some root)
]

abbrev pub opened : Text → String → Action Directory Folder
opened name label w = (open_private_child (find_named name w) name label, w)

staged_state : Text → Text → Folder → Action Directory BootstrapState
unfolding folder_state
staged_state root transaction_id f = do
  state ← lift (folder_state root f)
  lift (
      raise_if (not (state.transaction_id == transaction_id))
        "staging directory and state transaction id differ")
  pure state

recovered : Text → Text → Text → Folder → Action Directory (Option BootstrapState)
unfolding staged_state rename_noreplace
recovered root name transaction_id f = do
  state ← staged_state root transaction_id f
  rename_noreplace name transaction_id "staging transaction conflicts with durable transaction"
  pure (some state)

from_contents : Text → Text → Text → Folder → List Text → Action Directory (Option BootstrapState)
unfolding recovered is_temporary
from_contents root name transaction_id f [] = pure none
from_contents root name transaction_id f (entry ∷ []) =
    if entry == state_name
    then recovered root name transaction_id f
    else if is_temporary entry
    then lift (open_private_regular (find_named entry f.contents) entry) >> pure none
    else fail (message "bootstrap staging directory has unsafe contents")
from_contents root name transaction_id f (entry ∷ other ∷ entries) =
    fail (message "bootstrap staging directory has unsafe contents")

unfoldable pub recover_prepublication_transaction :
    Text → Text → Text → Action Directory (Option BootstrapState)
unfolding from_contents
recover_prepublication_transaction root name transaction_id = do
  f ← opened name "bootstrap staging directory"
  from_contents root name transaction_id f (sorted_by (λ x. x) (names_of f.contents))

-- _load_transaction
unfoldable pub load_transaction_from : Text → Text → Action Directory BootstrapState
unfolding folder_state
load_transaction_from root transaction_id = do
  lift (require_token (str transaction_id) "transaction_id")
  f ← opened transaction_id "bootstrap transaction directory"
  lift (folder_state root f)
