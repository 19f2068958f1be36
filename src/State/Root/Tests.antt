-- ===== src/State/Root/Tests.antt =====
-- Runs of the code on a state root, and its theorems at concrete data.
use forza_motorsport_linux.Base.{
  ◌≡◌, refl, Text, codes, true, none, some, [], ◌∷◌, ok, err, message, equality, is_hex_of_length,
  sorted_by, text_leb,
}
use forza_motorsport_linux.Base.Actions.{Leaves}
use forza_motorsport_linux.State.{
  BootstrapState, accepted, phase_eq, terminal_phases, require_sha256,
}
use forza_motorsport_linux.State.Value.{state_parsing}
use forza_motorsport_linux.State.Tests.{sample, sample_id, sample_digest}
use forza_motorsport_linux.Files.{
  Leaf, regular, file, folder, Directory, private_directory_mode, private_file_mode, find_named,
  open_private_regular, open_private_child, read_private_json,
}
use forza_motorsport_linux.State.Root.{
  bootstrap_lock_name, prepublication_name, state_name, staging_id, renamed, rename_noreplace,
  recover_prepublication_transaction, load_transaction_from,
}
use forza_motorsport_linux.State.Root.Loading.{
  load_entry, load_entries, sole_state, load_unfinished_transaction,
}
use forza_motorsport_linux.State.Root.Reading.{Any}
use forza_motorsport_linux.State.Root.Sole.{IsSole, load_unfinished_transaction-IsSole}
use forza_motorsport_linux.State.Root.Created.{Created, create_transaction-Created}
use forza_motorsport_linux.State.Root.Creation.{
  create_transaction, publish_new, reserve, write_state, new_state, state_leaf,
}

abbrev root : Text
root = codes "/state"

abbrev other_id : Text
other_id = codes "ffffffffffffffffffffffff"

abbrev lock_leaf : Leaf
lock_leaf = record { kind = regular; owned = true; mode = private_file_mode; content = none }

abbrev finished : BootstrapState
finished = record sample { phase = accepted }

abbrev quiet : Directory
quiet =
    (bootstrap_lock_name, file lock_leaf)
    ∷ (
      sample_id,
      folder (record {
        owned = true;
        mode = private_directory_mode;
        contents = (state_name, state_leaf finished) ∷ [];
      }),
    )
    ∷ []

-- A crash has left the state in its staging directory.
abbrev staged_root : Directory
staged_root =
    (
      prepublication_name other_id,
      folder (record {
        owned = true;
        mode = private_directory_mode;
        contents = (state_name, state_leaf (new_state root sample_digest other_id)) ∷ [];
      }),
    )
    ∷ quiet

-- A test by `refl` names this on its `unfolding` line, so that the code on the state root computes.
unfoldable root_code : Unit {0}
unfolding equality state_parsing load_unfinished_transaction load_entries load_entry sorted_by
    text_leb staging_id recover_prepublication_transaction open_private_child find_named
    read_private_json open_private_regular load_transaction_from renamed rename_noreplace sole_state
    terminal_phases phase_eq create_transaction reserve publish_new write_state require_sha256
root_code = tt

load_unfinished_transaction-IsSole_example :
    Leaves (IsSole root) Any (load_unfinished_transaction root staged_root)
load_unfinished_transaction-IsSole_example = load_unfinished_transaction-IsSole root staged_root

recovered_state :
    (load_unfinished_transaction root staged_root).0
    ≡ ok (some (new_state root sample_digest other_id))
unfolding root_code
recovered_state = refl

created_state :
    (create_transaction root sample_digest (λ n. other_id) quiet).0
    ≡ ok (new_state root sample_digest other_id)
unfolding root_code
created_state = refl

second_refused :
    (create_transaction root sample_digest (λ n. other_id) staged_root).0
    ≡ err (message "unfinished bootstrap transaction already exists")
unfolding root_code
second_refused = refl

create_transaction-Created_example :
    Leaves
      (Created root sample_digest)
      Any
      (create_transaction root sample_digest (λ n. other_id) quiet)
unfolding equality is_hex_of_length
create_transaction-Created_example =
    create_transaction-Created root sample_digest (λ n. other_id) quiet (λ n. refl)
