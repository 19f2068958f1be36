-- ===== src/State/Root/Loading.antt =====
-- forza_bootstrap/state.py: `_load_unfinished_transaction_locked`.
use forza_motorsport_linux.Base.{
  Text, not, Option, none, some, List, [], ◌∷◌, ◌++◌, Result, ok, about, raise, raise_if, refuse_if,
  ◌==◌, nat_eq, list_eq, contains, is_hex_of_length, sorted_by, if◌then◌else◌,
}
use forza_motorsport_linux.Base.Actions.{Action, pure, lift, ◌>>=◌, ◌>>◌}
use forza_motorsport_linux.State.{BootstrapState, phase_eq, terminal_phases}
use forza_motorsport_linux.Files.{Directory, leaf_at, find_named, open_private_regular}
use forza_motorsport_linux.State.Root.{
  bootstrap_lock_name, journal_lock_name, staging_id, names_of, recover_prepublication_transaction,
  load_transaction_from,
}

-- What the loop over the names has collected.
pub record Found : Type 0 where
  pub states : List BootstrapState
  pub transaction_ids : List Text

abbrev pub nothing_found : Found
nothing_found = record { states = []; transaction_ids = [] }

-- What the rest of the loop's body does with a state.
unfoldable pub collect : Text → Found → BootstrapState → Action Directory Found
collect durable_name found state = do
  lift (
      raise_if (contains found.transaction_ids state.transaction_id)
        "duplicate transaction id in bootstrap state")
  lift (
      raise_if (not (state.transaction_id == durable_name))
        "transaction directory and state transaction id differ")
  pure (record found {
    states =
        if contains terminal_phases state.phase then found.states else found.states ++ (state ∷ []);
    transaction_ids = found.transaction_ids ++ (state.transaction_id ∷ []);
  })

abbrev pub lock_file : Text → Found → Action Directory Found
lock_file name found =
    (λ w. (open_private_regular (leaf_at (find_named name w)) name, w)) >> pure found

unfoldable pub collect_recovered : Text → Found → Option BootstrapState → Action Directory Found
unfolding collect
collect_recovered durable_name found none = pure found
collect_recovered durable_name found (some state) = collect durable_name found state

unfoldable pub load_by : Text → Text → Found → Option Text → Action Directory Found
unfolding collect_recovered
load_by root name found (some durable_name) =
    recover_prepublication_transaction root name durable_name
    >>= collect_recovered durable_name found
load_by root name found none = do
  lift (
      refuse_if (not (is_hex_of_length 24 name))
        (about "unsafe entry in bootstrap state root: " name))
  state ← load_transaction_from root name
  collect name found state

-- The body of the loop.
unfoldable pub load_entry : Text → Text → Found → Action Directory Found
unfolding load_by
load_entry root name found =
    if name == bootstrap_lock_name
    then lock_file name found
    else if name == journal_lock_name
    then lock_file name found
    else load_by root name found (staging_id name)

unfoldable pub load_entries : Text → List Text → Found → Action Directory Found
load_entries root [] found = pure found
load_entries root (name ∷ names) found = load_entry root name found >>= load_entries root names

unfoldable pub sole_state : List BootstrapState → Result (Option BootstrapState)
sole_state [] = ok none
sole_state (state ∷ []) = ok (some state)
sole_state (state ∷ next ∷ states) = raise "multiple unfinished bootstrap transactions"

-- _load_unfinished_transaction_locked, and load_unfinished_transaction under the lock
unfoldable pub load_unfinished_transaction : Text → Action Directory (Option BootstrapState)
load_unfinished_transaction root = do
  names ← (λ w. (ok (sorted_by (λ name. name) (names_of w)), w))
  found ← load_entries root names nothing_found
  lift (sole_state found.states)
