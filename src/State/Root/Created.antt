-- ===== src/State/Root/Created.antt =====
-- What `create_transaction` leaves (forza_bootstrap/state.py).
use forza_motorsport_linux.Base.{
  ℕ, zero, suc, ◌≡◌, ◌≢◌, refl, sym, ap, ◌∙◌, subst, Text, true, false, ◌⊎◌, inl, inr, Option, none,
  some, [], ◌∷◌, ok, raise_if, nat_eq, list_eq, equality, contains, Bool-cases, is_hex_of_length,
  All, All-map, arith,
}
use forza_motorsport_linux.Base.Actions.{
  Leaves, Leaves-ok, Leaves-err, Leaves-bind, lift, ◌>>=◌, ◌>>◌,
}
use forza_motorsport_linux.Json.{str}
use forza_motorsport_linux.State.{BootstrapState, require_sha256}
use forza_motorsport_linux.State.Value.RoundTrip.{state_from_value-state_value}
use forza_motorsport_linux.Files.{
  folder, Folder, Directory, find_named, read_private_json, open_private_regular,
}
use forza_motorsport_linux.State.Root.{
  prepublication_name, names_of, renamed, folder_state, state_name,
}
use forza_motorsport_linux.State.Root.Names.{
  find_named-contains, find_named-renamed, find_named-destination, All-renamed,
}
use forza_motorsport_linux.State.Root.Reading.{
  Any, Reads, opened-folder, rename_noreplace-renamed, lift-ok,
}
use forza_motorsport_linux.State.Root.Sole.{IsSole, Held, load_unfinished_transaction-IsSole}
use forza_motorsport_linux.State.Root.Loading.{load_unfinished_transaction}
use forza_motorsport_linux.State.Root.Creation.{
  new_state, with_folder, with_state, write_state, state_leaf, publish_new, reserve, is_some,
  create_transaction,
}
use forza_motorsport_linux.State.Root.Written.{
  find_named-with_folder, found-with_folder, find_named-write_state, found-write_state,
  names-write_state, All-with_folder, not_hex, sha256-hex, sha256-same, new_state-IsValid,
  empty_folder,
}

-- The new state is the only one that is not finished.
abbrev pub Created : Text → Text → BootstrapState → Directory → Type 0
Created root digest u v = IsSole root (some u) v × (u ≡ new_state root digest u.transaction_id)

module _ (root digest transaction_id : Text) (sha256 : is_hex_of_length 64 digest ≡ true)
    (hex : is_hex_of_length 24 transaction_id ≡ true) (w : Directory)
    (reserved : contains (names_of w) (prepublication_name transaction_id) ≡ false)
    (quiet : IsSole root none w) where
  abbrev state : BootstrapState
  state = new_state root digest transaction_id

  abbrev staging : Text
  staging = prepublication_name transaction_id

  abbrev written : Directory
  written = write_state staging state (with_folder staging w)

  abbrev published : Directory
  published = renamed staging transaction_id written

  abbrev state_folder : Folder
  state_folder = record empty_folder { contents = (state_name, state_leaf state) ∷ [] }

  state_folder-state : folder_state root state_folder ≡ ok state
  unfolding folder_state read_private_json open_private_regular find_named equality
  state_folder-state =
      state_from_value-state_value state (new_state-IsValid root digest transaction_id sha256 hex)

  module _ (free : contains (names_of written) transaction_id ≡ false) where
    reads_new : Reads root published transaction_id state
    unfolding with_state
    reads_new = (
      state_folder,
      find_named-destination staging transaction_id written free
          ∙ found-write_state staging state (folder empty_folder) (with_folder staging w)
              (found-with_folder staging w reserved),
      state_folder-state,
    )

    reads_old :
        (name : Text) (t : BootstrapState)
        → is_hex_of_length 24 name ≡ true
        → Reads root w name t
        → Reads root published name t
    reads_old name t h (f, found, read) =
        let apart : name ≢ staging = λ e.
          ground (arith, subst (λ n. is_hex_of_length 24 n ≡ true) e h, not_hex transaction_id) in
        let here : find_named name written ≡ some (folder f) =
          find_named-write_state name staging state (with_folder staging w) apart
          ∙ (find_named-with_folder name staging w apart ∙ found) in
        let elsewhere : name ≢ transaction_id = λ e. ground (
          arith,
          free,
          subst (λ n. contains (names_of written) n ≡ true) e
              (find_named-contains name written (folder f) here),
        ) in
        (f, find_named-renamed name staging transaction_id written apart elsewhere ∙ here, read)

    abbrev Kept : Text → Type 0
    Kept name = (is_hex_of_length 24 name ≡ false) ⊎ Held root (some state) published name

    kept : (name : Text) → (is_hex_of_length 24 name ≡ false) ⊎ Held root none w name → Kept name
    kept name (inl other) = inl other
    kept name (inr h) = elim (Bool-cases (is_hex_of_length 24 name)) [
      | inr other ↦ inl other
      | inl id ↦ inr (record {
        state = h.state;
        reads = reads_old name h.state id h.reads;
        named = h.named;
        kind = elim h.kind [ inl final ↦ inl final | inr e ↦ absurd (cc e) ];
      })
    ]

    published-IsSole : IsSole root (some state) published
    published-IsSole = record {
      held =
          All-renamed Kept staging transaction_id written
            (inr (record { state = state; reads = reads_new; named = refl; kind = inr refl }))
            (subst (All Kept) (sym (names-write_state staging state (with_folder staging w))) (
              All-with_folder Kept staging w (inl (not_hex transaction_id)) (
                All-map (λ n. (is_hex_of_length 24 n ≡ false) ⊎ Held root none w n) Kept
                  (names_of w) kept quiet.held)));
      unfinished = inr (state, refl, (λ f. f), reads_new);
    }

  publish_new-Created :
      Leaves
        (Created root digest)
        Any
        (publish_new root digest transaction_id (with_folder staging w))
  unfolding publish_new
  publish_new-Created =
      Leaves-bind _ _ (opened-folder staging "bootstrap staging directory" (with_folder staging w))
        λ f x (found, same).
          Leaves-bind _ _
            (rename_noreplace-renamed staging transaction_id "bootstrap transaction id collision"
              (write_state staging state x))
            λ u y (free, moved).
              let here : x ≡ with_folder staging w = same in
              Leaves-ok state y (
                subst (IsSole root (some state))
                    (sym (
                      moved
                      ∙ ap (λ d. renamed staging transaction_id (write_state staging state d))
                          here))
                    (published-IsSole (
                      subst
                        (λ d.
                          contains (names_of (write_state staging state d)) transaction_id ≡ false)
                        here free)),
                refl,
              )

reserve-Created :
    (root digest : Text) (left : ℕ) (token : ℕ → Text) (w : Directory)
    → is_hex_of_length 64 digest ≡ true
    → ((n : ℕ) → is_hex_of_length 24 (token n) ≡ true)
    → IsSole root none w
    → Leaves (Created root digest) Any (reserve root digest left token w)
unfolding reserve
reserve-Created root digest zero token w sha256 hex quiet = Leaves-err _ w tt
reserve-Created root digest (suc left) token w sha256 hex quiet =
    elim (Bool-cases (contains (names_of w) (prepublication_name (token 0)))) [
      | inl taken ↦
          rw taken (
            reserve-Created root digest left (λ n. token (suc n)) w sha256 (λ n. hex (suc n)) quiet)
      | inr reserved ↦
          rw reserved (publish_new-Created root digest (token 0) sha256 (hex 0) w reserved quiet)
    ]

none_of : (r : Option BootstrapState) → is_some r ≡ false → r ≡ none
unfolding is_some
none_of none h = refl
none_of (some state) h = cc

-- If the tokens are of 24 hexadecimal digits, a creation that succeeds returns the new state with the
-- manifest's digest. In the directory that it leaves, that state is what the directory of its identifier
-- holds, and every other identifier holds a finished state of its own.
pub create_transaction-Created :
    (root manifest_sha256 : Text) (token : ℕ → Text) (w : Directory)
    → ((n : ℕ) → is_hex_of_length 24 (token n) ≡ true)
    → Leaves (Created root manifest_sha256) Any (create_transaction root manifest_sha256 token w)
unfolding create_transaction
create_transaction-Created root manifest_sha256 token w hex =
    Leaves-bind
      (λ digest. load_unfinished_transaction root >>= λ unfinished.
        lift (raise_if (is_some unfinished) "unfinished bootstrap transaction already exists")
        >> reserve root digest 100 token)
      _ (lift-ok (require_sha256 (str manifest_sha256) "manifest_sha256") w)
      λ digest x (valid, same).
        Leaves-bind _ _ (load_unfinished_transaction-IsSole root x)
          λ r y sole. created digest valid r y sole
  where
    created :
        (digest : Text)
        → require_sha256 (str manifest_sha256) "manifest_sha256" ≡ ok digest
        → (r : Option BootstrapState) (y : Directory) → IsSole root r y
        → Leaves (Created root manifest_sha256) Any (
            (lift (raise_if (is_some r) "unfinished bootstrap transaction already exists")
                >> reserve root digest 100 token)
              y)
    created digest valid r y sole = elim (Bool-cases (is_some r)) [
      | inl busy ↦ rw busy (Leaves-err _ y tt)
      | inr quiet ↦ rw quiet (
          subst (λ d. Leaves (Created root d) Any (reserve root digest 100 token y))
            (sha256-same manifest_sha256 digest valid)
            (reserve-Created root digest 100 token y (sha256-hex manifest_sha256 digest valid) hex
              (subst (λ o. IsSole root o y) (none_of r quiet) sole)))
    ]
