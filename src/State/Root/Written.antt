-- ===== src/State/Root/Written.antt =====
-- What reserving a directory and writing the new state do to the names of the state root
-- (forza_bootstrap/state.py).
use forza_motorsport_linux.Base.{
  ◌≡◌, ◌≢◌, refl, ap, Text, true, false, inl, inr, some, [], ◌∷◌, ok, ◌==◌, ==_iff, ==_refl, nat_eq,
  list_eq, contains, Bool-cases, is_hex_of_length, All, arith, if◌then◌else◌,
}
use forza_motorsport_linux.Json.{str}
use forza_motorsport_linux.State.{BootstrapState, require_sha256}
use forza_motorsport_linux.State.Value.RoundTrip.{IsValid}
use forza_motorsport_linux.Files.{
  Node, folder, Folder, Directory, find_named, private_directory_mode,
}
use forza_motorsport_linux.State.Root.{prepublication_name, names_of}
use forza_motorsport_linux.State.Root.Creation.{new_state, with_folder, with_state, write_state}

abbrev pub empty_folder : Folder
empty_folder = record { owned = true; mode = private_directory_mode; contents = [] }

pub find_named-with_folder :
    (name staging : Text) (w : Directory)
    → name ≢ staging
    → find_named name (with_folder staging w) ≡ find_named name w
unfolding find_named
find_named-with_folder name staging [] n =
    let other : (staging == name) ≡ false = ground (arith, n) in rw other refl
find_named-with_folder name staging ((entry, node) ∷ w) n =
    ap (λ o. if entry == name then some node else o) (find_named-with_folder name staging w n)

pub found-with_folder :
    (staging : Text) (w : Directory)
    → contains (names_of w) staging ≡ false
    → find_named staging (with_folder staging w) ≡ some (folder empty_folder)
unfolding find_named
found-with_folder staging [] h = rw (==_refl staging) refl
found-with_folder staging ((entry, node) ∷ w) h =
    let other : (entry == staging) ≡ false = ground (arith, h) in
    rw other (found-with_folder staging w (ground (arith, h)))

pub find_named-write_state :
    (name staging : Text) (state : BootstrapState) (w : Directory)
    → name ≢ staging
    → find_named name (write_state staging state w) ≡ find_named name w
unfolding find_named write_state
find_named-write_state name staging state [] n = refl
find_named-write_state name staging state ((entry, node) ∷ w) n =
    elim (Bool-cases (entry == staging)) [
      | inl same ↦
          let other : (entry == name) ≡ false = ground (arith, (==_iff entry staging).0 same, n) in
          rw (same, other) refl
      | inr differ ↦ rw differ (
          ap (λ o. if entry == name then some node else o)
            (find_named-write_state name staging state w n))
    ]

pub found-write_state :
    (staging : Text) (state : BootstrapState) (node : Node) (w : Directory)
    → find_named staging w ≡ some node
    → find_named staging (write_state staging state w) ≡ some (with_state state node)
unfolding find_named write_state
found-write_state staging state node [] h = cc
found-write_state staging state node ((entry, found) ∷ w) h = elim (Bool-cases (entry == staging)) [
  | inl same ↦
      let e : some found ≡ some node = rw same at h in
      let f : found ≡ node = cc e in rw (same, f, same) refl
  | inr differ ↦ rw (differ, differ) (found-write_state staging state node w (rw differ at h))
]

pub names-write_state :
    (staging : Text) (state : BootstrapState) (w : Directory)
    → names_of (write_state staging state w) ≡ names_of w
unfolding write_state
names-write_state staging state [] = refl
names-write_state staging state ((entry, node) ∷ w) = elim (Bool-cases (entry == staging)) [
  | inl same ↦ rw same refl
  | inr differ ↦ rw differ (ap (λ l. entry ∷ l) (names-write_state staging state w))
]

pub All-with_folder :
    (P : Text → Type 0) (staging : Text) (w : Directory)
    → P staging
    → All P (names_of w)
    → All P (names_of (with_folder staging w))
All-with_folder P staging [] p h = (p, tt)
All-with_folder P staging ((entry, node) ∷ w) p h = (h.0, All-with_folder P staging w p h.1)

pub not_hex :
    (transaction_id : Text) → is_hex_of_length 24 (prepublication_name transaction_id) ≡ false
unfolding is_hex_of_length
not_hex transaction_id = ground arith

pub sha256-hex :
    (text digest : Text)
    → require_sha256 (str text) "manifest_sha256" ≡ ok digest
    → is_hex_of_length 64 digest ≡ true
unfolding require_sha256
sha256-hex text digest h = ground arith

pub sha256-same :
    (text digest : Text) → require_sha256 (str text) "manifest_sha256" ≡ ok digest → digest ≡ text
unfolding require_sha256
sha256-same text digest h = ground arith

pub new_state-IsValid :
    (root digest transaction_id : Text)
    → is_hex_of_length 64 digest ≡ true
    → is_hex_of_length 24 transaction_id ≡ true
    → IsValid (new_state root digest transaction_id)
new_state-IsValid root digest transaction_id h k = record {
  version = refl;
  transaction_id = k;
  manifest_sha256 = h;
  nonempty = tt;
  distinct = tt;
  child = tt;
  backup = tt;
  finish = tt;
}
