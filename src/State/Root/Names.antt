-- ===== src/State/Root/Names.antt =====
-- The names of the state root, and what a rename does to them (forza_bootstrap/state.py).
use forza_motorsport_linux.Base.{
  String, ◌≡◌, ◌≢◌, refl, ap, subst, Text, true, false, inl, inr, Option, none, some, List, [], ◌∷◌,
  Result, ok, ok-injective, ◌>>=◌, err, ◌==◌, ==_iff, ==_refl, nat_eq, list_eq, contains,
  Bool-cases, is_hex_of_length, All, arith, drop, length, starts_with, if◌then◌else◌,
}
use forza_motorsport_linux.Files.{
  Node, file, folder, Folder, Directory, find_named, open_private_child,
}
use forza_motorsport_linux.State.Root.{staging_id, renamed, names_of, staging_prefix}

module _ {ℓ} {A : Type ℓ} where
  pub find_named-contains :
      (name : Text) (w : List (Text × A)) (a : A)
      → find_named name w ≡ some a
      → contains (names_of w) name ≡ true
  unfolding find_named
  find_named-contains name [] a h = cc
  find_named-contains name ((other, b) ∷ w) a h = elim (Bool-cases (other == name)) [
    | inl same ↦ ground (arith, (==_iff other name).0 same)
    | inr differ ↦ ground (arith, find_named-contains name w a (rw differ at h))
  ]

pub find_named-renamed :
    (name source destination : Text) (w : Directory)
    → name ≢ source
    → name ≢ destination
    → find_named name (renamed source destination w) ≡ find_named name w
unfolding find_named renamed
find_named-renamed name source destination [] n m = refl
find_named-renamed name source destination ((other, node) ∷ w) n m =
    elim (Bool-cases (other == source)) [
      | inl same ↦
          let e : other ≡ source = (==_iff other source).0 same in
          let gone : (other == name) ≡ false = ground (arith, e, n) in
          let new_name : (destination == name) ≡ false = ground (arith, m) in
          rw (same, gone, new_name) refl
      | inr differ ↦ rw differ (
          ap (λ o. if other == name then some node else o)
            (find_named-renamed name source destination w n m))
    ]

pub find_named-destination :
    (source destination : Text) (w : Directory)
    → contains (names_of w) destination ≡ false
    → find_named destination (renamed source destination w) ≡ find_named source w
unfolding find_named renamed
find_named-destination source destination [] h = refl
find_named-destination source destination ((other, node) ∷ w) h =
    elim (Bool-cases (other == source)) [
      | inl same ↦ rw (same, ==_refl destination) refl
      | inr differ ↦
          let elsewhere : (other == destination) ≡ false = ground (arith, h) in
          rw (differ, elsewhere) (find_named-destination source destination w (ground (arith, h)))
    ]

pub All-renamed :
    (P : Text → Type 0) (source destination : Text) (w : Directory)
    → P destination
    → All P (names_of w)
    → All P (names_of (renamed source destination w))
unfolding renamed
All-renamed P source destination [] p h = tt
All-renamed P source destination ((other, node) ∷ w) p h = elim (Bool-cases (other == source)) [
  | inl same ↦ rw same (p, h.1)
  | inr differ ↦ rw differ (h.0, All-renamed P source destination w p h.1)
]

matched :
    (name transaction_id : Text)
    → staging_id name ≡ some transaction_id
    → (starts_with name staging_prefix ≡ true)
      × (is_hex_of_length 24 (drop (length staging_prefix) name) ≡ true)
      × (drop (length staging_prefix) name ≡ transaction_id)
unfolding staging_id
matched name transaction_id h = ground arith

dot_not_hex :
    (name : Text) → starts_with name staging_prefix ≡ true → is_hex_of_length 24 name ≡ false
unfolding starts_with is_hex_of_length
dot_not_hex [] h = cc
dot_not_hex (c ∷ name) h = let dot : c ≡ 46 = ground arith in rw dot (ground arith)

pub staging_id-is_hex_of_length :
    (name transaction_id : Text)
    → staging_id name ≡ some transaction_id
    → (is_hex_of_length 24 name ≡ false) × (is_hex_of_length 24 transaction_id ≡ true)
unfolding staging_id
staging_id-is_hex_of_length name transaction_id h =
    let (starts, hex, same) = matched name transaction_id h in
    (dot_not_hex name starts, subst (λ t. is_hex_of_length 24 t ≡ true) same hex)

checked : {A : Type 0} (r : Result (Unit {0})) (a b : A) → (r >>= λ _. ok a) ≡ ok b → a ≡ b
checked (ok u) a b h = ok-injective h
checked (err e) a b h = cc

pub open_private_child-folder :
    (node : Option Node) (name : Text) (label : String) (f : Folder)
    → open_private_child node name label ≡ ok f
    → node ≡ some (folder f)
unfolding open_private_child
open_private_child-folder none name label f h = cc
open_private_child-folder (some (file leaf)) name label f h = cc
open_private_child-folder (some (folder g)) name label f h =
    ap (λ x. some (folder x)) (checked _ g f h)
