-- ===== src/State/Root/Reading.antt =====
-- What loading a transaction and recovering a staging directory read (forza_bootstrap/state.py).
use forza_motorsport_linux.Base.{
  String, ◌≡◌, refl, sym, ap, ◌∙◌, subst, Text, false, not, inl, inr, Option, none, some, List, [],
  ◌∷◌, Result, ok, err, Error, raise_if, ◌==◌, nat_eq, list_eq, contains, Bool-cases, sorted_by,
}
use forza_motorsport_linux.Base.Actions.{
  Leaves, Leaves-ok, Leaves-err, Leaves-bind, Leaves-map, lift, ◌>>=◌,
}
use forza_motorsport_linux.State.{BootstrapState, phase_eq, require_token}
use forza_motorsport_linux.Json.{str}
use forza_motorsport_linux.Files.{
  folder, Folder, Directory, find_named, open_private_child, open_private_regular,
}
use forza_motorsport_linux.State.Root.{
  renamed, rename_noreplace, names_of, folder_state, opened, recovered, staged_state, from_contents,
  is_temporary, state_name, recover_prepublication_transaction, load_transaction_from,
}
use forza_motorsport_linux.State.Root.Names.{open_private_child-folder}

-- Nothing is said of an error.
abbrev pub Any : Error → Directory → Type 0
Any e w = Unit

-- The directory of that name holds the state.
abbrev pub Reads : Text → Directory → Text → BootstrapState → Type 0
Reads root w name t =
    (f : Folder) × (find_named name w ≡ some (folder f)) × (folder_state root f ≡ ok t)

pub lift-ok :
    {A : Type 0} (r : Result A) (w : Directory)
    → Leaves (λ a v. (r ≡ ok a) × (v ≡ w)) Any (lift r w)
lift-ok (ok a) w = Leaves-ok a w (refl, refl)
lift-ok (err e) w = Leaves-err e w tt

pub opened-folder :
    (name : Text) (label : String) (w : Directory)
    → Leaves (λ f v. (find_named name w ≡ some (folder f)) × (v ≡ w)) Any (opened name label w)
opened-folder name label w =
    Leaves-map _ (lift-ok (open_private_child (find_named name w) name label) w)
      (λ f v (found, same). (open_private_child-folder _ name label f found, same)) (λ e v a. a)

pub load_transaction_from-Reads :
    (root name : Text) (w : Directory)
    → Leaves (λ t v. Reads root w name t × (v ≡ w)) Any (load_transaction_from root name w)
unfolding load_transaction_from
load_transaction_from-Reads root name w =
    Leaves-bind
      (λ _. opened name "bootstrap transaction directory" >>= λ f. lift (folder_state root f)) _
      (lift-ok (require_token (str name) "transaction_id") w)
      λ u x (_, same).
        Leaves-bind _ _ (opened-folder name "bootstrap transaction directory" x)
          λ f y (found, again).
            Leaves-map _ (lift-ok (folder_state root f) y)
              (λ t v (read, last). (
                (f, subst (λ d. find_named name d ≡ some (folder f)) same found, read),
                last ∙ (again ∙ same),
              ))
              (λ e v x. x)

-- What a staging directory comes to: nothing, or its state under the name of its transaction.
abbrev pub Came : Text → Directory → Text → Text → Option BootstrapState → Directory → Type 0
Came root w name transaction_id none v = v ≡ w
Came root w name transaction_id (some t) v =
    Reads root w name t
    × (contains (names_of w) transaction_id ≡ false)
    × (v ≡ renamed name transaction_id w)

pub rename_noreplace-renamed :
    (source destination : Text) (text : String) (w : Directory)
    → Leaves
        (λ u v. (contains (names_of w) destination ≡ false) × (v ≡ renamed source destination w))
        Any
        (rename_noreplace source destination text w)
unfolding rename_noreplace
rename_noreplace-renamed source destination text w =
    elim (Bool-cases (contains (names_of w) destination)) [
      | inl taken ↦ rw taken (Leaves-err _ w tt)
      | inr free ↦ rw free (Leaves-ok tt (renamed source destination w) (refl, refl))
    ]

recovered-Came :
    (root name transaction_id : Text) (f : Folder) (w : Directory)
    → find_named name w ≡ some (folder f)
    → Leaves (Came root w name transaction_id) Any (recovered root name transaction_id f w)
unfolding recovered staged_state
recovered-Came root name transaction_id f w found =
    Leaves-bind {P = λ t v. (folder_state root f ≡ ok t) × (v ≡ w)} _ _
      (Leaves-bind _ _ (lift-ok (folder_state root f) w) λ t x (read, same).
        Leaves-bind _ _ (lift-ok (raise_if (not (t.transaction_id == transaction_id)) _) x)
          λ u y (_, again). Leaves-ok t y (read, again ∙ same))
      λ t x (read, same).
        Leaves-bind _ _ (rename_noreplace-renamed name transaction_id _ x) λ u y (free, moved).
          Leaves-ok (some t) y (
            (f, found, read),
            subst (λ d. contains (names_of d) transaction_id ≡ false) same free,
            moved ∙ ap (renamed name transaction_id) same,
          )

from_contents-Came :
    (root name transaction_id : Text) (f : Folder) (entries : List Text) (w : Directory)
    → find_named name w ≡ some (folder f)
    → Leaves
        (Came root w name transaction_id)
        Any
        (from_contents root name transaction_id f entries w)
unfolding from_contents
from_contents-Came root name transaction_id f [] w found = Leaves-ok none w refl
from_contents-Came root name transaction_id f (entry ∷ []) w found =
    elim (Bool-cases (entry == state_name)) [
      | inl whole ↦ rw whole (recovered-Came root name transaction_id f w found)
      | inr partial ↦ rw partial (elim (Bool-cases (is_temporary entry)) [
        | inl temporary ↦ rw temporary (
            Leaves-bind _ _ (lift-ok (open_private_regular (find_named entry f.contents) entry) w)
              λ l x (_, same). Leaves-ok none x same)
        | inr strange ↦ rw strange (Leaves-err _ w tt)
      ])
    ]
from_contents-Came root name transaction_id f (entry ∷ next ∷ entries) w found = Leaves-err _ w tt

pub recover_prepublication_transaction-Came :
    (root name transaction_id : Text) (w : Directory)
    → Leaves
        (Came root w name transaction_id)
        Any
        (recover_prepublication_transaction root name transaction_id w)
unfolding recover_prepublication_transaction
recover_prepublication_transaction-Came root name transaction_id w =
    Leaves-bind _ _ (opened-folder name "bootstrap staging directory" w) λ f v (found, same).
      Leaves-map _
        (from_contents-Came root name transaction_id f (sorted_by (λ x. x) (names_of f.contents)) v
          (subst (λ d. find_named name d ≡ some (folder f)) (sym same) found))
        (λ r x came. subst (λ d. Came root d name transaction_id r x) same came) (λ e x a. a)
