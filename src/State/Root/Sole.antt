-- ===== src/State/Root/Sole.antt =====
-- The loop of `_load_unfinished_transaction_locked` and its result (forza_bootstrap/state.py).
use forza_motorsport_linux.Base.{
  ◌≡◌, refl, sym, ap, ◌∙◌, subst, Text, true, false, ◌⊎◌, inl, inr, Option, none, some, List, [],
  ◌∷◌, Result-cases, ◌==◌, ==_iff, nat_eq, list_eq, contains, Bool-cases, is_hex_of_length,
  equality, All, All-map, All-of_sorted_by, Among, arith, sorted_by,
}
use forza_motorsport_linux.Base.Actions.{Leaves, Leaves-ok, Leaves-err, Leaves-bind, lift, ◌>>=◌}
use forza_motorsport_linux.State.{BootstrapState, phase_eq}
use forza_motorsport_linux.State.Phases.{IsFinal}
use forza_motorsport_linux.Files.{Directory, find_named, leaf_at, open_private_regular}
use forza_motorsport_linux.State.Root.{
  bootstrap_lock_name, journal_lock_name, staging_id, renamed, names_of,
  recover_prepublication_transaction, load_transaction_from,
}
use forza_motorsport_linux.State.Root.Names.{
  find_named-destination, All-renamed, staging_id-is_hex_of_length,
}
use forza_motorsport_linux.State.Root.Reading.{
  Any, Reads, Came, load_transaction_from-Reads, recover_prepublication_transaction-Came,
}
use forza_motorsport_linux.State.Root.Collecting.{
  IsId, Stored, Unfinished, Seen, Collected, Next, All-contains, Reads-renamed, skipped,
  collect-Collected,
}
use forza_motorsport_linux.State.Root.Loading.{
  Found, nothing_found, collect, collect_recovered, load_by, lock_file, load_entry, load_entries,
  sole_state, load_unfinished_transaction,
}

module _ (root : Text) where
  read_name :
      (name : Text) (names : List Text) (found : Found) (w : Directory)
      → Collected root (name ∷ names) found w
      → IsId name
      → Leaves
          (Collected root names)
          Any
          ((load_transaction_from root name >>= collect name found) w)
  read_name name names found w c hex =
      Leaves-bind _ _ (load_transaction_from-Reads root name w) λ t x (reads, same).
        subst (λ d. Leaves (Collected root names) Any (collect name found t d)) (sym same)
          (collect-Collected root names found name t w hex reads c.stored c.unfinished (
            All-map (Seen found.transaction_ids (name ∷ names))
              (Next found.transaction_ids names name) (names_of w) next c.seen))
    where
      next :
          (n : Text)
          → Seen found.transaction_ids (name ∷ names) n
          → Next found.transaction_ids names name n
      next n (inl h) = inl h
      next n (inr (inl h)) = inr (inl h)
      next n (inr (inr h)) = elim (Bool-cases (n == name)) [
        | inl same ↦ inr (inr (inl ((==_iff n name).0 same)))
        | inr differ ↦ inr (inr (inr (ground (arith, differ, h))))
      ]

  staged :
      (name durable : Text) (names : List Text) (found : Found) (w : Directory)
      → Collected root (name ∷ names) found w
      → staging_id name ≡ some durable
      → Leaves (Collected root names) Any (
          (recover_prepublication_transaction root name durable >>= collect_recovered durable found)
            w)
  unfolding collect_recovered
  staged name durable names found w c matched =
      let (other, hex) = staging_id-is_hex_of_length name durable matched in
      Leaves-bind _ _ (recover_prepublication_transaction-Came root name durable w)
        λ r x came. go other hex r x came
    where
      go :
          is_hex_of_length 24 name ≡ false
          → IsId durable
          → (r : Option BootstrapState) (x : Directory) → Came root w name durable r x
          → Leaves (Collected root names) Any (collect_recovered durable found r x)
      go other hex none x same = Leaves-ok found x (skipped root name names found w x other same c)
      go other hex (some t) x (reads, free, moved) =
          let (f, here, read) = reads in
          let v : Directory = renamed name durable w in
          subst (λ d. Leaves (Collected root names) Any (collect durable found t d)) (sym moved)
            (collect-Collected root names found durable t v hex
              (f, find_named-destination name durable w free ∙ here, read)
              (All-map (Stored root found.states w) (Stored root found.states v)
                found.transaction_ids
                (λ id s. record {
                  is_id = s.is_id;
                  state = s.state;
                  reads = Reads-renamed root w name durable other free id s.state s.is_id s.reads;
                  named = s.named;
                  kind = s.kind;
                })
                c.stored)
              (All-map (Unfinished root w) (Unfinished root v) found.states
                (λ s u. record {
                  is_id = u.is_id;
                  reads =
                      Reads-renamed root w name durable other free s.transaction_id s u.is_id
                        u.reads;
                  open_phase = u.open_phase;
                })
                c.unfinished)
              (All-renamed (Next found.transaction_ids names durable) name durable w
                (inr (inr (inl refl)))
                (All-map (Seen found.transaction_ids names)
                  (Next found.transaction_ids names durable) (names_of w) widen
                  (skipped root name names found w w other refl c).seen)))
        where
          widen :
              (n : Text)
              → Seen found.transaction_ids names n
              → Next found.transaction_ids names durable n
          widen n (inl h) = inl h
          widen n (inr (inl h)) = inr (inl h)
          widen n (inr (inr h)) = inr (inr (inr h))

  locked :
      (name : Text) (names : List Text) (found : Found) (w : Directory)
      → is_hex_of_length 24 name ≡ false
      → Collected root (name ∷ names) found w
      → Leaves (Collected root names) Any (lock_file name found w)
  locked name names found w other c =
      elim (Result-cases (open_private_regular (leaf_at (find_named name w)) name)) [
        | inl (e, h) ↦ rw h (Leaves-err e w tt)
        | inr (leaf, h) ↦ rw h (Leaves-ok found w (skipped root name names found w w other refl c))
      ]

  named_entry :
      (name : Text) (names : List Text) (found : Found) (w : Directory) (staging : Option Text)
      → staging_id name ≡ staging
      → Collected root (name ∷ names) found w
      → Leaves (Collected root names) Any (load_by root name found staging w)
  unfolding load_by
  named_entry name names found w (some durable) matched c =
      staged name durable names found w c matched
  named_entry name names found w none matched c = elim (Bool-cases (is_hex_of_length 24 name)) [
    | inl hex ↦ rw hex (read_name name names found w c hex)
    | inr other ↦ rw other (Leaves-err _ w tt)
  ]

  load_entry-Collected :
      (name : Text) (names : List Text) (found : Found) (w : Directory)
      → Collected root (name ∷ names) found w
      → Leaves (Collected root names) Any (load_entry root name found w)
  unfolding load_entry is_hex_of_length equality
  load_entry-Collected name names found w c = elim (Bool-cases (name == bootstrap_lock_name)) [
    | inl lock ↦ rw lock (
        locked name names found w
          (ap (is_hex_of_length 24) ((==_iff name bootstrap_lock_name).0 lock)) c)
    | inr other ↦ rw other (elim (Bool-cases (name == journal_lock_name)) [
      | inl lock ↦ rw lock (
          locked name names found w
            (ap (is_hex_of_length 24) ((==_iff name journal_lock_name).0 lock)) c)
      | inr transaction ↦ rw transaction (named_entry name names found w (staging_id name) refl c)
    ])
  ]

  load_entries-Collected :
      (names : List Text) (found : Found) (w : Directory)
      → Collected root names found w
      → Leaves (Collected root []) Any (load_entries root names found w)
  unfolding load_entries
  load_entries-Collected [] found w c = Leaves-ok found w c
  load_entries-Collected (name ∷ names) found w c =
      Leaves-bind _ _ (load_entry-Collected name names found w c)
        λ f v d. load_entries-Collected names f v d

-- A transaction that the directory holds under its own identifier: it is finished, or it is the result.
pub record Held (root : Text) (result : Option BootstrapState) (w : Directory) (name : Text)
    : Type 0 where
  pub state : BootstrapState
  pub reads : Reads root w name state
  pub named : state.transaction_id ≡ name
  pub kind : IsFinal state.phase ⊎ (result ≡ some state)

-- The result is the state of the one transaction that is not finished, if there is one.
pub record IsSole (root : Text) (result : Option BootstrapState) (w : Directory) : Type 0 where
  pub held : All (λ name. (is_hex_of_length 24 name ≡ false) ⊎ Held root result w name) (names_of w)
  pub unfinished :
      (result ≡ none)
      ⊎ ((t : BootstrapState) × (result ≡ some t)
          × (¬ IsFinal t.phase)
          × Reads root w t.transaction_id t)

module _ (root : Text) (found : Found) (w : Directory) (c : Collected root [] found w) where
  held :
      (result : Option BootstrapState)
      → ((t : BootstrapState) → Among found.states t → result ≡ some t)
      → All (λ name. (is_hex_of_length 24 name ≡ false) ⊎ Held root result w name) (names_of w)
  held result only =
      All-map (Seen found.transaction_ids [])
        (λ name. (is_hex_of_length 24 name ≡ false) ⊎ Held root result w name) (names_of w) each
        c.seen
    where
      each :
          (name : Text)
          → Seen found.transaction_ids [] name
          → (is_hex_of_length 24 name ≡ false) ⊎ Held root result w name
      each name (inl other) = inl other
      each name (inr (inr h)) = cc
      each name (inr (inl h)) =
          let s = All-contains (Stored root found.states w) found.transaction_ids name c.stored h in
          inr (record {
            state = s.state;
            reads = s.reads;
            named = s.named;
            kind = elim s.kind [ inl f ↦ inl f | inr a ↦ inr (only s.state a) ];
          })

  sole :
      (states : List BootstrapState)
      → found.states ≡ states
      → Leaves (IsSole root) Any (lift (sole_state states) w)
  unfolding sole_state Among
  sole [] e = Leaves-ok none w (record {
    held = held none (λ t a. absurd (subst (λ l. Among l t) e a));
    unfinished = inl refl;
  })
  sole (t ∷ []) e =
      let all : All (Unfinished root w) (t ∷ []) = subst (All (Unfinished root w)) e c.unfinished in
      Leaves-ok (some t) w (record {
        held = held (some t) (λ u a. only u (subst (λ l. Among l u) e a));
        unfinished = inr (t, refl, all.0.open_phase, all.0.reads);
      })
    where
      only : (u : BootstrapState) → Among (t ∷ []) u → some t ≡ some u
      only u (inl same) = ap some (sym same)
      only u (inr h) = elim h [ ]
  sole (t ∷ u ∷ states) e = Leaves-err _ w tt

contains-All : (xs : List Text) → All (λ x. contains xs x ≡ true) xs
contains-All [] = tt
contains-All (x ∷ xs) = (
  ground arith,
  All-map (λ y. contains xs y ≡ true) (λ y. contains (x ∷ xs) y ≡ true) xs
      (λ y h. ground (arith, h)) (contains-All xs),
)

-- If the loading of the unfinished transaction succeeds, then in the directory that it leaves, each name
-- that is an identifier holds a state with that identifier, which is finished or the result, and the
-- result, if there is one, is not finished and is what the directory of its identifier holds.
pub load_unfinished_transaction-IsSole :
    (root : Text) (w : Directory) → Leaves (IsSole root) Any (load_unfinished_transaction root w)
unfolding load_unfinished_transaction
load_unfinished_transaction-IsSole root w =
    Leaves-bind _ _
      (load_entries-Collected root (sorted_by (λ name. name) (names_of w)) nothing_found w (record {
        stored = tt;
        unfinished = tt;
        seen =
            All-map (λ n. contains (sorted_by (λ name. name) (names_of w)) n ≡ true)
              (Seen [] (sorted_by (λ name. name) (names_of w))) (names_of w) (λ n h. inr (inr h))
              (All-of_sorted_by (λ name. name)
                (λ n. contains (sorted_by (λ name. name) (names_of w)) n ≡ true) (names_of w)
                (contains-All (sorted_by (λ name. name) (names_of w))));
      }))
      λ found v c. sole root found v c found.states refl
