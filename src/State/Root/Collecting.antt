-- ===== src/State/Root/Collecting.antt =====
-- What the loop of `_load_unfinished_transaction_locked` has collected (forza_bootstrap/state.py).
use forza_motorsport_linux.Base.{
  ◌≡◌, refl, sym, ◌∙◌, subst, Text, Bool, true, false, not, ◌⊎◌, inl, inr, List, [], ◌∷◌, ◌++◌,
  Error, refuse_if, ◌==◌, ==_iff, nat_eq, list_eq, contains, contains-append, contains-last,
  Bool-cases, is_hex_of_length, All, All-map, All-append, Among, arith, if◌then◌else◌,
}
use forza_motorsport_linux.Base.Actions.{Leaves, Leaves-ok, Leaves-err, Leaves-bind, lift, pure}
use forza_motorsport_linux.State.{
  BootstrapState, BootstrapPhase, accepted, rolled_back, phase_eq, terminal_phases,
}
use forza_motorsport_linux.State.Phases.{IsFinal}
use forza_motorsport_linux.State.Transition.Durable.{not-terminal}
use forza_motorsport_linux.Files.{Directory, folder}
use forza_motorsport_linux.State.Root.{renamed, names_of}
use forza_motorsport_linux.State.Root.Names.{find_named-contains, find_named-renamed}
use forza_motorsport_linux.State.Root.Reading.{Any, Reads}
use forza_motorsport_linux.State.Root.Loading.{Found, collect}

abbrev pub IsId : Text → Type 0
IsId name = is_hex_of_length 24 name ≡ true

-- A transaction that has been loaded: it is finished, or it is among the states.
pub record Stored (root : Text) (states : List BootstrapState) (w : Directory) (id : Text)
    : Type 0 where
  pub is_id : IsId id
  pub state : BootstrapState
  pub reads : Reads root w id state
  pub named : state.transaction_id ≡ id
  pub kind : IsFinal state.phase ⊎ Among states state

pub record Unfinished (root : Text) (w : Directory) (t : BootstrapState) : Type 0 where
  pub is_id : IsId t.transaction_id
  pub reads : Reads root w t.transaction_id t
  pub open_phase : ¬ IsFinal t.phase

-- A name that has been dealt with, or is still to come.
abbrev pub Seen : List Text → List Text → Text → Type 0
Seen ids names n =
    (is_hex_of_length 24 n ≡ false) ⊎ ((contains ids n ≡ true) ⊎ (contains names n ≡ true))

pub record Collected (root : Text) (names : List Text) (found : Found) (w : Directory)
    : Type 0 where
  pub stored : All (Stored root found.states w) found.transaction_ids
  pub unfinished : All (Unfinished root w) found.states
  pub seen : All (Seen found.transaction_ids names) (names_of w)

Among-append : {A : Type 0} (xs ys : List A) (a : A) → Among xs a → Among (xs ++ ys) a
unfolding Among
Among-append [] ys a h = elim h [ ]
Among-append (x ∷ xs) ys a (inl e) = inl e
Among-append (x ∷ xs) ys a (inr h) = inr (Among-append xs ys a h)

Among-last : {A : Type 0} (xs : List A) (a : A) → Among (xs ++ (a ∷ [])) a
unfolding Among
Among-last [] a = inl refl
Among-last (x ∷ xs) a = inr (Among-last xs a)

pub All-contains :
    (P : Text → Type 0) (xs : List Text) (a : Text) → All P xs → contains xs a ≡ true → P a
All-contains P [] a h c = cc
All-contains P (x ∷ xs) a h c = elim (Bool-cases (a == x)) [
  | inl same ↦ subst P (sym ((==_iff a x).0 same)) h.0
  | inr differ ↦ All-contains P xs a h.1 (ground (arith, differ, c))
]

terminal-IsFinal : (p : BootstrapPhase) → contains terminal_phases p ≡ true → IsFinal p
unfolding terminal_phases phase_eq
terminal-IsFinal accepted h = tt
terminal-IsFinal rolled_back h = tt
terminal-IsFinal _ h = cc

module _ (root : Text) (w : Directory) (source destination : Text)
    (staging : is_hex_of_length 24 source ≡ false)
    (free : contains (names_of w) destination ≡ false) where
  pub Reads-renamed :
      (id : Text) (t : BootstrapState)
      → IsId id
      → Reads root w id t
      → Reads root (renamed source destination w) id t
  Reads-renamed id t hex (f, found, read) = (
    f,
    find_named-renamed id source destination w (λ e. ground (arith, subst IsId e hex, staging))
          (λ e. ground (
            arith,
            free,
            subst (λ n. contains (names_of w) n ≡ true) e
                (find_named-contains id w (folder f) found),
          ))
        ∙ found,
    read,
  )

-- The names that are left once one more has been read.
abbrev pub Next : List Text → List Text → Text → Text → Type 0
Next ids names durable n =
    (is_hex_of_length 24 n ≡ false)
    ⊎ ((contains ids n ≡ true) ⊎ ((n ≡ durable) ⊎ (contains names n ≡ true)))

module _ (root : Text) where
  pub skipped :
      (name : Text) (names : List Text) (found : Found) (w v : Directory)
      → is_hex_of_length 24 name ≡ false
      → v ≡ w
      → Collected root (name ∷ names) found w
      → Collected root names found v
  skipped name names found w v other e c = subst (Collected root names found) (sym e) (record {
    stored = c.stored;
    unfinished = c.unfinished;
    seen =
        All-map (Seen found.transaction_ids (name ∷ names)) (Seen found.transaction_ids names)
          (names_of w) next c.seen;
  })
    where
      next :
          (n : Text)
          → Seen found.transaction_ids (name ∷ names) n
          → Seen found.transaction_ids names n
      next n (inl h) = inl h
      next n (inr (inl h)) = inr (inl h)
      next n (inr (inr h)) = elim (Bool-cases (n == name)) [
        | inl same ↦
            inl (subst (λ x. is_hex_of_length 24 x ≡ false) (sym ((==_iff n name).0 same)) other)
        | inr differ ↦ inr (inr (ground (arith, differ, h)))
      ]

  module _ (names : List Text) (found : Found) (durable : Text) (t : BootstrapState) (w : Directory)
      (hex : IsId durable) (reads : Reads root w durable t)
      (stored : All (Stored root found.states w) found.transaction_ids)
      (unfinished : All (Unfinished root w) found.states)
      (seen : All (Next found.transaction_ids names durable) (names_of w)) where
    abbrev ids : List Text
    ids = found.transaction_ids ++ (t.transaction_id ∷ [])

    abbrev after : Found
    after = record {
      states = if contains terminal_phases t.phase then found.states else found.states ++ (t ∷ []);
      transaction_ids = ids;
    }

    ids-Seen : t.transaction_id ≡ durable → All (Seen ids names) (names_of w)
    ids-Seen e =
        All-map (Next found.transaction_ids names durable) (Seen ids names) (names_of w) step seen
      where
        step : (n : Text) → Next found.transaction_ids names durable n → Seen ids names n
        step n (inl h) = inl h
        step n (inr (inl h)) =
            inr (inl (contains-append found.transaction_ids (t.transaction_id ∷ []) n h))
        step n (inr (inr (inl h))) = inr (
            inl (
              subst (λ x. contains ids x ≡ true) (e ∙ sym h)
                (contains-last found.transaction_ids t.transaction_id)))
        step n (inr (inr (inr h))) = inr (inr h)

    with_states :
        (states : List BootstrapState)
        → ((s : BootstrapState) → Among found.states s → Among states s)
        → (IsFinal t.phase ⊎ Among states t)
        → t.transaction_id ≡ durable
        → All (Stored root states w) ids
    with_states states more kind e =
        All-append (Stored root states w) found.transaction_ids (t.transaction_id ∷ [])
          (All-map (Stored root found.states w) (Stored root states w) found.transaction_ids grow
            stored)
          (
            record {
              is_id = subst IsId (sym e) hex;
              state = t;
              reads = subst (λ d. Reads root w d t) (sym e) reads;
              named = refl;
              kind = kind;
            },
            tt,
          )
      where
        grow : (id : Text) → Stored root found.states w id → Stored root states w id
        grow id s = record {
          is_id = s.is_id;
          state = s.state;
          reads = s.reads;
          named = s.named;
          kind = elim s.kind [ inl f ↦ inl f | inr a ↦ inr (more s.state a) ];
        }

    pub collect-Collected : Leaves (Collected root names) Any (collect durable found t w)
    unfolding collect
    collect-Collected =
        Leaves-bind _ _ (check (contains found.transaction_ids t.transaction_id) _ w)
          λ u x (_, same).
            Leaves-bind _ _ (check (not (t.transaction_id == durable)) _ x) λ v y (named, again).
              let e : t.transaction_id ≡ durable =
                (==_iff t.transaction_id durable).0 (ground (arith, named)) in
              subst (λ d. Leaves (Collected root names) Any (pure after d)) (sym (again ∙ same))
                (elim (Bool-cases (contains terminal_phases t.phase)) [
                  | inl final ↦ rw final (
                      Leaves-ok _ w (record {
                        stored =
                            with_states found.states (λ s a. a)
                              (inl (terminal-IsFinal t.phase final)) e;
                        unfinished = unfinished;
                        seen = ids-Seen e;
                      }))
                  | inr open_phase ↦ rw open_phase (
                      Leaves-ok _ w (record {
                        stored =
                            with_states (found.states ++ (t ∷ []))
                              (Among-append found.states (t ∷ [])) (inr (Among-last found.states t))
                              e;
                        unfinished =
                            All-append (Unfinished root w) found.states (t ∷ []) unfinished (
                              record {
                                is_id = subst IsId (sym e) hex;
                                reads = subst (λ d. Reads root w d t) (sym e) reads;
                                open_phase = not-terminal t.phase open_phase;
                              },
                              tt,
                            );
                        seen = ids-Seen e;
                      }))
                ])
      where
        check :
            (test : Bool) (error : Error) (x : Directory)
            → Leaves (λ u v. (test ≡ false) × (v ≡ x)) Any (lift (refuse_if test error) x)
        check true error x = Leaves-err error x tt
        check false error x = Leaves-ok tt x (refl, refl)
