-- ===== src/Recovery/Tracks.antt =====
-- That the coordinator's state is the durable one, and how its transitions keep it so
-- (forza_bootstrap/coordinator.py).
use forza_motorsport_linux.Base.{
  ◌≡◌, ◌≢◌, refl, sym, ◌∙◌, subst, Text, false, ◌⊎◌, none, some, [], Result, ok, err, Error,
  contains, nat_eq, list_eq,
}
use forza_motorsport_linux.Base.Actions.{Leaves, Leaves-ok, Leaves-err}
use forza_motorsport_linux.Json.{Json}
use forza_motorsport_linux.State.{BootstrapPhase, BootstrapState, phase_eq}
use forza_motorsport_linux.State.Phases.{Move, IsFinal}
use forza_motorsport_linux.State.Value.{state_value}
use forza_motorsport_linux.State.Value.RoundTrip.{IsValid}
use forza_motorsport_linux.State.Transition.{Updates, transition_locked, boundary_updates}
use forza_motorsport_linux.State.Transition.Durable.{
  IsTransition, transition_locked-IsTransition, transition_locked-Move, moved-IsValid,
}
use forza_motorsport_linux.State.Transition.Boundaries.{
  marked, marked-IsValid, transition_locked-marked,
}
use forza_motorsport_linux.State.Transition.History.{History, step}
use forza_motorsport_linux.Recovery.{World, saved, transition}

module _ {H : Type 0} (root : Text) (origin : BootstrapState) where
  -- A history from `origin` has led to `t`, and `t` is what the file holds.
  pub record At (t : BootstrapState) (w : World H) : Type 0 where
    pub history : History origin t w.state_file
    pub file : w.state_file ≡ state_value t
    pub valid : IsValid t
    pub bound : t.state_root ≡ some root

  -- Nothing that leaves the file alone changes this.
  pub At-kept : (t : BootstrapState) (w v : World H) → v.state_file ≡ w.state_file → At t w → At t v
  At-kept t w v e a = record {
    history = subst (λ f. History origin t f) (sym e) a.history;
    file = e ∙ a.file;
    valid = a.valid;
    bound = a.bound;
  }

  is_bound : (t : BootstrapState) (w : World H) → At t w → t.state_root ≢ none
  is_bound t w a e = cc (a.bound, e)

  -- A transition of the durable state that the state's own rules accept succeeds.
  advance :
      {E : Error → World H → Type 0}
      → (t next : BootstrapState) (target : BootstrapPhase) (updates : Updates) (w : World H)
      → At t w
      → IsValid next
      → next.state_root ≡ t.state_root
      → transition_locked (state_value t) t t.phase target updates ≡ ok (next, state_value next)
      → Leaves
          (λ u v. At u v × (u ≡ next) × (v.host ≡ w.host))
          E
          (transition t t.phase target updates w)
  unfolding transition saved
  advance t next target updates w a valid same h =
      let held : transition_locked w.state_file t t.phase target updates
          ≡ ok (next, state_value next) =
        subst (λ f. transition_locked f t t.phase target updates ≡ ok (next, state_value next))
          (sym a.file) h in
      rw held (
        Leaves-ok next (record w { state_file = state_value next })
          (
            record {
              history = step a.history t.phase target updates held;
              file = refl;
              valid = valid;
              bound = same ∙ a.bound;
            },
            refl,
            refl,
          ))

  pub transition-Move :
      {E : Error → World H → Type 0}
      → (t : BootstrapState) (target : BootstrapPhase) (w : World H) → At t w
      → Move t.phase target
      → Leaves
          (λ u v. At u v × (u ≡ record t { phase = target }) × (v.host ≡ w.host))
          E
          (transition t t.phase target [] w)
  transition-Move t target w a move =
      advance t (record t { phase = target }) target [] w a (moved-IsValid t target a.valid move)
        refl (transition_locked-Move t target a.valid move (is_bound t w a))

  pub transition-marked :
      {E : Error → World H → Type 0}
      → (t : BootstrapState) (target : BootstrapPhase) (boundary : Text) (w : World H) → At t w
      → boundary ≢ []
      → contains t.completed_boundaries boundary ≡ false
      → Move t.phase target ⊎ ((target ≡ t.phase) × (¬ IsFinal t.phase))
      → Leaves
          (λ u v. At u v × (u ≡ marked t target boundary) × (v.host ≡ w.host))
          E
          (transition t t.phase target (boundary_updates t boundary) w)
  transition-marked t target boundary w a nonempty new legal =
      advance t (marked t target boundary) target (boundary_updates t boundary) w a
        (marked-IsValid t target boundary a.valid nonempty new legal) refl
        (transition_locked-marked t target boundary a.valid nonempty new legal (is_bound t w a))

  saved-Leaves :
      {P : BootstrapState → World H → Type 0} {E : Error → World H → Type 0}
      → (r : Result (BootstrapState × Json)) (w : World H)
      → ((next : BootstrapState) (written : Json)
          → r ≡ ok (next, written)
          → P next (record w { state_file = written }))
      → ((e : Error) → E e w)
      → Leaves P E (saved r w)
  unfolding saved
  saved-Leaves (err e) w p x = Leaves-err e w (x e)
  saved-Leaves (ok (next, written)) w p x =
      Leaves-ok next (record w { state_file = written }) (p next written refl)

  -- Any other transition succeeds and leaves its result in the file, or raises and changes nothing.
  pub transition-keeps :
      (t : BootstrapState) (expected target : BootstrapPhase) (updates : Updates) (w : World H)
      → At t w
      → Leaves
          (λ u v. At u v × IsTransition t target u v.state_file × (v.host ≡ w.host))
          (λ e v. At t v)
          (transition t expected target updates w)
  unfolding transition
  transition-keeps t expected target updates w a =
      saved-Leaves (transition_locked w.state_file t expected target updates) w
        (λ next written h.
          let last =
            transition_locked-IsTransition w.state_file t expected target updates next written h in
          (
            record {
              history = step a.history expected target updates h;
              file = last.written;
              valid = last.valid;
              bound = last.continues.state_root ∙ a.bound;
            },
            last,
            refl,
          ))
        (λ e. a)
