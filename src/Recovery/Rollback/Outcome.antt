-- ===== src/Recovery/Rollback/Outcome.antt =====
-- What `rollback` leaves, whatever the owners do (forza_bootstrap/coordinator.py).
use forza_motorsport_linux.Base.{
  ◌≡◌, ◌≢◌, refl, sym, ap, ◌∙◌, subst, Text, codes, true, false, ◌⊎◌, inl, inr, Option, none, some,
  [], Error, IsBootstrapError, arith, raise_if, contains, All, All-map, ◌==◌, ==_iff, nat_eq,
  list_eq, Bool-cases,
}
use forza_motorsport_linux.Base.Actions.{
  Action, Leaves, Leaves-ok, Leaves-err, Leaves-bind, Leaves-map,
}
use forza_motorsport_linux.State.{
  BootstrapPhase, BootstrapState, accepted, rolling_back, rolled_back, recovery_required, phase_eq,
}
use forza_motorsport_linux.State.Phases.{finish_rollback, InRecovery, IsFinal}
use forza_motorsport_linux.State.Transition.{boundary_updates}
use forza_motorsport_linux.State.Transition.Boundaries.{marked}
use forza_motorsport_linux.Recovery.{
  World, RecoveryOperations, status_eq, RollbackStep, steps_of, transition, is_absolute,
}
use forza_motorsport_linux.Recovery.Tracks.{At, At-kept, transition-marked}
use forza_motorsport_linux.Recovery.Required.{
  durable_recovery_state-At, durable_recovery_state-relative,
}
use forza_motorsport_linux.Recovery.Rollback.{
  is_accepted, nothing_found, confirmed_rollback, rollback_under_lease, under_lease, rollback,
}
use forza_motorsport_linux.Recovery.Rollback.Steps.{Leaves-outcome}
use forza_motorsport_linux.Recovery.Rollback.Begin.{lift-Same, preflight-Same, begin_rollback-Begun}
use forza_motorsport_linux.Recovery.Rollback.Kept.{
  IsKept, IsName, ending, Stopped, reverse_onto, All-reverse_onto,
}
use forza_motorsport_linux.Recovery.Rollback.Progress.{
  Done-marked, Done, Progress, roll_back_steps-Progress,
}

-- An error of a rollback from `s`: nothing is changed that the file tells, or the transaction is in
-- recovery, and RECOVERY_REQUIRED if the error is one that the coordinator handles.
pub record Refused {H : Type 0} (root : Text) (s : BootstrapState) (e : Error) (w : World H)
    : Type 0 where
  pub state : BootstrapState
  pub at : At root s state w
  pub kind :
      (state ≡ s)
      ⊎ (InRecovery state.phase × ((¬ IsBootstrapError e) ⊎ (state.phase ≡ recovery_required)))

module _ {H : Type 0} (operations : RecoveryOperations H)
    (Holds : RollbackStep H → BootstrapState → H → Type 0) where
  -- What the result tells of a step.
  abbrev pub Recorded : BootstrapState → H → RollbackStep H → Type 0
  Recorded u h i = Holds i u h × (contains u.completed_boundaries (codes i.boundary) ≡ true)

  -- The result of a rollback that has been carried out.
  abbrev pub IsRolledBack : BootstrapState → H → Type 0
  IsRolledBack u h = (u.phase ≡ rolled_back) × All (Recorded u h) (steps_of operations)

  -- The result of a rollback from `s`.
  pub record Returned (root : Text) (s : BootstrapState) (confirm : Text) (u : BootstrapState)
      (w : World H) : Type 0 where
    pub at : At root s u w
    pub kind :
        ((u ≡ s) × ((s.phase ≡ rolled_back) ⊎ (confirm ≢ codes "ROLLBACK"))) ⊎ IsRolledBack u w.host

-- Taking the launcher's lease leaves the file of the state alone.
abbrev pub IsConfinedLease : {H : Type 0} → Option (Action (World H) (Unit {0})) → Type 0
IsConfinedLease none = Unit
IsConfinedLease (some acquire) = (w : _) → (acquire w).1.state_file ≡ w.state_file

is_open : (p : BootstrapPhase) → (p == accepted) ≡ false → (p == rolled_back) ≡ false → ¬ IsFinal p
unfolding phase_eq
is_open accepted h k f = cc
is_open rolled_back h k f = cc
is_open _ h k f = elim f [ ]

is_unasked : (confirm : Text) → (confirm == codes "ROLLBACK") ≡ false → confirm ≢ codes "ROLLBACK"
is_unasked confirm h e = ground (arith, h, (==_iff confirm (codes "ROLLBACK")).1 e)

module _ {H : Type 0} (operations : RecoveryOperations H) (root : Text) (s : BootstrapState)
    (Known : RollbackStep H → Type 0) (Holds : RollbackStep H → BootstrapState → H → Type 0)
    (law : IsKept operations Known Holds) (known : All Known (steps_of operations))
    (fresh : contains s.completed_boundaries ending ≡ false) where
  pub steps_of-IsName : All (λ i. IsName i × Known i) (steps_of operations)
  unfolding steps_of
  steps_of-IsName = (
    (((λ e. cc), (λ e. cc)), known.0),
    (
      (((λ e. cc), (λ e. cc)), known.1.0),
      ((((λ e. cc), (λ e. cc)), known.1.1.0), ((((λ e. cc), (λ e. cc)), known.1.1.1.0), tt)),
    ),
  )

  Stopped-Refused : (e : Error) (w : World H) → Stopped root s e w → Refused root s e w
  Stopped-Refused e w x = record { state = x.state; at = x.at; kind = inr (x.phase, x.answered) }

  unchanged-Refused : (e : Error) (w : World H) → At root s s w → Refused root s e w
  unchanged-Refused e w a = record { state = s; at = a; kind = inl refl }

  kept-At : (w v : World H) → v.state_file ≡ w.state_file → At root s s w → At root s s v
  kept-At w v e a = At-kept root s s w v e a

  abbrev AtEnd : BootstrapState → H → RollbackStep H → Type 0
  AtEnd = Done operations root s Known Holds law

  Done-Recorded :
      (t : BootstrapState) (w : World H)
      → All (AtEnd t w.host) (reverse_onto (steps_of operations) [])
      → All (Recorded operations Holds (marked t rolled_back ending) w.host) (steps_of operations)
  Done-Recorded t w h =
      let m : BootstrapState = marked t rolled_back ending in
      All-map (AtEnd m w.host) (Recorded operations Holds m w.host) (steps_of operations)
        (λ i (_, holds, has). (holds, has))
        (All-reverse_onto (AtEnd m w.host) (steps_of operations) [] (
          Done-marked operations root s Known Holds law (reverse_onto (steps_of operations) []) t
            rolled_back ending w.host h)).0

  pub ended :
      {E : Error → World H → Type 0} (t : BootstrapState) (w : World H)
      → Progress operations root s Known Holds law (reverse_onto (steps_of operations) []) t w
      → Leaves
          (Returned operations Holds root s (codes "ROLLBACK"))
          E
          (transition t rolling_back rolled_back (boundary_updates t ending) w)
  ended {E = E} t w p =
      subst
        (λ q.
          Leaves (Returned operations Holds root s (codes "ROLLBACK")) E
            (transition t q rolled_back (boundary_updates t ending) w))
        p.phase
        (Leaves-map _
          (transition-marked root s t rolled_back ending w p.at (λ e. cc) p.fresh
            (inl (finish_rollback p.phase refl)))
          (λ u v (b, same, beside). record {
            at = b;
            kind = inr (
              ap (λ x. x.phase) same,
              subst (λ x. All (Recorded operations Holds x v.host) (steps_of operations)) (sym same)
                  (subst
                    (λ h.
                      All (Recorded operations Holds (marked t rolled_back ending) h)
                        (steps_of operations))
                    (sym beside) (Done-Recorded t w p.done_steps)),
            );
          })
          (λ e v n. absurd n))

  confirmed_rollback-Returned :
      (w : World H)
      → At root s s w
      → ¬ IsFinal s.phase
      → Leaves
          (Returned operations Holds root s (codes "ROLLBACK"))
          (Refused root s)
          (confirmed_rollback operations root s w)
  unfolding confirmed_rollback
  confirmed_rollback-Returned w a open_phase =
      Leaves-bind _ _
        (Leaves-map _ (preflight-Same (steps_of operations) s nothing_found w)
          (λ f v same. kept-At w v (ap (λ x. x.state_file) same) a)
          (λ e v same. unchanged-Refused e v (kept-At w v (ap (λ x. x.state_file) same) a)))
        λ found v b.
          Leaves-bind _ _
            (Leaves-map _
              (lift-Same (raise_if (is_accepted "rollback-runtime" found.statuses) _) v v refl)
              (λ u x same. kept-At v x (ap (λ y. y.state_file) same) b)
              (λ e x same. unchanged-Refused e x (kept-At v x (ap (λ y. y.state_file) same) b)))
            λ u x c.
              Leaves-bind _ _
                (Leaves-map _
                  (begin_rollback-Begun operations root s Known Holds law found.errors s x c
                    open_phase fresh)
                  (λ t y p. p) Stopped-Refused)
                λ t y p.
                  Leaves-bind _ _
                    (Leaves-map _
                      (roll_back_steps-Progress operations root s Known Holds law
                        (steps_of operations) [] t y steps_of-IsName p)
                      (λ t y p. p) Stopped-Refused)
                    λ done z q. ended done z q

  -- Under the lease.
  pub rollback_under_lease-Returned :
      (confirm : Text) (w : World H)
      → is_absolute root ≡ true
      → At root s s w
      → Leaves
          (Returned operations Holds root s confirm)
          (Refused root s)
          (rollback_under_lease operations root s confirm w)
  unfolding rollback_under_lease
  rollback_under_lease-Returned confirm w absolute a =
      rw (durable_recovery_state-At root s s w absolute a)
        (elim (Bool-cases (s.phase == accepted)) [
          | inl final ↦ rw final (Leaves-err _ w (unchanged-Refused _ w a))
          | inr open_end ↦ rw open_end (elim (Bool-cases (s.phase == rolled_back)) [
            | inl over ↦ rw over (
                Leaves-ok s w
                  (record { at = a; kind = inl (refl, inl ((==_iff s.phase rolled_back).0 over)) }))
            | inr begun ↦ rw begun (elim (Bool-cases (confirm == codes "ROLLBACK")) [
              | inl asked ↦ rw asked (
                  subst
                    (λ c.
                      Leaves (Returned operations Holds root s c) (Refused root s)
                        (confirmed_rollback operations root s w))
                    (sym ((==_iff confirm (codes "ROLLBACK")).0 asked))
                    (confirmed_rollback-Returned w a (is_open s.phase open_end begun)))
              | inr unasked ↦ rw unasked (
                  Leaves-ok s w
                    (record { at = a; kind = inl (refl, inr (is_unasked confirm unasked)) }))
            ])
          ])
        ])

  leased :
      (lease : Option (Action (World H) (Unit {0}))) (confirm : Text) (w : World H)
      → IsConfinedLease lease
      → is_absolute root ≡ true
      → At root s s w
      → Leaves
          (Returned operations Holds root s confirm)
          (Refused root s)
          (under_lease lease (rollback_under_lease operations root s confirm) w)
  unfolding under_lease
  leased none confirm w confined absolute a = rollback_under_lease-Returned confirm w absolute a
  leased (some acquire) confirm w confined absolute a =
      Leaves-bind _ _
        (Leaves-map _ (Leaves-outcome (acquire w))
          (λ u v same. kept-At w v (ap (λ x. x.state_file) same ∙ confined w) a)
          (λ e v same.
            unchanged-Refused e v (kept-At w v (ap (λ x. x.state_file) same ∙ confined w) a)))
        λ u v b. rollback_under_lease-Returned confirm v absolute b

  rollback-absolute :
      (lease : Option (Action (World H) (Unit {0}))) (confirm : Text) (w : World H)
      → IsConfinedLease lease
      → is_absolute root ≡ true
      → At root s s w
      → Leaves
          (Returned operations Holds root s confirm)
          (Refused root s)
          (rollback operations root lease s confirm w)
  unfolding rollback
  rollback-absolute lease confirm w confined absolute a =
      rw (durable_recovery_state-At root s s w absolute a)
        (elim (Bool-cases (s.phase == accepted)) [
          | inl final ↦ rw final (Leaves-err _ w (unchanged-Refused _ w a))
          | inr open_end ↦ rw open_end (elim (Bool-cases (s.phase == rolled_back)) [
            | inl over ↦ rw over (
                Leaves-ok s w
                  (record { at = a; kind = inl (refl, inl ((==_iff s.phase rolled_back).0 over)) }))
            | inr begun ↦ rw begun (elim (Bool-cases (confirm == codes "ROLLBACK")) [
              | inl asked ↦ rw asked (leased lease confirm w confined absolute a)
              | inr unasked ↦ rw unasked (
                  Leaves-ok s w
                    (record { at = a; kind = inl (refl, inr (is_unasked confirm unasked)) }))
            ])
          ])
        ])

  -- Of a root that is no absolute path, the rollback is refused.
  pub rollback-Returned :
      (lease : Option (Action (World H) (Unit {0}))) (confirm : Text) (w : World H)
      → IsConfinedLease lease
      → At root s s w
      → Leaves
          (Returned operations Holds root s confirm)
          (Refused root s)
          (rollback operations root lease s confirm w)
  unfolding rollback
  rollback-Returned lease confirm w confined a = elim (Bool-cases (is_absolute root)) [
    | inl absolute ↦ rollback-absolute lease confirm w confined absolute a
    | inr relative ↦
        rw (durable_recovery_state-relative root s w relative)
          (Leaves-err _ w (unchanged-Refused _ w a))
  ]
