-- ===== src/Recovery/Rollback/Completion.antt =====
-- That a rollback ends in ROLLED_BACK when its owners do what they are called for
-- (forza_bootstrap/coordinator.py).
use forza_motorsport_linux.Base.{
  ◌≡◌, ◌≢◌, refl, sym, ap, ◌∙◌, subst, Text, codes, true, false, ◌⊎◌, inl, inr, Option, none, some,
  List, [], ◌∷◌, Result, ok, err, contains, All, ◌==◌, ==_refl, nat_eq, list_eq,
}
use forza_motorsport_linux.Base.Actions.{
  Action, Never, Leaves, Leaves-ok, Leaves-bind, Leaves-map, Leaves-handle, Leaves-and-Never,
  try_then, pure, ◌>>◌,
}
use forza_motorsport_linux.State.{BootstrapPhase, BootstrapState, accepted, rolled_back, phase_eq}
use forza_motorsport_linux.State.Value.{state_value}
use forza_motorsport_linux.State.Value.RoundTrip.{IsValid}
use forza_motorsport_linux.Recovery.Required.{durable_recovery_state-At}
use forza_motorsport_linux.State.Phases.{IsFinal}
use forza_motorsport_linux.Recovery.{
  World, RecoveryOperations, status_eq, RollbackStep, steps_of, rollback_checkpoint,
  require_recovery, is_absolute,
}
use forza_motorsport_linux.Recovery.Tracks.{At, At-kept}
use forza_motorsport_linux.Recovery.Rollback.{
  nothing_found, settle, roll_back_step, roll_back_steps, confirmed_rollback, rollback_under_lease,
  under_lease, rollback,
}
use forza_motorsport_linux.Recovery.Rollback.Begin.{preflight-Same, begin_rollback-Started}
use forza_motorsport_linux.Recovery.Rollback.Kept.{Confined, IsName, ending, reverse_onto}
use forza_motorsport_linux.Recovery.Rollback.Progress.{
  Progress, settle-Progress, checkpoint-Progress, noted_Progress,
}
use forza_motorsport_linux.Recovery.Rollback.Works.{
  Works, plain-is_accepted, outcome-ok, settle-ok, preflight-ok, checkpoint-Ready,
  begin_rollback-Ready,
}
use forza_motorsport_linux.Recovery.Rollback.Outcome.{
  IsRolledBack, Returned, IsConfinedLease, steps_of-IsName, ended,
}
use forza_motorsport_linux.Recovery.Rollback.Safety.{IsStep, steps_of-IsStep, untracked, durable}

module _ {H : Type 0} (operations : RecoveryOperations H) (root : Text) (s : BootstrapState)
    (Ready : BootstrapState → H → Type 0) (works : Works operations Ready)
    (confined : Confined operations (IsStep operations)) where
  -- The rollback has got as far as these steps, and the owners are still ready.
  abbrev Reached : List (RollbackStep H) → BootstrapState → World H → Type 0
  Reached done t w =
      Progress operations root s (IsStep operations) (λ step t h. Unit)
        (untracked operations confined) done t w
      × Ready t w.host

  tried-ok :
      (step : RollbackStep H) (done : List (RollbackStep H)) (t : BootstrapState) (w : World H)
      → IsName step
      → IsStep operations step
      → Reached done t w
      → Leaves
          (Reached (step ∷ done))
          Never
          ((settle step t >> rollback_checkpoint t step.boundary) w)
  tried-ok step done t w name known (p, ready) =
      Leaves-bind _ _
        (Leaves-and-Never _
          (settle-Progress operations root s (IsStep operations) (λ step t h. Unit)
            (untracked operations confined) step done t w known p)
          (settle-ok operations Ready works step t w known ready))
        λ u v ((holds, q), still).
          Leaves-and-Never {E = Never} _
            (checkpoint-Progress operations root s (IsStep operations) (λ step t h. Unit)
              (untracked operations confined) step done t v name known holds q)
            (checkpoint-Ready operations Ready works root s step t v name q.at q.phase still)

  noted-ok :
      (step : RollbackStep H) (done : List (RollbackStep H)) (t : BootstrapState) (w : World H)
      → Reached done t w
      → Leaves (λ u v. Reached done t v) Never (operations.boundary (codes step.boundary) w)
  noted-ok step done t w (p, ready) =
      let name = codes step.boundary in
      let (raised_none, still) = works.notes name t w ready in
      Leaves-map _ (outcome-ok (operations.boundary name w) raised_none)
        (λ x y e. (
          noted_Progress operations root s (IsStep operations) (λ step t h. Unit)
              (untracked operations confined) done t name w y e p,
          subst (λ (v : World H). Ready t v.host) (sym e) still,
        ))
        (λ e y n. n)

  roll_back_step-ok :
      (step : RollbackStep H) (done : List (RollbackStep H)) (t : BootstrapState) (w : World H)
      → IsName step
      → IsStep operations step
      → Reached done t w
      → Leaves (Reached (step ∷ done)) Never (roll_back_step operations root step t w)
  unfolding roll_back_step
  roll_back_step-ok step done t w name known p =
      Leaves-handle {D = Never} (require_recovery root t)
        (λ next.
          try_then (operations.boundary (codes step.boundary)) (require_recovery root next)
            (λ _. pure next))
        _ (tried-ok step done t w name known p)
        (λ u v q.
          Leaves-handle {P = λ x. Reached (step ∷ done) u} {D = Never} (require_recovery root u)
            (λ x. pure u) _ (noted-ok step (step ∷ done) u v q) (λ x y r. Leaves-ok u y r)
            (λ e y n. absurd n) (λ e y unknown n. n))
        (λ e v n. absurd n) (λ e v unknown n. n)

  roll_back_steps-ok :
      (steps done : List (RollbackStep H)) (t : BootstrapState) (w : World H)
      → All (λ i. IsName i × IsStep operations i) steps
      → Reached done t w
      → Leaves (Reached (reverse_onto steps done)) Never (roll_back_steps operations root steps t w)
  unfolding roll_back_steps reverse_onto
  roll_back_steps-ok [] done t w k p = Leaves-ok t w p
  roll_back_steps-ok (step ∷ steps) done t w k p =
      Leaves-bind _ _ (roll_back_step-ok step done t w k.0.0 k.0.1 p)
        λ u v q. roll_back_steps-ok steps (step ∷ done) u v k.1 q

unaccepted : (p : BootstrapPhase) → ¬ IsFinal p → (p == accepted) ≡ false
unfolding phase_eq
unaccepted accepted n = absurd (n tt)
unaccepted _ n = refl

unfinished : (p : BootstrapPhase) → ¬ IsFinal p → (p == rolled_back) ≡ false
unfolding phase_eq
unfinished rolled_back n = absurd (n tt)
unfinished _ n = refl

-- The lease can be had, if there is one, and leaves the owners ready.
abbrev pub Grants : {H : Type 0} → Option (Action (World H) (Unit {0})) → (H → Type 0) → Type 0
Grants none Ready = Unit
Grants (some acquire) Ready =
    (w : _) → Ready w.host → ((acquire w).0 ≡ ok tt) × Ready (acquire w).1.host

result_of :
    {W A : Type 0} {P : A → W → Type 0} (o : Result A × W)
    → Leaves P Never o
    → (a : A) × (w : W) × (o ≡ (ok a, w)) × P a w
result_of (ok a, w) h = (a, w, refl, h.on_ok a w refl)
result_of (err e, w) h = absurd (h.on_err e w refl)

module _ {H : Type 0} (operations : RecoveryOperations H) (root : Text) (s : BootstrapState)
    (Ready : BootstrapState → H → Type 0) (works : Works operations Ready)
    (confined : Confined operations (IsStep operations)) (absolute : is_absolute root ≡ true)
    (open_phase : ¬ IsFinal s.phase) (fresh : contains s.completed_boundaries ending ≡ false) where
  abbrev Complete : BootstrapState → World H → Type 0
  Complete = Returned operations (λ step t h. Unit) root s (codes "ROLLBACK")

  confirmed_rollback-ok :
      (w : World H)
      → Ready s w.host
      → At root s s w
      → Leaves Complete Never (confirmed_rollback operations root s w)
  unfolding confirmed_rollback
  confirmed_rollback-ok w ready a =
      Leaves-bind _ _
        (Leaves-and-Never _ (preflight-Same (steps_of operations) s nothing_found w) (
          preflight-ok operations Ready works (steps_of operations) s nothing_found w
            (steps_of-IsStep operations) ready tt))
        λ found v (same, ((none_found, plain), still)).
          let b : At root s s v = At-kept root s s w v (ap (λ x. x.state_file) same) a in
          rw (none_found, plain-is_accepted "rollback-runtime" found.statuses plain)
            (Leaves-bind _ _
              (Leaves-and-Never {E = Never} _
                (begin_rollback-Started operations root s (IsStep operations) (λ step t h. Unit)
                  (untracked operations confined) s v b open_phase fresh)
                (begin_rollback-Ready operations Ready works root s s v b open_phase still))
              λ t y p.
                Leaves-bind _ _
                  (roll_back_steps-ok operations root s Ready works confined (steps_of operations)
                    [] t y
                    (steps_of-IsName operations root s (IsStep operations) (λ step t h. Unit)
                      (untracked operations confined) (steps_of-IsStep operations) fresh)
                    p)
                  λ u z q.
                    ended operations root s (IsStep operations) (λ step t h. Unit)
                      (untracked operations confined) (steps_of-IsStep operations) fresh u z q.0)

  rollback_under_lease-ok :
      (w : World H)
      → Ready s w.host
      → At root s s w
      → Leaves Complete Never (rollback_under_lease operations root s (codes "ROLLBACK") w)
  unfolding rollback_under_lease
  rollback_under_lease-ok w ready a =
      rw
        (
          durable_recovery_state-At root s s w absolute a,
          unaccepted s.phase open_phase,
          unfinished s.phase open_phase,
          ==_refl (codes "ROLLBACK"),
        )
        (confirmed_rollback-ok w ready a)

  leased-ok :
      (lease : Option (Action (World H) (Unit {0}))) (w : World H)
      → Grants lease (Ready s)
      → IsConfinedLease lease
      → Ready s w.host
      → At root s s w
      → Leaves Complete Never
          (under_lease lease (rollback_under_lease operations root s (codes "ROLLBACK")) w)
  unfolding under_lease
  leased-ok none w grants apart ready a = rollback_under_lease-ok w ready a
  leased-ok (some acquire) w grants apart ready a =
      let (granted, still) = grants w ready in
      Leaves-bind _ _ (outcome-ok (acquire w) granted) λ u v same.
        rollback_under_lease-ok v (subst (λ (x : World H). Ready s x.host) (sym same) still)
          (At-kept root s s w v (ap (λ x. x.state_file) same ∙ apart w) a)

  rollback-ok :
      (lease : Option (Action (World H) (Unit {0}))) (w : World H)
      → Grants lease (Ready s)
      → IsConfinedLease lease
      → Ready s w.host
      → At root s s w
      → Leaves Complete Never (rollback operations root lease s (codes "ROLLBACK") w)
  unfolding rollback
  rollback-ok lease w grants apart ready a =
      rw
        (
          durable_recovery_state-At root s s w absolute a,
          unaccepted s.phase open_phase,
          unfinished s.phase open_phase,
          ==_refl (codes "ROLLBACK"),
        )
        (leased-ok lease w grants apart ready a)

  -- If a condition on the state and the host holds at the start, from which the lease, if there is one,
  -- can be had, each owner's inspection reports a part that is pending, undone or not applicable, the
  -- undoing of a part that is pending raises nothing and leaves nothing to undo, and the callback raises
  -- nothing, and which all of these and what the rollback records of itself keep, and if the lease, the
  -- owners and the callback leave the file of the state alone, then a confirmed
  -- rollback of a durable, valid state under an absolute root that is not finished and has not recorded
  -- the end of a rollback returns: the state is ROLLED_BACK, has the boundary of each step and is in
  -- the file.
  pub rollback-IsRolledBack :
      (lease : Option (Action (World H) (Unit {0}))) (w : World H)
      → Grants lease (Ready s)
      → IsConfinedLease lease
      → Ready s w.host
      → IsValid s
      → s.state_root ≡ some root
      → w.state_file ≡ state_value s
      → (u : BootstrapState) × (v : World H) × (rollback operations root lease s
            (codes "ROLLBACK")
            w
          ≡ (ok u, v))
        × IsRolledBack operations (λ step t h. Unit) u v.host
        × (v.state_file ≡ state_value u)
  rollback-IsRolledBack lease w grants apart ready valid bound file =
      let (u, v, e, r) =
        result_of _ (rollback-ok lease w grants apart ready (durable root s w valid bound file)) in
      (u, v, e, rolled u v.host r.kind, r.at.file)
    where
      rolled :
          (u : BootstrapState) (h : H)
          → ((u ≡ s) × ((s.phase ≡ rolled_back) ⊎ (codes "ROLLBACK" ≢ codes "ROLLBACK")))
            ⊎ IsRolledBack operations (λ step t h. Unit) u h
          → IsRolledBack operations (λ step t h. Unit) u h
      rolled u h (inr done) = done
      rolled u h (inl (same, inl over)) = absurd (open_phase (subst IsFinal (sym over) tt))
      rolled u h (inl (same, inr unasked)) = absurd (unasked refl)
