-- ===== src/Recovery/Rollback/Begin.antt =====
-- The inspections before a rollback, and its start (forza_bootstrap/coordinator.py).
use forza_motorsport_linux.Base.{
  ◌≡◌, ◌≢◌, refl, sym, ap, subst, Text, false, inl, inr, List, [], ◌∷◌, ◌++◌, Result, ok, err,
  Error, arith, raise_if, contains, ◌==◌, ==_iff, nat_eq, list_eq, Bool-cases,
}
use forza_motorsport_linux.Base.Actions.{
  Leaves, Leaves-ok, Leaves-err, Leaves-bind, Leaves-map, Leaves-handle, lift, pure,
}
use forza_motorsport_linux.State.{BootstrapState, rolling_back, recovery_required, phase_eq}
use forza_motorsport_linux.State.Phases.{roll_back, IsFinal}
use forza_motorsport_linux.Recovery.{
  World, RecoveryOperations, other, status_eq, RollbackStep, transition,
}
use forza_motorsport_linux.Recovery.Tracks.{At, transition-Move}
use forza_motorsport_linux.Recovery.Rollback.{Preflight, preflight_step, preflight, begin_rollback}
use forza_motorsport_linux.Recovery.Rollback.Kept.{IsKept, ending, Stopped, answer}
use forza_motorsport_linux.Recovery.Rollback.Progress.{Progress}

module _ {H : Type 0} where
  pub lift-Same :
      {A : Type 0} (r : Result A) (w v : World H)
      → v ≡ w
      → Leaves (λ a x. x ≡ w) (λ e x. x ≡ w) (lift r v)
  lift-Same (ok a) w v same = Leaves-ok a v same
  lift-Same (err e) w v same = Leaves-err e v same

  preflight_step-Same :
      (step : RollbackStep H) (t : BootstrapState) (found : Preflight) (w : World H)
      → Leaves (λ f v. v ≡ w) (λ e v. v ≡ w) (preflight_step step t found w)
  unfolding preflight_step
  preflight_step-Same step t found w =
      Leaves-handle {P = λ status v. v ≡ w} {D = λ e v. v ≡ w}
        (λ error. pure (record found { errors = found.errors ++ (error ∷ []) }))
        (λ status.
          pure (record found { statuses = found.statuses ++ ((step.boundary, status) ∷ []) }))
        _
        (Leaves-bind _ _ (lift-Same (step.inspect t w.host) w w refl) λ status v same.
          Leaves-bind _ _ (lift-Same (raise_if (status == other) _) w v same)
            λ u x again. Leaves-ok status x again)
        (λ status v same.
          Leaves-ok (record found { statuses = found.statuses ++ ((step.boundary, status) ∷ []) }) v
            same)
        (λ e v same. Leaves-ok (record found { errors = found.errors ++ (e ∷ []) }) v same)
        (λ e v unknown same. same)

  -- Before the rollback starts, nothing is changed.
  pub preflight-Same :
      (steps : List (RollbackStep H)) (t : BootstrapState) (found : Preflight) (w : World H)
      → Leaves (λ f v. v ≡ w) (λ e v. v ≡ w) (preflight steps t found w)
  unfolding preflight
  preflight-Same [] t found w = Leaves-ok found w refl
  preflight-Same (step ∷ steps) t found w =
      Leaves-bind _ _ (preflight_step-Same step t found w)
        λ f v same. rw same (preflight-Same steps t f w)

module _ {H : Type 0} (operations : RecoveryOperations H) (root : Text) (s : BootstrapState)
    (Known : RollbackStep H → Type 0) (Holds : RollbackStep H → BootstrapState → H → Type 0)
    (law : IsKept operations Known Holds) where
  abbrev pub Started : BootstrapState → World H → Type 0
  Started = Progress operations root s Known Holds law []

  moved_on :
      {E : Error → World H → Type 0} (t : BootstrapState) (w : World H)
      → At root s t w
      → ¬ IsFinal t.phase
      → contains t.completed_boundaries ending ≡ false
      → t.phase ≢ rolling_back
      → Leaves Started E (transition t t.phase rolling_back [] w)
  moved_on t w a open_phase fresh elsewhere =
      Leaves-map _ (transition-Move root s t rolling_back w a (roll_back open_phase elsewhere refl))
        (λ u v (b, same, beside). record {
          at = b;
          phase = ap (λ x. x.phase) same;
          fresh = subst (λ x. contains x.completed_boundaries ending ≡ false) (sym same) fresh;
          done_steps = tt;
        })
        (λ e v n. absurd n)

  pub begin_rollback-Started :
      {E : Error → World H → Type 0} (t : BootstrapState) (w : World H)
      → At root s t w
      → ¬ IsFinal t.phase
      → contains t.completed_boundaries ending ≡ false
      → Leaves Started E (begin_rollback root [] t w)
  unfolding begin_rollback
  begin_rollback-Started {E = E} t w a open_phase fresh =
      elim (Bool-cases (t.phase == recovery_required)) [
        | inl required ↦ rw required (
            subst (λ p. Leaves Started E (transition t p rolling_back [] w))
              ((==_iff t.phase recovery_required).0 required)
              (moved_on t w a open_phase fresh (λ e. ground (arith, required, e))))
        | inr calm ↦ rw calm (elim (Bool-cases (t.phase == rolling_back)) [
          | inl already ↦ rw already (
              Leaves-ok t w (record {
                at = a;
                phase = (==_iff t.phase rolling_back).0 already;
                fresh = fresh;
                done_steps = tt;
              }))
          | inr elsewhere ↦ rw elsewhere (
              moved_on t w a open_phase fresh
                (λ e. ground (arith, elsewhere, (==_iff t.phase rolling_back).1 e)))
        ])
      ]

  -- An unfinished transaction starts to roll back, or it is left in recovery.
  pub begin_rollback-Begun :
      (errors : List Error) (t : BootstrapState) (w : World H)
      → At root s t w
      → ¬ IsFinal t.phase
      → contains t.completed_boundaries ending ≡ false
      → Leaves Started (Stopped root s) (begin_rollback root errors t w)
  unfolding begin_rollback
  begin_rollback-Begun (error ∷ errors) t w a open_phase fresh =
      answer root s t error w a open_phase
  begin_rollback-Begun [] t w a open_phase fresh = begin_rollback-Started t w a open_phase fresh
