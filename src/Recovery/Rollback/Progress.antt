-- ===== src/Recovery/Rollback/Progress.antt =====
-- The second loop of `_rollback_under_lease` (forza_bootstrap/coordinator.py): what each step leaves.
use forza_motorsport_linux.Base.{
  ◌≡◌, sym, ap, ◌∙◌, subst, Text, codes, true, false, inl, inr, List, [], ◌∷◌, Error,
  contains-append, contains-append_other, contains-last, contains, All, All-map, nat_eq, list_eq,
  Bool-cases,
}
use forza_motorsport_linux.Base.Actions.{
  Leaves, Leaves-ok, Leaves-bind, Leaves-map, Leaves-handle, ◌>>◌,
}
use forza_motorsport_linux.State.{BootstrapPhase, BootstrapState, rolling_back, phase_eq}
use forza_motorsport_linux.State.Transition.Boundaries.{marked}
use forza_motorsport_linux.Recovery.{
  World, RecoveryOperations, RollbackStep, transition, rollback_checkpoint,
}
use forza_motorsport_linux.Recovery.Tracks.{At, At-kept, transition-marked}
use forza_motorsport_linux.State.Transition.{boundary_updates}
use forza_motorsport_linux.Recovery.Rollback.Steps.{Acted, Leaves-outcome, settle-Settled}
use forza_motorsport_linux.Recovery.Rollback.{settle, roll_back_step, roll_back_steps}
use forza_motorsport_linux.Recovery.Rollback.Kept.{
  IsKept, IsName, ending, Stopped, answer, uncaught, reverse_onto, unfinished,
}

module _ {H : Type 0} (operations : RecoveryOperations H) (root : Text) (origin : BootstrapState)
    (Known : RollbackStep H → Type 0) (Holds : RollbackStep H → BootstrapState → H → Type 0)
    (law : IsKept operations Known Holds) where
  abbrev pub Done : BootstrapState → H → RollbackStep H → Type 0
  Done t h i = Known i × Holds i t h × (contains t.completed_boundaries (codes i.boundary) ≡ true)

  -- The rollback has got as far as these steps.
  pub record Progress (done : List (RollbackStep H)) (t : BootstrapState) (w : World H)
      : Type 0 where
    pub at : At root origin t w
    pub phase : t.phase ≡ rolling_back
    pub fresh : contains t.completed_boundaries ending ≡ false
    pub done_steps : All (Done t w.host) done

  Acted-At :
      (step : RollbackStep H) (t : BootstrapState) (w v : World H)
      → Known step
      → Acted step t w v
      → At root origin t w
      → At root origin t v
  Acted-At step t w v k (inl same) a = At-kept root origin t w v (ap (λ x. x.state_file) same) a
  Acted-At step t w v k (inr moved) a =
      At-kept root origin t w v (ap (λ x. x.state_file) moved ∙ law.confined.acts step t w k) a

  Done-Acted :
      (step : RollbackStep H) (done : List (RollbackStep H)) (t : BootstrapState) (w v : World H)
      → Known step
      → Acted step t w v
      → All (Done t w.host) done
      → All (Done t v.host) done
  Done-Acted step done t w v k (inl same) =
      All-map (Done t w.host) (Done t v.host) done λ i (known, holds, has).
        (known, subst (λ (x : World H). Holds i t x.host) (sym same) holds, has)
  Done-Acted step done t w v k (inr moved) =
      All-map (Done t w.host) (Done t v.host) done λ i (known, holds, has). (
        known,
        subst (λ (x : World H). Holds i t x.host) (sym moved) (law.acted i step t w known k holds),
        has,
      )

  pub Done-marked :
      (done : List (RollbackStep H)) (t : BootstrapState) (target : BootstrapPhase)
      (boundary : Text) (h : H)
      → All (Done t h) done
      → All (Done (marked t target boundary) h) done
  Done-marked done t target boundary h =
      All-map (Done t h) (Done (marked t target boundary) h) done λ i (known, holds, has). (
        known,
        law.kept i t target _ h known holds,
        contains-append t.completed_boundaries _ (codes i.boundary) has,
      )

  -- The checkpoint of a rollback that is rolling back succeeds.
  pub checkpoint-Progress :
      {E : Error → World H → Type 0} (step : RollbackStep H) (done : List (RollbackStep H))
      (t : BootstrapState) (w : World H)
      → IsName step
      → Known step
      → Holds step t w.host
      → Progress done t w
      → Leaves (Progress (step ∷ done)) E (rollback_checkpoint t step.boundary w)
  unfolding rollback_checkpoint
  checkpoint-Progress {E = E} step done t w name known holds p =
      elim (Bool-cases (contains t.completed_boundaries (codes step.boundary))) [
        | inl has ↦ rw has (
            Leaves-ok t w (record {
              at = p.at;
              phase = p.phase;
              fresh = p.fresh;
              done_steps = ((known, holds, has), p.done_steps);
            }))
        | inr fresh ↦ rw fresh (
            subst
              (λ q.
                Leaves (Progress (step ∷ done)) E
                  (transition t q rolling_back (boundary_updates t (codes step.boundary)) w))
              p.phase
              (Leaves-map _
                (transition-marked root origin t rolling_back (codes step.boundary) w p.at name.0
                  fresh (inr (sym p.phase, unfinished t p.phase)))
                (λ u v (b, same, beside). record {
                  at = b;
                  phase = ap (λ x. x.phase) same;
                  fresh =
                      subst (λ x. contains x.completed_boundaries ending ≡ false) (sym same)
                        (contains-append_other t.completed_boundaries ending (codes step.boundary)
                          p.fresh name.1);
                  done_steps =
                      let now : All (Done (marked t rolling_back (codes step.boundary)) w.host)
                          (step ∷ done) =
                        (
                          (
                            known,
                            law.kept step t rolling_back _ w.host known holds,
                            contains-last t.completed_boundaries (codes step.boundary),
                          ),
                          Done-marked done t rolling_back (codes step.boundary) w.host p.done_steps,
                        ) in
                      subst (λ x. All (Done x v.host) (step ∷ done)) (sym same)
                        (subst
                          (λ h.
                            All (Done (marked t rolling_back (codes step.boundary)) h)
                              (step ∷ done))
                          (sym beside) now);
                })
                (λ e v n. absurd n)))
      ]

  pub settle-Progress :
      (step : RollbackStep H) (done : List (RollbackStep H)) (t : BootstrapState) (w : World H)
      → Known step
      → Progress done t w
      → Leaves
          (λ u v. Holds step t v.host × Progress done t v)
          (λ e v. At root origin t v)
          (settle step t w)
  settle-Progress step done t w known p =
      Leaves-map _ (settle-Settled step t w)
        (λ u v (acted, settled). (
          law.gained step t v.host known settled,
          record {
            at = Acted-At step t w v known acted p.at;
            phase = p.phase;
            fresh = p.fresh;
            done_steps = Done-Acted step done t w v known acted p.done_steps;
          },
        ))
        (λ e v acted. Acted-At step t w v known acted p.at)

  tried :
      (step : RollbackStep H) (done : List (RollbackStep H)) (t : BootstrapState) (w : World H)
      → IsName step
      → Known step
      → Progress done t w
      → Leaves
          (Progress (step ∷ done))
          (λ e v. At root origin t v)
          ((settle step t >> rollback_checkpoint t step.boundary) w)
  tried step done t w name known p =
      Leaves-bind _ _ (settle-Progress step done t w known p)
        λ u v (holds, q). checkpoint-Progress step done t v name known holds q

  pub noted_Progress :
      (done : List (RollbackStep H)) (t : BootstrapState) (text : Text) (w v : World H)
      → v ≡ (operations.boundary text w).1
      → Progress done t w
      → Progress done t v
  noted_Progress done t text w v e p = record {
    at = At-kept root origin t w v (ap (λ x. x.state_file) e ∙ law.confined.notes text w) p.at;
    phase = p.phase;
    fresh = p.fresh;
    done_steps =
        All-map (Done t w.host) (Done t v.host) done
          (λ i (known, holds, has). (
            known,
            subst (λ (x : World H). Holds i t x.host) (sym e) (law.noted i text t w known holds),
            has,
          ))
          p.done_steps;
  }

  -- A step either adds itself to those that are done, or stops the rollback.
  roll_back_step-Progress :
      (step : RollbackStep H) (done : List (RollbackStep H)) (t : BootstrapState) (w : World H)
      → IsName step
      → Known step
      → Progress done t w
      → Leaves
          (Progress (step ∷ done))
          (Stopped root origin)
          (roll_back_step operations root step t w)
  unfolding roll_back_step
  roll_back_step-Progress step done t w name known p =
      Leaves-handle _ _ _ (tried step done t w name known p)
        (λ u v q.
          Leaves-handle {P = λ x. Progress (step ∷ done) u} _ _ _
            (Leaves-map _ (Leaves-outcome (operations.boundary (codes step.boundary) v))
              (λ x y e. noted_Progress (step ∷ done) u (codes step.boundary) v y e q)
              (λ x y e. noted_Progress (step ∷ done) u (codes step.boundary) v y e q))
            (λ x y r. Leaves-ok u y r)
            (λ e y r. answer root origin u e y r.at (unfinished u r.phase))
            (λ e y unknown r. uncaught root origin e u y unknown r.at r.phase))
        (λ e v a. answer root origin t e v a (unfinished t p.phase))
        (λ e v unknown a. uncaught root origin e t v unknown a p.phase)

  -- The loop: it ends with all its steps done, or it stops.
  pub roll_back_steps-Progress :
      (steps done : List (RollbackStep H)) (t : BootstrapState) (w : World H)
      → All (λ i. IsName i × Known i) steps
      → Progress done t w
      → Leaves
          (Progress (reverse_onto steps done))
          (Stopped root origin)
          (roll_back_steps operations root steps t w)
  unfolding roll_back_steps reverse_onto
  roll_back_steps-Progress [] done t w k p = Leaves-ok t w p
  roll_back_steps-Progress (step ∷ steps) done t w k p =
      Leaves-bind _ _ (roll_back_step-Progress step done t w k.0.0 k.0.1 p)
        λ u v q. roll_back_steps-Progress steps (step ∷ done) u v k.1 q
