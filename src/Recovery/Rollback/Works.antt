-- ===== src/Recovery/Rollback/Works.antt =====
-- Owners that do what they are called for: from where they are ready, inspecting and undoing raise
-- nothing, and the rollback leaves them ready (forza_bootstrap/coordinator.py).
use forza_motorsport_linux.Base.{
  ◌≡◌, ◌≢◌, refl, sym, subst, ◌∙◌, String, Text, codes, Bool, true, false, not, inl, inr, List, [],
  ◌∷◌, ◌++◌, Result, ok, err, Error, arith, refuse_if, contains, All, All-append, Among, ◌==◌,
  ==_iff, nat_eq, list_eq, Bool-cases,
}
use forza_motorsport_linux.Base.Actions.{
  Never, Leaves, Leaves-ok, Leaves-bind, Leaves-map, lift, continue_with,
}
use forza_motorsport_linux.State.{
  BootstrapPhase, BootstrapState, rolling_back, recovery_required, phase_eq,
}
use forza_motorsport_linux.State.Phases.{roll_back, IsFinal}
use forza_motorsport_linux.State.Transition.{boundary_updates}
use forza_motorsport_linux.Recovery.{
  World, RecoveryOperations, RecoveryStatus, pending, undone, not_applicable, was_accepted, other,
  status_eq, RollbackStep, steps_of, transition, rollback_checkpoint,
}
use forza_motorsport_linux.Recovery.Tracks.{At, transition-Move, transition-marked}
use forza_motorsport_linux.Recovery.Rollback.{
  inspected, is_settled, is_accepted, Preflight, preflight_step, preflight, undo, settle,
  begin_rollback,
}
use forza_motorsport_linux.Recovery.Rollback.Steps.{Settled, recorded}
use forza_motorsport_linux.Recovery.Rollback.Kept.{IsName, unfinished}

-- A status that an owner reports of what it can roll back.
abbrev pub is_plain : RecoveryStatus → Bool
is_plain was_accepted = false
is_plain other = false
is_plain status = true

-- Owners that do what they are called for, from where `Ready` holds of the state and the host: each
-- inspection succeeds with such a status; an undoing, where its inspection says that it is pending,
-- succeeds and leaves nothing to undo; the callback raises nothing. None of these, nor what the
-- rollback records of itself, leads out of `Ready`.
pub record Works {H : Type 0} (operations : RecoveryOperations H)
    (Ready : BootstrapState → H → Type 0) : Type 0 where
  pub inspects :
      (step : RollbackStep H) (t : BootstrapState) (h : H)
      → Among (steps_of operations) step
      → Ready t h
      → (status : RecoveryStatus) × (step.inspect t h ≡ ok status) × (is_plain status ≡ true)
  pub undoes :
      (step : RollbackStep H) (t : BootstrapState) (w : World H)
      → Among (steps_of operations) step
      → Ready t w.host
      → step.inspect t w.host ≡ ok pending
      → ((step.act t w).0 ≡ ok tt)
        × Ready t (step.act t w).1.host
        × Settled step t (step.act t w).1.host
  pub notes :
      (name : Text) (t : BootstrapState) (w : World H)
      → Ready t w.host
      → ((operations.boundary name w).0 ≡ ok tt) × Ready t (operations.boundary name w).1.host
  pub records :
      (t : BootstrapState) (phase : BootstrapPhase) (boundaries : List Text) (h : H)
      → Ready t h
      → Ready (recorded t phase boundaries) h

abbrev pub ArePlain : List (String × RecoveryStatus) → Type 0
ArePlain statuses = All (λ found. is_plain found.1 ≡ true) statuses

plain_other : (status : RecoveryStatus) → is_plain status ≡ true → (status == other) ≡ false
unfolding status_eq
plain_other other h = cc
plain_other _ h = refl

plain_accepted :
    (status : RecoveryStatus) → is_plain status ≡ true → (status == was_accepted) ≡ false
unfolding status_eq
plain_accepted was_accepted h = cc
plain_accepted _ h = refl

pub plain-is_accepted :
    (name : String) (statuses : List (String × RecoveryStatus))
    → ArePlain statuses
    → is_accepted name statuses ≡ false
unfolding is_accepted
plain-is_accepted name [] h = refl
plain-is_accepted name ((found, status) ∷ statuses) h =
    ground (arith, plain_accepted status h.0, plain-is_accepted name statuses h.1)

module _ {H : Type 0} where
  pub outcome-ok : (o : Result (Unit {0}) × World H) → o.0 ≡ ok tt → Leaves (λ a v. v ≡ o.1) Never o
  outcome-ok (ok a, v) e = Leaves-ok a v refl
  outcome-ok (err d, v) e = cc

  Settled-refuse_if :
      (P : World H → Type 0) (step : RollbackStep H) (t : BootstrapState) (error : Error)
      (v : World H)
      → P v
      → Settled step t v.host
      → Leaves
          (λ u x. P x)
          Never
          (continue_with
            (λ status. lift (refuse_if (not (is_settled status)) error))
            (inspected step t v))
  Settled-refuse_if P step t error v p (status, e, q) = rw (e, q) (Leaves-ok tt v p)

module _ {H : Type 0} (operations : RecoveryOperations H) (Ready : BootstrapState → H → Type 0)
    (works : Works operations Ready) where
  abbrev IsReady : BootstrapState → World H → Type 0
  IsReady t w = Ready t w.host

  undo-ok :
      (step : RollbackStep H) (t : BootstrapState) (status : RecoveryStatus) (w : World H)
      → Among (steps_of operations) step
      → Ready t w.host
      → step.inspect t w.host ≡ ok status
      → is_plain status ≡ true
      → Leaves (λ u v. IsReady t v) Never (undo step t status w)
  unfolding undo
  undo-ok step t pending w mine ready e plain =
      let (did, still, left) = works.undoes step t w mine ready e in
      Leaves-bind _ _ (outcome-ok (step.act t w) did) λ u v same.
        Settled-refuse_if (IsReady t) step t _ v
          (subst (λ (x : World H). Ready t x.host) (sym same) still)
          (subst (λ (x : World H). Settled step t x.host) (sym same) left)
  undo-ok step t undone w mine ready e plain = Leaves-ok tt w ready
  undo-ok step t not_applicable w mine ready e plain = Leaves-ok tt w ready
  undo-ok step t _ w mine ready e plain = cc

  pub settle-ok :
      (step : RollbackStep H) (t : BootstrapState) (w : World H)
      → Among (steps_of operations) step
      → Ready t w.host
      → Leaves (λ u v. IsReady t v) Never (settle step t w)
  unfolding settle
  settle-ok step t w mine ready =
      let (status, e, plain) = works.inspects step t w.host mine ready in
      rw e (undo-ok step t status w mine ready e plain)

  preflight_step-ok :
      (step : RollbackStep H) (t : BootstrapState) (found : Preflight) (w : World H)
      → Among (steps_of operations) step
      → Ready t w.host
      → ArePlain found.statuses
      → Leaves
          (λ f v. ((f.errors ≡ found.errors) × ArePlain f.statuses) × IsReady t v)
          Never
          (preflight_step step t found w)
  unfolding preflight_step
  preflight_step-ok step t found w mine ready plains =
      let (status, e, plain) = works.inspects step t w.host mine ready in
      rw (e, plain_other status plain)
        (Leaves-ok (record found { statuses = found.statuses ++ ((step.boundary, status) ∷ []) }) w
          (
            (
              refl,
              All-append (λ x. is_plain x.1 ≡ true) found.statuses ((step.boundary, status) ∷ [])
                  plains (plain, tt),
            ),
            ready,
          ))

  pub preflight-ok :
      (steps : List (RollbackStep H)) (t : BootstrapState) (found : Preflight) (w : World H)
      → All (Among (steps_of operations)) steps
      → Ready t w.host
      → ArePlain found.statuses
      → Leaves
          (λ f v. ((f.errors ≡ found.errors) × ArePlain f.statuses) × IsReady t v)
          Never
          (preflight steps t found w)
  unfolding preflight
  preflight-ok [] t found w mine ready plains = Leaves-ok found w ((refl, plains), ready)
  preflight-ok (step ∷ steps) t found w mine ready plains =
      Leaves-bind _ _ (preflight_step-ok step t found w mine.0 ready plains)
        λ f v ((same, p), still).
          Leaves-map _ (preflight-ok steps t f v mine.1 still p)
            (λ g x ((again, q), r). ((again ∙ same, q), r)) (λ e x n. n)

  -- What a transition of the rollback records leaves the owners ready.
  moved-Ready :
      (t u : BootstrapState) (phase : BootstrapPhase) (boundaries : List Text) (w v : World H)
      → Ready t w.host
      → u ≡ recorded t phase boundaries
      → v.host ≡ w.host
      → Ready u v.host
  moved-Ready t u phase boundaries w v ready same beside =
      subst (λ x. Ready x v.host) (sym same)
        (subst (λ h. Ready (recorded t phase boundaries) h) (sym beside)
          (works.records t phase boundaries w.host ready))

  module _ (root : Text) (origin : BootstrapState) where
    pub checkpoint-Ready :
        {E : Error → World H → Type 0} (step : RollbackStep H) (t : BootstrapState) (w : World H)
        → IsName step
        → At root origin t w
        → t.phase ≡ rolling_back
        → Ready t w.host
        → Leaves (λ u v. IsReady u v) E (rollback_checkpoint t step.boundary w)
    unfolding rollback_checkpoint
    checkpoint-Ready {E = E} step t w name a now ready =
        elim (Bool-cases (contains t.completed_boundaries (codes step.boundary))) [
          | inl has ↦ rw has (Leaves-ok t w ready)
          | inr fresh ↦ rw fresh (
              subst
                (λ q.
                  Leaves (λ u v. IsReady u v) E
                    (transition t q rolling_back (boundary_updates t (codes step.boundary)) w))
                now
                (Leaves-map _
                  (transition-marked root origin t rolling_back (codes step.boundary) w a name.0
                    fresh (inr (sym now, unfinished t now)))
                  (λ u v (_, same, beside). moved-Ready t u rolling_back _ w v ready same beside)
                  (λ e v n. absurd n)))
        ]

    moved_on-Ready :
        {E : Error → World H → Type 0} (t : BootstrapState) (w : World H)
        → At root origin t w
        → ¬ IsFinal t.phase
        → Ready t w.host
        → t.phase ≢ rolling_back
        → Leaves (λ u v. IsReady u v) E (transition t t.phase rolling_back [] w)
    moved_on-Ready t w a open_phase ready elsewhere =
        Leaves-map _
          (transition-Move root origin t rolling_back w a (roll_back open_phase elsewhere refl))
          (λ u v (_, same, beside).
            moved-Ready t u rolling_back t.completed_boundaries w v ready same beside)
          (λ e v n. absurd n)

    pub begin_rollback-Ready :
        {E : Error → World H → Type 0} (t : BootstrapState) (w : World H)
        → At root origin t w
        → ¬ IsFinal t.phase
        → Ready t w.host
        → Leaves (λ u v. IsReady u v) E (begin_rollback root [] t w)
    unfolding begin_rollback
    begin_rollback-Ready {E = E} t w a open_phase ready =
        elim (Bool-cases (t.phase == recovery_required)) [
          | inl required ↦ rw required (
              subst (λ p. Leaves (λ u v. IsReady u v) E (transition t p rolling_back [] w))
                ((==_iff t.phase recovery_required).0 required)
                (moved_on-Ready t w a open_phase ready (λ e. ground (arith, required, e))))
          | inr calm ↦ rw calm (elim (Bool-cases (t.phase == rolling_back)) [
            | inl already ↦ rw already (Leaves-ok t w ready)
            | inr elsewhere ↦ rw elsewhere (
                moved_on-Ready t w a open_phase ready
                  (λ e. ground (arith, elsewhere, (==_iff t.phase rolling_back).1 e)))
          ])
        ]
