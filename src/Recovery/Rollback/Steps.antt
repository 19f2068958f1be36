-- ===== src/Recovery/Rollback/Steps.antt =====
-- What a step of `_rollback_under_lease` does to the host (forza_bootstrap/coordinator.py).
use forza_motorsport_linux.Base.{
  ◌≡◌, refl, Text, true, not, ◌⊎◌, inl, inr, List, Result, ok, err, Error, refuse_if, Result-cases,
  nat_eq, list_eq,
}
use forza_motorsport_linux.Base.Actions.{
  Action, Leaves, Leaves-ok, Leaves-err, Leaves-bind, Leaves-map, lift, continue_with,
}
use forza_motorsport_linux.State.{BootstrapPhase, BootstrapState, phase_eq}
use forza_motorsport_linux.Recovery.{
  World, RecoveryStatus, pending, undone, not_applicable, RollbackStep,
}
use forza_motorsport_linux.Recovery.Rollback.{is_settled, inspected, undo, settle}

-- The owner's inspection finds nothing left to undo.
abbrev pub Settled : {H : Type 0} → RollbackStep H → BootstrapState → H → Type 0
Settled step t h =
    (status : RecoveryStatus) × (step.inspect t h ≡ ok status) × (is_settled status ≡ true)

-- The same state, up to what a rollback records of itself.
abbrev pub recorded : BootstrapState → BootstrapPhase → List Text → BootstrapState
recorded t phase boundaries = record t { phase = phase; completed_boundaries = boundaries }

module _ {H : Type 0} where
  -- The world is the same, or the owner has acted.
  abbrev pub Acted : RollbackStep H → BootstrapState → World H → World H → Type 0
  Acted step t w v = (v ≡ w) ⊎ (v ≡ (step.act t w).1)

  pub Leaves-outcome :
      {A : Type 0} (o : Result A × World H) → Leaves (λ a v. v ≡ o.1) (λ e v. v ≡ o.1) o
  Leaves-outcome (ok a, v) = Leaves-ok a v refl
  Leaves-outcome (err e, v) = Leaves-err e v refl

  refuse_if-Settled :
      (step : RollbackStep H) (t : BootstrapState) (status : RecoveryStatus) (error : Error)
      (w v : World H)
      → Acted step t w v
      → step.inspect t v.host ≡ ok status
      → Leaves
          (λ (u : Unit {0}) x. Acted step t w x × Settled step t x.host)
          (λ e x. Acted step t w x)
          (lift (refuse_if (not (is_settled status)) error) v)
  refuse_if-Settled step t undone error w v b e = Leaves-ok tt v (b, (undone, e, refl))
  refuse_if-Settled step t not_applicable error w v b e =
      Leaves-ok tt v (b, (not_applicable, e, refl))
  refuse_if-Settled step t _ error w v b e = Leaves-err error v b

  inspected-Acted :
      {A : Type 0} {P : A → World H → Type 0} (rest : RecoveryStatus → Action (World H) A)
      (step : RollbackStep H) (t : BootstrapState) (w v : World H)
      → Acted step t w v
      → ((status : RecoveryStatus)
          → step.inspect t v.host ≡ ok status
          → Leaves P (λ e x. Acted step t w x) (rest status v))
      → Leaves P (λ e x. Acted step t w x) (continue_with rest (inspected step t v))
  inspected-Acted rest step t w v b k = elim (Result-cases (step.inspect t v.host)) [
    | inl (e, h) ↦ rw h (Leaves-err e v b)
    | inr (status, h) ↦ rw h (k status h)
  ]

  undo-Settled :
      (step : RollbackStep H) (t : BootstrapState) (status : RecoveryStatus) (w : World H)
      → step.inspect t w.host ≡ ok status
      → Leaves
          (λ (u : Unit {0}) v. Acted step t w v × Settled step t v.host)
          (λ e v. Acted step t w v)
          (undo step t status w)
  unfolding undo
  undo-Settled step t undone w e = Leaves-ok tt w (inl refl, (undone, e, refl))
  undo-Settled step t not_applicable w e = Leaves-ok tt w (inl refl, (not_applicable, e, refl))
  undo-Settled step t pending w e =
      Leaves-bind _ _
        (Leaves-map _ (Leaves-outcome (step.act t w)) (λ u v b. inr b) (λ e v b. inr b))
        λ u v b.
          inspected-Acted _ step t w v b
            λ status found. refuse_if-Settled step t status _ w v b found
  undo-Settled step t _ w e = Leaves-err _ w (inl refl)

  -- A step that is settled: its owner finds nothing left to undo. Nothing but the owner
  -- has changed the world.
  pub settle-Settled :
      (step : RollbackStep H) (t : BootstrapState) (w : World H)
      → Leaves
          (λ (u : Unit {0}) v. Acted step t w v × Settled step t v.host)
          (λ e v. Acted step t w v)
          (settle step t w)
  unfolding settle
  settle-Settled step t w =
      inspected-Acted (undo step t) step t w w (inl refl)
        λ status found. undo-Settled step t status w found
