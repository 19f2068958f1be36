-- ===== src/Recovery/Rollback/Kept.antt =====
-- What a rollback keeps of the steps that are done, and what an error leaves
-- (forza_bootstrap/coordinator.py).
use forza_motorsport_linux.Base.{
  ◌≡◌, ◌≢◌, sym, subst, Text, codes, ◌⊎◌, inl, inr, List, [], ◌∷◌, Error, IsBootstrapError, All,
  nat_eq, list_eq,
}
use forza_motorsport_linux.Base.Actions.{Leaves, Leaves-map}
use forza_motorsport_linux.State.{
  BootstrapPhase, BootstrapState, rolling_back, recovery_required, phase_eq,
}
use forza_motorsport_linux.State.Phases.{InRecovery, IsFinal}
use forza_motorsport_linux.Recovery.{World, RecoveryOperations, RollbackStep, require_recovery}
use forza_motorsport_linux.Recovery.Tracks.{At}
use forza_motorsport_linux.Recovery.Required.{require_recovery-Required}
use forza_motorsport_linux.Recovery.Rollback.Steps.{Settled, recorded}

-- The owners that roll back and the callback leave the file of the state alone.
pub record Confined {H : Type 0} (operations : RecoveryOperations H)
    (Known : RollbackStep H → Type 0) : Type 0 where
  pub acts :
      (i : RollbackStep H) (t : BootstrapState) (w : World H)
      → Known i
      → (i.act t w).1.state_file ≡ w.state_file
  pub notes : (text : Text) (w : World H) → (operations.boundary text w).1.state_file ≡ w.state_file

-- What is known of the steps that are done: of Holds, that a settled step gains it, and that neither
-- what the rollback records nor what the other owners do to the host takes it away.
pub record IsKept {H : Type 0} (operations : RecoveryOperations H) (Known : RollbackStep H → Type 0)
    (Holds : RollbackStep H → BootstrapState → H → Type 0) : Type 0 where
  pub gained :
      (i : RollbackStep H) (t : BootstrapState) (h : H) → Known i → Settled i t h → Holds i t h
  pub kept :
      (i : RollbackStep H) (t : BootstrapState) (phase : BootstrapPhase) (boundaries : List Text)
      (h : H)
      → Known i
      → Holds i t h
      → Holds i (recorded t phase boundaries) h
  pub acted :
      (i j : RollbackStep H) (t : BootstrapState) (w : World H)
      → Known i
      → Known j
      → Holds i t w.host
      → Holds i t (j.act t w).1.host
  pub noted :
      (i : RollbackStep H) (text : Text) (t : BootstrapState) (w : World H)
      → Known i
      → Holds i t w.host
      → Holds i t (operations.boundary text w).1.host
  pub confined : Confined operations Known

pub unfinished : (t : BootstrapState) → t.phase ≡ rolling_back → ¬ IsFinal t.phase
unfinished t e f = subst IsFinal e f

module _ {H : Type 0} (root : Text) (origin : BootstrapState) where
  -- What an error leaves: the transaction is in recovery, and the errors that the coordinator knows
  -- have been answered by RECOVERY_REQUIRED.
  pub record Stopped (e : Error) (w : World H) : Type 0 where
    pub state : BootstrapState
    pub at : At root origin state w
    pub phase : InRecovery state.phase
    pub answered : (¬ IsBootstrapError e) ⊎ (state.phase ≡ recovery_required)

  pub answer :
      {A : Type 0} {Q : A → World H → Type 0} (t : BootstrapState) (error : Error) (w : World H)
      → At root origin t w
      → ¬ IsFinal t.phase
      → Leaves {A = A} Q Stopped (require_recovery root t error w)
  answer t error w a open_phase =
      Leaves-map _ (require_recovery-Required root origin t error w a open_phase)
        (λ x v n. absurd n)
        λ d v (same, (u, b, required)). record {
          state = u;
          at = b;
          phase = subst InRecovery (sym required) tt;
          answered = inr required;
        }

  pub uncaught :
      (e : Error) (t : BootstrapState) (w : World H)
      → ¬ IsBootstrapError e
      → At root origin t w
      → t.phase ≡ rolling_back
      → Stopped e w
  uncaught e t w unknown a h = record {
    state = t;
    at = a;
    phase = subst InRecovery (sym h) tt;
    answered = inl unknown;
  }

-- What the end of the rollback records.
abbrev pub ending : Text
ending = codes "rolled-back"

-- The steps that are done, the last one first.
unfoldable pub reverse_onto {ℓ} : {A : Type ℓ} → List A → List A → List A
reverse_onto [] done = done
reverse_onto (step ∷ steps) done = reverse_onto steps (step ∷ done)

pub All-reverse_onto {ℓ κ} :
    {A : Type ℓ} (P : A → Type κ) (steps done : List A)
    → All P (reverse_onto steps done)
    → All P steps × All P done
unfolding reverse_onto
All-reverse_onto P [] done h = (tt, h)
All-reverse_onto P (step ∷ steps) done h =
    let (later, now) = All-reverse_onto P steps (step ∷ done) h in ((now.0, later), now.1)

-- A name that the rollback can record of a step.
abbrev pub IsName : {H : Type 0} → RollbackStep H → Type 0
IsName i = (codes i.boundary ≢ []) × (ending ≢ codes i.boundary)
