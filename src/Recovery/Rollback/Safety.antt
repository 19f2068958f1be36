-- ===== src/Recovery/Rollback/Safety.antt =====
-- The rollback of a durable transaction: what every call leaves, and what a successful one has undone
-- (forza_bootstrap/coordinator.py).
use forza_motorsport_linux.Base.{
  ◌≡◌, refl, Text, codes, false, inl, inr, Option, some, All, contains, Among, nat_eq, list_eq,
}
use forza_motorsport_linux.Base.Actions.{Action, Leaves}
use forza_motorsport_linux.State.{BootstrapState}
use forza_motorsport_linux.State.Value.{state_value}
use forza_motorsport_linux.State.Value.RoundTrip.{IsValid}
use forza_motorsport_linux.State.Transition.History.{start}
use forza_motorsport_linux.Recovery.{World, RecoveryOperations, RollbackStep, steps_of}
use forza_motorsport_linux.Recovery.Tracks.{At}
use forza_motorsport_linux.Recovery.Rollback.{rollback}
use forza_motorsport_linux.Recovery.Rollback.Steps.{Settled}
use forza_motorsport_linux.Recovery.Rollback.Kept.{IsKept, Confined}
use forza_motorsport_linux.Recovery.Rollback.Outcome.{
  Returned, Refused, IsConfinedLease, rollback-Returned,
}

-- A step of the rollback.
abbrev pub IsStep : {H : Type 0} → RecoveryOperations H → RollbackStep H → Type 0
IsStep operations step = Among (steps_of operations) step

module _ {H : Type 0} (root : Text) (s : BootstrapState) where
  pub durable :
      (w : World H)
      → IsValid s
      → s.state_root ≡ some root
      → w.state_file ≡ state_value s
      → At root s s w
  durable w valid bound file = record {
    history = start w.state_file file;
    file = file;
    valid = valid;
    bound = bound;
  }

module _ {H : Type 0} (operations : RecoveryOperations H) where
  pub steps_of-IsStep : All (IsStep operations) (steps_of operations)
  unfolding steps_of Among
  steps_of-IsStep =
      (inl refl, (inr (inl refl), (inr (inr (inl refl)), (inr (inr (inr (inl refl))), tt))))

  -- No more need be asked of the owners where nothing is said of the host.
  pub untracked :
      Confined operations (IsStep operations)
      → IsKept operations (IsStep operations) (λ step t h. Unit)
  untracked confined = record {
    gained = λ i t h k x. tt;
    kept = λ i t p b h k x. tt;
    acted = λ i j t w k l x. tt;
    noted = λ i text t w k x. tt;
    confined = confined;
  }

module _ {H : Type 0} (operations : RecoveryOperations H) (root : Text) (s : BootstrapState) where
  -- Whatever else the owners, the inspections, the lease and the callback do, if the lease, the owners that
  -- roll back and the callback leave the file of the state alone, and the file holds the state, which is
  -- valid, is bound to the root and has not recorded the end of a rollback: a rollback that returns leaves
  -- in the file what it gives, either the state itself, which was rolled back or was not confirmed, or
  -- ROLLED_BACK with the boundary of each step recorded. After an error the file holds the state
  -- itself, or one in a phase of recovery that a history leads to: RECOVERY_REQUIRED, if the error is a
  -- BootstrapError.
  pub rollback-Refused :
      (lease : Option (Action (World H) (Unit {0}))) (confirm : Text) (w : World H)
      → Confined operations (IsStep operations)
      → IsConfinedLease lease
      → IsValid s
      → s.state_root ≡ some root
      → w.state_file ≡ state_value s
      → contains s.completed_boundaries (codes "rolled-back") ≡ false
      → Leaves
          (Returned operations (λ step t h. Unit) root s confirm)
          (Refused root s)
          (rollback operations root lease s confirm w)
  rollback-Refused lease confirm w confined leased valid bound file fresh =
      rollback-Returned operations root s (IsStep operations) (λ step t h. Unit)
        (untracked operations confined) (steps_of-IsStep operations) fresh lease confirm w leased
        (durable root s w valid bound file)

  -- If, besides, neither what the rollback records nor what another owner or the callback does
  -- takes a settled step back, a rollback that has been carried out leaves a host on which the
  -- inspection of every owner finds nothing left to undo.
  pub rollback-Settled :
      (lease : Option (Action (World H) (Unit {0}))) (confirm : Text) (w : World H)
      → IsKept operations (IsStep operations) Settled
      → IsConfinedLease lease
      → IsValid s
      → s.state_root ≡ some root
      → w.state_file ≡ state_value s
      → contains s.completed_boundaries (codes "rolled-back") ≡ false
      → Leaves
          (Returned operations Settled root s confirm)
          (Refused root s)
          (rollback operations root lease s confirm w)
  rollback-Settled lease confirm w independent leased valid bound file fresh =
      rollback-Returned operations root s (IsStep operations) Settled independent
        (steps_of-IsStep operations) fresh lease confirm w leased
        (durable root s w valid bound file)
