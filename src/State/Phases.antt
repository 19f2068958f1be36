-- ===== src/State/Phases.antt =====
-- The phase graph of forza_bootstrap/state.py, described apart from the table of the code.
use forza_motorsport_linux.Base.{
  ℕ, zero, suc, ◌+◌, ◌<◌, ◌≤◌, ◌≡◌, ◌≢◌, refl, sym, ap, ◌∙◌, Eq, true, ◌⊎◌, inl, inr, ◌↔◌, [], ◌∷◌,
  arith, contains,
}
use forza_motorsport_linux.State.{
  BootstrapPhase, new, preparing, awaiting_steam_prefix, planned_finish, installing_finish,
  ready_to_attempt, accepted, rolling_back, rolled_back, recovery_required, phase_eq,
  allowed_transitions,
}

-- The place of a phase on the way to acceptance; the phases of recovery are not on it.
abbrev pub stage : BootstrapPhase → ℕ
stage new = 1
stage preparing = 2
stage awaiting_steam_prefix = 3
stage planned_finish = 4
stage installing_finish = 5
stage ready_to_attempt = 6
stage accepted = 7
stage _ = 0

abbrev pub IsFinal : BootstrapPhase → Type 0
IsFinal accepted = Unit
IsFinal rolled_back = Unit
IsFinal _ = ⊥

abbrev pub InRecovery : BootstrapPhase → Type 0
InRecovery rolling_back = Unit
InRecovery rolled_back = Unit
InRecovery recovery_required = Unit
InRecovery _ = ⊥

-- One move: a stage forward, the start of a rollback, its end, or the call for recovery.
pub data Move (p q : BootstrapPhase) : Type 0 where
  forward : 0 < stage p → stage q ≡ stage p + 1 → Move p q
  roll_back : ¬ IsFinal p → p ≢ rolling_back → q ≡ rolling_back → Move p q
  give_up : ¬ IsFinal p → p ≢ recovery_required → q ≡ recovery_required → Move p q
  finish_rollback : p ≡ rolling_back → q ≡ rolled_back → Move p q

member_of_three {ℓ} :
    {A : Type ℓ} ⦃e : Eq A⦄ (a b c x : A)
    → contains (a ∷ b ∷ c ∷ []) x ≡ true
    → (x ≡ a) ⊎ ((x ≡ b) ⊎ (x ≡ c))
member_of_three a b c x h = ground arith

onward-Move :
    (p f q : BootstrapPhase)
    → 0 < stage p
    → stage f ≡ stage p + 1
    → ¬ IsFinal p
    → p ≢ rolling_back
    → p ≢ recovery_required
    → contains (f ∷ rolling_back ∷ recovery_required ∷ []) q ≡ true
    → Move p q
onward-Move p f q on next open_phase calm calmer h =
    elim (member_of_three f rolling_back recovery_required q h) [
      | inl e ↦ forward on (ap stage e ∙ next)
      | inr (inl e) ↦ roll_back open_phase calm e
      | inr (inr e) ↦ give_up open_phase calmer e
    ]

-- The table of the code allows moves only.
pub allowed_transitions-Move :
    (p q : BootstrapPhase) → contains (allowed_transitions p) q ≡ true → Move p q
unfolding allowed_transitions
allowed_transitions-Move new q h =
    onward-Move new preparing q (omega arith) refl (λ x. x) (λ e. cc) (λ e. cc) h
allowed_transitions-Move preparing q h =
    onward-Move preparing awaiting_steam_prefix q (omega arith) refl (λ x. x) (λ e. cc) (λ e. cc) h
allowed_transitions-Move awaiting_steam_prefix q h =
    onward-Move awaiting_steam_prefix planned_finish q (omega arith) refl (λ x. x) (λ e. cc)
      (λ e. cc) h
allowed_transitions-Move planned_finish q h =
    onward-Move planned_finish installing_finish q (omega arith) refl (λ x. x) (λ e. cc) (λ e. cc) h
allowed_transitions-Move installing_finish q h =
    onward-Move installing_finish ready_to_attempt q (omega arith) refl (λ x. x) (λ e. cc) (λ e. cc)
      h
allowed_transitions-Move ready_to_attempt q h =
    onward-Move ready_to_attempt accepted q (omega arith) refl (λ x. x) (λ e. cc) (λ e. cc) h
allowed_transitions-Move rolling_back q h =
    elim (member_of_three rolled_back recovery_required recovery_required q (ground arith)) [
      | inl e ↦ finish_rollback refl e
      | inr (inl e) ↦ give_up (λ x. x) (λ d. cc) e
      | inr (inr e) ↦ give_up (λ x. x) (λ d. cc) e
    ]
allowed_transitions-Move recovery_required q h = roll_back (λ x. x) (λ d. cc) (ground arith)
allowed_transitions-Move _ q h = cc

at_stage : ℕ → BootstrapPhase
at_stage (suc (suc zero)) = preparing
at_stage (suc (suc (suc zero))) = awaiting_steam_prefix
at_stage (suc (suc (suc (suc zero)))) = planned_finish
at_stage (suc (suc (suc (suc (suc zero))))) = installing_finish
at_stage (suc (suc (suc (suc (suc (suc zero)))))) = ready_to_attempt
at_stage (suc (suc (suc (suc (suc (suc (suc zero))))))) = accepted
at_stage _ = new

at_stage-stage : (q : BootstrapPhase) → 0 < stage q → at_stage (stage q) ≡ q
unfolding at_stage
at_stage-stage rolling_back h = elim h [ ]
at_stage-stage rolled_back h = elim h [ ]
at_stage-stage recovery_required h = elim h [ ]
at_stage-stage new h = refl
at_stage-stage preparing h = refl
at_stage-stage _ h = refl

next_stage : (p q : BootstrapPhase) → stage q ≡ stage p + 1 → q ≡ at_stage (stage p + 1)
next_stage p q h = sym (at_stage-stage q (omega arith)) ∙ ap at_stage h

allows_forward :
    (p : BootstrapPhase)
    → 0 < stage p
    → stage p < 7
    → contains (allowed_transitions p) (at_stage (stage p + 1)) ≡ true
unfolding allowed_transitions at_stage phase_eq
allows_forward new h k = refl
allows_forward rolling_back h k = elim h [ ]
allows_forward rolled_back h k = elim h [ ]
allows_forward recovery_required h k = elim h [ ]
allows_forward accepted h k = absurd (omega arith)
allows_forward _ h k = refl

allows_roll_back :
    (p : BootstrapPhase)
    → ¬ IsFinal p
    → p ≢ rolling_back
    → contains (allowed_transitions p) rolling_back ≡ true
unfolding allowed_transitions phase_eq
allows_roll_back accepted h n = absurd (h tt)
allows_roll_back rolled_back h n = absurd (h tt)
allows_roll_back rolling_back h n = absurd (n refl)
allows_roll_back _ h n = refl

allows_give_up :
    (p : BootstrapPhase)
    → ¬ IsFinal p
    → p ≢ recovery_required
    → contains (allowed_transitions p) recovery_required ≡ true
unfolding allowed_transitions phase_eq
allows_give_up accepted h n = absurd (h tt)
allows_give_up rolled_back h n = absurd (h tt)
allows_give_up recovery_required h n = absurd (n refl)
allows_give_up _ h n = refl

pub stage-le : (p : BootstrapPhase) → stage p ≤ 7
stage-le new = omega arith
stage-le _ = omega arith

-- The table of the code allows every move.
pub Move-allowed_transitions :
    (p q : BootstrapPhase) → Move p q → contains (allowed_transitions p) q ≡ true
Move-allowed_transitions p q (forward on next) =
    rw (next_stage p q next) (allows_forward p on (omega (arith, stage-le p, stage-le q)))
Move-allowed_transitions p q (roll_back o n e) = rw e (allows_roll_back p o n)
Move-allowed_transitions p q (give_up o n e) = rw e (allows_give_up p o n)
Move-allowed_transitions p q (finish_rollback d e) =
    rw (d, e) (unfold allowed_transitions phase_eq in refl)

-- The phases that the code may enter from a phase are exactly those that a move leads to.
pub allowed_transitions-iff-Move :
    (p q : BootstrapPhase) → (contains (allowed_transitions p) q ≡ true) ↔ Move p q
allowed_transitions-iff-Move p q = (allowed_transitions-Move p q, Move-allowed_transitions p q)
