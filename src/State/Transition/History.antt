-- ===== src/State/Transition/History.antt =====
-- Whole histories of one transaction: the states that successful calls of `transition_locked` of
-- forza_bootstrap/state.py lead to, each read from the file that the call before has written.
use forza_motorsport_linux.Base.{
  ℕ, ◌+◌, ◌≤◌, ◌<◌, ◌≡◌, refl, sym, ap, ◌∙◌, subst, ◌⊎◌, inl, inr, Option, none, some, [], ◌++◌, ok,
  arith,
}
use mathlib.Core.List.{append-nil, append_assoc}
use native.Mathlib.Decide.{ℕ_discrete}
use forza_motorsport_linux.Json.{Json}
use forza_motorsport_linux.State.{
  BootstrapPhase, BootstrapState, new, accepted, rolling_back, rolled_back, recovery_required,
}
use forza_motorsport_linux.State.Phases.{
  Move, forward, roll_back, give_up, finish_rollback, stage, stage-le, IsFinal, InRecovery,
}
use forza_motorsport_linux.State.Value.{state_from_value, state_value}
use forza_motorsport_linux.State.Value.RoundTrip.{IsValid, state_from_value-state_value}
use forza_motorsport_linux.State.Transition.{Updates, transition_locked}
use forza_motorsport_linux.State.Transition.Laws.{Continues, Frozen}
use forza_motorsport_linux.State.Transition.Durable.{transition_locked-IsTransition}

pub data History (s : BootstrapState) : BootstrapState → Json → Type 0 where
  start : (file : Json) → file ≡ state_value s → History s s file
  step :
      {t next : BootstrapState} {file written : Json}
      → History s t file
      → (expected target : BootstrapPhase) (updates : Updates)
      → transition_locked file t expected target updates ≡ ok (next, written)
      → History s next written

Frozen-trans {ℓ} : {A : Type ℓ} (a b c : Option A) → Frozen a b → Frozen b c → Frozen a c
Frozen-trans none b c f g = tt
Frozen-trans (some x) b c f g = subst (λ o. Frozen o c) f g

Frozen-refl {ℓ} : {A : Type ℓ} (a : Option A) → Frozen a a
Frozen-refl none = tt
Frozen-refl (some x) = refl

Continues-refl : (s : BootstrapState) → Continues s s
Continues-refl s = record {
  version = refl;
  transaction_id = refl;
  manifest_sha256 = refl;
  state_root = refl;
  boundaries = ([], sym (append-nil s.completed_boundaries));
  child = Frozen-refl s.child_runtime_transaction;
  backup = Frozen-refl s.patch_backup_manifest;
  disposition = Frozen-refl s.compatibility_tool_disposition;
  finish = Frozen-refl s.finish_plan_sha256;
}

Continues-trans : (s t u : BootstrapState) → Continues s t → Continues t u → Continues s u
Continues-trans s t u c d = record {
  version = d.version ∙ c.version;
  transaction_id = d.transaction_id ∙ c.transaction_id;
  manifest_sha256 = d.manifest_sha256 ∙ c.manifest_sha256;
  state_root = d.state_root ∙ c.state_root;
  boundaries =
      let (more, e) = c.boundaries in
      let (extra, f) = d.boundaries in
      (
        more ++ extra,
        f ∙ (ap (λ l. l ++ extra) e ∙ append_assoc s.completed_boundaries more extra),
      );
  child =
      Frozen-trans s.child_runtime_transaction t.child_runtime_transaction
        u.child_runtime_transaction c.child d.child;
  backup =
      Frozen-trans s.patch_backup_manifest t.patch_backup_manifest u.patch_backup_manifest c.backup
        d.backup;
  disposition =
      Frozen-trans s.compatibility_tool_disposition t.compatibility_tool_disposition
        u.compatibility_tool_disposition c.disposition d.disposition;
  finish =
      Frozen-trans s.finish_plan_sha256 t.finish_plan_sha256 u.finish_plan_sha256 c.finish d.finish;
}

-- After any history from a valid state the state is valid and continues the first one: the identity
-- is kept, the boundaries are extended, what is written once is kept. The file reads back as it.
pub History-Continues :
    {s t : BootstrapState} {file : Json}
    → IsValid s
    → History s t file
    → Continues s t × IsValid t × (state_from_value file t.state_root ≡ ok t)
History-Continues {s} valid (start file e) =
    (Continues-refl s, valid, rw e (state_from_value-state_value s valid))
History-Continues {s} valid
      (step {t = t} {next = next} {file = g} {written = w} history expected target updates h) =
    let before = History-Continues valid history in
    let last = transition_locked-IsTransition g t expected target updates next w h in
    (Continues-trans s t next before.0 last.continues, last.valid, last.durable)

Move-InRecovery : (p q : BootstrapPhase) → Move p q → InRecovery p → InRecovery q
Move-InRecovery rolling_back q (forward on next) r = elim on [ ]
Move-InRecovery rolled_back q (forward on next) r = elim on [ ]
Move-InRecovery recovery_required q (forward on next) r = elim on [ ]
Move-InRecovery new q (forward on next) r = elim r [ ]
Move-InRecovery _ q (forward on next) r = elim r [ ]
Move-InRecovery p q (roll_back o n e) r = rw e tt
Move-InRecovery p q (give_up o n e) r = rw e tt
Move-InRecovery p q (finish_rollback d e) r = rw e tt

move_or_stay :
    (P : BootstrapPhase → Type 0) (p q : BootstrapPhase)
    → (Move p q → P q)
    → P p
    → Move p q ⊎ ((q ≡ p) × (¬ IsFinal p))
    → P q
move_or_stay P p q h stay (inl m) = h m
move_or_stay P p q h stay (inr (e, _)) = subst P (sym e) stay

-- Once a rollback or a recovery has begun, no history leads out of it: it is never accepted.
pub History-InRecovery :
    {s t : BootstrapState} {file : Json}
    → InRecovery s.phase
    → History s t file
    → InRecovery t.phase
History-InRecovery r (start file e) = r
History-InRecovery r
      (step {t = t} {next = next} {file = g} {written = w} history expected target updates h) =
    let last = transition_locked-IsTransition g t expected target updates next w h in
    let before = History-InRecovery r history in
    subst InRecovery (sym last.phase) (
      move_or_stay InRecovery t.phase target (λ m. Move-InRecovery t.phase target m before) before
        last.move)

pub Move-not-IsFinal : (p q : BootstrapPhase) → Move p q → ¬ IsFinal p
Move-not-IsFinal accepted q (forward on next) f = omega (arith, stage-le q)
Move-not-IsFinal rolled_back q (forward on next) f = elim on [ ]
Move-not-IsFinal _ q (forward on next) f = elim f [ ]
Move-not-IsFinal p q (roll_back o n e) f = o f
Move-not-IsFinal p q (give_up o n e) f = o f
Move-not-IsFinal p q (finish_rollback d e) f = subst IsFinal d f

-- One move goes up by one stage at most.
Move-stage : (p q : BootstrapPhase) → Move p q → stage q ≤ stage p + 1
Move-stage p q (forward on next) = omega arith
Move-stage p q (roll_back o n e) = rw e (omega arith)
Move-stage p q (give_up o n e) = rw e (omega arith)
Move-stage p q (finish_rollback d e) = rw e (omega arith)

-- The states that a history passes through: its start, and the result of each of its transitions.
unfoldable pub Through :
    {s t : BootstrapState} {file : Json} → History s t file → BootstrapState → Type 0
Through {s = s} (start file e) u = u ≡ s
Through (step {next = next} history expected target updates h) u = (u ≡ next) ⊎ Through history u

-- No stage is skipped: a history that starts in NEW passes itself through a state of each stage from
-- the first one up to the stage of its last state.
pub History-stage :
    {s t : BootstrapState} {file : Json}
    → s.phase ≡ new
    → (history : History s t file) → (k : ℕ) → 0 < k
    → k ≤ stage t.phase
    → (u : BootstrapState) × Through history u × (stage u.phase ≡ k)
unfolding Through
History-stage {s} fresh (start file e) k low high =
    let one : stage s.phase ≡ 1 = ap stage fresh in (s, refl, omega arith)
History-stage {s} fresh
      (step {t = t} {next = next} {file = g} {written = w} history expected target updates h) k low
      high =
    let last = transition_locked-IsTransition g t expected target updates next w h in
    let here : stage next.phase ≡ stage target = ap stage last.phase in
    let near : stage target ≤ stage t.phase + 1 =
      move_or_stay (λ p. stage p ≤ stage t.phase + 1) t.phase target (Move-stage t.phase target)
        (omega arith) last.move in
    elim (ℕ_discrete k (stage next.phase)) [
      | yes e ↦ (next, inl refl, sym e)
      | no n ↦
          let (u, through, at) = History-stage fresh history k low (omega arith) in
          (u, inr through, at)
    ]
