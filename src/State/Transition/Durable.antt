-- ===== src/State/Transition/Durable.antt =====
-- Transitions against the durable record: `transition_locked` of forza_bootstrap/state.py, and the
-- histories that it builds.
use forza_motorsport_linux.Base.{
  String, ◌≡◌, ◌≢◌, refl, sym, ap, ◌∙◌, subst, true, false, not, ◌&&◌, ◌⊎◌, inl, inr, Option, none,
  some, [], ok, arith, Ensures, Ensures-ok, Ensures-bind, refuse_if-ok, refuse_if, Eq, ◌==◌, ==_iff,
  ==_refl, nat_eq, list_eq, string_eq, option_eq, contains, take_all, Bool-cases,
}
use forza_motorsport_linux.Json.{Json, set_item}
use forza_motorsport_linux.State.{
  BootstrapPhase, BootstrapState, phase_eq, disposition_eq, same_state, allowed_transitions,
  terminal_phases, accepted, rolled_back,
}
use forza_motorsport_linux.State.Phases.{
  Move, forward, roll_back, give_up, finish_rollback, stage, IsFinal, allowed_transitions-Move,
  Move-allowed_transitions,
}
use forza_motorsport_linux.State.Value.{state_from_value, state_value}
use forza_motorsport_linux.State.Value.RoundTrip.{IsValid, state_from_value-state_value}
use forza_motorsport_linux.State.Value.Soundness.{state_from_value-IsValid}
use forza_motorsport_linux.State.Transition.{
  Updates, has_invalid_update, validate_transition_request, updated_fields, updated_state,
  write_once, transition_locked,
}
use forza_motorsport_linux.State.Transition.Laws.{Continues, updated_state-Ensures}

-- A request that passes validation: what it says of the phases, the updates and the root.
record IsLegal (s : BootstrapState) (expected target : BootstrapPhase) (updates : Updates)
    : Type 0 where
  phase : s.phase ≡ expected
  move : Move expected target ⊎ ((target ≡ expected) × (¬ IsFinal expected))
  allowed : has_invalid_update updates ≡ false
  bound : s.state_root ≢ none

pub not-terminal : (p : BootstrapPhase) → contains terminal_phases p ≡ false → ¬ IsFinal p
unfolding terminal_phases phase_eq
not-terminal accepted h f = cc
not-terminal rolled_back h f = cc
not-terminal _ h f = elim f [ ]

legal-Move :
    (p q : BootstrapPhase)
    → (q == p && contains terminal_phases q) ≡ false
    → (not (q == p) && not (contains (allowed_transitions p) q)) ≡ false
    → Move p q ⊎ ((q ≡ p) × (¬ IsFinal p))
legal-Move p q h k = elim (Bool-cases (q == p)) [
  | inl same ↦
      let e : q ≡ p = (==_iff q p).0 same in
      inr (e, subst (λ r. ¬ IsFinal r) e (not-terminal q (ground arith)))
  | inr other ↦ inl (allowed_transitions-Move p q (ground arith))
]

validate-IsLegal :
    (s : BootstrapState) (expected target : BootstrapPhase) (updates : Updates)
    → validate_transition_request s expected target updates ≡ ok tt
    → IsLegal s expected target updates
unfolding validate_transition_request
validate-IsLegal s expected target updates h = record {
  phase = (==_iff s.phase expected).0 (ground arith);
  move = legal-Move expected target (ground arith) (ground arith);
  allowed = ground arith;
  bound = ground arith;
}

same_state-eq : (a b : BootstrapState) → same_state a b ≡ true → a.state_root ≡ b.state_root → a ≡ b
unfolding same_state
same_state-eq a b h r = ground arith

-- What a successful transition from `s` leaves: the next state and the file that holds it.
pub record IsTransition (s : BootstrapState) (target : BootstrapPhase) (next : BootstrapState)
    (file : Json) : Type 0 where
  pub move : Move s.phase target ⊎ ((target ≡ s.phase) × (¬ IsFinal s.phase))
  pub phase : next.phase ≡ target
  pub valid : IsValid next
  pub continues : Continues s next
  pub written : file ≡ state_value next
  pub durable : state_from_value file next.state_root ≡ ok next

module _ (file : Json) (s : BootstrapState) (expected target : BootstrapPhase)
    (updates : Updates) where
  transition_locked-Ensures :
      Ensures
        (λ (next, written). IsTransition s target next written)
        (transition_locked file s expected target updates)
  unfolding transition_locked
  transition_locked-Ensures =
      Ensures-bind (validate_transition_request s expected target updates) _ λ _ request.
        Ensures-bind (state_from_value file s.state_root) _ λ durable read.
          Ensures-bind (refuse_if (not (same_state durable s)) _) _ λ _ same.
            let legal = validate-IsLegal s expected target updates request in
            let e : durable ≡ s =
              same_state-eq durable s (ground (arith, refuse_if-ok _ _ _ same))
                (state_from_value-IsValid file s.state_root durable read).1 in
            Ensures-bind (updated_state durable target updates) _ λ next updated.
              let (valid, phase, continues) =
                (updated_state-Ensures durable target updates legal.allowed).at next updated in
              Ensures-ok (next, state_value next)
                (record {
                  move =
                      subst (λ p. Move p target ⊎ ((target ≡ p) × (¬ IsFinal p))) (sym legal.phase)
                        legal.move;
                  phase = phase;
                  valid = valid;
                  continues = subst (λ t. Continues t next) e continues;
                  written = refl;
                  durable = state_from_value-state_value next valid;
                })

  -- A transition that succeeds is a legal move or an update within an unfinished phase. The next
  -- state is valid, has the target phase, continues the last state, and is what the file that was
  -- written reads back as.
  pub transition_locked-IsTransition :
      (next : BootstrapState) (written : Json)
      → transition_locked file s expected target updates ≡ ok (next, written)
      → IsTransition s target next written
  transition_locked-IsTransition next written h = transition_locked-Ensures.at (next, written) h

pub Move-ne : (p q : BootstrapPhase) → Move p q → q ≢ p
Move-ne p q (forward on next) e = omega (arith, ap stage e)
Move-ne p q (roll_back o n d) e = n (sym e ∙ d)
Move-ne p q (give_up o n d) e = n (sym e ∙ d)
Move-ne p q (finish_rollback d c) e = cc

pub same_state_refl : (s : BootstrapState) → same_state s s ≡ true
unfolding same_state
same_state_refl s = ground arith

pub write_once_refl {ℓ} :
    {A : Type ℓ} ⦃e : Eq A⦄ (name : String) (old : Option A) → write_once name old old ≡ ok tt
unfolding write_once
write_once_refl name none = refl
write_once_refl name (some a) = ground arith

module _ (s : BootstrapState) (target : BootstrapPhase) (valid : IsValid s)
    (move : Move s.phase target) where
  abbrev pub moved : BootstrapState
  moved = record s { phase = target }

  pub moved-IsValid : IsValid moved
  moved-IsValid = record {
    version = valid.version;
    transaction_id = valid.transaction_id;
    manifest_sha256 = valid.manifest_sha256;
    nonempty = valid.nonempty;
    distinct = valid.distinct;
    child = valid.child;
    backup = valid.backup;
    finish = valid.finish;
  }

  updated_fields-moved : updated_fields target [] (state_value s) ≡ state_value moved
  unfolding updated_fields state_value set_item string_eq
  updated_fields-moved = refl

  target-ne : (target == s.phase) ≡ false
  target-ne = ground (arith, Move-ne s.phase target move)

  updated_state-moved : updated_state s target [] ≡ ok moved
  unfolding updated_state
  updated_state-moved = rw (
    updated_fields-moved,
    state_from_value-state_value moved moved-IsValid,
    take_all s.completed_boundaries,
    ==_refl s.completed_boundaries,
    write_once_refl "child_runtime_transaction" s.child_runtime_transaction,
    write_once_refl "patch_backup_manifest" s.patch_backup_manifest,
    write_once_refl "compatibility_tool_disposition" s.compatibility_tool_disposition,
    write_once_refl "finish_plan_sha256" s.finish_plan_sha256,
    target-ne,
  )

  validate-moved : s.state_root ≢ none → validate_transition_request s s.phase target [] ≡ ok tt
  unfolding validate_transition_request
  validate-moved bound =
      rw (==_refl s.phase, target-ne, Move-allowed_transitions s.phase target move) (ground arith)

  -- A valid state that is bound to a root and is the durable one may take every move: with no
  -- updates the transition succeeds, and it changes the phase alone.
  pub transition_locked-Move :
      s.state_root ≢ none
      → transition_locked (state_value s) s s.phase target [] ≡ ok (moved, state_value moved)
  unfolding transition_locked
  transition_locked-Move bound = rw (
    validate-moved bound,
    state_from_value-state_value s valid,
    same_state_refl s,
    updated_state-moved,
  )
