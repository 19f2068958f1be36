-- ===== src/State/Transition/Boundaries.antt =====
-- A transition that records one more boundary (forza_bootstrap/coordinator.py, `_append_boundary` and
-- its like, by `transition` of forza_bootstrap/state.py).
use forza_motorsport_linux.Base.{
  ◌≡◌, ◌≢◌, refl, sym, subst, Text, true, false, ◌⊎◌, inl, inr, none, List, [], ◌∷◌, ◌++◌, ok,
  arith, All-append, contains, take-append, ==_refl, ==_iff, ◌==◌, nat_eq, list_eq, string_eq,
  option_eq,
}
use forza_motorsport_linux.Json.{set_item}
use forza_motorsport_linux.State.{
  BootstrapPhase, BootstrapState, phase_eq, disposition_eq, same_state, terminal_phases, accepted,
  rolled_back,
}
use forza_motorsport_linux.State.Phases.{Move, IsFinal, Move-allowed_transitions}
use forza_motorsport_linux.State.Value.{state_value}
use forza_motorsport_linux.State.Value.RoundTrip.{IsValid, IsDistinct, state_from_value-state_value}
use forza_motorsport_linux.State.Transition.{
  validate_transition_request, updated_fields, updated_state, transition_locked, boundary_updates,
}
use forza_motorsport_linux.State.Transition.Durable.{Move-ne, same_state_refl, write_once_refl}

-- The state with one more boundary, in the target phase.
abbrev pub marked : BootstrapState → BootstrapPhase → Text → BootstrapState
marked s target boundary = record s {
  phase = target;
  completed_boundaries = s.completed_boundaries ++ (boundary ∷ []);
}

IsDistinct-append :
    (texts : List Text) (t : Text)
    → contains texts t ≡ false
    → IsDistinct texts
    → IsDistinct (texts ++ (t ∷ []))
IsDistinct-append [] t h d = (tt, tt)
IsDistinct-append (u ∷ texts) t h d = (
  All-append (λ v. v ≢ u) texts (t ∷ []) d.0 (ground arith, tt),
  IsDistinct-append texts t (ground arith) d.1,
)

unfinished : (p : BootstrapPhase) → ¬ IsFinal p → contains terminal_phases p ≡ false
unfolding terminal_phases phase_eq
unfinished accepted h = absurd (h tt)
unfinished rolled_back h = absurd (h tt)
unfinished _ h = refl

append-ne : (texts : List Text) (t : Text) → texts ++ (t ∷ []) ≢ texts
append-ne [] t e = cc
append-ne (u ∷ texts) t e = append-ne texts t (cc e)

module _ (s : BootstrapState) (target : BootstrapPhase) (boundary : Text) (valid : IsValid s)
    (nonempty : boundary ≢ []) (new : contains s.completed_boundaries boundary ≡ false)
    (legal : Move s.phase target ⊎ ((target ≡ s.phase) × (¬ IsFinal s.phase))) where
  abbrev next : BootstrapState
  next = marked s target boundary

  pub marked-IsValid : IsValid next
  marked-IsValid = record {
    version = valid.version;
    transaction_id = valid.transaction_id;
    manifest_sha256 = valid.manifest_sha256;
    nonempty =
        All-append (λ t. t ≢ []) s.completed_boundaries (boundary ∷ []) valid.nonempty
          (nonempty, tt);
    distinct = IsDistinct-append s.completed_boundaries boundary new valid.distinct;
    child = valid.child;
    backup = valid.backup;
    finish = valid.finish;
  }

  updated_fields-marked :
      updated_fields target (boundary_updates s boundary) (state_value s) ≡ state_value next
  unfolding updated_fields state_value set_item string_eq boundary_updates
  updated_fields-marked = refl

  changed : same_state next s ≡ false
  unfolding same_state
  changed = ground (arith, append-ne s.completed_boundaries boundary)

  updated_state-marked : updated_state s target (boundary_updates s boundary) ≡ ok next
  unfolding updated_state
  updated_state-marked =
      rw
        (
          updated_fields-marked,
          state_from_value-state_value next marked-IsValid,
          take-append s.completed_boundaries (boundary ∷ []),
          ==_refl s.completed_boundaries,
          write_once_refl "child_runtime_transaction" s.child_runtime_transaction,
          write_once_refl "patch_backup_manifest" s.patch_backup_manifest,
          write_once_refl "compatibility_tool_disposition" s.compatibility_tool_disposition,
          write_once_refl "finish_plan_sha256" s.finish_plan_sha256,
          changed,
        )
        (ground arith)

  validate-marked :
      s.state_root ≢ none
      → validate_transition_request s s.phase target (boundary_updates s boundary) ≡ ok tt
  unfolding validate_transition_request boundary_updates
  validate-marked bound = elim legal [
    | inl move ↦
        let other : (target == s.phase) ≡ false = ground (arith, Move-ne s.phase target move) in
        rw (==_refl s.phase, other, Move-allowed_transitions s.phase target move) (ground arith)
    | inr (same, open_phase) ↦
        let itself : (target == s.phase) ≡ true = (==_iff target s.phase).1 same in
        rw
          (
            ==_refl s.phase,
            itself,
            unfinished target (subst (λ p. ¬ IsFinal p) (sym same) open_phase),
          )
          (ground arith)
  ]

  -- A boundary that is not recorded yet can be recorded by any legal transition of a valid state that
  -- is bound to a root and is the durable one.
  pub transition_locked-marked :
      s.state_root ≢ none
      → transition_locked (state_value s) s s.phase target (boundary_updates s boundary)
        ≡ ok (next, state_value next)
  unfolding transition_locked
  transition_locked-marked bound = rw (
    validate-marked bound,
    state_from_value-state_value s valid,
    same_state_refl s,
    updated_state-marked,
  )
