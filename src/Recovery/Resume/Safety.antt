-- ===== src/Recovery/Resume/Safety.antt =====
-- What `resume` leaves, with owners that take the transaction on by transitions alone
-- (forza_bootstrap/coordinator.py).
use forza_motorsport_linux.Base.{
  ◌≡◌, refl, sym, subst, Text, true, ◌⊎◌, inl, inr, some, [], ◌∷◌, Error, IsBootstrapError,
  contains, is_hex_of_length, ◌==◌, Bool-cases,
}
use forza_motorsport_linux.Base.Actions.{
  Action, Leaves, Leaves-ok, Leaves-err, Leaves-map, Leaves-handle,
}
use forza_motorsport_linux.State.{
  BootstrapPhase, BootstrapState, new, preparing, awaiting_steam_prefix, planned_finish,
  installing_finish, ready_to_attempt, accepted, rolled_back, recovery_required, phase_eq,
  same_state,
}
use forza_motorsport_linux.State.Phases.{IsFinal}
use forza_motorsport_linux.State.Value.{state_value}
use forza_motorsport_linux.State.Value.RoundTrip.{IsValid}
use forza_motorsport_linux.State.Transition.Durable.{same_state_refl}
use forza_motorsport_linux.State.Transition.History.{start}
use forza_motorsport_linux.Recovery.{World, RecoveryOperations, require_recovery, is_absolute}
use forza_motorsport_linux.Recovery.Tracks.{At}
use forza_motorsport_linux.Recovery.Required.{
  require_recovery-Required, require_recovery-IsFinal, load_transaction-At,
  durable_recovery_state-At,
}
use forza_motorsport_linux.Recovery.Plans.{validate_awaiting_plan_handoff}
use forza_motorsport_linux.Recovery.Rollback.Begin.{lift-Same}
use forza_motorsport_linux.Recovery.Resume.{
  require_latest, resume_owner, allowed_results, accept_result, resume_awaiting, resume,
}

is_final : (p : BootstrapPhase) → IsFinal p ⊎ (¬ IsFinal p)
is_final accepted = inl tt
is_final rolled_back = inl tt
is_final _ = inr (λ f. elim f [ ])

module _ {H : Type 0} (root : Text) (s : BootstrapState) where
  -- An owner adds to the transaction's history, and leaves its last state in the file.
  abbrev pub Continuing : World H → Type 0
  Continuing v = (u : BootstrapState) × At root s u v

  abbrev pub IsOwner : (BootstrapState → Action (World H) BootstrapState) → Type 0
  IsOwner owner =
      (t : BootstrapState) (w : World H)
      → At root s t w
      → Leaves (λ r v. Continuing v) (λ e v. Continuing v) (owner t w)

  -- The result of a resumption is the durable state: a state that needs none, or one in the phase that
  -- the owner was to reach.
  pub record Resumed (r : BootstrapState) (w : World H) : Type 0 where
    pub state : BootstrapState
    pub at : At root s state w
    pub same : same_state state r ≡ true
    pub kind : (r ≡ s) ⊎ (contains (allowed_results s.phase) r.phase ≡ true)

  -- After an error that the coordinator handles, recovery is required; a transaction that an owner has
  -- finished stays so.
  pub record Interrupted (e : Error) (w : World H) : Type 0 where
    pub state : BootstrapState
    pub at : At root s state w
    pub answered :
        (¬ IsBootstrapError e) ⊎ ((state.phase ≡ recovery_required) ⊎ IsFinal state.phase)

  required :
      {A : Type 0} {Q : A → World H → Type 0} (t : BootstrapState) (error : Error) (w : World H)
      → At root s t w
      → Leaves {A = A} Q Interrupted (require_recovery root t error w)
  required t error w a = elim (is_final t.phase) [
    | inl final ↦
        Leaves-map _ (require_recovery-IsFinal root s t error w a final) (λ x v n. absurd n)
          (λ e v b. record { state = t; at = b; answered = inr (inr final) })
    | inr open_phase ↦
        Leaves-map _ (require_recovery-Required root s t error w a open_phase) (λ x v n. absurd n)
          (λ e v (_, (u, b, p)). record { state = u; at = b; answered = inr (inl p) })
  ]

  latest_required :
      {Q : BootstrapState → World H → Type 0} (error : Error) (w : World H)
      → is_hex_of_length 24 s.transaction_id ≡ true
      → Continuing w
      → Leaves Q Interrupted (require_latest root s.transaction_id error w)
  unfolding require_latest
  latest_required error w token (u, a) =
      rw (load_transaction-At root s u s.transaction_id w token a) (required u error w a)

  accepted_result :
      (r : BootstrapState) (w : World H)
      → is_hex_of_length 24 s.transaction_id ≡ true
      → Continuing w
      → Leaves Resumed Interrupted (accept_result root s r w)
  unfolding accept_result
  accepted_result r w token (u, a) =
      elim (Bool-cases (contains (allowed_results s.phase) r.phase)) [
        | inr strange ↦ rw strange (latest_required _ w token (u, a))
        | inl expected ↦
            rw (expected, load_transaction-At root s u s.transaction_id w token a)
              (elim (Bool-cases (same_state u r)) [
                | inl same ↦
                    rw same (
                      Leaves-ok r w
                        (record { state = u; at = a; same = same; kind = inr expected }))
                | inr other ↦ rw other (latest_required _ w token (u, a))
              ])
      ]

  awaited : (w : World H) → At root s s w → Leaves Resumed Interrupted (resume_awaiting root s w)
  unfolding resume_awaiting
  awaited w a =
      Leaves-handle {P = λ u v. v ≡ w} {D = λ d v. v ≡ w} _ _ _
        (lift-Same
          (validate_awaiting_plan_handoff s.manifest_sha256 w.plan_file w.prepare_plan_file) w w
          refl)
        (λ u v same.
          Leaves-ok s v
            (record { state = s; at = here v same; same = same_state_refl s; kind = inl refl }))
        (λ d v same. required s d v (here v same))
        (λ d v unknown same. record { state = s; at = here v same; answered = inl unknown })
    where
      here : (v : World H) → v ≡ w → At root s s v
      here v same = subst (At root s s) (sym same) a

  module _ (operations : RecoveryOperations H) (prepare : IsOwner operations.resume_prepare)
      (finish : IsOwner operations.resume_finish) where
    owned :
        (p : BootstrapPhase) (w : World H)
        → At root s s w
        → Leaves (λ r v. Continuing v) (λ e v. Continuing v) (resume_owner operations s p w)
    unfolding resume_owner
    owned new w a = prepare s w a
    owned preparing w a = prepare s w a
    owned planned_finish w a = finish s w a
    owned installing_finish w a = finish s w a
    owned _ w a = Leaves-err _ w (s, a)

    -- If the root is an absolute path, the file holds the state, which is valid and bound to the root, and
    -- the owners add to its
    -- history and leave its last state in the file, a resumption that returns gives the state itself or
    -- one in the phase that the owner was to reach, and the file holds what it gives. After an error the
    -- file holds a state that a history leads to, and it is RECOVERY_REQUIRED or finished if the
    -- error is a BootstrapError.
    pub resume-Resumed :
        (w : World H)
        → is_absolute root ≡ true
        → IsValid s
        → s.state_root ≡ some root
        → w.state_file ≡ state_value s
        → Leaves Resumed Interrupted (resume operations root s w)
    unfolding resume
    resume-Resumed w absolute valid bound file =
        let a : At root s s w = record {
          history = start w.state_file file;
          file = file;
          valid = valid;
          bound = bound;
        } in
        rw (durable_recovery_state-At root s s w absolute a)
          (elim (Bool-cases (contains (ready_to_attempt ∷ accepted ∷ rolled_back ∷ []) s.phase)) [
            | inl resting ↦ rw resting (
                Leaves-ok s w
                  (record { state = s; at = a; same = same_state_refl s; kind = inl refl }))
            | inr active ↦ rw active (elim (Bool-cases (s.phase == awaiting_steam_prefix)) [
              | inl waiting ↦ rw waiting (awaited w a)
              | inr busy ↦ rw busy (
                  Leaves-handle _ _ _ (owned s.phase w a)
                    (λ r v c. accepted_result r v valid.transaction_id c)
                    (λ e v c. latest_required e v valid.transaction_id c)
                    (λ e v unknown (u, b). record { state = u; at = b; answered = inl unknown }))
            ])
          ])
