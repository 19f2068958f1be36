-- ===== src/Recovery/Required.antt =====
-- `_recovery_required`, `load_transaction` and `_durable_recovery_state` on a durable state
-- (forza_bootstrap/coordinator.py).
use forza_motorsport_linux.Base.{
  ◌≡◌, ◌≢◌, refl, sym, ap, Text, true, false, ◌⊎◌, inl, inr, some, [], ok, err, message, Error,
  arith, ◌==◌, ==_iff, nat_eq, list_eq, option_eq, is_hex_of_length, Bool-cases,
}
use forza_motorsport_linux.Base.Actions.{Never, Leaves, Leaves-err, Leaves-bind}
use forza_motorsport_linux.State.{
  BootstrapPhase, BootstrapState, accepted, rolled_back, recovery_required, phase_eq, require_token,
}
use forza_motorsport_linux.State.Phases.{Move, give_up, IsFinal}
use forza_motorsport_linux.State.Value.{state_from_value}
use forza_motorsport_linux.State.Value.RoundTrip.{state_from_value-state_value}
use forza_motorsport_linux.State.Transition.Durable.{same_state_refl}
use forza_motorsport_linux.State.Transition.History.{Move-not-IsFinal}
use forza_motorsport_linux.Recovery.{
  World, load_transaction, durable_recovery_state, is_absolute, journal_line, write_line,
  raise_with_journal, require_recovery,
}
use forza_motorsport_linux.Recovery.Tracks.{At, At-kept, transition-Move, transition-keeps}

is_required : (p : BootstrapPhase) → (p == recovery_required) ≡ false → p ≢ recovery_required
is_required p h e = ground (arith, (==_iff p recovery_required).1 e)

unrequired : (p : BootstrapPhase) → IsFinal p → (p == recovery_required) ≡ false
unfolding phase_eq
unrequired accepted f = refl
unrequired rolled_back f = refl
unrequired _ f = elim f [ ]

stuck :
    (p : BootstrapPhase)
    → IsFinal p
    → ¬ (Move p recovery_required ⊎ ((recovery_required ≡ p) × (¬ IsFinal p)))
stuck p final (inl move) = Move-not-IsFinal p recovery_required move final
stuck p final (inr (_, open_phase)) = open_phase final

module _ {H : Type 0} (root : Text) (origin : BootstrapState) where
  -- The recovery that was called for is durable.
  abbrev pub Required : World H → Type 0
  Required v = (u : BootstrapState) × At root origin u v × (u.phase ≡ recovery_required)

  gives_up :
      {A : Type 0} (t : BootstrapState) (error : Error) (w : World H)
      → At root origin t w
      → t.phase ≡ recovery_required
      → Leaves {A = A} Never (λ e v. (e ≡ error) × Required v) (raise_with_journal root t error w)
  unfolding raise_with_journal journal_line write_line
  gives_up t error w a h = Leaves-err error _ (refl, (t, At-kept root origin t w _ refl a, h))

  -- Of a state that is not finished: the state becomes RECOVERY_REQUIRED, durably, and the error is
  -- raised again.
  pub require_recovery-Required :
      {A : Type 0} (t : BootstrapState) (error : Error) (w : World H)
      → At root origin t w
      → ¬ IsFinal t.phase
      → Leaves {A = A} Never (λ e v. (e ≡ error) × Required v) (require_recovery root t error w)
  unfolding require_recovery
  require_recovery-Required t error w a open_phase =
      elim (Bool-cases (t.phase == recovery_required)) [
        | inl already ↦
            rw already (gives_up t error w a ((==_iff t.phase recovery_required).0 already))
        | inr other ↦ rw other (
            Leaves-bind (λ next. raise_with_journal root next error) _
              (transition-Move root origin t recovery_required w a
                (give_up open_phase (is_required t.phase other) refl))
              λ u v (b, same, _). gives_up u error v b (ap (λ x. x.phase) same))
      ]

  -- A finished state takes no transition: the error of the refused one leaves everything as it is.
  pub require_recovery-IsFinal :
      {A : Type 0} (t : BootstrapState) (error : Error) (w : World H)
      → At root origin t w
      → IsFinal t.phase
      → Leaves {A = A} Never (λ e v. At root origin t v) (require_recovery root t error w)
  unfolding require_recovery
  require_recovery-IsFinal t error w a final = rw (unrequired t.phase final) (
      Leaves-bind (λ next. raise_with_journal root next error) _
        (transition-keeps root origin t t.phase recovery_required [] w a)
        λ u v (b, last, _). absurd (stuck t.phase final last.move))

  pub load_transaction-At :
      (t : BootstrapState) (transaction_id : Text) (w : World H)
      → is_hex_of_length 24 transaction_id ≡ true
      → At root origin t w
      → load_transaction root transaction_id w ≡ (ok t, w)
  unfolding load_transaction require_token
  load_transaction-At t transaction_id w token a =
      let read : state_from_value w.state_file (some root) ≡ ok t =
        rw (a.file, sym a.bound) (state_from_value-state_value t a.valid) in
      rw (token, read) refl

  pub durable_recovery_state-At :
      (t : BootstrapState) (w : World H)
      → is_absolute root ≡ true
      → At root origin t w
      → durable_recovery_state root t w ≡ (ok t, w)
  unfolding durable_recovery_state
  durable_recovery_state-At t w absolute a =
      let same : (t.state_root == some root) ≡ true = (==_iff t.state_root (some root)).1 a.bound in
      rw
        (
          absolute,
          same,
          load_transaction-At t t.transaction_id w a.valid.transaction_id a,
          same_state_refl t,
        )
        refl

-- A root that is no absolute path is refused, and nothing has changed.
pub durable_recovery_state-relative :
    {H : Type 0} (root : Text) (t : BootstrapState) (w : World H)
    → is_absolute root ≡ false
    → durable_recovery_state root t w ≡ (err (message "recovery state is invalid"), w)
unfolding durable_recovery_state
durable_recovery_state-relative root t w relative = rw relative refl
