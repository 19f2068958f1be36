-- ===== src/State/Transition/Laws.antt =====
-- What a transition may change, and what it keeps.
use forza_motorsport_linux.Base.{
  String, ◌≡◌, refl, sym, ap, ◌∙◌, Text, false, not, Option, none, some, List, [], ◌∷◌, ◌++◌, ok,
  arith, Ensures, Ensures-ok, Ensures-bind, refuse_if-ok, raise_if, ok-injective, Eq, ◌==◌, ==_iff,
  nat_eq, list_eq, string_eq, option_eq, ◌&&◌, contains, take, drop, length, take-append-drop,
  if◌then◌else◌,
}
use forza_motorsport_linux.Json.{str, Fields, get_item, set_item}
use forza_motorsport_linux.Json.Laws.{get_item-set_item}
use forza_motorsport_linux.State.{
  BootstrapPhase, BootstrapState, phase_eq, disposition_eq, phase_of, phase_value, same_state,
}
use forza_motorsport_linux.State.Value.{state_from_value, state_value}
use forza_motorsport_linux.State.Value.RoundTrip.{IsValid, phase_of-phase_value}
use forza_motorsport_linux.State.Value.Soundness.{Parsed, state_from_value-Parsed}
use forza_motorsport_linux.State.Transition.{
  Updates, updatable_fields, has_invalid_update, apply_updates, updated_fields, write_once,
  updated_state,
}

-- A field that is set stays as it is.
abbrev pub Frozen {ℓ} : {A : Type ℓ} → Option A → Option A → Type ℓ
Frozen none next = Unit
Frozen (some a) next = next ≡ some a

-- The later state continues the earlier one.
pub record Continues (s next : BootstrapState) : Type 0 where
  pub version : next.version ≡ s.version
  pub transaction_id : next.transaction_id ≡ s.transaction_id
  pub manifest_sha256 : next.manifest_sha256 ≡ s.manifest_sha256
  pub state_root : next.state_root ≡ s.state_root
  pub boundaries : (more : List Text) × (next.completed_boundaries ≡ s.completed_boundaries ++ more)
  pub child : Frozen s.child_runtime_transaction next.child_runtime_transaction
  pub backup : Frozen s.patch_backup_manifest next.patch_backup_manifest
  pub disposition : Frozen s.compatibility_tool_disposition next.compatibility_tool_disposition
  pub finish : Frozen s.finish_plan_sha256 next.finish_plan_sha256

write_once-Frozen {ℓ} :
    {A : Type ℓ} ⦃e : Eq A⦄ (name : String) (old next : Option A)
    → write_once name old next ≡ ok tt
    → Frozen old next
unfolding write_once
write_once-Frozen name none next h = tt
write_once-Frozen name (some a) next h = (==_iff next (some a)).0 (ground arith)

get_item-apply_updates :
    (key : String) (updates : Updates) (fields : Fields)
    → contains updatable_fields key ≡ false
    → has_invalid_update updates ≡ false
    → get_item key (apply_updates updates fields) ≡ get_item key fields
unfolding apply_updates has_invalid_update
get_item-apply_updates key [] fields fixed allowed = refl
get_item-apply_updates key ((k, u) ∷ updates) fields fixed allowed =
    get_item-apply_updates key updates (set_item k u fields) fixed (ground arith)
    ∙ rw get_item-set_item (ground arith)

-- The keys that no update names, the phase among them, are read as they were written.
get_item-updated :
    (key : String) (target : BootstrapPhase) (updates : Updates) (fields : Fields)
    → contains updatable_fields key ≡ false
    → has_invalid_update updates ≡ false
    → get_item key (apply_updates updates (set_item "phase" (str (phase_value target)) fields))
      ≡ (if "phase" == key then ok (str (phase_value target)) else get_item key fields)
get_item-updated key target updates fields fixed allowed =
    get_item-apply_updates key updates _ fixed allowed ∙ get_item-set_item key "phase" _ fields

phase_value-injective : (p q : BootstrapPhase) → phase_value p ≡ phase_value q → p ≡ q
phase_value-injective p q h =
    ok-injective (sym (phase_of-phase_value p) ∙ (ap phase_of h ∙ phase_of-phase_value q))

-- What the parser returns for the updated dict keeps the fixed fields and has the target's phase.
module _ (s : BootstrapState) (target : BootstrapPhase) (updates : Updates)
    (allowed : has_invalid_update updates ≡ false) where
  Parsed-update :
      (next : BootstrapState)
      → Parsed (updated_fields target updates (state_value s)) s.state_root next
      → IsValid next
        × (next.phase ≡ target)
        × (next.version ≡ s.version)
        × (next.transaction_id ≡ s.transaction_id)
        × (next.manifest_sha256 ≡ s.manifest_sha256)
        × (next.state_root ≡ s.state_root)
  unfolding updated_fields state_value get_item string_eq
  Parsed-update next (valid, holds, root) = (
    valid,
    phase_value-injective next.phase target
        (cc (holds.phase, get_item-updated "phase" target updates _ refl allowed)),
    cc (holds.version, get_item-updated "version" target updates _ refl allowed),
    cc (holds.transaction_id, get_item-updated "transaction_id" target updates _ refl allowed),
    cc (holds.manifest_sha256, get_item-updated "manifest_sha256" target updates _ refl allowed),
    root,
  )

  abbrev pub Outcome : BootstrapState → Type 0
  Outcome next = IsValid next × (next.phase ≡ target) × Continues s next

  pub updated_state-Ensures : Ensures Outcome (updated_state s target updates)
  unfolding updated_state
  updated_state-Ensures =
      Ensures-bind (state_from_value (updated_fields target updates (state_value s)) s.state_root) _
        λ next e.
          Ensures-bind
            (raise_if
              (not (
                take (length s.completed_boundaries) next.completed_boundaries
                == s.completed_boundaries))
              _)
            _
            λ _ grown.
              Ensures-bind
                (write_once "child_runtime_transaction" s.child_runtime_transaction
                  next.child_runtime_transaction)
                _
                λ _ child.
                  Ensures-bind
                    (write_once "patch_backup_manifest" s.patch_backup_manifest
                      next.patch_backup_manifest)
                    _
                    λ _ backup.
                      Ensures-bind
                        (write_once "compatibility_tool_disposition"
                          s.compatibility_tool_disposition next.compatibility_tool_disposition)
                        _
                        λ _ disposition.
                          Ensures-bind
                            (write_once "finish_plan_sha256" s.finish_plan_sha256
                              next.finish_plan_sha256)
                            _
                            λ _ finish.
                              Ensures-bind (raise_if (target == s.phase && same_state next s) _) _
                                λ _ _.
                                  let kept =
                                    Parsed-update next
                                      (state_from_value-Parsed _ s.state_root next e) in
                                  let prefix : take (length s.completed_boundaries)
                                        next.completed_boundaries
                                      ≡ s.completed_boundaries =
                                    (==_iff
                                        (take (length s.completed_boundaries)
                                          next.completed_boundaries)
                                        s.completed_boundaries).0
                                      (ground (arith, refuse_if-ok _ _ _ grown)) in
                                  Ensures-ok next (
                                    kept.0,
                                    kept.1,
                                    record {
                                      version = kept.2;
                                      transaction_id = kept.3;
                                      manifest_sha256 = kept.4;
                                      state_root = kept.5;
                                      boundaries = (
                                        drop (length s.completed_boundaries)
                                            next.completed_boundaries,
                                        sym (
                                              take-append-drop (length s.completed_boundaries)
                                                next.completed_boundaries)
                                            ∙ ap
                                                (λ t.
                                                  t
                                                  ++ drop (length s.completed_boundaries)
                                                      next.completed_boundaries)
                                                prefix,
                                      );
                                      child =
                                          write_once-Frozen "child_runtime_transaction" _ _ child;
                                      backup = write_once-Frozen "patch_backup_manifest" _ _ backup;
                                      disposition =
                                          write_once-Frozen "compatibility_tool_disposition" _ _
                                            disposition;
                                      finish = write_once-Frozen "finish_plan_sha256" _ _ finish;
                                    },
                                  )
