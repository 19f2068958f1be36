-- ===== src/State/Tests.antt =====
-- Runs of the transaction state's code, and its theorems at concrete data.
use forza_motorsport_linux.Base.{
  equality, is_hex_of_length, ◌≡◌, ◌↔◌, refl, true, Text, codes, some, none, [], ◌∷◌, ok, err,
  message, arith, contains,
}
use forza_motorsport_linux.Json.{Json, str, list, nil, item, set_item}
use forza_motorsport_linux.State.{
  BootstrapState, BootstrapPhase, new, preparing, rolling_back, recovery_required, accepted,
  created, allowed_transitions, terminal_phases, phase_eq, disposition_eq, same_state,
}
use forza_motorsport_linux.State.Phases.{
  Move, forward, give_up, stage, InRecovery, allowed_transitions-iff-Move,
}
use forza_motorsport_linux.State.Value.{
  state_from_value, state_value, state_parsing, is_backup_path, is_distinct,
}
use forza_motorsport_linux.State.Value.RoundTrip.{
  IsValid, is_distinct-IsDistinct, state_from_value-state_value,
}
use forza_motorsport_linux.State.Value.Soundness.{Parsed, state_from_value-Parsed}
use forza_motorsport_linux.State.Transition.{
  transition_locked, validate_transition_request, updated_state, updated_fields, write_once,
}
use forza_motorsport_linux.State.Transition.Laws.{Continues}
use forza_motorsport_linux.State.Transition.Durable.{
  IsTransition, transition_locked-IsTransition, transition_locked-Move,
}
use forza_motorsport_linux.State.Transition.History.{
  History, start, step, History-Continues, History-InRecovery, History-stage, Through,
}

abbrev pub sample_id : Text
sample_id = codes "0123456789abcdef01234567"

abbrev pub sample_digest : Text
sample_digest = codes "0123456789abcdef0123456789abcdef0123456789abcdef0123456789abcdef"

abbrev pub sample : BootstrapState
sample = record {
  version = 1;
  transaction_id = sample_id;
  manifest_sha256 = sample_digest;
  phase = preparing;
  completed_boundaries = codes "ge-extracted" ∷ codes "fm-published" ∷ [];
  child_runtime_transaction = some sample_id;
  patch_backup_manifest = some (codes "/home/u/forza-patch-20261015T101112Z.2.json");
  compatibility_tool_disposition = some created;
  finish_plan_sha256 = none;
  state_root = some (codes "/state");
}

abbrev fresh : BootstrapState
fresh = record sample { phase = new }

abbrev undone : BootstrapState
undone = record sample { phase = rolling_back }

abbrev done : BootstrapState
done = record sample { phase = accepted }

sample_round_trip : state_from_value (state_value sample) (some (codes "/state")) ≡ ok sample
unfolding state_parsing equality
sample_round_trip = refl

short_digest :
    state_from_value (state_value (record sample { manifest_sha256 = sample_id })) none
    ≡ err (message "state manifest_sha256 must be a lowercase SHA-256")
unfolding state_parsing equality
short_digest = refl

repeated_boundary :
    state_from_value
      (state_value (record sample { completed_boundaries = codes "a" ∷ codes "a" ∷ [] }))
      none
    ≡ err (message "state completed_boundaries is invalid")
unfolding state_parsing equality
repeated_boundary = refl

-- A run that appends a boundary within a phase, and one that would drop them all.
abbrev one_more : Json
one_more = list (
    item (str (codes "ge-extracted"))
      (item (str (codes "fm-published")) (item (str (codes "prefix")) nil)))

abbrev grown : BootstrapState
grown = record sample {
  completed_boundaries = codes "ge-extracted" ∷ codes "fm-published" ∷ codes "prefix" ∷ [];
}

append_run :
    transition_locked
      (state_value sample)
      sample
      preparing
      preparing
      (("completed_boundaries", one_more) ∷ [])
    ≡ ok (grown, state_value grown)
unfolding transition_locked validate_transition_request updated_state updated_fields write_once
    same_state state_parsing allowed_transitions phase_eq disposition_eq terminal_phases set_item
    equality
append_run = refl

drop_run :
    transition_locked
      (state_value sample)
      sample
      preparing
      preparing
      (("completed_boundaries", list nil) ∷ [])
    ≡ err (message "state completed_boundaries may only append new entries")
unfolding transition_locked validate_transition_request updated_state updated_fields write_once
    same_state state_parsing allowed_transitions phase_eq disposition_eq terminal_phases set_item
    equality
drop_run = refl

pub sample-IsValid : IsValid sample
unfolding is_hex_of_length is_backup_path is_distinct equality
sample-IsValid = record {
  version = refl;
  transaction_id = refl;
  manifest_sha256 = refl;
  nonempty = ((λ e. cc), ((λ e. cc), tt));
  distinct = is_distinct-IsDistinct sample.completed_boundaries refl;
  child = refl;
  backup = refl;
  finish = tt;
}

abbrev with_phase : BootstrapPhase → BootstrapState
with_phase p = record sample { phase = p }

with_phase-IsValid : (p : BootstrapPhase) → IsValid (with_phase p)
with_phase-IsValid p = record {
  version = sample-IsValid.version;
  transaction_id = sample-IsValid.transaction_id;
  manifest_sha256 = sample-IsValid.manifest_sha256;
  nonempty = sample-IsValid.nonempty;
  distinct = sample-IsValid.distinct;
  child = sample-IsValid.child;
  backup = sample-IsValid.backup;
  finish = sample-IsValid.finish;
}

prepared : History fresh sample (state_value sample)
prepared = step (start (state_value fresh) refl) new preparing [] (
    transition_locked-Move fresh preparing (with_phase-IsValid new) (forward (omega arith) refl)
      (λ e. cc))

withdrawn :
    History undone (with_phase recovery_required) (state_value (with_phase recovery_required))
withdrawn = step (start (state_value undone) refl) rolling_back recovery_required [] (
    transition_locked-Move undone recovery_required (with_phase-IsValid rolling_back)
      (give_up (λ x. x) (λ e. cc) refl) (λ e. cc))

state_from_value-state_value_example :
    state_from_value (state_value sample) (some (codes "/state")) ≡ ok sample
state_from_value-state_value_example = state_from_value-state_value sample sample-IsValid

state_from_value-Parsed_example : Parsed (state_value sample) (some (codes "/state")) sample
state_from_value-Parsed_example =
    state_from_value-Parsed (state_value sample) (some (codes "/state")) sample sample_round_trip

allowed_transitions-iff-Move_example :
    (contains (allowed_transitions new) preparing ≡ true) ↔ Move new preparing
allowed_transitions-iff-Move_example = allowed_transitions-iff-Move new preparing

transition_locked-IsTransition_example : IsTransition sample preparing grown (state_value grown)
transition_locked-IsTransition_example =
    transition_locked-IsTransition (state_value sample) sample preparing preparing
      (("completed_boundaries", one_more) ∷ []) grown (state_value grown) append_run

transition_locked-Move_example :
    transition_locked (state_value fresh) fresh new preparing [] ≡ ok (sample, state_value sample)
transition_locked-Move_example =
    transition_locked-Move fresh preparing (with_phase-IsValid new) (forward (omega arith) refl)
      (λ e. cc)

History-Continues_example :
    Continues fresh sample
    × IsValid sample
    × (state_from_value (state_value sample) (some (codes "/state")) ≡ ok sample)
History-Continues_example = History-Continues (with_phase-IsValid new) prepared

History-InRecovery_example : InRecovery recovery_required
History-InRecovery_example = History-InRecovery tt withdrawn

History-stage_example : (u : BootstrapState) × Through prepared u × (stage u.phase ≡ 1)
History-stage_example = History-stage refl prepared 1 (omega arith) (omega arith)
