-- ===== src/Recovery/Tests.antt =====
-- Runs of `resume` and `rollback`, and their theorems at concrete data.
use forza_motorsport_linux.Base.{
  ◌≡◌, refl, sym, ap, subst, Text, codes, String, true, inl, inr, none, some, List, [], ◌∷◌, Result,
  ok, ok-injective, false≢true, Option, err, message, arith, Among, contains, starts_with, nat_eq,
  list_eq, Bool-cases, if◌then◌else◌, equality,
}
use forza_motorsport_linux.Base.Actions.{Action, Leaves, Leaves-map, Leaves-err}
use forza_motorsport_linux.Json.{set_item}
use forza_motorsport_linux.State.{
  BootstrapState, preparing, awaiting_steam_prefix, rolled_back, same_state, phase_eq,
  disposition_eq, allowed_transitions, terminal_phases,
}
use forza_motorsport_linux.State.Value.{state_value, state_parsing}
use forza_motorsport_linux.State.Transition.{
  transition_locked, validate_transition_request, updated_state, updated_fields, write_once,
  boundary_updates,
}
use forza_motorsport_linux.State.Tests.{sample, sample-IsValid}
use forza_motorsport_linux.Recovery.{
  World, RecoveryOperations, RecoveryStatus, pending, undone, status_eq, RollbackStep, steps_of,
  transition, durable_recovery_state, load_transaction, rollback_checkpoint, saved, is_absolute,
}
use forza_motorsport_linux.Recovery.Tracks.{transition-keeps}
use forza_motorsport_linux.Recovery.Rollback.{
  is_settled, rollback, rollback_under_lease, under_lease, confirmed_rollback, preflight,
  preflight_step, is_accepted, begin_rollback, roll_back_steps, roll_back_step, settle, undo,
}
use forza_motorsport_linux.Recovery.Rollback.Steps.{Settled, recorded}
use forza_motorsport_linux.Recovery.Rollback.Kept.{IsKept, Confined}
use forza_motorsport_linux.Recovery.Rollback.Outcome.{Returned, Refused, IsRolledBack}
use forza_motorsport_linux.Recovery.Rollback.Works.{Works, is_plain}
use forza_motorsport_linux.Recovery.Rollback.Completion.{rollback-IsRolledBack}
use forza_motorsport_linux.Recovery.Rollback.Safety.{IsStep, rollback-Refused, rollback-Settled}
use forza_motorsport_linux.Recovery.Resume.{resume}
use forza_motorsport_linux.Recovery.Resume.Safety.{IsOwner, Resumed, Interrupted, resume-Resumed}

abbrev state_root : Text
state_root = codes "/state"

-- A host that holds the names of the parts that have been undone.
abbrev look : String → BootstrapState → List Text → Result RecoveryStatus
look name t h = ok (if contains h (codes name) then undone else pending)

abbrev take_out : String → BootstrapState → Action (World (List Text)) (Unit {0})
take_out name t w = (ok tt, record w { host = codes name ∷ w.host })

abbrev owners : RecoveryOperations (List Text)
owners = record {
  resume_prepare = λ t w. transition t preparing awaiting_steam_prefix [] w;
  resume_finish = λ t w. (err (message "no plan"), w);
  inspect_patches = look "patches";
  restore_patches = take_out "patches";
  inspect_runtime = look "runtime";
  rollback_runtime = take_out "runtime";
  inspect_threading = look "threading";
  rollback_threading = take_out "threading";
  inspect_tool = look "tool";
  rollback_tool = take_out "tool";
  boundary = λ name h. (ok tt, h);
}

abbrev at_work : World (List Text)
at_work = record {
  state_file = state_value sample;
  plan_file = none;
  prepare_plan_file = none;
  output = [];
  host = codes "threading" ∷ [];
}

owner_of :
    (i : RollbackStep (List Text))
    → IsStep owners i
    → (name : String) × (i.inspect ≡ look name) × (i.act ≡ take_out name)
unfolding steps_of Among
owner_of i (inl e) = ("patches", ap (λ x. x.inspect) e, ap (λ x. x.act) e)
owner_of i (inr (inl e)) = ("runtime", ap (λ x. x.inspect) e, ap (λ x. x.act) e)
owner_of i (inr (inr (inl e))) = ("threading", ap (λ x. x.inspect) e, ap (λ x. x.act) e)
owner_of i (inr (inr (inr (inl e)))) = ("tool", ap (λ x. x.inspect) e, ap (λ x. x.act) e)
owner_of i (inr (inr (inr (inr e)))) = elim e [ ]

-- An inspection that finds nothing left to undo.
abbrev Finds :
    (BootstrapState → List Text → Result RecoveryStatus) → BootstrapState → List Text → Type 0
Finds inspect t h =
    (status : RecoveryStatus) × (inspect t h ≡ ok status) × (is_settled status ≡ true)

look-contains :
    (name : String) (h : List Text) (t : BootstrapState)
    → Finds (look name) t h
    → contains h (codes name) ≡ true
look-contains name h t (status, e, q) = elim (Bool-cases (contains h (codes name))) [
  | inl has ↦ has
  | inr missing ↦
      let left : pending ≡ status =
        subst (λ b. (if b then undone else pending) ≡ status) missing (ok-injective e) in
      absurd (false≢true (subst (λ r. is_settled r ≡ true) (sym left) q))
]

look-cons :
    (name : String) (h : List Text) (t : BootstrapState) (more : Text)
    → Finds (look name) t h
    → Finds (look name) t (more ∷ h)
look-cons name h t more found =
    let has : contains h (codes name) ≡ true = look-contains name h t found in
    let still : contains (more ∷ h) (codes name) ≡ true = ground arith in
    (undone, ap (λ b. ok (if b then undone else pending)) still, refl)

owners-Confined : Confined owners (IsStep owners)
owners-Confined = record {
  acts = λ i t w known.
      let (name, look_e, act_e) = owner_of i known in
      subst (λ m. (m t w).1.state_file ≡ w.state_file) (sym act_e) refl;
  notes = λ text w. refl;
}

owners-IsKept : IsKept owners (IsStep owners) Settled
owners-IsKept = record {
  gained = λ i t h known x. x;
  kept = λ i t p b h known x.
      let (name, look_e, act_e) = owner_of i known in
      subst (λ f. Finds f (recorded t p b) h) (sym look_e) (subst (λ f. Finds f t h) look_e x);
  acted = λ i j t w known other x.
      let (name, look_e, act_e) = owner_of i known in
      let (more, look_d, act_d) = owner_of j other in
      subst (λ m. Finds i.inspect t (m t w).1.host) (sym act_d)
        (subst (λ f. Finds f t (codes more ∷ w.host)) (sym look_e)
          (look-cons name w.host t (codes more) (subst (λ f. Finds f t w.host) look_e x)));
  noted = λ i text t w known x. x;
  confined = owners-Confined;
}

owners_finish : IsOwner state_root sample owners.resume_finish
owners_finish t w a = Leaves-err _ w (t, a)

owners_prepare : IsOwner state_root sample owners.resume_prepare
owners_prepare t w a =
    Leaves-map _ (transition-keeps state_root sample t preparing awaiting_steam_prefix [] w a)
      (λ u v (b, _, _). (u, b)) (λ e v b. (t, b))

abbrev lease : Option (Action (World (List Text)) (Unit {0}))
lease = some (λ h. (ok tt, h))

rollback-Refused_example :
    Leaves
      (Returned owners (λ step t h. Unit) state_root sample (codes "ROLLBACK"))
      (Refused state_root sample)
      (rollback owners state_root lease sample (codes "ROLLBACK") at_work)
unfolding equality
rollback-Refused_example =
    rollback-Refused owners state_root sample lease (codes "ROLLBACK") at_work owners-Confined
      (λ w. refl) sample-IsValid refl refl refl

rollback-Settled_example :
    Leaves
      (Returned owners Settled state_root sample (codes "ROLLBACK"))
      (Refused state_root sample)
      (rollback owners state_root lease sample (codes "ROLLBACK") at_work)
unfolding equality
rollback-Settled_example =
    rollback-Settled owners state_root sample lease (codes "ROLLBACK") at_work owners-IsKept
      (λ w. refl) sample-IsValid refl refl refl

resume-Resumed_example :
    Leaves
      (Resumed state_root sample)
      (Interrupted state_root sample)
      (resume owners state_root sample at_work)
unfolding is_absolute starts_with nat_eq
resume-Resumed_example =
    resume-Resumed state_root sample owners owners_prepare owners_finish at_work refl sample-IsValid
      refl refl

abbrev Reports :
    (BootstrapState → List Text → Result RecoveryStatus) → BootstrapState → List Text → Type 0
Reports inspect t h =
    (status : RecoveryStatus) × (inspect t h ≡ ok status) × (is_plain status ≡ true)

look_plain : (name : String) (t : BootstrapState) (h : List Text) → Reports (look name) t h
look_plain name t h = elim (Bool-cases (contains h (codes name))) [
  | inl has ↦ (undone, ap (λ b. ok (if b then undone else pending)) has, refl)
  | inr missing ↦ (pending, ap (λ b. ok (if b then undone else pending)) missing, refl)
]

took_out :
    (name : String) (t : BootstrapState) (h : List Text) → Finds (look name) t (codes name ∷ h)
took_out name t h =
    let now : contains (codes name ∷ h) (codes name) ≡ true = ground arith in
    (undone, ap (λ b. ok (if b then undone else pending)) now, refl)

-- These owners are always ready.
abbrev AnyTime : BootstrapState → List Text → Type 0
AnyTime t h = Unit

owners_Work : Works owners AnyTime
owners_Work = record {
  inspects = λ i t h mine ready.
      let (name, look_e, act_e) = owner_of i mine in
      subst (λ f. Reports f t h) (sym look_e) (look_plain name t h);
  undoes = λ i t w mine ready waiting.
      let (name, look_e, act_e) = owner_of i mine in
      subst (λ m. ((m t w).0 ≡ ok tt) × Unit × Settled i t (m t w).1.host) (sym act_e)
        (
          refl,
          tt,
          subst (λ f. Finds f t (codes name ∷ w.host)) (sym look_e) (took_out name t w.host),
        );
  notes = λ name t w ready. (refl, tt);
  records = λ t phase boundaries h ready. tt;
}

rollback-IsRolledBack_example :
    (u : BootstrapState) × (v : World (List Text)) × (rollback owners state_root lease sample
        (codes "ROLLBACK")
        at_work
      ≡ (ok u, v))
    × IsRolledBack owners (λ step t h. Unit) u v.host
    × (v.state_file ≡ state_value u)
unfolding equality is_absolute starts_with
rollback-IsRolledBack_example =
    rollback-IsRolledBack owners state_root sample AnyTime owners_Work owners-Confined refl (λ f. f)
      refl lease at_work (λ w ready. (refl, tt)) (λ w. refl) tt sample-IsValid refl refl

abbrev rolled : Result BootstrapState × World (List Text)
rolled = rollback owners state_root lease sample (codes "ROLLBACK") at_work

rolled_state :
    rolled.0
    ≡ ok (record sample {
      phase = rolled_back;
      completed_boundaries =
          codes "ge-extracted"
          ∷ codes "fm-published"
          ∷ codes "rollback-patches"
          ∷ codes "rollback-runtime"
          ∷ codes "rollback-threading"
          ∷ codes "rollback-compat-tool"
          ∷ codes "rolled-back"
          ∷ [];
    })
unfolding equality state_parsing transition_locked validate_transition_request updated_state
    updated_fields write_once boundary_updates rollback rollback_under_lease under_lease
    confirmed_rollback preflight preflight_step is_accepted begin_rollback roll_back_steps
    roll_back_step settle undo steps_of transition is_absolute starts_with durable_recovery_state
    load_transaction rollback_checkpoint saved same_state phase_eq disposition_eq status_eq
    allowed_transitions set_item terminal_phases
rolled_state = refl
