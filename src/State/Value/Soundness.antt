-- ===== src/State/Value/Soundness.antt =====
-- Every state that the parser accepts is valid.
use forza_motorsport_linux.Base.{
  ℕ, String, ◌≡◌, ◌≢◌, refl, ap, ◌∙◌, Text, Bool, true, not, Option, none, some, List, [], ◌∷◌,
  Result, ok, arith, raise_if, >>=-eq-ok, Ensures, Ensures-ok, Ensures-err, Ensures-bind, All,
  all_of-All, All-map, Among, contains, refuse_if-ok, Bool-cases, ◌==◌, ==_iff, inl, inr,
  is_hex_of_length, nat_eq, list_eq, string_eq,
}
use forza_motorsport_linux.Json.{
  Json, null, int, str, list, dict, Items, nil, item, Fields, get_item, has_keys, keys, to_items,
}
use forza_motorsport_linux.State.{
  BootstrapPhase, BootstrapState, Disposition, phases, phase_value, member_with, state_keys,
  phase_of, require_string, require_token, require_sha256,
}
use forza_motorsport_linux.State.Value.{
  require_version, require_patch_backup_manifest, is_backup_path, boundary_texts,
  distinct_boundaries, require_boundaries, optional, require_disposition, state_from_value,
  optional_text, optional_disposition,
}
use forza_motorsport_linux.State.Value.RoundTrip.{
  IsValid, IsDistinct, Passes, is_distinct-IsDistinct,
}

require_version-ok : (v : Json) (n : ℕ) → require_version v ≡ ok n → (v ≡ int n) × (n ≡ 1)
unfolding require_version
require_version-ok (int m) n h = (ground arith, ground arith)
require_version-ok _ n h = cc

require_string-ok :
    (v : Json) (label : String) (t : Text) → require_string v label ≡ ok t → v ≡ str t
unfolding require_string
require_string-ok (str u) label t h = cc
require_string-ok _ label t h = cc

require_token-ok :
    (v : Json) (label : String) (t : Text)
    → require_token v label ≡ ok t
    → (v ≡ str t) × (is_hex_of_length 24 t ≡ true)
unfolding require_token require_string
require_token-ok (str u) label t h = (ground arith, ground arith)
require_token-ok _ label t h = cc

require_sha256-ok :
    (v : Json) (label : String) (t : Text)
    → require_sha256 v label ≡ ok t
    → (v ≡ str t) × (is_hex_of_length 64 t ≡ true)
unfolding require_sha256 require_string
require_sha256-ok (str u) label t h = (ground arith, ground arith)
require_sha256-ok _ label t h = cc

require_backup-ok :
    (v : Json) (t : Text)
    → require_patch_backup_manifest v ≡ ok t
    → (v ≡ str t) × (is_backup_path t ≡ true)
unfolding require_patch_backup_manifest require_string
require_backup-ok (str u) t h = (ground arith, ground arith)
require_backup-ok _ t h = cc

optional-null : (v : Json) (require : Json → Result Text) → optional require v ≡ ok none → v ≡ null
unfolding optional
optional-null null require h = refl
optional-null v require h = let (u, e, k) = >>=-eq-ok (require v) (λ text. ok (some text)) h in cc

optional-some :
    (v : Json) (require : Json → Result Text) (t : Text)
    → optional require v ≡ ok (some t)
    → require v ≡ ok t
unfolding optional
optional-some null require t h = cc
optional-some v require t h =
    let (u, e, k) = >>=-eq-ok (require v) (λ text. ok (some text)) h in ground arith

optional-ok :
    (test : Text → Bool) (require : Json → Result Text) (v : Json) (o : Option Text)
    → ((w : Json) (t : Text) → require w ≡ ok t → (w ≡ str t) × (test t ≡ true))
    → optional require v ≡ ok o
    → (v ≡ optional_text o) × Passes test o
unfolding optional_text
optional-ok test require v none sound h = (optional-null v require h, tt)
optional-ok test require v (some t) sound h = sound v t (optional-some v require t h)

boundary_texts-ok :
    (items : Items) (texts : List Text)
    → boundary_texts items ≡ some texts
    → (items ≡ to_items str texts) × All (λ t. t ≢ []) texts
unfolding boundary_texts to_items
boundary_texts-ok nil [] h = (refl, tt)
boundary_texts-ok nil (t ∷ texts) h = cc
boundary_texts-ok (item (str []) rest) texts h = cc
boundary_texts-ok (item (str (c ∷ u)) rest) [] h = ground arith
boundary_texts-ok (item (str (c ∷ u)) rest) (t ∷ texts) h =
    let ih : (rest ≡ to_items str texts) × All (λ t. t ≢ []) texts =
      boundary_texts-ok rest texts (ground arith) in
    (ground arith, (ground arith, ih.1))
boundary_texts-ok (item _ rest) texts h = cc

require_boundaries-ok :
    (v : Json) (texts : List Text)
    → require_boundaries v ≡ ok texts
    → (v ≡ list (to_items str texts)) × All (λ t. t ≢ []) texts × IsDistinct texts
unfolding require_boundaries distinct_boundaries
require_boundaries-ok (list items) texts h =
    let parsed : (items ≡ to_items str texts) × All (λ t. t ≢ []) texts =
      boundary_texts-ok items texts (ground arith) in
    (ap list parsed.0, parsed.1, is_distinct-IsDistinct texts (ground arith))
require_boundaries-ok _ texts h = cc

member_with-ok :
    (t : Text) (ps : List BootstrapPhase) (p : BootstrapPhase)
    → member_with t ps ≡ some p
    → t ≡ phase_value p
unfolding member_with
member_with-ok t [] p h = cc
member_with-ok t (q ∷ ps) p h = ground (arith, member_with-ok t ps p)

phase_of-ok : (t : Text) (p : BootstrapPhase) → phase_of t ≡ ok p → t ≡ phase_value p
unfolding phase_of
phase_of-ok t p h = member_with-ok t phases p (ground arith)

require_disposition-ok :
    (v : Json) (d : Option Disposition) → require_disposition v ≡ ok d → v ≡ optional_disposition d
unfolding require_disposition optional_disposition
require_disposition-ok null d h = ground arith
require_disposition-ok (str text) d h = ground arith
require_disposition-ok _ d h = cc

contains-Among :
    (names : List String) (name : String) → contains names name ≡ true → Among names name
unfolding Among
contains-Among [] name h = cc
contains-Among (x ∷ names) name h = elim (Bool-cases (name == x)) [
  | inl same ↦ inl ((==_iff name x).0 same)
  | inr other ↦ inr (contains-Among names name (ground arith))
]

has_keys-Among :
    (expected : List String) (fields : Fields)
    → has_keys expected fields ≡ true
    → All (Among expected) (keys fields)
unfolding has_keys
has_keys-Among expected fields h =
    All-map (λ name. contains expected name ≡ true) (Among expected) (keys fields)
      (contains-Among expected) (all_of-All (contains expected) (keys fields) (ground arith))

-- The dict holds each field of the state under the field's name, in its JSON form, and no other key.
pub record Holds (fields : Fields) (s : BootstrapState) : Type 0 where
  pub no_other : All (Among state_keys) (keys fields)
  pub version : get_item "version" fields ≡ ok (int s.version)
  pub transaction_id : get_item "transaction_id" fields ≡ ok (str s.transaction_id)
  pub manifest_sha256 : get_item "manifest_sha256" fields ≡ ok (str s.manifest_sha256)
  pub phase : get_item "phase" fields ≡ ok (str (phase_value s.phase))
  pub boundaries :
      get_item "completed_boundaries" fields ≡ ok (list (to_items str s.completed_boundaries))
  pub child :
      get_item "child_runtime_transaction" fields ≡ ok (optional_text s.child_runtime_transaction)
  pub backup : get_item "patch_backup_manifest" fields ≡ ok (optional_text s.patch_backup_manifest)
  pub disposition :
      get_item "compatibility_tool_disposition" fields
      ≡ ok (optional_disposition s.compatibility_tool_disposition)
  pub finish : get_item "finish_plan_sha256" fields ≡ ok (optional_text s.finish_plan_sha256)

abbrev pub Parsed : Json → Option Text → BootstrapState → Type 0
Parsed (dict fields) root s = IsValid s × Holds fields s × (s.state_root ≡ root)
Parsed _ root s = ⊥

state_from_value-Ensures :
    (v : Json) (root : Option Text) → Ensures (Parsed v root) (state_from_value v root)
unfolding state_from_value
state_from_value-Ensures (dict fields) root =
    Ensures-bind (raise_if (not (has_keys state_keys fields)) "state schema is invalid") _ λ u0 e0.
      Ensures-bind (get_item "version" fields) _ λ j1 g1.
        Ensures-bind (require_version j1) _ λ a1 e1.
          Ensures-bind (get_item "transaction_id" fields) _ λ j2 g2.
            Ensures-bind (require_token j2 "transaction_id") _ λ a2 e2.
              Ensures-bind (get_item "manifest_sha256" fields) _ λ j3 g3.
                Ensures-bind (require_sha256 j3 "manifest_sha256") _ λ a3 e3.
                  Ensures-bind (get_item "phase" fields) _ λ j4 g4.
                    Ensures-bind (require_string j4 "phase") _ λ t4 e4.
                      Ensures-bind (phase_of t4) _ λ a4 p4.
                        Ensures-bind (get_item "completed_boundaries" fields) _ λ j5 g5.
                          Ensures-bind (require_boundaries j5) _ λ a5 e5.
                            Ensures-bind (get_item "child_runtime_transaction" fields) _ λ j6 g6.
                              Ensures-bind
                                (optional (λ v. require_token v "child_runtime_transaction") j6) _
                                λ a6 e6.
                                  Ensures-bind (get_item "patch_backup_manifest" fields) _ λ j7 g7.
                                    Ensures-bind (optional require_patch_backup_manifest j7) _
                                      λ a7 e7.
                                        Ensures-bind
                                          (get_item "compatibility_tool_disposition" fields) _
                                          λ j8 g8. Ensures-bind (require_disposition j8) _ λ a8 e8.
                                            Ensures-bind (get_item "finish_plan_sha256" fields) _
                                              λ j9 g9.
                                                Ensures-bind
                                                  (optional
                                                    (λ v. require_sha256 v "finish_plan_sha256") j9)
                                                  _
                                                  λ a9 e9.
                                                    let r1 : (j1 ≡ int a1) × (a1 ≡ 1) =
                                                      require_version-ok j1 a1 e1 in
                                                    let r2 : (j2 ≡ str a2)
                                                        × (is_hex_of_length 24 a2 ≡ true) =
                                                      require_token-ok j2 _ a2 e2 in
                                                    let r3 : (j3 ≡ str a3)
                                                        × (is_hex_of_length 64 a3 ≡ true) =
                                                      require_sha256-ok j3 _ a3 e3 in
                                                    let r5 = require_boundaries-ok j5 a5 e5 in
                                                    let r6 : (j6 ≡ optional_text a6)
                                                        × Passes (is_hex_of_length 24) a6 =
                                                      optional-ok (is_hex_of_length 24) _ j6 a6
                                                        (λ w. require_token-ok w _) e6 in
                                                    let r7 : (j7 ≡ optional_text a7)
                                                        × Passes is_backup_path a7 =
                                                      optional-ok is_backup_path _ j7 a7
                                                        require_backup-ok e7 in
                                                    let r9 : (j9 ≡ optional_text a9)
                                                        × Passes (is_hex_of_length 64) a9 =
                                                      optional-ok (is_hex_of_length 64) _ j9 a9
                                                        (λ w. require_sha256-ok w _) e9 in
                                                    Ensures-ok _ (
                                                      record {
                                                        version = r1.1;
                                                        transaction_id = r2.1;
                                                        manifest_sha256 = r3.1;
                                                        nonempty = r5.1;
                                                        distinct = r5.2;
                                                        child = r6.1;
                                                        backup = r7.1;
                                                        finish = r9.1;
                                                      },
                                                      record {
                                                        no_other =
                                                            has_keys-Among state_keys fields
                                                            (known u0 e0);
                                                        version = g1 ∙ ap ok r1.0;
                                                        transaction_id = g2 ∙ ap ok r2.0;
                                                        manifest_sha256 = g3 ∙ ap ok r3.0;
                                                        phase =
                                                            g4
                                                            ∙ ap ok (
                                                            require_string-ok j4 _ t4 e4
                                                            ∙ ap str (phase_of-ok t4 a4 p4));
                                                        boundaries = g5 ∙ ap ok r5.0;
                                                        child = g6 ∙ ap ok r6.0;
                                                        backup = g7 ∙ ap ok r7.0;
                                                        disposition =
                                                            g8
                                                            ∙ ap ok
                                                            (require_disposition-ok j8 a8 e8);
                                                        finish = g9 ∙ ap ok r9.0;
                                                      },
                                                      refl,
                                                    )
  where
    known :
        (u : Unit {0})
        → raise_if (not (has_keys state_keys fields)) "state schema is invalid" ≡ ok u
        → has_keys state_keys fields ≡ true
    known u e = let shut = refuse_if-ok (not (has_keys state_keys fields)) _ u e in ground arith
state_from_value-Ensures _ root = Ensures-err _

-- A value that is accepted is a dict that holds each of the state's nine fields and has no other key,
-- and the state is valid and bound to the root that was passed.
pub state_from_value-Parsed :
    (v : Json) (root : Option Text) (s : BootstrapState)
    → state_from_value v root ≡ ok s
    → Parsed v root s
state_from_value-Parsed v root s h = (state_from_value-Ensures v root).at s h

pub state_from_value-IsValid :
    (v : Json) (root : Option Text) (s : BootstrapState)
    → state_from_value v root ≡ ok s
    → IsValid s × (s.state_root ≡ root)
state_from_value-IsValid (dict fields) root s h =
    let parsed = state_from_value-Parsed (dict fields) root s h in (parsed.0, parsed.2)
state_from_value-IsValid v root s h = elim (state_from_value-Parsed v root s h) [ ]
