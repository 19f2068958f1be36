-- ===== src/State/Value/RoundTrip.antt =====
-- What the parser of a transaction state accepts, and that it reads back what is written.
use forza_motorsport_linux.Base.{
  ℕ, String, ◌≡◌, ◌≢◌, refl, Text, Bool, true, false, Option, none, some, List, [], ◌∷◌, Result, ok,
  arith, All, is_hex_of_length, contains, nat_eq, list_eq, string_eq,
}
use forza_motorsport_linux.Json.{Json, int, str, list, to_items}
use forza_motorsport_linux.State.{
  BootstrapPhase, BootstrapState, Disposition, created, adopted, phase_value, phase_of,
  require_string, require_token, require_sha256,
}
use forza_motorsport_linux.State.Value.{
  require_version, require_patch_backup_manifest, is_backup_path, boundary_texts, is_distinct,
  distinct_boundaries, require_boundaries, optional, require_disposition, state_from_value,
  state_value, optional_text, optional_disposition,
}

-- No entry stands twice.
abbrev pub IsDistinct : List Text → Type 0
IsDistinct [] = Unit
IsDistinct (text ∷ texts) = All (λ t. t ≢ text) texts × IsDistinct texts

abbrev pub Passes : (Text → Bool) → Option Text → Type 0
Passes test none = Unit
Passes test (some text) = test text ≡ true

pub record IsValid (s : BootstrapState) : Type 0 where
  pub version : s.version ≡ 1
  pub transaction_id : is_hex_of_length 24 s.transaction_id ≡ true
  pub manifest_sha256 : is_hex_of_length 64 s.manifest_sha256 ≡ true
  pub nonempty : All (λ t. t ≢ []) s.completed_boundaries
  pub distinct : IsDistinct s.completed_boundaries
  pub child : Passes (is_hex_of_length 24) s.child_runtime_transaction
  pub backup : Passes is_backup_path s.patch_backup_manifest
  pub finish : Passes (is_hex_of_length 64) s.finish_plan_sha256

not-contains :
    (text : Text) (texts : List Text) → All (λ t. t ≢ text) texts → contains texts text ≡ false
not-contains text [] h = refl
not-contains text (t ∷ texts) h = ground (arith, not-contains text texts h.1)

not-contains_iff :
    (text : Text) (texts : List Text) → contains texts text ≡ false → All (λ t. t ≢ text) texts
not-contains_iff text [] h = tt
not-contains_iff text (t ∷ texts) h = (ground arith, not-contains_iff text texts (ground arith))

pub is_distinct-IsDistinct : (texts : List Text) → is_distinct texts ≡ true → IsDistinct texts
unfolding is_distinct
is_distinct-IsDistinct [] h = tt
is_distinct-IsDistinct (t ∷ texts) h =
    (not-contains_iff t texts (ground arith), is_distinct-IsDistinct texts (ground arith))

IsDistinct-is_distinct : (texts : List Text) → IsDistinct texts → is_distinct texts ≡ true
unfolding is_distinct
IsDistinct-is_distinct [] h = refl
IsDistinct-is_distinct (t ∷ texts) h =
    rw (not-contains t texts h.0) (IsDistinct-is_distinct texts h.1)

boundary_texts-to_items :
    (texts : List Text) → All (λ t. t ≢ []) texts → boundary_texts (to_items str texts) ≡ some texts
unfolding boundary_texts to_items
boundary_texts-to_items [] h = refl
boundary_texts-to_items ([] ∷ texts) h = absurd (h.0 refl)
boundary_texts-to_items ((c ∷ t) ∷ texts) h = rw (boundary_texts-to_items texts h.1)

require_boundaries-to_items :
    (texts : List Text)
    → All (λ t. t ≢ []) texts
    → IsDistinct texts
    → require_boundaries (list (to_items str texts)) ≡ ok texts
unfolding require_boundaries distinct_boundaries
require_boundaries-to_items texts h d =
    rw (boundary_texts-to_items texts h, distinct_boundaries) (rw (IsDistinct-is_distinct texts d))

pub phase_of-phase_value : (p : BootstrapPhase) → phase_of (phase_value p) ≡ ok p
unfolding phase_of phase_value list_eq nat_eq
phase_of-phase_value BootstrapPhase.new = refl
phase_of-phase_value _ = refl

require_disposition-value :
    (d : Option Disposition) → require_disposition (optional_disposition d) ≡ ok d
unfolding require_disposition optional_disposition list_eq nat_eq
require_disposition-value none = refl
require_disposition-value (some created) = refl
require_disposition-value (some adopted) = refl

optional-optional_text :
    (test : Text → Bool) (require : Json → Result Text) (o : Option Text)
    → ((t : Text) → test t ≡ true → require (str t) ≡ ok t)
    → Passes test o
    → optional require (optional_text o) ≡ ok o
unfolding optional optional_text
optional-optional_text test require none h p = refl
optional-optional_text test require (some t) h p = rw (h t p)

require_token_lem :
    (t : Text) (label : String) → is_hex_of_length 24 t ≡ true → require_token (str t) label ≡ ok t
unfolding require_token require_string
require_token_lem t label h = rw h

pub require_sha256_lem :
    (t : Text) (label : String) → is_hex_of_length 64 t ≡ true → require_sha256 (str t) label ≡ ok t
unfolding require_sha256 require_string
require_sha256_lem t label h = rw h

require_backup_lem :
    (t : Text) → is_backup_path t ≡ true → require_patch_backup_manifest (str t) ≡ ok t
unfolding require_patch_backup_manifest require_string
require_backup_lem t h = rw h

require_version_lem : (n : ℕ) → n ≡ 1 → require_version (int n) ≡ ok n
unfolding require_version
require_version_lem n h = ground arith

-- Reading back what was written for a valid state gives the same state.
pub state_from_value-state_value :
    (s : BootstrapState) → IsValid s → state_from_value (state_value s) s.state_root ≡ ok s
unfolding state_from_value state_value string_eq require_string
state_from_value-state_value s v =
    rw
      (
        require_version_lem s.version v.version,
        require_token_lem s.transaction_id "transaction_id" v.transaction_id,
        require_sha256_lem s.manifest_sha256 "manifest_sha256" v.manifest_sha256,
        phase_of-phase_value s.phase,
        require_boundaries-to_items s.completed_boundaries v.nonempty v.distinct,
        optional-optional_text (is_hex_of_length 24)
            (λ w. require_token w "child_runtime_transaction") s.child_runtime_transaction
            (λ t h. require_token_lem t _ h) v.child,
        optional-optional_text is_backup_path require_patch_backup_manifest s.patch_backup_manifest
            require_backup_lem v.backup,
        require_disposition-value s.compatibility_tool_disposition,
        optional-optional_text (is_hex_of_length 64) (λ w. require_sha256 w "finish_plan_sha256")
            s.finish_plan_sha256 (λ t h. require_sha256_lem t _ h) v.finish,
      )
      refl
