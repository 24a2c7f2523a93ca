-- ===== src/Policy.antt =====
-- src/policy.rs: the refusal of an unsafe runtime.
pub mod Config
use asterism.Prelude.{
  String, ◌≡◌, refl, ap, Bool, true, false, not, ◌&&◌, Option, none, some, arith, ◌↔◌,
  if◌then◌else◌,
}
use asterism.Prelude.Results.{Result, ok, err, guard, ◌>>◌}
use asterism.Text.{Text, codes, text_eq}
use asterism.Text.Bounds.{text_eq_iff}

pub record RuntimeConfiguration : Type 0 where
  pub openai_runtime : Option Text
  pub approvals_mode : Option Text

abbrev pub opt_text_eq : Option Text → Text → Bool
opt_text_eq none t = false
opt_text_eq (some s) t = text_eq s t

-- `RuntimeConfiguration::uses_native_codex`
unfoldable pub uses_native_codex : RuntimeConfiguration → Bool
uses_native_codex config = opt_text_eq config.openai_runtime (codes "codex_app_server")

-- `RuntimeConfiguration::approvals_bypassed`
unfoldable pub approvals_bypassed : RuntimeConfiguration → Bool
approvals_bypassed config = opt_text_eq config.approvals_mode (codes "off")

pub data PolicyDecision : Type 0 where
  allow : PolicyDecision
  allow_with_override : (warning : String) → PolicyDecision
  deny : (reason : String) → PolicyDecision

pub record UnsafeRuntime : Type 0 where
  pub project_id : String
  pub reason : String

abbrev pub override_warning : String
override_warning =
    "UNSAFE RUNTIME: native codex_app_server is running with approvals.mode=off. Every Codex permission request is auto-approved and no approval.request event reaches the Asterism API. This mode is for controlled testing only; stop the project as soon as the test completes."

abbrev pub denial_reason : String
denial_reason =
    "model.openai_runtime=codex_app_server requires approvals.mode=off to execute, which auto-approves every Codex request and emits no approval.request events. Use the default Hermes agent loop (model.openai_runtime=auto), or pass --unsafe-allow-codex-approval-bypass for a controlled, supervised test."

-- `evaluate`; the override is the flag that the one scoped override wraps.
unfoldable pub evaluate : RuntimeConfiguration → Bool → PolicyDecision
evaluate config override_flag =
    if not (uses_native_codex config && approvals_bypassed config)
    then allow
    else if override_flag
    then allow_with_override override_warning
    else deny denial_reason

-- `enforce`, with the warning that it prints
unfoldable pub enforce : String → RuntimeConfiguration → Bool → Result UnsafeRuntime (Option String)
unfolding evaluate
enforce project_id config override_flag = elim (evaluate config override_flag) [
  | allow ↦ ok none
  | allow_with_override warning ↦ ok (some warning)
  | deny reason ↦ err (record { project_id = project_id; reason = reason })
]

pub data OverrideRefusal : Type 0 where
  override_missing override_not_applicable : OverrideRefusal

-- `require_override_for_unsafe_test`
unfoldable pub require_override_for_unsafe_test :
    RuntimeConfiguration → Bool → Result OverrideRefusal (Unit {0})
require_override_for_unsafe_test config override_flag = do
  guard override_flag override_missing
  guard (uses_native_codex config) override_not_applicable
  ok tt

opt_text_eq_iff : (o : Option Text) (t : Text) → (opt_text_eq o t ≡ true) ↔ (o ≡ some t)
opt_text_eq_iff none t = ground arith
opt_text_eq_iff (some s) t = ground (arith, text_eq_iff s t)

enforce-test :
    (project_id : String) (config : RuntimeConfiguration) (override_flag : Bool)
    → enforce project_id config override_flag ≡ (
        if uses_native_codex config && approvals_bypassed config
        then (if override_flag
            then ok (some override_warning)
            else err (record { project_id = project_id; reason = denial_reason }))
        else ok none)
unfolding enforce
enforce-test project_id config override_flag = ground arith

-- The native runtime together with bypassed approvals.
abbrev pub IsUnsafe : RuntimeConfiguration → Type 0
IsUnsafe config =
    (config.openai_runtime ≡ some (codes "codex_app_server"))
    × (config.approvals_mode ≡ some (codes "off"))

-- A start is refused, with any error, exactly for native Codex with bypassed approvals and no
-- override, and the error then names the project and the reason. It is let through with a warning
-- exactly for that configuration with the override, and without one exactly for every other.
pub enforce-IsUnsafe :
    (project_id : String) (config : RuntimeConfiguration) (override_flag : Bool)
    → (((e : UnsafeRuntime) × (enforce project_id config override_flag ≡ err e))
        ↔ (IsUnsafe config × (override_flag ≡ false)))
      × ((e : UnsafeRuntime)
          → enforce project_id config override_flag ≡ err e
          → e ≡ record { project_id = project_id; reason = denial_reason })
      × ((enforce project_id config override_flag ≡ ok (some override_warning))
          ↔ (IsUnsafe config × (override_flag ≡ true)))
      × ((enforce project_id config override_flag ≡ ok none) ↔ ¬ IsUnsafe config)
unfolding uses_native_codex approvals_bypassed
enforce-IsUnsafe project_id config override_flag = ground (
  arith,
  enforce-test project_id config override_flag,
  opt_text_eq_iff config.openai_runtime (codes "codex_app_server"),
  opt_text_eq_iff config.approvals_mode (codes "off"),
)
