-- ===== src/RunPolicy.antt =====
-- src/runpolicy.rs: how the approval requests of one run are answered.
use asterism.Prelude.{ℕ, String, ◌≡◌, refl, Bool, true, false, Option, none, str_eq, if◌then◌else◌}
use asterism.Prelude.Results.{Result, ok, err}

pub data RunApprovalPolicy : Type 0 where
  manual allow_all_for_run : RunApprovalPolicy

unfoldable pub as_str : RunApprovalPolicy → String
as_str manual = "manual"
as_str allow_all_for_run = "allow_all_for_run"

unfoldable pub parse : String → Result String RunApprovalPolicy
parse value =
    if str_eq value "manual"
    then ok manual
    else if str_eq value "allow_all_for_run"
    then ok allow_all_for_run
    else err value

unfoldable pub bypasses_approval : RunApprovalPolicy → Bool
bypasses_approval manual = false
bypasses_approval allow_all_for_run = true

pub record RunPolicyState : Type 0 where
  pub policy : RunApprovalPolicy
  pub enabled_by : Option String
  pub enabled_at : Option ℕ
  pub updated_at : Option ℕ

unfoldable pub default : RunPolicyState
default = record { policy = manual; enabled_by = none; enabled_at = none; updated_at = none }

pub parse-as_str : (p : RunApprovalPolicy) → parse (as_str p) ≡ ok p
unfolding parse as_str
parse-as_str manual = refl
parse-as_str allow_all_for_run = refl
