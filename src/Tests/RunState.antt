-- ===== src/Tests/RunState.antt =====
-- The theorems of RunState/Lifecycle at concrete statuses.
use asterism.Prelude.{◌≡◌, refl, ◌↔◌, ◌⊎◌}
use asterism.Prelude.Results.{ok}
use asterism.RunState.{
  created, completed, recovering, failed, cancelled, lost, is_active, validate_transition,
}
use asterism.RunState.Lifecycle.{active_resolves}
use asterism.RunState.Drawn.{◌⇢◌, IsUnsubmittedEnd, validate_iff_drawn}

validate_iff_drawn_example :
    (validate_transition created completed ≡ ok tt)
    ↔ ((created ≡ completed) ⊎ ((created ⇢ completed) × ¬ IsUnsubmittedEnd created completed))
validate_iff_drawn_example = validate_iff_drawn created completed

active_resolves_example :
    (validate_transition recovering failed ≡ ok tt)
    × (validate_transition recovering cancelled ≡ ok tt)
    × (validate_transition recovering lost ≡ ok tt)
unfolding is_active
active_resolves_example = active_resolves recovering refl
