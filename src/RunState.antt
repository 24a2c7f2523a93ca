-- ===== src/RunState.antt =====
-- src/runstate.rs: the lifecycle states of a run and the transitions that are legal.
pub mod Lifecycle
pub mod Drawn
use asterism.Prelude.{String, ◌≡◌, refl, Bool, true, false, not, ◌||◌, str_eq, if◌then◌else◌}
use asterism.Prelude.Results.{Result, ok, err}

pub data RunStatus : Type 0 where
  created starting running waiting_for_approval recovering : RunStatus
  completed failed cancelled interrupted lost : RunStatus

unfoldable pub RunStatus-discrete : Discrete RunStatus
RunStatus-discrete = hlevel

unfoldable pub as_str : RunStatus → String
as_str created = "created"
as_str starting = "starting"
as_str running = "running"
as_str waiting_for_approval = "waiting_for_approval"
as_str recovering = "recovering"
as_str completed = "completed"
as_str failed = "failed"
as_str cancelled = "cancelled"
as_str interrupted = "interrupted"
as_str lost = "lost"

-- `parse` reports the text that it does not know.
pub record UnknownStatus : Type 0 where
  pub value : String

unfoldable pub parse : String → Result UnknownStatus RunStatus
parse value =
    if str_eq value "created"
    then ok created
    else if str_eq value "starting"
    then ok starting
    else if str_eq value "running"
    then ok running
    else if str_eq value "waiting_for_approval"
    then ok waiting_for_approval
    else if str_eq value "recovering"
    then ok recovering
    else if str_eq value "completed"
    then ok completed
    else if str_eq value "failed"
    then ok failed
    else if str_eq value "cancelled"
    then ok cancelled
    else if str_eq value "interrupted"
    then ok interrupted
    else if str_eq value "lost"
    then ok lost
    else err (record { value = value })

unfoldable pub is_terminal : RunStatus → Bool
is_terminal completed = true
is_terminal failed = true
is_terminal cancelled = true
is_terminal interrupted = true
is_terminal lost = true
is_terminal _ = false

unfoldable pub is_active : RunStatus → Bool
unfolding is_terminal
is_active s = not (is_terminal s)

unfoldable pub is_retryable : RunStatus → Bool
is_retryable interrupted = true
is_retryable lost = true
is_retryable _ = false

pub record InvalidTransition : Type 0 where
  pub from : RunStatus
  pub to : RunStatus

-- The `match from` of `validate_transition`; the local closure `terminal` is `is_terminal`.
unfoldable pub allowed : RunStatus → RunStatus → Bool
unfolding is_terminal
allowed created starting = true
allowed created failed = true
allowed created cancelled = true
allowed created lost = true
allowed starting running = true
allowed starting recovering = true
allowed starting to = is_terminal to
allowed running waiting_for_approval = true
allowed running recovering = true
allowed running to = is_terminal to
allowed waiting_for_approval running = true
allowed waiting_for_approval recovering = true
allowed waiting_for_approval to = is_terminal to
allowed recovering running = true
allowed recovering waiting_for_approval = true
allowed recovering to = is_terminal to
allowed _ _ = false

unfoldable pub validate_transition : RunStatus → RunStatus → Result InvalidTransition (Unit {0})
unfolding RunStatus-discrete is_terminal allowed
validate_transition from to = elim (RunStatus-discrete from to) [
  | yes _ ↦ ok tt
  | no _ ↦
      if is_terminal from
      then err (record { from = from; to = to })
      else if allowed from to
      then ok tt
      else err (record { from = from; to = to })
]

unfoldable pub from_hermes_status : String → RunStatus
from_hermes_status status =
    if str_eq status "completed"
    then completed
    else if str_eq status "failed"
    then failed
    else if str_eq status "cancelled"
    then cancelled
    else if str_eq status "waiting_for_approval"
    then waiting_for_approval
    else running

-- Reading back the text form of a status gives the status.
pub parse-as_str : (s : RunStatus) → parse (as_str s) ≡ ok s
unfolding parse as_str
parse-as_str created = refl
parse-as_str _ = refl
