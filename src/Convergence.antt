-- ===== src/Convergence.antt =====
-- src/convergence.rs: waiting for restarted services to become the processes they are meant to be.
-- What systemd, the kernel and the disk answer at one look is a `Sight`; a `Host` gives the sight
-- of each unit in each round of the loop, and the clock's reading at the start of the round.
pub mod Observed
pub mod Settled
pub mod Proved
pub mod Deadline
use asterism.Prelude.{
  ℕ, zero, suc, ◌-◌, Bool, true, false, not, ◌&&◌, Option, none, some, List, [], ◌∷◌, map, leb,
  ◌==◌, if◌then◌else◌,
}
use asterism.Prelude.Results.{Result, ok, err}
use asterism.Prelude.Table.{unwrap_or, is_some, map_option}
use asterism.Text.{Text, codes, text_eq, trim}
use asterism.FilePaths.{
  FilePath, path_eq, path_starts_with, parent_or_root, join_component, shown_ends_with,
  with_extension,
}
use asterism.Convergence.Observed.{
  ActiveState, Disk, ExecutableClass, Expectation, FileId, Held, Observation, ProcessImage, Role,
  Sight, Target, UnitStatus, activating, active, classify, classify_image, deactivating, deleted,
  expected, failed, file, good, host_hermes, inactive, is_active, is_expected, key, matches_disk,
  no_process, node, observe, outside, parse_active_state, previous, previous_runtime_root,
  project_worker, reloading, replaced, runtime_tree, same_file, same_held, unknown, unreadable,
}

-- Durations are in milliseconds.
pub record Policy : Type 0 where
  pub deadline : ℕ
  pub interval : ℕ
  pub settle : ℕ

abbrev pub default_policy : Policy
default_policy = record { deadline = 120000; interval = 500; settle = 5000 }

pub record Converged : Type 0 where
  pub converged_role : Role
  pub converged_pid : ℕ

pub data Reason : Type 0 where
  not_active no_main_process wrong_executable unsettled : Reason

pub record NotConverged : Type 0 where
  pub failed_role : Role
  pub reason : Reason
  pub last : Observation

-- `NotConverged::from_last`
unfoldable pub from_last : Role → Observation → NotConverged
from_last role last = record {
  failed_role = role;
  reason =
      if not (is_active last.seen_state)
      then not_active
      else if not (is_some last.seen_pid)
      then no_main_process
      else if not (is_expected last.executable)
      then wrong_executable
      else unsettled;
  last = last;
}

-- The state of the loop for one target.
pub record Watch : Type 0 where
  pub last_seen : Option Observation
  pub since : Option (ℕ × Held)
  pub done : Option ℕ

abbrev pub new_watch : Watch
new_watch = record { last_seen = none; since = none; done = none }

-- A good look at `held`, at the time `now`.
unfoldable pub look_good : ℕ → ℕ → Held → Watch → Watch
look_good settle now held w = elim w.since [
  | none ↦ record w { since = some (now, held) }
  | some (start, before) ↦
      if same_held before held
      then (if leb settle (now - start) then record w { done = some held.0 } else w)
      else record w { since = some (now, held) }
]

-- The match of the loop on `(seen.good(), seen.key())`.
unfoldable pub look : ℕ → ℕ → Observation → Watch → Watch
unfolding look_good good key
look settle now seen w = elim (key seen) [
  | none ↦ record w { since = none }
  | some held ↦ if good seen then look_good settle now held w else record w { since = none }
]

-- The body of the loop for one target.
unfoldable pub watch_target : ℕ → ℕ → Observation → Watch → Watch
unfolding look
watch_target settle now seen w =
    if is_some w.done then w else record (look settle now seen w) { last_seen = some seen }

pub record Host : Type 0 where
  pub started : ℕ
  pub now : (round : ℕ) → ℕ
  pub sight : (round : ℕ) → (unit : Text) → Sight

abbrev pub Watches : Type 0
Watches = List (Target × Watch)

unfoldable pub watch_all : ℕ → Host → ℕ → Watches → Watches
unfolding watch_target observe
watch_all settle host round [] = []
watch_all settle host round ((target, w) ∷ rest) =
    (target, watch_target settle (host.now round) (observe (host.sight round target.unit) target) w)
    ∷ watch_all settle host round rest

abbrev pub all_done : Watches → Bool
all_done [] = true
all_done ((target, w) ∷ rest) = is_some w.done && all_done rest

abbrev pub converged : Target × Watch → Converged
converged (target, w) = record { converged_role = target.role; converged_pid = unwrap_or w.done 0 }

abbrev pub not_observed : Observation
not_observed = record {
  seen_state = unknown;
  seen_pid = none;
  executable = no_process;
  identity = none;
}

-- The targets that are not done.
unfoldable pub not_converged : Watches → List NotConverged
unfolding from_last
not_converged [] = []
not_converged ((target, w) ∷ rest) =
    if is_some w.done
    then not_converged rest
    else from_last target.role (unwrap_or w.last_seen not_observed) ∷ not_converged rest

-- The loop of `converge` from a round on, for at most `rounds` rounds.
unfoldable pub converge_from :
    (rounds : ℕ)
    → Policy
    → Host
    → ℕ
    → Watches
    → Option (Result (List NotConverged) (List Converged))
unfolding watch_all not_converged
converge_from zero policy host round watches = none
converge_from (suc rounds) policy host round watches =
    let seen = watch_all policy.settle host round watches in
    let rest = converge_from rounds policy host (suc round) seen in
    if all_done seen
    then some (ok (map converged seen))
    else if leb policy.deadline (host.now round - host.started)
    then some (err (not_converged seen))
    else rest

abbrev pub start_watch : Target → Target × Watch
start_watch target = (target, new_watch)

-- `converge`, from the round 0.
unfoldable pub converge :
    (rounds : ℕ)
    → Policy
    → Host
    → List Target
    → Option (Result (List NotConverged) (List Converged))
unfolding converge_from
converge rounds policy host targets = converge_from rounds policy host 0 (map start_watch targets)

pub data RestartFailure : Type 0 where
  refused : Role → (error : Text) → RestartFailure
  timed_out : List NotConverged → RestartFailure

-- The restarts, each once and in order, until one is refused; `restart` answers with an error or
-- nothing.
unfoldable pub restart_all : (Text → Option Text) → List Target → Option RestartFailure
restart_all restart [] = none
restart_all restart (target ∷ rest) = elim (restart target.unit) [
  | some error ↦ some (refused target.role error)
  | none ↦ restart_all restart rest
]

abbrev pub restart_result :
    Result (List NotConverged) (List Converged) → Result RestartFailure (List Converged)
restart_result (ok done) = ok done
restart_result (err late) = err (timed_out late)

unfoldable pub restart_and_converge :
    (Text → Option Text)
    → (rounds : ℕ) → Policy
    → Host
    → List Target
    → Option (Result RestartFailure (List Converged))
unfolding restart_all converge
restart_and_converge restart rounds policy host targets = elim (restart_all restart targets) [
  | some failure ↦ some (err failure)
  | none ↦ map_option restart_result (converge rounds policy host targets)
]
