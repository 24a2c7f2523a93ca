-- ===== src/Convergence/Deadline.antt =====
-- The wait is bounded: `converge` answers by its deadline.
use asterism.Prelude.{ℕ, suc, ◌+◌, ◌≤◌, List}
use asterism.Prelude.Results.{Result}
use asterism.Convergence.{Host, Converged, Policy, NotConverged}

-- An answer: success, or the targets that are late.
abbrev pub Answer : Type 0
Answer = Result (List NotConverged) (List Converged)

-- The clock does not go back, and a round and the sleep after it take at least the interval.
abbrev pub IsPaced : Policy → Host → Type 0
IsPaced policy host =
    (host.started ≤ host.now 0)
    × ((round : ℕ) → host.now round + policy.interval ≤ host.now (suc round))
