-- ===== src/Registry/Approvals/Frozen.antt =====
-- The approval policy of a run that has ended.
use asterism.Prelude.{ℕ, String, ◌≡◌, refl, sym, ◌∙◌, true, Option, some}
use asterism.Prelude.Results.{ok, err}
use asterism.RunState.{RunStatus, is_terminal, parse}
use asterism.RunPolicy.{RunApprovalPolicy}
use asterism.Registry.Tables.{RunRow, Registry}
use asterism.Registry.Requests.{Serde, terminal_policy}
use asterism.Registry.Runs.{find_run}
use asterism.Registry.Approvals.{set_run_approval_policy, run_approval_policy, stored_policy}
use asterism.Registry.Approvals.Laws.{set_policy_terminal}
use asterism.Registry.Steps.{Reach}
use asterism.Registry.History.{Reach-Keeps, terminal_status_immutable}

-- What `run_approval_policy` reads for a stored run.
run_approval_policy-found :
    (id : String) (row : RunRow) (db : Registry)
    → find_run id db ≡ some row
    → run_approval_policy db id ≡ stored_policy row
unfolding run_approval_policy
run_approval_policy-found id row db found = rw (found, run_approval_policy) refl

-- Once a run's status is terminal, its approval policy never changes: after every sequence of
-- operations of the registry, one after another, the same policy is read, with the same actor and the same times, and
-- every call that would set one, even to the same policy, is refused.
pub policy_frozen :
    (serde : Serde) (db db' : Registry) (id : String) (row : RunRow) (status : RunStatus)
    → Reach serde db db'
    → find_run id db ≡ some row
    → parse row.status ≡ ok status
    → is_terminal status ≡ true
    → (run_approval_policy db' id ≡ run_approval_policy db id)
      × ((now : ℕ) (policy : RunApprovalPolicy) (actor : Option String)
          → set_run_approval_policy now id policy actor db' ≡ err (terminal_policy id))
policy_frozen serde db db' id row status r found parsed over =
    let (row', found', evolved) = Reach-Keeps r id row found in
    let (last, found_last, parsed_last) =
      terminal_status_immutable serde db db' id row status r found parsed over in
    (
      run_approval_policy-found id row' db' found'
          ∙ (evolved.frozen status parsed over ∙ sym (run_approval_policy-found id row db found)),
      λ now policy actor.
          set_policy_terminal now id policy actor db' last status found_last parsed_last over,
    )
