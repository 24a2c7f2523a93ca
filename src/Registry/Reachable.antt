-- ===== src/Registry/Reachable.antt =====
-- The invariant of the registry along every sequence of operations.
use asterism.Prelude.{ℕ, String, ◌≡◌, refl, Option, arith}
use asterism.Prelude.Table.{unwrap_or}
use asterism.RunState
use asterism.RunState.{RunStatus, is_terminal}
use asterism.RunPolicy.{RunApprovalPolicy}
use asterism.Registry.Tables.{RunRow, Registry, no_rows}
use asterism.Registry.Requests.{Serde, NewRun, RunUpdate}
use asterism.Registry.Runs.{find_run, new_row}
use asterism.Registry.Updates.{updated_row}
use asterism.Registry.Approvals.{policy_row}
use asterism.Registry.Shapes.{Applied}
use asterism.Registry.Invariant.{HasStatus, IsValid, no_rows-IsValid}
use asterism.Registry.Preserve.{with_modified-IsValid, with_run-IsValid, written_event-IsValid}
use asterism.Registry.Steps.{
  Reach, here, next, Effect, untouched, inserted, changed_status, wrote, wrote_and_changed,
  changed_policy, Step-Effect,
}

updated_row-HasStatus :
    (serde : Serde) (now : ℕ) (target : RunStatus) (u : RunUpdate) (row : RunRow)
    → HasStatus (updated_row serde now target u row)
unfolding updated_row
updated_row-HasStatus serde now target u row = record {
  current = target;
  stored = refl;
  finished = λ h. ground arith;
}

new_row-HasStatus :
    (serde : Serde) (now : ℕ) (id : String) (request : NewRun)
    → HasStatus (new_row serde now id request)
unfolding new_row is_terminal
new_row-HasStatus serde now id request = record {
  current = RunState.created;
  stored = refl;
  finished = λ h. cc;
}

policy_row-HasStatus :
    (now : ℕ) (policy : RunApprovalPolicy) (actor : Option String) (row : RunRow)
    → HasStatus row
    → HasStatus (policy_row now policy actor row)
unfolding policy_row
policy_row-HasStatus now policy actor row s = record {
  current = s.current;
  stored = s.stored;
  finished = s.finished;
}

Applied-IsValid :
    (serde : Serde) (now : ℕ) (id : String) (u : RunUpdate) (db db' : Registry)
    → Applied serde now id u db db'
    → IsValid db
    → IsValid db'
unfolding updated_row
Applied-IsValid serde now id u db db' a v =
    let target = unwrap_or u.status a.current in
    rw a.result (
      with_modified-IsValid id (updated_row serde now target u) db (λ r. refl) (λ r. refl)
        (λ r found. updated_row-HasStatus serde now target u r) v)

untouched-IsValid :
    (db db' : Registry) → db'.runs ≡ db.runs → db'.events ≡ db.events → IsValid db → IsValid db'
unfolding find_run
untouched-IsValid db db' p q v = record {
  statuses = λ id row h. v.statuses id row (rw p at h);
  journal = λ id row h. rw q (v.journal id row (rw p at h));
  owned = λ id h. rw q (v.owned id (rw p at h));
}

Effect-IsValid :
    {serde : Serde} {db db' : Registry} → Effect serde db db' → IsValid db → IsValid db'
unfolding new_row policy_row
Effect-IsValid {serde} {db} {db'} (untouched p q) v = untouched-IsValid db db' p q v
Effect-IsValid {serde} {db} (inserted now id request unused e) v = rw e (
    with_run-IsValid (new_row serde now id request) db unused refl
      (new_row-HasStatus serde now id request) v)
Effect-IsValid {serde} {db} {db'} (changed_status now id u a) v =
    Applied-IsValid serde now id u db db' a v
Effect-IsValid {serde} {db} (wrote now id event row found e) v =
    rw e (written_event-IsValid serde now id event row db found v)
Effect-IsValid {serde} {db} {db'} (wrote_and_changed now id event row u found a) v =
    Applied-IsValid serde now id u _ db' a (written_event-IsValid serde now id event row db found v)
Effect-IsValid {serde} {db} (changed_policy now id policy actor live e) v = rw e (
    with_modified-IsValid id (policy_row now policy actor) db (λ r. refl) (λ r. refl)
      (λ r found. policy_row-HasStatus now policy actor r (v.statuses id r found)) v)

Reach-IsValid :
    {serde : Serde} {start db : Registry} → IsValid start → Reach serde start db → IsValid db
Reach-IsValid v here = v
Reach-IsValid v (next r s) = Effect-IsValid (Step-Effect s) (Reach-IsValid v r)

-- Whatever operations have run on an empty registry, each stored status is one of the ten texts,
-- a run with a terminal status has its time of finishing, the events of a run carry the numbers
-- 1, 2, …, `last_event_seq` in the order of the journal, and no event belongs to an unknown run.
pub registry-IsValid : (serde : Serde) (db : Registry) → Reach serde no_rows db → IsValid db
registry-IsValid serde db r = Reach-IsValid no_rows-IsValid r
