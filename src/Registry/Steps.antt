-- ===== src/Registry/Steps.antt =====
-- The operations of src/registry.rs as steps between registries, and the invariant along every
-- sequence of them.
use asterism.Prelude.{
  ℕ, String, ◌≡◌, sym, ap, ◌∙◌, Bool, true, false, not, inl, inr, Option, none, some, arith,
  if◌then◌else◌,
}
use asterism.Prelude.Results.{
  Result, ok, or_err, >>=-eq-ok, guard-eq-ok, or_err-eq-ok, ok-injective,
}
use asterism.Json.{Value}
use asterism.RunState.{RunStatus, parse, is_terminal}
use asterism.RunPolicy.{RunApprovalPolicy}
use asterism.Registry.Tables.{RunRow, Registry}
use asterism.Registry.Requests.{
  Serde, RegistryError, RunRecord, NewRun, RunCreation, RunUpdate, JournalEvent, AppendOutcome,
  vanished, unknown_run,
}
use asterism.Registry.Runs.{find_run, load_run, new_row, create_run}
use asterism.Registry.Updates.{apply_update, update_run, parse_status}
use asterism.Registry.Journal.{append_event}
use asterism.Registry.Approvals.{
  record_approval_request, record_approval_decision, record_approval_resolution,
  set_run_approval_policy, policy_row, run_approval_policy, same_policy,
}
use asterism.Registry.Shapes.{
  with_run, written_event, Applied, apply_update-Applied, create_run-cases, AppendedFresh,
  append_event-cases, parse_status-eq-ok,
}
use asterism.Registry.Preserve.{with_modified}

-- One call of an operation that writes. A call that fails is no step: its transaction is rolled
-- back.
pub data Step (serde : Serde) : Registry → Registry → Type 0 where
  create :
      {db db' : Registry} (now : ℕ) (run_id : String) (request : NewRun) (c : RunCreation)
      → create_run serde now run_id request db ≡ ok (c, db')
      → Step serde db db'
  update :
      {db db' : Registry} (now : ℕ) (run_id : String) (change : RunUpdate) (r : RunRecord)
      → update_run serde now run_id change db ≡ ok (r, db')
      → Step serde db db'
  append :
      {db db' : Registry} (now : ℕ) (run_id : String) (event : JournalEvent)
      (change : Option RunUpdate) (o : AppendOutcome)
      → append_event serde now run_id event change db ≡ ok (o, db')
      → Step serde db db'
  request_approval :
      {db db' : Registry} (now : ℕ) (run_id : String) (seq : ℕ) (command : Option String)
      (choices : Option Value)
      → record_approval_request serde now run_id seq command choices db ≡ ok db'
      → Step serde db db'
  decide :
      {db db' : Registry} (now : ℕ) (run_id : String) (seq : ℕ) (decision : String)
      → (record_approval_decision now run_id seq decision db).1 ≡ db'
      → Step serde db db'
  resolve :
      {db db' : Registry} (run_id : String) (seq resolution : ℕ)
      → record_approval_resolution run_id seq resolution db ≡ db'
      → Step serde db db'
  set_policy :
      {db db' : Registry} (now : ℕ) (run_id : String) (policy : RunApprovalPolicy)
      (actor : Option String) (changed : Bool)
      → set_run_approval_policy now run_id policy actor db ≡ ok (changed, db')
      → Step serde db db'

-- The registries that a sequence of operations leads to.
pub data Reach (serde : Serde) (start : Registry) : Registry → Type 0 where
  here : Reach serde start start
  next : {db db' : Registry} → Reach serde start db → Step serde db db' → Reach serde start db'

-- The run is stored with a status that is not terminal.
abbrev pub IsLive : String → Registry → Type 0
IsLive run_id db =
    (row : RunRow) × (status : RunStatus) × (find_run run_id db ≡ some row)
    × (parse row.status ≡ ok status)
    × (is_terminal status ≡ false)

-- What a step did to the tables of runs and events.
pub data Effect (serde : Serde) (db : Registry) : Registry → Type 0 where
  untouched : {db' : Registry} → db'.runs ≡ db.runs → db'.events ≡ db.events → Effect serde db db'
  inserted :
      {db' : Registry} (now : ℕ) (run_id : String) (request : NewRun)
      → find_run run_id db ≡ none
      → db' ≡ with_run (new_row serde now run_id request) db
      → Effect serde db db'
  changed_status :
      {db' : Registry} (now : ℕ) (run_id : String) (change : RunUpdate)
      → Applied serde now run_id change db db'
      → Effect serde db db'
  wrote :
      {db' : Registry} (now : ℕ) (run_id : String) (event : JournalEvent) (row : RunRow)
      → find_run run_id db ≡ some row
      → db' ≡ written_event serde now run_id event row db
      → Effect serde db db'
  wrote_and_changed :
      {db' : Registry} (now : ℕ) (run_id : String) (event : JournalEvent) (row : RunRow)
      (change : RunUpdate)
      → find_run run_id db ≡ some row
      → Applied serde now run_id change (written_event serde now run_id event row db) db'
      → Effect serde db db'
  changed_policy :
      {db' : Registry} (now : ℕ) (run_id : String) (policy : RunApprovalPolicy)
      (actor : Option String)
      → IsLive run_id db
      → db' ≡ with_modified run_id (policy_row now policy actor) db
      → Effect serde db db'

append-Effect :
    (serde : Serde) (now : ℕ) (run_id : String) (event : JournalEvent) (change : Option RunUpdate)
    (o : AppendOutcome) (db db' : Registry)
    → AppendedFresh serde now run_id event change db o db'
    → Effect serde db db'
append-Effect serde now run_id event none o db db' a =
    wrote now run_id event a.row a.found (sym (ok-injective a.applied))
append-Effect serde now run_id event (some change) o db db' a =
    wrote_and_changed now run_id event a.row change a.found
      (apply_update-Applied serde now run_id change _ db' a.applied)

unchanged-Effect : (serde : Serde) (db db' : Registry) → db' ≡ db → Effect serde db db'
unchanged-Effect serde db db' e =
    untouched (ap (λ (d : Registry). d.runs) e) (ap (λ (d : Registry). d.events) e)

policy-Effect :
    (serde : Serde) (now : ℕ) (run_id : String) (policy : RunApprovalPolicy) (actor : Option String)
    (b changed : Bool) (db db' : Registry)
    → IsLive run_id db
    → Path
        (Result RegistryError (Bool × Registry))
        (if b
          then ok (false, db)
          else ok (true, with_modified run_id (policy_row now policy actor) db))
        (ok (changed, db'))
    → Effect serde db db'
policy-Effect serde now run_id policy actor true changed db db' live h =
    unchanged-Effect serde db db' (ap (λ (p : Bool × Registry). p.1) (sym (ok-injective h)))
policy-Effect serde now run_id policy actor false changed db db' live h =
    changed_policy now run_id policy actor live
      (ap (λ (p : Bool × Registry). p.1) (sym (ok-injective h)))

alive : {b : Bool} → not b ≡ true → b ≡ false
alive h = ground arith

set_policy-Effect :
    (serde : Serde) (now : ℕ) (run_id : String) (policy : RunApprovalPolicy) (actor : Option String)
    (changed : Bool) (db db' : Registry)
    → set_run_approval_policy now run_id policy actor db ≡ ok (changed, db')
    → Effect serde db db'
unfolding set_run_approval_policy
set_policy-Effect serde now run_id policy actor changed db db' h =
    let (row, found, h₁) = >>=-eq-ok (or_err (find_run run_id db) (unknown_run run_id)) _ h in
    let (status, parsed, h₂) = >>=-eq-ok (parse_status row.status) _ h₁ in
    let (live, h₃) = guard-eq-ok _ _ _ h₂ in
    let (current, read, h₄) = >>=-eq-ok (run_approval_policy db run_id) _ h₃ in
    policy-Effect serde now run_id policy actor (same_policy current.policy policy) changed db db'
      (row, status, or_err-eq-ok _ _ row found, parse_status-eq-ok _ status parsed, alive live) h₄

update-Effect :
    (serde : Serde) (now : ℕ) (run_id : String) (change : RunUpdate) (r : RunRecord)
    (db db' : Registry)
    → update_run serde now run_id change db ≡ ok (r, db')
    → Effect serde db db'
unfolding update_run
update-Effect serde now run_id change r db db' h =
    let (db₁, applied, h₁) = >>=-eq-ok (apply_update serde now run_id change db) _ h in
    let (r', loaded, h₂) = >>=-eq-ok (or_err (load_run serde db₁ run_id) vanished) _ h₁ in
    let same : db₁ ≡ db' = ap (λ (p : RunRecord × Registry). p.1) (ok-injective h₂) in
    changed_status now run_id change
      (apply_update-Applied serde now run_id change db db' (applied ∙ ap ok same))

pub Step-Effect : {serde : Serde} {db db' : Registry} → Step serde db db' → Effect serde db db'
unfolding record_approval_request record_approval_decision record_approval_resolution
Step-Effect {serde} {db} {db'} (create now run_id request c h) =
    elim (create_run-cases serde now run_id request db c db' h) [
      | inl same ↦ unchanged-Effect serde db db' same.0
      | inr fresh ↦ inserted now run_id request fresh.unused fresh.result
    ]
Step-Effect {serde} {db} {db'} (update now run_id change r h) =
    update-Effect serde now run_id change r db db' h
Step-Effect {serde} {db} {db'} (append now run_id event change o h) =
    elim (append_event-cases serde now run_id event change db o db' h) [
      | inl same ↦ unchanged-Effect serde db db' same.0
      | inr fresh ↦ append-Effect serde now run_id event change o db db' fresh
    ]
Step-Effect (request_approval now run_id seq command choices h) =
    untouched (ground arith) (ground arith)
Step-Effect (decide now run_id seq decision h) = untouched (ground arith) (ground arith)
Step-Effect (resolve run_id seq resolution h) = untouched (ground arith) (ground arith)
Step-Effect {serde} {db} {db'} (set_policy now run_id policy actor changed h) =
    set_policy-Effect serde now run_id policy actor changed db db' h
