-- ===== src/Tests/Records.antt =====
-- The theorems of the registry at a small history: a run is created under an idempotency key, it
-- starts, an event is appended, and it ends.
use asterism.Prelude.{
  ℕ, Option, String, ◌≡◌, refl, ◌+◌, true, false, none, some, List, [], ◌∷◌, ◌++◌, if◌then◌else◌,
  where_rows,
}
use asterism.Prelude.Results.{ok, err}
use asterism.Prelude.Int.{pos, negsuc, above, limit_rows}
use asterism.Prelude.Table.{find_row, modify_rows}
use asterism.Text.{codes, text_eq}
use asterism.Json.{null, string, object, end, field}
use asterism.RunState.{
  RunStatus, starting, completed, parse, as_str, validate_transition, is_terminal,
}
use asterism.RunState.Lifecycle.{◌⟶*◌}
use asterism.RunPolicy.{RunApprovalPolicy, allow_all_for_run}
use asterism.RunPolicy
use asterism.Registry.Tables.{RunRow, EventRow, Registry, no_rows}
use asterism.Registry.Requests.{
  NewRun, RunRecord, created_run, existing_run, status_update, JournalEvent, asterism_event,
  appended, duplicate, map_run, terminal_policy, idempotency_conflict,
}
use asterism.Registry.Fingerprint.{request_fingerprint}
use asterism.Registry.Runs.{create_run, find_run, new_row, find_by_key, load_run}
use asterism.Registry.Updates.{update_run, apply_update, updated_row, parse_status}
use asterism.Registry.Journal.{
  event_row, append_event, advanced_row, find_duplicate, seq_is_free, events_since,
}
use asterism.Registry.Approvals.{
  record_approval_decision, set_run_approval_policy, run_approval_policy, stored_policy,
  parse_policy, policy_row,
}
use asterism.Registry.Shapes.{written_event}
use asterism.Registry.Preserve.{with_modified}
use asterism.Registry.Invariant.{IsValid, up_to}
use asterism.Registry.Steps.{Reach, here, next, create, update, append}
use asterism.Registry.Reachable.{registry-IsValid}
use asterism.Registry.History.{
  status_follows_diagram, terminal_status_immutable, journal_append_only,
}
use asterism.Registry.Idempotency.{create_run_again}
use asterism.Registry.Journal.Append.{append_event_total, append_event_again}
use asterism.Registry.Journal.Replay.{events_since_complete, seqs}
use asterism.Registry.Approvals.Laws.{decision_at_most_once}
use asterism.Registry.Approvals.Frozen.{policy_frozen}
use asterism.Tests.Serializer.{compact}

abbrev request : NewRun
request = record {
  project_id = "p1";
  session_id = none;
  idempotency_key = some "key-1";
  runtime_kind = "hermes";
  provider = none;
  model = none;
  request_payload = object (field (codes "input") (string (codes "hi")) end);
  retry_of_run_id = none;
}

abbrev row₀ : RunRow
row₀ = new_row compact 10 "arun_1" request

abbrev db₁ : Registry
db₁ = record no_rows { runs = row₀ ∷ [] }

created_db₁ :
    create_run compact 10 "arun_1" request no_rows ≡ ok (created_run (map_run compact row₀), db₁)
unfolding create_run find_run find_row find_by_key new_row
created_db₁ = refl

abbrev row₁ : RunRow
row₁ = updated_row compact 20 starting (status_update starting) row₀

abbrev db₂ : Registry
db₂ = record db₁ { runs = row₁ ∷ [] }

abbrev id₁ : String
id₁ = "arun_1"

started_db₂ :
    update_run compact 20 id₁ (status_update starting) db₁ ≡ ok (map_run compact row₁, db₂)
unfolding update_run apply_update new_row updated_row find_run find_row modify_rows load_run parse
    validate_transition as_str
started_db₂ = refl

abbrev event : JournalEvent
event = record (asterism_event "run.started" null) { dedupe_key = some "evt-1" }

abbrev db₃ : Registry
db₃ = written_event compact 30 id₁ event row₁ db₂

appended_db₃ : append_event compact 30 id₁ event none db₂ ≡ ok (appended 1, db₃)
unfolding append_event new_row updated_row find_run find_row find_duplicate seq_is_free modify_rows
appended_db₃ = refl

abbrev row₃ : RunRow
row₃ = advanced_row 1 30 row₁

abbrev row₄ : RunRow
row₄ = updated_row compact 40 completed (status_update completed) row₃

abbrev db₄ : Registry
db₄ = record db₃ { runs = row₄ ∷ [] }

completed_db₄ :
    update_run compact 40 id₁ (status_update completed) db₃ ≡ ok (map_run compact row₄, db₄)
unfolding update_run apply_update new_row updated_row find_run find_row modify_rows load_run parse
    validate_transition as_str
completed_db₄ = refl

history_to_db₃ : Reach compact no_rows db₃
history_to_db₃ =
    next
      (next (next here (create 10 id₁ request _ created_db₁))
        (update 20 id₁ (status_update starting) _ started_db₂))
      (append 30 id₁ event none _ appended_db₃)

settled : Reach compact db₃ db₄
settled = next here (update 40 id₁ (status_update completed) _ completed_db₄)

found_db₃ : find_run id₁ db₃ ≡ some row₃
unfolding find_run find_row modify_rows new_row updated_row
found_db₃ = refl

found_db₄ : find_run id₁ db₄ ≡ some row₄
unfolding find_run find_row new_row updated_row
found_db₄ = refl

db₃-IsValid : IsValid db₃
db₃-IsValid = registry-IsValid compact db₃ history_to_db₃

registry-IsValid_example : IsValid db₃
registry-IsValid_example = registry-IsValid compact db₃ history_to_db₃

parsed_row₃ : parse row₃.status ≡ ok starting
unfolding parse updated_row as_str
parsed_row₃ = refl

parsed_row₄ : parse row₄.status ≡ ok completed
unfolding parse updated_row as_str
parsed_row₄ = refl

status_follows_diagram_example :
    (row' : RunRow) × (find_run id₁ db₄ ≡ some row')
    × ((b : RunStatus) × (parse row'.status ≡ ok b) × (starting ⟶* b))
status_follows_diagram_example =
    status_follows_diagram compact db₃ db₄ id₁ row₃ starting settled found_db₃ parsed_row₃

-- An event that arrives after the run has ended.
abbrev db₅ : Registry
db₅ = written_event compact 50 id₁ (asterism_event "run.note" null) row₄ db₄

appended_db₅ :
    append_event compact 50 id₁ (asterism_event "run.note" null) none db₄ ≡ ok (appended 2, db₅)
unfolding append_event event_row new_row updated_row find_run find_row find_duplicate seq_is_free
    modify_rows
appended_db₅ = refl

late_event : Reach compact db₄ db₅
late_event = next here (append 50 id₁ (asterism_event "run.note" null) none _ appended_db₅)

terminal_status_immutable_example :
    (row' : RunRow) × (find_run id₁ db₅ ≡ some row') × (parse row'.status ≡ ok completed)
unfolding is_terminal
terminal_status_immutable_example =
    terminal_status_immutable compact db₄ db₅ id₁ row₄ completed late_event found_db₄ parsed_row₄
      refl

journal_append_only_example : (rest : List EventRow) × (db₃.events ≡ [] ++ rest)
journal_append_only_example = journal_append_only compact no_rows db₃ history_to_db₃

-- The same request under another clock and another fresh identifier.
after_creation : Reach compact db₁ db₃
after_creation =
    next (next here (update 20 id₁ (status_update starting) _ started_db₂))
      (append 30 id₁ event none _ appended_db₃)

-- The key is used again after the run has started and has an event.
create_run_again_example :
    (stored : RunRecord) × (load_run compact db₃ id₁ ≡ some stored)
    × (create_run compact 99 "arun_2" request db₃ ≡ (
        if text_eq (request_fingerprint compact request) (request_fingerprint compact request)
        then ok (existing_run stored, db₃)
        else err (idempotency_conflict "p1" "key-1" id₁)))
create_run_again_example =
    create_run_again compact 10 99 id₁ "arun_2" request request "key-1" (map_run compact row₀)
      no_rows db₁ db₃ refl refl refl created_db₁ after_creation

append_event_total_example :
    append_event compact 60 id₁ (asterism_event "run.note" null) none db₃
    ≡ ok (
      appended (row₃.last_event_seq + 1),
      written_event compact 60 id₁ (asterism_event "run.note" null) row₃ db₃,
    )
append_event_total_example =
    append_event_total compact 60 id₁ (asterism_event "run.note" null) row₃ db₃ db₃-IsValid
      found_db₃ refl

-- The delivery is repeated after the run has ended and another event was stored.
append_event_again_example : append_event compact 61 id₁ event none db₅ ≡ ok (duplicate 1, db₅)
append_event_again_example =
    append_event_again compact 30 61 id₁ "evt-1" event event none none 1 db₂ db₃ db₅ refl refl
      appended_db₃
      (next settled (append 50 id₁ (asterism_event "run.note" null) none _ appended_db₅))

events_since_complete_example :
    seqs (events_since compact db₃ id₁ (pos 0) (negsuc 0))
    ≡ limit_rows (negsuc 0) (where_rows (above (pos 0)) (up_to row₃.last_event_seq))
events_since_complete_example =
    events_since_complete compact db₃ id₁ row₃ (pos 0) (negsuc 0) db₃-IsValid found_db₃

abbrev asked : Registry
asked = record db₃ {
  approvals =
      record {
        approval_run_id = id₁;
        request_seq = 7;
        requested_at = 35;
        command = some "rm -rf build";
        choices = none;
        decision = none;
        decided_at = none;
        resolution_seq = none;
      }
      ∷ [];
}

decision_at_most_once_example :
    let after = (record_approval_decision 36 id₁ 7 "once" asked).1 in
    record_approval_decision 37 id₁ 7 "deny" after ≡ (false, after)
decision_at_most_once_example = decision_at_most_once 36 37 id₁ 7 "once" "deny" asked

policy_frozen_example :
    (run_approval_policy db₅ id₁ ≡ run_approval_policy db₄ id₁)
    × ((now : ℕ) (policy : RunApprovalPolicy) (actor : Option String)
        → set_run_approval_policy now id₁ policy actor db₅ ≡ err (terminal_policy id₁))
unfolding is_terminal
policy_frozen_example =
    policy_frozen compact db₄ db₅ id₁ row₄ completed late_event found_db₄ parsed_row₄ refl

abbrev trusted : Registry
trusted = with_modified id₁ (policy_row 38 allow_all_for_run (some "operator")) db₃

trusted-db₃ :
    set_run_approval_policy 38 id₁ allow_all_for_run (some "operator") db₃ ≡ ok (true, trusted)
unfolding set_run_approval_policy find_run find_row modify_rows new_row updated_row parse_status
    parse as_str is_terminal run_approval_policy stored_policy parse_policy RunPolicy.parse
trusted-db₃ = refl
