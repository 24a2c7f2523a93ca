-- ===== src/Registry/Approvals.antt =====
-- src/registry.rs: approval requests, their decisions, and the approval policy of a run.
pub mod Laws
pub mod Frozen
use asterism.Prelude.{
  ℕ, String, Bool, true, false, not, ◌&&◌, ◌||◌, Option, none, some, List, [], ◌∷◌, ◌++◌, map,
  str_eq, leb, ◌==◌, if◌then◌else◌, any_row, where_rows, update_rows,
}
use asterism.Prelude.Results.{Result, ok, err, ◌>>=◌, ◌>>◌, guard, or_err}
use asterism.Prelude.Table.{modify_rows, map_option, is_some}
use asterism.Text.{Text}
use asterism.Json.{Value}
use asterism.RunState.{is_terminal}
use asterism.RunPolicy
use asterism.RunPolicy.{
  RunApprovalPolicy, RunPolicyState, manual, allow_all_for_run, bypasses_approval,
}
use asterism.Registry.Tables.{RunRow, ApprovalRow, Registry}
use asterism.Registry.Requests.{
  Serde, RegistryError, ApprovalRecord, unknown_run, unknown_policy, terminal_policy, constraint,
  decode_option,
}
use asterism.Registry.Runs.{run_key, find_run}
use asterism.Registry.Updates.{parse_status}

-- `WHERE run_id = ?1 AND request_seq = ?2`
abbrev pub is_request : String → ℕ → ApprovalRow → Bool
is_request run_id request_seq row =
    str_eq row.approval_run_id run_id && row.request_seq == request_seq

-- `INSERT OR IGNORE`: a request that is stored stays; an unknown run is still refused.
unfoldable pub record_approval_request :
    Serde → ℕ → String → ℕ → Option String → Option Value → Registry → Result RegistryError Registry
record_approval_request serde now run_id request_seq command choices db =
    if any_row (is_request run_id request_seq) db.approvals
    then ok db
    else if is_some (find_run run_id db)
    then ok (record db {
      approvals =
          db.approvals
          ++ record {
            approval_run_id = run_id;
            request_seq = request_seq;
            requested_at = now;
            command = command;
            choices = map_option serde.to_string choices;
            decision = none;
            decided_at = none;
            resolution_seq = none;
          }
            ∷ [];
    })
    else err constraint

abbrev pub is_open_request : String → ℕ → ApprovalRow → Bool
is_open_request run_id request_seq row =
    is_request run_id request_seq row && not (is_some row.decision)

-- `changed == 1`: the primary key allows one row for each request.
unfoldable pub record_approval_decision : ℕ → String → ℕ → String → Registry → Bool × Registry
record_approval_decision now run_id request_seq decision db = (
  any_row (is_open_request run_id request_seq) db.approvals,
  record db {
    approvals =
        update_rows (is_open_request run_id request_seq)
          (λ row. record row { decision = some decision; decided_at = some now }) db.approvals;
  },
)

unfoldable pub record_approval_resolution : String → ℕ → ℕ → Registry → Registry
record_approval_resolution run_id request_seq resolution_seq db = record db {
  approvals =
      update_rows (is_request run_id request_seq)
        (λ row. record row { resolution_seq = some resolution_seq }) db.approvals;
}

unfoldable pub map_approval : Serde → ApprovalRow → ApprovalRecord
map_approval serde row = record {
  run_id = row.approval_run_id;
  request_seq = row.request_seq;
  requested_at = row.requested_at;
  command = row.command;
  choices = decode_option serde row.choices;
  decision = row.decision;
  decided_at = row.decided_at;
  resolution_seq = row.resolution_seq;
}

-- `ORDER BY request_seq DESC LIMIT 1` over the rows that pass the test.
abbrev pub later_request : ApprovalRow → Option ApprovalRow → ApprovalRow
later_request row none = row
later_request row (some best) = if leb best.request_seq row.request_seq then row else best

unfoldable pub last_request : (ApprovalRow → Bool) → List ApprovalRow → Option ApprovalRow
last_request p [] = none
last_request p (row ∷ rows) =
    let best = last_request p rows in if p row then some (later_request row best) else best

-- `Registry::pending_approval`
unfoldable pub pending_approval : Serde → Registry → String → Option ApprovalRecord
unfolding map_approval last_request
pending_approval serde db run_id = map_option (map_approval serde) (
    last_request (λ row. str_eq row.approval_run_id run_id && not (is_some row.decision))
      db.approvals)

-- `RunApprovalPolicy::parse(..)?`
unfoldable pub parse_policy : String → Result RegistryError RunApprovalPolicy
parse_policy text = elim (RunPolicy.parse text) [ ok p ↦ ok p | err v ↦ err (unknown_policy v) ]

-- The row's policy, as `run_approval_policy` returns it.
unfoldable pub stored_policy : RunRow → Result RegistryError RunPolicyState
unfolding parse_policy
stored_policy row = do
  policy ← parse_policy row.approval_policy
  ok (record {
    policy = policy;
    enabled_by = row.approval_policy_enabled_by;
    enabled_at = row.approval_policy_enabled_at;
    updated_at = row.approval_policy_updated_at;
  })

-- `Registry::run_approval_policy`: an unknown run has the default policy.
unfoldable pub run_approval_policy : Registry → String → Result RegistryError RunPolicyState
unfolding stored_policy
run_approval_policy db run_id = elim (find_run run_id db) [
  | none ↦ ok RunPolicy.default
  | some row ↦ stored_policy row
]

abbrev pub same_policy : RunApprovalPolicy → RunApprovalPolicy → Bool
same_policy manual manual = true
same_policy allow_all_for_run allow_all_for_run = true
same_policy _ _ = false

-- The assignments of the `UPDATE` of `set_run_approval_policy`.
unfoldable pub policy_row : ℕ → RunApprovalPolicy → Option String → RunRow → RunRow
policy_row now policy actor row = record row {
  approval_policy = RunPolicy.as_str policy;
  approval_policy_enabled_by = if bypasses_approval policy then actor else none;
  approval_policy_enabled_at = if bypasses_approval policy then some now else none;
  approval_policy_updated_at = some now;
}

-- `Registry::set_run_approval_policy`: the code has no transaction here; no other connection writes
-- between its statements.
unfoldable pub set_run_approval_policy :
    ℕ
    → String
    → RunApprovalPolicy
    → Option String
    → Registry
    → Result RegistryError (Bool × Registry)
unfolding policy_row run_approval_policy
set_run_approval_policy now run_id policy actor db = do
  row ← or_err (find_run run_id db) (unknown_run run_id)
  status ← parse_status row.status
  guard (not (is_terminal status)) (terminal_policy run_id)
  current ← run_approval_policy db run_id
  if same_policy current.policy policy
      then ok (false, db)
      else ok (
        true,
        record db { runs = modify_rows run_key run_id (policy_row now policy actor) db.runs },
      )

-- `ORDER BY request_seq ASC`
unfoldable pub insert_by_request : ApprovalRow → List ApprovalRow → List ApprovalRow
insert_by_request a [] = a ∷ []
insert_by_request a (b ∷ bs) =
    if leb a.request_seq b.request_seq then a ∷ b ∷ bs else b ∷ insert_by_request a bs

unfoldable pub order_by_request : List ApprovalRow → List ApprovalRow
unfolding insert_by_request
order_by_request [] = []
order_by_request (a ∷ rows) = insert_by_request a (order_by_request rows)

-- `Registry::approvals`
unfoldable pub approvals_of : Serde → Registry → String → List ApprovalRecord
unfolding map_approval order_by_request
approvals_of serde db run_id =
    map (map_approval serde)
      (order_by_request (where_rows (λ row. str_eq row.approval_run_id run_id) db.approvals))
