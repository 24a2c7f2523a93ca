-- ===== src/Registry/Approvals/Laws.antt =====
-- Decisions are recorded once, and the approval policy of a run changes only while it lives.
use asterism.Prelude.{
  ℕ, String, ◌≡◌, refl, ap, ◌∙◌, Bool, true, false, not, Option, none, some, List, [], ◌∷◌, arith,
  if◌then◌else◌, any_row, update_rows,
}
use asterism.Prelude.Results.{
  Result, ok, err, or_err, >>=-eq-ok, guard-eq-ok, or_err-eq-ok, ok-injective,
}
use asterism.RunState.{RunStatus, is_terminal, parse}
use asterism.RunPolicy
use asterism.RunPolicy.{
  RunApprovalPolicy, RunPolicyState, manual, allow_all_for_run, bypasses_approval, parse-as_str,
}
use asterism.Registry.Tables.{RunRow, ApprovalRow, Registry}
use asterism.Registry.Requests.{RegistryError, unknown_run, terminal_policy}
use asterism.Registry.Runs.{run_key, find_run}
use asterism.Registry.Updates.{parse_status}
use asterism.Registry.Approvals.{
  is_open_request, record_approval_decision, parse_policy, stored_policy, run_approval_policy,
  same_policy, policy_row, set_run_approval_policy,
}
use asterism.Registry.Preserve.{with_modified, find_run-with_modified_self}

abbrev decide_row : ℕ → String → ApprovalRow → ApprovalRow
decide_row now decision row = record row { decision = some decision; decided_at = some now }

none_open :
    (now : ℕ) (id : String) (seq : ℕ) (decision : String) (rows : List ApprovalRow)
    → any_row
        (is_open_request id seq)
        (update_rows (is_open_request id seq) (decide_row now decision) rows)
      ≡ false
none_open now id seq decision [] = refl
none_open now id seq decision (row ∷ rows) = ground (arith, none_open now id seq decision rows)

update_none :
    (id : String) (seq : ℕ) (f : ApprovalRow → ApprovalRow) (rows : List ApprovalRow)
    → any_row (is_open_request id seq) rows ≡ false
    → update_rows (is_open_request id seq) f rows ≡ rows
update_none id seq f [] h = refl
update_none id seq f (row ∷ rows) h = ground (arith, update_none id seq f rows)

-- A decision is recorded at most once: after any call for a request, a further call reports that
-- it changed nothing and leaves the registry, the first decision included, as it was.
pub decision_at_most_once :
    (now now' : ℕ) (id : String) (seq : ℕ) (first second : String) (db : Registry)
    → let after = (record_approval_decision now id seq first db).1 in
      record_approval_decision now' id seq second after ≡ (false, after)
unfolding record_approval_decision
decision_at_most_once now now' id seq first second db =
    let open_after = none_open now id seq first db.approvals in
    rw (open_after, update_none id seq (decide_row now' second) _ open_after)

parse_policy-as_str : (p : RunApprovalPolicy) → parse_policy (RunPolicy.as_str p) ≡ ok p
unfolding parse_policy
parse_policy-as_str p = rw (parse-as_str p, parse_policy)

same_policy_refl : (p : RunApprovalPolicy) → same_policy p p ≡ true
same_policy_refl manual = refl
same_policy_refl allow_all_for_run = refl

-- What a policy change that was made leaves to be read.
abbrev pub policy_after : ℕ → RunApprovalPolicy → Option String → RunPolicyState
policy_after now policy actor = record {
  policy = policy;
  enabled_by = if bypasses_approval policy then actor else none;
  enabled_at = if bypasses_approval policy then some now else none;
  updated_at = some now;
}

stored_policy-policy_row :
    (now : ℕ) (policy : RunApprovalPolicy) (actor : Option String) (row : RunRow)
    → stored_policy (policy_row now policy actor row) ≡ ok (policy_after now policy actor)
unfolding stored_policy policy_row
stored_policy-policy_row now policy actor row = rw (parse_policy-as_str policy)

-- A successful call, taken apart.
record Called (now : ℕ) (id : String) (policy : RunApprovalPolicy) (actor : Option String)
    (changed : Bool) (db db' : Registry) : Type 0 where
  row : RunRow
  status : RunStatus
  current : RunPolicyState
  found : find_run id db ≡ some row
  parsed : parse_status row.status ≡ ok status
  live : is_terminal status ≡ false
  read : run_approval_policy db id ≡ ok current
  result :
      Path
        (Result RegistryError (Bool × Registry))
        (if same_policy current.policy policy
          then ok (false, db)
          else ok (true, with_modified id (policy_row now policy actor) db))
        (ok (changed, db'))

not-true : (b : Bool) → not b ≡ true → b ≡ false
not-true b h = ground arith

set_policy-Called :
    (now : ℕ) (id : String) (policy : RunApprovalPolicy) (actor : Option String) (changed : Bool)
    (db db' : Registry)
    → set_run_approval_policy now id policy actor db ≡ ok (changed, db')
    → Called now id policy actor changed db db'
unfolding set_run_approval_policy
set_policy-Called now id policy actor changed db db' h =
    let (row, found, h₁) = >>=-eq-ok (or_err (find_run id db) (unknown_run id)) _ h in
    let (status, parsed, h₂) = >>=-eq-ok (parse_status row.status) _ h₁ in
    let (live, h₃) = guard-eq-ok _ _ _ h₂ in
    let (current, read, h₄) = >>=-eq-ok (run_approval_policy db id) _ h₃ in
    record {
      row = row;
      status = status;
      current = current;
      found = or_err-eq-ok _ _ row found;
      parsed = parsed;
      live = not-true _ live;
      read = read;
      result = h₄;
    }

-- The reply of a call that the row allows.
set_policy-reply :
    (now : ℕ) (id : String) (policy : RunApprovalPolicy) (actor : Option String) (db : Registry)
    (row : RunRow) (status : RunStatus) (current : RunPolicyState)
    → find_run id db ≡ some row
    → parse_status row.status ≡ ok status
    → is_terminal status ≡ false
    → run_approval_policy db id ≡ ok current
    → set_run_approval_policy now id policy actor db ≡ (
        if same_policy current.policy policy
        then ok (false, db)
        else ok (true, with_modified id (policy_row now policy actor) db))
unfolding set_run_approval_policy
set_policy-reply now id policy actor db row status current found parsed live read =
    rw found (rw parsed (rw (live, read)))

run_approval_policy-eq :
    (db : Registry) (id : String) (row : RunRow)
    → find_run id db ≡ some row
    → run_approval_policy db id ≡ stored_policy row
unfolding run_approval_policy
run_approval_policy-eq db id row h = rw (h, run_approval_policy)

status-policy_row :
    (now : ℕ) (policy : RunApprovalPolicy) (actor : Option String) (row : RunRow)
    → (policy_row now policy actor row).status ≡ row.status
unfolding policy_row
status-policy_row now policy actor row = refl

key-policy_row :
    (now : ℕ) (policy : RunApprovalPolicy) (actor : Option String) (row : RunRow)
    → run_key (policy_row now policy actor row) ≡ run_key row
unfolding policy_row
key-policy_row now policy actor row = refl

-- What a reader of the run finds after the policy was changed.
policy-with_modified :
    (now : ℕ) (id : String) (policy : RunApprovalPolicy) (actor : Option String) (db : Registry)
    (row : RunRow)
    → find_run id db ≡ some row
    → run_approval_policy (with_modified id (policy_row now policy actor) db) id
      ≡ ok (policy_after now policy actor)
policy-with_modified now id policy actor db row h =
    run_approval_policy-eq _ id (policy_row now policy actor row) (
      find_run-with_modified_self id (policy_row now policy actor) (key-policy_row now policy actor)
        db row h)
    ∙ stored_policy-policy_row now policy actor row

-- Setting a policy is idempotent: after a successful call, a call with the same policy by any
-- actor reports that it changed nothing and changes nothing. If the first call reported a change,
-- the run's policy is now the given one, with its actor and time exactly if it bypasses approval.
pub set_policy_again :
    (now now' : ℕ) (id : String) (policy : RunApprovalPolicy) (actor actor' : Option String)
    (changed : Bool) (db db' : Registry)
    → set_run_approval_policy now id policy actor db ≡ ok (changed, db')
    → (set_run_approval_policy now' id policy actor' db' ≡ ok (false, db'))
      × (changed ≡ true → run_approval_policy db' id ≡ ok (policy_after now policy actor))
set_policy_again now now' id policy actor actor' changed db db' h =
    let c = set_policy-Called now id policy actor changed db db' h in
    go c (same_policy c.current.policy policy) refl c.result
  where
    go :
        (c : Called now id policy actor changed db db') (b : Bool)
        → same_policy c.current.policy policy ≡ b
        → Path
            (Result RegistryError (Bool × Registry))
            (if b
              then ok (false, db)
              else ok (true, with_modified id (policy_row now policy actor) db))
            (ok (changed, db'))
        → (set_run_approval_policy now' id policy actor' db' ≡ ok (false, db'))
          × (changed ≡ true → run_approval_policy db' id ≡ ok (policy_after now policy actor))
    go c true e k =
        let same : db ≡ db' = ap (λ (p : Bool × Registry). p.1) (ok-injective k) in
        let kept : false ≡ changed = ap (λ (p : Bool × Registry). p.0) (ok-injective k) in
        (
          rw (← same) (
              set_policy-reply now' id policy actor' db c.row c.status c.current c.found c.parsed
                c.live c.read
              ∙ rw e refl),
          λ t. cc,
        )
    go c false e k =
        let next = with_modified id (policy_row now policy actor) db in
        let same : next ≡ db' = ap (λ (p : Bool × Registry). p.1) (ok-injective k) in
        let reads = policy-with_modified now id policy actor db c.row c.found in
        (
          rw (← same) (
              set_policy-reply now' id policy actor' next (policy_row now policy actor c.row)
                c.status (policy_after now policy actor)
                (find_run-with_modified_self id (policy_row now policy actor)
                  (key-policy_row now policy actor) db c.row c.found)
                (rw (status-policy_row now policy actor c.row) c.parsed) c.live reads
              ∙ rw (same_policy_refl policy) refl),
          λ t. rw (← same) reads,
        )

parse_status-parse : (t : String) (s : RunStatus) → parse t ≡ ok s → parse_status t ≡ ok s
unfolding parse_status
parse_status-parse t s h = rw (h, parse_status)

-- A call for a run whose status is terminal is refused.
pub set_policy_terminal :
    (now : ℕ) (id : String) (policy : RunApprovalPolicy) (actor : Option String) (db : Registry)
    (row : RunRow) (status : RunStatus)
    → find_run id db ≡ some row
    → parse row.status ≡ ok status
    → is_terminal status ≡ true
    → set_run_approval_policy now id policy actor db ≡ err (terminal_policy id)
unfolding set_run_approval_policy
set_policy_terminal now id policy actor db row status found parsed over =
    rw found (rw (parse_status-parse row.status status parsed) (rw over))
