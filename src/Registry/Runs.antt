-- ===== src/Registry/Runs.antt =====
-- src/registry.rs: creating, loading and listing runs. `now` is the clock's reading and `run_id`
-- the identifier that `new_run_id` drew.
use asterism.Prelude.{
  ℕ, String, Bool, true, false, not, ◌&&◌, Option, none, some, List, [], ◌∷◌, ◌++◌, str_eq,
  opt_str_eq, leb, if◌then◌else◌, first_row, where_rows,
}
use mathlib.Core.List.{reverse}
use asterism.Prelude.Results.{Result, ok, err, ◌>>=◌, or_err}
use asterism.Prelude.Table.{find_row, map_option, is_some}
use asterism.Prelude.Int.{ℤ, pos, limit_rows}
use asterism.Text.{text_eq}
use asterism.Redact.{redact}
use asterism.RunState
use asterism.RunState.{RunStatus, is_active}
use asterism.Registry.Tables.{RunRow, Registry}
use asterism.Registry.Requests.{
  Serde, RegistryError, RunRecord, NewRun, RunCreation, idempotency_conflict, constraint, vanished,
  created_run, existing_run, map_run,
}
use asterism.Registry.Fingerprint.{request_fingerprint}

abbrev pub run_key : RunRow → String
run_key row = row.run_id

unfoldable pub find_run : String → Registry → Option RunRow
find_run run_id db = find_row run_key run_id db.runs

unfoldable pub load_run : Serde → Registry → String → Option RunRecord
load_run serde db run_id = map_option (map_run serde) (find_run run_id db)

-- `Registry::run`
abbrev pub run : Serde → Registry → String → Option RunRecord
run = load_run

-- `WHERE project_id = ?1 AND idempotency_key = ?2`
abbrev pub has_key : String → String → RunRow → Bool
has_key project key row = str_eq row.project_id project && opt_str_eq row.idempotency_key key

unfoldable pub find_by_key : String → String → Registry → Option RunRow
find_by_key project key db = first_row (has_key project key) db.runs

-- The row that the `INSERT` of `create_run` writes, with the defaults of its columns.
unfoldable pub new_row : Serde → ℕ → String → NewRun → RunRow
new_row serde now run_id request = record {
  run_id = run_id;
  project_id = request.project_id;
  session_id = request.session_id;
  idempotency_key = request.idempotency_key;
  runtime_kind = request.runtime_kind;
  provider = request.provider;
  model = request.model;
  status = RunState.as_str RunState.created;
  created_at = now;
  started_at = none;
  updated_at = now;
  finished_at = none;
  last_event_seq = 0;
  terminal_reason = none;
  error_code = none;
  error_message = none;
  hermes_run_id = none;
  request_payload = serde.to_string (redact request.request_payload).value;
  result_payload = none;
  recovery_note = none;
  request_fingerprint = request_fingerprint serde request;
  retry_of_run_id = request.retry_of_run_id;
  approval_policy = "manual";
  approval_policy_enabled_by = none;
  approval_policy_enabled_at = none;
  approval_policy_updated_at = none;
}

-- The foreign key of `retry_of_run_id`.
abbrev pub refers_to_run : Option String → Registry → Bool
refers_to_run none db = true
refers_to_run (some id) db = is_some (find_run id db)

-- The unique index on project and idempotency key.
abbrev pub key_is_free : Option String → String → Registry → Bool
key_is_free none project db = true
key_is_free (some key) project db = not (is_some (find_by_key project key db))

-- `INSERT INTO runs`: the primary key, the unique index and the foreign key are checked.
unfoldable pub insert_run : RunRow → Registry → Result RegistryError Registry
insert_run row db =
    if is_some (find_run row.run_id db)
    then err constraint
    else if key_is_free row.idempotency_key row.project_id db
        && refers_to_run row.retry_of_run_id db
    then ok (record db { runs = db.runs ++ row ∷ [] })
    else err constraint

unfoldable pub create_fresh :
    Serde → ℕ → String → NewRun → Registry → Result RegistryError (RunCreation × Registry)
unfolding insert_run load_run
create_fresh serde now run_id request db = do
  db' ← insert_run (new_row serde now run_id request) db
  record' ← or_err (load_run serde db' run_id) vanished
  ok (created_run record', db')

-- A run with the key of the request is already stored.
unfoldable pub replay_existing :
    Serde → NewRun → String → RunRow → Registry → Result RegistryError (RunCreation × Registry)
unfolding load_run
replay_existing serde request key row db =
    if text_eq row.request_fingerprint (request_fingerprint serde request)
    then (do
      record' ← or_err (load_run serde db row.run_id) vanished
      ok (existing_run record', db))
    else err (idempotency_conflict request.project_id key row.run_id)

abbrev pub create_with_key :
    Serde
    → ℕ
    → String
    → NewRun
    → Registry
    → Option String
    → Result RegistryError (RunCreation × Registry)
create_with_key serde now run_id request db none = create_fresh serde now run_id request db
create_with_key serde now run_id request db (some key) =
    elim (find_by_key request.project_id key db) [
      | none ↦ create_fresh serde now run_id request db
      | some row ↦ replay_existing serde request key row db
    ]

-- `Registry::create_run`. An error rolls the transaction back, so it carries no registry.
unfoldable pub create_run :
    Serde → ℕ → String → NewRun → Registry → Result RegistryError (RunCreation × Registry)
unfolding create_fresh replay_existing
create_run serde now run_id request db =
    create_with_key serde now run_id request db request.idempotency_key

-- `Registry::run_by_hermes_id`
unfoldable pub run_by_hermes_id : Serde → Registry → String → Option RunRecord
unfolding load_run
run_by_hermes_id serde db hermes_run_id =
    elim (first_row (λ row. opt_str_eq row.hermes_run_id hermes_run_id) db.runs) [
      | none ↦ none
      | some row ↦ load_run serde db row.run_id
    ]

-- `ORDER BY created_at DESC`, stable: a row goes before the first one that is not newer.
unfoldable pub insert_by_age : RunRow → List RunRow → List RunRow
insert_by_age row [] = row ∷ []
insert_by_age row (r ∷ rs) =
    if leb r.created_at row.created_at then row ∷ r ∷ rs else r ∷ insert_by_age row rs

unfoldable pub newest_first : List RunRow → List RunRow
unfolding insert_by_age
newest_first [] = []
newest_first (r ∷ rs) = insert_by_age r (newest_first rs)

unfoldable pub load_all : Serde → Registry → List RunRow → List RunRecord
unfolding load_run
load_all serde db [] = []
load_all serde db (row ∷ rows) = elim (load_run serde db row.run_id) [
  | none ↦ load_all serde db rows
  | some record' ↦ record' ∷ load_all serde db rows
]

-- `Registry::list_runs`; `rowid DESC` is the reverse of the order of insertion.
unfoldable pub list_runs : Serde → Registry → String → ℤ → List RunRecord
unfolding newest_first load_all
list_runs serde db project_id limit = load_all serde db (
    limit_rows limit
      (newest_first (reverse (where_rows (λ row. str_eq row.project_id project_id) db.runs))))

abbrev pub status_is_active : Result RunState.UnknownStatus RunStatus → Bool
status_is_active (ok status) = is_active status
status_is_active (err unknown) = false

-- `Registry::active_runs`
unfoldable pub active_runs : Serde → Registry → String → List RunRecord
unfolding list_runs is_active
active_runs serde db project_id = reverse (
    where_rows (λ run. status_is_active (RunState.parse run.status))
      (list_runs serde db project_id (pos 1000)))
