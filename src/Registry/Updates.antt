-- ===== src/Registry/Updates.antt =====
-- src/registry.rs, `apply_update` and `update_run`: state changes that the state machine of
-- src/runstate.rs allows.
use asterism.Prelude.{
  ℕ, String, Bool, true, false, not, ◌&&◌, Option, none, some, str_eq, opt_str_eq, if◌then◌else◌,
  any_row,
}
use asterism.Prelude.Results.{Result, ok, err, ◌>>=◌, ◌>>◌, guard, or_err}
use asterism.Prelude.Table.{modify_rows, unwrap_or, or_else, map_option, is_some}
use asterism.Redact.{redact}
use asterism.RunState
use asterism.RunState.{
  RunStatus, UnknownStatus, InvalidTransition, is_terminal, validate_transition,
}
use asterism.Registry.Tables.{RunRow, Registry}
use asterism.Registry.Requests.{
  Serde, RegistryError, RunRecord, RunUpdate, unknown_run, unknown_status, invalid_transition,
  constraint, vanished,
}
use asterism.Registry.Runs.{run_key, find_run, load_run}

-- `RunStatus::parse(..)?` with the error of the registry.
unfoldable pub parse_status : String → Result RegistryError RunStatus
parse_status text = elim (RunState.parse text) [
  | ok s ↦ ok s
  | err e ↦ err (unknown_status e.value)
]

-- `validate_transition(..)?`
unfoldable pub check_transition : RunStatus → RunStatus → Result RegistryError (Unit {0})
check_transition from to = elim (validate_transition from to) [
  | ok u ↦ ok tt
  | err e ↦ err (invalid_transition e)
]

-- `matches!(target, RunStatus::Starting | RunStatus::Running)`
unfoldable pub marks_start : RunStatus → Bool
marks_start RunState.starting = true
marks_start RunState.running = true
marks_start _ = false

-- The assignments of the `UPDATE` of `apply_update`.
unfoldable pub updated_row : Serde → ℕ → RunStatus → RunUpdate → RunRow → RunRow
unfolding marks_start
updated_row serde now target update row = record row {
  status = RunState.as_str target;
  updated_at = now;
  started_at =
      if not (is_some row.started_at) && marks_start target then some now else row.started_at;
  finished_at =
      if is_terminal target then some (unwrap_or row.finished_at now) else row.finished_at;
  hermes_run_id = or_else update.hermes_run_id row.hermes_run_id;
  terminal_reason = or_else update.terminal_reason row.terminal_reason;
  error_code = or_else update.error_code row.error_code;
  error_message = or_else update.error_message row.error_message;
  result_payload =
      or_else (map_option (λ v. serde.to_string (redact v).value) update.result_payload)
        row.result_payload;
  recovery_note = or_else update.recovery_note row.recovery_note;
}

-- The unique index on `hermes_run_id`: no other run holds the identifier.
abbrev pub hermes_id_is_free : Option String → String → Registry → Bool
hermes_id_is_free none run_id db = true
hermes_id_is_free (some id) run_id db =
    not (any_row (λ r. not (str_eq r.run_id run_id) && opt_str_eq r.hermes_run_id id) db.runs)

unfoldable pub apply_update :
    Serde → ℕ → String → RunUpdate → Registry → Result RegistryError Registry
unfolding parse_status check_transition updated_row
apply_update serde now run_id update db = do
  row ← or_err (find_run run_id db) (unknown_run run_id)
  current ← parse_status row.status
  let target = unwrap_or update.status current
  check_transition current target
  guard (hermes_id_is_free update.hermes_run_id run_id db) constraint
  ok (record db { runs = modify_rows run_key run_id (updated_row serde now target update) db.runs })

-- `Registry::update_run`
unfoldable pub update_run :
    Serde → ℕ → String → RunUpdate → Registry → Result RegistryError (RunRecord × Registry)
update_run serde now run_id update db = do
  db' ← apply_update serde now run_id update db
  record' ← or_err (load_run serde db' run_id) vanished
  ok (record', db')
