-- ===== src/Registry/Requests.antt =====
-- src/registry.rs: the requests and results of the registry's operations, the errors that they
-- return, and the parameter that stands for serde_json.
use asterism.Prelude.{ℕ, String, Bool, true, false, Option, none, some}
use asterism.Prelude.Table.{unwrap_or}
use asterism.Text.{Text}
use asterism.Json.{Value, null}
use asterism.RunState.{RunStatus, InvalidTransition}
use asterism.Registry.Tables.{RunRow}

-- `serde_json::to_string` and `from_str`.
pub record Serde : Type 0 where
  pub to_string : Value → Text
  pub from_str : Text → Option Value

pub data RegistryError : Type 0 where
  idempotency_conflict : (project_id idempotency_key existing_run_id : String) → RegistryError
  unknown_run : String → RegistryError
  unknown_status : String → RegistryError
  unknown_policy : String → RegistryError
  invalid_transition : InvalidTransition → RegistryError
  terminal_policy : String → RegistryError
  -- an integrity constraint of SQLite
  constraint : RegistryError
  -- a row that was there before in the same transaction is gone
  vanished : RegistryError

pub record RunRecord : Type 0 where
  pub run_id : String
  pub project_id : String
  pub session_id : Option String
  pub idempotency_key : Option String
  pub runtime_kind : String
  pub provider : Option String
  pub model : Option String
  pub status : String
  pub created_at : ℕ
  pub started_at : Option ℕ
  pub updated_at : ℕ
  pub finished_at : Option ℕ
  pub last_event_seq : ℕ
  pub terminal_reason : Option String
  pub error_code : Option String
  pub error_message : Option String
  pub hermes_run_id : Option String
  pub request_payload : Value
  pub result_payload : Option Value
  pub recovery_note : Option String
  pub retry_of_run_id : Option String

pub record NewRun : Type 0 where
  pub project_id : String
  pub session_id : Option String
  pub idempotency_key : Option String
  pub runtime_kind : String
  pub provider : Option String
  pub model : Option String
  pub request_payload : Value
  pub retry_of_run_id : Option String

pub data RunCreation : Type 0 where
  created_run : RunRecord → RunCreation
  existing_run : RunRecord → RunCreation

unfoldable pub creation_record : RunCreation → RunRecord
creation_record (created_run run) = run
creation_record (existing_run run) = run

unfoldable pub is_new : RunCreation → Bool
is_new (created_run run) = true
is_new (existing_run run) = false

pub record RunUpdate : Type 0 where
  pub status : Option RunStatus
  pub hermes_run_id : Option String
  pub terminal_reason : Option String
  pub error_code : Option String
  pub error_message : Option String
  pub result_payload : Option Value
  pub recovery_note : Option String

-- `RunUpdate::status(status)`
abbrev pub status_update : RunStatus → RunUpdate
status_update s = record {
  status = some s;
  hermes_run_id = none;
  terminal_reason = none;
  error_code = none;
  error_message = none;
  result_payload = none;
  recovery_note = none;
}

pub record JournalEvent : Type 0 where
  pub event_type : String
  pub source : String
  pub payload : Value
  pub raw : Option Value
  pub dedupe_key : Option String

-- `JournalEvent::asterism`
abbrev pub asterism_event : String → Value → JournalEvent
asterism_event event_type payload = record {
  event_type = event_type;
  source = "asterism";
  payload = payload;
  raw = none;
  dedupe_key = none;
}

pub record StoredEvent : Type 0 where
  pub run_id : String
  pub seq : ℕ
  pub event_type : String
  pub recorded_at : ℕ
  pub source : String
  pub payload : Value
  pub raw_payload : Option Value
  pub was_redacted : Bool

pub data AppendOutcome : Type 0 where
  appended : ℕ → AppendOutcome
  duplicate : ℕ → AppendOutcome

unfoldable pub outcome_seq : AppendOutcome → ℕ
outcome_seq (appended seq) = seq
outcome_seq (duplicate seq) = seq

pub record ApprovalRecord : Type 0 where
  pub run_id : String
  pub request_seq : ℕ
  pub requested_at : ℕ
  pub command : Option String
  pub choices : Option Value
  pub decision : Option String
  pub decided_at : Option ℕ
  pub resolution_seq : Option ℕ

abbrev pub decode_option : Serde → Option Text → Option Value
decode_option serde none = none
decode_option serde (some text) = serde.from_str text

unfoldable pub map_run : Serde → RunRow → RunRecord
map_run serde row = record {
  run_id = row.run_id;
  project_id = row.project_id;
  session_id = row.session_id;
  idempotency_key = row.idempotency_key;
  runtime_kind = row.runtime_kind;
  provider = row.provider;
  model = row.model;
  status = row.status;
  created_at = row.created_at;
  started_at = row.started_at;
  updated_at = row.updated_at;
  finished_at = row.finished_at;
  last_event_seq = row.last_event_seq;
  terminal_reason = row.terminal_reason;
  error_code = row.error_code;
  error_message = row.error_message;
  hermes_run_id = row.hermes_run_id;
  request_payload = unwrap_or (serde.from_str row.request_payload) null;
  result_payload = decode_option serde row.result_payload;
  recovery_note = row.recovery_note;
  retry_of_run_id = row.retry_of_run_id;
}
