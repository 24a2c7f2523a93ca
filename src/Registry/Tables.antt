-- ===== src/Registry/Tables.antt =====
-- The tables of the registry database (the migrations of src/registry.rs), a record for each row,
-- and what SQLite checks on insertion.
use asterism.Prelude.{ℕ, String, Bool, Option, List, []}
use asterism.Text.{Text}

pub record RunRow : Type 0 where
  pub run_id : String
  pub project_id : String
  pub session_id : Option String
  pub idempotency_key : Option String
  pub runtime_kind : String
  pub provider : Option String
  pub model : Option String
  pub status : String
  pub created_at : ℕ
  pub started_at : Option ℕ
  pub updated_at : ℕ
  pub finished_at : Option ℕ
  pub last_event_seq : ℕ
  pub terminal_reason : Option String
  pub error_code : Option String
  pub error_message : Option String
  pub hermes_run_id : Option String
  pub request_payload : Text
  pub result_payload : Option Text
  pub recovery_note : Option String
  pub request_fingerprint : Text
  pub retry_of_run_id : Option String
  pub approval_policy : String
  pub approval_policy_enabled_by : Option String
  pub approval_policy_enabled_at : Option ℕ
  pub approval_policy_updated_at : Option ℕ

pub record EventRow : Type 0 where
  pub event_run_id : String
  pub seq : ℕ
  pub event_type : String
  pub recorded_at : ℕ
  pub source : String
  pub payload : Text
  pub raw_payload : Option Text
  pub was_redacted : Bool
  pub dedupe_key : Option String

pub record ApprovalRow : Type 0 where
  pub approval_run_id : String
  pub request_seq : ℕ
  pub requested_at : ℕ
  pub command : Option String
  pub choices : Option Text
  pub decision : Option String
  pub decided_at : Option ℕ
  pub resolution_seq : Option ℕ

-- The tables that this development models. Rows stand in the order of their rowid.
pub record Registry : Type 0 where
  pub runs : List RunRow
  pub events : List EventRow
  pub approvals : List ApprovalRow

abbrev pub no_rows : Registry
no_rows = record { runs = []; events = []; approvals = [] }
