-- ===== src/Remote/Tables.antt =====
-- The tables of src/remote.rs, the states of a command, and the records that are handed out.
use asterism.Prelude.{
  ℕ, String, ◌≡◌, refl, Bool, true, false, Option, List, [], str_eq, if◌then◌else◌,
}
use asterism.Prelude.Results.{Result, ok, err}
use asterism.Text.{Text}
use asterism.Json.{Value}
use asterism.Registry.Requests.{Serde, decode_option}

pub data CommandState : Type 0 where
  received accepted executing completed rejected failed : CommandState

unfoldable pub as_str : CommandState → String
as_str received = "received"
as_str accepted = "accepted"
as_str executing = "executing"
as_str completed = "completed"
as_str rejected = "rejected"
as_str failed = "failed"

unfoldable pub parse : String → Result String CommandState
parse value =
    if str_eq value "received"
    then ok received
    else if str_eq value "accepted"
    then ok accepted
    else if str_eq value "executing"
    then ok executing
    else if str_eq value "completed"
    then ok completed
    else if str_eq value "rejected"
    then ok rejected
    else if str_eq value "failed"
    then ok failed
    else err value

unfoldable pub is_terminal : CommandState → Bool
is_terminal completed = true
is_terminal rejected = true
is_terminal failed = true
is_terminal _ = false

pub parse-as_str : (s : CommandState) → parse (as_str s) ≡ ok s
unfolding parse as_str
parse-as_str received = refl
parse-as_str _ = refl

pub record CommandRow : Type 0 where
  pub command_id : String
  pub command : String
  pub project_id : Option String
  pub received_at : ℕ
  pub payload_digest : String
  pub state : String
  pub started_at : Option ℕ
  pub completed_at : Option ℕ
  pub response_payload : Option Text
  pub error_code : Option String
  pub error_message : Option String

pub record RemoteCommandRecord : Type 0 where
  pub command_id : String
  pub command : String
  pub project_id : Option String
  pub received_at : ℕ
  pub payload_digest : String
  pub state : String
  pub started_at : Option ℕ
  pub completed_at : Option ℕ
  pub response_payload : Option Value
  pub error_code : Option String
  pub error_message : Option String

pub record OutboxRow : Type 0 where
  pub id : ℕ
  pub kind : String
  pub correlation_id : Option String
  pub payload : Text
  pub created_at : ℕ
  pub acknowledged_at : Option ℕ

pub record SubscriptionRow : Type 0 where
  pub run_id : String
  pub project_id : String
  pub acked_seq : ℕ
  pub created_at : ℕ
  pub updated_at : ℕ

-- `last_id` is the counter of the outbox's AUTOINCREMENT key.
pub record RemoteTables : Type 0 where
  pub commands : List CommandRow
  pub outbox : List OutboxRow
  pub last_id : ℕ
  pub subscriptions : List SubscriptionRow

abbrev pub no_remote_rows : RemoteTables
no_remote_rows = record { commands = []; outbox = []; last_id = 0; subscriptions = [] }

unfoldable pub map_command : Serde → CommandRow → RemoteCommandRecord
map_command serde row = record {
  command_id = row.command_id;
  command = row.command;
  project_id = row.project_id;
  received_at = row.received_at;
  payload_digest = row.payload_digest;
  state = row.state;
  started_at = row.started_at;
  completed_at = row.completed_at;
  response_payload = decode_option serde row.response_payload;
  error_code = row.error_code;
  error_message = row.error_message;
}
