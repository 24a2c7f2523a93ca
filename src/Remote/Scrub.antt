-- ===== src/Remote/Scrub.antt =====
-- src/remote.rs: the rewrite of stored device authorizations. What `secure_delete` and the
-- checkpoint do to the bytes of the files is outside; that the checkpoint went through is an argument.
pub mod History
pub mod Messages
pub mod Scrubbed
use asterism.Prelude.{
  ℕ, String, Bool, true, false, ◌&&◌, Option, none, some, List, [], ◌∷◌, str_eq, ◌==◌,
  if◌then◌else◌, length, any_row, update_rows,
}
use asterism.Prelude.Rewrites.{outdated_rows, rewrite_all}
use asterism.Text.{Text, codes}
use asterism.Json.{Value, object, get_key}
use asterism.Redact.Metadata.{insert_field}
use asterism.DeviceDelivery.{carries_material, scrubbed}
use asterism.Registry.Requests.{Serde}
use asterism.Remote.Tables.{CommandRow, OutboxRow, RemoteTables}
use asterism.Remote.Inbox.{command_key}

pub record HistoryScrub : Type 0 where
  pub scrubbed_commands : ℕ
  pub outbox_entries : ℕ
  pub wal_truncated : Bool

abbrev pub nothing_scrubbed : HistoryScrub
nothing_scrubbed = record { scrubbed_commands = 0; outbox_entries = 0; wal_truncated = false }

abbrev pub authorize_command : String
authorize_command = "credentials.authorize"

abbrev pub is_authorize : CommandRow → Bool
is_authorize row = str_eq row.command authorize_command

abbrev pub scrub_value : Serde → Option Value → Option Text
scrub_value serde none = none
scrub_value serde (some value) =
    if carries_material value then some (serde.to_string (scrubbed value)) else none

abbrev pub scrub_text : Serde → Option Text → Option Text
scrub_text serde none = none
scrub_text serde (some text) = scrub_value serde (serde.from_str text)

-- The new text of a row that the first query selects and the filter keeps.
unfoldable pub stale_response : Serde → CommandRow → Option Text
unfolding carries_material scrubbed
stale_response serde row = if is_authorize row then scrub_text serde row.response_payload else none

unfoldable pub stale_commands : Serde → List CommandRow → List (String × Text)
stale_commands serde rows = outdated_rows command_key (stale_response serde) rows

-- `value["result"] = scrubbed(result)`, on a value whose result carries the pair
abbrev pub scrub_result : Serde → Value → Option Value → Option Text
scrub_result serde value none = none
scrub_result serde (object fs) (some result) =
    if carries_material result
    then some (serde.to_string (object (insert_field (codes "result") (scrubbed result) fs)))
    else none
scrub_result serde _ (some result) = none

abbrev pub scrub_payload : Serde → Option Value → Option Text
scrub_payload serde none = none
scrub_payload serde (some value) = scrub_result serde value (get_key (codes "result") value)

-- The `JOIN`: some authorization has the message's correlation id.
unfoldable pub answers_authorize : List CommandRow → OutboxRow → Bool
answers_authorize commands row = elim row.correlation_id [
  | none ↦ false
  | some id ↦ any_row (λ (c : CommandRow). str_eq c.command_id id && is_authorize c) commands
]

unfoldable pub stale_payload : Serde → List CommandRow → OutboxRow → Option Text
unfolding carries_material scrubbed answers_authorize insert_field
stale_payload serde commands row =
    if answers_authorize commands row
    then scrub_payload serde (serde.from_str row.payload)
    else none

abbrev pub outbox_key : OutboxRow → ℕ
outbox_key row = row.id

unfoldable pub stale_outbox : Serde → List CommandRow → List OutboxRow → List (ℕ × Text)
stale_outbox serde commands rows = outdated_rows outbox_key (stale_payload serde commands) rows

abbrev pub has_command : String → CommandRow → Bool
has_command id row = str_eq row.command_id id

abbrev pub with_response : Text → CommandRow → CommandRow
with_response text row = record row { response_payload = some text }

abbrev pub has_id : ℕ → OutboxRow → Bool
has_id id row = row.id == id

abbrev pub with_payload : Text → OutboxRow → OutboxRow
with_payload text row = record row { payload = text }

-- The two loops of updates.
unfoldable pub write_responses : List (String × Text) → List CommandRow → List CommandRow
write_responses updates rows = rewrite_all has_command with_response updates rows

unfoldable pub write_payloads : List (ℕ × Text) → List OutboxRow → List OutboxRow
write_payloads updates rows = rewrite_all has_id with_payload updates rows

abbrev pub no_rows : {A : Type 0} → List A → Bool
no_rows [] = true
no_rows (x ∷ xs) = false

-- `Registry::scrub_device_authorization_history`
unfoldable pub scrub_device_authorization_history :
    Serde → (truncated : Bool) → RemoteTables → HistoryScrub × RemoteTables
unfolding stale_commands stale_outbox write_responses write_payloads
scrub_device_authorization_history serde truncated t =
    let commands = stale_commands serde t.commands in
    let outbox = stale_outbox serde t.commands t.outbox in
    if no_rows commands && no_rows outbox then (nothing_scrubbed, t) else (
      record {
        scrubbed_commands = length commands;
        outbox_entries = length outbox;
        wal_truncated = truncated;
      },
      record t {
        commands = write_responses commands t.commands;
        outbox = write_payloads outbox t.outbox;
      },
    )
