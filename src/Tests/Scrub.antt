-- ===== src/Tests/Scrub.antt =====
-- Stored device authorizations, and their rewrite.
use asterism.Prelude.{◌≡◌, true, none, some, [], ◌∷◌}
use asterism.Text.{codes}
use asterism.Json.{Value, string, object, end, field}
use asterism.Remote.Tables.{RemoteTables, CommandRow, OutboxRow, no_remote_rows}
use asterism.Remote.Scrub.{nothing_scrubbed, scrub_device_authorization_history}
use asterism.Remote.Scrub.Scrubbed.{IsScrubbed, scrub-IsScrubbed}
use asterism.Tests.ValueCodec.{value_serde, value_serde-Lawful}

abbrev pair_of_code : Value
pair_of_code = object (
    field (codes "user_code") (string (codes "ABCD-1234"))
      (field (codes "verification_uri") (string (codes "https://example.test/device")) end))

abbrev stored : CommandRow
stored = record {
  command_id = "c-1";
  command = "credentials.authorize";
  project_id = none;
  received_at = 1;
  payload_digest = "d";
  state = "completed";
  started_at = some 1;
  completed_at = some 2;
  response_payload = some (value_serde.to_string pair_of_code);
  error_code = none;
  error_message = none;
}

abbrev message : OutboxRow
message = record {
  id = 1;
  kind = "command.completed";
  correlation_id = some "c-1";
  payload = value_serde.to_string (object (field (codes "result") pair_of_code end));
  created_at = 2;
  acknowledged_at = none;
}

abbrev history : RemoteTables
history = record no_remote_rows { commands = stored ∷ []; outbox = message ∷ []; last_id = 1 }

scrub-IsScrubbed_example :
    IsScrubbed value_serde (scrub_device_authorization_history value_serde true history).1
    × (scrub_device_authorization_history value_serde true
          (scrub_device_authorization_history value_serde true history).1
        ≡ (nothing_scrubbed, (scrub_device_authorization_history value_serde true history).1))
scrub-IsScrubbed_example = scrub-IsScrubbed value_serde true history value_serde-Lawful
