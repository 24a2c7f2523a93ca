-- ===== src/Remote/Inbox.antt =====
-- src/remote.rs, the inbox: commands are stored before they are acknowledged, so that a redelivery
-- returns the stored outcome.
pub mod Delivery
use asterism.Prelude.{
  ℕ, ◌*◌, String, Bool, true, false, not, ◌&&◌, ◌||◌, Option, none, some, List, [], ◌∷◌, ◌++◌, map,
  str_eq, ltb, leb, if◌then◌else◌, where_rows,
}
use asterism.Prelude.Results.{Result, ok, err, ◌>>=◌, or_err}
use asterism.Prelude.Table.{find_row, modify_rows, map_option, is_some}
use asterism.Text.{Text, codes, byte_len}
use asterism.Json.{Value, bool, number, object, end, field}
use asterism.Redact.{redact}
use asterism.Registry.Requests.{Serde}
use asterism.Remote.Tables.{
  CommandState, received, executing, as_str, CommandRow, RemoteCommandRecord, RemoteTables,
  map_command,
}

pub data CommandAdmission : Type 0 where
  fresh : RemoteCommandRecord → CommandAdmission
  duplicate : RemoteCommandRecord → CommandAdmission
  payload_mismatch : (stored_digest : String) → CommandAdmission

abbrev pub command_key : CommandRow → String
command_key row = row.command_id

unfoldable pub find_command : String → RemoteTables → Option CommandRow
find_command command_id t = find_row command_key command_id t.commands

-- `Registry::remote_command`
unfoldable pub load_command : Serde → String → RemoteTables → Option RemoteCommandRecord
load_command serde command_id t = map_option (map_command serde) (find_command command_id t)

-- The row that `admit_remote_command` inserts.
unfoldable pub admitted_row : ℕ → String → String → Option String → String → CommandRow
admitted_row now command_id command project_id payload_digest = record {
  command_id = command_id;
  command = command;
  project_id = project_id;
  received_at = now;
  payload_digest = payload_digest;
  state = as_str received;
  started_at = none;
  completed_at = none;
  response_payload = none;
  error_code = none;
  error_message = none;
}

-- `Registry::admit_remote_command`. The row that was found is the row that is loaded, in one
-- transaction that holds the write lock from its start.
unfoldable pub admit_remote_command :
    Serde
    → ℕ
    → String
    → String
    → Option String
    → String
    → RemoteTables
    → CommandAdmission × RemoteTables
admit_remote_command serde now command_id command project_id payload_digest t =
    elim (find_command command_id t) [
      | some row ↦
          if not (str_eq row.payload_digest payload_digest)
          then (payload_mismatch row.payload_digest, t)
          else (duplicate (map_command serde row), t)
      | none ↦
          let row = admitted_row now command_id command project_id payload_digest in
          (fresh (map_command serde row), record t { commands = t.commands ++ row ∷ [] })
    ]

abbrev pub is_executing : CommandState → Bool
is_executing executing = true
is_executing _ = false

-- `Registry::set_remote_command_state`
unfoldable pub set_remote_command_state : ℕ → String → CommandState → RemoteTables → RemoteTables
set_remote_command_state now command_id state t = record t {
  commands =
      modify_rows command_key command_id
        (λ row. record row {
          state = as_str state;
          started_at =
              if is_executing state && not (is_some row.started_at)
              then some now
              else row.started_at;
        })
        t.commands;
}

abbrev pub max_stored_payload_bytes : ℕ
max_stored_payload_bytes = 64 * 1024

-- The text of a number in JSON; `decimal` is `usize`'s `Display`.
abbrev pub truncated_payload : Text → Value
truncated_payload decimal =
    object (field (codes "bytes") (number decimal) (field (codes "truncated") (bool true) end))

-- `bounded_payload`, with the decimal printer of the standard library as a parameter
unfoldable pub bounded_payload : Serde → (ℕ → Text) → Value → Text
bounded_payload serde decimal value =
    let encoded = serde.to_string (redact value).value in
    if ltb max_stored_payload_bytes (byte_len encoded)
    then serde.to_string (truncated_payload (decimal (byte_len encoded)))
    else encoded

-- The assignments of the `UPDATE` of `complete_remote_command`.
unfoldable pub completed_row :
    Serde
    → (ℕ → Text)
    → ℕ
    → CommandState
    → Option Value
    → Option String
    → Option String
    → CommandRow
    → CommandRow
completed_row serde decimal now state response error_code error_message row = record row {
  state = as_str state;
  completed_at = some now;
  response_payload = map_option (bounded_payload serde decimal) response;
  error_code = error_code;
  error_message = error_message;
}

-- `Registry::complete_remote_command`; the error is that the command is unknown.
unfoldable pub complete_remote_command :
    Serde
    → (ℕ → Text)
    → ℕ
    → String
    → CommandState
    → Option Value
    → Option String
    → Option String
    → RemoteTables
    → Result String (RemoteCommandRecord × RemoteTables)
unfolding load_command
complete_remote_command serde decimal now command_id state response error_code error_message t = do
  let t' = record t {
    commands =
        modify_rows command_key command_id
          (completed_row serde decimal now state response error_code error_message) t.commands;
  }
  done ← or_err (load_command serde command_id t') command_id
  ok (done, t')

-- `ORDER BY received_at`, stable
unfoldable pub insert_by_arrival : CommandRow → List CommandRow → List CommandRow
insert_by_arrival c [] = c ∷ []
insert_by_arrival c (d ∷ ds) =
    if leb c.received_at d.received_at then c ∷ d ∷ ds else d ∷ insert_by_arrival c ds

unfoldable pub order_by_arrival : List CommandRow → List CommandRow
unfolding insert_by_arrival
order_by_arrival [] = []
order_by_arrival (c ∷ cs) = insert_by_arrival c (order_by_arrival cs)

-- `state IN ('received', 'accepted', 'executing')`
unfoldable pub is_interrupted : CommandRow → Bool
is_interrupted row =
    str_eq row.state "received" || str_eq row.state "accepted" || str_eq row.state "executing"

-- `Registry::interrupted_remote_commands`
unfoldable pub interrupted_remote_commands : Serde → RemoteTables → List RemoteCommandRecord
unfolding order_by_arrival is_interrupted
interrupted_remote_commands serde t =
    map (map_command serde) (order_by_arrival (where_rows is_interrupted t.commands))
