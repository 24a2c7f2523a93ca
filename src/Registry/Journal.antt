-- ===== src/Registry/Journal.antt =====
-- src/registry.rs, `append_event` and `events_since`: the append-only event journal.
pub mod Append
pub mod Replay
use asterism.Prelude.{
  ℕ, suc, ◌+◌, ◌*◌, String, Bool, true, false, not, ◌&&◌, ◌||◌, Option, none, some, List, [], ◌∷◌,
  ◌++◌, str_eq, opt_str_eq, leb, ltb, ◌==◌, if◌then◌else◌, any_row, first_row, where_rows, map,
}
use asterism.Prelude.Results.{Result, ok, err, ◌>>=◌, ◌>>◌, guard, or_err}
use asterism.Prelude.Table.{modify_rows, unwrap_or, is_some}
use asterism.Prelude.Int.{ℤ, above, limit_rows}
use asterism.Text.{Text, byte_len}
use asterism.Json.{Value, null}
use asterism.Redact.{redact}
use asterism.Registry.Tables.{RunRow, EventRow, Registry}
use asterism.Registry.Requests.{
  Serde, RegistryError, RunUpdate, JournalEvent, StoredEvent, AppendOutcome, unknown_run,
  constraint, appended, duplicate, decode_option,
}
use asterism.Registry.Runs.{run_key, find_run}
use asterism.Registry.Updates.{apply_update}

abbrev pub max_raw_payload_bytes : ℕ
max_raw_payload_bytes = 64 * 1024

-- src/redact.rs, `bounded_raw`
unfoldable pub bounded_raw : Serde → Value → Option Text
bounded_raw serde value =
    let encoded = serde.to_string (redact value).value in
    if ltb max_raw_payload_bytes (byte_len encoded) then none else some encoded

abbrev pub encode_raw : Serde → Option Value → Option Text
encode_raw serde none = none
encode_raw serde (some raw) = bounded_raw serde raw

-- `WHERE run_id = ?1 AND dedupe_key = ?2`
unfoldable pub find_duplicate : String → String → Registry → Option EventRow
find_duplicate run_id key db =
    first_row (λ e. str_eq e.event_run_id run_id && opt_str_eq e.dedupe_key key) db.events

-- The row that `append_event` inserts.
unfoldable pub event_row : Serde → ℕ → String → ℕ → JournalEvent → EventRow
event_row serde now run_id next_seq event =
    let payload = redact event.payload in
    let raw_encoded = encode_raw serde event.raw in
    record {
      event_run_id = run_id;
      seq = next_seq;
      event_type = event.event_type;
      recorded_at = now;
      source = event.source;
      payload = serde.to_string payload.value;
      raw_payload = raw_encoded;
      was_redacted = payload.modified || (is_some event.raw && not (is_some raw_encoded));
      dedupe_key = event.dedupe_key;
    }

-- `UPDATE runs SET last_event_seq = ?2, updated_at = ?3`
abbrev pub advanced_row : ℕ → ℕ → RunRow → RunRow
advanced_row next_seq now row = record row { last_event_seq = next_seq; updated_at = now }

abbrev pub apply_optional :
    Serde → ℕ → String → Option RunUpdate → Registry → Result RegistryError Registry
apply_optional serde now run_id none db = ok db
apply_optional serde now run_id (some update) db = apply_update serde now run_id update db

-- The primary key of `run_events`.
unfoldable pub seq_is_free : String → ℕ → Registry → Bool
seq_is_free run_id seq db =
    not (any_row (λ e. str_eq e.event_run_id run_id && e.seq == seq) db.events)

-- What follows the search for a duplicate.
unfoldable pub append_fresh :
    Serde
    → ℕ
    → String
    → JournalEvent
    → Option RunUpdate
    → RunRow
    → Registry
    → Result RegistryError (AppendOutcome × Registry)
append_fresh serde now run_id event update row db = do
  let next_seq = row.last_event_seq + 1
  guard (seq_is_free run_id next_seq db) constraint
  let written = record db {
    events = db.events ++ event_row serde now run_id next_seq event ∷ [];
    runs = modify_rows run_key run_id (advanced_row next_seq now) db.runs;
  }
  db' ← apply_optional serde now run_id update written
  ok (appended next_seq, db')

abbrev pub seen_before : String → Option String → Registry → Option EventRow
seen_before run_id none db = none
seen_before run_id (some key) db = find_duplicate run_id key db

-- `Registry::append_event`: the event and the state change are one transaction.
unfoldable pub append_event :
    Serde
    → ℕ
    → String
    → JournalEvent
    → Option RunUpdate
    → Registry
    → Result RegistryError (AppendOutcome × Registry)
unfolding append_fresh
append_event serde now run_id event update db = do
  row ← or_err (find_run run_id db) (unknown_run run_id)
  elim (seen_before run_id event.dedupe_key db) [
    | some earlier ↦ ok (duplicate earlier.seq, db)
    | none ↦ append_fresh serde now run_id event update row db
  ]

unfoldable pub map_event : Serde → EventRow → StoredEvent
map_event serde row = record {
  run_id = row.event_run_id;
  seq = row.seq;
  event_type = row.event_type;
  recorded_at = row.recorded_at;
  source = row.source;
  payload = unwrap_or (serde.from_str row.payload) null;
  raw_payload = decode_option serde row.raw_payload;
  was_redacted = row.was_redacted;
}

-- `ORDER BY seq ASC`
unfoldable pub insert_by_seq : EventRow → List EventRow → List EventRow
insert_by_seq e [] = e ∷ []
insert_by_seq e (f ∷ fs) = if leb e.seq f.seq then e ∷ f ∷ fs else f ∷ insert_by_seq e fs

unfoldable pub order_by_seq : List EventRow → List EventRow
unfolding insert_by_seq
order_by_seq [] = []
order_by_seq (e ∷ es) = insert_by_seq e (order_by_seq es)

unfoldable pub events_after : String → ℤ → List EventRow → List EventRow
events_after run_id after_seq events =
    where_rows (λ e. str_eq e.event_run_id run_id && above after_seq e.seq) events

-- `Registry::events_since`
unfoldable pub events_since : Serde → Registry → String → ℤ → ℤ → List StoredEvent
unfolding map_event order_by_seq events_after
events_since serde db run_id after_seq limit =
    map (map_event serde)
      (limit_rows limit (order_by_seq (events_after run_id after_seq db.events)))
