-- ===== src/Remote/Outbox.antt =====
-- src/remote.rs, the outbox: messages that must survive a reconnect, with a bounded backlog.
pub mod Backlog
pub mod Settled
pub mod Queue
use asterism.Prelude.{
  ℕ, suc, ◌+◌, String, Bool, true, false, not, ◌&&◌, Option, none, some, List, [], ◌∷◌, ◌++◌, map,
  opt_str_eq, leb, ◌==◌, if◌then◌else◌, count_rows, where_rows, update_rows,
}
use asterism.Prelude.Results.{Result, ok, err}
use asterism.Prelude.Table.{is_some, unwrap_or}
use asterism.Prelude.Int.{ℤ, limit_rows}
use asterism.Text.{Text}
use asterism.Json.{Value, null}
use asterism.Registry.Requests.{Serde}
use asterism.Remote.Tables.{OutboxRow, RemoteTables}
use asterism.Remote.Inbox.{bounded_payload}

abbrev pub max_outbox_depth : ℕ
max_outbox_depth = 1024

pub record OutboxEntry : Type 0 where
  pub id : ℕ
  pub kind : String
  pub correlation_id : Option String
  pub payload : Value
  pub created_at : ℕ

-- `acknowledged_at IS NULL`
abbrev pub is_pending : OutboxRow → Bool
is_pending row = not (is_some row.acknowledged_at)

-- `Registry::outbox_depth`
unfoldable pub outbox_depth : RemoteTables → ℕ
outbox_depth t = count_rows is_pending t.outbox

-- The refusal of a full outbox.
pub data OutboxError : Type 0 where
  outbox_full : OutboxError

unfoldable pub outbox_row : Serde → (ℕ → Text) → ℕ → ℕ → String → Option String → Value → OutboxRow
outbox_row serde decimal now id kind correlation_id payload = record {
  id = id;
  kind = kind;
  correlation_id = correlation_id;
  payload = bounded_payload serde decimal payload;
  created_at = now;
  acknowledged_at = none;
}

-- The `INSERT` of `enqueue_outbox`.
abbrev pub insert_outbox :
    Serde → (ℕ → Text) → ℕ → String → Option String → Value → RemoteTables → ℕ × RemoteTables
insert_outbox serde decimal now kind correlation_id payload t =
    let id = suc t.last_id in
    (
      id,
      record t {
        outbox = t.outbox ++ outbox_row serde decimal now id kind correlation_id payload ∷ [];
        last_id = id;
      },
    )

-- `Registry::enqueue_outbox`, whose two statements no other connection parts; Backlog follows an
-- insertion that comes late.
unfoldable pub enqueue_outbox :
    Serde
    → (ℕ → Text)
    → ℕ
    → String
    → Option String
    → Value
    → RemoteTables
    → Result OutboxError (ℕ × RemoteTables)
unfolding outbox_row
enqueue_outbox serde decimal now kind correlation_id payload t =
    if leb max_outbox_depth (outbox_depth t)
    then err outbox_full
    else ok (insert_outbox serde decimal now kind correlation_id payload t)

-- The refusal of a report whose card is not bound to its run.
pub data ReportError : Type 0 where
  unbound_card : ReportError

abbrev pub outbox_task_report : String
outbox_task_report = "task.report"

-- `enqueue_report` of src/workdesk.rs, which writes to the same table: `bound` is the answer of its
-- query on the cards, and the cursors of the card, which it raises in the same transaction, are
-- columns of that other table.
unfoldable pub enqueue_report :
    ℕ → String → Text → (bound : Bool) → RemoteTables → Result ReportError (ℕ × RemoteTables)
enqueue_report now report_id payload bound t =
    if bound
    then (let id = suc t.last_id in
        ok (
          id,
          record t {
            outbox =
                t.outbox
                ++ record {
                  id = id;
                  kind = outbox_task_report;
                  correlation_id = some report_id;
                  payload = payload;
                  created_at = now;
                  acknowledged_at = none;
                }
                  ∷ [];
            last_id = id;
          },
        ))
    else err unbound_card

unfoldable pub map_outbox : Serde → OutboxRow → OutboxEntry
map_outbox serde row = record {
  id = row.id;
  kind = row.kind;
  correlation_id = row.correlation_id;
  payload = unwrap_or (serde.from_str row.payload) null;
  created_at = row.created_at;
}

-- `ORDER BY id ASC`
unfoldable pub insert_by_id : OutboxRow → List OutboxRow → List OutboxRow
insert_by_id a [] = a ∷ []
insert_by_id a (b ∷ bs) = if leb a.id b.id then a ∷ b ∷ bs else b ∷ insert_by_id a bs

unfoldable pub order_by_id : List OutboxRow → List OutboxRow
unfolding insert_by_id
order_by_id [] = []
order_by_id (a ∷ rows) = insert_by_id a (order_by_id rows)

-- `Registry::pending_outbox`
unfoldable pub pending_outbox : Serde → ℤ → RemoteTables → List OutboxEntry
unfolding map_outbox order_by_id
pending_outbox serde limit t =
    map (map_outbox serde) (limit_rows limit (order_by_id (where_rows is_pending t.outbox)))

abbrev pub acknowledged_row : ℕ → OutboxRow → OutboxRow
acknowledged_row now row = record row { acknowledged_at = some now }

-- `Registry::acknowledge_outbox`
unfoldable pub acknowledge_outbox : ℕ → ℕ → RemoteTables → RemoteTables
acknowledge_outbox now id t = record t {
  outbox = update_rows (λ r. r.id == id && is_pending r) (acknowledged_row now) t.outbox;
}

abbrev pub answers : String → OutboxRow → Bool
answers correlation_id row = opt_str_eq row.correlation_id correlation_id && is_pending row

-- `Registry::acknowledge_outbox_correlation`, with the number of rows that it changed
unfoldable pub acknowledge_outbox_correlation : ℕ → String → RemoteTables → ℕ × RemoteTables
acknowledge_outbox_correlation now correlation_id t = (
  count_rows (answers correlation_id) t.outbox,
  record t { outbox = update_rows (answers correlation_id) (acknowledged_row now) t.outbox },
)
