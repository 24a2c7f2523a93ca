-- ===== src/Remote/Outbox/Queue.antt =====
-- What the outbox promises, without rows: a queue of the messages that wait, in order.
use asterism.Prelude.{
  ℕ, suc, String, Bool, not, List, [], ◌∷◌, ◌++◌, map, opt_str_eq, ◌==◌, leb, if◌then◌else◌,
  where_rows, length,
}
use asterism.Text.{Text}
use asterism.Registry.Requests.{Serde}
use asterism.Remote.Tables.{RemoteTables}
use asterism.Remote.Outbox.{OutboxEntry, max_outbox_depth, is_pending, outbox_row, map_outbox}
use asterism.Remote.Outbox.Backlog.{Call, enqueue, acknowledge, acknowledge_correlation}

pub record Queue : Type 0 where
  pub last_number : ℕ
  pub waiting : List OutboxEntry

abbrev has_number : ℕ → OutboxEntry → Bool
has_number id e = e.id == id

abbrev replies_to : String → OutboxEntry → Bool
replies_to correlation e = opt_str_eq e.correlation_id correlation

abbrev without : (OutboxEntry → Bool) → List OutboxEntry → List OutboxEntry
without p entries = where_rows (λ e. not (p e)) entries

module _ (serde : Serde) (decimal : ℕ → Text) where
  -- The queue after a call: a message joins at the end unless the queue is full, and leaves when it
  -- is acknowledged.
  abbrev pub queue_call : Call → Queue → Queue
  queue_call (enqueue now kind correlation payload) q =
      if leb max_outbox_depth (length q.waiting) then q else record {
        last_number = suc q.last_number;
        waiting =
            q.waiting
            ++ map_outbox serde
                (outbox_row serde decimal now (suc q.last_number) kind correlation payload)
              ∷ [];
      }
  queue_call (acknowledge now id) q = record q { waiting = without (has_number id) q.waiting }
  queue_call (acknowledge_correlation now correlation) q = record q {
    waiting = without (replies_to correlation) q.waiting;
  }

  abbrev pub queue_calls : List Call → Queue → Queue
  queue_calls [] q = q
  queue_calls (c ∷ cs) q = queue_calls cs (queue_call c q)

  -- The queue that the tables hold.
  abbrev pub queue_of : RemoteTables → Queue
  queue_of t = record {
    last_number = t.last_id;
    waiting = map (map_outbox serde) (where_rows is_pending t.outbox);
  }
