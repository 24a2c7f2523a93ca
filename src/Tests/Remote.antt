-- ===== src/Tests/Remote.antt =====
-- The theorems of the inbox, the outbox and the subscriptions at small histories.
use asterism.Prelude.{
  ℕ, ◌≡◌, ◌+◌, ◌≤◌, refl, true, none, some, List, [], ◌∷◌, ◌++◌, map, if◌then◌else◌, str_eq,
}
use asterism.Prelude.Int.{pos}
use asterism.Prelude.Table.{find_row, is_some}
use asterism.Text.{Text, codes}
use asterism.Json.{null, string}
use asterism.Remote.Tables.{
  CommandRow, RemoteTables, SubscriptionRow, executing, completed, no_remote_rows, map_command,
}
use asterism.Remote.Inbox.{
  admitted_row, find_command, admit_remote_command, duplicate, payload_mismatch,
}
use asterism.Remote.Inbox.Delivery
use asterism.Remote.Inbox.Delivery.{
  admit, set_state, complete, executions, delivered, executed_once, redelivery,
}
use asterism.Remote.Outbox.{max_outbox_depth}
use asterism.Remote.Outbox.Backlog
use asterism.Remote.Outbox.Backlog.{
  enqueue, acknowledge_correlation, IsBacklog, IsBounded, IsBacklog-empty, unchecked_of,
  outbox-IsBacklog, outbox-IsBounded, pending_in_order,
}
use asterism.Remote.Subscriptions.{find_subscription, subscription_row}
use asterism.Remote.Subscriptions.Cursor
use asterism.Remote.Subscriptions.Cursor.{subscribe, cursor_never_retreats}
use asterism.Registry.Tables.{no_rows}
use asterism.Tests.Serializer.{compact}

-- A decimal printer that stands for the one of the standard library.
abbrev decimal : ℕ → Text
decimal n = codes "1"

-- A delivery, its execution, a redelivery while it runs, its completion, and one more redelivery.
abbrev deliveries : List Delivery.Call
deliveries =
    admit 1 "c1" "run.start" none "digest-a"
    ∷ set_state 2 "c1" executing
    ∷ admit 3 "c1" "run.start" none "digest-a"
    ∷ complete 4 "c1" completed (some (string (codes "done"))) none none
    ∷ admit 5 "c1" "run.start" none "digest-b"
    ∷ []

executed_once_example : executions compact decimal "c1" deliveries no_remote_rows ≡ (
    if is_some (find_command "c1" no_remote_rows)
    then 0
    else if delivered "c1" deliveries
    then 1
    else 0)
executed_once_example = executed_once compact decimal "c1" deliveries no_remote_rows

abbrev stored_row : CommandRow
stored_row = admitted_row 1 "c1" "run.start" none "digest-a"

abbrev stored : RemoteTables
stored = record no_remote_rows { commands = stored_row ∷ [] }

found_stored : find_command "c1" stored ≡ some stored_row
unfolding find_command find_row admitted_row
found_stored = refl

redelivery_example :
    let t' = Delivery.after_calls compact decimal deliveries stored in
    (row' : CommandRow) × (find_command "c1" t' ≡ some row')
    × (admit_remote_command compact 9 "c1" "run.start" none "digest-b" t' ≡ (
        if str_eq stored_row.payload_digest "digest-b"
        then (duplicate (map_command compact row'), t')
        else (payload_mismatch stored_row.payload_digest, t')))
redelivery_example =
    redelivery compact decimal "c1" deliveries stored stored_row 9 "run.start" none "digest-b"
      found_stored

abbrev sends : List Backlog.Call
sends =
    enqueue 1 "response" (some "c1") (string (codes "a"))
    ∷ enqueue 2 "event" none null
    ∷ acknowledge_correlation 3 "c1"
    ∷ enqueue 4 "event" none null
    ∷ []

abbrev sent : RemoteTables
sent = Backlog.after_calls compact decimal sends no_remote_rows

sent-IsBacklog : IsBacklog sent
sent-IsBacklog = outbox-IsBacklog compact decimal sends no_remote_rows IsBacklog-empty

-- The messages, a report, and a message that comes late.
abbrev writes : List Backlog.Write
writes =
    map Backlog.by_call sends
    ++ Backlog.report 9 "card:7" (codes "{}") true ∷ Backlog.late 9 "event" none null ∷ []

outbox-IsBounded_example :
    IsBounded
      (max_outbox_depth + unchecked_of writes)
      (Backlog.after_writes compact decimal writes no_remote_rows)
outbox-IsBounded_example = outbox-IsBounded compact decimal writes no_remote_rows IsBacklog-empty

abbrev followed : RemoteTables
followed = record no_remote_rows { subscriptions = subscription_row 1 "p1" "arun_1" (pos 4) ∷ [] }

found_followed :
    find_subscription "arun_1" followed ≡ some (subscription_row 1 "p1" "arun_1" (pos 4))
unfolding find_subscription find_row subscription_row
found_followed = refl

abbrev acknowledgements : List Cursor.Call
acknowledgements =
    Cursor.acknowledge 2 "arun_1" (pos 7)
    ∷ Cursor.acknowledge 3 "arun_1" (pos 5)
    ∷ subscribe 4 "p1" "arun_1" (pos 0)
    ∷ []

cursor_never_retreats_example :
    (row' : SubscriptionRow) × (find_subscription "arun_1"
        (Cursor.after_calls no_rows acknowledgements followed)
      ≡ some row')
    × ((subscription_row 1 "p1" "arun_1" (pos 4)).acked_seq ≤ row'.acked_seq)
cursor_never_retreats_example =
    cursor_never_retreats no_rows "arun_1" acknowledgements followed
      (subscription_row 1 "p1" "arun_1" (pos 4)) found_followed
