-- ===== src/Remote/Subscriptions.antt =====
-- src/remote.rs, the event subscriptions: how far the Control Plane has acknowledged a run's
-- events.
pub mod Cursor
use Prim.Native.Nat.{max}
use Prim.Native.String.{compare}
use text.Mathlib.Text.{is_le}
use asterism.Prelude.{
  ℕ, String, Bool, true, false, ◌||◌, Option, none, some, List, [], ◌∷◌, ◌++◌, map, if◌then◌else◌,
}
use asterism.Prelude.Results.{Result, ok, err, ◌>>=◌, or_err}
use asterism.Prelude.Table.{find_row, modify_rows, delete_rows, map_option, is_some}
use asterism.Prelude.Int.{ℤ, max_zero, pos, negsuc}
use asterism.Registry.Tables.{Registry}
use asterism.Registry.Requests.{RegistryError, constraint, vanished}
use asterism.Registry.Runs.{find_run}
use asterism.Remote.Tables.{SubscriptionRow, RemoteTables}

pub record EventSubscription : Type 0 where
  pub run_id : String
  pub project_id : String
  pub acked_seq : ℕ

abbrev pub subscription_key : SubscriptionRow → String
subscription_key row = row.run_id

abbrev pub map_subscription : SubscriptionRow → EventSubscription
map_subscription row = record {
  run_id = row.run_id;
  project_id = row.project_id;
  acked_seq = row.acked_seq;
}

unfoldable pub find_subscription : String → RemoteTables → Option SubscriptionRow
find_subscription run_id t = find_row subscription_key run_id t.subscriptions

-- `Registry::subscription`
unfoldable pub subscription : String → RemoteTables → Option EventSubscription
unfolding find_subscription
subscription run_id t = map_option map_subscription (find_subscription run_id t)

-- The row that a first subscription inserts.
unfoldable pub subscription_row : ℕ → String → String → ℤ → SubscriptionRow
subscription_row now project_id run_id from_seq = record {
  run_id = run_id;
  project_id = project_id;
  acked_seq = max_zero from_seq;
  created_at = now;
  updated_at = now;
}

-- `INSERT … ON CONFLICT(run_id) DO UPDATE SET updated_at`
unfoldable pub upserted : ℕ → String → String → ℤ → RemoteTables → RemoteTables
unfolding subscription_row
upserted now project_id run_id from_seq t =
    if is_some (find_subscription run_id t)
    then record t {
      subscriptions =
          modify_rows subscription_key run_id (λ row. record row { updated_at = now })
            t.subscriptions;
    }
    else record t {
      subscriptions = t.subscriptions ++ subscription_row now project_id run_id from_seq ∷ [];
    }

-- The write and the read back.
unfoldable pub store_subscription :
    ℕ → String → String → ℤ → RemoteTables → Result RegistryError (EventSubscription × RemoteTables)
unfolding upserted subscription
store_subscription now project_id run_id from_seq t = do
  let t' = upserted now project_id run_id from_seq t
  s ← or_err (subscription run_id t') vanished
  ok (s, t')

-- `Registry::upsert_subscription`; a new row's foreign key wants the run.
unfoldable pub upsert_subscription :
    ℕ
    → String
    → String
    → ℤ
    → Registry
    → RemoteTables
    → Result RegistryError (EventSubscription × RemoteTables)
unfolding store_subscription
upsert_subscription now project_id run_id from_seq db t =
    if is_some (find_subscription run_id t) || is_some (find_run run_id db)
    then store_subscription now project_id run_id from_seq t
    else err constraint

-- SQL's `MAX(acked_seq, ?)` at a stored number and a signed argument
abbrev pub max_seq : ℕ → ℤ → ℕ
max_seq n (pos m) = max n m
max_seq n (negsuc m) = n

-- `Registry::acknowledge_events`
unfoldable pub acknowledge_events : ℕ → String → ℤ → RemoteTables → RemoteTables
acknowledge_events now run_id acked_seq t = record t {
  subscriptions =
      modify_rows subscription_key run_id
        (λ row. record row { acked_seq = max_seq row.acked_seq acked_seq; updated_at = now })
        t.subscriptions;
}

-- `Registry::remove_subscription`
unfoldable pub remove_subscription : String → RemoteTables → RemoteTables
remove_subscription run_id t = record t {
  subscriptions = delete_rows subscription_key run_id t.subscriptions;
}

-- `ORDER BY run_id`, in the order of the texts
unfoldable pub insert_by_run : SubscriptionRow → List SubscriptionRow → List SubscriptionRow
insert_by_run a [] = a ∷ []
insert_by_run a (b ∷ bs) =
    if is_le (compare a.run_id b.run_id) then a ∷ b ∷ bs else b ∷ insert_by_run a bs

unfoldable pub order_by_run : List SubscriptionRow → List SubscriptionRow
unfolding insert_by_run
order_by_run [] = []
order_by_run (a ∷ rows) = insert_by_run a (order_by_run rows)

-- `Registry::subscriptions`
unfoldable pub subscriptions_of : RemoteTables → List EventSubscription
unfolding order_by_run
subscriptions_of t = map map_subscription (order_by_run t.subscriptions)
