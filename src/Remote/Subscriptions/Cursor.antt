-- ===== src/Remote/Subscriptions/Cursor.antt =====
-- The acknowledged cursor of a subscription never moves backwards.
use asterism.Prelude.{
  ℕ, ◌≤◌, String, ◌≡◌, refl, ap, ◌∙◌, ◌⊎◌, inl, inr, some, List, [], ◌∷◌, ◌++◌, arith, str_eq,
  Bool-cases,
}
use asterism.Prelude.Results.{ok, err}
use asterism.Prelude.Int.{ℤ, pos, negsuc}
use asterism.Prelude.Table.{modify_rows, find_row-modify_rows, find_row-snoc, is_some}
use asterism.Registry.Tables.{Registry}
use asterism.Remote.Tables.{SubscriptionRow, RemoteTables}
use asterism.Remote.Subscriptions.{
  subscription_key, find_subscription, subscription_row, upserted, store_subscription,
  upsert_subscription, max_seq, acknowledge_events,
}

-- One call that may not lose a cursor.
pub data Call : Type 0 where
  subscribe : (now : ℕ) (project_id run_id : String) (from_seq : ℤ) → Call
  acknowledge : (now : ℕ) (run_id : String) (acked_seq : ℤ) → Call

-- The tables after a call; a refused subscription leaves them as they are.
unfoldable pub after_call : Registry → Call → RemoteTables → RemoteTables
after_call db (subscribe now project_id run_id from_seq) t =
    elim (upsert_subscription now project_id run_id from_seq db t) [ ok (s, t') ↦ t' | err e ↦ t ]
after_call db (acknowledge now run_id acked_seq) t = acknowledge_events now run_id acked_seq t

unfoldable pub after_calls : Registry → List Call → RemoteTables → RemoteTables
after_calls db [] t = t
after_calls db (c ∷ cs) t = after_calls db cs (after_call db c t)

-- A subscription that is there still is, with a cursor that is not smaller.
abbrev Advances : String → SubscriptionRow → RemoteTables → Type 0
Advances id row t =
    (row' : SubscriptionRow) × (find_subscription id t ≡ some row')
    × (row.acked_seq ≤ row'.acked_seq)

le-max_seq : (n : ℕ) (z : ℤ) → n ≤ max_seq n z
le-max_seq n (pos m) = omega arith
le-max_seq n (negsuc m) = omega arith

modified-Advances :
    (id k : String) (f : SubscriptionRow → SubscriptionRow) (t : RemoteTables)
    (row : SubscriptionRow)
    → ((r : SubscriptionRow) → subscription_key (f r) ≡ subscription_key r)
    → ((r : SubscriptionRow) → r.acked_seq ≤ (f r).acked_seq)
    → find_subscription id t ≡ some row
    → Advances id row
        (record t { subscriptions = modify_rows subscription_key k f t.subscriptions })
unfolding find_subscription
modified-Advances id k f t row same grows h = elim (Bool-cases (str_eq k id)) [
  | inl this ↦ (
    f row,
    ground (arith, find_row-modify_rows subscription_key id k f t.subscriptions same),
    grows row,
  )
  | inr other ↦ (
    row,
    ground (arith, find_row-modify_rows subscription_key id k f t.subscriptions same),
    omega arith,
  )
]

kept-added :
    (id : String) (new : SubscriptionRow) (t : RemoteTables) (row : SubscriptionRow)
    → find_subscription id t ≡ some row
    → find_subscription id (record t { subscriptions = t.subscriptions ++ new ∷ [] }) ≡ some row
unfolding find_subscription
kept-added id new t row h = ground (arith, find_row-snoc subscription_key id t.subscriptions new)

upserted-Advances :
    (id : String) (now : ℕ) (project_id run_id : String) (from_seq : ℤ) (t : RemoteTables)
    (row : SubscriptionRow)
    → find_subscription id t ≡ some row
    → Advances id row (upserted now project_id run_id from_seq t)
unfolding upserted
upserted-Advances id now project_id run_id from_seq t row h =
    elim (Bool-cases (is_some (find_subscription run_id t))) [
      | inl there ↦ rw there (
          modified-Advances id run_id (λ r. record r { updated_at = now }) t row (λ r. refl)
            (λ r. omega arith) h)
      | inr new ↦ rw new (
        row,
        kept-added id (subscription_row now project_id run_id from_seq) t row h,
        omega arith,
      )
    ]

subscribe-cases :
    (db : Registry) (now : ℕ) (project_id run_id : String) (from_seq : ℤ) (t : RemoteTables)
    → (after_call db (subscribe now project_id run_id from_seq) t ≡ t)
      ⊎ (after_call db (subscribe now project_id run_id from_seq) t
          ≡ upserted now project_id run_id from_seq t)
unfolding after_call upsert_subscription store_subscription
subscribe-cases db now project_id run_id from_seq t = ground arith

after_call-Advances :
    (db : Registry) (id : String) (c : Call) (t : RemoteTables) (row : SubscriptionRow)
    → find_subscription id t ≡ some row
    → Advances id row (after_call db c t)
unfolding after_call acknowledge_events
after_call-Advances db id (subscribe now project_id run_id from_seq) t row h =
    elim (subscribe-cases db now project_id run_id from_seq t) [
      | inl same ↦ (row, ap (find_subscription id) same ∙ h, omega arith)
      | inr wrote ↦
          let (row', found, grows) = upserted-Advances id now project_id run_id from_seq t row h in
          (row', ap (find_subscription id) wrote ∙ found, grows)
    ]
after_call-Advances db id (acknowledge now run_id acked_seq) t row h =
    modified-Advances id run_id _ t row (λ r. refl) (λ r. le-max_seq r.acked_seq acked_seq) h

-- Along every sequence of subscriptions and acknowledgements, late and duplicated ones included,
-- a subscription stays stored and its acknowledged cursor never decreases.
pub cursor_never_retreats :
    (db : Registry) (id : String) (calls : List Call) (t : RemoteTables) (row : SubscriptionRow)
    → find_subscription id t ≡ some row
    → (row' : SubscriptionRow) × (find_subscription id (after_calls db calls t) ≡ some row')
      × (row.acked_seq ≤ row'.acked_seq)
unfolding after_calls
cursor_never_retreats db id [] t row h = (row, h, omega arith)
cursor_never_retreats db id (c ∷ cs) t row h =
    let (row₁, h₁, g₁) = after_call-Advances db id c t row h in
    let (row₂, h₂, g₂) = cursor_never_retreats db id cs (after_call db c t) row₁ h₁ in
    (row₂, h₂, omega arith)
