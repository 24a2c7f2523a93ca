-- ===== src/Remote/Outbox/Settled.antt =====
-- Messages of the outbox that have been acknowledged.
use asterism.Prelude.{
  ℕ, ◌≤◌, ◌<◌, ◌≡◌, refl, Bool, false, ◌&&◌, inl, inr, List, [], ◌∷◌, ◌++◌, arith, ◌==◌, leb,
  Bool-cases, any_row, update_rows,
}
use asterism.Text.{Text}
use asterism.Registry.Requests.{Serde}
use asterism.Remote.Tables.{OutboxRow, RemoteTables}
use asterism.Remote.Outbox.{
  max_outbox_depth, is_pending, outbox_depth, outbox_row, enqueue_outbox, acknowledged_row,
  acknowledge_outbox, answers, acknowledge_outbox_correlation,
}
use asterism.Remote.Outbox.Backlog.{
  Call, enqueue, acknowledge, acknowledge_correlation, after_call, after_calls,
}

-- Whether the message `id` is still to be delivered.
abbrev pub awaits : ℕ → RemoteTables → Bool
awaits id t = any_row (λ r. r.id == id && is_pending r) t.outbox

awaits-acknowledged_self :
    (now id : ℕ) (rows : List OutboxRow)
    → any_row
        (λ r. r.id == id && is_pending r)
        (update_rows (λ r. r.id == id && is_pending r) (acknowledged_row now) rows)
      ≡ false
awaits-acknowledged_self now id [] = refl
awaits-acknowledged_self now id (r ∷ rs) = ground (arith, awaits-acknowledged_self now id rs)

awaits-update :
    (p : OutboxRow → Bool) (now id : ℕ) (rows : List OutboxRow)
    → any_row (λ r. r.id == id && is_pending r) rows ≡ false
    → any_row (λ r. r.id == id && is_pending r) (update_rows p (acknowledged_row now) rows) ≡ false
awaits-update p now id [] h = refl
awaits-update p now id (r ∷ rs) h = ground (arith, awaits-update p now id rs)

awaits-snoc :
    (id : ℕ) (rows : List OutboxRow) (row : OutboxRow)
    → any_row (λ r. r.id == id && is_pending r) rows ≡ false
    → id < row.id
    → any_row (λ r. r.id == id && is_pending r) (rows ++ row ∷ []) ≡ false
awaits-snoc id [] row h p = ground arith
awaits-snoc id (r ∷ rs) row h p = ground (arith, awaits-snoc id rs row)

module _ (serde : Serde) (decimal : ℕ → Text) where
  -- A call keeps a settled message settled, and its identifier used.
  settled-after_call :
      (id : ℕ) (c : Call) (t : RemoteTables)
      → id ≤ t.last_id
      → awaits id t ≡ false
      → (id ≤ (after_call serde decimal c t).last_id)
        × (awaits id (after_call serde decimal c t) ≡ false)
  unfolding after_call enqueue_outbox outbox_row acknowledge_outbox acknowledge_outbox_correlation
  settled-after_call id (enqueue now kind correlation payload) t used done =
      elim (Bool-cases (leb max_outbox_depth (outbox_depth t))) [
        | inl full ↦ rw (full, after_call) (used, done)
        | inr room ↦
            rw (room, after_call) (omega arith, awaits-snoc id t.outbox _ done (omega arith))
      ]
  settled-after_call id (acknowledge now other) t used done =
      (used, awaits-update _ now id t.outbox done)
  settled-after_call id (acknowledge_correlation now correlation) t used done =
      (used, awaits-update (answers correlation) now id t.outbox done)

  settled-after_calls :
      (id : ℕ) (calls : List Call) (t : RemoteTables)
      → id ≤ t.last_id
      → awaits id t ≡ false
      → awaits id (after_calls serde decimal calls t) ≡ false
  unfolding after_calls
  settled-after_calls id [] t used done = done
  settled-after_calls id (c ∷ cs) t used done =
      let (used', done') = settled-after_call id c t used done in
      settled-after_calls id cs (after_call serde decimal c t) used' done'

  -- A message that has been acknowledged is never delivered again, whatever is enqueued or
  -- acknowledged later: its identifier is not used for another message.
  pub acknowledged_for_good :
      (now id : ℕ) (calls : List Call) (t : RemoteTables)
      → id ≤ t.last_id
      → awaits id (after_calls serde decimal calls (acknowledge_outbox now id t)) ≡ false
  unfolding acknowledge_outbox
  acknowledged_for_good now id calls t used =
      settled-after_calls id calls (acknowledge_outbox now id t) used
        (awaits-acknowledged_self now id t.outbox)
