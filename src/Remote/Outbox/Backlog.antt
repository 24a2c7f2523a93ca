-- ===== src/Remote/Outbox/Backlog.antt =====
-- The outbox over every sequence of its operations: bounded, in order, and each message delivered
-- until it is acknowledged and not after.
use mathlib.Core.Path.{subst}
use asterism.Prelude.{
  ℕ, suc, ◌+◌, ◌≤◌, ◌<◌, String, ◌≡◌, refl, ap, Bool, true, false, inl, inr, Option, List, [], ◌∷◌,
  ◌++◌, map, arith, leb, if◌then◌else◌, Bool-cases, count_rows, update_rows, where_rows,
}
use asterism.Prelude.Results.{ok, err}
use asterism.Prelude.Int.{ℤ, limit_rows}
use asterism.Prelude.Sequences.{AllBelow, Increasing, Increasing-snoc, Increasing-weaken}
use asterism.Text.{Text}
use asterism.Json.{Value}
use asterism.Registry.Requests.{Serde}
use asterism.Remote.Tables.{OutboxRow, RemoteTables, no_remote_rows}
use asterism.Remote.Outbox.{
  max_outbox_depth, insert_outbox, enqueue_report, is_pending, outbox_depth, outbox_row,
  enqueue_outbox, map_outbox, insert_by_id, order_by_id, pending_outbox, acknowledged_row,
  acknowledge_outbox, acknowledge_outbox_correlation,
}

-- One call on the outbox.
pub data Call : Type 0 where
  enqueue : (now : ℕ) (kind : String) (correlation_id : Option String) (payload : Value) → Call
  acknowledge : (now id : ℕ) → Call
  acknowledge_correlation : (now : ℕ) (correlation_id : String) → Call

module _ (serde : Serde) (decimal : ℕ → Text) where
  -- The tables after a call; a refused message leaves them as they are.
  unfoldable pub after_call : Call → RemoteTables → RemoteTables
  after_call (enqueue now kind correlation payload) t =
      elim (enqueue_outbox serde decimal now kind correlation payload t) [
        | ok (id, t') ↦ t'
        | err e ↦ t
      ]
  after_call (acknowledge now id) t = acknowledge_outbox now id t
  after_call (acknowledge_correlation now correlation) t =
      (acknowledge_outbox_correlation now correlation t).1

  unfoldable pub after_calls : List Call → RemoteTables → RemoteTables
  after_calls [] t = t
  after_calls (c ∷ cs) t = after_calls cs (after_call c t)

abbrev pub row_ids : List OutboxRow → List ℕ
row_ids [] = []
row_ids (r ∷ rs) = r.id ∷ row_ids rs

-- A write to the outbox: one of the calls above, the insertion of `enqueue_outbox` where another
-- connection has written since its look at the depth, or a report of src/workdesk.rs.
pub data Write : Type 0 where
  by_call : Call → Write
  late : (now : ℕ) (kind : String) (correlation_id : Option String) (payload : Value) → Write
  report : (now : ℕ) (report_id : String) (payload : Text) (bound : Bool) → Write

module _ (serde : Serde) (decimal : ℕ → Text) where
  abbrev pub after_write : Write → RemoteTables → RemoteTables
  after_write (by_call c) t = after_call serde decimal c t
  after_write (late now kind correlation payload) t =
      (insert_outbox serde decimal now kind correlation payload t).1
  after_write (report now report_id payload bound) t =
      elim (enqueue_report now report_id payload bound t) [ ok (id, t') ↦ t' | err e ↦ t ]

  abbrev pub after_writes : List Write → RemoteTables → RemoteTables
  after_writes [] t = t
  after_writes (w ∷ ws) t = after_writes ws (after_write w t)

-- How many writes did not look at the depth, or looked too early.
abbrev pub unchecked_of : List Write → ℕ
unchecked_of [] = 0
unchecked_of (by_call c ∷ ws) = unchecked_of ws
unchecked_of (late now kind correlation payload ∷ ws) = suc (unchecked_of ws)
unchecked_of (report now report_id payload bound ∷ ws) = suc (unchecked_of ws)

-- At most this many messages wait, the identifiers increase, and the counter is past all of them.
pub record IsBounded (most : ℕ) (t : RemoteTables) : Type 0 where
  pub bounded : outbox_depth t ≤ most
  pub increasing : Increasing 0 (row_ids t.outbox)
  pub counted : AllBelow (suc t.last_id) (row_ids t.outbox)

-- What the calls alone leave.
abbrev pub IsBacklog : RemoteTables → Type 0
IsBacklog = IsBounded max_outbox_depth

pub IsBacklog-empty : IsBacklog no_remote_rows
unfolding outbox_depth
IsBacklog-empty = record { bounded = omega arith; increasing = tt; counted = tt }

count-snoc :
    (xs : List OutboxRow) (x : OutboxRow)
    → count_rows is_pending (xs ++ x ∷ [])
      ≡ count_rows is_pending xs + (if is_pending x then 1 else 0)
count-snoc [] x = omega arith
count-snoc (y ∷ ys) x = omega (arith, count-snoc ys x)

count-acknowledged :
    (p : OutboxRow → Bool) (now : ℕ) (xs : List OutboxRow)
    → count_rows is_pending (update_rows p (acknowledged_row now) xs) ≤ count_rows is_pending xs
count-acknowledged p now [] = omega arith
count-acknowledged p now (x ∷ xs) = ground (arith, count-acknowledged p now xs)

row_ids-snoc :
    (xs : List OutboxRow) (x : OutboxRow) → row_ids (xs ++ x ∷ []) ≡ row_ids xs ++ x.id ∷ []
row_ids-snoc [] x = refl
row_ids-snoc (y ∷ ys) x = ap (λ l. y.id ∷ l) (row_ids-snoc ys x)

row_ids-acknowledged :
    (p : OutboxRow → Bool) (now : ℕ) (xs : List OutboxRow)
    → row_ids (update_rows p (acknowledged_row now) xs) ≡ row_ids xs
row_ids-acknowledged p now [] = refl
row_ids-acknowledged p now (x ∷ xs) = ground (arith, row_ids-acknowledged p now xs)

AllBelow-suc : (n : ℕ) (xs : List ℕ) → AllBelow n xs → AllBelow (suc n) xs
AllBelow-suc n [] h = tt
AllBelow-suc n (x ∷ xs) h = (omega arith, AllBelow-suc n xs h.1)

AllBelow-snoc : (n : ℕ) (xs : List ℕ) (x : ℕ) → AllBelow n xs → x < n → AllBelow n (xs ++ x ∷ [])
AllBelow-snoc n [] x h p = (p, tt)
AllBelow-snoc n (y ∷ ys) x h p = (h.0, AllBelow-snoc n ys x h.1 p)

acknowledged-IsBounded :
    (most : ℕ) (p : OutboxRow → Bool) (now : ℕ) (t : RemoteTables)
    → IsBounded most t
    → IsBounded most (record t { outbox = update_rows p (acknowledged_row now) t.outbox })
unfolding outbox_depth
acknowledged-IsBounded most p now t b = record {
  bounded = omega (arith, count-acknowledged p now t.outbox, b.bounded);
  increasing = rw (row_ids-acknowledged p now t.outbox) b.increasing;
  counted = rw (row_ids-acknowledged p now t.outbox) b.counted;
}

written-IsBounded :
    (most : ℕ) (row : OutboxRow) (t : RemoteTables)
    → row.id ≡ suc t.last_id
    → Increasing 0 (row_ids t.outbox)
    → AllBelow (suc t.last_id) (row_ids t.outbox)
    → outbox_depth t < most
    → IsBounded most (record t { outbox = t.outbox ++ row ∷ []; last_id = suc t.last_id })
unfolding outbox_depth
written-IsBounded most row t numbered increasing counted room = record {
  bounded = ground (arith, count-snoc t.outbox row);
  increasing =
      rw (row_ids-snoc t.outbox row, numbered)
        (Increasing-snoc 0 (row_ids t.outbox) (suc t.last_id) increasing (omega arith) counted);
  counted =
      rw (row_ids-snoc t.outbox row, numbered)
        (AllBelow-snoc (suc (suc t.last_id)) (row_ids t.outbox) (suc t.last_id)
          (AllBelow-suc (suc t.last_id) (row_ids t.outbox) counted) (omega arith));
}

module _ (serde : Serde) (decimal : ℕ → Text) where
  -- A call leaves no more messages waiting than there were, or as many as may wait.
  after_call-IsBounded :
      (most : ℕ) (c : Call) (t : RemoteTables)
      → max_outbox_depth ≤ most
      → IsBounded most t
      → IsBounded most (after_call serde decimal c t)
  unfolding after_call enqueue_outbox acknowledge_outbox acknowledge_outbox_correlation
  after_call-IsBounded most (enqueue now kind correlation payload) t enough b =
      elim (Bool-cases (leb max_outbox_depth (outbox_depth t))) [
        | inl full ↦ rw (full, after_call) b
        | inr room ↦
            rw (room, after_call)
              (written-IsBounded most _ t refl b.increasing b.counted
                (ground (arith, room, enough)))
      ]
  after_call-IsBounded most (acknowledge now id) t enough b = acknowledged-IsBounded most _ now t b
  after_call-IsBounded most (acknowledge_correlation now correlation) t enough b =
      acknowledged-IsBounded most _ now t b

  pub outbox-IsBacklog :
      (calls : List Call) (t : RemoteTables)
      → IsBacklog t
      → IsBacklog (after_calls serde decimal calls t)
  unfolding after_calls
  outbox-IsBacklog [] t b = b
  outbox-IsBacklog (c ∷ cs) t b =
      outbox-IsBacklog cs (after_call serde decimal c t)
        (after_call-IsBounded max_outbox_depth c t (omega arith) b)

  late-IsBounded :
      (most now : ℕ) (kind : String) (correlation : Option String) (payload : Value)
      (t : RemoteTables)
      → IsBounded most t
      → IsBounded (suc most) (after_write serde decimal (late now kind correlation payload) t)
  unfolding outbox_row
  late-IsBounded most now kind correlation payload t b =
      written-IsBounded (suc most) _ t refl b.increasing b.counted (omega (arith, b.bounded))

  -- A report leaves at most one more message waiting.
  report-IsBounded :
      (most now : ℕ) (report_id : String) (payload : Text) (bound : Bool) (t : RemoteTables)
      → IsBounded most t
      → IsBounded (suc most) (after_write serde decimal (report now report_id payload bound) t)
  unfolding enqueue_report
  report-IsBounded most now report_id payload true t b =
      written-IsBounded (suc most) _ t refl b.increasing b.counted (omega (arith, b.bounded))
  report-IsBounded most now report_id payload false t b = record {
    bounded = omega (arith, b.bounded);
    increasing = b.increasing;
    counted = b.counted;
  }

  writes-IsBounded :
      (most : ℕ) (writes : List Write) (t : RemoteTables)
      → max_outbox_depth ≤ most
      → IsBounded most t
      → IsBounded (most + unchecked_of writes) (after_writes serde decimal writes t)
  writes-IsBounded most [] t enough b = record {
    bounded = omega (arith, b.bounded);
    increasing = b.increasing;
    counted = b.counted;
  }
  writes-IsBounded most (by_call c ∷ writes) t enough b =
      writes-IsBounded most writes (after_call serde decimal c t) enough
        (after_call-IsBounded most c t enough b)
  writes-IsBounded most (late now kind correlation payload ∷ writes) t enough b =
      subst
        (λ n.
          IsBounded n (after_writes serde decimal (late now kind correlation payload ∷ writes) t))
        (omega arith)
        (writes-IsBounded (suc most) writes
          (after_write serde decimal (late now kind correlation payload) t) (omega (arith, enough))
          (late-IsBounded most now kind correlation payload t b))
  writes-IsBounded most (report now report_id payload bound ∷ writes) t enough b =
      subst
        (λ n.
          IsBounded n (after_writes serde decimal (report now report_id payload bound ∷ writes) t))
        (omega arith)
        (writes-IsBounded (suc most) writes
          (after_write serde decimal (report now report_id payload bound) t) (omega (arith, enough))
          (report-IsBounded most now report_id payload bound t b))

  -- From an outbox with at most `max_outbox_depth` waiting messages and increasing identifiers
  -- that its counter has reached, whatever is written to it, at most `max_outbox_depth` messages
  -- wait, and one more for each write that did not see the depth: a task report of
  -- src/workdesk.rs, which is queued without a look at it, and a message whose call looked before
  -- another connection wrote. The identifiers are unique and increase in the order in which the
  -- messages were written.
  pub outbox-IsBounded :
      (writes : List Write) (t : RemoteTables)
      → IsBacklog t
      → IsBounded (max_outbox_depth + unchecked_of writes) (after_writes serde decimal writes t)
  outbox-IsBounded writes t b = writes-IsBounded max_outbox_depth writes t (omega arith) b

-- Rows that come in increasing order are not moved by `ORDER BY id`.
insert_by_id-first :
    (a : OutboxRow) (rows : List OutboxRow)
    → Increasing a.id (row_ids rows)
    → insert_by_id a rows ≡ a ∷ rows
unfolding insert_by_id
insert_by_id-first a [] h = refl
insert_by_id-first a (b ∷ bs) h = ground arith

order_by_id-Increasing :
    (n : ℕ) (rows : List OutboxRow) → Increasing n (row_ids rows) → order_by_id rows ≡ rows
unfolding order_by_id
order_by_id-Increasing n [] h = refl
order_by_id-Increasing n (a ∷ rows) h =
    rw (order_by_id-Increasing a.id rows h.1) (insert_by_id-first a rows h.1)

Increasing-pending :
    (p : OutboxRow → Bool) (n : ℕ) (rows : List OutboxRow)
    → Increasing n (row_ids rows)
    → Increasing n (row_ids (where_rows p rows))
Increasing-pending p n [] h = tt
Increasing-pending p n (r ∷ rs) h = elim (Bool-cases (p r)) [
  | inl kept ↦ rw kept (h.0, Increasing-pending p r.id rs h.1)
  | inr dropped ↦
      rw dropped
        (Increasing-pending p n rs (Increasing-weaken n r.id (row_ids rs) (omega arith) h.1))
]

-- In an outbox that its operations have built, the messages read for sending are the
-- unacknowledged ones in the order in which they were enqueued, cut to the limit.
pub pending_in_order :
    (serde : Serde) (limit : ℤ) (t : RemoteTables)
    → IsBacklog t
    → pending_outbox serde limit t
      ≡ map (map_outbox serde) (limit_rows limit (where_rows is_pending t.outbox))
unfolding pending_outbox
pending_in_order serde limit t b = rw (
    order_by_id-Increasing 0 (where_rows is_pending t.outbox)
      (Increasing-pending is_pending 0 t.outbox b.increasing))
