-- ===== src/UpdateOp/Cursor.antt =====
-- What has been delivered, and what is sent again after a restart.
use asterism.Prelude.{
  ℕ, ◌≡◌, refl, ap, ◌∙◌, Bool, true, not, ◌&&◌, Option, none, some, inl, inr, Option-cases, List,
  [], ◌∷◌, ◌++◌, arith, leb, where_rows,
}
use asterism.Prelude.Table.{unwrap_or}
use asterism.Text.{Text, text_eq}
use asterism.UpdateOp.{
  seq_for, record_acked, is_above, pending_events, undelivered, load_delivered, save_delivered,
  journalled_operations, read_journal,
}
use asterism.UpdateOp.Ordered.{Ordered, raise_acked-Ordered, acked_seq-raise_acked}
use asterism.UpdateOp.Records.{
  ProgressEvent, Delivered, UpdateSerde, NodeHome, journal_name, file_body,
}

-- An acknowledgement of an operation's event.
abbrev pub Ack : Type 0
Ack = Text × ℕ

abbrev pub record_all : List Ack → Delivered → Delivered
record_all [] delivered = delivered
record_all ((operation, seq) ∷ acks) delivered =
    record_all acks (record_acked operation seq delivered)

-- No acknowledgement names this number of the operation, or a higher one.
abbrev pub is_uncovered : Text → List Ack → ProgressEvent → Bool
is_uncovered operation [] event = true
is_uncovered operation ((o, seq) ∷ acks) event =
    not (text_eq o operation && leb event.seq seq) && is_uncovered operation acks event

-- The events of the journals above the cursor that no acknowledgement covers.
abbrev pub uncovered_events :
    UpdateSerde → List Ack → Delivered → NodeHome → List Text → List ProgressEvent
uncovered_events serde acks delivered home [] = []
uncovered_events serde acks delivered home (operation ∷ rest) =
    where_rows (is_uncovered operation acks) (
      where_rows (is_above (seq_for operation delivered))
        (read_journal serde (file_body (journal_name operation) home)))
    ++ uncovered_events serde acks delivered home rest

record_acked-Ordered :
    (o : Text) (seq : ℕ) (delivered : Delivered)
    → Ordered delivered.acked
    → Ordered (record_acked o seq delivered).acked
unfolding record_acked
record_acked-Ordered o seq delivered h = raise_acked-Ordered o seq delivered.acked h

record_all-Ordered :
    (acks : List Ack) (delivered : Delivered)
    → Ordered delivered.acked
    → Ordered (record_all acks delivered).acked
record_all-Ordered [] delivered h = h
record_all-Ordered ((o, seq) ∷ acks) delivered h =
    record_all-Ordered acks (record_acked o seq delivered) (record_acked-Ordered o seq delivered h)

is_above-record_acked :
    (operation o : Text) (seq : ℕ) (delivered : Delivered) (event : ProgressEvent)
    → Ordered delivered.acked
    → is_above (seq_for operation (record_acked o seq delivered)) event ≡ (
        is_above (seq_for operation delivered) event
        && not (text_eq o operation && leb event.seq seq))
unfolding record_acked
is_above-record_acked operation o seq delivered event h =
    ground (arith, acked_seq-raise_acked operation o seq delivered.acked h)

is_above-record_all :
    (operation : Text) (acks : List Ack) (delivered : Delivered) (event : ProgressEvent)
    → Ordered delivered.acked
    → is_above (seq_for operation (record_all acks delivered)) event
      ≡ (is_above (seq_for operation delivered) event && is_uncovered operation acks event)
is_above-record_all operation [] delivered event h = ground arith
is_above-record_all operation ((o, seq) ∷ acks) delivered event h =
    is_above-record_all operation acks (record_acked o seq delivered) event
      (record_acked-Ordered o seq delivered h)
    ∙ ground (arith, is_above-record_acked operation o seq delivered event h)

where_rows-both :
    (p q r : ProgressEvent → Bool) (es : List ProgressEvent)
    → ((e : ProgressEvent) → p e ≡ (q e && r e))
    → where_rows p es ≡ where_rows r (where_rows q es)
where_rows-both p q r [] h = refl
where_rows-both p q r (e ∷ es) h = ground (arith, h e, where_rows-both p q r es h)

-- The file of the cursor does not matter to the journals.
pending_events-record_all :
    (serde : UpdateSerde) (acks : List Ack) (delivered : Delivered) (home : NodeHome)
    (saved : Option Text) (operations : List Text)
    → Ordered delivered.acked
    → pending_events serde (record_all acks delivered) (record home { cursor = saved }) operations
      ≡ uncovered_events serde acks delivered home operations
unfolding pending_events
pending_events-record_all serde acks delivered home saved [] h = refl
pending_events-record_all serde acks delivered home saved (operation ∷ rest) h =
    let events = read_journal serde (file_body (journal_name operation) home) in
    ap
      (λ l.
        l ++ pending_events serde (record_all acks delivered) (record home { cursor = saved }) rest)
      (where_rows-both (is_above (seq_for operation (record_all acks delivered)))
        (is_above (seq_for operation delivered)) (is_uncovered operation acks) events
        (λ event. is_above-record_all operation acks delivered event h))
    ∙ ap
        (λ l.
          where_rows (is_uncovered operation acks)
            (where_rows (is_above (seq_for operation delivered)) events)
          ++ l)
        (pending_events-record_all serde acks delivered home saved rest h)

-- serde_json reads a map in the order of its keys, and reads the map that it has written.
abbrev pub LawfulCursor : UpdateSerde → Type 0
LawfulCursor serde =
    ((raw : Text) (delivered : Delivered)
      → serde.delivered_from_slice raw ≡ some delivered
      → Ordered delivered.acked)
    × ((delivered : Delivered)
        → Ordered delivered.acked
        → serde.delivered_from_slice (serde.delivered_to_vec delivered) ≡ some delivered)

load_delivered-Ordered :
    (serde : UpdateSerde) (home : NodeHome)
    → LawfulCursor serde
    → Ordered (load_delivered serde home).acked
unfolding load_delivered
load_delivered-Ordered serde home law = elim (Option-cases home.cursor) [
  | inl e ↦ rw (e, load_delivered) tt
  | inr (raw, e) ↦ rw (e, load_delivered) (read raw (serde.delivered_from_slice raw) refl)
]
  where
    read :
        (raw : Text) (d : Option Delivered)
        → serde.delivered_from_slice raw ≡ d
        → Ordered (unwrap_or d (record { acked = [] })).acked
    read raw none e = tt
    read raw (some d) e = law.0 raw d e

-- A restart sends again exactly what was not acknowledged. After acknowledgements in any order,
-- late or repeated ones included, are recorded and the cursor is saved, the next process finds
-- undelivered those of the events undelivered before that no acknowledgement covers. serde is taken
-- to read maps in the order of their keys, and to read back a map that it has written.
pub undelivered-record_all :
    (serde : UpdateSerde) (acks : List Ack) (home : NodeHome)
    → LawfulCursor serde
    → undelivered serde (save_delivered serde (record_all acks (load_delivered serde home)) home)
      ≡ uncovered_events serde acks (load_delivered serde home) home (journalled_operations home)
unfolding undelivered load_delivered save_delivered journalled_operations
undelivered-record_all serde acks home law =
    let ordered = load_delivered-Ordered serde home law in
    let cursor = record_all acks (load_delivered serde home) in
    ap
      (λ (d : Option Delivered).
        pending_events serde (unwrap_or d (record { acked = [] }))
          (save_delivered serde cursor home) (journalled_operations home))
      (law.1 cursor (record_all-Ordered acks (load_delivered serde home) ordered))
    ∙ pending_events-record_all serde acks (load_delivered serde home) home
        (some (serde.delivered_to_vec cursor)) (journalled_operations home) ordered
