-- ===== src/Registry/Journal/Replay.antt =====
-- `events_since`: what a reader that resumes after a cursor receives.
use asterism.Prelude.{
  ℕ, zero, suc, String, ◌≡◌, refl, ap, ◌∙◌, inl, inr, some, List, [], ◌∷◌, map, arith, Bool-cases,
  str_eq, where_rows, take,
}
use asterism.Prelude.Int.{ℤ, pos, negsuc, above, limit_rows}
use asterism.Prelude.Sequences.{Increasing, Increasing-where, Increasing-snoc}
use asterism.Registry.Tables.{RunRow, EventRow, Registry}
use asterism.Registry.Requests.{Serde, StoredEvent}
use asterism.Registry.Runs.{find_run}
use asterism.Registry.Journal.{map_event, insert_by_seq, order_by_seq, events_after, events_since}
use asterism.Registry.Invariant.{seqs_of, up_to, IsValid, AllBelow-up_to}

abbrev numbers : List EventRow → List ℕ
numbers [] = []
numbers (e ∷ es) = e.seq ∷ numbers es

-- The events selected for a reader carry the numbers of the run that lie above the cursor.
numbers-events_after :
    (id : String) (after : ℤ) (es : List EventRow)
    → numbers (events_after id after es) ≡ where_rows (above after) (seqs_of id es)
unfolding events_after seqs_of
numbers-events_after id after [] = refl
numbers-events_after id after (e ∷ es) = elim (Bool-cases (str_eq e.event_run_id id)) [
  | inr other ↦ rw other (numbers-events_after id after es)
  | inl mine ↦ elim (Bool-cases (above after e.seq)) [
    | inl past ↦ rw (mine, past) (ap (λ l. e.seq ∷ l) (numbers-events_after id after es))
    | inr old ↦ rw (mine, old) (numbers-events_after id after es)
  ]
]

Increasing-up_to : (n : ℕ) → Increasing 0 (up_to n)
unfolding up_to
Increasing-up_to zero = tt
Increasing-up_to (suc n) =
    Increasing-snoc 0 (up_to n) (suc n) (Increasing-up_to n) (omega arith)
      (AllBelow-up_to n (suc n) (omega arith))

-- Rows that come in increasing order are not moved by `ORDER BY seq`.
order_by_seq-Increasing :
    (n : ℕ) (es : List EventRow) → Increasing n (numbers es) → order_by_seq es ≡ es
unfolding order_by_seq
order_by_seq-Increasing n [] h = refl
order_by_seq-Increasing n (e ∷ es) h =
    rw (order_by_seq-Increasing e.seq es h.1) (insert_first e es h.1)
  where
    insert_first :
        (e : EventRow) (es : List EventRow)
        → Increasing e.seq (numbers es)
        → insert_by_seq e es ≡ e ∷ es
    insert_first e [] h = refl
    insert_first e (f ∷ fs) h = ground arith

take-numbers : (n : ℕ) (es : List EventRow) → numbers (take n es) ≡ take n (numbers es)
take-numbers zero es = refl
take-numbers (suc n) [] = refl
take-numbers (suc n) (e ∷ es) = ap (λ l. e.seq ∷ l) (take-numbers n es)

limit-numbers : (l : ℤ) (es : List EventRow) → numbers (limit_rows l es) ≡ limit_rows l (numbers es)
limit-numbers (pos n) es = take-numbers n es
limit-numbers (negsuc n) es = refl

abbrev pub seqs : List StoredEvent → List ℕ
seqs [] = []
seqs (e ∷ es) = e.seq ∷ seqs es

seqs-map_event : (serde : Serde) (es : List EventRow) → seqs (map (map_event serde) es) ≡ numbers es
unfolding map_event
seqs-map_event serde [] = refl
seqs-map_event serde (e ∷ es) = ap (λ l. e.seq ∷ l) (seqs-map_event serde es)

-- In a well-formed registry a reader that asks for the events of a stored run after a cursor
-- receives, in increasing order, exactly the numbers of 1, …, `last_event_seq` that are above the
-- cursor, cut to the limit: nothing is skipped and nothing is delivered twice.
pub events_since_complete :
    (serde : Serde) (db : Registry) (id : String) (row : RunRow) (after limit : ℤ)
    → IsValid db
    → find_run id db ≡ some row
    → seqs (events_since serde db id after limit)
      ≡ limit_rows limit (where_rows (above after) (up_to row.last_event_seq))
unfolding events_since
events_since_complete serde db id row after limit v h =
    let selected = events_after id after db.events in
    let listed : numbers selected ≡ where_rows (above after) (up_to row.last_event_seq) =
      numbers-events_after id after db.events
      ∙ ap (where_rows (above after)) (v.journal id row h) in
    let increasing : Increasing 0 (numbers selected) = rw listed (
      Increasing-where (above after) 0 (up_to row.last_event_seq)
        (Increasing-up_to row.last_event_seq)) in
    seqs-map_event serde (limit_rows limit (order_by_seq selected))
    ∙ limit-numbers limit (order_by_seq selected)
    ∙ ap (λ l. limit_rows limit (numbers l)) (order_by_seq-Increasing 0 selected increasing)
    ∙ ap (limit_rows limit) listed
