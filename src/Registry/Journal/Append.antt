-- ===== src/Registry/Journal/Append.antt =====
-- `append_event`: a delivery that is repeated is recognised, and a well-formed registry never
-- refuses the next event of a stored run.
use asterism.Prelude.{
  ℕ, ◌+◌, String, ◌≡◌, refl, ap, ◌∙◌, true, false, ◌&&◌, inl, inr, Option, none, some, List, [],
  ◌∷◌, arith, first_row-snoc, first_row-append, eq_refl, str_eq, any_row, ◌==◌, opt_str_eq,
}
use asterism.Prelude.Results.{ok}
use asterism.Prelude.Sequences.{AllBelow}
use asterism.Registry.Tables.{RunRow, EventRow, Registry}
use asterism.Registry.Requests.{Serde, RunUpdate, JournalEvent, appended, duplicate}
use asterism.Registry.Runs.{find_run}
use asterism.Registry.Journal.{
  find_duplicate, event_row, seen_before, seq_is_free, apply_optional, append_fresh, append_event,
}
use asterism.Registry.Shapes.{written_event, apply_update-Applied, append_event-cases}
use asterism.Registry.Invariant.{seqs_of, IsValid, AllBelow-up_to}
use asterism.Registry.Steps.{append, Step-Effect, Reach}
use asterism.Registry.History.{Effect-Keeps, Reach-Keeps, journal_append_only}

above-is-free :
    (id : String) (n : ℕ) (es : List EventRow)
    → AllBelow (n + 1) (seqs_of id es)
    → any_row (λ e. str_eq e.event_run_id id && e.seq == (n + 1)) es ≡ false
unfolding seqs_of
above-is-free id n [] h = refl
above-is-free id n (e ∷ es) h = ground (arith, above-is-free id n es)

seq_is_free-next :
    (id : String) (row : RunRow) (db : Registry)
    → IsValid db
    → find_run id db ≡ some row
    → seq_is_free id (row.last_event_seq + 1) db ≡ true
unfolding seq_is_free
seq_is_free-next id row db v h = rw (
    above-is-free id row.last_event_seq db.events (
      rw (v.journal id row h)
        (AllBelow-up_to row.last_event_seq (row.last_event_seq + 1) (omega arith))))

-- In a well-formed registry the next event of a stored run, delivered for the first time and with
-- no state change, is always stored: it gets the number after the run's last one, and the primary
-- key of the journal refuses nothing.
pub append_event_total :
    (serde : Serde) (now : ℕ) (id : String) (event : JournalEvent) (row : RunRow) (db : Registry)
    → IsValid db
    → find_run id db ≡ some row
    → seen_before id event.dedupe_key db ≡ none
    → append_event serde now id event none db
      ≡ ok (appended (row.last_event_seq + 1), written_event serde now id event row db)
unfolding append_event append_fresh
append_event_total serde now id event row db v found unseen =
    rw found (rw unseen (rw (seq_is_free-next id row db v found) refl))

-- The row of the new event is the one that holds the deduplication key.
find_duplicate-written :
    (serde : Serde) (now : ℕ) (id key : String) (event : JournalEvent) (row : RunRow)
    (db : Registry)
    → event.dedupe_key ≡ some key
    → find_duplicate id key db ≡ none
    → find_duplicate id key (written_event serde now id event row db)
      ≡ some (event_row serde now id (row.last_event_seq + 1) event)
unfolding find_duplicate event_row
find_duplicate-written serde now id key event row db keyed unseen =
    first_row-snoc (λ e. str_eq e.event_run_id id && opt_str_eq e.dedupe_key key) db.events
      (event_row serde now id (row.last_event_seq + 1) event) unseen
      (rw keyed (rw (eq_refl id, eq_refl key)))

-- A state change leaves the journal alone.
events-apply_optional :
    (serde : Serde) (now : ℕ) (id : String) (update : Option RunUpdate) (db db' : Registry)
    → apply_optional serde now id update db ≡ ok db'
    → db'.events ≡ db.events
events-apply_optional serde now id none db db' h = cc
events-apply_optional serde now id (some u) db db' h =
    ap (λ (d : Registry). d.events) (apply_update-Applied serde now id u db db' h).result

-- What `append_event` answers for a key that the journal holds.
append_event-seen :
    (serde : Serde) (now : ℕ) (id key : String) (event : JournalEvent) (update : Option RunUpdate)
    (db : Registry) (row : RunRow) (earlier : EventRow)
    → event.dedupe_key ≡ some key
    → find_run id db ≡ some row
    → find_duplicate id key db ≡ some earlier
    → append_event serde now id event update db ≡ ok (duplicate earlier.seq, db)
unfolding append_event
append_event-seen serde now id key event update db row earlier keyed found seen = ground arith

-- A key that the journal holds is found in every later journal.
find_duplicate-Reach :
    (serde : Serde) (a b : Registry) (id key : String) (earlier : EventRow)
    → Reach serde a b
    → find_duplicate id key a ≡ some earlier
    → find_duplicate id key b ≡ some earlier
unfolding find_duplicate
find_duplicate-Reach serde a b id key earlier r h =
    let (rest, grown) = journal_append_only serde a b r in
    rw grown (
      first_row-append (λ e. str_eq e.event_run_id id && opt_str_eq e.dedupe_key key) a.events rest
        earlier h)

same_find :
    (a b : Registry) (id key : String)
    → a.events ≡ b.events
    → find_duplicate id key a ≡ find_duplicate id key b
unfolding find_duplicate
same_find a b id key e = rw e

seq-event_row :
    (serde : Serde) (now : ℕ) (id : String) (event : JournalEvent) (m n : ℕ)
    → appended n ≡ appended m
    → (event_row serde now id m event).seq ≡ n
unfolding event_row
seq-event_row serde now id event m n e = cc

-- After an event with a deduplication key was stored under the number `n`, every further delivery
-- to the run under that key, whatever else it carries and whatever operations ran in between, is
-- answered with `n` and changes nothing in the registry.
pub append_event_again :
    (serde : Serde) (now now' : ℕ) (id key : String) (event again : JournalEvent)
    (update update' : Option RunUpdate) (n : ℕ) (db db' later : Registry)
    → event.dedupe_key ≡ some key
    → again.dedupe_key ≡ some key
    → append_event serde now id event update db ≡ ok (appended n, db')
    → Reach serde db' later
    → append_event serde now' id again update' later ≡ ok (duplicate n, later)
append_event_again serde now now' id key event again update update' n db db' later keyed keyed' h
      r =
    elim (append_event-cases serde now id event update db (appended n) db' h) [
      | inl repeated ↦ cc (repeated.1.1)
      | inr fresh ↦
          let row = fresh.row in
          let unseen : find_duplicate id key db ≡ none = was_unseen fresh.unseen in
          let events : db'.events ≡ (written_event serde now id event row db).events =
            events-apply_optional serde now id update _ db' fresh.applied in
          let (row', stored, evolved) =
            Effect-Keeps (Step-Effect (append now id event update (appended n) h)) id row
              fresh.found in
          let seen : find_duplicate id key db'
              ≡ some (event_row serde now id (row.last_event_seq + 1) event) =
            same_find db' (written_event serde now id event row db) id key events
            ∙ find_duplicate-written serde now id key event row db keyed unseen in
          let (row'', stored'', evolved'') = Reach-Keeps r id row' stored in
          append_event-seen serde now' id key again update' later row'' _ keyed' stored''
            (find_duplicate-Reach serde db' later id key _ r seen)
          ∙ ap (λ (m : ℕ). ok (duplicate m, later))
              (seq-event_row serde now id event (row.last_event_seq + 1) n fresh.outcome)
    ]
  where
    was_unseen : seen_before id event.dedupe_key db ≡ none → find_duplicate id key db ≡ none
    was_unseen e = ground arith
