-- ===== src/Registry/Invariant.antt =====
-- The well-formedness of the registry: what its tables promise to every reader, and that a fresh
-- registry has it.
use asterism.Prelude.{
  ℕ, zero, suc, ◌<◌, String, ◌≡◌, refl, true, none, some, List, [], ◌∷◌, ◌++◌, arith, if◌then◌else◌,
  str_eq,
}
use asterism.Prelude.Table.{is_some, find_row}
use asterism.Prelude.Sequences.{AllBelow, AllBelow-append}
use asterism.RunState.{RunStatus, as_str, is_terminal}
use asterism.Registry.Tables.{RunRow, EventRow, Registry, no_rows}
use asterism.Registry.Runs.{find_run}

-- The sequence numbers of a run's events, in the order of the journal.
unfoldable pub seqs_of : String → List EventRow → List ℕ
seqs_of id [] = []
seqs_of id (e ∷ es) = if str_eq e.event_run_id id then e.seq ∷ seqs_of id es else seqs_of id es

-- 1, 2, …, n
unfoldable pub up_to : ℕ → List ℕ
up_to zero = []
up_to (suc n) = up_to n ++ suc n ∷ []

-- A stored status is the text of a status, and a terminal run has its time of finishing.
pub record HasStatus (row : RunRow) : Type 0 where
  pub current : RunStatus
  pub stored : row.status ≡ as_str current
  pub finished : is_terminal current ≡ true → is_some row.finished_at ≡ true

pub record IsValid (db : Registry) : Type 0 where
  pub statuses : (id : String) (row : RunRow) → find_run id db ≡ some row → HasStatus row
  -- the journal of a run has the numbers 1 to `last_event_seq`, each once, in order
  pub journal :
      (id : String) (row : RunRow)
      → find_run id db ≡ some row
      → seqs_of id db.events ≡ up_to row.last_event_seq
  -- no event belongs to a run that is not stored
  pub owned : (id : String) → find_run id db ≡ none → seqs_of id db.events ≡ []

pub no_rows-IsValid : IsValid no_rows
unfolding find_run find_row seqs_of
no_rows-IsValid = record {
  statuses = λ id row h. cc;
  journal = λ id row h. cc;
  owned = λ id h. refl;
}

pub seqs_of-snoc :
    (id : String) (es : List EventRow) (e : EventRow)
    → seqs_of id (es ++ e ∷ [])
      ≡ (if str_eq e.event_run_id id then seqs_of id es ++ e.seq ∷ [] else seqs_of id es)
unfolding seqs_of
seqs_of-snoc id [] e = ground arith
seqs_of-snoc id (f ∷ es) e = ground (arith, seqs_of-snoc id es e)

pub AllBelow-up_to : (n m : ℕ) → n < m → AllBelow m (up_to n)
unfolding up_to
AllBelow-up_to zero m h = tt
AllBelow-up_to (suc n) m h =
    AllBelow-append m (up_to n) (suc n ∷ []) (AllBelow-up_to n m (omega arith)) (h, tt)
