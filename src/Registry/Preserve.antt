-- ===== src/Registry/Preserve.antt =====
-- Every operation that writes to the registry keeps it well-formed.
use asterism.Prelude.{
  ℕ, suc, ◌+◌, String, ◌≡◌, refl, ap, ◌∙◌, false, ◌⊎◌, inl, inr, none, some, [], ◌∷◌, ◌++◌, arith,
  Option-cases, Bool-cases, str_eq, eq_iff,
}
use asterism.Prelude.Table.{modify_rows, find_row, find_row-modify_rows, find_row-snoc}
use asterism.Registry.Tables.{RunRow, Registry}
use asterism.Registry.Runs.{run_key, find_run}
use asterism.Registry.Shapes.{with_run, written_event}
use asterism.Registry.Requests.{Serde, JournalEvent}
use asterism.Registry.Journal.{event_row, advanced_row}
use asterism.Registry.Invariant.{seqs_of, up_to, seqs_of-snoc, HasStatus, IsValid}

-- The registry with the rows of one run rewritten by `f`.
abbrev pub with_modified : String → (RunRow → RunRow) → Registry → Registry
with_modified id f db = record db { runs = modify_rows run_key id f db.runs }

module _ (id : String) (f : RunRow → RunRow) (same_key : (r : RunRow) → run_key (f r) ≡ run_key r)
    (db : Registry) where
  -- The rows that a lookup finds after the update.
  pub found-with_modified :
      (j : String) (row : RunRow)
      → find_run j (with_modified id f db) ≡ some row
      → (old : RunRow) × (find_run j db ≡ some old) × (((id ≡ j) × (row ≡ f old)) ⊎ (row ≡ old))
  unfolding find_run
  found-with_modified j row h = elim (Option-cases (find_row run_key j db.runs)) [
    | inl e ↦ absurd (ground (arith, find_row-modify_rows run_key j id f db.runs same_key))
    | inr (old, e) ↦
        (old, e, ground (arith, eq_iff id j, find_row-modify_rows run_key j id f db.runs same_key))
  ]

  pub missing-with_modified :
      (j : String) → find_run j (with_modified id f db) ≡ none → find_run j db ≡ none
  unfolding find_run
  missing-with_modified j h =
      ground (arith, eq_iff id j, find_row-modify_rows run_key j id f db.runs same_key)

  pub find_run-with_modified_self :
      (row : RunRow)
      → find_run id db ≡ some row
      → find_run id (with_modified id f db) ≡ some (f row)
  unfolding find_run
  find_run-with_modified_self row h =
      ground (arith, eq_iff id id, find_row-modify_rows run_key id id f db.runs same_key)

-- Rewriting a stored run in a way that keeps its key and its cursor.
pub with_modified-IsValid :
    (id : String) (f : RunRow → RunRow) (db : Registry)
    → ((r : RunRow) → run_key (f r) ≡ run_key r)
    → ((r : RunRow) → (f r).last_event_seq ≡ r.last_event_seq)
    → ((r : RunRow) → find_run id db ≡ some r → HasStatus (f r))
    → IsValid db
    → IsValid (with_modified id f db)
with_modified-IsValid id f db same_key same_seq status v = record {
  statuses = λ j row h.
      let (old, e, how) = found-with_modified id f same_key db j row h in
      elim how [ inl (p, q) ↦ rw q (status old (rw p e)) | inr q ↦ rw q (v.statuses j old e) ];
  journal = λ j row h.
      let (old, e, how) = found-with_modified id f same_key db j row h in
      elim how [
        | inl (p, q) ↦ rw (q, same_seq old) (v.journal j old e)
        | inr q ↦ rw q (v.journal j old e)
      ];
  owned = λ j h. v.owned j (missing-with_modified id f same_key db j h);
}

-- Adding a run that is not stored and has no event yet.
pub with_run-IsValid :
    (row : RunRow) (db : Registry)
    → find_run row.run_id db ≡ none
    → row.last_event_seq ≡ 0
    → HasStatus row
    → IsValid db
    → IsValid (with_run row db)
unfolding find_run up_to
with_run-IsValid row db unused start status v = record {
  statuses =
      λ j r h. elim (found j r h) [ inl old ↦ v.statuses j r old | inr (p, q) ↦ rw q status ];
  journal = λ j r h. elim (found j r h) [
    | inl old ↦ v.journal j r old
    | inr (p, q) ↦ rw (q, start, ← p) (v.owned row.run_id unused)
  ];
  owned = λ j h. v.owned j (missing j h);
}
  where
    found :
        (j : String) (r : RunRow)
        → find_run j (with_run row db) ≡ some r
        → (find_run j db ≡ some r) ⊎ ((row.run_id ≡ j) × (r ≡ row))
    found j r h = ground (arith, find_row-snoc run_key j db.runs row, eq_iff row.run_id j)

    missing : (j : String) → find_run j (with_run row db) ≡ none → find_run j db ≡ none
    missing j h = ground (arith, find_row-snoc run_key j db.runs row, eq_iff row.run_id j)

-- Writing the next event of a stored run.
module _ (serde : Serde) (now : ℕ) (id : String) (event : JournalEvent) (row : RunRow)
    (db : Registry) (stored : find_run id db ≡ some row) where
  advance : RunRow → RunRow
  advance = advanced_row (row.last_event_seq + 1) now

  after : Registry
  after = written_event serde now id event row db

  -- A row found afterwards is the advanced row of the run, or the row of another run.
  found-after :
      (j : String) (r : RunRow)
      → find_run j after ≡ some r
      → ((id ≡ j) × (r ≡ advance row)) ⊎ ((str_eq id j ≡ false) × (find_run j db ≡ some r))
  unfolding find_run advance after
  found-after j r h = elim (Bool-cases (str_eq id j)) [
    | inl same ↦
        let p : id ≡ j = (eq_iff id j).0 same in
        inl (p, ground (arith, find_row-modify_rows run_key j id advance db.runs (λ x. refl)))
    | inr other ↦
        inr (other, ground (arith, find_row-modify_rows run_key j id advance db.runs (λ x. refl)))
  ]

  missing-after :
      (j : String) → find_run j after ≡ none → (str_eq id j ≡ false) × (find_run j db ≡ none)
  unfolding find_run advance after
  missing-after j h = elim (Bool-cases (str_eq id j)) [
    | inl same ↦
        let p : id ≡ j = (eq_iff id j).0 same in
        absurd (
          ground
            (arith, find_row-modify_rows run_key j id advance db.runs (λ x. refl), rw p at stored))
    | inr other ↦
        (other, ground (arith, find_row-modify_rows run_key j id advance db.runs (λ x. refl)))
  ]

  seqs-after_self : seqs_of id after.events ≡ seqs_of id db.events ++ suc row.last_event_seq ∷ []
  unfolding after event_row
  seqs-after_self = ground (
    arith,
    eq_iff id id,
    seqs_of-snoc id db.events (event_row serde now id (row.last_event_seq + 1) event),
  )

  seqs-after_other :
      (j : String) → str_eq id j ≡ false → seqs_of j after.events ≡ seqs_of j db.events
  unfolding after event_row
  seqs-after_other j h =
      ground
        (arith, seqs_of-snoc j db.events (event_row serde now id (row.last_event_seq + 1) event))

  pub written_event-IsValid : IsValid db → IsValid (written_event serde now id event row db)
  unfolding after advance up_to
  written_event-IsValid v = record {
    statuses = λ j r h. elim (found-after j r h) [
      | inl (p, q) ↦ rw q (advanced-HasStatus (v.statuses id row stored))
      | inr (o, old) ↦ v.statuses j r old
    ];
    journal = λ j r h. elim (found-after j r h) [
      | inl (p, q) ↦ rw (q, ← p) (rw (seqs-after_self, v.journal id row stored) cursor)
      | inr (o, old) ↦ seqs-after_other j o ∙ v.journal j r old
    ];
    owned = λ j h. let (other, old) = missing-after j h in seqs-after_other j other ∙ v.owned j old;
  }
    where
      cursor :
          up_to row.last_event_seq ++ suc row.last_event_seq ∷ [] ≡ up_to (row.last_event_seq + 1)
      cursor =
          let next : suc row.last_event_seq ≡ row.last_event_seq + 1 = omega arith in ap up_to next

      advanced-HasStatus : HasStatus row → HasStatus (advance row)
      advanced-HasStatus s = record {
        current = s.current;
        stored = s.stored;
        finished = s.finished;
      }
