-- ===== src/Registry/Shapes.antt =====
-- What a successful call of each operation of the registry did, in the form that the proofs use.
use asterism.Prelude.{
  ℕ, ◌+◌, String, ◌≡◌, refl, sym, ap, ◌∙◌, true, ◌⊎◌, inl, inr, Option, none, some, [], ◌∷◌, ◌++◌,
  arith, Option-cases,
}
use asterism.Prelude.Results.{
  Result, ok, or_err, >>=-eq-ok, >>-eq-ok, guard-eq-ok, or_err-eq-ok, ok-injective,
}
use asterism.Prelude.Table.{modify_rows, unwrap_or}
use asterism.RunState
use asterism.RunState.{RunStatus, validate_transition}
use asterism.Registry.Tables.{RunRow, EventRow, Registry}
use asterism.Registry.Requests.{
  Serde, RegistryError, RunRecord, NewRun, RunCreation, RunUpdate, JournalEvent, AppendOutcome,
  created_run, existing_run, map_run, appended, duplicate, vanished, unknown_run,
}
use asterism.Registry.Runs.{
  run_key, find_run, find_by_key, load_run, new_row, insert_run, create_fresh, replay_existing,
  create_with_key, create_run, key_is_free,
}
use asterism.Registry.Updates.{parse_status, check_transition, updated_row, apply_update}
use asterism.Registry.Journal.{
  advanced_row, apply_optional, event_row, seen_before, append_fresh, append_event,
}

pub parse_status-eq-ok :
    (t : String) (s : RunStatus) → parse_status t ≡ ok s → RunState.parse t ≡ ok s
unfolding parse_status
parse_status-eq-ok t s h = ground arith

check_transition-eq-ok :
    (a b : RunStatus) → check_transition a b ≡ ok tt → validate_transition a b ≡ ok tt
unfolding check_transition
check_transition-eq-ok a b h = ground arith

-- A state change that was accepted.
pub record Applied (serde : Serde) (now : ℕ) (run_id : String) (update : RunUpdate)
    (db db' : Registry) : Type 0 where
  pub row : RunRow
  pub current : RunStatus
  pub found : find_run run_id db ≡ some row
  pub parsed : RunState.parse row.status ≡ ok current
  pub legal : validate_transition current (unwrap_or update.status current) ≡ ok tt
  pub result : db' ≡ record db {
    runs =
        modify_rows run_key run_id
          (updated_row serde now (unwrap_or update.status current) update)
          db.runs;
  }

pub apply_update-Applied :
    (serde : Serde) (now : ℕ) (run_id : String) (update : RunUpdate) (db db' : Registry)
    → apply_update serde now run_id update db ≡ ok db'
    → Applied serde now run_id update db db'
unfolding apply_update
apply_update-Applied serde now run_id update db db' h =
    let (row, found, h₁) = >>=-eq-ok _ _ h in
    let (current, parsed, h₂) = >>=-eq-ok _ _ h₁ in
    let (legal, h₃) = >>-eq-ok _ _ h₂ in
    let (free, h₄) = guard-eq-ok _ _ _ h₃ in
    record {
      row = row;
      current = current;
      found = or_err-eq-ok _ _ row found;
      parsed = parse_status-eq-ok _ current parsed;
      legal = check_transition-eq-ok current _ legal;
      result = sym (ok-injective h₄);
    }

abbrev pub with_run : RunRow → Registry → Registry
with_run row db = record db { runs = db.runs ++ row ∷ [] }

insert_run-eq-ok :
    (row : RunRow) (db db' : Registry)
    → insert_run row db ≡ ok db'
    → (find_run row.run_id db ≡ none)
      × (key_is_free row.idempotency_key row.project_id db ≡ true)
      × (db' ≡ with_run row db)
unfolding insert_run
insert_run-eq-ok row db db' h = ground arith

-- A run that was created.
pub record CreatedFresh (serde : Serde) (now : ℕ) (run_id : String) (request : NewRun)
    (db : Registry) (c : RunCreation) (db' : Registry) : Type 0 where
  pub unused : find_run run_id db ≡ none
  pub key_free : key_is_free request.idempotency_key request.project_id db ≡ true
  pub result : db' ≡ with_run (new_row serde now run_id request) db
  pub outcome : (r : RunRecord) × (load_run serde db' run_id ≡ some r) × (c ≡ created_run r)

create_fresh-CreatedFresh :
    (serde : Serde) (now : ℕ) (run_id : String) (request : NewRun) (db : Registry) (c : RunCreation)
    (db' : Registry)
    → create_fresh serde now run_id request db ≡ ok (c, db')
    → CreatedFresh serde now run_id request db c db'
unfolding create_fresh new_row
create_fresh-CreatedFresh serde now run_id request db c db' h =
    let (db₁, inserted, h₁) = >>=-eq-ok _ _ h in
    let (r, loaded, h₂) = >>=-eq-ok (or_err (load_run serde db₁ run_id) vanished) _ h₁ in
    let (unused, key_free, grown) =
      insert_run-eq-ok (new_row serde now run_id request) db db₁ inserted in
    let pair : (created_run r, db₁) ≡ (c, db') = ok-injective h₂ in
    let same : db₁ ≡ db' = ap (λ (p : RunCreation × Registry). p.1) pair in
    record {
      unused = unused;
      key_free = key_free;
      result = sym same ∙ grown;
      outcome = (
        r,
        rw (← same) (or_err-eq-ok _ _ r loaded),
        ap (λ (p : RunCreation × Registry). p.0) (sym pair),
      );
    }

-- The replay of a stored run.
abbrev pub Replayed : RunCreation → Registry → Registry → Type 0
Replayed c db db' = (db' ≡ db) × ((r : RunRecord) × (c ≡ existing_run r))

replay-Replayed :
    (serde : Serde) (request : NewRun) (key : String) (row : RunRow) (db : Registry)
    (c : RunCreation) (db' : Registry)
    → replay_existing serde request key row db ≡ ok (c, db')
    → Replayed c db db'
unfolding replay_existing
replay-Replayed serde request key row db c db' h =
    (ground arith, (map_run serde (unwrap_or (find_run row.run_id db) row), ground arith))

create_with_key-cases :
    (serde : Serde) (now : ℕ) (run_id : String) (request : NewRun) (db : Registry)
    (k : Option String) (c : RunCreation) (db' : Registry)
    → create_with_key serde now run_id request db k ≡ ok (c, db')
    → Replayed c db db' ⊎ CreatedFresh serde now run_id request db c db'
create_with_key-cases serde now run_id request db none c db' h =
    inr (create_fresh-CreatedFresh serde now run_id request db c db' h)
create_with_key-cases serde now run_id request db (some key) c db' h =
    elim (Option-cases (find_by_key request.project_id key db)) [
      | inl f ↦ inr (
          create_fresh-CreatedFresh serde now run_id request db c db'
            (rw (f, create_with_key) at h))
      | inr (row, f) ↦
          inl (replay-Replayed serde request key row db c db' (rw (f, create_with_key) at h))
    ]

pub create_run-cases :
    (serde : Serde) (now : ℕ) (run_id : String) (request : NewRun) (db : Registry) (c : RunCreation)
    (db' : Registry)
    → create_run serde now run_id request db ≡ ok (c, db')
    → Replayed c db db' ⊎ CreatedFresh serde now run_id request db c db'
unfolding create_run
create_run-cases serde now run_id request db =
    create_with_key-cases serde now run_id request db request.idempotency_key

-- The registry after the event was written and before the state change.
abbrev pub written_event : Serde → ℕ → String → JournalEvent → RunRow → Registry → Registry
written_event serde now run_id event row db = record db {
  events = db.events ++ event_row serde now run_id (row.last_event_seq + 1) event ∷ [];
  runs = modify_rows run_key run_id (advanced_row (row.last_event_seq + 1) now) db.runs;
}

-- An event that was written.
pub record AppendedFresh (serde : Serde) (now : ℕ) (run_id : String) (event : JournalEvent)
    (update : Option RunUpdate) (db : Registry) (o : AppendOutcome) (db' : Registry) : Type 0 where
  pub row : RunRow
  pub found : find_run run_id db ≡ some row
  pub unseen : seen_before run_id event.dedupe_key db ≡ none
  pub outcome : o ≡ appended (row.last_event_seq + 1)
  pub applied :
      apply_optional serde now run_id update (written_event serde now run_id event row db) ≡ ok db'

append_fresh-AppendedFresh :
    (serde : Serde) (now : ℕ) (run_id : String) (event : JournalEvent) (update : Option RunUpdate)
    (row : RunRow) (db : Registry) (o : AppendOutcome) (db' : Registry)
    → find_run run_id db ≡ some row
    → seen_before run_id event.dedupe_key db ≡ none
    → append_fresh serde now run_id event update row db ≡ ok (o, db')
    → AppendedFresh serde now run_id event update db o db'
unfolding append_fresh
append_fresh-AppendedFresh serde now run_id event update row db o db' found unseen h =
    let (free, h₁) = guard-eq-ok _ _ _ h in
    let (db₁, applied, h₂) = >>=-eq-ok _ _ h₁ in
    let pair : (appended (row.last_event_seq + 1), db₁) ≡ (o, db') = ok-injective h₂ in
    let same : db₁ ≡ db' = ap (λ (p : AppendOutcome × Registry). p.1) pair in
    record {
      row = row;
      found = found;
      unseen = unseen;
      outcome = ap (λ (p : AppendOutcome × Registry). p.0) (sym pair);
      applied = rw (← same) applied;
    }

-- A delivery that the journal has already.
abbrev pub Repeated : AppendOutcome → Registry → Registry → Type 0
Repeated o db db' = (db' ≡ db) × ((n : ℕ) × (o ≡ duplicate n))

pub append_event-cases :
    (serde : Serde) (now : ℕ) (run_id : String) (event : JournalEvent) (update : Option RunUpdate)
    (db : Registry) (o : AppendOutcome) (db' : Registry)
    → append_event serde now run_id event update db ≡ ok (o, db')
    → Repeated o db db' ⊎ AppendedFresh serde now run_id event update db o db'
unfolding append_event
append_event-cases serde now run_id event update db o db' h =
    let (row, found, h₁) = >>=-eq-ok (or_err (find_run run_id db) (unknown_run run_id)) _ h in
    go row (or_err-eq-ok _ _ row found) (seen_before run_id event.dedupe_key db) refl h₁
  where
    go :
        (row : RunRow)
        → find_run run_id db ≡ some row
        → (seen : Option EventRow) → seen_before run_id event.dedupe_key db ≡ seen
        → (elim seen as (λ x. Result RegistryError (AppendOutcome × Registry)) [
          | some earlier ↦ ok (duplicate earlier.seq, db)
          | none ↦ append_fresh serde now run_id event update row db
        ])
          ≡ ok (o, db')
        → Repeated o db db' ⊎ AppendedFresh serde now run_id event update db o db'
    go row found none e k =
        inr (append_fresh-AppendedFresh serde now run_id event update row db o db' found e k)
    go row found (some earlier) e k =
        let pair : (duplicate earlier.seq, db) ≡ (o, db') = ok-injective k in
        inl (
          ap (λ (p : AppendOutcome × Registry). p.1) (sym pair),
          (earlier.seq, ap (λ (p : AppendOutcome × Registry). p.0) (sym pair)),
        )
