-- ===== src/Registry/Idempotency.antt =====
-- `create_run` with an idempotency key: the second request with the key never makes a second run.
use asterism.Prelude.{
  ℕ, ◌+◌, String, ◌≡◌, refl, ap, ◌∙◌, Bool, true, inl, inr, none, some, List, [], ◌∷◌, arith,
  if◌then◌else◌, str_eq, first_row, first_row-snoc, first_row-append, eq_refl,
}
use asterism.Prelude.Table.{modify_rows, map_option, unwrap_or, find_row-snoc}
use asterism.Prelude.Results.{ok, err}
use asterism.Text.{text_eq}
use asterism.Registry.Tables.{RunRow, Registry}
use asterism.Registry.Requests.{
  Serde, RunRecord, NewRun, RunUpdate, JournalEvent, map_run, created_run, existing_run,
  idempotency_conflict,
}
use asterism.Registry.Fingerprint.{request_fingerprint}
use asterism.Registry.Runs.{
  run_key, find_run, find_by_key, has_key, load_run, new_row, replay_existing, create_run,
  key_is_free,
}
use asterism.Registry.Updates.{updated_row}
use asterism.Registry.Approvals.{policy_row}
use asterism.Registry.Journal.{advanced_row}
use asterism.Registry.Shapes.{with_run, written_event, Applied, create_run-cases}
use asterism.Registry.Preserve.{with_modified}
use asterism.Registry.Steps.{
  Reach, here, next, Effect, untouched, inserted, changed_status, wrote, wrote_and_changed,
  changed_policy, Step-Effect,
}
use asterism.Registry.History.{Reach-Keeps}

module _ (serde : Serde) (now : ℕ) (id : String) (request : NewRun) (key : String) (db : Registry)
    (keyed : request.idempotency_key ≡ some key) where
  no_holder :
      key_is_free request.idempotency_key request.project_id db ≡ true
      → find_by_key request.project_id key db ≡ none
  no_holder h = ground (arith)

  holds_key : has_key request.project_id key (new_row serde now id request) ≡ true
  unfolding new_row
  holds_key = ground (arith, eq_refl request.project_id, eq_refl key)

  -- After the run was created, its row is the one that holds the key.
  find_by_key-created :
      key_is_free request.idempotency_key request.project_id db ≡ true
      → find_by_key request.project_id key (with_run (new_row serde now id request) db)
        ≡ some (new_row serde now id request)
  unfolding find_by_key
  find_by_key-created free =
      first_row-snoc (has_key request.project_id key) db.runs (new_row serde now id request)
        (unfold find_by_key in no_holder free) holds_key

-- What `create_run` answers when the row `row` holds the key of the request.
create_run-held :
    (serde : Serde) (now : ℕ) (id : String) (request : NewRun) (key : String) (row : RunRow)
    (db : Registry)
    → request.idempotency_key ≡ some key
    → find_by_key request.project_id key db ≡ some row
    → create_run serde now id request db ≡ replay_existing serde request key row db
unfolding create_run
create_run-held serde now id request key row db keyed held = ground arith

replay_existing-eq :
    (serde : Serde) (request : NewRun) (key : String) (row : RunRow) (db : Registry) (r : RunRecord)
    → load_run serde db row.run_id ≡ some r
    → replay_existing serde request key row db ≡ (
        if text_eq row.request_fingerprint (request_fingerprint serde request)
        then ok (existing_run r, db)
        else err (idempotency_conflict request.project_id key row.run_id))
unfolding replay_existing
replay_existing-eq serde request key row db r loaded = ground arith

-- The rewrites of a run keep what a search by key looks at.
first_row-modify_rows :
    (p : RunRow → Bool) (id : String) (f : RunRow → RunRow) (rows : List RunRow)
    → ((r : RunRow) → p (f r) ≡ p r)
    → first_row p (modify_rows run_key id f rows)
      ≡ map_option (λ r. if str_eq (run_key r) id then f r else r) (first_row p rows)
unfolding modify_rows
first_row-modify_rows p id f [] same = refl
first_row-modify_rows p id f (r ∷ rows) same =
    ground (arith, same r, first_row-modify_rows p id f rows same)

-- The key is held by the run of `row`, with the fingerprint of `row`.
abbrev Held : String → String → RunRow → Registry → Type 0
Held project key row db =
    (holder : RunRow) × (find_by_key project key db ≡ some holder)
    × (holder.run_id ≡ row.run_id)
    × (holder.request_fingerprint ≡ row.request_fingerprint)

module _ (project key : String) where
  with_modified-Held :
      (id : String) (f : RunRow → RunRow) (db : Registry) (row : RunRow)
      → ((r : RunRow) → has_key project key (f r) ≡ has_key project key r)
      → ((r : RunRow) → (f r).run_id ≡ r.run_id)
      → ((r : RunRow) → (f r).request_fingerprint ≡ r.request_fingerprint)
      → Held project key row db
      → Held project key row (with_modified id f db)
  unfolding find_by_key
  with_modified-Held id f db row same_key same_id same_print (holder, held, named, printed) = (
    (if str_eq (run_key holder) id then f holder else holder),
    first_row-modify_rows (has_key project key) id f db.runs same_key
        ∙ ap (map_option (λ (r : RunRow). if str_eq (run_key r) id then f r else r)) held,
    ground (arith, same_id holder, named),
    ground (arith, same_print holder, printed),
  )

  with_run-Held :
      (added : RunRow) (db : Registry) (row : RunRow)
      → Held project key row db
      → Held project key row (with_run added db)
  unfolding find_by_key
  with_run-Held added db row (holder, held, named, printed) = (
    holder,
    first_row-append (has_key project key) db.runs (added ∷ []) holder held,
    named,
    printed,
  )

  Applied-Held :
      (serde : Serde) (now : ℕ) (id : String) (u : RunUpdate) (db db' : Registry) (row : RunRow)
      → Applied serde now id u db db'
      → Held project key row db
      → Held project key row db'
  unfolding updated_row
  Applied-Held serde now id u db db' row a held = rw a.result (
      with_modified-Held id (updated_row serde now (unwrap_or u.status a.current) u) db row
        (λ r. refl) (λ r. refl) (λ r. refl) held)

  written_event-Held :
      (serde : Serde) (now : ℕ) (id : String) (event : JournalEvent) (stored : RunRow)
      (db : Registry) (row : RunRow)
      → Held project key row db
      → Held project key row (written_event serde now id event stored db)
  unfolding find_by_key
  written_event-Held serde now id event stored db row held =
      with_modified-Held id (advanced_row (stored.last_event_seq + 1) now) db row (λ r. refl)
        (λ r. refl) (λ r. refl) held

  Effect-Held :
      {serde : Serde} {db db' : Registry} (row : RunRow)
      → Effect serde db db'
      → Held project key row db
      → Held project key row db'
  unfolding find_by_key policy_row
  Effect-Held row (untouched p q) (holder, held, named, printed) =
      (holder, rw p held, named, printed)
  Effect-Held {serde} {db} row (inserted now id request unused e) held =
      rw e (with_run-Held (new_row serde now id request) db row held)
  Effect-Held {serde} {db} {db'} row (changed_status now id u a) held =
      Applied-Held serde now id u db db' row a held
  Effect-Held {serde} {db} row (wrote now id event stored found e) held =
      rw e (written_event-Held serde now id event stored db row held)
  Effect-Held {serde} {db} {db'} row (wrote_and_changed now id event stored u found a) held =
      Applied-Held serde now id u _ db' row a
        (written_event-Held serde now id event stored db row held)
  Effect-Held {serde} {db} row (changed_policy now id policy actor live e) held = rw e (
      with_modified-Held id (policy_row now policy actor) db row (λ r. refl) (λ r. refl) (λ r. refl)
        held)

  Reach-Held :
      {serde : Serde} {db db' : Registry} (row : RunRow)
      → Reach serde db db'
      → Held project key row db
      → Held project key row db'
  Reach-Held row here held = held
  Reach-Held row (next r s) held = Effect-Held row (Step-Effect s) (Reach-Held row r held)

load_run-found :
    (serde : Serde) (db : Registry) (id : String) (row : RunRow)
    → find_run id db ≡ some row
    → load_run serde db id ≡ some (map_run serde row)
unfolding load_run
load_run-found serde db id row found = rw found refl

find_run-created :
    (serde : Serde) (now : ℕ) (id : String) (request : NewRun) (db : Registry)
    → find_run id db ≡ none
    → find_run id (with_run (new_row serde now id request) db) ≡ some (new_row serde now id request)
unfolding find_run new_row
find_run-created serde now id request db unused =
    find_row-snoc run_key id db.runs (new_row serde now id request) ∙ ground (arith, eq_refl id)

-- After a request with an idempotency key has created the run `id`, and whatever operations have
-- run since, every later request `again` of the same project with the same key returns that run as
-- it is stored then and changes nothing, if its fingerprint is the same, and is refused with a
-- conflict that names that run, if it is not. No second run is made either way.
pub create_run_again :
    (serde : Serde) (now now' : ℕ) (id id' : String) (request again : NewRun) (key : String)
    (r : RunRecord) (db db' later : Registry)
    → request.idempotency_key ≡ some key
    → again.idempotency_key ≡ some key
    → again.project_id ≡ request.project_id
    → create_run serde now id request db ≡ ok (created_run r, db')
    → Reach serde db' later
    → (stored : RunRecord) × (load_run serde later id ≡ some stored)
      × (create_run serde now' id' again later ≡ (
          if text_eq (request_fingerprint serde request) (request_fingerprint serde again)
          then ok (existing_run stored, later)
          else err (idempotency_conflict again.project_id key id)))
unfolding new_row
create_run_again serde now now' id id' request again key r db db' later keyed keyed' project h ran =
    elim (create_run-cases serde now id request db (created_run r) db' h) [
      | inl replayed ↦ cc (replayed.1.1)
      | inr fresh ↦
          let row = new_row serde now id request in
          let first : find_by_key request.project_id key db' ≡ some row =
            rw fresh.result
              (find_by_key-created serde now id request key db keyed fresh.key_free) in
          let (holder, held, named, printed) =
            Reach-Held request.project_id key row ran (row, first, refl, refl) in
          let (last, found, evolved) =
            Reach-Keeps ran id row
              (rw fresh.result (find_run-created serde now id request db fresh.unused)) in
          let loaded = load_run-found serde later id last found in
          (
            map_run serde last,
            loaded,
            create_run-held serde now' id' again key holder later keyed' (rw project held)
                ∙ (replay_existing-eq serde again key holder later (map_run serde last)
                      (rw named loaded)
                    ∙ rw (printed, named) refl),
          )
    ]
