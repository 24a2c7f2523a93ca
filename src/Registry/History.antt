-- ===== src/Registry/History.antt =====
-- What later operations never undo: runs stay stored, their statuses follow the diagram of
-- RunState/Lifecycle, and the journal only grows at its end.
use asterism.Prelude.{
  ℕ, ◌+◌, String, ◌≡◌, refl, sym, ap, ◌∙◌, Bool, true, false, Option, ◌⊎◌, inl, inr, some, List, [],
  ◌∷◌, ◌++◌, arith, str_eq, eq_iff, Bool-cases,
}
use mathlib.Core.List.{append_assoc, append-nil}
use asterism.Prelude.Table.{unwrap_or, find_row-modify_rows, find_row-snoc}
use asterism.Prelude.Results.{ok, ok-injective}
use asterism.RunState.{RunStatus, parse, is_terminal, parse-as_str}
use asterism.RunState.Lifecycle.{◌⟶◌, ◌⟶*◌, validate_iff_edge, terminal_absorbs, ⟶*-trans}
use asterism.RunState.Lifecycle
use asterism.RunPolicy.{RunApprovalPolicy}
use asterism.Registry.Tables.{RunRow, EventRow, Registry}
use asterism.Registry.Requests.{Serde, RunUpdate, JournalEvent}
use asterism.Registry.Runs.{run_key, find_run, new_row}
use asterism.Registry.Updates.{updated_row}
use asterism.Registry.Approvals.{policy_row, stored_policy}
use asterism.Registry.Journal.{event_row, advanced_row}
use asterism.Registry.Shapes.{with_run, written_event, Applied}
use asterism.Registry.Preserve.{with_modified}
use asterism.Registry.Steps.{
  Reach, here, next, Effect, untouched, inserted, changed_status, wrote, wrote_and_changed,
  changed_policy, IsLive, Step-Effect,
}

-- How the stored row of a run may change: its status is read as before, or the diagram leads on;
-- with a terminal status its approval policy stays.
pub record Evolves (before after : RunRow) : Type 0 where
  pub moves :
      (a : RunStatus)
      → parse before.status ≡ ok a
      → (b : RunStatus) × (parse after.status ≡ ok b) × (a ⟶* b)
  pub frozen :
      (a : RunStatus)
      → parse before.status ≡ ok a
      → is_terminal a ≡ true
      → stored_policy after ≡ stored_policy before

Evolves-same :
    (r s : RunRow) → s.status ≡ r.status → stored_policy s ≡ stored_policy r → Evolves r s
Evolves-same r s e p = record { moves = λ a h. (a, rw e h, Lifecycle.here); frozen = λ a h t. p }

Evolves-trans : {r s t : RunRow} → Evolves r s → Evolves s t → Evolves r t
Evolves-trans p q = record {
  moves = λ a h.
      let (b, hb, ab) = p.moves a h in let (c, hc, bc) = q.moves b hb in (c, hc, ⟶*-trans ab bc);
  frozen = λ a h t.
      let (b, hb, ab) = p.moves a h in
      let same : b ≡ a = terminal_absorbs t ab in q.frozen b hb (rw same t) ∙ p.frozen a h t;
}

-- A run that is stored is still stored, and has evolved.
abbrev pub Keeps : Registry → Registry → Type 0
Keeps db db' =
    (id : String) (row : RunRow)
    → find_run id db ≡ some row
    → (row' : RunRow) × (find_run id db' ≡ some row') × Evolves row row'

with_modified-Keeps :
    (k : String) (f : RunRow → RunRow) (db : Registry)
    → ((r : RunRow) → run_key (f r) ≡ run_key r)
    → ((r : RunRow) → find_run k db ≡ some r → Evolves r (f r))
    → Keeps db (with_modified k f db)
unfolding find_run
with_modified-Keeps k f db same_key evolve id row h = elim (Bool-cases (str_eq k id)) [
  | inl same ↦
      let p : k ≡ id = (eq_iff k id).0 same in
      (
        f row,
        ground (arith, find_row-modify_rows run_key id k f db.runs same_key),
        evolve row (rw p h),
      )
  | inr other ↦ (
    row,
    ground (arith, find_row-modify_rows run_key id k f db.runs same_key),
    Evolves-same row row refl refl,
  )
]

with_run-Keeps : (r : RunRow) (db : Registry) → Keeps db (with_run r db)
unfolding find_run
with_run-Keeps r db id row h =
    (row, ground (arith, find_row-snoc run_key id db.runs r), Evolves-same row row refl refl)

-- The status that an accepted update writes is one that the diagram allows.
updated_row-Evolves :
    (serde : Serde) (now : ℕ) (id : String) (u : RunUpdate) (db db' : Registry)
    (a : Applied serde now id u db db') (r : RunRow)
    → find_run id db ≡ some r
    → Evolves r (updated_row serde now (unwrap_or u.status a.current) u r)
unfolding updated_row stored_policy
updated_row-Evolves serde now id u db db' a r h = record {
  moves = λ s parsed.
      let target = unwrap_or u.status a.current in
      let e : r ≡ a.row = cc (h, a.found) in
      let same : a.current ≡ s =
        ok-injective (sym a.parsed ∙ (ap (λ (x : RunRow). parse x.status) (sym e) ∙ parsed)) in
      (
        target,
        parse-as_str target,
        rw (← same) (path ((validate_iff_edge a.current target).0 a.legal)),
      );
  frozen = λ s parsed t. refl;
}
  where
    path : {s t : RunStatus} → (s ≡ t) ⊎ (s ⟶ t) → s ⟶* t
    path (inl p) = rw p Lifecycle.here
    path (inr e) = Lifecycle.next e Lifecycle.here

Applied-Keeps :
    (serde : Serde) (now : ℕ) (id : String) (u : RunUpdate) (db db' : Registry)
    → Applied serde now id u db db'
    → Keeps db db'
unfolding updated_row
Applied-Keeps serde now id u db db' a = rw a.result (
    with_modified-Keeps id (updated_row serde now (unwrap_or u.status a.current) u) db (λ r. refl)
      (updated_row-Evolves serde now id u db db' a))

written_event-Keeps :
    (serde : Serde) (now : ℕ) (id : String) (event : JournalEvent) (row : RunRow) (db : Registry)
    → Keeps db (written_event serde now id event row db)
unfolding find_run stored_policy
written_event-Keeps serde now id event row db =
    with_modified-Keeps id (advanced_row (row.last_event_seq + 1) now) db (λ r. refl)
      (λ r h. Evolves-same r (advanced_row (row.last_event_seq + 1) now r) refl refl)

-- The policy of a row is rewritten only while its status is not terminal.
policy_row-Evolves :
    (now : ℕ) (policy : RunApprovalPolicy) (actor : Option String) (r : RunRow)
    → ((status : RunStatus) × (parse r.status ≡ ok status) × (is_terminal status ≡ false))
    → Evolves r (policy_row now policy actor r)
unfolding policy_row
policy_row-Evolves now policy actor r (status, parsed, alive) = record {
  moves = λ a h. (a, h, Lifecycle.here);
  frozen = λ a h t.
      let same : a ≡ status = ok-injective (sym h ∙ parsed) in
      absurd (contradiction (rw same at t) alive);
}
  where
    contradiction : {b : Bool} → b ≡ true → b ≡ false → ⊥
    contradiction p q = cc

live_row :
    (id : String) (db : Registry) (r : RunRow)
    → IsLive id db
    → find_run id db ≡ some r
    → (status : RunStatus) × (parse r.status ≡ ok status) × (is_terminal status ≡ false)
live_row id db r (row, status, found, parsed, alive) h =
    let same : r ≡ row = cc (found, h) in (status, rw same parsed, alive)

Keeps-trans : (a b c : Registry) → Keeps a b → Keeps b c → Keeps a c
Keeps-trans a b c p q id row h =
    let (row', h', e) = p id row h in
    let (row'', h'', e') = q id row' h' in (row'', h'', Evolves-trans e e')

pub Effect-Keeps : {serde : Serde} {db db' : Registry} → Effect serde db db' → Keeps db db'
unfolding find_run policy_row
Effect-Keeps (untouched p q) = λ id row h. (row, rw p h, Evolves-same row row refl refl)
Effect-Keeps {serde} {db} (inserted now run_id request unused e) =
    rw e (with_run-Keeps (new_row serde now run_id request) db)
Effect-Keeps {serde} {db} {db'} (changed_status now run_id u a) =
    Applied-Keeps serde now run_id u db db' a
Effect-Keeps {serde} {db} (wrote now run_id event row found e) =
    rw e (written_event-Keeps serde now run_id event row db)
Effect-Keeps {serde} {db} {db'} (wrote_and_changed now run_id event row u found a) =
    Keeps-trans db (written_event serde now run_id event row db) db'
      (written_event-Keeps serde now run_id event row db) (Applied-Keeps serde now run_id u _ db' a)
Effect-Keeps {serde} {db} (changed_policy now run_id policy actor live e) = rw e (
    with_modified-Keeps run_id (policy_row now policy actor) db (λ r. refl)
      (λ r h. policy_row-Evolves now policy actor r (live_row run_id db r live h)))

pub Reach-Keeps : {serde : Serde} {db db' : Registry} → Reach serde db db' → Keeps db db'
Reach-Keeps here = λ id row h. (row, h, Evolves-same row row refl refl)
Reach-Keeps {db} {db'} (next {db = mid} r s) =
    Keeps-trans db mid db' (Reach-Keeps r) (Effect-Keeps (Step-Effect s))

-- A stored run stays stored along every sequence of operations of the registry, one after another,
-- and its status moves along the edges of the state diagram only.
pub status_follows_diagram :
    (serde : Serde) (db db' : Registry) (id : String) (row : RunRow) (a : RunStatus)
    → Reach serde db db'
    → find_run id db ≡ some row
    → parse row.status ≡ ok a
    → (row' : RunRow) × (find_run id db' ≡ some row')
      × ((b : RunStatus) × (parse row'.status ≡ ok b) × (a ⟶* b))
status_follows_diagram serde db db' id row a r h p =
    let (row', h', e) = Reach-Keeps r id row h in (row', h', e.moves a p)

-- Once a run's status is terminal, every later registry stores the run with the same status.
pub terminal_status_immutable :
    (serde : Serde) (db db' : Registry) (id : String) (row : RunRow) (a : RunStatus)
    → Reach serde db db'
    → find_run id db ≡ some row
    → parse row.status ≡ ok a
    → is_terminal a ≡ true
    → (row' : RunRow) × (find_run id db' ≡ some row') × (parse row'.status ≡ ok a)
terminal_status_immutable serde db db' id row a r h p t =
    let (row', h', (b, q, path)) = status_follows_diagram serde db db' id row a r h p in
    (row', h', rw (← terminal_absorbs t path) q)

-- The journal of `db'` is that of `db` with events behind it.
abbrev Grows : Registry → Registry → Type 0
Grows db db' = (rest : List EventRow) × (db'.events ≡ db.events ++ rest)

Effect-Grows : {serde : Serde} {db db' : Registry} → Effect serde db db' → Grows db db'
Effect-Grows {serde} {db} (untouched p q) = ([], q ∙ sym (append-nil db.events))
Effect-Grows {serde} {db} (inserted now run_id request unused e) =
    ([], rw e (sym (append-nil db.events)))
Effect-Grows {serde} {db} (changed_status now run_id u a) =
    ([], rw a.result (sym (append-nil db.events)))
Effect-Grows {serde} {db} (wrote now run_id event row found e) =
    (event_row serde now run_id (row.last_event_seq + 1) event ∷ [], rw e)
Effect-Grows {serde} {db} (wrote_and_changed now run_id event row u found a) =
    (event_row serde now run_id (row.last_event_seq + 1) event ∷ [], rw a.result)
Effect-Grows {serde} {db} (changed_policy now run_id policy actor live e) =
    ([], rw e (sym (append-nil db.events)))

-- The journal is append-only: no sequence of operations removes, reorders or rewrites an event.
pub journal_append_only :
    (serde : Serde) (db db' : Registry)
    → Reach serde db db'
    → (rest : List EventRow) × (db'.events ≡ db.events ++ rest)
journal_append_only serde db db' here = ([], sym (append-nil db.events))
journal_append_only serde db db' (next {db = mid} r s) =
    let (first, e) = journal_append_only serde db mid r in
    let (second, f) = Effect-Grows (Step-Effect s) in
    (first ++ second, f ∙ rw e (append_assoc db.events first second))
