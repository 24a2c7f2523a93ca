-- ===== src/UpdateOp/Sessions.antt =====
-- An update that is reported by several processes in turn: each opens the journal and appends to it.
use mathlib.Core.Path.{subst}
use asterism.Prelude.{
  ℕ, suc, ◌+◌, ◌<◌, ◌≡◌, refl, sym, ap, ◌∙◌, inl, inr, ◌⊎◌, Option, none, some, List, [], ◌∷◌, ◌++◌,
  map, arith, length, rows_then_nil, rows_assoc, All, any_row, Bool-cases,
}
use asterism.Prelude.Results.{Result, ok, ◌>>=◌}
use asterism.Text.{Text}
use asterism.Sse.Chars.{append-nil}
use asterism.UpdateOp.{
  Journal, Report, WriteOutcome, written, cut, open_journal, append_event, event_of, read_journal,
  last_event, seq_after,
}
use asterism.UpdateOp.Records.{
  ProgressEvent, serialized_event, UpdateSerde, NodeHome, empty_home, OperationIdError,
  validate_operation_id, append_file, journal_name, is_file, file_body,
}
use asterism.UpdateOp.Journals.{
  LawfulLines, rendered, Ascending, last_seq, contents, contents-append_file, rendered-snoc,
  Ascending-snoc, last_seq-snoc, last_seq-serialized, wrapping_u64-small, seq_after-last,
  read_journal-contents,
}

-- One call of `append_event`: the time, how the write ends, and the report.
pub record Attempt : Type 0 where
  pub time : ℕ
  pub outcome : WriteOutcome
  pub report : Report

abbrev told : Option ProgressEvent → List ProgressEvent → List ProgressEvent
told none rest = rest
told (some event) rest = event ∷ rest

-- A process that has opened the journal: the events that were reported as written.
abbrev pub run_session :
    UpdateSerde → List Attempt → Journal → NodeHome → List ProgressEvent × Journal × NodeHome
run_session serde [] journal home = ([], journal, home)
run_session serde (a ∷ attempts) journal home =
    let (answer, journal', home') = append_event serde a.time a.outcome a.report journal home in
    let (rest, journal'', home'') = run_session serde attempts journal' home' in
    (told answer rest, journal'', home'')

-- A start: the time, and the attempts that follow.
abbrev pub Start : Type 0
Start = ℕ × List Attempt

abbrev pub run_sessions :
    UpdateSerde
    → Text
    → List Start
    → NodeHome
    → Result OperationIdError (List ProgressEvent × NodeHome)
run_sessions serde operation_id [] home = ok ([], home)
run_sessions serde operation_id ((time, attempts) ∷ starts) home = do
  (journal, home₁) ← open_journal serde time operation_id home
  let (now_sent, journal', home₂) = run_session serde attempts journal home₁
  (sent, home₃) ← run_sessions serde operation_id starts home₂
  ok (now_sent ++ sent, home₃)

-- A write that leaves no part of a line behind.
abbrev pub IsWhole : Attempt → Type 0
IsWhole a = (a.outcome ≡ written) ⊎ (a.outcome ≡ cut 0)

abbrev pub AllWhole : List Start → Type 0
AllWhole [] = Unit
AllWhole ((time, attempts) ∷ starts) = All IsWhole attempts × AllWhole starts

abbrev pub attempts_of : List Start → ℕ
attempts_of [] = 0
attempts_of ((time, attempts) ∷ starts) = length attempts + attempts_of starts

-- The journal of an operation holds these events, with ascending numbers.
abbrev Holds : UpdateSerde → Text → List ProgressEvent → NodeHome → Type 0
Holds serde id es home = (contents (journal_name id) home ≡ rendered serde es) × Ascending 0 es

-- What a session leaves: the events that it adds, and its last number.
abbrev Grown :
    UpdateSerde → Text → List ProgressEvent → ℕ → List ProgressEvent × Journal × NodeHome → Type 0
Grown serde id es limit (sent, journal, home) =
    Holds serde id (es ++ sent) home × (last_seq 0 (es ++ sent) < limit)

abbrev pub u64_limit : ℕ
u64_limit = 18446744073709551616

-- A whole line at the end.
Holds-written :
    (serde : UpdateSerde) (id : Text) (es : List ProgressEvent) (event : ProgressEvent)
    (home : NodeHome) (time : ℕ)
    → Holds serde id es home
    → last_seq 0 es < event.seq
    → Holds serde id
        (es ++ event ∷ [])
        (append_file time (journal_name id) (serde.to_line event ++ b'\n' ∷ []) home)
Holds-written serde id es event home time (holds, up) below = (
  contents-append_file time (journal_name id) (serde.to_line event ++ b'\n' ∷ []) home
      ∙ (ap (λ t. t ++ (serde.to_line event ++ b'\n' ∷ [])) holds
          ∙ sym (rendered-snoc serde es event)),
  Ascending-snoc 0 es event up below,
)

-- Nothing at the end.
Holds-refused :
    (serde : UpdateSerde) (id : Text) (es : List ProgressEvent) (home : NodeHome) (time : ℕ)
    → Holds serde id es home
    → Holds serde id es (append_file time (journal_name id) [] home)
Holds-refused serde id es home time (holds, up) = (
  contents-append_file time (journal_name id) [] home
      ∙ (append-nil (contents (journal_name id) home) ∙ holds),
  up,
)

-- The journal of the operation, with its next number.
abbrev opened : Text → ℕ → Journal
opened id next = record { journal_operation = id; next_seq = next }

run_session-written :
    (serde : UpdateSerde) (id : Text) (a : Attempt) (attempts : List Attempt) (next : ℕ)
    (home : NodeHome)
    → a.outcome ≡ written
    → next + 1 < u64_limit
    → run_session serde (a ∷ attempts) (opened id next) home ≡ (
        let event = event_of a.time (opened id next) a.report in
        let home' = append_file a.time (journal_name id) (serde.to_line event ++ b'\n' ∷ []) home in
        let (rest, journal', home'') = run_session serde attempts (opened id (next + 1)) home' in
        (event ∷ rest, journal', home''))
unfolding append_event
run_session-written serde id a attempts next home h room =
    rw (h, wrapping_u64-small (next + 1) room) refl

run_session-refused :
    (serde : UpdateSerde) (id : Text) (a : Attempt) (attempts : List Attempt) (next : ℕ)
    (home : NodeHome)
    → a.outcome ≡ cut 0
    → next + 1 < u64_limit
    → run_session serde (a ∷ attempts) (opened id next) home
      ≡ run_session serde attempts
          (opened id (next + 1))
          (append_file a.time (journal_name id) [] home)
unfolding append_event
run_session-refused serde id a attempts next home h room =
    rw (h, wrapping_u64-small (next + 1) room) refl

run_session-Holds :
    (serde : UpdateSerde) (id : Text) (attempts : List Attempt) (next : ℕ) (home : NodeHome)
    (es : List ProgressEvent)
    → Holds serde id es home
    → last_seq 0 es < next
    → next + length attempts < u64_limit
    → All IsWhole attempts
    → Grown serde id es (next + length attempts) (run_session serde attempts (opened id next) home)
unfolding event_of
run_session-Holds serde id [] next home es holds below room whole =
    subst (λ l. Holds serde id l home × (last_seq 0 l < next + 0)) (sym (rows_then_nil es))
      (holds, omega (arith, below))
run_session-Holds serde id (a ∷ attempts) next home es holds below room (w, whole) = elim w [
  | inl finished ↦
      let event = event_of a.time (opened id next) a.report in
      let home' = append_file a.time (journal_name id) (serde.to_line event ++ b'\n' ∷ []) home in
      let (kept, bound) =
        run_session-Holds serde id attempts (next + 1) home' (es ++ event ∷ [])
          (Holds-written serde id es event home a.time holds below)
          (subst (λ n. n < next + 1) (sym (last_seq-snoc 0 es event)) (omega arith))
          (omega (arith, room)) whole in
      subst (Grown serde id es (next + suc (length attempts)))
        (sym (run_session-written serde id a attempts next home finished (omega (arith, room))))
        (subst
          (λ l.
            Holds serde id l (ran event home').2 × (last_seq 0 l < next + suc (length attempts)))
          (rows_assoc es (event ∷ []) (ran event home').0) (kept, omega (arith, bound)))
  | inr refused ↦
      let home' = append_file a.time (journal_name id) [] home in
      let (kept, bound) =
        run_session-Holds serde id attempts (next + 1) home' es
          (Holds-refused serde id es home a.time holds) (omega (arith, below)) (omega (arith, room))
          whole in
      subst (Grown serde id es (next + suc (length attempts)))
        (sym (run_session-refused serde id a attempts next home refused (omega (arith, room))))
        (kept, omega (arith, bound))
]
  where
    ran : ProgressEvent → NodeHome → List ProgressEvent × Journal × NodeHome
    ran event home' = run_session serde attempts (opened id (next + 1)) home'

open_journal-Holds :
    (serde : UpdateSerde) (time : ℕ) (id : Text) (home : NodeHome) (es : List ProgressEvent)
    → LawfulLines serde
    → validate_operation_id id ≡ ok tt
    → last_seq 0 es + 1 < u64_limit
    → Holds serde id es home
    → (home' : NodeHome) × (open_journal serde time id home
        ≡ ok (opened id (last_seq 0 es + 1), home'))
      × Holds serde id es home'
unfolding open_journal
open_journal-Holds serde time id home es law valid room (holds, up) =
    let next =
      ap (λ l. seq_after (last_event l))
        (read_journal-contents serde (journal_name id) home 0 es law up holds)
      ∙ (seq_after-last (map serialized_event es)
            (subst (λ n. n + 1 < u64_limit) (sym (last_seq-serialized 0 es)) room)
          ∙ ap (λ n. n + 1) (last_seq-serialized 0 es)) in
    elim (Bool-cases (any_row (is_file (journal_name id)) home.journals)) [
      | inl there ↦ (home, rw (valid, there, next) refl, (holds, up))
      | inr missing ↦ (
        append_file time (journal_name id) [] home,
        rw (valid, missing, next) refl,
        Holds-refused serde id es home time (holds, up),
      )
    ]

run_sessions-Holds :
    (serde : UpdateSerde) (id : Text) (starts : List Start) (home : NodeHome)
    (es : List ProgressEvent)
    → LawfulLines serde
    → validate_operation_id id ≡ ok tt
    → last_seq 0 es + 1 + attempts_of starts < u64_limit
    → AllWhole starts
    → Holds serde id es home
    → (sent : List ProgressEvent) × (end : NodeHome) × (run_sessions serde id starts home
        ≡ ok (sent, end))
      × Holds serde id (es ++ sent) end
run_sessions-Holds serde id [] home es law valid room whole holds =
    ([], home, refl, subst (λ l. Holds serde id l home) (sym (rows_then_nil es)) holds)
run_sessions-Holds serde id ((time, attempts) ∷ starts) home es law valid room (w, whole) holds =
    let (home₁, open_eq, holds₁) =
      open_journal-Holds serde time id home es law valid (omega (arith, room)) holds in
    let now_ran = run_session serde attempts (opened id (last_seq 0 es + 1)) home₁ in
    let (holds₂, below) =
      run_session-Holds serde id attempts (last_seq 0 es + 1) home₁ es holds₁ (omega arith)
        (omega (arith, room)) w in
    let (sent, end, then_eq, holds₃) =
      run_sessions-Holds serde id starts now_ran.2 (es ++ now_ran.0) law valid
        (omega (arith, room, below)) whole holds₂ in
    (
      now_ran.0 ++ sent,
      end,
      rw (open_eq, then_eq) refl,
      subst (λ l. Holds serde id l end) (rows_assoc es now_ran.0 sent) holds₃,
    )

-- An update that hands over between processes loses no report and repeats no number. Whatever
-- processes open the journal of a valid operation in turn and append to it, fewer than 2 ^ 64 - 1
-- times in all, if each write takes the whole line or nothing, and serde writes an event as one line
-- and reads back all of it but the identities that it skips, then every process can open the
-- journal, and what is read back in the end are the events whose write succeeded, without those
-- identities, in the order of the writes, with ascending, positive numbers.
pub run_sessions-read_journal :
    (serde : UpdateSerde) (id : Text) (starts : List Start)
    → LawfulLines serde
    → validate_operation_id id ≡ ok tt
    → 1 + attempts_of starts < u64_limit
    → AllWhole starts
    → (sent : List ProgressEvent) × (end : NodeHome) × (run_sessions serde id starts empty_home
        ≡ ok (sent, end))
      × (read_journal serde (file_body (journal_name id) end) ≡ map serialized_event sent)
      × Ascending 0 sent
run_sessions-read_journal serde id starts law valid room whole =
    let (sent, end, ran, (holds, up)) =
      run_sessions-Holds serde id starts empty_home [] law valid room whole (refl, tt) in
    (sent, end, ran, read_journal-contents serde (journal_name id) end 0 sent law up holds, up)
