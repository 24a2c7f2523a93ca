-- ===== src/UpdateOp.antt =====
-- src/updateop.rs: the journal in which an update writes its progress, and the cursor of what the
-- daemon has delivered. The directory of journals and the file of the cursor are a `NodeHome`;
-- serde's reader and writer of the two records are parameters.
pub mod Records
pub mod Journals
pub mod Sessions
pub mod Ordered
pub mod Cursor
use asterism.Prelude.{
  ℕ, zero, suc, ◌+◌, ◌-◌, ◌%◌, ◌^◌, Bool, true, false, not, ◌&&◌, ◌||◌, Option, none, some, List,
  [], ◌∷◌, ◌++◌, map, ltb, leb, ◌==◌, if◌then◌else◌, length, take, where_rows, first_row,
  update_rows, any_row,
}
use asterism.Prelude.Results.{Result, ok, err, ◌>>=◌, ◌>>◌, guard}
use asterism.Prelude.Table.{map_option, unwrap_or, is_some}
use asterism.Text.{Text, codes, text_eq, byte_len, is_ascii_alphanumeric}
use asterism.FilePaths.{before_last_dot, file_stem}
use asterism.Redact.Metadata.{text_ltb}
use asterism.Policy.Config.{lines, lines_from}
use asterism.UpdateFinish.{UpdateEvidence, FailureDetail}
use asterism.UpdateOp.Records.{
  Delivered, JournalFile, NodeHome, OperationIdError, ProgressEvent, UpdateSerde, all_characters,
  append_file, empty_home, file_body, is_empty_text, is_file, is_id_character, journal_name,
  max_operation_id, required, too_long, validate_operation_id, wrong_character,
}

abbrev pub keep_journals : ℕ
keep_journals = 8

-- `sort_by_key(|event| event.seq)`, stable
unfoldable pub insert_by_seq : ProgressEvent → List ProgressEvent → List ProgressEvent
insert_by_seq e [] = e ∷ []
insert_by_seq e (f ∷ fs) = if leb e.seq f.seq then e ∷ f ∷ fs else f ∷ insert_by_seq e fs

unfoldable pub sort_by_seq : List ProgressEvent → List ProgressEvent
unfolding insert_by_seq
sort_by_seq [] = []
sort_by_seq (e ∷ es) = insert_by_seq e (sort_by_seq es)

-- `dedup_by_key(|event| event.seq)`, after an event that is kept
unfoldable pub dedup_after : ProgressEvent → List ProgressEvent → List ProgressEvent
dedup_after kept [] = []
dedup_after kept (e ∷ es) =
    let same = dedup_after kept es in
    let other = dedup_after e es in if e.seq == kept.seq then same else e ∷ other

unfoldable pub dedup_by_seq : List ProgressEvent → List ProgressEvent
unfolding dedup_after
dedup_by_seq [] = []
dedup_by_seq (e ∷ es) = e ∷ dedup_after e es

-- `filter_map(|line| serde_json::from_str(line).ok())`
unfoldable pub parsed_lines : (Text → Option ProgressEvent) → List Text → List ProgressEvent
parsed_lines from_line [] = []
parsed_lines from_line (l ∷ ls) = elim (from_line l) [
  | none ↦ parsed_lines from_line ls
  | some e ↦ e ∷ parsed_lines from_line ls
]

unfoldable pub read_journal : UpdateSerde → Option Text → List ProgressEvent
unfolding lines_from parsed_lines sort_by_seq dedup_by_seq
read_journal serde none = []
read_journal serde (some raw) =
    dedup_by_seq (sort_by_seq (parsed_lines serde.from_line (lines raw)))

-- The arithmetic of `u64` in a release build.
unfoldable pub wrapping_u64 : ℕ → ℕ
wrapping_u64 n = n % 18446744073709551616

pub record Journal : Type 0 where
  pub journal_operation : Text
  pub next_seq : ℕ

abbrev pub last_event : List ProgressEvent → Option ProgressEvent
last_event [] = none
last_event (e ∷ []) = some e
last_event (e ∷ f ∷ es) = last_event (f ∷ es)

abbrev pub seq_after : Option ProgressEvent → ℕ
seq_after none = 1
seq_after (some e) = wrapping_u64 (e.seq + 1)

-- `Journal::open`; the file system does not fail here.
unfoldable pub open_journal :
    UpdateSerde → ℕ → Text → NodeHome → Result OperationIdError (Journal × NodeHome)
unfolding validate_operation_id read_journal append_file journal_name
open_journal serde time operation_id home = do
  _ ← validate_operation_id operation_id
  let name = journal_name operation_id
  let next = seq_after (last_event (read_journal serde (file_body name home)))
  let home' = if any_row (is_file name) home.journals then home else append_file time name [] home
  ok (record { journal_operation = operation_id; next_seq = next }, home')

-- What `Journal::append_event` is called with.
pub record Report : Type 0 where
  pub report_state : Text
  pub bytes : Option (ℕ × Option ℕ)
  pub report_failure : Option Text
  pub report_evidence : Option UpdateEvidence
  pub report_detail : Option FailureDetail

-- `Journal::append` and `Journal::append_outcome` call `append_event` with these.
abbrev pub progress_report : Text → Option (ℕ × Option ℕ) → Option Text → Report
progress_report state bytes failure_code = record {
  report_state = state;
  bytes = bytes;
  report_failure = failure_code;
  report_evidence = none;
  report_detail = none;
}

abbrev pub outcome_report :
    Text → Option Text → Option UpdateEvidence → Option FailureDetail → Report
outcome_report state failure_code evidence failure_detail = record {
  report_state = state;
  bytes = none;
  report_failure = failure_code;
  report_evidence = evidence;
  report_detail = failure_detail;
}

abbrev pub total_of : Option (ℕ × Option ℕ) → Option ℕ
total_of none = none
total_of (some (bytes_done, bytes_total)) = bytes_total

abbrev pub done_of : ℕ × Option ℕ → ℕ
done_of (bytes_done, bytes_total) = bytes_done

unfoldable pub event_of : ℕ → Journal → Report → ProgressEvent
event_of now journal report = record {
  operation_id = journal.journal_operation;
  seq = journal.next_seq;
  state = report.report_state;
  bytes_done = map_option done_of report.bytes;
  bytes_total = total_of report.bytes;
  failure_code = report.report_failure;
  at = now;
  evidence = report.report_evidence;
  failure_detail = report.report_detail;
}

-- How a write ends: with the whole line, or with an error after a part of it, or after nothing.
pub data WriteOutcome : Type 0 where
  written : WriteOutcome
  cut : ℕ → WriteOutcome

-- `Journal::append_event`: the answer, and the journal and the home afterwards. The number is used
-- up whether the line is written or not.
unfoldable pub append_event :
    UpdateSerde
    → ℕ
    → WriteOutcome
    → Report
    → Journal
    → NodeHome
    → Option ProgressEvent × Journal × NodeHome
unfolding append_file journal_name event_of
append_event serde now outcome report journal home =
    let event = event_of now journal report in
    let line = serde.to_line event ++ b'\n' ∷ [] in
    let name = journal_name journal.journal_operation in
    let journal' = record journal { next_seq = wrapping_u64 (journal.next_seq + 1) } in
    elim outcome [
      | written ↦ (some event, journal', append_file now name line home)
      | cut n ↦ (none, journal', append_file now name (take n line) home)
    ]

-- `journalled_operations`: the listing, filtered, in the order of times and names. Names are texts.
abbrev pub journal_operation_of : JournalFile → Option Text
journal_operation_of f =
    let name = file_stem f.file_name in
    if text_eq f.file_name (name ++ codes ".jsonl")
    then (elim (validate_operation_id name) [ ok _ ↦ some name | err _ ↦ none ])
    else none

unfoldable pub found_operations : List JournalFile → List (ℕ × Text)
unfolding file_stem
found_operations [] = []
found_operations (f ∷ fs) = elim (journal_operation_of f) [
  | none ↦ found_operations fs
  | some name ↦ (f.modified, name) ∷ found_operations fs
]

abbrev pub is_before : ℕ × Text → ℕ × Text → Bool
is_before (m, s) (n, t) = ltb m n || (m == n && not (text_ltb t s))

unfoldable pub insert_found : ℕ × Text → List (ℕ × Text) → List (ℕ × Text)
insert_found f [] = f ∷ []
insert_found f (g ∷ gs) = if is_before f g then f ∷ g ∷ gs else g ∷ insert_found f gs

unfoldable pub sort_found : List (ℕ × Text) → List (ℕ × Text)
unfolding insert_found
sort_found [] = []
sort_found (f ∷ fs) = insert_found f (sort_found fs)

abbrev pub found_name : ℕ × Text → Text
found_name (modified, name) = name

unfoldable pub journalled_operations : NodeHome → List Text
unfolding found_operations sort_found
journalled_operations home = map found_name (sort_found (found_operations home.journals))

abbrev pub delete_file : Text → NodeHome → NodeHome
delete_file name home = record home {
  journals = where_rows (λ f. not (is_file name f)) home.journals;
}

-- `prune_journals`: the loop over the excess.
abbrev pub remove_journals : List Text → NodeHome → NodeHome
remove_journals [] home = home
remove_journals (operation ∷ rest) home =
    remove_journals rest (delete_file (journal_name operation) home)

unfoldable pub prune_journals : NodeHome → NodeHome
unfolding journalled_operations journal_name
prune_journals home =
    let operations = journalled_operations home in
    remove_journals (take (length operations - keep_journals) operations) home

-- `Delivered::load`
unfoldable pub load_delivered : UpdateSerde → NodeHome → Delivered
load_delivered serde home = elim home.cursor [
  | none ↦ record { acked = [] }
  | some raw ↦ unwrap_or (serde.delivered_from_slice raw) (record { acked = [] })
]

unfoldable pub acked_seq : Text → List (Text × ℕ) → ℕ
unfolding text_eq
acked_seq operation_id [] = 0
acked_seq operation_id ((o, s) ∷ rest) =
    if text_eq o operation_id then s else acked_seq operation_id rest

-- `Delivered::seq_for`
abbrev pub seq_for : Text → Delivered → ℕ
seq_for operation_id delivered = acked_seq operation_id delivered.acked

-- `entry(..).or_insert(0)` and the update, in the order of the keys of a `BTreeMap`
unfoldable pub raise_acked : Text → ℕ → List (Text × ℕ) → List (Text × ℕ)
unfolding text_eq text_ltb
raise_acked operation_id seq [] = (operation_id, (if ltb 0 seq then seq else 0)) ∷ []
raise_acked operation_id seq ((o, s) ∷ rest) =
    if text_eq o operation_id
    then (o, (if ltb s seq then seq else s)) ∷ rest
    else if text_ltb operation_id o
    then (operation_id, (if ltb 0 seq then seq else 0)) ∷ (o, s) ∷ rest
    else (o, s) ∷ raise_acked operation_id seq rest

-- `Delivered::record`
unfoldable pub record_acked : Text → ℕ → Delivered → Delivered
unfolding raise_acked
record_acked operation_id seq delivered = record delivered {
  acked = raise_acked operation_id seq delivered.acked;
}

-- `Delivered::save`: the rename replaces the file at once.
unfoldable pub save_delivered : UpdateSerde → Delivered → NodeHome → NodeHome
save_delivered serde delivered home = record home {
  cursor = some (serde.delivered_to_vec delivered);
}

abbrev pub is_above : ℕ → ProgressEvent → Bool
is_above acked event = ltb acked event.seq

-- The loops of `undelivered`.
unfoldable pub pending_events : UpdateSerde → Delivered → NodeHome → List Text → List ProgressEvent
unfolding acked_seq read_journal journal_name
pending_events serde delivered home [] = []
pending_events serde delivered home (operation ∷ rest) =
    where_rows (is_above (seq_for operation delivered))
      (read_journal serde (file_body (journal_name operation) home))
    ++ pending_events serde delivered home rest

unfoldable pub undelivered : UpdateSerde → NodeHome → List ProgressEvent
unfolding load_delivered pending_events journalled_operations
undelivered serde home =
    pending_events serde (load_delivered serde home) home (journalled_operations home)
