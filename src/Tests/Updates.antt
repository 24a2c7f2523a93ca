-- ===== src/Tests/Updates.antt =====
-- The journal of an update at concrete sessions, and its theorems at them.
use asterism.Prelude.{ℕ, ◌≡◌, refl, none, List, [], ◌∷◌, ◌++◌, inl, inr, arith, map}
use asterism.Prelude.Results.{ok, err}
use asterism.Text.{Text, codes, text_eq, byte_len, is_ascii_alphanumeric}
use asterism.Sse.{drop_return}
use asterism.Policy.Config.{lines_from}
use asterism.UpdateOp.{
  progress_report, WriteOutcome, written, cut, read_journal, open_journal, append_event, event_of,
  parsed_lines, sort_by_seq, insert_by_seq, dedup_by_seq, dedup_after, wrapping_u64, undelivered,
  save_delivered, load_delivered, journalled_operations,
}
use asterism.UpdateOp.Records.{
  ProgressEvent, serialized_event, NodeHome, empty_home, journal_name, file_body,
  validate_operation_id, append_file,
}
use asterism.UpdateOp.Sessions.{Attempt, Start, run_sessions, run_sessions-read_journal}
use asterism.UpdateOp.Journals.{Ascending}
use asterism.UpdateOp.Cursor.{record_all, uncovered_events, undelivered-record_all}
use asterism.Tests.EventCodec.{event_serde, event_serde-LawfulLines, event_serde-LawfulCursor}

abbrev operation : Text
operation = codes "op-1"

operation_is_valid : validate_operation_id operation ≡ ok tt
unfolding validate_operation_id byte_len is_ascii_alphanumeric
operation_is_valid = refl

abbrev attempt : ℕ → WriteOutcome → Text → Attempt
attempt time outcome state = record {
  time = time;
  outcome = outcome;
  report = progress_report state none none;
}

-- The updater, and the process that it hands over to; one write is refused.
abbrev starts : List Start
starts =
    (10, attempt 11 written (codes "fetching") ∷ attempt 12 (cut 0) (codes "verifying") ∷ [])
    ∷ (20, attempt 21 written (codes "complete") ∷ [])
    ∷ []

run_sessions-read_journal_example :
    (sent : List ProgressEvent) × (end : NodeHome) × (run_sessions event_serde operation starts
        empty_home
      ≡ ok (sent, end))
    × (read_journal event_serde (file_body (journal_name operation) end)
        ≡ map serialized_event sent)
    × Ascending 0 sent
run_sessions-read_journal_example =
    run_sessions-read_journal event_serde operation starts event_serde-LawfulLines
      operation_is_valid (omega arith) ((inl refl, (inr refl, tt)), ((inl refl, tt), tt))

abbrev home : NodeHome
home = record {
  journals =
      record {
        file_name = codes "op-1.jsonl";
        body =
            event_serde.to_line (
              event_of 11 (record { journal_operation = operation; next_seq = 1 })
                (progress_report (codes "fetching") none none))
            ++ b'\n' ∷ [];
        modified = 11;
      }
      ∷ [];
  cursor = none;
}

undelivered-record_all_example :
    undelivered event_serde (
      save_delivered event_serde
        (record_all ((operation, 3) ∷ (operation, 1) ∷ []) (load_delivered event_serde home))
        home)
    ≡ uncovered_events event_serde
        ((operation, 3) ∷ (operation, 1) ∷ [])
        (load_delivered event_serde home)
        home
        (journalled_operations home)
undelivered-record_all_example =
    undelivered-record_all event_serde ((operation, 3) ∷ (operation, 1) ∷ []) home
      event_serde-LawfulCursor

-- The lines that are read back after the given starts.
abbrev states_after : List Start → List Text
states_after list = elim (run_sessions event_serde operation list empty_home) [
  | err e ↦ []
  | ok (sent, end) ↦
      map (λ (e : ProgressEvent). e.state)
        (read_journal event_serde (file_body (journal_name operation) end))
]

-- A line that is cut takes the next one with it: the next write goes to the same line.
torn_line_takes_the_next :
    states_after (
      (10, attempt 11 written (codes "a") ∷ attempt 12 (cut 5) (codes "b") ∷ [])
      ∷ (20, attempt 21 written (codes "c") ∷ attempt 22 written (codes "d") ∷ [])
      ∷ [])
    ≡ codes "a" ∷ codes "d" ∷ []
unfolding serialized_event read_journal open_journal append_event append_file journal_name event_of
    wrapping_u64 validate_operation_id byte_len is_ascii_alphanumeric lines_from drop_return
    parsed_lines sort_by_seq insert_by_seq dedup_by_seq dedup_after text_eq
torn_line_takes_the_next = refl
