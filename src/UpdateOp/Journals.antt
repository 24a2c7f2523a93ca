-- ===== src/UpdateOp/Journals.antt =====
-- The text of a journal and the events in it.
use asterism.Prelude.{
  ℕ, ◌+◌, ◌<◌, ◌≡◌, refl, sym, ap, ◌∙◌, true, false, inl, inr, Option, none, some, List, [], ◌∷◌,
  ◌++◌, map, arith, first_row, update_rows, any_row, Bool-cases,
}
use asterism.Prelude.Table.{map_option, unwrap_or}
use asterism.Text.{Text}
use asterism.Text.Bounds.{text_eq_iff}
use asterism.Sse.Render.{IsLine, append-append}
use asterism.Policy.Config.{lines, lines_from}
use asterism.Policy.Config.Rendered.{lines_from-line}
use asterism.UpdateOp.{
  insert_by_seq, sort_by_seq, dedup_after, dedup_by_seq, parsed_lines, read_journal, last_event,
  seq_after, wrapping_u64,
}
use asterism.UpdateOp.Records.{
  ProgressEvent, serialized_event, UpdateSerde, JournalFile, NodeHome, is_file, file_body,
  append_file,
}

-- serde_json writes an event as one line, and reads back all of it but the fields it skips.
abbrev pub LawfulLines : UpdateSerde → Type 0
LawfulLines serde =
    (e : ProgressEvent)
    → IsLine (serde.to_line e) × (serde.from_line (serde.to_line e) ≡ some (serialized_event e))

abbrev pub rendered : UpdateSerde → List ProgressEvent → Text
rendered serde [] = []
rendered serde (e ∷ es) = serde.to_line e ++ b'\n' ∷ rendered serde es

-- The numbers ascend and are greater than `n`.
abbrev pub Ascending : ℕ → List ProgressEvent → Type 0
Ascending n [] = Unit
Ascending n (e ∷ es) = (n < e.seq) × Ascending e.seq es

abbrev pub last_seq : ℕ → List ProgressEvent → ℕ
last_seq n [] = n
last_seq n (e ∷ es) = last_seq e.seq es

-- What is read back has the numbers that were written.
Ascending-serialized :
    (n : ℕ) (es : List ProgressEvent) → Ascending n es → Ascending n (map serialized_event es)
unfolding serialized_event
Ascending-serialized n [] h = tt
Ascending-serialized n (e ∷ es) (h, hs) = (h, Ascending-serialized e.seq es hs)

pub last_seq-serialized :
    (n : ℕ) (es : List ProgressEvent) → last_seq n (map serialized_event es) ≡ last_seq n es
unfolding serialized_event
last_seq-serialized n [] = refl
last_seq-serialized n (e ∷ es) = last_seq-serialized e.seq es

insert_by_seq-Ascending :
    (e : ProgressEvent) (es : List ProgressEvent) → Ascending e.seq es → insert_by_seq e es ≡ e ∷ es
unfolding insert_by_seq
insert_by_seq-Ascending e [] h = refl
insert_by_seq-Ascending e (f ∷ fs) (h, hs) = ground (arith, h)

sort_by_seq-Ascending : (n : ℕ) (es : List ProgressEvent) → Ascending n es → sort_by_seq es ≡ es
unfolding sort_by_seq
sort_by_seq-Ascending n [] h = refl
sort_by_seq-Ascending n (e ∷ es) (h, hs) =
    ap (insert_by_seq e) (sort_by_seq-Ascending e.seq es hs) ∙ insert_by_seq-Ascending e es hs

dedup_after-Ascending :
    (kept : ProgressEvent) (es : List ProgressEvent)
    → Ascending kept.seq es
    → dedup_after kept es ≡ es
unfolding dedup_after
dedup_after-Ascending kept [] h = refl
dedup_after-Ascending kept (e ∷ es) (h, hs) = ground (arith, h, dedup_after-Ascending e es hs)

dedup_by_seq-Ascending : (n : ℕ) (es : List ProgressEvent) → Ascending n es → dedup_by_seq es ≡ es
unfolding dedup_by_seq
dedup_by_seq-Ascending n [] h = refl
dedup_by_seq-Ascending n (e ∷ es) (h, hs) = ap (λ l. e ∷ l) (dedup_after-Ascending e es hs)

parsed_lines-rendered :
    (serde : UpdateSerde) (es : List ProgressEvent)
    → LawfulLines serde
    → parsed_lines serde.from_line (lines (rendered serde es)) ≡ map serialized_event es
unfolding parsed_lines lines_from
parsed_lines-rendered serde [] law = refl
parsed_lines-rendered serde (e ∷ es) law =
    let ((whole, kept), back) = law e in
    ap (parsed_lines serde.from_line)
      (lines_from-line (serde.to_line e) (rendered serde es) [] whole)
    ∙ (ap (λ l. parsed_lines serde.from_line (l ∷ lines (rendered serde es))) kept
        ∙ (rw (back, parsed_lines) refl
            ∙ ap (λ l. serialized_event e ∷ l) (parsed_lines-rendered serde es law)))

-- Events with ascending numbers are read back from their lines, as serde keeps them.
pub read_journal-rendered :
    (serde : UpdateSerde) (n : ℕ) (es : List ProgressEvent)
    → LawfulLines serde
    → Ascending n es
    → read_journal serde (some (rendered serde es)) ≡ map serialized_event es
unfolding read_journal
read_journal-rendered serde n es law h =
    ap (λ l. dedup_by_seq (sort_by_seq l)) (parsed_lines-rendered serde es law)
    ∙ (ap dedup_by_seq
          (sort_by_seq-Ascending n (map serialized_event es) (Ascending-serialized n es h))
        ∙ dedup_by_seq-Ascending n (map serialized_event es) (Ascending-serialized n es h))

-- What a file holds; a file that is missing holds nothing.
abbrev pub contents : Text → NodeHome → Text
contents name home = unwrap_or (file_body name home) []

read_journal-unwrap :
    (serde : UpdateSerde) (body : Option Text)
    → read_journal serde body ≡ read_journal serde (some (unwrap_or body []))
unfolding read_journal lines_from parsed_lines sort_by_seq dedup_by_seq
read_journal-unwrap serde none = refl
read_journal-unwrap serde (some body) = refl

-- A journal that holds events with ascending numbers is read as these events.
pub read_journal-contents :
    (serde : UpdateSerde) (name : Text) (home : NodeHome) (n : ℕ) (es : List ProgressEvent)
    → LawfulLines serde
    → Ascending n es
    → contents name home ≡ rendered serde es
    → read_journal serde (file_body name home) ≡ map serialized_event es
read_journal-contents serde name home n es law up holds =
    read_journal-unwrap serde (file_body name home)
    ∙ (ap (λ b. read_journal serde (some b)) holds ∙ read_journal-rendered serde n es law up)

found-update_rows :
    (name added : Text) (time : ℕ) (fs : List JournalFile)
    → any_row (is_file name) fs ≡ true
    → unwrap_or
        (map_option
          (λ (f : JournalFile). f.body)
          (first_row (is_file name) (
            update_rows
              (is_file name)
              (λ f. record f { body = f.body ++ added; modified = time })
              fs)))
        []
      ≡ unwrap_or (map_option (λ (f : JournalFile). f.body) (first_row (is_file name) fs)) []
        ++ added
found-update_rows name added time [] h = cc
found-update_rows name added time (f ∷ fs) h = elim (Bool-cases (is_file name f)) [
  | inl here ↦ rw (here, here) refl
  | inr there ↦ ground (arith, there, found-update_rows name added time fs)
]

found-snoc :
    (name added : Text) (time : ℕ) (fs : List JournalFile)
    → any_row (is_file name) fs ≡ false
    → unwrap_or
        (map_option
          (λ (f : JournalFile). f.body)
          (first_row
            (is_file name)
            (fs ++ record { file_name = name; body = added; modified = time } ∷ [])))
        []
      ≡ unwrap_or (map_option (λ (f : JournalFile). f.body) (first_row (is_file name) fs)) []
        ++ added
found-snoc name added time [] h = rw ((text_eq_iff name name).1 refl) refl
found-snoc name added time (f ∷ fs) h = ground (arith, found-snoc name added time fs)

-- A write at the end of a file.
pub contents-append_file :
    (time : ℕ) (name added : Text) (home : NodeHome)
    → contents name (append_file time name added home) ≡ contents name home ++ added
unfolding append_file
contents-append_file time name added home =
    elim (Bool-cases (any_row (is_file name) home.journals)) [
      | inl there ↦ rw there (found-update_rows name added time home.journals there)
      | inr missing ↦ rw missing (found-snoc name added time home.journals missing)
    ]

pub rendered-snoc :
    (serde : UpdateSerde) (es : List ProgressEvent) (e : ProgressEvent)
    → rendered serde (es ++ e ∷ []) ≡ rendered serde es ++ (serde.to_line e ++ b'\n' ∷ [])
rendered-snoc serde [] e = refl
rendered-snoc serde (f ∷ fs) e =
    ap (λ t. serde.to_line f ++ b'\n' ∷ t) (rendered-snoc serde fs e)
    ∙ sym (
        append-append (serde.to_line f) (b'\n' ∷ rendered serde fs) (serde.to_line e ++ b'\n' ∷ []))

pub Ascending-snoc :
    (n : ℕ) (es : List ProgressEvent) (e : ProgressEvent)
    → Ascending n es
    → last_seq n es < e.seq
    → Ascending n (es ++ e ∷ [])
Ascending-snoc n [] e up h = (h, tt)
Ascending-snoc n (f ∷ fs) e (g, up) h = (g, Ascending-snoc f.seq fs e up h)

pub last_seq-snoc :
    (n : ℕ) (es : List ProgressEvent) (e : ProgressEvent) → last_seq n (es ++ e ∷ []) ≡ e.seq
last_seq-snoc n [] e = refl
last_seq-snoc n (f ∷ fs) e = last_seq-snoc f.seq fs e

pub wrapping_u64-small : (n : ℕ) → n < 18446744073709551616 → wrapping_u64 n ≡ n
unfolding wrapping_u64
wrapping_u64-small n h = omega (arith, h)

-- The number with which a journal is opened.
pub seq_after-last :
    (es : List ProgressEvent)
    → last_seq 0 es + 1 < 18446744073709551616
    → seq_after (last_event es) ≡ last_seq 0 es + 1
seq_after-last [] h = refl
seq_after-last (e ∷ []) h = wrapping_u64-small (e.seq + 1) h
seq_after-last (e ∷ f ∷ es) h = seq_after-last (f ∷ es) h
