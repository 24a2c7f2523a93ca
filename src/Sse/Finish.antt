-- ===== src/Sse/Finish.antt =====
-- The end of a stream that breaks off inside a message.
use asterism.Prelude.{◌≡◌, refl, sym, ap, ◌∙◌, true, Option, none, some, List, [], ◌∷◌, ◌++◌, All}
use asterism.Text.{Text, codes, join_lines, strip_prefix}
use asterism.Sse.{new_parser, push, finish_event, finish, flush, skip_space}
use asterism.Sse.Chars.{read_chars, is_partial, append-nil, push-read_chars}
use asterism.Sse.Render.{
  IsName, IsLine, event_field, data_fields, held, read_chars-event_field, read_chars-data_fields,
  read_chars-buffer,
}

finish_event-lines :
    (name : Option Text) (ls : List Text) (l : Text)
    → (finish_event (held name (ls ++ l ∷ []))).0
      ≡ some (record { event = name; event_data = join_lines (ls ++ l ∷ []) })
unfolding finish_event
finish_event-lines none [] l = refl
finish_event-lines none (k ∷ ks) l = refl
finish_event-lines (some name) ls l = refl

finish-open_line :
    (name : Option Text) (ls : List Text) (l : Text)
    → finish (record { buffer = codes "data: " ++ l; event_name = name; data_lines = ls })
      ≡ some (record { event = name; event_data = join_lines (ls ++ l ∷ []) })
unfolding finish flush strip_prefix skip_space
finish-open_line name ls l = finish_event-lines name ls l

read_chars-open_line :
    (name : Option Text) (ls : List Text) (l : Text)
    → IsName name
    → All IsLine ls
    → is_partial l ≡ true
    → read_chars (event_field name ++ (data_fields ls ++ (codes "data: " ++ l))) new_parser
      ≡ ([], record { buffer = codes "data: " ++ l; event_name = name; data_lines = ls })
unfolding read_chars
read_chars-open_line name ls l named lines whole =
    let rest = codes "data: " ++ l in
    read_chars-event_field name (data_fields ls ++ rest) named
    ∙ (read_chars-data_fields ls rest name [] lines
        ∙ (ap (λ x. read_chars x (held name ls)) (sym (append-nil rest))
            ∙ read_chars-buffer rest [] (held name ls) whole))

-- A stream that breaks off inside a line of data, before the line and the message are ended, loses
-- nothing of what has arrived: `finish` delivers one event with the name, the ended lines and the
-- open line.
pub finish-push :
    (name : Option Text) (ls : List Text) (l : Text)
    → IsName name
    → All IsLine ls
    → is_partial l ≡ true
    → finish (push (event_field name ++ (data_fields ls ++ (codes "data: " ++ l))) new_parser).1
      ≡ some (record { event = name; event_data = join_lines (ls ++ l ∷ []) })
finish-push name ls l named lines whole =
    ap (λ x. finish x.1)
      (push-read_chars _ new_parser refl ∙ read_chars-open_line name ls l named lines whole)
    ∙ finish-open_line name ls l
