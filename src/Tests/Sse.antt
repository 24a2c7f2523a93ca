-- ===== src/Tests/Sse.antt =====
-- The event stream parser on the fragments of the repository's own tests, and its theorems at them.
use asterism.Prelude.{◌≡◌, refl, none, some, List, [], ◌∷◌, map}
use asterism.Text.{Text, codes, join_lines, split_once, strip_prefix, text_eq}
use asterism.Sse.{
  new_parser, push, take_lines, read_line, drop_return, finish_event, set_field, split_field,
  skip_space,
}
use asterism.Sse.Chars.{read_chars, push-read_chars}
use asterism.Sse.Chunks.{push_all, joined, push_all-joined}
use asterism.Sse.Render.{Message, event_of, stream, render, push_all-stream}

abbrev fragments : List Text
fragments = codes "event: tool.start\nda" ∷ codes "ta: {\"tool\":\"terminal\"}\n\n" ∷ []

fragments_read : push_all fragments new_parser ≡ (
  record { event = some (codes "tool.start"); event_data = codes "{\"tool\":\"terminal\"}" } ∷ [],
  new_parser,
)
unfolding push_all push take_lines read_line drop_return finish_event set_field split_field
    skip_space split_once strip_prefix text_eq join_lines
fragments_read = refl

comment_ignored :
    (push (codes ": keepalive\r\nevent: message\r\ndata: first\ndata: second\n\n") new_parser).0
    ≡ record { event = some (codes "message"); event_data = codes "first\nsecond" } ∷ []
unfolding push take_lines read_line drop_return finish_event set_field split_field skip_space
    split_once strip_prefix text_eq join_lines
comment_ignored = refl

push-read_chars_example :
    push (codes "da\nta") (record { buffer = codes "x"; event_name = none; data_lines = [] })
    ≡ read_chars
        (codes "da\nta")
        (record { buffer = codes "x"; event_name = none; data_lines = [] })
push-read_chars_example =
    push-read_chars (codes "da\nta")
      (record { buffer = codes "x"; event_name = none; data_lines = [] }) refl

push_all-joined_example : push_all fragments new_parser ≡ push (joined fragments) new_parser
push_all-joined_example = push_all-joined fragments

abbrev message : Message
message = record {
  name = some (codes "tool.start");
  first = codes "{\"tool\":\"terminal\"}";
  more = [];
}

fragments_whole : joined fragments ≡ stream (message ∷ [])
unfolding joined stream render
fragments_whole = refl

push_all-stream_example : push_all fragments new_parser ≡ (map event_of (message ∷ []), new_parser)
unfolding drop_return
push_all-stream_example =
    push_all-stream (message ∷ []) fragments ((((refl, refl), ((refl, refl), tt)), tt))
      fragments_whole
