-- ===== src/Sse/Render.antt =====
-- The round trip: a stream of messages written as the server-sent events format says is read back.
use asterism.Prelude.{
  ◌≡◌, refl, sym, ap, ◌∙◌, true, inl, inr, Option, none, some, List, [], ◌∷◌, ◌++◌, map, All, ◌==◌,
  Bool-cases, arith,
}
use asterism.Text.{Text, codes, join_lines, strip_prefix, split_once, text_eq}
use asterism.Sse.{
  SseEvent, SseParser, new_parser, drop_return, read_line, push, finish_event, set_field,
  split_field, skip_space,
}
use asterism.Sse.Chars.{
  read_chars, is_partial, then_chars, read_chars-ended, read_chars-inside, append_assoc, append-nil,
  push-read_chars,
}
use asterism.Sse.Chunks.{push_all, joined, push_all-joined}

-- A message: its event name, and its data as at least one line.
pub record Message : Type 0 where
  pub name : Option Text
  pub first : Text
  pub more : List Text

abbrev pub data_field : Text → Text
data_field line = codes "data: " ++ (line ++ b'\n' ∷ [])

abbrev pub data_fields : List Text → Text
data_fields [] = []
data_fields (l ∷ ls) = data_field l ++ data_fields ls

abbrev pub event_field : Option Text → Text
event_field none = []
event_field (some name) = codes "event: " ++ (name ++ b'\n' ∷ [])

-- A message is written field by field and ends with an empty line.
unfoldable pub render : Message → Text
render m = event_field m.name ++ (data_fields (m.first ∷ m.more) ++ b'\n' ∷ [])

unfoldable pub stream : List Message → Text
stream [] = []
stream (m ∷ ms) = render m ++ stream ms

-- The event that stands for a message.
abbrev pub event_of : Message → SseEvent
event_of m = record { event = m.name; event_data = join_lines (m.first ∷ m.more) }

-- A line holds no line feed and does not end with a carriage return.
abbrev pub IsLine : Text → Type 0
IsLine t = (is_partial t ≡ true) × (drop_return t ≡ t)

abbrev pub IsName : Option Text → Type 0
IsName none = Unit
IsName (some name) = IsLine name

abbrev pub IsMessage : Message → Type 0
IsMessage m = IsName m.name × All IsLine (m.first ∷ m.more)

-- Characters inside a line go to the buffer.
pub read_chars-buffer :
    (line t : Text) (p : SseParser)
    → is_partial line ≡ true
    → read_chars (line ++ t) p ≡ read_chars t (record p { buffer = p.buffer ++ line })
read_chars-buffer [] t p h =
    ap (λ b. read_chars t (record p { buffer = b })) (sym (append-nil p.buffer))
read_chars-buffer (c ∷ line) t p h = elim (Bool-cases (c == b'\n')) [
  | inl ends ↦ ground (arith, ends)
  | inr inside ↦
      read_chars-inside c (line ++ t) p inside
      ∙ (read_chars-buffer line t (record p { buffer = p.buffer ++ c ∷ [] })
            (ground (arith, inside))
          ∙ ap (λ b. read_chars t (record p { buffer = b })) (append_assoc p.buffer c line))
]

-- A line that does not end an event.
read_chars-line :
    (line t : Text) (p q : SseParser)
    → is_partial line ≡ true
    → p.buffer ≡ []
    → read_line (drop_return line) (record p { buffer = [] }) ≡ (none, q)
    → read_chars (line ++ b'\n' ∷ t) p ≡ read_chars t q
read_chars-line line t p q h empty reads =
    read_chars-buffer line (b'\n' ∷ t) p h
    ∙ (read_chars-ended b'\n' t (record p { buffer = p.buffer ++ line }) refl
        ∙ (ap (λ b. then_chars t (read_line (drop_return (b ++ line)) (record p { buffer = [] })))
              empty
            ∙ ap (then_chars t) reads))

drop_return-data :
    (l : Text) → drop_return l ≡ l → drop_return (codes "data: " ++ l) ≡ codes "data: " ++ l
unfolding drop_return
drop_return-data [] h = refl
drop_return-data (c ∷ l) h = ap (λ x. codes "data: " ++ x) h

drop_return-event :
    (l : Text) → drop_return l ≡ l → drop_return (codes "event: " ++ l) ≡ codes "event: " ++ l
unfolding drop_return
drop_return-event [] h = refl
drop_return-event (c ∷ l) h = ap (λ x. codes "event: " ++ x) h

read_line-data :
    (l : Text) (p : SseParser)
    → read_line (codes "data: " ++ l) p ≡ (none, record p { data_lines = p.data_lines ++ l ∷ [] })
unfolding read_line split_field set_field skip_space strip_prefix split_once text_eq
read_line-data l p = refl

read_line-event :
    (l : Text) (p : SseParser)
    → read_line (codes "event: " ++ l) p ≡ (none, record p { event_name = some l })
unfolding read_line split_field set_field skip_space strip_prefix split_once text_eq
read_line-event l p = refl

pub append-append : (a b t : Text) → (a ++ b) ++ t ≡ a ++ (b ++ t)
append-append [] b t = refl
append-append (c ∷ a) b t = ap (λ x. c ∷ x) (append-append a b t)

-- A parser between two lines.
abbrev pub held : Option Text → List Text → SseParser
held name lines = record { buffer = []; event_name = name; data_lines = lines }

read_chars-data_field :
    (l t : Text) (name : Option Text) (lines : List Text)
    → IsLine l
    → read_chars (data_field l ++ t) (held name lines) ≡ read_chars t (held name (lines ++ l ∷ []))
read_chars-data_field l t name lines (whole, kept) =
    ap (λ x. read_chars (codes "data: " ++ x) (held name lines)) (append_assoc l b'\n' t)
    ∙ read_chars-line (codes "data: " ++ l) t (held name lines) (held name (lines ++ l ∷ [])) whole
        refl
        (ap (λ x. read_line x (held name lines)) (drop_return-data l kept)
          ∙ read_line-data l (held name lines))

pub read_chars-event_field :
    (name : Option Text) (t : Text)
    → IsName name
    → read_chars (event_field name ++ t) new_parser ≡ read_chars t (held name [])
read_chars-event_field none t h = refl
read_chars-event_field (some l) t (whole, kept) =
    ap (λ x. read_chars (codes "event: " ++ x) new_parser) (append_assoc l b'\n' t)
    ∙ read_chars-line (codes "event: " ++ l) t new_parser (held (some l) []) whole refl
        (ap (λ x. read_line x new_parser) (drop_return-event l kept) ∙ read_line-event l new_parser)

pub lines-append :
    (xs : List Text) (y : Text) (ys : List Text) → (xs ++ y ∷ []) ++ ys ≡ xs ++ y ∷ ys
lines-append [] y ys = refl
lines-append (x ∷ xs) y ys = ap (λ l. x ∷ l) (lines-append xs y ys)

lines-nil : (xs : List Text) → xs ++ [] ≡ xs
lines-nil [] = refl
lines-nil (x ∷ xs) = ap (λ l. x ∷ l) (lines-nil xs)

pub read_chars-data_fields :
    (ls : List Text) (t : Text) (name : Option Text) (lines : List Text)
    → All IsLine ls
    → read_chars (data_fields ls ++ t) (held name lines) ≡ read_chars t (held name (lines ++ ls))
read_chars-data_fields [] t name lines h =
    ap (λ x. read_chars t (held name x)) (sym (lines-nil lines))
read_chars-data_fields (l ∷ ls) t name lines (h, hs) =
    ap (λ x. read_chars x (held name lines)) (append-append (data_field l) (data_fields ls) t)
    ∙ (read_chars-data_field l (data_fields ls ++ t) name lines h
        ∙ (read_chars-data_fields ls t name (lines ++ l ∷ []) hs
            ∙ ap (λ x. read_chars t (held name x)) (lines-append lines l ls)))

-- The empty line closes the event and leaves a new parser.
read_line-close :
    (name : Option Text) (l : Text) (ls : List Text)
    → read_line (drop_return []) (held name (l ∷ ls))
      ≡ (some (record { event = name; event_data = join_lines (l ∷ ls) }), new_parser)
unfolding read_line drop_return finish_event
read_line-close none l ls = refl
read_line-close (some name) l ls = refl

read_chars-render :
    (m : Message) (t : Text)
    → IsMessage m
    → read_chars (render m ++ t) new_parser ≡ then_chars t (some (event_of m), new_parser)
unfolding render
read_chars-render m t (named, lines) =
    let fields = data_fields (m.first ∷ m.more) in
    ap (λ x. read_chars x new_parser) (append-append (event_field m.name) (fields ++ b'\n' ∷ []) t)
    ∙ (read_chars-event_field m.name ((fields ++ b'\n' ∷ []) ++ t) named
        ∙ (ap (λ x. read_chars x (held m.name [])) (append-append fields (b'\n' ∷ []) t)
            ∙ (read_chars-data_fields (m.first ∷ m.more) (b'\n' ∷ t) m.name [] lines
                ∙ (read_chars-ended b'\n' t (held m.name (m.first ∷ m.more)) refl
                    ∙ ap (then_chars t) (read_line-close m.name m.first m.more)))))

read_chars-stream :
    (ms : List Message)
    → All IsMessage ms
    → read_chars (stream ms) new_parser ≡ (map event_of ms, new_parser)
unfolding stream read_chars
read_chars-stream [] h = refl
read_chars-stream (m ∷ ms) (h, hs) =
    read_chars-render m (stream ms) h
    ∙ ap (λ (x : List SseEvent × SseParser). (event_of m ∷ x.0, x.1)) (read_chars-stream ms hs)

-- A stream of messages, each a name or none and one or more lines of data without line ends in
-- them, is read back: whatever chunks it arrives in, the parser delivers each message as one
-- event, in order, with its lines joined, and holds nothing at the end.
pub push_all-stream :
    (ms : List Message) (chunks : List Text)
    → All IsMessage ms
    → joined chunks ≡ stream ms
    → push_all chunks new_parser ≡ (map event_of ms, new_parser)
push_all-stream ms chunks h whole =
    push_all-joined chunks
    ∙ (ap (λ t. push t new_parser) whole
        ∙ (push-read_chars (stream ms) new_parser refl ∙ read_chars-stream ms h))
