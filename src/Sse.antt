-- ===== src/Sse.antt =====
-- src/sse.rs: the incremental parser of a stream of server-sent events.
pub mod Chars
pub mod Chunks
pub mod Render
pub mod Finish
use asterism.Prelude.{
  ℕ, zero, suc, Bool, true, false, ◌&&◌, Option, none, some, List, [], ◌∷◌, ◌++◌, length, ◌==◌,
  if◌then◌else◌,
}
use asterism.Prelude.Table.{unwrap_or, is_some}
use asterism.Text.{Text, codes, text_eq, strip_prefix, split_once, join_lines}
use asterism.Json.{Value}
use asterism.Registry.Requests.{Serde}

pub record SseEvent : Type 0 where
  pub event : Option Text
  pub event_data : Text

-- `SseEvent::json_data`
unfoldable pub json_data : Serde → SseEvent → Option Value
json_data serde e = serde.from_str e.event_data

pub record SseParser : Type 0 where
  pub buffer : Text
  pub event_name : Option Text
  pub data_lines : List Text

-- `SseParser::default`
abbrev pub new_parser : SseParser
new_parser = record { buffer = []; event_name = none; data_lines = [] }

abbrev pub is_empty {ℓ} : {A : Type ℓ} → List A → Bool
is_empty [] = true
is_empty (x ∷ xs) = false

-- `SseParser::finish_event`
unfoldable pub finish_event : SseParser → Option SseEvent × SseParser
unfolding join_lines
finish_event p = elim p.event_name [
  | none ↦ elim p.data_lines [
    | [] ↦ (none, p)
    | l ∷ ls ↦ (
      some (record { event = none; event_data = join_lines (l ∷ ls) }),
      record p { data_lines = [] },
    )
  ]
  | some name ↦ (
    some (record { event = some name; event_data = join_lines p.data_lines }),
    record p { event_name = none; data_lines = [] },
  )
]

-- `if line.ends_with('\r') { line.pop(); }`
unfoldable pub drop_return : Text → Text
drop_return [] = []
drop_return (c ∷ []) = if c == b'\r' then [] else c ∷ []
drop_return (c ∷ d ∷ t) = c ∷ drop_return (d ∷ t)

-- `value.strip_prefix(' ').unwrap_or(value)`
unfoldable pub skip_space : Text → Text
skip_space value = unwrap_or (strip_prefix value (b' ' ∷ [])) value

unfoldable pub split_field : Text → Text × Text
unfolding skip_space split_once
split_field line = elim (split_once b':' line) [
  | some (field, value) ↦ (field, skip_space value)
  | none ↦ (line, [])
]

unfoldable pub set_field : Text × Text → SseParser → SseParser
unfolding text_eq
set_field (field, value) p =
    if text_eq field (codes "event")
    then record p { event_name = some value }
    else if text_eq field (codes "data")
    then record p { data_lines = p.data_lines ++ value ∷ [] }
    else p

-- The body of the loop of `push` from the test for an empty line on.
unfoldable pub read_line : Text → SseParser → Option SseEvent × SseParser
unfolding finish_event split_field set_field
read_line [] p = finish_event p
read_line (c ∷ t) p = (none, if c == b':' then p else set_field (split_field (c ∷ t)) p)

abbrev pub push_event : Option SseEvent → List SseEvent → List SseEvent
push_event none events = events
push_event (some e) events = e ∷ events

-- The loop of `push`, with a bound on the number of lines that it takes from the buffer.
unfoldable pub take_lines : ℕ → SseParser → List SseEvent × SseParser
unfolding split_once drop_return read_line
take_lines zero p = ([], p)
take_lines (suc n) p = elim (split_once b'\n' p.buffer) [
  | none ↦ ([], p)
  | some (line, rest) ↦
      let (e, p₁) = read_line (drop_return line) (record p { buffer = rest }) in
      let (events, p₂) = take_lines n p₁ in (push_event e events, p₂)
]

-- `SseParser::push`; a buffer has no more lines than characters.
unfoldable pub push : Text → SseParser → List SseEvent × SseParser
unfolding take_lines
push chunk p =
    let buffer = p.buffer ++ chunk in take_lines (length buffer) (record p { buffer = buffer })

-- What `finish` makes of a last line without its end.
unfoldable pub flush : SseParser → SseParser
unfolding skip_space
flush p = elim (strip_prefix p.buffer (codes "data:")) [
  | some value ↦ record p { buffer = []; data_lines = p.data_lines ++ skip_space value ∷ [] }
  | none ↦ record p { buffer = [] }
]

-- `SseParser::finish`. An empty buffer has no prefix `data:`.
unfoldable pub finish : SseParser → Option SseEvent
unfolding flush finish_event
finish p = (finish_event (flush p)).0
