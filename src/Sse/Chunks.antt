-- ===== src/Sse/Chunks.antt =====
-- How the stream of events is cut into chunks has no effect.
use asterism.Prelude.{
  ◌≡◌, refl, sym, ap, ◌∙◌, true, inl, inr, Option, none, some, List, [], ◌∷◌, ◌++◌, ◌==◌,
  Bool-cases,
}
use asterism.Text.{Text}
use asterism.Sse.{SseEvent, SseParser, new_parser, drop_return, read_line, push_event, push}
use asterism.Sse.Chars.{
  read_chars, is_partial, then_chars, read_chars-ended, read_chars-inside, partial-snoc,
  buffer-read_line, push-read_chars,
}

-- What one chunk after the other delivers.
unfoldable pub push_all : List Text → SseParser → List SseEvent × SseParser
push_all [] p = ([], p)
push_all (chunk ∷ chunks) p =
    let (events, p₁) = push chunk p in let (later, p₂) = push_all chunks p₁ in (events ++ later, p₂)

unfoldable pub joined : List Text → Text
joined [] = []
joined (chunk ∷ chunks) = chunk ++ joined chunks

partial-read_chars :
    (t : Text) (p : SseParser)
    → is_partial p.buffer ≡ true
    → is_partial (read_chars t p).1.buffer ≡ true
unfolding read_chars
partial-read_chars [] p h = h
partial-read_chars (c ∷ t) p h = elim (Bool-cases (c == b'\n')) [
  | inl ends ↦
      let q = (read_line (drop_return p.buffer) (record p { buffer = [] })).1 in
      ap (λ x. is_partial x.1.buffer) (read_chars-ended c t p ends)
      ∙ partial-read_chars t q
          (ap is_partial (buffer-read_line (drop_return p.buffer) (record p { buffer = [] })))
  | inr inside ↦
      ap (λ x. is_partial x.1.buffer) (read_chars-inside c t p inside)
      ∙ partial-read_chars t (record p { buffer = p.buffer ++ c ∷ [] })
          (partial-snoc p.buffer c h inside)
]

push_event-append :
    (e : Option SseEvent) (a b : List SseEvent) → push_event e a ++ b ≡ push_event e (a ++ b)
push_event-append none a b = refl
push_event-append (some x) a b = refl

abbrev then_more : Text → List SseEvent × SseParser → List SseEvent × SseParser
then_more b (events, p₁) = let (later, p₂) = read_chars b p₁ in (events ++ later, p₂)

more-then_chars :
    (a b : Text) (r : Option SseEvent × SseParser)
    → read_chars (a ++ b) r.1 ≡ then_more b (read_chars a r.1)
    → then_chars (a ++ b) r ≡ then_more b (then_chars a r)
more-then_chars a b (e, p) h =
    ap (λ (x : List SseEvent × SseParser). (push_event e x.0, x.1)) h
    ∙ ap (λ l. (l, (read_chars b (read_chars a p).1).1)) (sym (push_event-append e _ _))

read_chars-append :
    (a b : Text) (p : SseParser) → read_chars (a ++ b) p ≡ then_more b (read_chars a p)
unfolding read_chars
read_chars-append [] b p = refl
read_chars-append (c ∷ a) b p = elim (Bool-cases (c == b'\n')) [
  | inl ends ↦
      read_chars-ended c (a ++ b) p ends
      ∙ (more-then_chars a b (read_line (drop_return p.buffer) (record p { buffer = [] }))
            (read_chars-append a b _)
          ∙ ap (then_more b) (sym (read_chars-ended c a p ends)))
  | inr inside ↦
      read_chars-inside c (a ++ b) p inside
      ∙ (read_chars-append a b (record p { buffer = p.buffer ++ c ∷ [] })
          ∙ ap (then_more b) (sym (read_chars-inside c a p inside)))
]

push_all-read_chars :
    (chunks : List Text) (p : SseParser)
    → is_partial p.buffer ≡ true
    → push_all chunks p ≡ read_chars (joined chunks) p
unfolding push_all joined read_chars
push_all-read_chars [] p h = refl
push_all-read_chars (chunk ∷ chunks) p h =
    let q = (read_chars chunk p).1 in
    ap
      (λ (x : List SseEvent × SseParser). (x.0 ++ (push_all chunks x.1).0, (push_all chunks x.1).1))
      (push-read_chars chunk p h)
    ∙ (ap (λ (x : List SseEvent × SseParser). ((read_chars chunk p).0 ++ x.0, x.1))
          (push_all-read_chars chunks q (partial-read_chars chunk p h))
        ∙ sym (read_chars-append chunk (joined chunks) p))

-- However the stream is cut into chunks, inside a line, a field name or a line end, a new parser
-- delivers the same events in the same order, and holds the same rest, as if the whole stream had
-- come in one chunk.
pub push_all-joined :
    (chunks : List Text) → push_all chunks new_parser ≡ push (joined chunks) new_parser
push_all-joined chunks =
    push_all-read_chars chunks new_parser refl
    ∙ sym (push-read_chars (joined chunks) new_parser refl)
