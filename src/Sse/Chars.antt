-- ===== src/Sse/Chars.antt =====
-- `push` compared with a reader that takes one character at a time and needs no bound on a loop.
use asterism.Prelude.{
  ℕ, zero, suc, ◌+◌, ◌≤◌, ◌≡◌, refl, sym, ap, ◌∙◌, Bool, true, false, not, inl, inr, Option, none,
  some, List, [], ◌∷◌, ◌++◌, length, length-append, arith, ◌==◌, if◌then◌else◌, Bool-cases, any_row,
}
use asterism.Text.{Text, split_once}
use asterism.Sse.{
  SseEvent, SseParser, finish_event, drop_return, set_field, read_line, push_event, take_lines,
  push,
}

-- The reader of single characters: a line ends at its line feed, and the buffer holds the line
-- that is not ended.
unfoldable pub read_chars : Text → SseParser → List SseEvent × SseParser
read_chars [] p = ([], p)
read_chars (c ∷ t) p =
    if c == b'\n'
    then (let (e, p₁) = read_line (drop_return p.buffer) (record p { buffer = [] }) in
        let (events, p₂) = read_chars t p₁ in (push_event e events, p₂))
    else read_chars t (record p { buffer = p.buffer ++ c ∷ [] })

-- No line of the buffer is ended.
abbrev pub is_partial : Text → Bool
is_partial t = not (any_row (λ c. c == b'\n') t)

split_once-partial : (t : Text) → is_partial t ≡ true → split_once b'\n' t ≡ none
unfolding split_once
split_once-partial [] h = refl
split_once-partial (c ∷ t) h = ground (arith, split_once-partial t)

split_once-ended :
    (line rest : Text)
    → is_partial line ≡ true
    → split_once b'\n' (line ++ b'\n' ∷ rest) ≡ some (line, rest)
unfolding split_once
split_once-ended [] rest h = refl
split_once-ended (c ∷ line) rest h = ground (arith, split_once-ended line rest)

pub partial-snoc :
    (t : Text) (c : ℕ)
    → is_partial t ≡ true
    → (c == b'\n') ≡ false
    → is_partial (t ++ c ∷ []) ≡ true
partial-snoc [] c h n = ground arith
partial-snoc (d ∷ t) c h n = ground (arith, partial-snoc t c)

pub append_assoc : (a : Text) (c : ℕ) (b : Text) → (a ++ c ∷ []) ++ b ≡ a ++ c ∷ b
append_assoc [] c b = refl
append_assoc (d ∷ a) c b = ap (λ t. d ∷ t) (append_assoc a c b)

pub append-nil : (a : Text) → a ++ [] ≡ a
append-nil [] = refl
append-nil (d ∷ a) = ap (λ t. d ∷ t) (append-nil a)

-- Reading a line leaves the buffer alone.
pub buffer-read_line : (line : Text) (p : SseParser) → (read_line line p).1.buffer ≡ p.buffer
unfolding read_line finish_event set_field
buffer-read_line [] p = ground arith
buffer-read_line (c ∷ t) p = ground arith

take_lines-none :
    (n : ℕ) (p : SseParser) → split_once b'\n' p.buffer ≡ none → take_lines n p ≡ ([], p)
unfolding take_lines
take_lines-none zero p h = refl
take_lines-none (suc n) p h = rw (h, take_lines)

-- One line is taken from the buffer.
abbrev then_lines : ℕ → Option SseEvent × SseParser → List SseEvent × SseParser
then_lines n (e, p₁) = let (events, p₂) = take_lines n p₁ in (push_event e events, p₂)

take_lines-some :
    (n : ℕ) (p : SseParser) (line rest : Text)
    → split_once b'\n' p.buffer ≡ some (line, rest)
    → take_lines (suc n) p
      ≡ then_lines n (read_line (drop_return line) (record p { buffer = rest }))
unfolding take_lines
take_lines-some n p line rest h = rw (h, take_lines)

-- The line that is read does not see the rest of the buffer.
rebuffer : Text → Option SseEvent × SseParser → Option SseEvent × SseParser
rebuffer t (e, p) = (e, record p { buffer = t })

read_line-buffer :
    (line t : Text) (p : SseParser)
    → read_line line (record p { buffer = t })
      ≡ rebuffer t (read_line line (record p { buffer = [] }))
unfolding read_line finish_event set_field rebuffer
read_line-buffer [] t p = ground arith
read_line-buffer (c ∷ s) t p = ground arith

abbrev pub then_chars : Text → Option SseEvent × SseParser → List SseEvent × SseParser
then_chars t (e, p₁) = let (events, p₂) = read_chars t p₁ in (push_event e events, p₂)

pub read_chars-ended :
    (c : ℕ) (t : Text) (p : SseParser)
    → (c == b'\n') ≡ true
    → read_chars (c ∷ t) p
      ≡ then_chars t (read_line (drop_return p.buffer) (record p { buffer = [] }))
unfolding read_chars
read_chars-ended c t p ends = rw (ends, read_chars)

pub read_chars-inside :
    (c : ℕ) (t : Text) (p : SseParser)
    → (c == b'\n') ≡ false
    → read_chars (c ∷ t) p ≡ read_chars t (record p { buffer = p.buffer ++ c ∷ [] })
unfolding read_chars
read_chars-inside c t p inside = rw (inside, read_chars)

is_feed : (c : ℕ) → (c == b'\n') ≡ true → c ≡ b'\n'
is_feed c h = ground arith

-- The bound of the loop is large enough for the chunk `t`, whatever the parser holds.
abbrev Covers : Text → Type 0
Covers t =
    (n : ℕ) (p : SseParser)
    → is_partial p.buffer ≡ true
    → length (p.buffer ++ t) ≤ n
    → take_lines n (record p { buffer = p.buffer ++ t }) ≡ read_chars t p

after_line :
    (t : Text) (n : ℕ) (r : Option SseEvent × SseParser)
    → Covers t
    → r.1.buffer ≡ []
    → length t ≤ n
    → then_lines n (rebuffer t r) ≡ then_chars t r
unfolding rebuffer
after_line t n (e, p) covers empty enough =
    ap (λ (x : List SseEvent × SseParser). (push_event e x.0, x.1))
      (ap (λ b. take_lines n (record p { buffer = b ++ t })) (sym empty)
        ∙ covers n p (rw empty refl) (rw empty enough))

take_lines-ended :
    (t : Text) (n : ℕ) (p : SseParser)
    → Covers t
    → is_partial p.buffer ≡ true
    → suc (length p.buffer + length t) ≤ n
    → take_lines n (record p { buffer = p.buffer ++ b'\n' ∷ t })
      ≡ then_chars t (read_line (drop_return p.buffer) (record p { buffer = [] }))
take_lines-ended t zero p covers h enough = ground arith
take_lines-ended t (suc n) p covers h enough =
    let line = drop_return p.buffer in
    take_lines-some n (record p { buffer = p.buffer ++ b'\n' ∷ t }) p.buffer t
      (split_once-ended p.buffer t h)
    ∙ (ap (then_lines n) (read_line-buffer line t p)
        ∙ after_line t n (read_line line (record p { buffer = [] })) covers
            (buffer-read_line line (record p { buffer = [] })) (omega arith))

-- Every line of the buffer is taken.
take_lines-read_chars : (chunk : Text) → Covers chunk
unfolding read_chars
take_lines-read_chars [] n p h enough =
    ap (λ b. take_lines n (record p { buffer = b })) (append-nil p.buffer)
    ∙ take_lines-none n p (split_once-partial p.buffer h)
take_lines-read_chars (c ∷ t) n p h enough = elim (Bool-cases (c == b'\n')) [
  | inl ends ↦
      ap (λ d. take_lines n (record p { buffer = p.buffer ++ d ∷ t })) (is_feed c ends)
      ∙ (take_lines-ended t n p (take_lines-read_chars t) h
            (omega (arith, length-append p.buffer (c ∷ t)))
          ∙ sym (read_chars-ended c t p ends))
  | inr inside ↦
      ap (λ b. take_lines n (record p { buffer = b })) (sym (append_assoc p.buffer c t))
      ∙ (take_lines-read_chars t n (record p { buffer = p.buffer ++ c ∷ [] })
            (partial-snoc p.buffer c h inside) (rw (append_assoc p.buffer c t) enough)
          ∙ sym (read_chars-inside c t p inside))
]

-- If no line of the buffer is ended, `push` reads its chunk as the reader of single characters
-- does: its loop ends with every ended line taken, and its buffer holds the rest.
pub push-read_chars :
    (chunk : Text) (p : SseParser) → is_partial p.buffer ≡ true → push chunk p ≡ read_chars chunk p
unfolding push
push-read_chars chunk p h = take_lines-read_chars chunk _ p h (omega arith)
