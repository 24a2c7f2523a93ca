-- ===== src/Policy/Config/Rendered.antt =====
-- The round trip of `set_setting` and `lookup` on whole files: what is written is split into the
-- same lines again.
use asterism.Prelude.{
  if-cases, ℕ, ◌≡◌, refl, sym, ap, ◌∙◌, Bool, true, false, not, ◌&&◌, ◌||◌, some, List, [], ◌∷◌,
  ◌++◌, All, ◌==◌, inl, inr, arith, any_row, if◌then◌else◌, Bool-cases,
}
use asterism.Text.{Text, join_lines, is_whitespace, trim, starts_with}
use asterism.Sse.{drop_return}
use asterism.Sse.Chars.{is_partial, append_assoc, append-nil}
use asterism.Sse.Render.{IsLine, append-append}
use asterism.Policy.Config.{
  lines, lines_from, lookup, lookup_lines, strip_comment, is_blank, is_indent, is_indented,
}
use asterism.Policy.Config.Written.{
  Writer, new_writer, setting_line, push_line, push_setting, indent_of, write_header, write_child,
  write_line, write_lines, complete, set_lines, set_setting,
}
use asterism.Policy.Config.Words.{IsWord, IsIndent, is_special, has_colon, any_row-append}
use asterism.Policy.Config.Lines.{indent_of-IsIndent}
use asterism.Policy.Config.RoundTrip.{lookup-set_lines}
use asterism.Policy.Config.Positions.{reindented, after_header}

-- A line that is ended is the next of the lines.
pub lines_from-line :
    (line t begun : Text)
    → is_partial line ≡ true
    → lines_from begun (line ++ b'\n' ∷ t) ≡ drop_return (begun ++ line) ∷ lines_from [] t
unfolding lines_from
lines_from-line [] t begun h = ap (λ b. drop_return b ∷ lines_from [] t) (sym (append-nil begun))
lines_from-line (c ∷ line) t begun h = elim (Bool-cases (c == b'\n')) [
  | inl ends ↦ ground (arith, ends)
  | inr inside ↦
      step inside
      ∙ (lines_from-line line t (begun ++ c ∷ []) (ground (arith, inside))
          ∙ ap (λ b. drop_return b ∷ lines_from [] t) (append_assoc begun c line))
]
  where
    step :
        (c == b'\n') ≡ false
        → lines_from begun (c ∷ (line ++ b'\n' ∷ t))
          ≡ lines_from (begun ++ c ∷ []) (line ++ b'\n' ∷ t)
    step inside = rw (inside, lines_from)

-- Lines that are joined and ended are read back.
lines-join_lines :
    (l : Text) (ls : List Text)
    → All IsLine (l ∷ ls)
    → lines (join_lines (l ∷ ls) ++ b'\n' ∷ []) ≡ l ∷ ls
unfolding join_lines lines_from
lines-join_lines l [] ((whole, kept), hs) = lines_from-line l [] [] whole ∙ ap (λ x. x ∷ []) kept
lines-join_lines l (m ∷ ms) ((whole, kept), hs) =
    ap (lines_from []) (append_assoc' l (join_lines (m ∷ ms)))
    ∙ (lines_from-line l (join_lines (m ∷ ms) ++ b'\n' ∷ []) [] whole
        ∙ (ap (λ x. x ∷ lines (join_lines (m ∷ ms) ++ b'\n' ∷ [])) kept
            ∙ ap (λ x. l ∷ x) (lines-join_lines m ms hs)))
  where
    append_assoc' : (a t : Text) → (a ++ b'\n' ∷ t) ++ b'\n' ∷ [] ≡ a ++ b'\n' ∷ (t ++ b'\n' ∷ [])
    append_assoc' a t = append-append a (b'\n' ∷ t) (b'\n' ∷ [])

abbrev is_end : ℕ → Bool
is_end c = c == b'\n' || c == b'\r'

-- A text without line ends in it is a line.
IsLine-endless : (t : Text) → any_row is_end t ≡ false → IsLine t
unfolding drop_return
IsLine-endless t h = (whole t h, kept t h)
  where
    whole : (t : Text) → any_row is_end t ≡ false → is_partial t ≡ true
    whole [] h = refl
    whole (c ∷ t) h = ground (arith, whole t)

    kept : (t : Text) → any_row is_end t ≡ false → drop_return t ≡ t
    kept [] h = refl
    kept (c ∷ []) h = ground arith
    kept (c ∷ d ∷ t) h = ap (λ x. c ∷ x) (kept (d ∷ t) (ground (arith, h)))

endless-word : (t : Text) → any_row is_special t ≡ false → any_row is_end t ≡ false
unfolding is_whitespace
endless-word [] h = refl
endless-word (c ∷ t) h = ground (arith, endless-word t)

endless-indent : (t : Text) → any_row (λ c. not (is_indent c)) t ≡ false → any_row is_end t ≡ false
endless-indent [] h = refl
endless-indent (c ∷ t) h = ground (arith, endless-indent t)

All-snoc : (P : Text → Type 0) (ls : List Text) (l : Text) → All P ls → P l → All P (ls ++ l ∷ [])
All-snoc P [] l h p = (p, tt)
All-snoc P (m ∷ ls) l (h, hs) p = (h, All-snoc P ls l hs p)

module _ (section key value : Text) (section-IsWord : IsWord section) (key-IsWord : IsWord key)
    (value-IsWord : IsWord value) where
  IsLine-setting_line : (indent : Text) → IsIndent indent → IsLine (setting_line indent key value)
  unfolding setting_line
  IsLine-setting_line indent (h, blanks) =
      let rest = key ++ b':' ∷ b' ' ∷ value in
      IsLine-endless (indent ++ rest) (
        ground (
          arith,
          any_row-append is_end indent rest,
          any_row-append is_end key (b':' ∷ b' ' ∷ value),
          endless-indent indent blanks,
          endless-word key key-IsWord.1,
          endless-word value value-IsWord.1,
        ))

  IsLine-header : IsLine (section ++ b':' ∷ [])
  IsLine-header =
      IsLine-endless (section ++ b':' ∷ []) (
        any_row-append is_end section (b':' ∷ []) ∙ rw (endless-word section section-IsWord.1) refl)

  -- What is written so far is lines, and the indent is one.
  HoldsLines : Writer → Type 0
  HoldsLines w = IsIndent w.section_indent × All IsLine w.out

  setting-HoldsLines : (w : Writer) → HoldsLines w → HoldsLines (push_setting key value w)
  unfolding HoldsLines
  setting-HoldsLines w (indent, h) =
      (indent, All-snoc IsLine w.out _ h (IsLine-setting_line w.section_indent indent))

  line-HoldsLines :
      (w : Writer) (raw : Text) → IsLine raw → HoldsLines w → HoldsLines (push_line raw w)
  unfolding HoldsLines
  line-HoldsLines w raw l (indent, h) = (indent, All-snoc IsLine w.out raw h l)

  write_header-HoldsLines :
      (w : Writer) (raw : Text)
      → IsLine raw
      → HoldsLines w
      → HoldsLines (write_header section key value raw w)
  unfolding write_header HoldsLines
  write_header-HoldsLines w raw l h =
      if-cases (λ u. HoldsLines (after_header section raw u)) (w.in_section && not w.wrote)
        (push_setting key value w) w
        (λ due. line-HoldsLines (push_setting key value w) raw l (setting-HoldsLines w h))
        (λ quiet. line-HoldsLines w raw l h)

  reindented-HoldsLines :
      (w : Writer) (raw : Text)
      → HoldsLines w
      → not (is_blank (strip_comment raw)) && not (is_indented (strip_comment raw)) ≡ false
      → HoldsLines (reindented raw w)
  unfolding HoldsLines
  reindented-HoldsLines w raw h flush =
      if-cases HoldsLines (is_blank (strip_comment raw)) w
        (record w { section_indent = indent_of (strip_comment raw) }) (λ blank. h)
        (λ written. (indent_of-IsIndent (strip_comment raw) (ground (arith, flush, written)), h.1))

  write_line-HoldsLines :
      (w : Writer) (raw : Text)
      → IsLine raw
      → HoldsLines w
      → HoldsLines (write_line section key value raw w)
  unfolding write_line write_child
  write_line-HoldsLines w raw l h =
      let line = strip_comment raw in
      if-cases HoldsLines (not (is_blank line) && not (is_indented line))
        (write_header section key value raw w)
        (if w.in_section && not w.wrote then write_child key value raw w else push_line raw w)
        (λ flush. write_header-HoldsLines w raw l h)
        (λ flush.
          let u = reindented raw w in
          let v = reindented-HoldsLines w raw h flush in
          if-cases HoldsLines (w.in_section && not w.wrote) (write_child key value raw w)
            (push_line raw w)
            (λ due.
              if-cases HoldsLines (starts_with (trim line) (key ++ b':' ∷ []))
                (push_setting key value u) (push_line raw u) (λ same. setting-HoldsLines u v)
                (λ other. line-HoldsLines u raw l v))
            (λ quiet. line-HoldsLines w raw l h))

  write_lines-HoldsLines :
      (body : List Text) (w : Writer)
      → All IsLine body
      → HoldsLines w
      → HoldsLines (write_lines section key value body w)
  unfolding write_lines
  write_lines-HoldsLines [] w ls h = h
  write_lines-HoldsLines (raw ∷ rest) w (l, ls) h =
      write_lines-HoldsLines rest (write_line section key value raw w) ls
        (write_line-HoldsLines w raw l h)

  lines-set_lines :
      (body : List Text) → All IsLine body → All IsLine (set_lines body section key value)
  unfolding set_lines complete HoldsLines
  lines-set_lines body ls =
      let w = write_lines section key value body new_writer in
      let h = write_lines-HoldsLines body new_writer ls ((refl, refl), tt) in
      let last = IsLine-setting_line w.section_indent h.0 in
      if-cases (All IsLine) w.wrote _ _ (λ done. h.1)
        (λ missing.
          if-cases (λ out. All IsLine (out ++ setting_line w.section_indent key value ∷ []))
            w.section_seen w.out (w.out ++ (section ++ b':' ∷ []) ∷ [])
            (λ there. All-snoc IsLine w.out _ h.1 last)
            (λ new.
              All-snoc IsLine (w.out ++ (section ++ b':' ∷ []) ∷ []) _
                (All-snoc IsLine w.out _ h.1 IsLine-header) last))

  lines-found :
      (out : List Text)
      → All IsLine out
      → lookup_lines section key false out ≡ some value
      → lookup_lines section key false (lines (join_lines out ++ b'\n' ∷ [])) ≡ some value
  unfolding lookup_lines
  lines-found [] h found = cc
  lines-found (l ∷ ls) h found =
      ap (lookup_lines section key false) (lines-join_lines l ls h) ∙ found

  -- After `set_setting` has written a word to a file under a section and a key that are words, the
  -- section without a colon in it, `lookup` reads that word from the new file: whether the
  -- setting, the section or neither was there before, and whatever else the file holds, as long as
  -- no line ends in a carriage return beside the one of its line end.
  pub lookup-set_setting :
      (body : Text)
      → has_colon section ≡ false
      → All IsLine (lines body)
      → lookup (set_setting body section key value) section key ≡ some value
  unfolding lookup set_setting
  lookup-set_setting body plain ls =
      lines-found (set_lines (lines body) section key value) (lines-set_lines (lines body) ls) (
        lookup-set_lines section key value section-IsWord plain key-IsWord value-IsWord
          (lines body))
