-- ===== src/Policy/Config/RoundTrip.antt =====
-- What the loop of `set_setting` keeps true, and the round trip with `lookup`, line by line.
use asterism.Prelude.{
  if-cases, ◌≡◌, refl, sym, ap, ◌∙◌, true, false, not, ◌&&◌, none, some, List, [], ◌∷◌, ◌++◌, ◌⊎◌,
  inl, inr, arith, if◌then◌else◌,
}
use asterism.Text.{Text, trim, starts_with}
use asterism.Sse.Render.{lines-append}
use asterism.Policy.Config.{strip_comment, is_blank, is_header, setting_at, lookup_lines}
use asterism.Policy.Config.Written.{
  Writer, new_writer, setting_line, push_line, push_setting, indent_of, write_header, write_child,
  write_line, write_lines, complete, set_lines,
}
use asterism.Policy.Config.Words.{IsWord, IsIndent, has_colon}
use asterism.Policy.Config.Lines.{
  lookup-setting_line, lookup-header, setting_at-outside, setting_at-flush, setting_at-other,
  section_after-flush, section_after-inside, starts_with-strip_prefix, indent_of-IsIndent,
}
use asterism.Policy.Config.Positions.{
  Pending, Settled, IsWriter, reindented, is_flush, after_header, push_settled, setting_settles,
  passed_line,
}

module _ (section key value : Text) (section-IsWord : IsWord section)
    (plain : has_colon section ≡ false) (key-IsWord : IsWord key)
    (value-IsWord : IsWord value) where
  header-after :
      (w : Writer) (raw : Text)
      → IsWriter section key value w
      → is_flush raw ≡ true
      → w.in_section && not w.wrote ≡ false
      → IsWriter section key value (after_header section raw w)
  header-after w raw (indent, inr (p, found)) flush quiet = (
    indent,
    inr (
      p,
      push_settled section key value section-IsWord plain key-IsWord value-IsWord w.out raw found,
    ),
  )
  header-after w raw (indent, inl pend) flush quiet = (
    indent,
    inl (
      pend.0,
      (
        passed_line section key value section-IsWord plain key-IsWord value-IsWord w raw
            (is_header section (strip_comment raw)) pend
            (setting_at-flush section key value section-IsWord plain key-IsWord value-IsWord
              w.in_section (strip_comment raw) (ground (arith, flush)))
            (section_after-flush section key value section-IsWord plain key-IsWord value-IsWord
              w.in_section (strip_comment raw) (ground (arith, flush)) (ground (arith, flush))),
        (λ seen. ground (arith, seen, pend.1.1, pend.0, quiet)),
      ),
    ),
  )

  write_header-IsWriter :
      (w : Writer) (raw : Text)
      → IsWriter section key value w
      → is_flush raw ≡ true
      → IsWriter section key value (write_header section key value raw w)
  unfolding write_header
  write_header-IsWriter w raw (indent, state) flush =
      if-cases (λ u. IsWriter section key value (after_header section raw u))
        (w.in_section && not w.wrote) (push_setting key value w) w
        (λ due.
          header-after (push_setting key value w) raw (indent, inr (pushed w indent state due))
            flush (ground arith))
        (λ quiet. header-after w raw (indent, state) flush quiet)
    where
      pushed :
          (w : Writer)
          → IsIndent w.section_indent
          → (Pending section key w ⊎ Settled section key value w)
          → w.in_section && not w.wrote ≡ true
          → Settled section key value (push_setting key value w)
      pushed w indent (inl pend) due =
          setting_settles section key value section-IsWord plain key-IsWord value-IsWord w indent
            (ground (arith, due)) pend
      pushed w indent (inr s) due = ground (arith, due, s.0)

  pushed-IsWriter :
      (w : Writer) (raw : Text)
      → IsWriter section key value w
      → is_flush raw ≡ false
      → setting_at key w.in_section (strip_comment raw) ≡ none
      → IsWriter section key value (push_line raw w)
  pushed-IsWriter w raw (indent, inr (p, found)) flush passed = (
    indent,
    inr (
      p,
      push_settled section key value section-IsWord plain key-IsWord value-IsWord w.out raw found,
    ),
  )
  pushed-IsWriter w raw (indent, inl pend) flush passed = (
    indent,
    inl (
      pend.0,
      (
        passed_line section key value section-IsWord plain key-IsWord value-IsWord w raw
            w.in_section pend passed
            (section_after-inside section key value section-IsWord plain key-IsWord value-IsWord
              w.in_section (strip_comment raw) flush),
        pend.1.1,
      ),
    ),
  )

  -- A writer inside the section, the setting not written.
  IsInside : Writer → Type 0
  IsInside w = IsIndent w.section_indent × (Pending section key w × (w.in_section ≡ true))

  reindented-IsInside :
      (w : Writer) (raw : Text) → IsInside w → is_flush raw ≡ false → IsInside (reindented raw w)
  unfolding IsInside
  reindented-IsInside w raw (indent, state) flush =
      if-cases IsInside (is_blank (strip_comment raw)) w
        (record w { section_indent = indent_of (strip_comment raw) }) (λ blank. (indent, state))
        (λ written.
          (indent_of-IsIndent (strip_comment raw) (ground (arith, flush, written)), state))

  write_child-IsWriter :
      (w : Writer) (raw : Text)
      → IsInside w
      → is_flush raw ≡ false
      → IsWriter section key value (write_child key value raw w)
  unfolding write_child IsInside
  write_child-IsWriter w raw inside flush =
      let (indent, (pend, here)) = reindented-IsInside w raw inside flush in
      if-cases (IsWriter section key value)
        (starts_with (trim (strip_comment raw)) (key ++ b':' ∷ []))
        (push_setting key value (reindented raw w)) (push_line raw (reindented raw w))
        (λ same. (
          indent,
          inr (
              setting_settles section key value section-IsWord plain key-IsWord value-IsWord
                (reindented raw w) indent here pend),
        ))
        (λ other.
          pushed-IsWriter (reindented raw w) raw (indent, inl pend) flush
            (ap (λ b. setting_at key b (strip_comment raw)) here
              ∙ setting_at-other key (strip_comment raw) (starts_with-strip_prefix _ _ other)))

  enter_section :
      (w : Writer) → IsWriter section key value w → w.in_section && not w.wrote ≡ true → IsInside w
  unfolding IsInside
  enter_section w (indent, inl pend) due = (indent, (pend, ground (arith, due)))
  enter_section w (indent, inr s) due = ground (arith, due, s.0)

  passed-outside :
      (w : Writer) (raw : Text)
      → IsWriter section key value w
      → w.in_section && not w.wrote ≡ false
      → is_flush raw ≡ false
      → IsWriter section key value (push_line raw w)
  passed-outside w raw (indent, inr (p, found)) quiet flush = (
    indent,
    inr (
      p,
      push_settled section key value section-IsWord plain key-IsWord value-IsWord w.out raw found,
    ),
  )
  passed-outside w raw (indent, inl pend) quiet flush =
      pushed-IsWriter w raw (indent, inl pend) flush
        (ap (λ b. setting_at key b (strip_comment raw)) (ground (arith, quiet, pend.0))
          ∙ setting_at-outside section key value section-IsWord plain key-IsWord value-IsWord
              (strip_comment raw))

  write_line-IsWriter :
      (w : Writer) (raw : Text)
      → IsWriter section key value w
      → IsWriter section key value (write_line section key value raw w)
  unfolding write_line
  write_line-IsWriter w raw h =
      if-cases (IsWriter section key value) (is_flush raw) (write_header section key value raw w)
        (if w.in_section && not w.wrote then write_child key value raw w else push_line raw w)
        (λ flush. write_header-IsWriter w raw h flush)
        (λ flush.
          if-cases (IsWriter section key value) (w.in_section && not w.wrote)
            (write_child key value raw w) (push_line raw w)
            (λ due. write_child-IsWriter w raw (enter_section w h due) flush)
            (λ quiet. passed-outside w raw h quiet flush))

  write_lines-IsWriter :
      (body : List Text) (w : Writer)
      → IsWriter section key value w
      → IsWriter section key value (write_lines section key value body w)
  unfolding write_lines
  write_lines-IsWriter [] w h = h
  write_lines-IsWriter (raw ∷ rest) w h =
      write_lines-IsWriter rest (write_line section key value raw w) (write_line-IsWriter w raw h)

  lines-end : (out : List Text) → out ++ [] ≡ out
  lines-end [] = refl
  lines-end (l ∷ ls) = ap (λ r. l ∷ r) (lines-end ls)

  complete-found :
      (w : Writer)
      → IsWriter section key value w
      → lookup_lines section key false (complete section key value w) ≡ some value
  unfolding complete
  complete-found w (indent, inr (p, found)) =
      if-cases (λ out. lookup_lines section key false out ≡ some value) w.wrote _ _
        (λ done. ap (lookup_lines section key false) (sym (lines-end w.out)) ∙ found [])
        (λ missing. ground (arith, missing, p))
  complete-found w (indent, inl (p, (reads, seen))) =
      let ends =
        lookup-setting_line section key value section-IsWord plain key-IsWord value-IsWord in
      let last = setting_line w.section_indent key value ∷ [] in
      let opening = section ++ b':' ∷ [] in
      if-cases (λ out. lookup_lines section key false out ≡ some value) w.wrote _ _
        (λ done. ground (arith, done, p))
        (λ missing.
          if-cases (λ out. lookup_lines section key false (out ++ last) ≡ some value) w.section_seen
            w.out (w.out ++ opening ∷ [])
            (λ there.
              reads last
              ∙ (ap (λ b. lookup_lines section key b last) (seen there)
                  ∙ ends w.section_indent [] indent))
            (λ new.
              ap (lookup_lines section key false) (lines-append w.out opening last)
              ∙ (reads (opening ∷ last)
                  ∙ (lookup-header section key value section-IsWord plain key-IsWord value-IsWord
                        w.in_section last
                      ∙ ends w.section_indent [] indent))))

  -- After `set_setting` has written a word under a section and a key that are words, the section
  -- without a colon in it, `lookup` finds that word: whether the setting, the section or neither
  -- was in the file, and whatever else the lines of the file hold.
  pub lookup-set_lines :
      (body : List Text)
      → lookup_lines section key false (set_lines body section key value) ≡ some value
  unfolding set_lines
  lookup-set_lines body = complete-found (write_lines section key value body new_writer) (
      write_lines-IsWriter body new_writer
        ((refl, refl), inl (refl, ((λ rest. refl), (λ seen. seen)))))
