-- ===== src/Policy/Config/Lines.antt =====
-- The setting that `set_setting` writes is the one that `lookup` finds, line by line.
use asterism.Prelude.{
  ◌≡◌, refl, sym, ap, ◌∙◌, Bool, true, false, not, ◌&&◌, none, some, List, [], ◌∷◌, ◌++◌, arith,
  any_row,
}
use asterism.Text.{Text, trim, starts_with, strip_prefix}
use asterism.Sse.{is_empty}
use asterism.Sse.Chars.{append_assoc}
use asterism.Policy.Config.{
  strip_comment, is_blank, is_indent, is_indented, is_header, setting_at, setting_value,
  section_after, lookup_lines,
}
use asterism.Policy.Config.Written.{setting_line, indent_of}
use asterism.Policy.Config.Words.{
  IsWord, IsIndent, has_colon, is_mark, strip_comment-unmarked, unmarked-indented, trim-indented,
  is_indented-IsIndent, is_indented-word, is_blank-word, is_header-word, strip_prefix-append,
  setting_value-word, any_row-append, no_mark,
}

pub starts_with-strip_prefix : (t p : Text) → starts_with t p ≡ false → strip_prefix t p ≡ none
unfolding starts_with strip_prefix
starts_with-strip_prefix t [] h = ground (arith, h)
starts_with-strip_prefix [] (c ∷ p) h = refl
starts_with-strip_prefix (d ∷ t) (c ∷ p) h = ground (arith, starts_with-strip_prefix t p)

pub indent_of-IsIndent : (t : Text) → is_indented t ≡ true → IsIndent (indent_of t)
unfolding is_indented indent_of
indent_of-IsIndent [] h = ground (arith, h)
indent_of-IsIndent (c ∷ t) h = rw h (refl, rw h (rest t))
  where
    rest : (t : Text) → any_row (λ c. not (is_indent c)) (indent_of t) ≡ false
    rest [] = refl
    rest (c ∷ t) = ground (arith, rest t)

setting_at-child :
    (key line t : Text)
    → is_blank line ≡ false
    → is_indented line ≡ true
    → strip_prefix (trim line) (key ++ b':' ∷ []) ≡ some t
    → setting_at key true line ≡ some (setting_value t)
unfolding setting_at
setting_at-child key line t h i e = rw (h, i, e)

pub setting_at-other :
    (key line : Text)
    → strip_prefix (trim line) (key ++ b':' ∷ []) ≡ none
    → setting_at key true line ≡ none
unfolding setting_at
setting_at-other key line e = rw e (ground arith)

prefix-core :
    (key value : Text)
    → strip_prefix (key ++ b':' ∷ b' ' ∷ value) (key ++ b':' ∷ []) ≡ some (b' ' ∷ value)
prefix-core key value =
    ap (λ t. strip_prefix t (key ++ b':' ∷ [])) (sym (append_assoc key b':' (b' ' ∷ value)))
    ∙ strip_prefix-append (key ++ b':' ∷ []) (b' ' ∷ value)

not_empty : (w t : Text) → IsWord w → is_empty (w ++ t) ≡ false
not_empty [] t (h, k) = ground (arith, h)
not_empty (c ∷ w) t h = refl

header-unmarked : (w : Text) → IsWord w → any_row is_mark (w ++ b':' ∷ []) ≡ false
header-unmarked w (h, k) = any_row-append is_mark w (b':' ∷ []) ∙ rw (no_mark w k) refl

module _ (section key value : Text) (section-IsWord : IsWord section)
    (plain : has_colon section ≡ false) (key-IsWord : IsWord key)
    (value-IsWord : IsWord value) where
  -- The line that is written holds the value.
  setting_at-setting_line :
      (indent : Text)
      → IsIndent indent
      → setting_at key true (strip_comment (setting_line indent key value)) ≡ some (some value)
  unfolding setting_at setting_line
  setting_at-setting_line indent h =
      let sep = b':' ∷ b' ' ∷ [] in
      let same =
        strip_comment-unmarked (indent ++ (key ++ (sep ++ value)))
          (unmarked-indented indent key sep value h key-IsWord refl value-IsWord) in
      let trimmed = trim-indented indent key sep value h key-IsWord value-IsWord in
      let core = key ++ (sep ++ value) in
      ap (setting_at key true) same
      ∙ (setting_at-child key (indent ++ core) (b' ' ∷ value)
            (ap is_empty trimmed ∙ not_empty key (sep ++ value) key-IsWord)
            (is_indented-IsIndent indent core h)
            (ap (λ t. strip_prefix t (key ++ b':' ∷ [])) trimmed ∙ prefix-core key value)
          ∙ ap some (setting_value-word value value-IsWord))

  pub lookup-setting_line :
      (indent : Text) (rest : List Text)
      → IsIndent indent
      → lookup_lines section key true (setting_line indent key value ∷ rest) ≡ some value
  unfolding lookup_lines
  lookup-setting_line indent rest h = rw (setting_at-setting_line indent h, lookup_lines)

  -- A line at which the loop goes on.
  pub lookup-pass :
      (b c : Bool) (raw : Text) (rest : List Text)
      → setting_at key b (strip_comment raw) ≡ none
      → section_after section b (strip_comment raw) ≡ c
      → lookup_lines section key b (raw ∷ rest) ≡ lookup_lines section key c rest
  unfolding lookup_lines
  lookup-pass b c raw rest none_here goes =
      rw (none_here, lookup_lines) (ap (λ d. lookup_lines section key d rest) goes)

  header-line : Bool → Type 0
  header-line b =
      (setting_at key b (section ++ b':' ∷ []) ≡ none)
      × (section_after section b (section ++ b':' ∷ []) ≡ true)

  header-passes : (b : Bool) → header-line b
  unfolding setting_at section_after header-line
  header-passes b =
      let blank = is_blank-word section (b':' ∷ []) section-IsWord in
      let flush = is_indented-word section (b':' ∷ []) section-IsWord in
      let opens = is_header-word section section-IsWord plain in
      (rw (blank, flush), rw (blank, flush, opens))

  pub lookup-header :
      (b : Bool) (rest : List Text)
      → lookup_lines section key b ((section ++ b':' ∷ []) ∷ rest)
        ≡ lookup_lines section key true rest
  unfolding header-line
  lookup-header b rest =
      let same =
        strip_comment-unmarked (section ++ b':' ∷ []) (header-unmarked section section-IsWord) in
      lookup-pass b true (section ++ b':' ∷ []) rest
        (ap (setting_at key b) same ∙ (header-passes b).0)
        (ap (section_after section b) same ∙ (header-passes b).1)

  -- A line outside the section, or at column zero, never returns a setting.
  pub setting_at-outside : (line : Text) → setting_at key false line ≡ none
  unfolding setting_at
  setting_at-outside line = ground arith

  pub setting_at-flush :
      (b : Bool) (line : Text) → is_indented line ≡ false → setting_at key b line ≡ none
  unfolding setting_at
  setting_at-flush b line h = ground arith

  pub section_after-flush :
      (b : Bool) (line : Text)
      → is_blank line ≡ false
      → is_indented line ≡ false
      → section_after section b line ≡ is_header section line
  unfolding section_after
  section_after-flush b line h i = ground arith

  pub section_after-inside :
      (b : Bool) (line : Text)
      → not (is_blank line) && not (is_indented line) ≡ false
      → section_after section b line ≡ b
  unfolding section_after
  section_after-inside b line h = ground arith
