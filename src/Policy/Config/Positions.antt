-- ===== src/Policy/Config/Positions.antt =====
-- Where `lookup` stands in what `set_setting` has written, before the setting is written and after.
use asterism.Prelude.{
  ◌≡◌, refl, ap, ◌∙◌, Bool, true, false, not, ◌&&◌, ◌||◌, none, some, List, [], ◌∷◌, ◌++◌, ◌⊎◌,
  if◌then◌else◌,
}
use asterism.Text.{Text}
use asterism.Sse.Render.{lines-append}
use asterism.Policy.Config.{
  strip_comment, is_blank, is_indented, is_header, setting_at, section_after, lookup_lines,
}
use asterism.Policy.Config.Written.{Writer, setting_line, push_setting, indent_of}
use asterism.Policy.Config.Words.{IsWord, IsIndent, has_colon}
use asterism.Policy.Config.Lines.{lookup-setting_line, lookup-pass}

-- The setting is not written: `lookup` passes the lines so far and stands where the writer stands.
abbrev pub Pending : Text → Text → Writer → Type 0
Pending section key w =
    (w.wrote ≡ false)
    × (((rest : List Text)
          → lookup_lines section key false (w.out ++ rest)
            ≡ lookup_lines section key w.in_section rest)
        × (w.section_seen ≡ true → w.in_section ≡ true))

-- The setting is written: `lookup` finds it, whatever follows.
abbrev pub Settled : Text → Text → Text → Writer → Type 0
Settled section key value w =
    (w.wrote ≡ true)
    × ((rest : List Text) → lookup_lines section key false (w.out ++ rest) ≡ some value)

abbrev pub IsWriter : Text → Text → Text → Writer → Type 0
IsWriter section key value w =
    IsIndent w.section_indent × (Pending section key w ⊎ Settled section key value w)

-- The indent that is remembered from a line of the section.
abbrev pub reindented : Text → Writer → Writer
reindented raw w =
    if is_blank (strip_comment raw)
    then w
    else record w { section_indent = indent_of (strip_comment raw) }

abbrev pub is_flush : Text → Bool
is_flush raw = not (is_blank (strip_comment raw)) && not (is_indented (strip_comment raw))

abbrev pub after_header : Text → Text → Writer → Writer
after_header section raw w = record w {
  in_section = is_header section (strip_comment raw);
  section_seen = w.section_seen || is_header section (strip_comment raw);
  out = w.out ++ raw ∷ [];
}

module _ (section key value : Text) (section-IsWord : IsWord section)
    (plain : has_colon section ≡ false) (key-IsWord : IsWord key)
    (value-IsWord : IsWord value) where
  -- A further line does not change what is found.
  pub push_settled :
      (out : List Text) (raw : Text)
      → ((rest : List Text) → lookup_lines section key false (out ++ rest) ≡ some value)
      → (rest : List Text) → lookup_lines section key false ((out ++ raw ∷ []) ++ rest) ≡ some value
  push_settled out raw found rest =
      ap (lookup_lines section key false) (lines-append out raw rest) ∙ found (raw ∷ rest)

  -- Inside the section, the line of the setting settles the search.
  pub setting_settles :
      (w : Writer)
      → IsIndent w.section_indent
      → w.in_section ≡ true
      → Pending section key w
      → Settled section key value (push_setting key value w)
  setting_settles w indent inside (p, (reads, seen)) = (
    refl,
    λ rest.
        ap (lookup_lines section key false)
          (lines-append w.out (setting_line w.section_indent key value) rest)
        ∙ (reads (setting_line w.section_indent key value ∷ rest)
            ∙ (ap (λ b. lookup_lines section key b (setting_line w.section_indent key value ∷ rest))
                  inside
                ∙ lookup-setting_line section key value section-IsWord plain key-IsWord value-IsWord
                    w.section_indent rest indent)),
  )

  -- A line that the search passes.
  pub passed_line :
      (w : Writer) (raw : Text) (c : Bool)
      → Pending section key w
      → setting_at key w.in_section (strip_comment raw) ≡ none
      → section_after section w.in_section (strip_comment raw) ≡ c
      → (rest : List Text)
      → lookup_lines section key false ((w.out ++ raw ∷ []) ++ rest)
        ≡ lookup_lines section key c rest
  passed_line w raw c (p, (reads, seen)) none_here goes rest =
      ap (lookup_lines section key false) (lines-append w.out raw rest)
      ∙ (reads (raw ∷ rest)
          ∙ lookup-pass section key value section-IsWord plain key-IsWord value-IsWord w.in_section
              c raw rest none_here goes)
