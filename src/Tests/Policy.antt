-- ===== src/Tests/Policy.antt =====
-- The runtime policy on inputs of the repository's own tests, and its theorems at them.
use asterism.Prelude.{none, ◌≡◌, refl, ◌↔◌, Bool, true, false, some}
use asterism.Prelude.Results.{ok, err}
use asterism.Text.{
  Text, codes, text_eq, starts_with, strip_prefix, trim, trim_start, trim_end, is_whitespace,
  join_lines,
}
use asterism.Sse.{drop_return}
use asterism.Policy.{
  RuntimeConfiguration, UnsafeRuntime, IsUnsafe, enforce, denial_reason, override_warning,
  enforce-IsUnsafe,
}
use asterism.Policy.Config.{
  lines_from, strip_comment_from, is_indented, is_header, trim_colons, ends_with_colon, setting_at,
  setting_value, section_after, lookup_lines, lookup, trim_quotes_start, trim_quotes_end,
}
use asterism.Policy.Config.Written.{
  set_lines, set_setting, write_lines, write_line, write_header, write_child, complete,
  setting_line, indent_of,
}
use asterism.Policy.Config.Rendered.{lookup-set_setting}

abbrev body : Text
body =
    codes "database:\n  journal_mode: wal # fast\nmodel:\n  default: \"old\"\n  provider: openai\n"

-- An existing key is rewritten in place, and nothing else moves.
rewritten :
    set_setting body (codes "model") (codes "default") (codes "new")
    ≡ codes "database:\n  journal_mode: wal # fast\nmodel:\n  default: new\n  provider: openai\n"
unfolding set_setting lines_from drop_return set_lines write_lines write_line write_header
    write_child complete setting_line indent_of strip_comment_from is_indented is_header trim_colons
    ends_with_colon trim trim_start trim_end is_whitespace starts_with text_eq join_lines
rewritten = refl

comment_stripped : lookup body (codes "database") (codes "journal_mode") ≡ some (codes "wal")
unfolding lookup lines_from drop_return lookup_lines setting_at setting_value section_after
    strip_comment_from is_indented is_header trim_colons ends_with_colon trim trim_start trim_end
    is_whitespace strip_prefix text_eq trim_quotes_start trim_quotes_end
comment_stripped = refl

lookup-set_setting_example :
    lookup
      (set_setting body (codes "model") (codes "default") (codes "new"))
      (codes "model")
      (codes "default")
    ≡ some (codes "new")
unfolding is_whitespace lines_from drop_return
lookup-set_setting_example =
    lookup-set_setting (codes "model") (codes "default") (codes "new") (refl, refl) (refl, refl)
      (refl, refl) body refl
      ((refl, refl), ((refl, refl), ((refl, refl), ((refl, refl), ((refl, refl), tt)))))

-- A missing key takes the indent of the last line of its section, also where that line belongs to
-- a mapping inside the section.
appended_deeper :
    set_setting
      (codes "model:\n  fallback:\n    name: a\n")
      (codes "model")
      (codes "default")
      (codes "b")
    ≡ codes "model:\n  fallback:\n    name: a\n    default: b\n"
unfolding set_setting lines_from drop_return set_lines write_lines write_line write_header
    write_child complete setting_line indent_of strip_comment_from is_indented is_header trim_colons
    ends_with_colon trim trim_start trim_end is_whitespace starts_with text_eq join_lines
appended_deeper = refl

abbrev native : RuntimeConfiguration
native = record {
  openai_runtime = some (codes "codex_app_server");
  approvals_mode = some (codes "off");
}

enforce-IsUnsafe_example :
    (((e : UnsafeRuntime) × (enforce "p1" native false ≡ err e))
      ↔ (IsUnsafe native × (◌≡◌ {A = Bool} false false)))
    × ((e : UnsafeRuntime)
        → enforce "p1" native false ≡ err e
        → e ≡ record { project_id = "p1"; reason = denial_reason })
    × ((enforce "p1" native false ≡ ok (some override_warning))
        ↔ (IsUnsafe native × (◌≡◌ {A = Bool} false true)))
    × ((enforce "p1" native false ≡ ok none) ↔ ¬ IsUnsafe native)
enforce-IsUnsafe_example = enforce-IsUnsafe "p1" native false
