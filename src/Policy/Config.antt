-- ===== src/Policy/Config.antt =====
-- src/policy.rs, the narrow reader and writer of a Hermes `config.yaml`.
pub mod Words
pub mod Written
pub mod Lines
pub mod Positions
pub mod RoundTrip
pub mod Rendered
use asterism.Prelude.{
  ℕ, Bool, true, false, not, ◌&&◌, ◌||◌, Option, none, some, List, [], ◌∷◌, ◌++◌, ◌==◌,
  if◌then◌else◌,
}
use asterism.Prelude.Table.{map_option}
use asterism.Text.{Text, codes, text_eq, starts_with, strip_prefix, trim, trim_end, join_lines}
use asterism.Sse.{drop_return, is_empty}
use asterism.Policy.{RuntimeConfiguration}

-- `str::lines`, from a line that has begun: a line ends at a line feed with a carriage return or
-- without, and the last one may lack it.
unfoldable pub lines_from : Text → Text → List Text
unfolding drop_return
lines_from begun [] = if is_empty begun then [] else begun ∷ []
lines_from begun (c ∷ t) =
    if c == b'\n' then drop_return begun ∷ lines_from [] t else lines_from (begun ++ c ∷ []) t

abbrev pub lines : Text → List Text
lines body = lines_from [] body

-- `strip_comment` with its two flags.
unfoldable pub strip_comment_from : Bool → Bool → Text → Text
strip_comment_from in_single in_double [] = []
strip_comment_from in_single in_double (c ∷ t) =
    let single = if c == b'\'' && not in_double then not in_single else in_single in
    let double = if c == b'"' && not in_single then not in_double else in_double in
    let rest = strip_comment_from single double t in
    if c == b'#' && not in_single && not in_double then [] else c ∷ rest

abbrev pub strip_comment : Text → Text
strip_comment line = strip_comment_from false false line

abbrev pub is_blank : Text → Bool
is_blank line = is_empty (trim line)

abbrev pub is_indent : ℕ → Bool
is_indent c = c == b' ' || c == b'\t'

-- `starts_with([' ', '\t'])`
unfoldable pub is_indented : Text → Bool
is_indented [] = false
is_indented (c ∷ t) = is_indent c

abbrev pub keep_unless : Bool → ℕ → Text → Text
keep_unless test c [] = if test then [] else c ∷ []
keep_unless test c (d ∷ t) = c ∷ d ∷ t

-- `trim_end_matches(':')`
unfoldable pub trim_colons : Text → Text
trim_colons [] = []
trim_colons (c ∷ t) = keep_unless (c == b':') c (trim_colons t)

-- `ends_with(':')`
unfoldable pub ends_with_colon : Text → Bool
ends_with_colon [] = false
ends_with_colon (c ∷ []) = c == b':'
ends_with_colon (c ∷ d ∷ t) = ends_with_colon (d ∷ t)

abbrev pub is_quote : ℕ → Bool
is_quote c = c == b'"' || c == b'\''

unfoldable pub trim_quotes_start : Text → Text
trim_quotes_start [] = []
trim_quotes_start (c ∷ t) = if is_quote c then trim_quotes_start t else c ∷ t

unfoldable pub trim_quotes_end : Text → Text
trim_quotes_end [] = []
trim_quotes_end (c ∷ t) = keep_unless (is_quote c) c (trim_quotes_end t)

-- Whether a line at column zero opens the section.
unfoldable pub is_header : Text → Text → Bool
unfolding trim_colons ends_with_colon
is_header section line =
    let header = trim_end line in text_eq (trim_colons header) section && ends_with_colon header

-- What `lookup` returns for the text after `key:`; an empty value counts as unset.
unfoldable pub setting_value : Text → Option Text
unfolding trim_quotes_start trim_quotes_end
setting_value text =
    let value = trim_quotes_end (trim_quotes_start (trim text)) in
    if is_empty value then none else some value

-- What the loop of `lookup` returns at a line, if it returns there.
unfoldable pub setting_at : Text → Bool → Text → Option (Option Text)
unfolding is_indented setting_value
setting_at key in_section line =
    if is_blank line || not (is_indented line) || not in_section
    then none
    else map_option setting_value (strip_prefix (trim line) (key ++ b':' ∷ []))

-- The flag `in_section` after a line.
unfoldable pub section_after : Text → Bool → Text → Bool
unfolding is_indented is_header
section_after section in_section line =
    if is_blank line || is_indented line then in_section else is_header section line

-- The loop of `lookup`.
unfoldable pub lookup_lines : Text → Text → Bool → List Text → Option Text
unfolding setting_at section_after
lookup_lines section key in_section [] = none
lookup_lines section key in_section (raw ∷ rest) =
    let line = strip_comment raw in
    elim (setting_at key in_section line) [
      | some value ↦ value
      | none ↦ lookup_lines section key (section_after section in_section line) rest
    ]

unfoldable pub lookup : Text → Text → Text → Option Text
unfolding lookup_lines lines_from
lookup body section key = lookup_lines section key false (lines body)

unfoldable pub parse_runtime_configuration : Text → RuntimeConfiguration
unfolding lookup
parse_runtime_configuration body = record {
  openai_runtime = lookup body (codes "model") (codes "openai_runtime");
  approvals_mode = lookup body (codes "approvals") (codes "mode");
}
