-- ===== src/Policy/Config/Written.antt =====
-- src/policy.rs: `set_setting`, the writer of a setting.
use asterism.Prelude.{Bool, true, false, not, ◌&&◌, ◌||◌, List, [], ◌∷◌, ◌++◌, if◌then◌else◌}
use asterism.Text.{Text, starts_with, trim, join_lines}
use asterism.Policy.Config.{lines, strip_comment, is_blank, is_indent, is_indented, is_header}

-- The variables of the loop.
pub record Writer : Type 0 where
  pub out : List Text
  pub in_section : Bool
  pub wrote : Bool
  pub section_seen : Bool
  pub section_indent : Text

abbrev pub new_writer : Writer
new_writer = record {
  out = [];
  in_section = false;
  wrote = false;
  section_seen = false;
  section_indent = b' ' ∷ b' ' ∷ [];
}

-- `format!("{section_indent}{key}: {value}")`
unfoldable pub setting_line : Text → Text → Text → Text
setting_line indent key value = indent ++ (key ++ b':' ∷ b' ' ∷ value)

abbrev pub push_line : Text → Writer → Writer
push_line line w = record w { out = w.out ++ line ∷ [] }

abbrev pub push_setting : Text → Text → Writer → Writer
push_setting key value w = record w {
  out = w.out ++ setting_line w.section_indent key value ∷ [];
  wrote = true;
}

-- The spaces and tabs at the head of a line.
unfoldable pub indent_of : Text → Text
indent_of [] = []
indent_of (c ∷ t) = if is_indent c then c ∷ indent_of t else []

-- The branch for a line at column zero.
unfoldable pub write_header : Text → Text → Text → Text → Writer → Writer
write_header section key value raw w =
    let w₁ = if w.in_section && not w.wrote then push_setting key value w else w in
    let opens = is_header section (strip_comment raw) in
    record w₁ {
      in_section = opens;
      section_seen = w₁.section_seen || opens;
      out = w₁.out ++ raw ∷ [];
    }

-- The branch for a line inside the section, the setting not written yet.
unfoldable pub write_child : Text → Text → Text → Writer → Writer
unfolding indent_of
write_child key value raw w =
    let line = strip_comment raw in
    let w₁ = if is_blank line then w else record w { section_indent = indent_of line } in
    if starts_with (trim line) (key ++ b':' ∷ [])
    then push_setting key value w₁
    else push_line raw w₁

-- One turn of the loop.
unfoldable pub write_line : Text → Text → Text → Text → Writer → Writer
unfolding write_header write_child
write_line section key value raw w =
    let line = strip_comment raw in
    if not (is_blank line) && not (is_indented line)
    then write_header section key value raw w
    else if w.in_section && not w.wrote
    then write_child key value raw w
    else push_line raw w

unfoldable pub write_lines : Text → Text → Text → List Text → Writer → Writer
unfolding write_line
write_lines section key value [] w = w
write_lines section key value (raw ∷ rest) w =
    write_lines section key value rest (write_line section key value raw w)

-- What follows the loop.
unfoldable pub complete : Text → Text → Text → Writer → List Text
complete section key value w =
    if w.wrote
    then w.out
    else (if w.section_seen then w.out else w.out ++ (section ++ b':' ∷ []) ∷ [])
      ++ setting_line w.section_indent key value ∷ []

unfoldable pub set_lines : List Text → Text → Text → Text → List Text
unfolding write_lines complete
set_lines body section key value =
    complete section key value (write_lines section key value body new_writer)

unfoldable pub set_setting : Text → Text → Text → Text → Text
unfolding set_lines join_lines
set_setting body section key value =
    join_lines (set_lines (lines body) section key value) ++ b'\n' ∷ []
