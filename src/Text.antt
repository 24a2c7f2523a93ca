-- ===== src/Text.antt =====
-- Rust's `str` as the list of its Unicode scalar values, with the methods of the standard library
-- that the code uses. Lengths are those of the UTF-8 encoding, as `str::len` counts.
pub mod Bounds
pub mod Trim
use Prim.Native.Char.{code}
use asterism.Prelude.{
  ℕ, zero, suc, ◌+◌, ◌-◌, String, Bool, true, false, not, ◌&&◌, ◌||◌, Option, none, some, List, [],
  ◌∷◌, ◌++◌, map, ltb, leb, ◌==◌, if◌then◌else◌, any_row, where_rows,
}

abbrev pub Text : Type 0
Text = List ℕ

abbrev pub codes : String → Text
codes String.[] = []
codes (String.◌∷◌ c s) = code c ∷ codes s

-- The bytes that UTF-8 takes for one character.
unfoldable pub utf8_len : ℕ → ℕ
utf8_len c = if ltb c 0x80 then 1 else if ltb c 0x800 then 2 else if ltb c 0x10000 then 3 else 4

-- `str::len`
unfoldable pub byte_len : Text → ℕ
unfolding utf8_len
byte_len [] = 0
byte_len (c ∷ t) = utf8_len c + byte_len t

unfoldable pub text_eq : Text → Text → Bool
text_eq [] [] = true
text_eq (c ∷ s) (d ∷ t) = c == d && text_eq s t
text_eq _ _ = false

unfoldable pub starts_with : Text → Text → Bool
starts_with t [] = true
starts_with [] (p ∷ ps) = false
starts_with (c ∷ t) (p ∷ ps) = c == p && starts_with t ps

unfoldable pub strip_prefix : Text → Text → Option Text
strip_prefix t [] = some t
strip_prefix [] (p ∷ ps) = none
strip_prefix (c ∷ t) (p ∷ ps) = if c == p then strip_prefix t ps else none

-- `str::contains` with a text pattern.
unfoldable pub contains : Text → Text → Bool
unfolding starts_with
contains [] p = starts_with [] p
contains (c ∷ t) p = starts_with (c ∷ t) p || contains t p

-- The property White_Space of Unicode, which `char::is_whitespace` tests.
unfoldable pub is_whitespace : ℕ → Bool
is_whitespace c =
    (leb 9 c && leb c 13)
    || c == 0x20
    || c == 0x85
    || c == 0xA0
    || c == 0x1680
    || (leb 0x2000 c && leb c 0x200A)
    || c == 0x2028
    || c == 0x2029
    || c == 0x202F
    || c == 0x205F
    || c == 0x3000

unfoldable pub trim_start : Text → Text
unfolding is_whitespace
trim_start [] = []
trim_start (c ∷ t) = if is_whitespace c then trim_start t else c ∷ t

-- `t` with the character `c` before it, unless both are blank.
abbrev pub keep_unless_blank : ℕ → Text → Text
keep_unless_blank c [] = if is_whitespace c then [] else c ∷ []
keep_unless_blank c (d ∷ t) = c ∷ d ∷ t

unfoldable pub trim_end : Text → Text
unfolding is_whitespace
trim_end [] = []
trim_end (c ∷ t) = keep_unless_blank c (trim_end t)

unfoldable pub trim : Text → Text
unfolding trim_start trim_end
trim t = trim_end (trim_start t)

unfoldable pub is_ascii_alphanumeric : ℕ → Bool
is_ascii_alphanumeric c =
    (leb b'0' c && leb c b'9') || (leb b'A' c && leb c b'Z') || (leb b'a' c && leb c b'z')

unfoldable pub to_ascii_lowercase : ℕ → ℕ
to_ascii_lowercase c = if leb b'A' c && leb c b'Z' then c + 32 else c

-- `str::is_char_boundary`
unfoldable pub is_char_boundary : Text → ℕ → Bool
unfolding utf8_len
is_char_boundary [] n = n == 0
is_char_boundary (c ∷ t) n = n == 0 || (leb (utf8_len c) n && is_char_boundary t (n - utf8_len c))

-- `&text[..n]`, for `n` a character boundary.
unfoldable pub prefix_bytes : Text → ℕ → Text
unfolding utf8_len
prefix_bytes [] n = []
prefix_bytes (c ∷ t) n = if leb (utf8_len c) n then c ∷ prefix_bytes t (n - utf8_len c) else []

abbrev pub cons_first : ℕ → Option (Text × Text) → Option (Text × Text)
cons_first d none = none
cons_first d (some (s, t)) = some (d ∷ s, t)

-- `str::split_once` at a character: what stands before and after its first occurrence.
unfoldable pub split_once : ℕ → Text → Option (Text × Text)
split_once c [] = none
split_once c (d ∷ t) = if d == c then some ([], t) else cons_first d (split_once c t)

-- `join("\n")`
unfoldable pub join_lines : List Text → Text
join_lines [] = []
join_lines (l ∷ []) = l
join_lines (l ∷ m ∷ ls) = l ++ b'\n' ∷ join_lines (m ∷ ls)

-- `str::ends_with` with a text pattern.
unfoldable pub ends_with : Text → Text → Bool
unfolding text_eq
ends_with [] p = text_eq [] p
ends_with (c ∷ t) p = text_eq (c ∷ t) p || ends_with t p

-- `str::split_once` at a text: what stands before and after its first occurrence.
unfoldable pub split_text : Text → Text → Option (Text × Text)
unfolding strip_prefix
split_text p [] = none
split_text p (c ∷ t) = elim (strip_prefix (c ∷ t) p) [
  | some rest ↦ some ([], rest)
  | none ↦ cons_first c (split_text p t)
]

-- The first part of `str::split` at any of several characters.
unfoldable pub take_until : (ℕ → Bool) → Text → Text
take_until p [] = []
take_until p (c ∷ t) = if p c then [] else c ∷ take_until p t

abbrev pub is_nil : Text → Bool
is_nil [] = true
is_nil (c ∷ t) = false

-- `str::split_whitespace`, from a word that has begun
unfoldable pub words_from : Text → Text → List Text
unfolding is_whitespace
words_from [] [] = []
words_from (b ∷ begun) [] = (b ∷ begun) ∷ []
words_from begun (c ∷ t) =
    let rest = words_from (if is_whitespace c then [] else begun ++ c ∷ []) t in
    if is_whitespace c && not (is_nil begun) then begun ∷ rest else rest

unfoldable pub split_whitespace : Text → List Text
unfolding words_from
split_whitespace t = words_from [] t
