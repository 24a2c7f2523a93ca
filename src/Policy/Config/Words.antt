-- ===== src/Policy/Config/Words.antt =====
-- What the text operations of the reader do to words, and to the lines that are made of words.
use asterism.Prelude.{
  ℕ, ◌≡◌, refl, sym, ap, ◌∙◌, Bool, true, false, not, ◌||◌, some, [], ◌∷◌, ◌++◌, ◌==◌, arith,
  any_row,
}
use asterism.Text.{
  Text, strip_prefix, trim, trim_start, trim_end, keep_unless_blank, is_whitespace, starts_with,
}
use asterism.Text.Bounds.{text_eq_iff}
use asterism.Sse.{is_empty}
use asterism.Policy.Config.{
  strip_comment_from, is_indent, is_indented, is_quote, keep_unless, trim_colons, ends_with_colon,
  trim_quotes_start, trim_quotes_end, is_header, is_blank, setting_value,
}
use asterism.Sse.Render.{append-append}

abbrev pub is_mark : ℕ → Bool
is_mark c = is_quote c || c == b'#'

abbrev pub is_special : ℕ → Bool
is_special c = is_whitespace c || is_mark c

-- A word: at least one character, and no blank, quote or comment sign.
abbrev pub IsWord : Text → Type 0
IsWord t = (is_empty t ≡ false) × (any_row is_special t ≡ false)

pub any_row-append : (p : ℕ → Bool) (s t : Text) → any_row p (s ++ t) ≡ any_row p s || any_row p t
any_row-append p [] t = refl
any_row-append p (c ∷ s) t = ground (arith, any_row-append p s t)

pub no_mark : (t : Text) → any_row is_special t ≡ false → any_row is_mark t ≡ false
no_mark [] h = refl
no_mark (c ∷ t) h = ground (arith, no_mark t)

pub no_space : (t : Text) → any_row is_special t ≡ false → any_row is_whitespace t ≡ false
no_space [] h = refl
no_space (c ∷ t) h = ground (arith, no_space t)

pub strip_comment-unmarked :
    (t : Text) → any_row is_mark t ≡ false → strip_comment_from false false t ≡ t
unfolding strip_comment_from
strip_comment-unmarked [] h = refl
strip_comment-unmarked (c ∷ t) h = ground (arith, strip_comment-unmarked t)

pub strip_prefix-append : (p t : Text) → strip_prefix (p ++ t) p ≡ some t
unfolding strip_prefix
strip_prefix-append [] t = refl
strip_prefix-append (c ∷ p) t = ground (arith, strip_prefix-append p t)

pub starts_with-append : (p t : Text) → starts_with (p ++ t) p ≡ true
unfolding starts_with
starts_with-append [] t = refl
starts_with-append (c ∷ p) t = ground (arith, starts_with-append p t)

trim_end-unspaced : (t : Text) → any_row is_whitespace t ≡ false → trim_end t ≡ t
unfolding trim_end
trim_end-unspaced [] h = refl
trim_end-unspaced (c ∷ []) h = ground arith
trim_end-unspaced (c ∷ d ∷ t) h =
    ap (keep_unless_blank c) (trim_end-unspaced (d ∷ t) (ground (arith, h)))

keep_unless_blank-append :
    (d : ℕ) (s : Text) (c : ℕ) (t : Text) → keep_unless_blank d (s ++ c ∷ t) ≡ d ∷ (s ++ c ∷ t)
keep_unless_blank-append d [] c t = refl
keep_unless_blank-append d (e ∷ s) c t = refl

trim_end-append :
    (s : Text) (c : ℕ) (t : Text) → trim_end (c ∷ t) ≡ c ∷ t → trim_end (s ++ c ∷ t) ≡ s ++ c ∷ t
unfolding trim_end
trim_end-append [] c t h = h
trim_end-append (d ∷ s) c t h =
    ap (keep_unless_blank d) (trim_end-append s c t h) ∙ keep_unless_blank-append d s c t

-- Blanks after the last word are the only ones that are trimmed at the end.
pub trim_end-word : (s w : Text) → IsWord w → trim_end (s ++ w) ≡ s ++ w
trim_end-word s [] (h, k) = ground (arith, h)
trim_end-word s (c ∷ w) (h, k) =
    trim_end-append s c w (trim_end-unspaced (c ∷ w) (no_space (c ∷ w) k))

pub trim_start-word : (w t : Text) → IsWord w → trim_start (w ++ t) ≡ w ++ t
unfolding trim_start
trim_start-word [] t (h, k) = ground (arith, h)
trim_start-word (c ∷ w) t (h, k) = ground (arith, k)

-- Spaces and tabs, at least one of them.
abbrev pub IsIndent : Text → Type 0
IsIndent t = (is_empty t ≡ false) × (any_row (λ c. not (is_indent c)) t ≡ false)

space-indent : (c : ℕ) → is_indent c ≡ true → is_whitespace c ≡ true
unfolding is_whitespace
space-indent c h = ground arith

trim_start-blanks :
    (s t : Text) → any_row (λ c. not (is_indent c)) s ≡ false → trim_start (s ++ t) ≡ trim_start t
unfolding trim_start
trim_start-blanks [] t h = refl
trim_start-blanks (c ∷ s) t h = ground (arith, space-indent c, trim_start-blanks s t)

unmarked-blanks :
    (s : Text) → any_row (λ c. not (is_indent c)) s ≡ false → any_row is_mark s ≡ false
unmarked-blanks [] h = refl
unmarked-blanks (c ∷ s) h = ground (arith, unmarked-blanks s)

pub is_indented-IsIndent : (s t : Text) → IsIndent s → is_indented (s ++ t) ≡ true
unfolding is_indented
is_indented-IsIndent [] t (h, k) = ground (arith, h)
is_indented-IsIndent (c ∷ s) t (h, k) = ground (arith, k)

pub is_indented-word : (w t : Text) → IsWord w → is_indented (w ++ t) ≡ false
unfolding is_indented is_whitespace
is_indented-word [] t (h, k) = ground (arith, h)
is_indented-word (c ∷ w) t (h, k) = ground (arith, k)

-- An indented line that begins and ends with a word.
pub trim-indented :
    (indent w s v : Text)
    → IsIndent indent
    → IsWord w
    → IsWord v
    → trim (indent ++ (w ++ (s ++ v))) ≡ w ++ (s ++ v)
unfolding trim
trim-indented indent w s v (i, j) h k =
    ap trim_end (trim_start-blanks indent (w ++ (s ++ v)) j ∙ trim_start-word w (s ++ v) h)
    ∙ (ap trim_end (sym (append-append w s v)) ∙ (trim_end-word (w ++ s) v k ∙ append-append w s v))

pub unmarked-indented :
    (indent w s v : Text)
    → IsIndent indent
    → IsWord w
    → any_row is_mark s ≡ false
    → IsWord v
    → any_row is_mark (indent ++ (w ++ (s ++ v))) ≡ false
unmarked-indented indent w s v (i, j) (h, h') m (k, k') = ground (
  arith,
  any_row-append is_mark indent (w ++ (s ++ v)),
  any_row-append is_mark w (s ++ v),
  any_row-append is_mark s v,
  unmarked-blanks indent j,
  no_mark w h',
  no_mark v k',
)

trim_quotes_start-word : (w : Text) → IsWord w → trim_quotes_start w ≡ w
unfolding trim_quotes_start
trim_quotes_start-word [] (h, k) = refl
trim_quotes_start-word (c ∷ w) (h, k) = ground (arith, k)

trim_quotes_end-unmarked : (t : Text) → any_row is_mark t ≡ false → trim_quotes_end t ≡ t
unfolding trim_quotes_end
trim_quotes_end-unmarked [] h = refl
trim_quotes_end-unmarked (c ∷ []) h = ground arith
trim_quotes_end-unmarked (c ∷ d ∷ t) h =
    ap (keep_unless (is_quote c) c) (trim_quotes_end-unmarked (d ∷ t) (ground (arith, h)))

-- A word after one space is the value that is read.
pub setting_value-word : (w : Text) → IsWord w → setting_value (b' ' ∷ w) ≡ some w
unfolding setting_value trim trim_start
setting_value-word w (h, k) =
    let trimmed = ap trim_end (lone w (h, k)) ∙ trim_end-word [] w (h, k) in
    rw (trimmed, trim_quotes_start-word w (h, k), trim_quotes_end-unmarked w (no_mark w k), h)
  where
    lone : (w : Text) → IsWord w → trim_start w ≡ w
    lone [] h = refl
    lone (c ∷ w) (h, k) = ground (arith, k)

abbrev pub has_colon : Text → Bool
has_colon t = any_row (λ c. c == b':') t

ends_with_colon-snoc : (s : Text) → ends_with_colon (s ++ b':' ∷ []) ≡ true
unfolding ends_with_colon
ends_with_colon-snoc [] = refl
ends_with_colon-snoc (c ∷ []) = refl
ends_with_colon-snoc (c ∷ d ∷ s) = ends_with_colon-snoc (d ∷ s)

trim_colons-snoc : (s : Text) → has_colon s ≡ false → trim_colons (s ++ b':' ∷ []) ≡ s
unfolding trim_colons
trim_colons-snoc [] h = refl
trim_colons-snoc (c ∷ []) h = ground arith
trim_colons-snoc (c ∷ d ∷ s) h =
    ap (keep_unless (c == b':') c) (trim_colons-snoc (d ∷ s) (ground (arith, h)))

-- A word with a colon after it is a header.
pub is_header-word :
    (w : Text) → IsWord w → has_colon w ≡ false → is_header w (w ++ b':' ∷ []) ≡ true
unfolding is_header is_whitespace
is_header-word w h k =
    let whole = trim_end-word w (b':' ∷ []) (refl, refl) in
    rw (whole, ends_with_colon-snoc w, trim_colons-snoc w k, (text_eq_iff w w).1 refl)

pub is_blank-word : (w t : Text) → IsWord w → is_blank (w ++ t) ≡ false
unfolding trim trim_end
is_blank-word [] t (h, k) = ground (arith, h)
is_blank-word (c ∷ w) t h = rw (trim_start-word (c ∷ w) t h) (ground (arith, h.1))
