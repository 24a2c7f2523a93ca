-- ===== src/Redact/Strings.antt =====
-- src/redact.rs, `bound_string`: long texts are cut at a character boundary and marked.
use asterism.Prelude.{
  ℕ, zero, suc, ◌+◌, ◌*◌, ◌≤◌, ◌<◌, ◌≡◌, refl, Bool, true, false, inl, inr, ◌++◌, arith, leb,
  if◌then◌else◌, Bool-cases,
}
use asterism.Text.{Text, codes, byte_len, is_char_boundary, prefix_bytes}
use asterism.Text.Bounds.{
  byte_len-append, byte_len-prefix_bytes, prefix_bytes-split, is_char_boundary-zero,
}

abbrev pub max_string_bytes : ℕ
max_string_bytes = 8 * 1024

-- `while end > 0 && !text.is_char_boundary(end) { end -= 1; }`
unfoldable pub cut_end : Text → ℕ → ℕ
cut_end text zero = zero
cut_end text (suc e) = if is_char_boundary text (suc e) then suc e else cut_end text e

abbrev pub marker : Text
marker = codes "…[truncated]"

unfoldable pub bound_string : Text → Bool → Text × Bool
bound_string text modified =
    if leb (byte_len text) max_string_bytes
    then (text, modified)
    else (prefix_bytes text (cut_end text max_string_bytes) ++ marker, true)

module _ (text : Text) where
  cut_end-le : (e : ℕ) → cut_end text e ≤ e
  unfolding cut_end
  cut_end-le zero = omega arith
  cut_end-le (suc e) = ground (arith, cut_end-le e)

  -- The loop stops at a character boundary, so the slice after it is in range.
  pub is_char_boundary-cut_end : (e : ℕ) → is_char_boundary text (cut_end text e) ≡ true
  unfolding cut_end
  is_char_boundary-cut_end zero = is_char_boundary-zero text
  is_char_boundary-cut_end (suc e) = ground (arith, is_char_boundary-cut_end e)

-- What a text becomes: itself, or a start of it that ends at a character boundary, with the marker
-- behind it.
pub data Bounded (text : Text) : Text → Type 0 where
  kept : byte_len text ≤ max_string_bytes → Bounded text text
  cut :
      (start rest : Text)
      → max_string_bytes < byte_len text
      → start ++ rest ≡ text
      → byte_len start ≤ max_string_bytes
      → Bounded text (start ++ marker)

pub bound_string-Bounded : (text : Text) (m : Bool) → Bounded text (bound_string text m).0
unfolding bound_string
bound_string-Bounded text m = elim (Bool-cases (leb (byte_len text) max_string_bytes)) [
  | inl short ↦ rw short (kept (ground arith))
  | inr long ↦
      let n = cut_end text max_string_bytes in
      let (rest, split) = prefix_bytes-split text n in
      let fits : n ≤ max_string_bytes = cut_end-le text max_string_bytes in
      let size : byte_len (prefix_bytes text n) ≡ n =
        byte_len-prefix_bytes text n (is_char_boundary-cut_end text max_string_bytes) in
      rw long (cut (prefix_bytes text n) rest (ground arith) split (omega arith))
]

byte_len-marker : byte_len marker ≡ 14
unfolding byte_len
byte_len-marker = refl

-- A journalled text has at most `max_string_bytes` bytes and those of the marker.
pub bound_string-le :
    (text : Text) (m : Bool) → byte_len (bound_string text m).0 ≤ max_string_bytes + 14
bound_string-le text m = size (bound_string-Bounded text m)
  where
    size : {t : Text} → Bounded text t → byte_len t ≤ max_string_bytes + 14
    size (kept h) = omega arith
    size (cut start rest long e h) = omega (arith, byte_len-append start marker, byte_len-marker)

-- A text that is not reported as modified is the same text.
pub bound_string-unmodified :
    (text : Text) (m : Bool)
    → (bound_string text m).1 ≡ false
    → ((bound_string text m).0 ≡ text) × (m ≡ false)
unfolding bound_string
bound_string-unmodified text m h = elim (Bool-cases (leb (byte_len text) max_string_bytes)) [
  | inl short ↦ rw short (refl, rw short at h)
  | inr long ↦ cc (rw long at h)
]
