-- ===== src/Text/Bounds.antt =====
-- Facts about the byte length of texts and their prefixes.
use asterism.Prelude.{
  ℕ, ◌+◌, ◌-◌, ◌≤◌, ◌≡◌, refl, ◌↔◌, true, [], ◌∷◌, ◌++◌, arith, leb, Bool-cases, inl, inr, ap,
}
use asterism.Text.{Text, utf8_len, byte_len, text_eq, is_char_boundary, prefix_bytes}

pub utf8_len_bounds : (c : ℕ) → (1 ≤ utf8_len c) × (utf8_len c ≤ 4)
unfolding utf8_len
utf8_len_bounds c = ground arith

pub byte_len-append : (s t : Text) → byte_len (s ++ t) ≡ byte_len s + byte_len t
unfolding byte_len
byte_len-append [] t = omega arith
byte_len-append (c ∷ s) t = omega (arith, byte_len-append s t)

pub is_char_boundary-zero : (t : Text) → is_char_boundary t 0 ≡ true
unfolding is_char_boundary
is_char_boundary-zero [] = refl
is_char_boundary-zero (c ∷ t) = refl

-- A prefix cut at a character boundary has exactly the bytes asked for.
pub byte_len-prefix_bytes :
    (t : Text) (n : ℕ) → is_char_boundary t n ≡ true → byte_len (prefix_bytes t n) ≡ n
unfolding byte_len prefix_bytes is_char_boundary
byte_len-prefix_bytes [] n h = ground arith
byte_len-prefix_bytes (c ∷ t) n h =
    ground (arith, byte_len-prefix_bytes t (n - utf8_len c), utf8_len_bounds c)

pub byte_len-prefix_bytes_le : (t : Text) (n : ℕ) → byte_len (prefix_bytes t n) ≤ n
unfolding byte_len prefix_bytes
byte_len-prefix_bytes_le [] n = omega arith
byte_len-prefix_bytes_le (c ∷ t) n = ground (arith, byte_len-prefix_bytes_le t (n - utf8_len c))

-- What `prefix_bytes` keeps is the start of the text.
pub prefix_bytes-split : (t : Text) (n : ℕ) → (rest : Text) × (prefix_bytes t n ++ rest ≡ t)
unfolding prefix_bytes
prefix_bytes-split [] n = ([], refl)
prefix_bytes-split (c ∷ t) n = elim (Bool-cases (leb (utf8_len c) n)) [
  | inl fits ↦
      let (rest, e) = prefix_bytes-split t (n - utf8_len c) in (rest, rw fits (ap (λ s. c ∷ s) e))
  | inr over ↦ (c ∷ t, rw over)
]

pub text_eq_iff : (s t : Text) → (text_eq s t ≡ true) ↔ (s ≡ t)
unfolding text_eq
text_eq_iff [] [] = ground arith
text_eq_iff [] (d ∷ t) = ground arith
text_eq_iff (c ∷ s) [] = ground arith
text_eq_iff (c ∷ s) (d ∷ t) = ground (arith, text_eq_iff s t)
