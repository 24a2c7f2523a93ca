-- ===== src/Text/Trim.antt =====
-- `str::trim` leaves a text that is trimmed.
use asterism.Prelude.{ℕ, ◌≡◌, refl, ap, ◌∙◌, Bool, true, not, [], ◌∷◌, arith}
use asterism.Text.{Text, is_whitespace, trim_start, trim_end, trim, keep_unless_blank}

-- A text that does not begin with a blank.
abbrev begins_solid : Text → Bool
begins_solid [] = true
begins_solid (c ∷ t) = not (is_whitespace c)

trim_start-begins_solid : (t : Text) → begins_solid (trim_start t) ≡ true
unfolding trim_start
trim_start-begins_solid [] = refl
trim_start-begins_solid (c ∷ t) = ground (arith, trim_start-begins_solid t)

trim_start-solid : (t : Text) → begins_solid t ≡ true → trim_start t ≡ t
unfolding trim_start
trim_start-solid [] h = refl
trim_start-solid (c ∷ t) h = ground arith

keep_unless_blank-solid :
    (c : ℕ) (t : Text) → not (is_whitespace c) ≡ true → begins_solid (keep_unless_blank c t) ≡ true
keep_unless_blank-solid c [] h = ground arith
keep_unless_blank-solid c (d ∷ t) h = h

trim_end-begins_solid : (t : Text) → begins_solid t ≡ true → begins_solid (trim_end t) ≡ true
unfolding trim_end
trim_end-begins_solid [] h = refl
trim_end-begins_solid (c ∷ t) h = keep_unless_blank-solid c (trim_end t) h

trim_end-again : (t : Text) → trim_end (trim_end t) ≡ trim_end t
unfolding trim_end
trim_end-again [] = refl
trim_end-again (c ∷ t) = kept (trim_end t) (trim_end-again t)
  where
    kept : (u : Text) → trim_end u ≡ u → trim_end (keep_unless_blank c u) ≡ keep_unless_blank c u
    kept [] h = ground arith
    kept (d ∷ u) h = ap (keep_unless_blank c) h

pub trim-again : (t : Text) → trim (trim t) ≡ trim t
unfolding trim
trim-again t =
    ap trim_end (
      trim_start-solid (trim_end (trim_start t))
        (trim_end-begins_solid (trim_start t) (trim_start-begins_solid t)))
    ∙ trim_end-again (trim_start t)
