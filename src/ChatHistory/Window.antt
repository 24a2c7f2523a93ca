-- ===== src/ChatHistory/Window.antt =====
-- Which turns are sent: the window is as large as the limits allow.
use mathlib.Core.Path.{subst}
use asterism.Prelude.{
  ℕ, zero, suc, ◌+◌, ◌-◌, ◌≤◌, ◌<◌, ◌≡◌, refl, sym, ap, ◌∙◌, true, inl, inr, ◌⊎◌, List, [], ◌∷◌,
  arith, ltb, Bool-cases, length,
}
use asterism.ChatHistory.{
  Turn, HistoryLimits, EncodedLength, serialized_bytes, messages_of, drop_turns, drop_to_fit,
  window,
}

-- Turns that both limits admit; no turns are admitted whatever the limit in bytes is.
abbrev pub IsFit : EncodedLength → HistoryLimits → List Turn → Type 0
IsFit encoded limits turns =
    (length turns ≤ limits.max_turns)
    × ((turns ≡ []) ⊎ (serialized_bytes encoded turns ≤ limits.max_bytes))

-- What the loop drops: `d` turns, as few as possible.
abbrev Dropped : EncodedLength → ℕ → List Turn → ℕ → List Turn × ℕ → Type 0
Dropped encoded max_bytes turns omitted (kept, total) =
    (d : ℕ) × (total ≡ omitted + d)
    × (kept ≡ drop_turns d turns)
    × (d ≤ length turns)
    × ((kept ≡ []) ⊎ (serialized_bytes encoded kept ≤ max_bytes))
    × ((k : ℕ) → k < d → max_bytes < serialized_bytes encoded (drop_turns k turns))

drop_to_fit-Dropped :
    (encoded : EncodedLength) (max_bytes : ℕ) (turns : List Turn) (omitted : ℕ)
    → Dropped encoded max_bytes turns omitted (drop_to_fit encoded max_bytes turns omitted)
unfolding drop_to_fit
drop_to_fit-Dropped encoded max_bytes [] omitted =
    (0, omega arith, refl, omega arith, inl refl, λ k h. absurd (omega (arith, h)))
drop_to_fit-Dropped encoded max_bytes (t ∷ rest) omitted =
    elim (Bool-cases (ltb max_bytes (serialized_bytes encoded (t ∷ rest)))) [
      | inl long ↦
          let (d, total, kept, few, fits, least) =
            drop_to_fit-Dropped encoded max_bytes rest (suc omitted) in
          rw (long, drop_to_fit)
            (
              suc d,
              omega (arith, total),
              kept,
              omega (arith, few),
              fits,
              least_more encoded max_bytes t rest d long least,
            )
      | inr short ↦
          rw (short, drop_to_fit)
            (
              0,
              omega arith,
              refl,
              omega arith,
              inr (ground (arith, short)),
              λ k h. absurd (omega (arith, h)),
            )
    ]
  where
    least_more :
        (encoded : EncodedLength) (max_bytes : ℕ) (t : Turn) (rest : List Turn) (d : ℕ)
        → ltb max_bytes (serialized_bytes encoded (t ∷ rest)) ≡ true
        → ((k : ℕ) → k < d → max_bytes < serialized_bytes encoded (drop_turns k rest))
        → (k : ℕ) → k < suc d
        → max_bytes < serialized_bytes encoded (drop_turns k (t ∷ rest))
    least_more encoded max_bytes t rest d long least zero h = ground (arith, long)
    least_more encoded max_bytes t rest d long least (suc k) h = least k (omega (arith, h))

drop_turns-nil : (n : ℕ) → drop_turns n [] ≡ []
drop_turns-nil zero = refl
drop_turns-nil (suc n) = refl

drop_turns-drop_turns :
    (m n : ℕ) (turns : List Turn) → drop_turns n (drop_turns m turns) ≡ drop_turns (m + n) turns
drop_turns-drop_turns zero n turns = ap (λ k. drop_turns k turns) (omega arith)
drop_turns-drop_turns (suc m) n [] = drop_turns-nil n ∙ sym (drop_turns-nil (suc m + n))
drop_turns-drop_turns (suc m) n (t ∷ rest) =
    drop_turns-drop_turns m n rest ∙ ap (λ k. drop_turns k (t ∷ rest)) (suc_sum m n)
  where
    suc_sum : (m n : ℕ) → suc (m + n) ≡ suc m + n
    suc_sum m n = omega arith

length-drop_turns : (n : ℕ) (turns : List Turn) → length (drop_turns n turns) ≡ length turns - n
length-drop_turns zero turns = omega arith
length-drop_turns (suc n) [] = omega arith
length-drop_turns (suc n) (t ∷ rest) = omega (arith, length-drop_turns n rest)

length-nonempty : (turns : List Turn) → 0 < length turns → ¬ (turns ≡ [])
length-nonempty turns h e = omega (arith, h, ap length e)

-- Fewer turns dropped are too many turns, or too many bytes.
too_few_dropped :
    (encoded : EncodedLength) (limits : HistoryLimits) (turns : List Turn) (over d k : ℕ)
    → over ≡ length turns - limits.max_turns
    → d ≤ length (drop_turns over turns)
    → ((j : ℕ)
        → j < d
        → limits.max_bytes < serialized_bytes encoded (drop_turns j (drop_turns over turns)))
    → k < over + d
    → ¬ IsFit encoded limits (drop_turns k turns)
too_few_dropped encoded limits turns over d k excess few least h (short, light) =
    elim (cases k over) [
      | inl before ↦ omega (arith, before, excess, short, length-drop_turns k turns)
      | inr (j, same) ↦
          let whole =
            drop_turns-drop_turns over j turns ∙ ap (λ n. drop_turns n turns) (sym same) in
          elim light [
            | inl none_left ↦
                length-nonempty (drop_turns k turns)
                  (omega
                    (arith, same, h, few, length-drop_turns k turns, length-drop_turns over turns))
                  none_left
            | inr small ↦ omega (
              arith,
              small,
              subst (λ l. limits.max_bytes < serialized_bytes encoded l) whole
                  (least j (omega (arith, same, h))),
            )
          ]
    ]
  where
    cases : (k over : ℕ) → (k < over) ⊎ ((j : ℕ) × (k ≡ over + j))
    cases k over = elim (Bool-cases (ltb k over)) [
      | inl before ↦ inl (ground (arith, before))
      | inr after ↦ inr (k - over, ground (arith, after))
    ]

-- The history that is sent is the turns that are left when the oldest are dropped, as many as the
-- answer says: they keep within the limit of turns, and within the limit of bytes unless none is
-- left; their size is the size that is reported; and no smaller number of dropped turns would do.
pub window-IsFit :
    (encoded : EncodedLength) (limits : HistoryLimits) (turns : List Turn)
    → let built = window encoded limits turns in
      let kept = drop_turns built.omitted_turns turns in
      (built.messages ≡ messages_of kept)
      × (built.bytes ≡ serialized_bytes encoded kept)
      × (built.omitted_turns ≤ length turns)
      × IsFit encoded limits kept
      × ((k : ℕ) → k < built.omitted_turns → ¬ IsFit encoded limits (drop_turns k turns))
unfolding window
window-IsFit encoded limits turns =
    let over = length turns - limits.max_turns in
    let (d, total, kept, few, fits, least) =
      drop_to_fit-Dropped encoded limits.max_bytes (drop_turns over turns) over in
    let same =
      kept ∙ (drop_turns-drop_turns over d turns ∙ ap (λ n. drop_turns n turns) (sym total)) in
    (
      ap messages_of same,
      ap (serialized_bytes encoded) same,
      omega (arith, total, few, length-drop_turns over turns),
      (
        omega (
          arith,
          total,
          length-drop_turns (drop_to_fit encoded limits.max_bytes (drop_turns over turns) over).1
              turns,
        ),
        subst (λ l. (l ≡ []) ⊎ (serialized_bytes encoded l ≤ limits.max_bytes)) same fits,
      ),
      λ k h. too_few_dropped encoded limits turns over d k refl few least (omega (arith, total, h)),
    )
