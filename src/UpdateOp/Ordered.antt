-- ===== src/UpdateOp/Ordered.antt =====
-- The map of `Delivered` in the order of its keys.
use asterism.Prelude.{
  ℕ, ◌≡◌, refl, true, false, ◌&&◌, inl, inr, List, [], ◌∷◌, arith, ltb, if◌then◌else◌, Bool-cases,
}
use asterism.Text.{Text, text_eq}
use asterism.Text.Bounds.{text_eq_iff}
use asterism.Redact.Metadata.{text_ltb}
use asterism.UpdateOp.{acked_seq, raise_acked}

-- The order of texts is a strict linear order.
text_ltb_irreflexive : (t : Text) → text_ltb t t ≡ false
unfolding text_ltb
text_ltb_irreflexive [] = refl
text_ltb_irreflexive (c ∷ t) = ground (arith, text_ltb_irreflexive t)

text_ltb_trans : (r s t : Text) → text_ltb r s ≡ true → text_ltb s t ≡ true → text_ltb r t ≡ true
unfolding text_ltb
text_ltb_trans [] [] t h k = cc
text_ltb_trans [] (d ∷ s) [] h k = cc
text_ltb_trans [] (d ∷ s) (e ∷ t) h k = refl
text_ltb_trans (c ∷ r) [] t h k = cc
text_ltb_trans (c ∷ r) (d ∷ s) [] h k = cc
text_ltb_trans (c ∷ r) (d ∷ s) (e ∷ t) h k = ground (arith, text_ltb_trans r s t)

text_ltb_total : (s t : Text) → text_eq s t ≡ false → text_ltb t s ≡ false → text_ltb s t ≡ true
unfolding text_ltb text_eq
text_ltb_total [] [] h k = cc
text_ltb_total [] (d ∷ t) h k = refl
text_ltb_total (c ∷ s) [] h k = cc
text_ltb_total (c ∷ s) (d ∷ t) h k = ground (arith, text_ltb_total s t)

-- All operations come after this one.
abbrev pub AllAfter : Text → List (Text × ℕ) → Type 0
AllAfter operation [] = Unit
AllAfter operation ((o, seq) ∷ rest) = (text_ltb operation o ≡ true) × AllAfter operation rest

-- A map as `BTreeMap` holds it.
abbrev pub Ordered : List (Text × ℕ) → Type 0
Ordered [] = Unit
Ordered ((o, seq) ∷ rest) = AllAfter o rest × Ordered rest

AllAfter-trans :
    (a b : Text) (l : List (Text × ℕ)) → text_ltb a b ≡ true → AllAfter b l → AllAfter a l
AllAfter-trans a b [] h k = tt
AllAfter-trans a b ((o, seq) ∷ rest) h (k, ks) =
    (text_ltb_trans a b o h k, AllAfter-trans a b rest h ks)

acked_seq-absent :
    (operation : Text) (l : List (Text × ℕ)) → AllAfter operation l → acked_seq operation l ≡ 0
unfolding acked_seq
acked_seq-absent operation [] h = refl
acked_seq-absent operation ((o, seq) ∷ rest) (h, hs) = ground (
  arith,
  text_eq_iff o operation,
  text_ltb_irreflexive operation,
  acked_seq-absent operation rest hs,
)

AllAfter-raise_acked :
    (a o : Text) (seq : ℕ) (l : List (Text × ℕ))
    → text_ltb a o ≡ true
    → AllAfter a l
    → AllAfter a (raise_acked o seq l)
unfolding raise_acked
AllAfter-raise_acked a o seq [] h k = (h, tt)
AllAfter-raise_acked a o seq ((p, s) ∷ rest) h (k, ks) = elim (Bool-cases (text_eq p o)) [
  | inl same ↦ rw (same, raise_acked) (k, ks)
  | inr other ↦ elim (Bool-cases (text_ltb o p)) [
    | inl before ↦ rw (other, before, raise_acked) (h, (k, ks))
    | inr after ↦ rw (other, after, raise_acked) (k, AllAfter-raise_acked a o seq rest h ks)
  ]
]

pub raise_acked-Ordered :
    (o : Text) (seq : ℕ) (l : List (Text × ℕ)) → Ordered l → Ordered (raise_acked o seq l)
unfolding raise_acked
raise_acked-Ordered o seq [] h = (tt, tt)
raise_acked-Ordered o seq ((p, s) ∷ rest) (h, hs) = elim (Bool-cases (text_eq p o)) [
  | inl same ↦ rw (same, raise_acked) (h, hs)
  | inr other ↦ elim (Bool-cases (text_ltb o p)) [
    | inl before ↦
        rw (other, before, raise_acked) ((before, AllAfter-trans o p rest before h), (h, hs))
    | inr after ↦
        rw (other, after, raise_acked)
          (
            AllAfter-raise_acked p o seq rest (text_ltb_total p o other after) h,
            raise_acked-Ordered o seq rest hs,
          )
  ]
]

-- What is acknowledged after an acknowledgement.
pub acked_seq-raise_acked :
    (operation o : Text) (seq : ℕ) (acked : List (Text × ℕ))
    → Ordered acked
    → acked_seq operation (raise_acked o seq acked) ≡ (
        if text_eq o operation && ltb (acked_seq operation acked) seq
        then seq
        else acked_seq operation acked)
unfolding acked_seq raise_acked
acked_seq-raise_acked operation o seq [] h = ground arith
acked_seq-raise_acked operation o seq ((p, s) ∷ acked) (h, hs) =
    elim (Bool-cases (text_eq o operation)) [
      | inr elsewhere ↦ ground (
        arith,
        elsewhere,
        text_eq_iff p o,
        text_eq_iff p operation,
        text_eq_iff o operation,
        acked_seq-raise_acked operation o seq acked hs,
      )
      | inl here ↦ elim (Bool-cases (text_ltb o p)) [
        | inl before ↦
            let gone : acked_seq o ((p, s) ∷ acked) ≡ 0 =
              unfold acked_seq in
              acked_seq-absent o ((p, s) ∷ acked) (before, AllAfter-trans o p acked before h) in
            ground (
              arith,
              here,
              before,
              gone,
              text_eq_iff p o,
              text_eq_iff p operation,
              text_eq_iff o operation,
              acked_seq-raise_acked operation o seq acked hs,
            )
        | inr after ↦ ground (
          arith,
          here,
          after,
          text_eq_iff p o,
          text_eq_iff p operation,
          text_eq_iff o operation,
          acked_seq-raise_acked operation o seq acked hs,
        )
      ]
    ]

-- An insertion before the first key.
pub raise_acked-first :
    (o : Text) (seq : ℕ) (l : List (Text × ℕ)) → AllAfter o l → raise_acked o seq l ≡ (o, seq) ∷ l
unfolding raise_acked
raise_acked-first o seq [] h = ground arith
raise_acked-first o seq ((p, s) ∷ rest) (h, hs) =
    ground (arith, h, text_eq_iff p o, text_ltb_irreflexive o)
