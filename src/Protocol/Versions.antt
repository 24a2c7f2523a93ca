-- ===== src/Protocol/Versions.antt =====
-- The version that both sides agree on.
use mathlib.Core.Path.{subst}
use asterism.Prelude.{
  ℕ, ◌≤◌, ◌≡◌, refl, sym, ap, ◌∙◌, Bool, true, false, ◌&&◌, ◌||◌, inl, inr, ◌⊎◌, Option, none, some,
  List, [], ◌∷◌, arith, ltb, leb, ◌==◌, any_row, where_rows, Bool-cases,
}
use asterism.Protocol.{has_version, insert_version, sort_versions, last_version, negotiate_version}

-- In order, from a bound on.
abbrev InOrder : ℕ → List ℕ → Type 0
InOrder low [] = Unit
InOrder low (v ∷ rest) = (low ≤ v) × InOrder v rest

insert_version-InOrder :
    (low v : ℕ) (versions : List ℕ)
    → low ≤ v
    → InOrder low versions
    → InOrder low (insert_version v versions)
unfolding insert_version
insert_version-InOrder low v [] h hs = (h, tt)
insert_version-InOrder low v (w ∷ rest) h (k, ks) = elim (Bool-cases (leb v w)) [
  | inl before ↦ rw (before, insert_version) (h, (ground (arith, before), ks))
  | inr after ↦
      rw (after, insert_version) (k, insert_version-InOrder w v rest (ground (arith, after)) ks)
]

sort_versions-InOrder : (versions : List ℕ) → InOrder 0 (sort_versions versions)
unfolding sort_versions
sort_versions-InOrder [] = tt
sort_versions-InOrder (v ∷ rest) =
    insert_version-InOrder 0 v (sort_versions rest) (omega arith) (sort_versions-InOrder rest)

any_row-insert_version :
    (p : ℕ → Bool) (v : ℕ) (versions : List ℕ)
    → any_row p (insert_version v versions) ≡ (p v || any_row p versions)
unfolding insert_version
any_row-insert_version p v [] = refl
any_row-insert_version p v (w ∷ rest) = ground (arith, any_row-insert_version p v rest)

any_row-sort_versions :
    (p : ℕ → Bool) (versions : List ℕ) → any_row p (sort_versions versions) ≡ any_row p versions
unfolding sort_versions
any_row-sort_versions p [] = refl
any_row-sort_versions p (v ∷ rest) =
    any_row-insert_version p v (sort_versions rest)
    ∙ ap (λ b. p v || b) (any_row-sort_versions p rest)

-- The last of versions in order is one of them, and none is above it.
abbrev Last : ℕ → List ℕ → ℕ → Type 0
Last low versions v =
    (low ≤ v) × (has_version v versions ≡ true) × (any_row (λ w. ltb v w) versions ≡ false)

some-injective : {v w : ℕ} → Path (Option ℕ) (some v) (some w) → v ≡ w
some-injective h = cc

last_version-Last :
    (low v : ℕ) (versions : List ℕ)
    → InOrder low versions
    → last_version versions ≡ some v
    → Last low versions v
last_version-Last low v [] h e = cc
last_version-Last low v (w ∷ []) (h, hs) e =
    subst (Last low (w ∷ [])) (some-injective e) (h, ground arith, ground arith)
last_version-Last low v (w ∷ x ∷ rest) (h, hs) e =
    let (above, there, none_higher) = last_version-Last w v (x ∷ rest) hs e in
    (omega (arith, h, above), ground (arith, there), ground (arith, above, none_higher))

last_version-none : (versions : List ℕ) → last_version versions ≡ none → versions ≡ []
last_version-none [] e = refl
last_version-none (w ∷ []) e = cc
last_version-none (w ∷ x ∷ rest) e = absurd (nonempty (last_version-none (x ∷ rest) e))
  where
    nonempty : (x ∷ rest) ≡ [] → ⊥
    nonempty h = cc

same_version : (v w : ℕ) → (v == w) ≡ true → v ≡ w
same_version v w h = ground (arith, h)

has_version-where_rows :
    (p : ℕ → Bool) (w : ℕ) (versions : List ℕ)
    → has_version w (where_rows p versions) ≡ (has_version w versions && p w)
has_version-where_rows p w [] = refl
has_version-where_rows p w (v ∷ rest) = elim (Bool-cases (v == w)) [
  | inl same ↦
      subst (λ u. has_version w (where_rows p (u ∷ rest)) ≡ (has_version w (u ∷ rest) && p w))
        (sym (same_version v w same)) (own (has_version-where_rows p w rest) (Bool-cases (p w)))
  | inr other ↦ ground (arith, other, has_version-where_rows p w rest)
]
  where
    own :
        has_version w (where_rows p rest) ≡ (has_version w rest && p w)
        → (p w ≡ true) ⊎ (p w ≡ false)
        → has_version w (where_rows p (w ∷ rest)) ≡ (has_version w (w ∷ rest) && p w)
    own ih (inl h) = ground (arith, h)
    own ih (inr h) = ground (arith, h, ih)

not_above :
    (v w : ℕ) (versions : List ℕ)
    → any_row (λ x. ltb v x) versions ≡ false
    → has_version w versions ≡ true
    → w ≤ v
not_above v w [] h k = cc
not_above v w (x ∷ rest) h k = elim (Bool-cases (x == w)) [
  | inl same ↦ ground (arith, same, h)
  | inr other ↦ not_above v w rest (ground (arith, h)) (ground (arith, k, other))
]

-- A version is shared if both list it.
has_version-sorted :
    (client server : List ℕ) (w : ℕ)
    → has_version w (sort_versions (where_rows (λ version. has_version version server) client))
      ≡ (has_version w client && has_version w server)
has_version-sorted client server w =
    any_row-sort_versions (λ v. v == w) (where_rows (λ version. has_version version server) client)
    ∙ has_version-where_rows (λ version. has_version version server) w client

-- The version that is agreed on is one that both sides list, and no version that both list is
-- higher; there is none only if no version is listed by both.
pub negotiate_version-highest :
    (client server : List ℕ)
    → ((v : ℕ)
        → negotiate_version client server ≡ some v
        → (has_version v client ≡ true)
          × (has_version v server ≡ true)
          × ((w : ℕ) → has_version w client ≡ true → has_version w server ≡ true → w ≤ v))
      × (negotiate_version client server ≡ none
          → (w : ℕ) → (has_version w client && has_version w server) ≡ false)
unfolding negotiate_version
negotiate_version-highest client server = (
  λ v e.
      let versions = sort_versions (where_rows (λ version. has_version version server) client) in
      let (low, there, none_higher) =
        last_version-Last 0 v versions
          (sort_versions-InOrder (where_rows (λ version. has_version version server) client)) e in
      let both = sym (has_version-sorted client server v) ∙ there in
      (
        ground (arith, both),
        ground (arith, both),
        λ w c s.
            not_above v w versions none_higher
              (has_version-sorted client server w ∙ ground (arith, c, s)),
      ),
  λ e w.
      sym (has_version-sorted client server w)
      ∙ ap (has_version w) (
          last_version-none
            (sort_versions (where_rows (λ version. has_version version server) client)) e),
)
