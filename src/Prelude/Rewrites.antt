-- ===== src/Prelude/Rewrites.antt =====
-- Loops of updates on a table: which rows they reach, and what holds of the rows afterwards.
use asterism.Prelude.Tests.{if◌then◌else◌, Bool-cases}
use asterism.Prelude.Lists.{All}
use mathlib.Core.Path.{◌≡◌, refl, ap, ◌∙◌}
use mathlib.Core.Logic.{◌⊎◌, inl, inr}
use mathlib.Core.Bool.{Bool, true, false, ◌||◌}
use mathlib.Core.Option.{Option, none, some}
use mathlib.Core.List.{List, [], ◌∷◌, map}
use native.Mathlib.Omega.{arith}

-- The updates that a search for outdated rows makes.
module _ {Row Key New : Type 0} (key : Row → Key) (outdated : Row → Option New) where
  abbrev pub outdated_rows : List Row → List (Key × New)
  outdated_rows [] = []
  outdated_rows (row ∷ rows) = elim (outdated row) [
    | none ↦ outdated_rows rows
    | some new ↦ (key row, new) ∷ outdated_rows rows
  ]

  pub outdated_rows-none :
      (rows : List Row) → All (λ row. outdated row ≡ none) rows → outdated_rows rows ≡ []
  outdated_rows-none [] h = refl
  outdated_rows-none (row ∷ rows) (h, hs) = rw (h, outdated_rows) (outdated_rows-none rows hs)

module _ {Row Key New : Type 0} (has_key : Key → Row → Bool) (set : New → Row → Row) where
  -- One row under the updates, in order.
  abbrev pub rewritten : List (Key × New) → Row → Row
  rewritten [] row = row
  rewritten ((k, new) ∷ updates) row =
      rewritten updates (if has_key k row then set new row else row)

  abbrev pub update_row : Key → New → Row → Row
  update_row k new row = if has_key k row then set new row else row

  -- The loop of updates.
  abbrev pub rewrite_all : List (Key × New) → List Row → List Row
  rewrite_all [] rows = rows
  rewrite_all ((k, new) ∷ updates) rows = rewrite_all updates (map (update_row k new) rows)

  abbrev pub reaches : List (Key × New) → Row → Bool
  reaches [] row = false
  reaches ((k, new) ∷ updates) row = has_key k row || reaches updates row

  abbrev pub AllNew : (New → Type 0) → List (Key × New) → Type 0
  AllNew Q [] = Unit
  AllNew Q ((k, new) ∷ updates) = Q new × AllNew Q updates

  module _ (P : Row → Type 0) (Q : New → Type 0)
      (good : (new : New) (row : Row) → Q new → P (set new row)) where
    -- A row is good if it was good, or if an update reaches it.
    pub rewritten-good :
        (updates : List (Key × New)) (row : Row)
        → AllNew Q updates
        → P row ⊎ (reaches updates row ≡ true)
        → P (rewritten updates row)
    rewritten-good [] row h (inl p) = p
    rewritten-good [] row h (inr r) = cc
    rewritten-good ((k, new) ∷ updates) row (h, hs) either = elim (Bool-cases (has_key k row)) [
      | inl here ↦ rw here (rewritten-good updates (set new row) hs (inl (good new row h)))
      | inr there ↦ elim either [
        | inl p ↦ rw there (rewritten-good updates row hs (inl p))
        | inr r ↦ rw there (rewritten-good updates row hs (inr (ground (arith, there, r))))
      ]
    ]

    pub rewritten_rows-good :
        (updates : List (Key × New)) (rows : List Row)
        → AllNew Q updates
        → All (λ row. P row ⊎ (reaches updates row ≡ true)) rows
        → All P (map (rewritten updates) rows)
    rewritten_rows-good updates [] h hs = tt
    rewritten_rows-good updates (row ∷ rows) h (r, rs) =
        (rewritten-good updates row h r, rewritten_rows-good updates rows h rs)

  map-map : (g f : Row → Row) (rows : List Row) → map g (map f rows) ≡ map (λ row. g (f row)) rows
  map-map g f [] = refl
  map-map g f (row ∷ rows) = ap (λ l. g (f row) ∷ l) (map-map g f rows)

  map_self : (rows : List Row) → rows ≡ map (λ row. row) rows
  map_self [] = refl
  map_self (row ∷ rows) = ap (λ l. row ∷ l) (map_self rows)

  pub rewrite_all-map :
      (updates : List (Key × New)) (rows : List Row)
      → rewrite_all updates rows ≡ map (rewritten updates) rows
  rewrite_all-map [] rows = map_self rows
  rewrite_all-map ((k, new) ∷ updates) rows =
      rewrite_all-map updates (map (update_row k new) rows)
      ∙ map-map (rewritten updates) (update_row k new) rows

  module _ (key : Row → Key) (outdated : Row → Option New)
      (own : (row : Row) → has_key (key row) row ≡ true) where
    -- A row that is outdated is reached by the updates of the search.
    abbrev pub Covered : List Row → Row → Type 0
    Covered rows row =
        (outdated row ≡ none) ⊎ (reaches (outdated_rows key outdated rows) row ≡ true)

    Covered-more :
        (first : Row) (rows : List Row) (row : Row) → Covered rows row → Covered (first ∷ rows) row
    Covered-more first rows row (inl fresh) = inl fresh
    Covered-more first rows row (inr reached) = inr (more (outdated first))
      where
        more :
            (o : Option New)
            → reaches
                (elim o [
                  | none ↦ outdated_rows key outdated rows
                  | some new ↦ (key first, new) ∷ outdated_rows key outdated rows
                ])
                row
              ≡ true
        more none = reached
        more (some new) = ground (arith, reached)

    Covered-All :
        (first : Row) (rows more : List Row)
        → All (Covered rows) more
        → All (Covered (first ∷ rows)) more
    Covered-All first rows [] h = tt
    Covered-All first rows (row ∷ more) (h, hs) =
        (Covered-more first rows row h, Covered-All first rows more hs)

    Covered-first : (row : Row) (rows : List Row) → Covered (row ∷ rows) row
    Covered-first row rows = first (outdated row)
      where
        first :
            (o : Option New)
            → (o ≡ none)
              ⊎ (reaches
                    (elim o [
                      | none ↦ outdated_rows key outdated rows
                      | some new ↦ (key row, new) ∷ outdated_rows key outdated rows
                    ])
                    row
                  ≡ true)
        first none = inl refl
        first (some new) = inr (ground (arith, own row))

    pub rows-Covered : (rows : List Row) → All (Covered rows) rows
    rows-Covered [] = tt
    rows-Covered (row ∷ rows) =
        (Covered-first row rows, Covered-All row rows rows (rows-Covered rows))

    module _ (Q : New → Type 0)
        (clean : (row : Row) (new : New) → outdated row ≡ some new → Q new) where
      pub outdated_rows-AllNew : (rows : List Row) → AllNew Q (outdated_rows key outdated rows)
      outdated_rows-AllNew [] = tt
      outdated_rows-AllNew (row ∷ rows) = first (outdated_rows-AllNew rows) (outdated row) refl
        where
          first :
              AllNew Q (outdated_rows key outdated rows)
              → (o : Option New) → outdated row ≡ o
              → AllNew Q (elim o [
                | none ↦ outdated_rows key outdated rows
                | some new ↦ (key row, new) ∷ outdated_rows key outdated rows
              ])
          first rest none e = rest
          first rest (some new) e = (clean row new e, rest)
