-- ===== src/Credentials/Adopted.antt =====
-- The first loop of a reconciliation: each entry of the pool is bound, and nothing else is touched.
use asterism.Prelude.{
  ℕ, ◌≤◌, ◌≡◌, refl, ◌∙◌, Bool, true, false, not, inl, inr, ◌⊎◌, Option, none, some, List, [], ◌∷◌,
  ◌++◌, arith, leb, All, any_row, where_rows, length, Bool-cases,
}
use asterism.Text.{Text}
use asterism.Text.Bounds.{text_eq_iff}
use asterism.Credentials.{
  Credential, is_pooled, is_bound, is_unbound, opt_text_eq, is_waiting, bound, update_first,
  adopted, Step, unchanged, changed_to, full, adopt_entry, adopt_all, max_credentials,
}
use asterism.Credentials.Listing.{PoolEntry}

pub clash : (b : Bool) → b ≡ true → b ≡ false → ⊥
clash true h k = cc
clash false h k = cc

-- A credential that is not of the provider's pool.
abbrev pub is_apart : Text → Credential → Bool
is_apart provider_id c = not (is_pooled provider_id c)

unbound-entry : (o : Option Text) (t : Text) → is_unbound o ≡ true → opt_text_eq o t ≡ false
unbound-entry none t h = refl
unbound-entry (some s) t h = cc

-- The step from some credentials to others: what is bound stays bound, and nothing else is touched.
abbrev pub Kept : Text → List Credential → List Credential → Type 0
Kept provider_id cs cs' =
    (where_rows (is_apart provider_id) cs' ≡ where_rows (is_apart provider_id) cs)
    × ((e : PoolEntry)
        → any_row (is_bound provider_id e) cs ≡ true
        → any_row (is_bound provider_id e) cs' ≡ true)

update_first-Kept :
    (now : ℕ) (provider_id : Text) (entry : PoolEntry) (cs : List Credential)
    → Kept provider_id cs (update_first (is_waiting provider_id entry) (bound now entry) cs)
update_first-Kept now provider_id entry [] = (refl, λ e h. h)
update_first-Kept now provider_id entry (c ∷ cs) =
    elim (Bool-cases (is_waiting provider_id entry c)) [
      | inl waits ↦
          rw (waits, update_first)
            (
              ground (arith, waits),
              λ e h. ground (arith, waits, h, unbound-entry c.pool_entry e.entry_id),
            )
      | inr other ↦
          let (same, stays) = update_first-Kept now provider_id entry cs in
          rw (other, update_first) (ground (arith, same), λ e h. ground (arith, h, stays e))
    ]

update_first-bound :
    (now : ℕ) (provider_id : Text) (entry : PoolEntry) (cs : List Credential)
    → any_row (is_waiting provider_id entry) cs ≡ true
    → any_row
        (is_bound provider_id entry)
        (update_first (is_waiting provider_id entry) (bound now entry) cs)
      ≡ true
update_first-bound now provider_id entry [] h = cc
update_first-bound now provider_id entry (c ∷ cs) h =
    elim (Bool-cases (is_waiting provider_id entry c)) [
      | inl waits ↦
          rw (waits, update_first)
            (ground (arith, waits, (text_eq_iff entry.entry_id entry.entry_id).1 refl))
      | inr other ↦
          rw (other, update_first)
            (ground (
              arith,
              other,
              update_first-bound now provider_id entry cs (ground (arith, h, other)),
            ))
    ]

snoc-Kept :
    (sha256 : Text → Text) (now : ℕ) (provider_id : Text) (entry : PoolEntry) (cs : List Credential)
    → Kept provider_id cs (cs ++ adopted sha256 now provider_id entry ∷ [])
      × (any_row (is_bound provider_id entry) (cs ++ adopted sha256 now provider_id entry ∷ [])
          ≡ true)
snoc-Kept sha256 now provider_id entry [] =
    let own = (text_eq_iff provider_id provider_id).1 refl in
    (
      (ground (arith, own), λ e h. absurd (clash false h refl)),
      ground (arith, own, (text_eq_iff entry.entry_id entry.entry_id).1 refl),
    )
snoc-Kept sha256 now provider_id entry (c ∷ cs) =
    let ((same, stays), there) = snoc-Kept sha256 now provider_id entry cs in
    ((ground (arith, same), λ e h. ground (arith, h, stays e)), ground (arith, there))

-- What the first loop does with one entry.
abbrev Stepped : Text → PoolEntry → List Credential → Step → Type 0
Stepped provider_id entry cs unchanged = any_row (is_bound provider_id entry) cs ≡ true
Stepped provider_id entry cs (changed_to cs') =
    Kept provider_id cs cs' × (any_row (is_bound provider_id entry) cs' ≡ true)
Stepped provider_id entry cs full = max_credentials ≤ length cs

adopt_entry-Stepped :
    (sha256 : Text → Text) (now : ℕ) (provider_id : Text) (entry : PoolEntry) (cs : List Credential)
    → Stepped provider_id entry cs (adopt_entry sha256 now provider_id entry cs)
unfolding adopt_entry
adopt_entry-Stepped sha256 now provider_id entry cs =
    elim (Bool-cases (any_row (is_bound provider_id entry) cs)) [
      | inl already ↦ rw (already, adopt_entry) already
      | inr new ↦ elim (Bool-cases (any_row (is_waiting provider_id entry) cs)) [
        | inl waits ↦
            rw (new, waits, adopt_entry)
              (
                update_first-Kept now provider_id entry cs,
                update_first-bound now provider_id entry cs waits,
              )
        | inr none_waits ↦ elim (Bool-cases (leb max_credentials (length cs))) [
          | inl over ↦ rw (new, none_waits, over, adopt_entry) (ground (arith, over))
          | inr room ↦
              rw (new, none_waits, room, adopt_entry) (snoc-Kept sha256 now provider_id entry cs)
        ]
      ]
    ]

-- Each entry is bound, or the registry is full.
abbrev pub AllBound : Text → List PoolEntry → List Credential → Type 0
AllBound provider_id pool cs =
    All (λ e. (any_row (is_bound provider_id e) cs ≡ true) ⊎ (max_credentials ≤ length cs)) pool

full-AllBound :
    (provider_id : Text) (pool : List PoolEntry) (cs : List Credential)
    → max_credentials ≤ length cs
    → AllBound provider_id pool cs
full-AllBound provider_id [] cs h = tt
full-AllBound provider_id (e ∷ pool) cs h = (inr h, full-AllBound provider_id pool cs h)

pub adopt_all-AllBound :
    (sha256 : Text → Text) (now : ℕ) (provider_id : Text) (pool : List PoolEntry)
    (cs : List Credential) (changed : Bool)
    → Kept provider_id cs (adopt_all sha256 now provider_id pool cs changed).0
      × AllBound provider_id pool (adopt_all sha256 now provider_id pool cs changed).0
unfolding adopt_all
adopt_all-AllBound sha256 now provider_id [] cs changed = ((refl, λ e h. h), tt)
adopt_all-AllBound sha256 now provider_id (entry ∷ pool) cs changed =
    stepped (adopt_entry sha256 now provider_id entry cs)
      (adopt_entry-Stepped sha256 now provider_id entry cs)
      (adopt_all-AllBound sha256 now provider_id pool)
  where
    after : Step → List Credential × Bool
    after step = elim step [
      | unchanged ↦ adopt_all sha256 now provider_id pool cs changed
      | changed_to cs' ↦ adopt_all sha256 now provider_id pool cs' true
      | full ↦ (cs, changed)
    ]

    stepped :
        (step : Step)
        → Stepped provider_id entry cs step
        → ((cs' : List Credential) (b : Bool)
            → Kept provider_id cs' (adopt_all sha256 now provider_id pool cs' b).0
              × AllBound provider_id pool (adopt_all sha256 now provider_id pool cs' b).0)
        → Kept provider_id cs (after step).0 × AllBound provider_id (entry ∷ pool) (after step).0
    stepped unchanged there next =
        let (kept, bound_all) = next cs changed in (kept, (inl (kept.1 entry there), bound_all))
    stepped (changed_to cs') ((same, stays), there) next =
        let (kept, bound_all) = next cs' true in
        ((kept.0 ∙ same, λ e h. kept.1 e (stays e h)), (inl (kept.1 entry there), bound_all))
    stepped full over next = ((refl, λ e h. h), (inr over, full-AllBound provider_id pool cs over))
