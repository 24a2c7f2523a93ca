-- ===== src/Credentials/Reconciled.antt =====
-- What a reconciliation leaves: the registry agrees with the pool.
use mathlib.Core.Path.{subst}
use asterism.Prelude.{
  ℕ, suc, ◌≤◌, ◌≡◌, refl, sym, ap, ◌∙◌, Bool, true, false, inl, inr, ◌⊎◌, Option, none, some, List,
  [], ◌∷◌, arith, All, any_row, where_rows, length, Bool-cases,
}
use asterism.Prelude.Table.{unwrap_or}
use asterism.Text.{Text}
use asterism.Credentials.{
  Credential, CredentialRegistry, is_pooled, is_bound, opt_text_eq, adopt_all, holds, wanted,
  settle, settle_all, reconcile, max_credentials,
}
use asterism.Credentials.Listing.{PoolEntry}
use asterism.Credentials.States.{
  CredentialState, required, authorizing, authorized, failed, revoked, reauthorizing,
  reauthorization_required, runtime_missing, runnable,
}
use asterism.Credentials.Adopted.{clash, is_apart, Kept, AllBound, adopt_all-AllBound}

-- A credential of the provider in the pool is authorized if the pool holds its entry, and only then.
abbrev pub Agrees : Text → List PoolEntry → Credential → Type 0
Agrees provider_id pool c =
    is_pooled provider_id c ≡ true → runnable c.state ≡ holds pool c.pool_entry

wanted-agrees : (b : Bool) (s : CredentialState) → runnable (unwrap_or (wanted b s) s) ≡ b
unfolding wanted
wanted-agrees true required = refl
wanted-agrees true authorizing = refl
wanted-agrees true authorized = refl
wanted-agrees true failed = refl
wanted-agrees true revoked = refl
wanted-agrees true reauthorizing = refl
wanted-agrees true reauthorization_required = refl
wanted-agrees true runtime_missing = refl
wanted-agrees false required = refl
wanted-agrees false authorizing = refl
wanted-agrees false authorized = refl
wanted-agrees false failed = refl
wanted-agrees false revoked = refl
wanted-agrees false reauthorizing = refl
wanted-agrees false reauthorization_required = refl
wanted-agrees false runtime_missing = refl

-- What the second loop leaves of a credential.
abbrev Settled : Text → List PoolEntry → Credential → Credential → Type 0
Settled provider_id pool c c' =
    (is_pooled provider_id c' ≡ is_pooled provider_id c)
    × (c'.pool_entry ≡ c.pool_entry)
    × Agrees provider_id pool c'
    × ((is_pooled provider_id c ≡ true) ⊎ (c' ≡ c))

-- The state that is wanted, if any.
abbrev with_state : ℕ → Credential → Option CredentialState → Credential × Bool
with_state now c none = (c, false)
with_state now c (some state) = (record c { state = state; updated_at = now }, true)

with_state-Settled :
    (now : ℕ) (provider_id : Text) (pool : List PoolEntry) (c : Credential)
    (o : Option CredentialState)
    → is_pooled provider_id c ≡ true
    → runnable (unwrap_or o c.state) ≡ holds pool c.pool_entry
    → Settled provider_id pool c (with_state now c o).0
with_state-Settled now provider_id pool c none ours h = (refl, refl, λ _. h, inl ours)
with_state-Settled now provider_id pool c (some state) ours h = (refl, refl, λ _. h, inl ours)

settle-Settled :
    (now : ℕ) (provider_id : Text) (pool : List PoolEntry) (c : Credential)
    → Settled provider_id pool c (settle now provider_id pool c).0
unfolding settle
settle-Settled now provider_id pool c = elim (Bool-cases (is_pooled provider_id c)) [
  | inl ours ↦
      subst (λ (x : Credential × Bool). Settled provider_id pool c x.0) (sym (pooled ours))
        (with_state-Settled now provider_id pool c (wanted (holds pool c.pool_entry) c.state) ours
          (wanted-agrees (holds pool c.pool_entry) c.state))
  | inr other ↦
      subst (λ (x : Credential × Bool). Settled provider_id pool c x.0) (sym (apart other))
        (refl, refl, λ ours. absurd (clash (is_pooled provider_id c) ours other), inr refl)
]
  where
    same :
        (o : Option CredentialState)
        → ◌≡◌ {A = Credential × Bool}
            (elim o [
              | none ↦ (c, false)
              | some state ↦ (record c { state = state; updated_at = now }, true)
            ])
            (with_state now c o)
    same none = refl
    same (some state) = refl

    pooled :
        is_pooled provider_id c ≡ true
        → settle now provider_id pool c
          ≡ with_state now c (wanted (holds pool c.pool_entry) c.state)
    pooled ours = rw (ours, settle) (same (wanted (holds pool c.pool_entry) c.state))

    apart : is_pooled provider_id c ≡ false → settle now provider_id pool c ≡ (c, false)
    apart other = rw (other, settle) refl

settle_all-Kept :
    (now : ℕ) (provider_id : Text) (pool : List PoolEntry) (cs : List Credential)
    → let cs' = (settle_all now provider_id pool cs).0 in
      Kept provider_id cs cs' × (length cs' ≡ length cs) × All (Agrees provider_id pool) cs'
unfolding settle_all
settle_all-Kept now provider_id pool [] = ((refl, λ e h. h), refl, tt)
settle_all-Kept now provider_id pool (c ∷ cs) =
    let ((same, stays), long, agree) = settle_all-Kept now provider_id pool cs in
    let (pooled, entry, agrees, either) = settle-Settled now provider_id pool c in
    let c' = (settle now provider_id pool c).0 in
    (
      (
        first provider_id c c' cs (settle_all now provider_id pool cs).0 pooled either same,
        λ e h. ground (arith, h, stays e, pooled, ap (λ o. opt_text_eq o e.entry_id) entry),
      ),
      ap suc long,
      (agrees, agree),
    )
  where
    first :
        (provider_id : Text) (c c' : Credential) (cs cs' : List Credential)
        → is_pooled provider_id c' ≡ is_pooled provider_id c
        → (is_pooled provider_id c ≡ true) ⊎ (c' ≡ c)
        → where_rows (is_apart provider_id) cs' ≡ where_rows (is_apart provider_id) cs
        → where_rows (is_apart provider_id) (c' ∷ cs') ≡ where_rows (is_apart provider_id) (c ∷ cs)
    first provider_id c c' cs cs' pooled (inl ours) same = ground (arith, pooled, ours, same)
    first provider_id c c' cs cs' pooled (inr unchanged_one) same =
        ap (λ x. where_rows (is_apart provider_id) (x ∷ cs')) unchanged_one ∙ ground (arith, same)

AllBound-Kept :
    (provider_id : Text) (pool : List PoolEntry) (cs cs' : List Credential)
    → Kept provider_id cs cs'
    → length cs' ≡ length cs
    → AllBound provider_id pool cs
    → AllBound provider_id pool cs'
AllBound-Kept provider_id [] cs cs' kept long h = tt
AllBound-Kept provider_id (e ∷ pool) cs cs' kept long (inl b, hs) =
    (inl (kept.1 e b), AllBound-Kept provider_id pool cs cs' kept long hs)
AllBound-Kept provider_id (e ∷ pool) cs cs' kept long (inr over, hs) =
    (inr (omega (arith, over, long)), AllBound-Kept provider_id pool cs cs' kept long hs)

-- After a reconciliation each credential of the provider in the shared pool is authorized if the
-- pool lists its entry, and only then; each entry that the pool lists is bound to a credential,
-- unless the registry holds its greatest number of them; and the credentials of other providers, and
-- the isolated ones, are what they were, in their order.
pub reconcile-Agrees :
    (sha256 : Text → Text) (provider_id : Text) (pool : List PoolEntry) (now : ℕ)
    (r : CredentialRegistry)
    → let after = (reconcile sha256 provider_id pool now r).1 in
      All (Agrees provider_id pool) after.credentials
      × All
          (λ e.
            (any_row (is_bound provider_id e) after.credentials ≡ true)
            ⊎ (max_credentials ≤ length after.credentials))
          pool
      × (where_rows (is_apart provider_id) after.credentials
          ≡ where_rows (is_apart provider_id) r.credentials)
unfolding reconcile
reconcile-Agrees sha256 provider_id pool now r =
    let cs = (adopt_all sha256 now provider_id pool r.credentials false).0 in
    let (adopted_kept, all_bound) =
      adopt_all-AllBound sha256 now provider_id pool r.credentials false in
    let (settled_kept, long, agree) = settle_all-Kept now provider_id pool cs in
    (
      agree,
      AllBound-Kept provider_id pool cs (settle_all now provider_id pool cs).0 settled_kept long
          all_bound,
      settled_kept.0 ∙ adopted_kept.0,
    )
