-- ===== src/Credentials.antt =====
-- src/credentials.rs: the credentials of a Node and their reconciliation with the provider's pool.
-- SHA-256, as the lowercase hex of a text's digest, and serde are parameters.
pub mod Listing
pub mod States
pub mod Adopted
pub mod Reconciled
use asterism.Prelude.{
  ℕ, Bool, true, false, not, ◌&&◌, ◌||◌, Option, none, some, List, [], ◌∷◌, ◌++◌, map, ltb, leb,
  ◌==◌, if◌then◌else◌, any_row, first_row, where_rows, length, take,
}
use asterism.Prelude.Results.{Result, ok, err, ◌>>=◌, ◌>>◌, guard}
use asterism.Prelude.Table.{unwrap_or}
use asterism.Text.{Text, codes, text_eq, byte_len, trim, strip_prefix, split_whitespace}
use asterism.Policy.Config.{lines, lines_from}
use asterism.UpdateOp.Records.{all_characters, is_empty_text}
use asterism.Credentials.States.{
  CredentialError, CredentialState, CredentialStorage, authorized, authorizing, failed,
  id_character, id_length, is_control, is_safe_token, is_shared, is_token_character, isolated,
  label_character, label_length, legacy_shared_pool, max_id_length, max_label_length,
  reauthorizable, reauthorization_required, reauthorizing, required, revoked, runnable,
  runtime_missing, state_wire, storage_wire, validate_id, validate_label,
}
use asterism.Credentials.Listing.{
  PoolEntry, all_ascii_digits, entries_of_lines, entry_of_fields, entry_of_line, entry_of_row,
  is_pool_kind, is_usable_pool_id, join_spaces, last_kind, parse_pool_listing, pool_kinds,
  usable_entry,
}

abbrev pub max_credentials : ℕ
max_credentials = 16

abbrev pub adopted_label : Text
adopted_label = codes "Existing credential"

pub record Credential : Type 0 where
  pub id : Text
  pub provider_id : Text
  pub auth_method : Text
  pub label : Text
  pub state : CredentialState
  pub storage : CredentialStorage
  pub pool_entry : Option Text
  pub generation : ℕ
  pub created_at : ℕ
  pub updated_at : ℕ

pub record CredentialSummary : Type 0 where
  pub summary_id : Text
  pub summary_provider : Text
  pub summary_method : Text
  pub summary_label : Text
  pub summary_state : Text
  pub summary_storage : Text
  pub summary_created_at : ℕ
  pub summary_updated_at : ℕ

-- `CredentialSummary::from`
unfoldable pub summary_of : Credential → CredentialSummary
unfolding state_wire storage_wire
summary_of c = record {
  summary_id = c.id;
  summary_provider = c.provider_id;
  summary_method = c.auth_method;
  summary_label = c.label;
  summary_state = state_wire c.state;
  summary_storage = storage_wire c.storage;
  summary_created_at = c.created_at;
  summary_updated_at = c.updated_at;
}

-- The first eight bytes of the digest are the first sixteen digits.
unfoldable pub adopted_id : (Text → Text) → Text → Text → Text
adopted_id sha256 provider_id pool_entry =
    codes "cred-" ++ take 16 (sha256 (provider_id ++ (codes "/" ++ pool_entry)))

pub record CredentialRegistry : Type 0 where
  pub credentials : List Credential

abbrev pub has_id : Text → Credential → Bool
has_id id c = text_eq c.id id

-- `Registry::get`
unfoldable pub get : Text → CredentialRegistry → Option Credential
unfolding text_eq
get id r = first_row (has_id id) r.credentials

abbrev pub opt_text_eq : Option Text → Text → Bool
opt_text_eq none t = false
opt_text_eq (some s) t = text_eq s t

-- A credential of the provider in the shared pool.
abbrev pub is_pooled : Text → Credential → Bool
is_pooled provider_id c = is_shared c.storage && text_eq c.provider_id provider_id

-- `already` of `reconcile`
abbrev pub is_bound : Text → PoolEntry → Credential → Bool
is_bound provider_id entry c = is_pooled provider_id c && opt_text_eq c.pool_entry entry.entry_id

abbrev pub awaits_login : CredentialState → Bool
awaits_login authorizing = true
awaits_login failed = true
awaits_login _ = false

abbrev pub is_unbound : Option Text → Bool
is_unbound none = true
is_unbound (some entry) = false

-- The search for a credential that waits for this entry.
abbrev pub is_waiting : Text → PoolEntry → Credential → Bool
is_waiting provider_id entry c =
    is_pooled provider_id c
    && is_unbound c.pool_entry
    && text_eq c.label entry.entry_id
    && awaits_login c.state

abbrev pub bound : ℕ → PoolEntry → Credential → Credential
bound now entry c = record c {
  pool_entry = some entry.entry_id;
  state = authorized;
  updated_at = now;
}

-- `iter_mut().find(..)` and the assignments to what is found
abbrev pub update_first :
    (Credential → Bool) → (Credential → Credential) → List Credential → List Credential
update_first p f [] = []
update_first p f (c ∷ rest) = if p c then f c ∷ rest else c ∷ update_first p f rest

abbrev pub adopted : (Text → Text) → ℕ → Text → PoolEntry → Credential
adopted sha256 now provider_id entry = record {
  id = adopted_id sha256 provider_id entry.entry_id;
  provider_id = provider_id;
  auth_method = codes "device_authorization";
  label = adopted_label;
  state = authorized;
  storage = legacy_shared_pool;
  pool_entry = some entry.entry_id;
  generation = 0;
  created_at = now;
  updated_at = now;
}

-- How the first loop goes on after an entry: with these credentials, or not at all.
pub data Step : Type 0 where
  unchanged : Step
  changed_to : List Credential → Step
  full : Step

-- The body of the first loop.
unfoldable pub adopt_entry : (Text → Text) → ℕ → Text → PoolEntry → List Credential → Step
unfolding text_eq adopted_id
adopt_entry sha256 now provider_id entry cs =
    if any_row (is_bound provider_id entry) cs
    then unchanged
    else if any_row (is_waiting provider_id entry) cs
    then changed_to (update_first (is_waiting provider_id entry) (bound now entry) cs)
    else if leb max_credentials (length cs)
    then full
    else changed_to (cs ++ adopted sha256 now provider_id entry ∷ [])

-- The first loop: the credentials, and whether any was changed.
unfoldable pub adopt_all :
    (Text → Text) → ℕ → Text → List PoolEntry → List Credential → Bool → List Credential × Bool
unfolding adopt_entry
adopt_all sha256 now provider_id [] cs changed = (cs, changed)
adopt_all sha256 now provider_id (entry ∷ pool) cs changed =
    elim (adopt_entry sha256 now provider_id entry cs) [
      | unchanged ↦ adopt_all sha256 now provider_id pool cs changed
      | changed_to cs' ↦ adopt_all sha256 now provider_id pool cs' true
      | full ↦ (cs, changed)
    ]

abbrev pub has_entry_id : Text → PoolEntry → Bool
has_entry_id id entry = text_eq entry.entry_id id

abbrev pub holds : List PoolEntry → Option Text → Bool
holds pool none = false
holds pool (some id) = any_row (has_entry_id id) pool

-- The match of the second loop; nothing is to be done where there is no state wanted.
unfoldable pub wanted : Bool → CredentialState → Option CredentialState
wanted true authorized = none
wanted true _ = some authorized
wanted false authorized = some required
wanted false _ = none

-- The body of the second loop.
unfoldable pub settle : ℕ → Text → List PoolEntry → Credential → Credential × Bool
unfolding wanted text_eq
settle now provider_id pool c =
    if is_pooled provider_id c
    then (elim (wanted (holds pool c.pool_entry) c.state) [
      | none ↦ (c, false)
      | some state ↦ (record c { state = state; updated_at = now }, true)
    ])
    else (c, false)

unfoldable pub settle_all : ℕ → Text → List PoolEntry → List Credential → List Credential × Bool
unfolding settle
settle_all now provider_id pool [] = ([], false)
settle_all now provider_id pool (c ∷ cs) =
    let (c', changed) = settle now provider_id pool c in
    let (cs', more) = settle_all now provider_id pool cs in (c' ∷ cs', changed || more)

-- `Registry::reconcile`
unfoldable pub reconcile :
    (Text → Text) → Text → List PoolEntry → ℕ → CredentialRegistry → Bool × CredentialRegistry
unfolding adopt_all settle_all
reconcile sha256 provider_id pool now r =
    let (cs, changed) = adopt_all sha256 now provider_id pool r.credentials false in
    let (cs', settled) = settle_all now provider_id pool cs in
    (changed || settled, record { credentials = cs' })

-- `Registry::summaries`
unfoldable pub summaries : CredentialRegistry → List CredentialSummary
unfolding summary_of
summaries r = map summary_of r.credentials

unfoldable pub rank : CredentialState → ℕ
rank authorized = 7
rank reauthorizing = 6
rank authorizing = 5
rank reauthorization_required = 4
rank runtime_missing = 3
rank failed = 2
rank required = 1
rank revoked = 0

abbrev pub better : Option CredentialState → CredentialState → Bool
better none s = true
better (some current) s = ltb (rank current) (rank s)

-- The loop of `provider_state`.
unfoldable pub best_state : Text → Option CredentialState → List Credential → Option CredentialState
unfolding rank text_eq
best_state provider_id best [] = best
best_state provider_id best (c ∷ cs) =
    best_state provider_id
      (if text_eq c.provider_id provider_id && better best c.state then some c.state else best) cs

-- `Registry::provider_state`
unfoldable pub provider_state : Text → CredentialRegistry → Option CredentialState
unfolding best_state
provider_state provider_id r = best_state provider_id none r.credentials
