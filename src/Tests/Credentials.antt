-- ===== src/Tests/Credentials.antt =====
-- The reconciliation of credentials at a small registry, and its theorem at it.
use asterism.Prelude.{
  ◌≤◌, ◌≡◌, refl, true, Option, none, some, List, [], ◌∷◌, ◌⊎◌, All, any_row, where_rows, length,
  map,
}
use asterism.Text.{
  Text, codes, text_eq, byte_len, utf8_len, trim, trim_start, trim_end, is_whitespace, strip_prefix,
  split_whitespace, words_from,
}
use asterism.Sse.{drop_return}
use asterism.Policy.Config.{lines_from}
use asterism.Credentials.{
  Credential, CredentialRegistry, is_bound, adopt_entry, adopt_all, settle, settle_all, wanted,
  adopted_id, reconcile, max_credentials,
}
use asterism.Credentials.Listing.{PoolEntry, parse_pool_listing, is_usable_pool_id}
use asterism.Credentials.States.{
  CredentialState, authorizing, authorized, required, revoked, CredentialStorage, isolated,
  legacy_shared_pool,
}
use asterism.Credentials.Adopted.{is_apart}
use asterism.Credentials.Reconciled.{Agrees, reconcile-Agrees}

-- A digest that is its text.
abbrev digest : Text → Text
digest t = t

abbrev provider : Text
provider = codes "openai"

abbrev credential : Text → Text → CredentialState → CredentialStorage → Option Text → Credential
credential id label state storage entry = record {
  id = id;
  provider_id = provider;
  auth_method = codes "device_authorization";
  label = label;
  state = state;
  storage = storage;
  pool_entry = entry;
  generation = 0;
  created_at = 1;
  updated_at = 1;
}

abbrev registry : CredentialRegistry
registry = record {
  credentials =
      credential (codes "c-1") (codes "work") authorizing legacy_shared_pool none
      ∷ credential (codes "c-2") (codes "old") authorized legacy_shared_pool (some (codes "gone"))
      ∷ credential (codes "c-3") (codes "own") revoked isolated none
      ∷ [];
}

abbrev pool : List PoolEntry
pool =
    record { entry_id = codes "work"; kind = codes "oauth" }
    ∷ record { entry_id = codes "other one"; kind = codes "api-key" }
    ∷ []

listing_read :
    parse_pool_listing (codes "openai (2):\n #1 work oauth device\n #2 other one api-key *\n")
    ≡ pool
unfolding parse_pool_listing lines_from drop_return split_whitespace words_from strip_prefix trim
    trim_start trim_end is_whitespace text_eq is_usable_pool_id byte_len utf8_len
listing_read = refl

states_after :
    map (λ (c : Credential). c.state) (reconcile digest provider pool 9 registry).1.credentials
    ≡ authorized ∷ required ∷ revoked ∷ authorized ∷ []
unfolding reconcile adopt_all adopt_entry settle_all settle wanted text_eq adopted_id
states_after = refl

reconcile-Agrees_example :
    let after = (reconcile digest provider pool 9 registry).1 in
    All (Agrees provider pool) after.credentials
    × All
        (λ e.
          (any_row (is_bound provider e) after.credentials ≡ true)
          ⊎ (max_credentials ≤ length after.credentials))
        pool
    × (where_rows (is_apart provider) after.credentials
        ≡ where_rows (is_apart provider) registry.credentials)
reconcile-Agrees_example = reconcile-Agrees digest provider pool 9 registry
