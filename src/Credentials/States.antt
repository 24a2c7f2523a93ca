-- ===== src/Credentials/States.antt =====
-- src/credentials.rs: states and storages of a credential, and the checks of its identifier and label.
use asterism.Prelude.{ℕ, Bool, true, false, not, ◌&&◌, ◌||◌, ltb, leb, ◌==◌, any_row}
use asterism.Prelude.Results.{Result, ◌>>=◌, guard}
use asterism.Text.{Text, codes, byte_len, trim}
use asterism.UpdateOp.Records.{all_characters, is_empty_text}

abbrev pub max_label_length : ℕ
max_label_length = 64

abbrev pub max_id_length : ℕ
max_id_length = 64

pub data CredentialState : Type 0 where
  required authorizing authorized failed revoked reauthorizing reauthorization_required :
      CredentialState
  runtime_missing : CredentialState

-- `CredentialState::wire`
unfoldable pub state_wire : CredentialState → Text
state_wire required = codes "required"
state_wire authorizing = codes "authorizing"
state_wire authorized = codes "authorized"
state_wire failed = codes "failed"
state_wire revoked = codes "revoked"
state_wire reauthorizing = codes "reauthorizing"
state_wire reauthorization_required = codes "reauthorization_required"
state_wire runtime_missing = codes "runtime_missing"

unfoldable pub reauthorizable : CredentialState → Bool
reauthorizable authorized = true
reauthorizable reauthorization_required = true
reauthorizable runtime_missing = true
reauthorizable required = true
reauthorizable failed = true
reauthorizable _ = false

abbrev pub runnable : CredentialState → Bool
runnable authorized = true
runnable _ = false

pub data CredentialStorage : Type 0 where
  isolated legacy_shared_pool : CredentialStorage

-- `CredentialStorage::wire`
unfoldable pub storage_wire : CredentialStorage → Text
storage_wire isolated = codes "isolated"
storage_wire legacy_shared_pool = codes "legacy_shared_pool"

abbrev pub is_shared : CredentialStorage → Bool
is_shared isolated = false
is_shared legacy_shared_pool = true

-- `char::is_control`: the general category Cc.
abbrev pub is_control : ℕ → Bool
is_control c = leb c 0x1F || (leb 0x7F c && leb c 0x9F)

abbrev pub is_token_character : ℕ → Bool
is_token_character c = (leb b'a' c && leb c b'z') || (leb b'0' c && leb c b'9') || c == b'-'

abbrev pub is_safe_token : Text → Bool
is_safe_token value = not (is_empty_text value) && all_characters is_token_character value

pub data CredentialError : Type 0 where
  id_length id_character label_length label_character : CredentialError

unfoldable pub validate_id : Text → Result CredentialError (Unit {0})
unfolding byte_len
validate_id id = do
  _ ← guard (not (is_empty_text id || ltb max_id_length (byte_len id))) id_length
  guard (is_safe_token id) id_character

unfoldable pub validate_label : Text → Result CredentialError (Unit {0})
unfolding byte_len trim
validate_label label = do
  let trimmed = trim label
  _ ← guard (not (is_empty_text trimmed || ltb max_label_length (byte_len trimmed))) label_length
  guard (not (any_row is_control trimmed)) label_character
