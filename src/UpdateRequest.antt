-- ===== src/UpdateRequest.antt =====
-- src/updaterequest.rs: the request that the daemon leaves for the privileged updater. The state is
-- the file of the request; serde's reader and writer of it are parameters. Files and directories can
-- be written here; whether the file can be read and removed is an argument.
pub mod Released
pub mod Consumed
use asterism.Prelude.{
  ℕ, ◌-◌, Bool, true, false, not, ◌&&◌, ◌||◌, Option, none, some, List, [], ◌∷◌, ltb, leb, ◌==◌,
  if◌then◌else◌,
}
use asterism.Prelude.Results.{Result, ok, err, ◌>>=◌, ◌>>◌, guard, or_err}
use asterism.Text.{Text, codes, byte_len, contains, starts_with, is_ascii_alphanumeric}
use asterism.UpdateOp.Records.{
  OperationIdError, validate_operation_id, all_characters, is_empty_text,
}

abbrev pub max_version : ℕ
max_version = 64

abbrev pub max_age_seconds : ℕ
max_age_seconds = 3600

pub record UpdateRequest : Type 0 where
  pub version : Text
  pub requested_at : ℕ
  pub requested_by : Option Text
  pub operation_id : Option Text

pub data VersionError : Type 0 where
  no_version version_too_long not_a_tag wrong_character has_dots no_digit : VersionError

pub data RequestError : Type 0 where
  bad_version : VersionError → RequestError
  bad_operation : OperationIdError → RequestError
  cannot_read unreadable too_old names_no_release cannot_start : RequestError

abbrev pub is_version_character : ℕ → Bool
is_version_character c = is_ascii_alphanumeric c || c == b'.' || c == b'-' || c == b'+' || c == b'_'

-- `version[1..].starts_with(|c| c.is_ascii_digit())`, where the version has two bytes or more
abbrev pub digit_second : Text → Bool
digit_second [] = false
digit_second (c ∷ []) = false
digit_second (c ∷ d ∷ t) = leb b'0' d && leb d b'9'

unfoldable pub validate_version : Text → Result VersionError (Unit {0})
unfolding byte_len starts_with contains is_ascii_alphanumeric
validate_version version = do
  _ ← guard (not (is_empty_text version)) no_version
  _ ← guard (not (ltb max_version (byte_len version))) version_too_long
  _ ← guard (starts_with version (codes "v")) not_a_tag
  _ ← guard (all_characters is_version_character version) wrong_character
  _ ← guard (not (contains version (codes ".."))) has_dots
  guard (not (ltb (byte_len version) 2) && digit_second version) no_digit

abbrev pub with_error {ε ζ α} :
    {Fault : Type ε} {Error : Type ζ} {Out : Type α}
    → (Fault → Error)
    → Result Fault Out
    → Result Error Out
with_error f (err fault) = err (f fault)
with_error f (ok out) = ok out

abbrev pub validate_optional : Option Text → Result RequestError (Unit {0})
validate_optional none = ok tt
validate_optional (some operation) = with_error bad_operation (validate_operation_id operation)

-- `UpdateRequest::new`
unfoldable pub new_request :
    ℕ → Text → Option Text → Option Text → Result RequestError UpdateRequest
unfolding validate_version validate_operation_id
new_request now version requested_by operation_id = do
  _ ← with_error bad_version (validate_version version)
  _ ← validate_optional operation_id
  ok (record {
    version = version;
    requested_at = now;
    requested_by = requested_by;
    operation_id = operation_id;
  })

pub record RequestSerde : Type 0 where
  pub request_text : UpdateRequest → Text
  pub read_request : Text → Option UpdateRequest

-- What the file system lets a process do with the file of the request.
pub record FileAccess : Type 0 where
  pub readable : Bool
  pub removable : Bool

abbrev pub full_access : FileAccess
full_access = record { readable = true; removable = true }

-- The file of the request.
abbrev pub RequestFile : Type 0
RequestFile = Option Text

-- `write`: the file afterwards
unfoldable pub write : RequestSerde → UpdateRequest → RequestFile → Result RequestError RequestFile
unfolding validate_version
write serde request file =
    with_error bad_version (validate_version request.version)
    >> ok (some (serde.request_text request))

-- What `consume` does with the text of the file.
unfoldable pub accept : RequestSerde → ℕ → Text → Result RequestError UpdateRequest
unfolding validate_version validate_operation_id
accept serde now raw = do
  request ← or_err (serde.read_request raw) unreadable
  _ ← with_error bad_version (validate_version request.version)
  _ ← validate_optional request.operation_id
  _ ← guard (not (ltb max_age_seconds (now - request.requested_at))) too_old
  ok request

abbrev pub accepted : Result RequestError UpdateRequest → Result RequestError (Option UpdateRequest)
accepted (err e) = err e
accepted (ok request) = ok (some request)

-- `remove_file`, whose errors the code ignores.
abbrev pub remove_file : FileAccess → RequestFile → RequestFile
remove_file access file = if access.removable then none else file

-- `consume`: the answer, and the file afterwards.
unfoldable pub consume :
    RequestSerde
    → ℕ
    → FileAccess
    → RequestFile
    → Result RequestError (Option UpdateRequest) × RequestFile
unfolding accept
consume serde now access none = if access.readable then (ok none, none) else (err cannot_read, none)
consume serde now access (some raw) =
    if access.readable
    then (accepted (accept serde now raw), remove_file access (some raw))
    else (err cannot_read, some raw)

pub data Apply : Type 0 where
  requested : UpdateRequest → Apply
  handed_over : Text → Apply

-- `Apply::version`
unfoldable pub apply_version : Apply → Text
apply_version (requested request) = request.version
apply_version (handed_over version) = version

abbrev pub as_requested : Option UpdateRequest → Option Apply
as_requested none = none
as_requested (some request) = some (requested request)

-- `resolve`
unfoldable pub resolve :
    RequestSerde
    → ℕ
    → FileAccess
    → (over : Option Text) → RequestFile
    → Result RequestError (Option Apply) × RequestFile
unfolding consume validate_version
resolve serde now access none file =
    let (answer, file') = consume serde now access file in
    (elim answer [ err e ↦ err e | ok request ↦ ok (as_requested request) ], file')
resolve serde now access (some version) file =
    if is_empty_text version then (err names_no_release, file) else (
      (with_error bad_version (validate_version version) >> ok (some (handed_over version))),
      file,
    )

-- `request`; `starts` tells whether the unit of the updater could be started.
unfoldable pub request :
    RequestSerde
    → ℕ
    → FileAccess
    → (starts : Bool) → Text
    → Option Text
    → Option Text
    → RequestFile
    → Result RequestError UpdateRequest × RequestFile
unfolding new_request write
request serde now access starts version requested_by operation_id file =
    elim (new_request now version requested_by operation_id) [
      | err e ↦ (err e, file)
      | ok made ↦ elim (write serde made file) [
        | err e ↦ (err e, file)
        | ok file' ↦
            if starts then (ok made, file') else (err cannot_start, remove_file access file')
      ]
    ]
