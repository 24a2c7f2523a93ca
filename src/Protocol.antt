-- ===== src/Protocol.antt =====
-- src/protocol.rs: envelopes, commands and the handshake between the Node and the Control Plane.
-- serde's reader and writer of envelopes, the decimal printers and SHA-256 are parameters.
pub mod Versions
pub mod Transcript
use asterism.Prelude.{
  ℕ, ◌*◌, Bool, true, false, not, ◌&&◌, ◌||◌, Option, none, some, List, [], ◌∷◌, map, ltb, leb,
  ◌==◌, if◌then◌else◌, any_row, where_rows,
}
use asterism.Prelude.Results.{Result, ok, err, ◌>>=◌, ◌>>◌, guard, or_err}
use asterism.Prelude.Int.{ℤ}
use asterism.Text.{Text, codes, text_eq, byte_len}
use asterism.Json.{Value, null, string, object, end, field}
use asterism.Registry.Requests.{Serde}

abbrev pub supported_versions : List ℕ
supported_versions = 1 ∷ []

abbrev pub protocol_version : ℕ
protocol_version = 1

abbrev pub max_frame_bytes : ℕ
max_frame_bytes = 1024 * 1024

abbrev pub max_command_payload_bytes : ℕ
max_command_payload_bytes = 128 * 1024

abbrev pub auth_domain : Text
auth_domain = codes "asterism-node-auth/v1"

pub record Envelope : Type 0 where
  pub envelope_version : ℕ
  pub message_id : Text
  pub message_type : Text
  pub timestamp : ℤ
  pub correlation_id : Option Text
  pub payload : Value

-- `Envelope::new`, with the fresh identifier and the clock as arguments
unfoldable pub new_envelope : Text → ℤ → Text → Value → Envelope
new_envelope message_id now message_type payload = record {
  envelope_version = protocol_version;
  message_id = message_id;
  message_type = message_type;
  timestamp = now;
  correlation_id = none;
  payload = payload;
}

-- `Envelope::correlate`
unfoldable pub correlate : Text → Envelope → Envelope
correlate id envelope = record envelope { correlation_id = some id }

pub data ErrorCode : Type 0 where
  malformed_frame frame_too_large unsupported_version unknown_message_type not_authenticated :
      ErrorCode
  authentication_failed challenge_expired challenge_replayed unknown_node payload_too_large :
      ErrorCode
  unknown_command forbidden_command project_not_registered duplicate_payload_mismatch : ErrorCode
  command_failed internal : ErrorCode

unfoldable pub as_str : ErrorCode → Text
as_str malformed_frame = codes "malformed_frame"
as_str frame_too_large = codes "frame_too_large"
as_str unsupported_version = codes "unsupported_version"
as_str unknown_message_type = codes "unknown_message_type"
as_str not_authenticated = codes "not_authenticated"
as_str authentication_failed = codes "authentication_failed"
as_str challenge_expired = codes "challenge_expired"
as_str challenge_replayed = codes "challenge_replayed"
as_str unknown_node = codes "unknown_node"
as_str payload_too_large = codes "payload_too_large"
as_str unknown_command = codes "unknown_command"
as_str forbidden_command = codes "forbidden_command"
as_str project_not_registered = codes "project_not_registered"
as_str duplicate_payload_mismatch = codes "duplicate_payload_mismatch"
as_str command_failed = codes "command_failed"
as_str internal = codes "internal"

-- `ProtocolError::into_envelope`; elsewhere an error is its code alone, without the message
unfoldable pub error_envelope : Text → ℤ → ErrorCode → Text → Option Text → Envelope
unfolding as_str new_envelope correlate
error_envelope id now code message correlation =
    let envelope = new_envelope id now (codes "error") (
      object (
        field (codes "code") (string (as_str code))
          (field (codes "message") (string message) end))) in
    elim correlation [ some reply ↦ correlate reply envelope | none ↦ envelope ]

pub record EnvelopeSerde : Type 0 where
  pub envelope_text : Envelope → Text
  pub read_envelope : Text → Option Envelope

-- The refusal of `encode`.
pub data EncodeError : Type 0 where
  exceeds_the_limit : EncodeError

-- `Envelope::encode`
unfoldable pub encode : EnvelopeSerde → Envelope → Result EncodeError Text
unfolding byte_len
encode serde envelope =
    let text = serde.envelope_text envelope in
    if ltb max_frame_bytes (byte_len text) then err exceeds_the_limit else ok text

-- `text.is_empty() || text.len() > limit`
abbrev pub out_of_bounds : ℕ → Text → Bool
out_of_bounds limit text = byte_len text == 0 || ltb limit (byte_len text)

abbrev pub has_version : ℕ → List ℕ → Bool
has_version version versions = any_row (λ v. v == version) versions

-- `Envelope::decode`
unfoldable pub decode : EnvelopeSerde → Text → Result ErrorCode Envelope
unfolding byte_len
decode serde text = do
  _ ← guard (not (ltb max_frame_bytes (byte_len text))) frame_too_large
  envelope ← or_err (serde.read_envelope text) malformed_frame
  _ ← guard (has_version envelope.envelope_version supported_versions) unsupported_version
  _ ← guard (not (out_of_bounds 128 envelope.message_id)) malformed_frame
  _ ← guard (not (out_of_bounds 64 envelope.message_type)) malformed_frame
  ok envelope

abbrev pub allowed_commands : List Text
allowed_commands = map codes (
    "capabilities.get" ∷ "projects.list" ∷ "runs.create" ∷ "runs.list" ∷ "runs.get" ∷ "runs.cancel"
    ∷ "runs.retry" ∷ "runs.approval_policy" ∷ "project.provision" ∷ "project.resume"
    ∷ "project.suspend" ∷ "project.credential.assign" ∷ "project.model.select" ∷ "approvals.resolve"
    ∷ "events.subscribe" ∷ "events.unsubscribe" ∷ "node.drain" ∷ "node.update" ∷ "provider.status"
    ∷ "credentials.list" ∷ "credentials.authorize" ∷ "credentials.cancel" ∷ "credentials.rename"
    ∷ "credentials.reauthorize" ∷ "credentials.revoke" ∷ "provider.authorize" ∷ "provider.cancel"
    ∷ [])

unfoldable pub is_allowed_command : Text → Bool
unfolding text_eq
is_allowed_command name = any_row (λ allowed. text_eq allowed name) allowed_commands

-- `shared.sort_unstable()`
unfoldable pub insert_version : ℕ → List ℕ → List ℕ
insert_version v [] = v ∷ []
insert_version v (w ∷ rest) = if leb v w then v ∷ w ∷ rest else w ∷ insert_version v rest

unfoldable pub sort_versions : List ℕ → List ℕ
unfolding insert_version
sort_versions [] = []
sort_versions (v ∷ rest) = insert_version v (sort_versions rest)

abbrev pub last_version : List ℕ → Option ℕ
last_version [] = none
last_version (v ∷ []) = some v
last_version (v ∷ w ∷ rest) = last_version (w ∷ rest)

unfoldable pub negotiate_version : List ℕ → List ℕ → Option ℕ
unfolding sort_versions
negotiate_version client server =
    last_version (sort_versions (where_rows (λ version. has_version version server) client))

pub record AuthTranscriptInput : Type 0 where
  pub input_version : ℕ
  pub node_id : Text
  pub instance_id : Text
  pub session_id : Text
  pub client_nonce : Text
  pub server_nonce : Text
  pub issued_at : ℤ
  pub expires_at : ℤ
  pub capabilities_digest : Text

-- The printers of numbers.
pub record Decimals : Type 0 where
  pub version_text : ℕ → Text
  pub time_text : ℤ → Text

-- The map of `auth_transcript`, in the order of its keys.
unfoldable pub transcript_fields : Decimals → AuthTranscriptInput → Value
transcript_fields decimals input = object (
    field (codes "capabilities_digest") (string input.capabilities_digest) (
      field (codes "client_nonce") (string input.client_nonce) (
        field (codes "domain") (string auth_domain) (
          field (codes "expires_at") (string (decimals.time_text input.expires_at)) (
            field (codes "instance_id") (string input.instance_id) (
              field (codes "issued_at") (string (decimals.time_text input.issued_at)) (
                field (codes "node_id") (string input.node_id) (
                  field (codes "protocol_version")
                    (string (decimals.version_text input.input_version))
                    (field (codes "server_nonce") (string input.server_nonce)
                      (field (codes "session_id") (string input.session_id) end))))))))))

unfoldable pub auth_transcript : Serde → Decimals → AuthTranscriptInput → Text
unfolding transcript_fields
auth_transcript serde decimals input = serde.to_string (transcript_fields decimals input)

pub record RemoteCommand : Type 0 where
  pub command_id : Text
  pub command : Text
  pub project_id : Option Text
  pub command_payload : Value

-- `RemoteCommand::validate`
unfoldable pub validate_command : Serde → RemoteCommand → Result ErrorCode (Unit {0})
unfolding byte_len is_allowed_command
validate_command serde c = do
  _ ← guard (not (out_of_bounds 128 c.command_id)) malformed_frame
  _ ← guard (is_allowed_command c.command) forbidden_command
  guard (not (ltb max_command_payload_bytes (byte_len (serde.to_string c.command_payload))))
      payload_too_large

abbrev pub text_or_null : Option Text → Value
text_or_null none = null
text_or_null (some t) = string t

-- `digest_json`; `sha256` is the digest of a text's bytes in lowercase hex.
unfoldable pub digest_json : Serde → (Text → Text) → Value → Text
digest_json serde sha256 value = sha256 (serde.to_string value)

-- `RemoteCommand::fingerprint`
unfoldable pub fingerprint : Serde → (Text → Text) → RemoteCommand → Text
unfolding digest_json
fingerprint serde sha256 c = digest_json serde sha256 (
    object (
      field (codes "command") (string c.command) (
        field (codes "payload") c.command_payload
          (field (codes "project_id") (text_or_null c.project_id) end))))
