-- ===== src/Tests/Protocol.antt =====
-- The handshake at concrete inputs, and its theorems at them.
use asterism.Prelude.{ℕ, ◌≤◌, ◌≡◌, refl, true, false, ◌&&◌, none, some, [], ◌∷◌}
use asterism.Prelude.Results.{err}
use asterism.Prelude.Int.{ℤ, pos, negsuc}
use asterism.Text.{Text, codes, text_eq, byte_len, utf8_len}
use asterism.Json.{null}
use asterism.Protocol.{
  has_version, negotiate_version, sort_versions, insert_version, AuthTranscriptInput, Decimals,
  validate_command, is_allowed_command, forbidden_command,
}
use asterism.Protocol.Versions.{negotiate_version-highest}
use asterism.Protocol.Transcript.{LawfulDecimals, auth_transcript-injective}
use asterism.Tests.ValueCodec.{value_serde, value_serde-Lawful}

highest_chosen : negotiate_version (1 ∷ 3 ∷ 2 ∷ []) (2 ∷ 3 ∷ 4 ∷ []) ≡ some 3
unfolding negotiate_version sort_versions insert_version
highest_chosen = refl

command_refused :
    validate_command value_serde (record {
      command_id = codes "c-1";
      command = codes "host.shell";
      project_id = none;
      command_payload = null;
    })
    ≡ err forbidden_command
unfolding validate_command byte_len utf8_len is_allowed_command text_eq
command_refused = refl

negotiate_version-highest_example :
    ((v : ℕ)
      → negotiate_version (1 ∷ 2 ∷ []) (2 ∷ []) ≡ some v
      → (has_version v (1 ∷ 2 ∷ []) ≡ true)
        × (has_version v (2 ∷ []) ≡ true)
        × ((w : ℕ) → has_version w (1 ∷ 2 ∷ []) ≡ true → has_version w (2 ∷ []) ≡ true → w ≤ v))
    × (negotiate_version (1 ∷ 2 ∷ []) (2 ∷ []) ≡ none
        → (w : ℕ) → (has_version w (1 ∷ 2 ∷ []) && has_version w (2 ∷ [])) ≡ false)
negotiate_version-highest_example = negotiate_version-highest (1 ∷ 2 ∷ []) (2 ∷ [])

abbrev time_text : ℤ → Text
time_text (pos n) = n ∷ []
time_text (negsuc n) = b'-' ∷ n ∷ []

abbrev decimals : Decimals
decimals = record { version_text = λ n. n ∷ []; time_text = time_text }

decimals-Lawful : LawfulDecimals decimals
decimals-Lawful = (version, times)
  where
    version : (m n : ℕ) → Path Text (m ∷ []) (n ∷ []) → m ≡ n
    version m n h = cc

    times : (s t : ℤ) → time_text s ≡ time_text t → s ≡ t
    times (pos m) (pos n) h = cc
    times (pos m) (negsuc n) h = cc
    times (negsuc m) (pos n) h = cc
    times (negsuc m) (negsuc n) h = cc

abbrev hello : AuthTranscriptInput
hello = record {
  input_version = 1;
  node_id = codes "node-1";
  instance_id = codes "i-1";
  session_id = codes "s-1";
  client_nonce = codes "cn";
  server_nonce = codes "sn";
  issued_at = pos 1000;
  expires_at = pos 31000;
  capabilities_digest = codes "d";
}

auth_transcript-injective_example : hello ≡ hello
auth_transcript-injective_example =
    auth_transcript-injective value_serde decimals hello hello value_serde-Lawful decimals-Lawful
      refl
