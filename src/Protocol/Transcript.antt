-- ===== src/Protocol/Transcript.antt =====
-- What a signature is made over names every field of the handshake.
use asterism.Prelude.{ℕ, ◌≡◌, sym, ap, ◌∙◌, Option, some}
use asterism.Prelude.Int.{ℤ}
use asterism.Json.{Value}
use asterism.Registry.Requests.{Serde}
use asterism.Remote.Scrub.History.{LawfulSerde}
use asterism.Protocol.{AuthTranscriptInput, Decimals, transcript_fields, auth_transcript}

-- Different numbers are printed differently.
abbrev pub LawfulDecimals : Decimals → Type 0
LawfulDecimals decimals =
    ((m n : ℕ) → decimals.version_text m ≡ decimals.version_text n → m ≡ n)
    × ((s t : ℤ) → decimals.time_text s ≡ decimals.time_text t → s ≡ t)

some-injective : {v w : Value} → Path (Option Value) (some v) (some w) → v ≡ w
some-injective h = cc

-- The texts of the fields are those of the input.
abbrev SameTexts : Decimals → AuthTranscriptInput → AuthTranscriptInput → Type 0
SameTexts decimals a b =
    (a.capabilities_digest ≡ b.capabilities_digest)
    × (a.client_nonce ≡ b.client_nonce)
    × (decimals.time_text a.expires_at ≡ decimals.time_text b.expires_at)
    × (a.instance_id ≡ b.instance_id)
    × (decimals.time_text a.issued_at ≡ decimals.time_text b.issued_at)
    × (a.node_id ≡ b.node_id)
    × (decimals.version_text a.input_version ≡ decimals.version_text b.input_version)
    × (a.server_nonce ≡ b.server_nonce)
    × (a.session_id ≡ b.session_id)

transcript_fields-SameTexts :
    (decimals : Decimals) (a b : AuthTranscriptInput)
    → transcript_fields decimals a ≡ transcript_fields decimals b
    → SameTexts decimals a b
unfolding transcript_fields
transcript_fields-SameTexts decimals a b h = (cc, cc, cc, cc, cc, cc, cc, cc, cc)

-- Where serde reads back what it writes and numbers are printed differently, two handshakes with
-- the same transcript agree in every field, so a signature over one is a signature over no other.
pub auth_transcript-injective :
    (serde : Serde) (decimals : Decimals) (a b : AuthTranscriptInput)
    → LawfulSerde serde
    → LawfulDecimals decimals
    → auth_transcript serde decimals a ≡ auth_transcript serde decimals b
    → a ≡ b
unfolding auth_transcript
auth_transcript-injective serde decimals a b law (versions, times) h =
    let same = some-injective (
      sym (law (transcript_fields decimals a))
      ∙ (ap serde.from_str h ∙ law (transcript_fields decimals b))) in
    let (digest, client, expires, instance_id, issued, node, version, server, session) =
      transcript_fields-SameTexts decimals a b same in
    whole a b (versions a.input_version b.input_version version) node instance_id session client
      server (times a.issued_at b.issued_at issued) (times a.expires_at b.expires_at expires) digest
  where
    whole :
        (a b : AuthTranscriptInput)
        → a.input_version ≡ b.input_version
        → a.node_id ≡ b.node_id
        → a.instance_id ≡ b.instance_id
        → a.session_id ≡ b.session_id
        → a.client_nonce ≡ b.client_nonce
        → a.server_nonce ≡ b.server_nonce
        → a.issued_at ≡ b.issued_at
        → a.expires_at ≡ b.expires_at
        → a.capabilities_digest ≡ b.capabilities_digest
        → a ≡ b
    whole a b h₁ h₂ h₃ h₄ h₅ h₆ h₇ h₈ h₉ = cc
