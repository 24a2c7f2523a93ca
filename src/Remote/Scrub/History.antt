-- ===== src/Remote/Scrub/History.antt =====
-- After the rewrite the stored history carries no device code.
use mathlib.Core.Path.{subst}
use asterism.Prelude.{
  String, ◌≡◌, refl, sym, ◌∙◌, true, false, inl, inr, ◌⊎◌, Option, none, some, List, [], ◌∷◌, arith,
  eq_iff, All, Bool-cases,
}
use asterism.Prelude.Rewrites.{
  outdated_rows, rewrite_all-map, rewritten_rows-good, reaches, rows-Covered, outdated_rows-AllNew,
}
use asterism.Text.{Text, codes}
use asterism.Json.{Value, get_key}
use asterism.DeviceDelivery.{carries_material, scrubbed}
use asterism.DeviceDelivery.Material.{carries_material-scrubbed}
use asterism.Registry.Requests.{Serde}
use asterism.Remote.Tables.{CommandRow, OutboxRow}
use asterism.Remote.Inbox.{command_key}
use asterism.Remote.Scrub.{
  is_authorize, stale_response, stale_commands, scrub_text, scrub_value, answers_authorize,
  with_response, has_command, write_responses,
}

-- A value that is written is read back.
abbrev pub LawfulSerde : Serde → Type 0
LawfulSerde serde = (v : Value) → serde.from_str (serde.to_string v) ≡ some v

-- The text holds no result with a device code.
abbrev pub IsCleanText : Serde → Text → Type 0
IsCleanText serde text = (v : Value) → serde.from_str text ≡ some v → carries_material v ≡ false

-- A stored answer of an authorization holds no device code.
abbrev pub IsCleanCommand : Serde → CommandRow → Type 0
IsCleanCommand serde row =
    is_authorize row ≡ true
    → (text : Text) → row.response_payload ≡ some text
    → IsCleanText serde text

-- The result in a message holds no device code.
abbrev pub IsCleanPayload : Serde → Text → Type 0
IsCleanPayload serde text =
    (v result : Value)
    → serde.from_str text ≡ some v
    → get_key (codes "result") v ≡ some result
    → carries_material result ≡ false

-- A stored message that answers an authorization holds no device code.
abbrev pub IsCleanMessage : Serde → List CommandRow → OutboxRow → Type 0
IsCleanMessage serde commands row =
    answers_authorize commands row ≡ true → IsCleanPayload serde row.payload

IsCleanText-scrubbed :
    (serde : Serde) (v : Value)
    → LawfulSerde serde
    → IsCleanText serde (serde.to_string (scrubbed v))
IsCleanText-scrubbed serde v law w read =
    subst (λ u. carries_material u ≡ false) (some-injective (sym (law (scrubbed v)) ∙ read))
      (carries_material-scrubbed v)
  where
    some-injective : {a b : Value} → Path (Option Value) (some a) (some b) → a ≡ b
    some-injective h = cc

scrub_text-IsCleanText :
    (serde : Serde) (stored : Option Text) (text : Text)
    → LawfulSerde serde
    → scrub_text serde stored ≡ some text
    → IsCleanText serde text
scrub_text-IsCleanText serde none text law stale = cc
scrub_text-IsCleanText serde (some old) text law stale = parsed (serde.from_str old) stale
  where
    parsed : (o : Option Value) → scrub_value serde o ≡ some text → IsCleanText serde text
    parsed none e = cc
    parsed (some v) e = elim (Bool-cases (carries_material v)) [
      | inl carried ↦
          subst (IsCleanText serde) (ground (arith, e, carried)) (IsCleanText-scrubbed serde v law)
      | inr clean ↦ ground (arith, e, clean)
    ]

-- The text that a row gets is clean.
stale-IsCleanText :
    (serde : Serde) (row : CommandRow) (text : Text)
    → LawfulSerde serde
    → stale_response serde row ≡ some text
    → IsCleanText serde text
unfolding stale_response
stale-IsCleanText serde row text law stale =
    scrub_text-IsCleanText serde row.response_payload text law (ground (arith, stale))

-- A row that is not stale is clean.
pub fresh-IsCleanCommand :
    (serde : Serde) (row : CommandRow) → stale_response serde row ≡ none → IsCleanCommand serde row
unfolding stale_response
fresh-IsCleanCommand serde row fresh authorize text stored v read =
    ground (arith, fresh, authorize, stored, read)

scrub_text-clean :
    (serde : Serde) (stored : Option Text)
    → ((text : Text) → stored ≡ some text → IsCleanText serde text)
    → scrub_text serde stored ≡ none
scrub_text-clean serde none clean = refl
scrub_text-clean serde (some text) clean = parsed (serde.from_str text) (clean text refl)
  where
    parsed :
        (o : Option Value)
        → ((v : Value) → o ≡ some v → carries_material v ≡ false)
        → scrub_value serde o ≡ none
    parsed none h = refl
    parsed (some v) h = rw (h v refl) refl

-- A clean row is not stale.
pub IsCleanCommand-fresh :
    (serde : Serde) (row : CommandRow) → IsCleanCommand serde row → stale_response serde row ≡ none
unfolding stale_response
IsCleanCommand-fresh serde row clean = elim (Bool-cases (is_authorize row)) [
  | inl authorize ↦
      ground (arith, authorize, scrub_text-clean serde row.response_payload (clean authorize))
  | inr other ↦ ground (arith, other)
]

with_response-clean :
    (serde : Serde) (text : Text) (row : CommandRow)
    → IsCleanText serde text
    → IsCleanCommand serde (with_response text row)
with_response-clean serde text row clean authorize stored same =
    subst (IsCleanText serde) (some-injective same) clean
  where
    some-injective : {a b : Text} → Path (Option Text) (some a) (some b) → a ≡ b
    some-injective h = cc

Covered-clean :
    (serde : Serde) (updates : List (String × Text)) (rows : List CommandRow)
    → All
        (λ row.
          (stale_response serde row ≡ none)
          ⊎ (reaches has_command with_response updates row ≡ true))
        rows
    → All
        (λ row. IsCleanCommand serde row ⊎ (reaches has_command with_response updates row ≡ true))
        rows
Covered-clean serde updates [] h = tt
Covered-clean serde updates (row ∷ rows) (inl fresh, hs) =
    (inl (fresh-IsCleanCommand serde row fresh), Covered-clean serde updates rows hs)
Covered-clean serde updates (row ∷ rows) (inr reached, hs) =
    (inr reached, Covered-clean serde updates rows hs)

-- Each stored answer is clean after the updates.
pub write_responses-clean :
    (serde : Serde) (rows : List CommandRow)
    → LawfulSerde serde
    → All (IsCleanCommand serde) (write_responses (stale_commands serde rows) rows)
unfolding write_responses stale_commands
write_responses-clean serde rows law =
    let updates = outdated_rows command_key (stale_response serde) rows in
    let own = λ (row : CommandRow). (eq_iff row.command_id row.command_id).1 refl in
    subst (All (IsCleanCommand serde))
      (sym (rewrite_all-map has_command with_response updates rows))
      (rewritten_rows-good has_command with_response (IsCleanCommand serde) (IsCleanText serde)
        (with_response-clean serde) updates rows
        (outdated_rows-AllNew has_command with_response command_key (stale_response serde) own
          (IsCleanText serde) (λ row text stale. stale-IsCleanText serde row text law stale) rows)
        (Covered-clean serde updates rows
          (rows-Covered has_command with_response command_key (stale_response serde) own rows)))
