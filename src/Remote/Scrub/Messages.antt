-- ===== src/Remote/Scrub/Messages.antt =====
-- After the rewrite the stored messages carry no device code either, and a second rewrite finds
-- nothing.
use mathlib.Core.Path.{subst}
use asterism.Prelude.{
  ℕ, ◌≡◌, refl, sym, ap, ◌∙◌, true, false, inl, inr, ◌⊎◌, Option, none, some, List, [], ◌∷◌, arith,
  All, Bool-cases,
}
use asterism.Prelude.Rewrites.{
  outdated_rows, rewrite_all-map, rewritten_rows-good, reaches, rows-Covered, outdated_rows-AllNew,
}
use asterism.Text.{Text, codes, text_eq}
use asterism.Json.{Value, null, bool, number, string, array, object, Fields, find_field, get_key}
use asterism.Redact.Metadata.{insert_field}
use asterism.DeviceDelivery.{carries_material, scrubbed}
use asterism.DeviceDelivery.Material.{carries_material-scrubbed, find_field-insert_field}
use asterism.Registry.Requests.{Serde}
use asterism.Remote.Tables.{CommandRow, OutboxRow}
use asterism.Remote.Scrub.{
  answers_authorize, scrub_payload, scrub_result, stale_payload, stale_outbox, with_payload, has_id,
  outbox_key, write_payloads,
}
use asterism.Remote.Scrub.History.{LawfulSerde, IsCleanMessage, IsCleanPayload}

some-injective : {A : Type 0} {a b : A} → Path (Option A) (some a) (some b) → a ≡ b
some-injective h = cc

IsCleanPayload-rewritten :
    (serde : Serde) (fs : Fields) (result : Value)
    → LawfulSerde serde
    → IsCleanPayload serde
        (serde.to_string (object (insert_field (codes "result") (scrubbed result) fs)))
unfolding text_eq
IsCleanPayload-rewritten serde fs result law v found read at =
    let whole =
      some-injective
        (sym (law (object (insert_field (codes "result") (scrubbed result) fs))) ∙ read) in
    let same = some-injective (
      sym (find_field-insert_field (codes "result") (codes "result") (scrubbed result) fs)
      ∙ (ap (get_key (codes "result")) whole ∙ at)) in
    subst (λ u. carries_material u ≡ false) same (carries_material-scrubbed result)

scrub_payload-IsCleanPayload :
    (serde : Serde) (o : Option Value) (text : Text)
    → LawfulSerde serde
    → scrub_payload serde o ≡ some text
    → IsCleanPayload serde text
scrub_payload-IsCleanPayload serde none text law e = cc
scrub_payload-IsCleanPayload serde (some (object fs)) text law e =
    result (find_field (codes "result") fs) e
  where
    result :
        (r : Option Value)
        → scrub_result serde (object fs) r ≡ some text
        → IsCleanPayload serde text
    result none e = cc
    result (some u) e = elim (Bool-cases (carries_material u)) [
      | inl carried ↦
          subst (IsCleanPayload serde) (ground (arith, e, carried))
            (IsCleanPayload-rewritten serde fs u law)
      | inr clean ↦ ground (arith, e, clean)
    ]
scrub_payload-IsCleanPayload serde (some _) text law e = cc

stale-IsCleanPayload :
    (serde : Serde) (commands : List CommandRow) (row : OutboxRow) (text : Text)
    → LawfulSerde serde
    → stale_payload serde commands row ≡ some text
    → IsCleanPayload serde text
unfolding stale_payload
stale-IsCleanPayload serde commands row text law stale =
    scrub_payload-IsCleanPayload serde (serde.from_str row.payload) text law (ground (arith, stale))

scrub_payload-fresh :
    (serde : Serde) (o : Option Value) (v result : Value)
    → scrub_payload serde o ≡ none
    → o ≡ some v
    → get_key (codes "result") v ≡ some result
    → carries_material result ≡ false
scrub_payload-fresh serde o (object fs) result fresh same at = ground (arith, fresh, same, at)
scrub_payload-fresh serde o null result fresh same at = cc
scrub_payload-fresh serde o (bool b) result fresh same at = cc
scrub_payload-fresh serde o (number n) result fresh same at = cc
scrub_payload-fresh serde o (string s) result fresh same at = cc
scrub_payload-fresh serde o (array xs) result fresh same at = cc

fresh-IsCleanMessage :
    (serde : Serde) (commands : List CommandRow) (row : OutboxRow)
    → stale_payload serde commands row ≡ none
    → IsCleanMessage serde commands row
unfolding stale_payload
fresh-IsCleanMessage serde commands row fresh answers v result read at =
    scrub_payload-fresh serde (serde.from_str row.payload) v result (ground (arith, fresh, answers))
      read at

scrub_payload-clean :
    (serde : Serde) (o : Option Value)
    → ((v result : Value)
        → o ≡ some v
        → get_key (codes "result") v ≡ some result
        → carries_material result ≡ false)
    → scrub_payload serde o ≡ none
scrub_payload-clean serde none clean = refl
scrub_payload-clean serde (some (object fs)) clean =
    found (find_field (codes "result") fs) (λ r e. clean (object fs) r refl e)
  where
    found :
        (o : Option Value)
        → ((r : Value) → o ≡ some r → carries_material r ≡ false)
        → scrub_result serde (object fs) o ≡ none
    found none h = refl
    found (some r) h = rw (h r refl) refl
scrub_payload-clean serde (some _) clean = refl

pub IsCleanMessage-fresh :
    (serde : Serde) (commands : List CommandRow) (row : OutboxRow)
    → IsCleanMessage serde commands row
    → stale_payload serde commands row ≡ none
unfolding stale_payload
IsCleanMessage-fresh serde commands row clean = elim (Bool-cases (answers_authorize commands row)) [
  | inl answers ↦
      ground
        (arith, answers, scrub_payload-clean serde (serde.from_str row.payload) (clean answers))
  | inr other ↦ ground (arith, other)
]

Covered-clean :
    (serde : Serde) (commands : List CommandRow) (updates : List (ℕ × Text)) (rows : List OutboxRow)
    → All
        (λ row.
          (stale_payload serde commands row ≡ none)
          ⊎ (reaches has_id with_payload updates row ≡ true))
        rows
    → All
        (λ row.
          IsCleanMessage serde commands row ⊎ (reaches has_id with_payload updates row ≡ true))
        rows
Covered-clean serde commands updates [] h = tt
Covered-clean serde commands updates (row ∷ rows) (inl fresh, hs) = (
  inl (fresh-IsCleanMessage serde commands row fresh),
  Covered-clean serde commands updates rows hs,
)
Covered-clean serde commands updates (row ∷ rows) (inr reached, hs) =
    (inr reached, Covered-clean serde commands updates rows hs)

pub write_payloads-clean :
    (serde : Serde) (commands : List CommandRow) (rows : List OutboxRow)
    → LawfulSerde serde
    → All (IsCleanMessage serde commands) (write_payloads (stale_outbox serde commands rows) rows)
unfolding write_payloads stale_outbox
write_payloads-clean serde commands rows law =
    let stale = stale_payload serde commands in
    let updates = outdated_rows outbox_key stale rows in
    let own : (row : OutboxRow) → has_id row.id row ≡ true = λ row. ground arith in
    subst (All (IsCleanMessage serde commands))
      (sym (rewrite_all-map has_id with_payload updates rows))
      (rewritten_rows-good has_id with_payload (IsCleanMessage serde commands)
        (IsCleanPayload serde) (λ text row clean answers. clean) updates rows
        (outdated_rows-AllNew has_id with_payload outbox_key stale own (IsCleanPayload serde)
          (λ row text e. stale-IsCleanPayload serde commands row text law e) rows)
        (Covered-clean serde commands updates rows
          (rows-Covered has_id with_payload outbox_key stale own rows)))
