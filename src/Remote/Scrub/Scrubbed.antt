-- ===== src/Remote/Scrub/Scrubbed.antt =====
-- The whole rewrite of the stored device authorizations, and the rewrite after it.
use mathlib.Core.Path.{subst}
use asterism.Prelude.{
  ℕ, String, ◌≡◌, refl, sym, ap, ◌∙◌, Bool, true, false, ◌&&◌, ◌||◌, inl, inr, Option, none, some,
  List, [], ◌∷◌, map, arith, str_eq, All, any_row, Bool-cases,
}
use asterism.Prelude.Rewrites.{outdated_rows-none, rewrite_all-map, rewritten, rewrite_all}
use asterism.Text.{Text}
use asterism.Registry.Requests.{Serde}
use asterism.Remote.Tables.{CommandRow, OutboxRow, RemoteTables}
use asterism.Remote.Inbox.{command_key}
use asterism.Remote.Scrub.{
  nothing_scrubbed, is_authorize, stale_commands, stale_response, answers_authorize, stale_payload,
  stale_outbox, with_response, has_command, outbox_key, write_responses, write_payloads, no_rows,
  scrub_device_authorization_history,
}
use asterism.Remote.Scrub.History.{
  LawfulSerde, IsCleanCommand, IsCleanMessage, IsCleanCommand-fresh, write_responses-clean,
}
use asterism.Remote.Scrub.Messages.{IsCleanMessage-fresh, write_payloads-clean}

-- The tables after both loops.
abbrev rewritten_tables : Serde → RemoteTables → RemoteTables
rewritten_tables serde t = record t {
  commands = write_responses (stale_commands serde t.commands) t.commands;
  outbox = write_payloads (stale_outbox serde t.commands t.outbox) t.outbox;
}

no_rows-nil : {A : Type 0} (xs : List A) → no_rows xs ≡ true → xs ≡ []
no_rows-nil [] h = refl
no_rows-nil (x ∷ xs) h = cc

-- The early return leaves what the loops would leave.
scrub-tables :
    (serde : Serde) (truncated : Bool) (t : RemoteTables)
    → (scrub_device_authorization_history serde truncated t).1 ≡ rewritten_tables serde t
unfolding scrub_device_authorization_history write_responses write_payloads
scrub-tables serde truncated t =
    elim (Bool-cases (
      no_rows (stale_commands serde t.commands)
      && no_rows (stale_outbox serde t.commands t.outbox))) [
        | inl nothing ↦
            let commands =
              no_rows-nil (stale_commands serde t.commands) (ground (arith, nothing)) in
            let outbox =
              no_rows-nil (stale_outbox serde t.commands t.outbox) (ground (arith, nothing)) in
            rw nothing (
              sym (
                ap
                  (λ (x : List (String × Text) × List (ℕ × Text)). record t {
                    commands = write_responses x.0 t.commands;
                    outbox = write_payloads x.1 t.outbox;
                  })
                  (ap (λ c. (c, stale_outbox serde t.commands t.outbox)) commands
                    ∙ ap (λ o. ([], o)) outbox)))
        | inr something ↦ rw something refl
      ]

-- An update leaves the identity of a command.
rewritten-identity :
    (updates : List (String × Text)) (row : CommandRow)
    → ((rewritten has_command with_response updates row).command_id ≡ row.command_id)
      × (is_authorize (rewritten has_command with_response updates row) ≡ is_authorize row)
rewritten-identity [] row = (refl, refl)
rewritten-identity ((id, text) ∷ updates) row = elim (Bool-cases (has_command id row)) [
  | inl here ↦ rw (here, rewritten) (rewritten-identity updates (with_response text row))
  | inr there ↦ rw (there, rewritten) (rewritten-identity updates row)
]

abbrev authorizes : String → CommandRow → Bool
authorizes id c = str_eq c.command_id id && is_authorize c

any_row-rewritten :
    (id : String) (updates : List (String × Text)) (rows : List CommandRow)
    → any_row (authorizes id) (map (rewritten has_command with_response updates) rows)
      ≡ any_row (authorizes id) rows
any_row-rewritten id updates [] = refl
any_row-rewritten id updates (row ∷ rows) =
    let (same, kind) = rewritten-identity updates row in
    ap
      (λ (x : String × Bool).
        (str_eq x.0 id && x.1)
        || any_row (authorizes id) (map (rewritten has_command with_response updates) rows))
      (ap (λ i. (i, is_authorize (rewritten has_command with_response updates row))) same
        ∙ ap (λ k. (row.command_id, k)) kind)
    ∙ ap (λ b. (str_eq row.command_id id && is_authorize row) || b)
        (any_row-rewritten id updates rows)

answers_authorize-write_responses :
    (updates : List (String × Text)) (commands : List CommandRow) (row : OutboxRow)
    → answers_authorize (write_responses updates commands) row ≡ answers_authorize commands row
unfolding answers_authorize write_responses
answers_authorize-write_responses updates commands row = answered row.correlation_id
  where
    answered :
        (o : Option String)
        → (elim o [
          | none ↦ false
          | some id ↦
              any_row (authorizes id) (rewrite_all has_command with_response updates commands)
        ])
          ≡ (elim o [ none ↦ false | some id ↦ any_row (authorizes id) commands ])
    answered none = refl
    answered (some id) =
        ap (any_row (authorizes id)) (rewrite_all-map has_command with_response updates commands)
        ∙ any_row-rewritten id updates commands

All-IsCleanMessage :
    (serde : Serde) (updates : List (String × Text)) (commands : List CommandRow)
    (rows : List OutboxRow)
    → All (IsCleanMessage serde commands) rows
    → All (IsCleanMessage serde (write_responses updates commands)) rows
All-IsCleanMessage serde updates commands [] h = tt
All-IsCleanMessage serde updates commands (row ∷ rows) (h, hs) = (
  λ answers. h (sym (answers_authorize-write_responses updates commands row) ∙ answers),
  All-IsCleanMessage serde updates commands rows hs,
)

fresh_commands :
    (serde : Serde) (rows : List CommandRow)
    → All (IsCleanCommand serde) rows
    → All (λ row. stale_response serde row ≡ none) rows
fresh_commands serde [] h = tt
fresh_commands serde (row ∷ rows) (h, hs) =
    (IsCleanCommand-fresh serde row h, fresh_commands serde rows hs)

fresh_messages :
    (serde : Serde) (commands : List CommandRow) (rows : List OutboxRow)
    → All (IsCleanMessage serde commands) rows
    → All (λ row. stale_payload serde commands row ≡ none) rows
fresh_messages serde commands [] h = tt
fresh_messages serde commands (row ∷ rows) (h, hs) =
    (IsCleanMessage-fresh serde commands row h, fresh_messages serde commands rows hs)

-- No stored answer of an authorization and no message with one holds a device code.
abbrev pub IsScrubbed : Serde → RemoteTables → Type 0
IsScrubbed serde t =
    All (IsCleanCommand serde) t.commands × All (IsCleanMessage serde t.commands) t.outbox

rewritten_tables-IsScrubbed :
    (serde : Serde) (t : RemoteTables)
    → LawfulSerde serde
    → IsScrubbed serde (rewritten_tables serde t)
rewritten_tables-IsScrubbed serde t law = (
  write_responses-clean serde t.commands law,
  All-IsCleanMessage serde (stale_commands serde t.commands) t.commands
      (write_payloads (stale_outbox serde t.commands t.outbox) t.outbox)
      (write_payloads-clean serde t.commands t.outbox law),
)

scrub-again :
    (serde : Serde) (truncated : Bool) (t : RemoteTables)
    → IsScrubbed serde t
    → scrub_device_authorization_history serde truncated t ≡ (nothing_scrubbed, t)
unfolding scrub_device_authorization_history stale_commands stale_outbox
scrub-again serde truncated t (commands, outbox) =
    rw
      (
        outdated_rows-none command_key (stale_response serde) t.commands
            (fresh_commands serde t.commands commands),
        outdated_rows-none outbox_key (stale_payload serde t.commands) t.outbox
            (fresh_messages serde t.commands t.outbox outbox),
      )
      refl

-- Where serde reads back what it writes, after the rewrite no stored answer of a device
-- authorization, and no stored message that carries such an answer, holds a link or a code; and a
-- second rewrite changes nothing and reports nothing.
pub scrub-IsScrubbed :
    (serde : Serde) (truncated : Bool) (t : RemoteTables)
    → LawfulSerde serde
    → IsScrubbed serde (scrub_device_authorization_history serde truncated t).1
      × (scrub_device_authorization_history serde truncated
            (scrub_device_authorization_history serde truncated t).1
          ≡ (nothing_scrubbed, (scrub_device_authorization_history serde truncated t).1))
scrub-IsScrubbed serde truncated t law =
    let scrubbed =
      subst (IsScrubbed serde) (sym (scrub-tables serde truncated t))
        (rewritten_tables-IsScrubbed serde t law) in
    (
      scrubbed,
      scrub-again serde truncated (scrub_device_authorization_history serde truncated t).1 scrubbed,
    )
