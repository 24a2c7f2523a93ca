-- ===== src/Remote/Inbox/Delivery.antt =====
-- Delivery is at least once, execution at most once: what the inbox guarantees over every sequence
-- of deliveries and state changes.
use asterism.Prelude.{
  ℕ, ◌+◌, String, ◌≡◌, refl, ap, ◌∙◌, Bool, true, false, not, ◌&&◌, ◌||◌, inl, inr, Option, none,
  some, List, [], ◌∷◌, ◌++◌, ◌⊎◌, arith, str_eq, eq_iff, if◌then◌else◌, Bool-cases,
}
use asterism.Prelude.Results.{ok, err}
use asterism.Prelude.Table.{
  modify_rows, map_option, or_else, is_some, find_row-modify_rows, find_row-snoc,
}
use asterism.Text.{Text}
use asterism.Json.{Value}
use asterism.Registry.Requests.{Serde}
use asterism.Remote.Tables.{CommandState, CommandRow, RemoteTables, map_command}
use asterism.Remote.Inbox.{
  CommandAdmission, fresh, duplicate, payload_mismatch, command_key, find_command, admitted_row,
  admit_remote_command, set_remote_command_state, completed_row, complete_remote_command,
}

-- One call on the inbox.
pub data Call : Type 0 where
  admit :
      (now : ℕ) (command_id command : String) (project_id : Option String) (payload_digest : String)
      → Call
  set_state : (now : ℕ) (command_id : String) (state : CommandState) → Call
  complete :
      (now : ℕ) (command_id : String) (state : CommandState) (response : Option Value)
      (error_code error_message : Option String)
      → Call

module _ (serde : Serde) (decimal : ℕ → Text) where
  -- The tables after a call; a completion of an unknown command leaves them as they are.
  unfoldable pub after_call : Call → RemoteTables → RemoteTables
  after_call (admit now id command project digest) t =
      (admit_remote_command serde now id command project digest t).1
  after_call (set_state now id state) t = set_remote_command_state now id state t
  after_call (complete now id state response code message) t =
      elim (complete_remote_command serde decimal now id state response code message t) [
        | ok (r, t') ↦ t'
        | err e ↦ t
      ]

  abbrev is_fresh : CommandAdmission → Bool
  is_fresh (fresh r) = true
  is_fresh _ = false

  -- Whether a call hands the command `id` out for execution.
  unfoldable pub starts : String → Call → RemoteTables → Bool
  starts id (admit now command_id command project digest) t =
      str_eq command_id id
      && is_fresh (admit_remote_command serde now command_id command project digest t).0
  starts id _ t = false

  unfoldable pub after_calls : List Call → RemoteTables → RemoteTables
  after_calls [] t = t
  after_calls (c ∷ cs) t = after_calls cs (after_call c t)

  -- How often a sequence of calls hands the command `id` out for execution.
  unfoldable pub executions : String → List Call → RemoteTables → ℕ
  executions id [] t = 0
  executions id (c ∷ cs) t = (if starts id c t then 1 else 0) + executions id cs (after_call c t)

-- Whether the command `id` is delivered at all.
abbrev pub delivers : String → Call → Bool
delivers id (admit now command_id command project digest) = str_eq command_id id
delivers id _ = false

abbrev pub delivered : String → List Call → Bool
delivered id [] = false
delivered id (c ∷ cs) = delivers id c || delivered id cs

find_command-modified :
    (j id : String) (f : CommandRow → CommandRow) (t : RemoteTables)
    → ((r : CommandRow) → command_key (f r) ≡ command_key r)
    → find_command j (record t { commands = modify_rows command_key id f t.commands })
      ≡ (if str_eq id j then map_option f (find_command j t) else find_command j t)
unfolding find_command
find_command-modified j id f t same = find_row-modify_rows command_key j id f t.commands same

is_some-modified :
    (j id : String) (f : CommandRow → CommandRow) (t : RemoteTables)
    → ((r : CommandRow) → command_key (f r) ≡ command_key r)
    → is_some (find_command j (record t { commands = modify_rows command_key id f t.commands }))
      ≡ is_some (find_command j t)
is_some-modified j id f t same = ground (arith, find_command-modified j id f t same)

digest-modified :
    (id j : String) (f : CommandRow → CommandRow) (t : RemoteTables) (row : CommandRow)
    → ((r : CommandRow) → command_key (f r) ≡ command_key r)
    → ((r : CommandRow) → (f r).payload_digest ≡ r.payload_digest)
    → find_command id t ≡ some row
    → (row' : CommandRow) × (find_command id
          (record t { commands = modify_rows command_key j f t.commands })
        ≡ some row')
      × (row'.payload_digest ≡ row.payload_digest)
digest-modified id j f t row same digest h = elim (Bool-cases (str_eq j id)) [
  | inl this ↦ (f row, ground (arith, find_command-modified id j f t same), digest row)
  | inr other ↦ (row, ground (arith, find_command-modified id j f t same), refl)
]

-- The answer to a delivery of a stored command.
admit-stored :
    (serde : Serde) (now : ℕ) (id command : String) (project : Option String) (digest : String)
    (t : RemoteTables) (row : CommandRow)
    → find_command id t ≡ some row
    → admit_remote_command serde now id command project digest t ≡ (
        if str_eq row.payload_digest digest
        then (duplicate (map_command serde row), t)
        else (payload_mismatch row.payload_digest, t))
unfolding admit_remote_command
admit-stored serde now id command project digest t row h = ground arith

or_else-none {ℓ} : {A : Type ℓ} (o : Option A) → or_else o none ≡ o
or_else-none none = refl
or_else-none (some a) = refl

find_command-snoc :
    (id : String) (row : CommandRow) (t : RemoteTables)
    → find_command id (record t { commands = t.commands ++ row ∷ [] })
      ≡ or_else (find_command id t) (if str_eq row.command_id id then some row else none)
unfolding find_command
find_command-snoc id row t = find_row-snoc command_key id t.commands row

-- After a delivery the command is stored: as it was, or as it was delivered.
find_command-admit :
    (serde : Serde) (now : ℕ) (id j command : String) (project : Option String) (digest : String)
    (t : RemoteTables)
    → find_command id (admit_remote_command serde now j command project digest t).1
      ≡ or_else
          (find_command id t)
          (if str_eq j id then some (admitted_row now j command project digest) else none)
unfolding admit_remote_command admitted_row
find_command-admit serde now id j command project digest t = ground (
  arith,
  eq_iff j id,
  or_else-none (find_command id t),
  find_command-snoc id (admitted_row now j command project digest) t,
)

module _ (serde : Serde) (decimal : ℕ → Text) where
  -- A completion writes its row, or leaves the tables alone.
  complete-cases :
      (now : ℕ) (j : String) (state : CommandState) (response : Option Value)
      (code message : Option String) (t : RemoteTables)
      → let call = complete now j state response code message in
        let f = completed_row serde decimal now state response code message in
        (after_call serde decimal call t ≡ t)
        ⊎ (after_call serde decimal call t
            ≡ record t { commands = modify_rows command_key j f t.commands })
  unfolding after_call complete_remote_command
  complete-cases now j state response code message t = ground arith

  -- A call stores a command exactly if it delivers it.
  is_some-after_call :
      (id : String) (c : Call) (t : RemoteTables)
      → is_some (find_command id (after_call serde decimal c t))
        ≡ (delivers id c || is_some (find_command id t))
  unfolding after_call set_remote_command_state completed_row
  is_some-after_call id (admit now j command project digest) t =
      ground (arith, find_command-admit serde now id j command project digest t)
  is_some-after_call id (set_state now j state) t = is_some-modified id j _ t (λ r. refl)
  is_some-after_call id (complete now j state response code message) t =
      elim (complete-cases now j state response code message t) [
        | inl same ↦ ap (λ (u : RemoteTables). is_some (find_command id u)) same
        | inr wrote ↦
            ap (λ (u : RemoteTables). is_some (find_command id u)) wrote
            ∙ is_some-modified id j (completed_row serde decimal now state response code message) t
                (λ r. refl)
      ]

  -- A delivery starts the command exactly if it was not stored.
  starts_lem :
      (id : String) (c : Call) (t : RemoteTables)
      → starts serde decimal id c t ≡ (delivers id c && not (is_some (find_command id t)))
  unfolding starts admit_remote_command
  starts_lem id (admit now j command project digest) t = ground (arith, eq_iff j id)
  starts_lem id _ t = refl

  -- Over every sequence of calls, a command that was not stored before is handed out for execution
  -- exactly once if it is delivered at all, however often, with whatever payload and whatever
  -- state changes in between; a command that is stored is never handed out again.
  pub executed_once :
      (id : String) (calls : List Call) (t : RemoteTables)
      → executions serde decimal id calls t
        ≡ (if is_some (find_command id t) then 0 else if delivered id calls then 1 else 0)
  unfolding executions
  executed_once id [] t = ground arith
  executed_once id (c ∷ cs) t = ground (
    arith,
    starts_lem id c t,
    is_some-after_call id c t,
    executed_once id cs (after_call serde decimal c t),
  )

  -- A stored command keeps its identity and its digest.
  digest-after_call :
      (id : String) (c : Call) (t : RemoteTables) (row : CommandRow)
      → find_command id t ≡ some row
      → (row' : CommandRow) × (find_command id (after_call serde decimal c t) ≡ some row')
        × (row'.payload_digest ≡ row.payload_digest)
  unfolding after_call set_remote_command_state completed_row
  digest-after_call id (admit now j command project digest) t row h =
      (row, ground (arith, find_command-admit serde now id j command project digest t), refl)
  digest-after_call id (set_state now j state) t row h =
      digest-modified id j _ t row (λ r. refl) (λ r. refl) h
  digest-after_call id (complete now j state response code message) t row h =
      elim (complete-cases now j state response code message t) [
        | inl same ↦ (row, ap (find_command id) same ∙ h, refl)
        | inr wrote ↦
            let (row', found, kept) =
              digest-modified id j (completed_row serde decimal now state response code message) t
                row (λ r. refl) (λ r. refl) h in
            (row', ap (find_command id) wrote ∙ found, kept)
      ]

  digest-after_calls :
      (id : String) (calls : List Call) (t : RemoteTables) (row : CommandRow)
      → find_command id t ≡ some row
      → (row' : CommandRow) × (find_command id (after_calls serde decimal calls t) ≡ some row')
        × (row'.payload_digest ≡ row.payload_digest)
  unfolding after_calls
  digest-after_calls id [] t row h = (row, h, refl)
  digest-after_calls id (c ∷ cs) t row h =
      let (row₁, h₁, e₁) = digest-after_call id c t row h in
      let (row₂, h₂, e₂) = digest-after_calls id cs (after_call serde decimal c t) row₁ h₁ in
      (row₂, h₂, e₂ ∙ e₁)

  -- Once a command is stored under a digest, every later delivery of its id changes nothing: under
  -- the same digest it is answered with the record as it stands then, under another digest it is
  -- refused with the digest that was stored first.
  pub redelivery :
      (id : String) (calls : List Call) (t : RemoteTables) (row : CommandRow) (now : ℕ)
      (command : String) (project : Option String) (digest : String)
      → find_command id t ≡ some row
      → let t' = after_calls serde decimal calls t in
        (row' : CommandRow) × (find_command id t' ≡ some row')
        × (admit_remote_command serde now id command project digest t' ≡ (
            if str_eq row.payload_digest digest
            then (duplicate (map_command serde row'), t')
            else (payload_mismatch row.payload_digest, t')))
  redelivery id calls t row now command project digest h =
      let (row', found, kept) = digest-after_calls id calls t row h in
      (row', found, admit-stored serde now id command project digest _ row' found ∙ rw kept)
