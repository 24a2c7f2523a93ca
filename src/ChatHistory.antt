-- ===== src/ChatHistory.antt =====
-- src/chathistory.rs: the conversation that is sent with a continued run. The loop over the retries
-- of a run may not end where retries form a circle, so it has a bound.
pub mod Attempts
pub mod Window
pub mod Built
use asterism.Prelude.{
  ℕ, zero, suc, ◌+◌, ◌-◌, ◌*◌, String, Bool, true, false, ◌&&◌, ◌||◌, not, Option, none, some, List,
  [], ◌∷◌, ◌++◌, str_eq, opt_str_eq, ltb, leb, if◌then◌else◌, where_rows, length,
}
use asterism.Prelude.Results.{Result, ok, err}
use asterism.Prelude.Table.{map_option, or_else, is_some, unwrap_or}
use asterism.Text.{Text, codes, trim}
use asterism.Json.{Value, find_field, get_key, as_str}
use asterism.RunState.{RunStatus, completed, parse}
use asterism.Registry.Requests.{RunRecord}
use asterism.DeviceDelivery.{and_then}
use asterism.Attachments.{Attachment, filled, history_suffix}
use asterism.Attachments

pub record HistoryLimits : Type 0 where
  pub max_turns : ℕ
  pub max_bytes : ℕ

abbrev pub default_limits : HistoryLimits
default_limits = record { max_turns = 20; max_bytes = 64 * 1024 }

pub record HistoryMessage : Type 0 where
  pub role : Text
  pub content : Text

pub record BuiltHistory : Type 0 where
  pub messages : List HistoryMessage
  pub omitted_turns : ℕ
  pub bytes : ℕ

-- `BuiltHistory::truncated`
abbrev pub truncated : BuiltHistory → Bool
truncated built = ltb 0 built.omitted_turns

pub record Turn : Type 0 where
  pub turn_created_at : ℕ
  pub user : Text
  pub assistant : Text

unfoldable pub text_field : Value → Text → Option Text
unfolding find_field trim
text_field value key = filled (and_then (get_key key value) as_str)

-- `run.retry_of_run_id.as_deref() == Some(parent)`
abbrev pub is_retry_of : String → RunRecord → Bool
is_retry_of parent run = opt_str_eq run.retry_of_run_id parent

abbrev pub has_run_id : String → RunRecord → Bool
has_run_id id run = str_eq run.run_id id

abbrev pub push_ids : List RunRecord → List String → List String
push_ids [] frontier = frontier
push_ids (run ∷ runs) frontier = push_ids runs (run.run_id ∷ frontier)

-- The loop of `attempt_chain`, with a bound on its rounds; the end of the vector is the head here.
unfoldable pub grow_chain :
    ℕ → List RunRecord → List String → List RunRecord → Option (List RunRecord)
grow_chain rounds runs [] chain = some chain
grow_chain zero runs (parent ∷ frontier) chain = none
grow_chain (suc rounds) runs (parent ∷ frontier) chain =
    let retries = where_rows (is_retry_of parent) runs in
    grow_chain rounds runs (push_ids retries frontier) (chain ++ retries)

-- `sort_by_key(|run| run.created_at)`, stable
unfoldable pub insert_by_creation : RunRecord → List RunRecord → List RunRecord
insert_by_creation r [] = r ∷ []
insert_by_creation r (s ∷ rest) =
    if leb r.created_at s.created_at then r ∷ s ∷ rest else s ∷ insert_by_creation r rest

unfoldable pub sort_by_creation : List RunRecord → List RunRecord
unfolding insert_by_creation
sort_by_creation [] = []
sort_by_creation (r ∷ rest) = insert_by_creation r (sort_by_creation rest)

unfoldable pub attempt_chain : ℕ → List RunRecord → String → Option (List RunRecord)
unfolding grow_chain sort_by_creation
attempt_chain rounds runs root_id =
    map_option sort_by_creation
      (grow_chain rounds runs (root_id ∷ []) (where_rows (has_run_id root_id) runs))

abbrev pub is_completed : RunStatus → Bool
is_completed completed = true
is_completed _ = false

abbrev pub ran_to_completion : RunRecord → Bool
ran_to_completion run = elim (parse run.status) [
  | ok status ↦ is_completed status
  | err unknown ↦ false
]

abbrev pub answer_in : Option Value → Option Text
answer_in none = none
answer_in (some payload) = text_field payload (codes "output")

unfoldable pub completed_answer : RunRecord → Option Text
unfolding parse text_field
completed_answer run = if ran_to_completion run then answer_in run.result_payload else none

-- The search from the newest attempt on.
unfoldable pub latest_completed_answer : List RunRecord → Option Text
unfolding completed_answer
latest_completed_answer [] = none
latest_completed_answer (run ∷ newer) =
    or_else (latest_completed_answer newer) (completed_answer run)

abbrev pub parsed_or_none : Result Attachments.AttachmentError (List Attachment) → List Attachment
parsed_or_none (ok attachments) = attachments
parsed_or_none (err error) = []

unfoldable pub user_text : RunRecord → Text → Text
unfolding Attachments.parse history_suffix find_field
user_text run user =
    user
    ++ history_suffix
        (parsed_or_none (Attachments.parse (get_key (codes "attachments") run.request_payload)))

-- A run that opens a turn of the session.
abbrev pub opens_turn : String → String → RunRecord → Bool
opens_turn session_id current_run_id run =
    not (str_eq run.run_id current_run_id)
    && opt_str_eq run.session_id session_id
    && not (is_some run.retry_of_run_id)

abbrev pub turn_of : RunRecord → Text → Option Text → List Turn
turn_of run user none = []
turn_of run user (some assistant) =
    record { turn_created_at = run.created_at; user = user_text run user; assistant = assistant }
    ∷ []

-- The body of the loop of `collect_turns`, for a run that opens a turn.
unfoldable pub turn_from : ℕ → List RunRecord → RunRecord → Option (List Turn)
unfolding text_field attempt_chain latest_completed_answer user_text
turn_from rounds runs run = elim (text_field run.request_payload (codes "input")) [
  | none ↦ some []
  | some user ↦
      map_option (λ attempts. turn_of run user (latest_completed_answer attempts))
        (attempt_chain rounds runs run.run_id)
]

abbrev pub before_turns : Option (List Turn) → Option (List Turn) → Option (List Turn)
before_turns none later = none
before_turns (some first) none = none
before_turns (some first) (some later) = some (first ++ later)

unfoldable pub collect_from :
    ℕ → List RunRecord → String → String → List RunRecord → Option (List Turn)
unfolding turn_from
collect_from rounds runs session_id current_run_id [] = some []
collect_from rounds runs session_id current_run_id (run ∷ rest) =
    let later = collect_from rounds runs session_id current_run_id rest in
    before_turns
      (if opens_turn session_id current_run_id run then turn_from rounds runs run else some [])
      later

abbrev pub collect_turns : ℕ → List RunRecord → String → String → Option (List Turn)
collect_turns rounds runs session_id current_run_id =
    collect_from rounds runs session_id current_run_id runs

-- `turns.sort_by_key(|turn| turn.created_at)`, stable
unfoldable pub insert_turn : Turn → List Turn → List Turn
insert_turn t [] = t ∷ []
insert_turn t (u ∷ rest) =
    if leb t.turn_created_at u.turn_created_at then t ∷ u ∷ rest else u ∷ insert_turn t rest

unfoldable pub sort_turns : List Turn → List Turn
unfolding insert_turn
sort_turns [] = []
sort_turns (t ∷ rest) = insert_turn t (sort_turns rest)

abbrev pub messages_of : List Turn → List HistoryMessage
messages_of [] = []
messages_of (t ∷ rest) =
    record { role = codes "user"; content = t.user }
    ∷ record { role = codes "assistant"; content = t.assistant }
    ∷ messages_of rest

abbrev pub drop_turns : ℕ → List Turn → List Turn
drop_turns zero turns = turns
drop_turns (suc n) [] = []
drop_turns (suc n) (t ∷ rest) = drop_turns n rest

-- The length in bytes of what serde_json writes for the messages.
abbrev pub EncodedLength : Type 0
EncodedLength = List HistoryMessage → ℕ

abbrev pub serialized_bytes : EncodedLength → List Turn → ℕ
serialized_bytes encoded turns = encoded (messages_of turns)

-- The loop that drops the oldest turn while the rest is too long: the turns left, and `omitted`.
unfoldable pub drop_to_fit : EncodedLength → ℕ → List Turn → ℕ → List Turn × ℕ
drop_to_fit encoded max_bytes [] omitted = ([], omitted)
drop_to_fit encoded max_bytes (t ∷ rest) omitted =
    let dropped = drop_to_fit encoded max_bytes rest (suc omitted) in
    if ltb max_bytes (serialized_bytes encoded (t ∷ rest)) then dropped else (t ∷ rest, omitted)

-- `build`, after the turns are collected and sorted.
unfoldable pub window : EncodedLength → HistoryLimits → List Turn → BuiltHistory
unfolding drop_to_fit
window encoded limits turns =
    let over = length turns - limits.max_turns in
    let (kept, omitted) = drop_to_fit encoded limits.max_bytes (drop_turns over turns) over in
    record {
      messages = messages_of kept;
      omitted_turns = omitted;
      bytes = serialized_bytes encoded kept;
    }

-- `build`
unfoldable pub build :
    ℕ → EncodedLength → List RunRecord → String → String → HistoryLimits → Option BuiltHistory
unfolding collect_from sort_turns window
build rounds encoded runs session_id current_run_id limits =
    map_option (λ turns. window encoded limits (sort_turns turns))
      (collect_turns rounds runs session_id current_run_id)
