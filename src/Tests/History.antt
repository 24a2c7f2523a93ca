-- ===== src/Tests/History.antt =====
-- The images of a message and the history of a conversation, and the theorems at them.
use mathlib.Core.Path.{subst}
use asterism.Prelude.{
  ℕ, ◌+◌, ◌≤◌, ◌<◌, ◌≡◌, refl, String, Option, none, some, List, [], ◌∷◌, arith, str_eq,
  if◌then◌else◌, All, length,
}
use asterism.Prelude.Results.{ok}
use asterism.Text.{
  Text, codes, text_eq, byte_len, trim, trim_start, trim_end, is_whitespace, split_text, take_until,
  strip_prefix, utf8_len,
}
use asterism.Json.{Value, string, array, object, nil, item, end, field, find_field}
use asterism.RunState.{parse}
use asterism.Registry.Requests.{RunRecord}
use asterism.Attachments.{
  Attachment, max_attachments, validate_url, parse_one, parse_items, attachment_values,
  history_suffix, redact_url,
}
use asterism.Attachments
use asterism.Attachments.Parsed.{IsSafeUrl, parse-IsSafeUrl, parse-attachment_values}
use asterism.ChatHistory.{
  Turn, HistoryLimits, default_limits, BuiltHistory, EncodedLength, messages_of, drop_turns,
  serialized_bytes, window, build, collect_from, turn_from, attempt_chain, grow_chain,
  sort_by_creation, insert_by_creation, latest_completed_answer, completed_answer, text_field,
  user_text, sort_turns, insert_turn, drop_to_fit,
}
use asterism.ChatHistory.Window.{IsFit, window-IsFit}
use asterism.ChatHistory.Attempts.{IsAbove}
use asterism.ChatHistory.Built.{build-ends}

abbrev image : Value
image = object (
    field (codes "alt") (string (codes " a cat ")) (
      field (codes "type") (string (codes "image_url"))
        (field (codes "url") (string (codes "https://host/cat.png?sig=1")) end)))

abbrev images : Option Value
images = some (array (item image nil))

abbrev accepted : List Attachment
accepted = record { url = codes "https://host/cat.png?sig=1"; alt = some (codes "a cat") } ∷ []

image_accepted : Attachments.parse images ≡ ok accepted
unfolding Attachments.parse parse_items parse_one validate_url find_field trim trim_start trim_end
    is_whitespace split_text take_until strip_prefix text_eq byte_len utf8_len
image_accepted = refl

query_hidden :
    redact_url (codes "https://host/cat.png?sig=1") ≡ codes "https://host/cat.png?<redacted>"
unfolding redact_url split_text take_until strip_prefix byte_len utf8_len
query_hidden = refl

-- A port is taken for a host.
port_without_host : validate_url (codes "http://:80/a.png") ≡ ok tt
unfolding validate_url byte_len utf8_len split_text take_until text_eq is_whitespace strip_prefix
port_without_host = refl

parse-IsSafeUrl_example :
    (length accepted ≤ max_attachments) × All (λ (a : Attachment). IsSafeUrl a.url) accepted
parse-IsSafeUrl_example = parse-IsSafeUrl images accepted image_accepted

parse-attachment_values_example :
    Attachments.parse (some (array (attachment_values accepted))) ≡ ok accepted
parse-attachment_values_example = parse-attachment_values images accepted image_accepted

-- A size that counts characters.
abbrev size : EncodedLength
size [] = 0
size (m ∷ rest) = length m.content + size rest

abbrev turn : ℕ → Text → Text → Turn
turn time user assistant = record { turn_created_at = time; user = user; assistant = assistant }

abbrev turns : List Turn
turns =
    turn 1 (codes "one") (codes "1")
    ∷ turn 2 (codes "two") (codes "2")
    ∷ turn 3 (codes "three") (codes "3")
    ∷ []

abbrev limits : HistoryLimits
limits = record { max_turns = 2; max_bytes = 6 }

oldest_dropped : (window size limits turns).omitted_turns ≡ 2
unfolding window drop_to_fit
oldest_dropped = refl

window-IsFit_example :
    let built = window size limits turns in
    let kept = drop_turns built.omitted_turns turns in
    (built.messages ≡ messages_of kept)
    × (built.bytes ≡ serialized_bytes size kept)
    × (built.omitted_turns ≤ length turns)
    × IsFit size limits kept
    × ((k : ℕ) → k < built.omitted_turns → ¬ IsFit size limits (drop_turns k turns))
window-IsFit_example = window-IsFit size limits turns

abbrev run : String → String → ℕ → Option Value → Option String → RunRecord
run id status time result retry = record {
  run_id = id;
  project_id = "p1";
  session_id = some "s1";
  idempotency_key = none;
  runtime_kind = "hermes";
  provider = none;
  model = none;
  status = status;
  created_at = time;
  started_at = none;
  updated_at = time;
  finished_at = none;
  last_event_seq = 0;
  terminal_reason = none;
  error_code = none;
  error_message = none;
  hermes_run_id = none;
  request_payload = object (field (codes "input") (string (codes "hi")) end);
  result_payload = result;
  recovery_note = none;
  retry_of_run_id = retry;
}

abbrev runs : List RunRecord
runs =
    run "r1" "failed" 1 none none
    ∷ run "r2" "completed" 2 (some (object (field (codes "output") (string (codes "hello")) end)))
        (some "r1")
    ∷ []

retry_answers :
    build 3 size runs "s1" "r9" default_limits
    ≡ some (record {
      messages =
          record { role = codes "user"; content = codes "hi" }
          ∷ record { role = codes "assistant"; content = codes "hello" }
          ∷ [];
      omitted_turns = 0;
      bytes = 7;
    })
unfolding build collect_from turn_from attempt_chain grow_chain sort_by_creation insert_by_creation
    latest_completed_answer completed_answer text_field user_text sort_turns insert_turn window
    drop_to_fit parse Attachments.parse history_suffix find_field trim trim_start trim_end
    is_whitespace text_eq
retry_answers = refl

abbrev height : String → ℕ
height id = if str_eq id "r2" then 1 else 0

runs-IsAbove : All (IsAbove height 1) runs
runs-IsAbove = (
  (omega arith, λ parent e. absurd (none_some parent e)),
  ((omega arith, λ parent e. subst (λ p. height p < 1) (some_some parent e) (omega arith)), tt),
)
  where
    none_some : (parent : String) → Path (Option String) none (some parent) → ⊥
    none_some parent e = cc

    some_some : (parent : String) → Path (Option String) (some "r1") (some parent) → "r1" ≡ parent
    some_some parent e = cc

build-ends_example :
    (rounds : ℕ) × ((more : ℕ)
      → (built : BuiltHistory) × (build (rounds + more) size runs "s1" "r9" default_limits
          ≡ some built))
build-ends_example = build-ends height 1 runs size "s1" "r9" default_limits runs-IsAbove
