-- ===== src/UpdateOp/Records.antt =====
-- src/updateop.rs: the events of an update, its operation, and the files of a Node home.
use asterism.Prelude.{
  ℕ, Bool, true, false, not, ◌&&◌, ◌||◌, Option, none, List, [], ◌∷◌, ◌++◌, map, ltb, ◌==◌,
  if◌then◌else◌, first_row, update_rows, any_row,
}
use asterism.Prelude.Results.{Result, ◌>>◌, guard}
use asterism.Prelude.Table.{map_option}
use asterism.Text.{Text, codes, text_eq, byte_len, is_ascii_alphanumeric}
use asterism.Convergence.{NotConverged}
use asterism.UpdateFinish.{UpdateEvidence, FailureDetail}

abbrev pub max_operation_id : ℕ
max_operation_id = 64

pub record ProgressEvent : Type 0 where
  pub operation_id : Text
  pub seq : ℕ
  pub state : Text
  pub bytes_done : Option ℕ
  pub bytes_total : Option ℕ
  pub failure_code : Option Text
  pub at : ℕ
  pub evidence : Option UpdateEvidence
  pub failure_detail : Option FailureDetail

-- What serde keeps of an event: `Observation::identity` is `#[serde(skip)]`, so it is not written,
-- and it is read as `None`.
abbrev pub skip_identity : NotConverged → NotConverged
skip_identity n = record n { last = record n.last { identity = none } }

abbrev pub serialized_detail : FailureDetail → FailureDetail
serialized_detail d = record d {
  failed_services = map skip_identity d.failed_services;
  rollback_services = map skip_identity d.rollback_services;
}

unfoldable pub serialized_event : ProgressEvent → ProgressEvent
serialized_event e = record e { failure_detail = map_option serialized_detail e.failure_detail }

pub data OperationIdError : Type 0 where
  required too_long wrong_character : OperationIdError

abbrev pub is_id_character : ℕ → Bool
is_id_character c = is_ascii_alphanumeric c || c == b'-' || c == b'_'

abbrev pub all_characters : (ℕ → Bool) → Text → Bool
all_characters p [] = true
all_characters p (c ∷ t) = p c && all_characters p t

abbrev pub is_empty_text : Text → Bool
is_empty_text [] = true
is_empty_text (c ∷ t) = false

unfoldable pub validate_operation_id : Text → Result OperationIdError (Unit {0})
unfolding byte_len is_ascii_alphanumeric
validate_operation_id id =
    guard (not (is_empty_text id)) required
    >> guard (not (ltb max_operation_id (byte_len id))) too_long
    >> guard (all_characters is_id_character id) wrong_character

-- A file of the directory of journals.
pub record JournalFile : Type 0 where
  pub file_name : Text
  pub body : Text
  pub modified : ℕ

pub record NodeHome : Type 0 where
  pub journals : List JournalFile
  pub cursor : Option Text

abbrev pub empty_home : NodeHome
empty_home = record { journals = []; cursor = none }

-- The file name of `journal_path`.
unfoldable pub journal_name : Text → Text
journal_name operation_id = operation_id ++ codes ".jsonl"

abbrev pub is_file : Text → JournalFile → Bool
is_file name f = text_eq f.file_name name

abbrev pub file_body : Text → NodeHome → Option Text
file_body name home =
    map_option (λ (f : JournalFile). f.body) (first_row (is_file name) home.journals)

-- A write at the end of a file, which is created where there is none.
unfoldable pub append_file : ℕ → Text → Text → NodeHome → NodeHome
append_file time name added home = record home {
  journals =
      if any_row (is_file name) home.journals
      then update_rows (is_file name) (λ f. record f { body = f.body ++ added; modified = time })
          home.journals
      else home.journals ++ record { file_name = name; body = added; modified = time } ∷ [];
}

-- What `Delivered` holds: operations with the highest number that is acknowledged.
pub record Delivered : Type 0 where
  pub acked : List (Text × ℕ)

pub record UpdateSerde : Type 0 where
  pub to_line : ProgressEvent → Text
  pub from_line : Text → Option ProgressEvent
  pub delivered_to_vec : Delivered → Text
  pub delivered_from_slice : Text → Option Delivered
