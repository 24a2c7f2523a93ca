-- ===== src/Credentials/Listing.antt =====
-- src/credentials.rs: the reader of the listing of a provider's pool.
use asterism.Prelude.{
  Bool, not, ◌&&◌, Option, none, some, List, [], ◌∷◌, ◌++◌, leb, if◌then◌else◌, any_row,
}
use asterism.Text.{Text, codes, text_eq, byte_len, trim, strip_prefix, split_whitespace}
use asterism.Policy.Config.{lines, lines_from}
use asterism.UpdateOp.Records.{all_characters, is_empty_text}
use asterism.Credentials.States.{is_control, max_label_length}

pub record PoolEntry : Type 0 where
  pub entry_id : Text
  pub kind : Text

unfoldable pub is_usable_pool_id : Text → Bool
unfolding byte_len
is_usable_pool_id id =
    not (is_empty_text id) && leb (byte_len id) max_label_length && not (any_row is_control id)

abbrev pub pool_kinds : List Text
pool_kinds = codes "oauth" ∷ codes "api-key" ∷ codes "api_key" ∷ []

abbrev pub is_pool_kind : Text → Bool
is_pool_kind field = any_row (λ kind. text_eq kind field) pool_kinds

abbrev pub all_ascii_digits : Text → Bool
all_ascii_digits t = all_characters (λ c. leb b'0' c && leb c b'9') t

-- The last field that names a type, and what stands before it.
abbrev pub last_kind : List Text → Option (List Text × Text)
last_kind [] = none
last_kind (f ∷ fields) = elim (last_kind fields) [
  | some (before, kind) ↦ some (f ∷ before, kind)
  | none ↦ if is_pool_kind f then some ([], f) else none
]

-- `join(" ")`
abbrev pub join_spaces : List Text → Text
join_spaces [] = []
join_spaces (f ∷ []) = f
join_spaces (f ∷ g ∷ fields) = f ++ (b' ' ∷ join_spaces (g ∷ fields))

abbrev pub usable_entry : Text → Text → List PoolEntry
usable_entry id kind =
    if is_usable_pool_id id then record { entry_id = id; kind = kind } ∷ [] else []

-- The fields after the index: the first belongs to the id, whatever it says.
abbrev pub entry_of_fields : List Text → List PoolEntry
entry_of_fields [] = []
entry_of_fields (f ∷ fields) = elim (last_kind fields) [
  | none ↦ []
  | some (before, kind) ↦ usable_entry (join_spaces (f ∷ before)) kind
]

abbrev pub entry_of_row : List Text → List PoolEntry
entry_of_row [] = []
entry_of_row (index ∷ fields) = if all_ascii_digits index then entry_of_fields fields else []

abbrev pub entry_of_line : Option Text → List PoolEntry
entry_of_line none = []
entry_of_line (some rest) = entry_of_row (split_whitespace rest)

abbrev pub entries_of_lines : List Text → List PoolEntry
entries_of_lines [] = []
entries_of_lines (line ∷ rest) =
    entry_of_line (strip_prefix (trim line) (codes "#")) ++ entries_of_lines rest

unfoldable pub parse_pool_listing : Text → List PoolEntry
unfolding lines_from split_whitespace strip_prefix trim text_eq is_usable_pool_id
parse_pool_listing text = entries_of_lines (lines text)
