-- ===== src/FilePaths.antt =====
-- `std::path` on absolute, normal paths, as lists of components.
use asterism.Prelude.{
  Bool, true, false, ◌&&◌, Option, none, some, List, [], ◌∷◌, ◌++◌, ◌==◌, if◌then◌else◌,
}
use asterism.Text.{Text, text_eq, ends_with}

abbrev pub FilePath : Type 0
FilePath = List Text

unfoldable pub path_eq : FilePath → FilePath → Bool
unfolding text_eq
path_eq [] [] = true
path_eq (c ∷ p) (d ∷ q) = text_eq c d && path_eq p q
path_eq _ _ = false

-- `Path::starts_with`, by whole components
unfoldable pub path_starts_with : FilePath → FilePath → Bool
unfolding text_eq
path_starts_with p [] = true
path_starts_with [] (d ∷ q) = false
path_starts_with (c ∷ p) (d ∷ q) = text_eq c d && path_starts_with p q

-- `path.parent().unwrap_or("/")`
unfoldable pub parent_or_root : FilePath → FilePath
parent_or_root [] = []
parent_or_root (c ∷ []) = []
parent_or_root (c ∷ d ∷ p) = c ∷ parent_or_root (d ∷ p)

-- `Path::join` with one component
abbrev pub join_component : FilePath → Text → FilePath
join_component p c = p ++ c ∷ []

-- `to_string_lossy().ends_with(..)`, for a suffix without a separator
unfoldable pub shown_ends_with : FilePath → Text → Bool
unfolding ends_with
shown_ends_with [] s = false
shown_ends_with (c ∷ []) s = ends_with c s
shown_ends_with (c ∷ d ∷ p) s = shown_ends_with (d ∷ p) s

-- What stands before the last dot of a text that has one.
unfoldable pub before_last_dot : Text → Option Text
before_last_dot [] = none
before_last_dot (c ∷ t) = elim (before_last_dot t) [
  | some s ↦ some (c ∷ s)
  | none ↦ if c == b'.' then some [] else none
]

-- `Path::file_stem` of a component: a leading dot begins no extension.
unfoldable pub file_stem : Text → Text
unfolding before_last_dot
file_stem name = elim (before_last_dot name) [ none ↦ name | some [] ↦ name | some (c ∷ s) ↦ c ∷ s ]

-- `Path::with_extension`
unfoldable pub with_extension : FilePath → Text → FilePath
unfolding file_stem
with_extension [] ext = []
with_extension (c ∷ []) ext = (file_stem c ++ b'.' ∷ ext) ∷ []
with_extension (c ∷ d ∷ p) ext = c ∷ with_extension (d ∷ p) ext
