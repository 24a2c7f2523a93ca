-- ===== src/Convergence/Observed.antt =====
-- src/convergence.rs: what one look at a service sees, and whether it is the process that is meant.
use asterism.Prelude.{ℕ, Bool, true, false, ◌&&◌, Option, none, some, ◌==◌, if◌then◌else◌}
use asterism.Prelude.Table.{unwrap_or, is_some, map_option}
use asterism.Text.{Text, codes, text_eq, trim}
use asterism.FilePaths.{
  FilePath, path_eq, path_starts_with, parent_or_root, join_component, shown_ends_with,
  with_extension,
}

pub data ActiveState : Type 0 where
  active activating deactivating reloading inactive failed unknown : ActiveState

-- `ActiveState::parse`
unfoldable pub parse_active_state : Text → ActiveState
parse_active_state raw =
    let word = trim raw in
    if text_eq word (codes "active")
    then active
    else if text_eq word (codes "activating")
    then activating
    else if text_eq word (codes "deactivating")
    then deactivating
    else if text_eq word (codes "reloading")
    then reloading
    else if text_eq word (codes "inactive")
    then inactive
    else if text_eq word (codes "failed")
    then failed
    else unknown

pub record UnitStatus : Type 0 where
  pub active_state : ActiveState
  pub main_pid : Option ℕ

-- A device and an inode.
abbrev pub FileId : Type 0
FileId = ℕ × ℕ

abbrev pub same_file : FileId → FileId → Bool
same_file (d, i) (e, j) = d == e && i == j

pub record ProcessImage : Type 0 where
  pub image_path : FilePath
  pub image_file : FileId

pub data Expectation : Type 0 where
  runtime_tree : FilePath → Expectation
  file : FilePath → Expectation

pub data ExecutableClass : Type 0 where
  expected previous deleted replaced outside unreadable no_process : ExecutableClass

unfoldable pub previous_runtime_root : FilePath → FilePath
unfolding parent_or_root
previous_runtime_root opt = join_component (parent_or_root opt) (codes ".asterism-previous")

-- The files that stand at paths now: `std::fs::metadata`, which fails where nothing stands.
abbrev pub Disk : Type 0
Disk = FilePath → Option FileId

-- `matches_disk` of `classify`
abbrev pub matches_disk : Disk → FilePath → FileId → Bool
matches_disk disk path id = unwrap_or (map_option (same_file id) (disk path)) false

unfoldable pub classify_image : Disk → Expectation → ProcessImage → ExecutableClass
unfolding previous_runtime_root with_extension path_eq path_starts_with
classify_image disk (runtime_tree opt) image =
    if path_starts_with image.image_path (previous_runtime_root opt)
    then previous
    else if path_starts_with image.image_path opt
    then (if matches_disk disk image.image_path image.image_file then expected else replaced)
    else outside
classify_image disk (file path) image =
    if path_eq image.image_path path
    then (if matches_disk disk path image.image_file then expected else replaced)
    else if path_eq image.image_path (with_extension path (codes "previous"))
    then previous
    else outside

unfoldable pub classify : Disk → Expectation → Option ProcessImage → ExecutableClass
unfolding classify_image shown_ends_with
classify disk expect none = unreadable
classify disk expect (some image) =
    if shown_ends_with image.image_path (codes " (deleted)")
    then deleted
    else classify_image disk expect image

pub data Role : Type 0 where
  node host_hermes : Role
  project_worker : (project_id : Text) → Role

pub record Target : Type 0 where
  pub unit : Text
  pub role : Role
  pub expect : Expectation

pub record Observation : Type 0 where
  pub seen_state : ActiveState
  pub seen_pid : Option ℕ
  pub executable : ExecutableClass
  pub identity : Option FileId

-- A main process and the file that it executes.
abbrev pub Held : Type 0
Held = ℕ × FileId

abbrev pub same_held : Held → Held → Bool
same_held (p, f) (q, g) = p == q && same_file f g

abbrev pub is_active : ActiveState → Bool
is_active active = true
is_active _ = false

abbrev pub is_expected : ExecutableClass → Bool
is_expected expected = true
is_expected _ = false

-- `Observation::good`
unfoldable pub good : Observation → Bool
good seen = is_active seen.seen_state && is_some seen.seen_pid && is_expected seen.executable

-- `Observation::key`
unfoldable pub key : Observation → Option Held
key seen = elim seen.seen_pid [ none ↦ none | some pid ↦ map_option (λ f. (pid, f)) seen.identity ]

-- What the calls of one look answer; a call that fails answers nothing.
pub record Sight : Type 0 where
  pub status : Option UnitStatus
  pub image : Option ProcessImage
  pub disk : Disk

-- `observe`
unfoldable pub observe : Sight → Target → Observation
unfolding classify
observe sight target =
    let status = unwrap_or sight.status (record { active_state = unknown; main_pid = none }) in
    elim status.main_pid [
      | none ↦ record {
        seen_state = status.active_state;
        seen_pid = none;
        executable = no_process;
        identity = none;
      }
      | some pid ↦ record {
        seen_state = status.active_state;
        seen_pid = some pid;
        executable = classify sight.disk target.expect sight.image;
        identity = map_option (λ (i : ProcessImage). i.image_file) sight.image;
      }
    ]
