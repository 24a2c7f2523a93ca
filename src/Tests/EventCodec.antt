-- ===== src/Tests/EventCodec.antt =====
-- A concrete reader and writer of progress events and of cursors, with their laws.
use mathlib.Core.Path.{subst}
use asterism.Prelude.{
  ℕ, ◌≡◌, refl, ap, ◌∙◌, true, Option, none, some, List, [], ◌∷◌, arith, ◌==◌, if◌then◌else◌,
}
use asterism.Prelude.Table.{map_option}
use asterism.Text.{Text}
use asterism.Sse.{drop_return}
use asterism.Sse.Chars.{is_partial}
use asterism.Convergence.{
  Reason, not_active, no_main_process, wrong_executable, unsettled, Converged, NotConverged,
}
use asterism.Convergence.Observed.{
  ActiveState, active, activating, deactivating, reloading, inactive, failed, unknown,
  ExecutableClass, expected, previous, deleted, replaced, outside, unreadable, no_process, Role,
  node, host_hermes, project_worker, Observation,
}
use asterism.UpdateFinish.{
  UpdateEvidence, FailureDetail, FailedCheck, install, node_binary, runtime_release, health,
  services, RollbackOutcome, restored, incomplete, not_attempted,
}
use asterism.UpdateOp.Records.{ProgressEvent, serialized_event, Delivered, UpdateSerde}
use asterism.UpdateOp.Journals.{LawfulLines}
use asterism.UpdateOp.{raise_acked}
use asterism.UpdateOp.Ordered.{Ordered, raise_acked-Ordered, raise_acked-first}
use asterism.UpdateOp.Cursor.{LawfulCursor}
use asterism.Tests.Codecs.{
  Codec, nat, pair, named, list, option, text, decode, decode-write, all_visible,
}

partial : (t : Text) → all_visible t ≡ true → is_partial t ≡ true
partial [] h = refl
partial (c ∷ t) h = ground (arith, partial t)

kept : (t : Text) → all_visible t ≡ true → drop_return t ≡ t
unfolding drop_return
kept [] h = refl
kept (c ∷ []) h = ground arith
kept (c ∷ d ∷ t) h = ap (λ x. c ∷ x) (kept (d ∷ t) (ground arith))

abbrev state_number : ActiveState → ℕ
state_number active = 0
state_number activating = 1
state_number deactivating = 2
state_number reloading = 3
state_number inactive = 4
state_number failed = 5
state_number unknown = 6

abbrev state_at : ℕ → ActiveState
state_at n =
    if n == 0
    then active
    else if n == 1
    then activating
    else if n == 2
    then deactivating
    else if n == 3
    then reloading
    else if n == 4
    then inactive
    else if n == 5
    then failed
    else unknown

pub state_at-number : (s : ActiveState) → state_at (state_number s) ≡ s
state_at-number active = refl
state_at-number activating = refl
state_at-number deactivating = refl
state_at-number reloading = refl
state_at-number inactive = refl
state_at-number failed = refl
state_at-number unknown = refl

abbrev class_number : ExecutableClass → ℕ
class_number expected = 0
class_number previous = 1
class_number deleted = 2
class_number replaced = 3
class_number outside = 4
class_number unreadable = 5
class_number no_process = 6

abbrev class_at : ℕ → ExecutableClass
class_at n =
    if n == 0
    then expected
    else if n == 1
    then previous
    else if n == 2
    then deleted
    else if n == 3
    then replaced
    else if n == 4
    then outside
    else if n == 5
    then unreadable
    else no_process

pub class_at-number : (c : ExecutableClass) → class_at (class_number c) ≡ c
class_at-number expected = refl
class_at-number previous = refl
class_at-number deleted = refl
class_at-number replaced = refl
class_at-number outside = refl
class_at-number unreadable = refl
class_at-number no_process = refl

abbrev role_key : Role → ℕ × Text
role_key node = (0, [])
role_key host_hermes = (1, [])
role_key (project_worker id) = (2, id)

abbrev role_of : ℕ × Text → Role
role_of (n, id) = if n == 0 then node else if n == 1 then host_hermes else project_worker id

pub role_of-key : (r : Role) → role_of (role_key r) ≡ r
role_of-key node = refl
role_of-key host_hermes = refl
role_of-key (project_worker id) = refl

abbrev reason_number : Reason → ℕ
reason_number not_active = 0
reason_number no_main_process = 1
reason_number wrong_executable = 2
reason_number unsettled = 3

abbrev reason_at : ℕ → Reason
reason_at n =
    if n == 0
    then not_active
    else if n == 1
    then no_main_process
    else if n == 2
    then wrong_executable
    else unsettled

pub reason_at-number : (r : Reason) → reason_at (reason_number r) ≡ r
reason_at-number not_active = refl
reason_at-number no_main_process = refl
reason_at-number wrong_executable = refl
reason_at-number unsettled = refl

abbrev check_number : FailedCheck → ℕ
check_number install = 0
check_number node_binary = 1
check_number runtime_release = 2
check_number health = 3
check_number services = 4

abbrev check_at : ℕ → FailedCheck
check_at n =
    if n == 0
    then install
    else if n == 1
    then node_binary
    else if n == 2
    then runtime_release
    else if n == 3
    then health
    else services

pub check_at-number : (c : FailedCheck) → check_at (check_number c) ≡ c
check_at-number install = refl
check_at-number node_binary = refl
check_at-number runtime_release = refl
check_at-number health = refl
check_at-number services = refl

abbrev rollback_number : RollbackOutcome → ℕ
rollback_number restored = 0
rollback_number incomplete = 1
rollback_number not_attempted = 2

abbrev rollback_at : ℕ → RollbackOutcome
rollback_at n = if n == 0 then restored else if n == 1 then incomplete else not_attempted

pub rollback_at-number : (r : RollbackOutcome) → rollback_at (rollback_number r) ≡ r
rollback_at-number restored = refl
rollback_at-number incomplete = refl
rollback_at-number not_attempted = refl

abbrev role : Codec Role
role = named (pair nat text) role_of role_key role_of-key

abbrev observation : Codec Observation
observation =
    named
      (pair (pair (named nat state_at state_number state_at-number) (option nat))
        (pair (named nat class_at class_number class_at-number) (option (pair nat nat))))
      (λ x. record { seen_state = x.0.0; seen_pid = x.0.1; executable = x.1.0; identity = x.1.1 })
      (λ o. ((o.seen_state, o.seen_pid), (o.executable, o.identity))) (λ o. refl)

abbrev late : Codec NotConverged
late =
    named (pair role (pair (named nat reason_at reason_number reason_at-number) observation))
      (λ x. record { failed_role = x.0; reason = x.1.0; last = x.1.1 })
      (λ n. (n.failed_role, (n.reason, n.last))) (λ n. refl)

abbrev settled : Codec Converged
settled =
    named (pair role nat) (λ x. record { converged_role = x.0; converged_pid = x.1 })
      (λ c. (c.converged_role, c.converged_pid)) (λ c. refl)

abbrev proof : Codec UpdateEvidence
proof =
    named (pair (pair text text) (pair (pair text text) (list settled)))
      (λ x. record {
        target_release = x.0.0;
        node_release = x.0.1;
        runtime_release = x.1.0.0;
        runtime_revision = x.1.0.1;
        services = x.1.1;
      })
      (λ e.
        ((e.target_release, e.node_release), ((e.runtime_release, e.runtime_revision), e.services)))
      (λ e. refl)

abbrev account : Codec FailureDetail
account =
    named
      (pair (pair (named nat check_at check_number check_at-number) (list late)) (
        pair (option text)
          (pair (named nat rollback_at rollback_number rollback_at-number) (list late))))
      (λ x. record {
        check = x.0.0;
        failed_services = x.0.1;
        found_runtime_release = x.1.0;
        rollback = x.1.1.0;
        rollback_services = x.1.1.1;
      })
      (λ d. (
        (d.check, d.failed_services),
        (d.found_runtime_release, (d.rollback, d.rollback_services)),
      ))
      (λ d. refl)

abbrev pub event : Codec ProgressEvent
event =
    named
      (pair (pair text (pair nat text)) (
        pair (pair (option nat) (option nat))
          (pair (pair (option text) nat) (pair (option proof) (option account)))))
      (λ x. record {
        operation_id = x.0.0;
        seq = x.0.1.0;
        state = x.0.1.1;
        bytes_done = x.1.0.0;
        bytes_total = x.1.0.1;
        failure_code = x.1.1.0.0;
        at = x.1.1.0.1;
        evidence = x.1.1.1.0;
        failure_detail = x.1.1.1.1;
      })
      (λ e. (
        (e.operation_id, (e.seq, e.state)),
        ((e.bytes_done, e.bytes_total), ((e.failure_code, e.at), (e.evidence, e.failure_detail))),
      ))
      (λ e. refl)

abbrev cursor : Codec Delivered
cursor = named (list (pair text nat)) (λ l. record { acked = l }) (λ d. d.acked) (λ d. refl)

some-injective : {a b : Delivered} → Path (Option Delivered) (some a) (some b) → a ≡ b
some-injective h = cc

-- The entries, inserted into a map.
abbrev entries_in_order : List (Text × ℕ) → List (Text × ℕ)
entries_in_order [] = []
entries_in_order ((o, seq) ∷ rest) = raise_acked o seq (entries_in_order rest)

abbrev map_of : Delivered → Delivered
map_of d = record { acked = entries_in_order d.acked }

entries_in_order-Ordered : (l : List (Text × ℕ)) → Ordered (entries_in_order l)
entries_in_order-Ordered [] = tt
entries_in_order-Ordered ((o, seq) ∷ rest) =
    raise_acked-Ordered o seq (entries_in_order rest) (entries_in_order-Ordered rest)

entries_in_order-kept : (l : List (Text × ℕ)) → Ordered l → entries_in_order l ≡ l
entries_in_order-kept [] h = refl
entries_in_order-kept ((o, seq) ∷ rest) (h, hs) =
    ap (raise_acked o seq) (entries_in_order-kept rest hs) ∙ raise_acked-first o seq rest h

abbrev pub event_serde : UpdateSerde
event_serde = record {
  to_line = λ e. event.write (serialized_event e);
  from_line = decode event;
  delivered_to_vec = λ d. cursor.write d;
  delivered_from_slice = λ raw. map_option map_of (decode cursor raw);
}

pub event_serde-LawfulLines : LawfulLines event_serde
event_serde-LawfulLines e = (
  (
    partial (event.write (serialized_event e)) (event.visible (serialized_event e)),
    kept (event.write (serialized_event e)) (event.visible (serialized_event e)),
  ),
  decode-write event (serialized_event e),
)

pub event_serde-LawfulCursor : LawfulCursor event_serde
event_serde-LawfulCursor = (
  λ raw d e. ordered (decode cursor raw) d e,
  λ d h.
      ap (map_option map_of) (decode-write cursor d)
      ∙ ap (λ l. some (record { acked = l })) (entries_in_order-kept d.acked h),
)
  where
    ordered :
        (read : Option Delivered) (d : Delivered)
        → map_option map_of read ≡ some d
        → Ordered d.acked
    ordered none d e = cc
    ordered (some x) d e =
        subst (λ (y : Delivered). Ordered y.acked) (some-injective e)
          (entries_in_order-Ordered x.acked)
