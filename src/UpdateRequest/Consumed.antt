-- ===== src/UpdateRequest/Consumed.antt =====
-- A request is applied once.
use mathlib.Core.Path.{subst}
use asterism.Prelude.{
  ℕ, ◌-◌, ◌≤◌, ◌≡◌, refl, sym, ap, ◌∙◌, Bool, true, false, Option, none, some, arith, ltb,
  if◌then◌else◌,
}
use asterism.Prelude.Results.{Result, ok, err, ◌>>◌, >>=-eq-ok}
use asterism.Text.{Text}
use asterism.UpdateRequest.{
  UpdateRequest, FileAccess, full_access, remove_file, RequestError, bad_version, max_age_seconds,
  validate_version, with_error, validate_optional, new_request, write, RequestSerde, RequestFile,
  accept, accepted, consume, requested, Apply, as_requested, resolve, request, cannot_start,
}

-- A request is read as it was written.
abbrev pub LawfulRequests : RequestSerde → Type 0
LawfulRequests serde = (r : UpdateRequest) → serde.read_request (serde.request_text r) ≡ some r

unit_ok : {Fault : Type 0} (r : Result Fault (Unit {0})) (u : Unit {0}) → r ≡ ok u → r ≡ ok tt
unit_ok r tt h = h

ok-injective : {A : Type 0} {a b : A} → Path (Result RequestError A) (ok a) (ok b) → a ≡ b
ok-injective h = cc

-- The parts of a request that was made.
abbrev Made : ℕ → UpdateRequest → Type 0
Made now r =
    (with_error bad_version (validate_version r.version) ≡ ok tt)
    × (validate_optional r.operation_id ≡ ok tt)
    × (r.requested_at ≡ now)

new_request-Made :
    (now : ℕ) (version : Text) (by operation : Option Text) (r : UpdateRequest)
    → new_request now version by operation ≡ ok r
    → Made now r
unfolding new_request
new_request-Made now version by operation r h =
    let (u, released, h₁) = >>=-eq-ok (with_error bad_version (validate_version version)) _ h in
    let (w, operated, h₂) = >>=-eq-ok (validate_optional operation) _ h₁ in
    subst (Made now) (ok-injective h₂) (
      unit_ok (with_error bad_version (validate_version version)) u released,
      unit_ok (validate_optional operation) w operated,
      refl,
    )

accept-Made :
    (serde : RequestSerde) (now later : ℕ) (r : UpdateRequest)
    → LawfulRequests serde
    → Made now r
    → later - now ≤ max_age_seconds
    → accept serde later (serde.request_text r) ≡ ok r
unfolding accept
accept-Made serde now later r law (released, operated, at) young =
    rw (law r, released, operated, fresh) refl
  where
    fresh : ltb max_age_seconds (later - r.requested_at) ≡ false
    fresh = ground (arith, at, young)

-- What `request` does with a request that was made.
abbrev left_by :
    RequestSerde
    → FileAccess
    → Bool
    → RequestFile
    → Result RequestError UpdateRequest
    → Result RequestError UpdateRequest × RequestFile
left_by serde access starts file (err e) = (err e, file)
left_by serde access starts file (ok made) = elim (write serde made file) [
  | err e ↦ (err e, file)
  | ok file' ↦ if starts then (ok made, file') else (err cannot_start, remove_file access file')
]

left_by-written :
    (serde : RequestSerde) (now : ℕ) (access : FileAccess) (starts : Bool)
    (file file' : RequestFile) (m : Result RequestError UpdateRequest) (r : UpdateRequest)
    → ((made : UpdateRequest) → m ≡ ok made → Made now made)
    → left_by serde access starts file m ≡ (ok r, file')
    → Made now r × (file' ≡ some (serde.request_text r))
unfolding write
left_by-written serde now access starts file file' (err e) r made h = cc
left_by-written serde now access starts file file' (ok m) r made h =
    let (released, operated, at) = made m refl in
    started starts (subst (λ x. after_write x ≡ (ok r, file')) released h)
  where
    after_write : Result RequestError (Unit {0}) → Result RequestError UpdateRequest × RequestFile
    after_write x = elim (x >> ok (some (serde.request_text m))) [
      | err e ↦ (err e, file)
      | ok left ↦ if starts then (ok m, left) else (err cannot_start, remove_file access left)
    ]

    after_start : Bool → Result RequestError UpdateRequest × RequestFile
    after_start b =
        if b
        then (ok m, some (serde.request_text m))
        else (err cannot_start, remove_file access (some (serde.request_text m)))

    started :
        (b : Bool)
        → after_start b ≡ (ok r, file')
        → Made now r × (file' ≡ some (serde.request_text r))
    started true e =
        let same =
          ok-injective (ap (λ (x : Result RequestError UpdateRequest × RequestFile). x.0) e) in
        (
          subst (Made now) same (made m refl),
          sym (ap (λ (x : Result RequestError UpdateRequest × RequestFile). x.1) e)
              ∙ ap (λ u. some (serde.request_text u)) same,
        )
    started false e = cc

-- A request that the daemon made is what the updater applies, once: within the hour `resolve` gives
-- that request and leaves no file, and the next run finds nothing to apply. serde is taken to read
-- back what it writes, and the file to be readable and removed by then.
pub request-resolve :
    (serde : RequestSerde) (now later next : ℕ) (access : FileAccess) (starts : Bool)
    (version : Text) (by operation : Option Text) (file file' : RequestFile) (r : UpdateRequest)
    → LawfulRequests serde
    → request serde now access starts version by operation file ≡ (ok r, file')
    → later - now ≤ max_age_seconds
    → (resolve serde later full_access none file' ≡ (ok (some (requested r)), none))
      × (resolve serde next full_access none (resolve serde later full_access none file').1
          ≡ (ok none, none))
unfolding resolve consume request
request-resolve serde now later next access starts version by operation file file' r law h young =
    let (made, written) =
      left_by-written serde now access starts file file' (new_request now version by operation) r
        (λ m e. new_request-Made now version by operation m e) h in
    let taken =
      ap (resolve serde later full_access none) written
      ∙ applied (accept serde later (serde.request_text r))
          (accept-Made serde now later r law made young) in
    (
      taken,
      ap
          (λ (x : Result RequestError (Option Apply) × RequestFile).
            resolve serde next full_access none x.1)
          taken,
    )
  where
    applied :
        (a : Result RequestError UpdateRequest)
        → a ≡ ok r
        → ◌≡◌ {A = Result RequestError (Option Apply) × RequestFile}
            (elim (accepted a) [ err e ↦ err e | ok request ↦ ok (as_requested request) ], none)
            (ok (some (requested r)), none)
    applied a e = rw e refl
