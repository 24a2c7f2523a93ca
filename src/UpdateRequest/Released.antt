-- ===== src/UpdateRequest/Released.antt =====
-- What is applied is a release, however it came to be applied.
use mathlib.Core.Path.{subst}
use asterism.Prelude.{
  ℕ, ◌-◌, ◌≤◌, ◌≡◌, refl, Bool, true, false, inl, inr, Bool-cases, not, ◌&&◌, Option, none, some,
  [], ◌∷◌, arith, ltb,
}
use asterism.Prelude.Results.{Result, ok, err, ◌>>◌, guard, guard-eq-ok, >>=-eq-ok, or_err}
use asterism.Text.{Text, codes, byte_len, contains, starts_with}
use asterism.UpdateOp.Records.{validate_operation_id, all_characters}
use asterism.UpdateRequest.{
  UpdateRequest, FileAccess, cannot_read, VersionError, version_too_long, not_a_tag,
  wrong_character, has_dots, no_digit, RequestError, bad_version, bad_operation, unreadable,
  too_old, max_version, max_age_seconds, is_version_character, digit_second, validate_version,
  with_error, validate_optional, RequestSerde, RequestFile, accept, accepted, consume, Apply,
  requested, handed_over, as_requested, resolve,
}

-- A tag of a release: `v`, a digit, and characters that mean nothing to a path, a link or a shell.
abbrev pub IsRelease : Text → Type 0
IsRelease [] = ⊥
IsRelease (c ∷ t) =
    (c ≡ b'v')
    × (digit_second (c ∷ t) ≡ true)
    × (all_characters is_version_character (c ∷ t) ≡ true)
    × (contains (c ∷ t) (codes "..") ≡ false)
    × (byte_len (c ∷ t) ≤ max_version)

guard-true : (b : Bool) (e : VersionError) → guard b e ≡ ok tt → b ≡ true
guard-true true e h = refl
guard-true false e h = cc

first-v : (c : ℕ) (t : Text) → starts_with (c ∷ t) (codes "v") ≡ true → c ≡ b'v'
unfolding starts_with
first-v c t h = ground (arith, h)

pub validate_version-IsRelease :
    (version : Text) → validate_version version ≡ ok tt → IsRelease version
unfolding validate_version
validate_version-IsRelease [] h = cc
validate_version-IsRelease (c ∷ t) h =
    let v = c ∷ t in
    let (short, h₁) = guard-eq-ok (not (ltb max_version (byte_len v))) version_too_long _ h in
    let (tag, h₂) = guard-eq-ok (starts_with v (codes "v")) not_a_tag _ h₁ in
    let (plain, h₃) = guard-eq-ok (all_characters is_version_character v) wrong_character _ h₂ in
    let (flat, h₄) = guard-eq-ok (not (contains v (codes ".."))) has_dots _ h₃ in
    let counted = guard-true (not (ltb (byte_len v) 2) && digit_second v) no_digit h₄ in
    (first-v c t tag, ground (arith, counted), plain, ground (arith, flat), ground (arith, short))

-- An operation that is named is named validly.
abbrev pub IsOperation : Option Text → Type 0
IsOperation none = Unit
IsOperation (some operation) = validate_operation_id operation ≡ ok tt

-- A request that may be applied at this time.
abbrev pub IsFresh : ℕ → UpdateRequest → Type 0
IsFresh now request =
    IsRelease request.version
    × IsOperation request.operation_id
    × (now - request.requested_at ≤ max_age_seconds)

unit_ok : {Fault : Type 0} (r : Result Fault (Unit {0})) (u : Unit {0}) → r ≡ ok u → r ≡ ok tt
unit_ok r tt h = h

with_error-ok :
    {Fault Error : Type 0} (f : Fault → Error) (r : Result Fault (Unit {0})) (u : Unit {0})
    → with_error f r ≡ ok u
    → r ≡ ok tt
with_error-ok f (err e) u h = cc
with_error-ok f (ok tt) u h = refl

validate_optional-IsOperation :
    (o : Option Text) (u : Unit {0}) → validate_optional o ≡ ok u → IsOperation o
validate_optional-IsOperation none u h = tt
validate_optional-IsOperation (some operation) u h =
    with_error-ok bad_operation (validate_operation_id operation) u h

ok-injective : {A : Type 0} {a b : A} → Path (Result RequestError A) (ok a) (ok b) → a ≡ b
ok-injective h = cc

accept-IsFresh :
    (serde : RequestSerde) (now : ℕ) (raw : Text) (request : UpdateRequest)
    → accept serde now raw ≡ ok request
    → IsFresh now request
unfolding accept
accept-IsFresh serde now raw request h =
    let (read, found, h₁) = >>=-eq-ok (or_err (serde.read_request raw) unreadable) _ h in
    let (u, released, h₂) =
      >>=-eq-ok (with_error bad_version (validate_version read.version)) _ h₁ in
    let (w, operated, h₃) = >>=-eq-ok (validate_optional read.operation_id) _ h₂ in
    let (young, h₄) =
      guard-eq-ok (not (ltb max_age_seconds (now - read.requested_at))) too_old _ h₃ in
    subst (IsFresh now) (ok-injective h₄) (
      validate_version-IsRelease read.version
          (with_error-ok bad_version (validate_version read.version) u released),
      validate_optional-IsOperation read.operation_id w operated,
      ground (arith, young),
    )

-- What may be applied: a fresh request, or a release that was handed over.
abbrev pub IsApplicable : ℕ → Apply → Type 0
IsApplicable now (requested request) = IsFresh now request
IsApplicable now (handed_over version) = IsRelease version

some-injective : {A : Type 0} {a b : A} → Path (Option A) (some a) (some b) → a ≡ b
some-injective h = cc

consumed-IsApplicable :
    (serde : RequestSerde) (now : ℕ) (raw : Text) (r : Result RequestError UpdateRequest)
    (apply : Apply)
    → ((request : UpdateRequest) → r ≡ ok request → IsFresh now request)
    → Path
        (Result RequestError (Option Apply))
        (elim (accepted r) [ err e ↦ err e | ok request ↦ ok (as_requested request) ])
        (ok (some apply))
    → IsApplicable now apply
consumed-IsApplicable serde now raw (err e) apply fresh h = cc
consumed-IsApplicable serde now raw (ok request) apply fresh h =
    subst (IsApplicable now) (some-injective (ok-injective h)) (fresh request refl)

handed-IsApplicable :
    (now : ℕ) (version : Text) (r : Result VersionError (Unit {0})) (apply : Apply)
    → (r ≡ ok tt → IsRelease version)
    → (with_error bad_version r >> ok (some (handed_over version))) ≡ ok (some apply)
    → IsApplicable now apply
handed-IsApplicable now version (err e) apply good h = cc
handed-IsApplicable now version (ok tt) apply good h =
    subst (IsApplicable now) (some-injective (ok-injective h)) (good refl)

refused :
    (e : RequestError) (apply : Apply)
    → Path (Result RequestError (Option Apply)) (err e) (ok (some apply))
    → ⊥
refused e apply h = cc

-- Whatever `resolve` gives the updater to apply names a release by a tag that begins with v and a
-- digit, holds no other characters than those of versions and no two dots in a row, and is at most
-- 64 bytes long; a request from the file names a valid operation, if any, and is at most an hour old.
pub resolve-IsApplicable :
    (serde : RequestSerde) (now : ℕ) (access : FileAccess) (over : Option Text) (file : RequestFile)
    (apply : Apply)
    → (resolve serde now access over file).0 ≡ ok (some apply)
    → IsApplicable now apply
unfolding resolve consume
resolve-IsApplicable serde now access none none apply h = elim (Bool-cases access.readable) [
  | inl read ↦ absurd (nothing apply (rw (read, consume) at h))
  | inr closed ↦ absurd (refused cannot_read apply (rw (closed, consume) at h))
]
  where
    nothing :
        (apply : Apply) → Path (Result RequestError (Option Apply)) (ok none) (ok (some apply)) → ⊥
    nothing apply h = cc
resolve-IsApplicable serde now access none (some raw) apply h = elim (Bool-cases access.readable) [
  | inl read ↦
      consumed-IsApplicable serde now raw (accept serde now raw) apply
        (accept-IsFresh serde now raw) (rw (read, consume) at h)
  | inr closed ↦ absurd (refused cannot_read apply (rw (closed, consume) at h))
]
resolve-IsApplicable serde now access (some []) file apply h = cc
resolve-IsApplicable serde now access (some (c ∷ t)) file apply h =
    handed-IsApplicable now (c ∷ t) (validate_version (c ∷ t)) apply
      (validate_version-IsRelease (c ∷ t)) h
