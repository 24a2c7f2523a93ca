-- ===== src/Prelude/Results.antt =====
-- Rust's `Result<A, E>` with `?` as bind.
use mathlib.Core.Path.{◌≡◌, refl}
use mathlib.Core.Bool.{Bool, true, false}
use mathlib.Core.Option.{Option, none, some}

pub data Result {ε α} (Fault : Type ε) (Out : Type α) : Type (ε ⊔ α) where
  err : Fault → Result Fault Out
  ok : Out → Result Fault Out

-- `.context(fault)?` on an `Option`
abbrev pub or_err {ε α} : {Fault : Type ε} {Out : Type α} → Option Out → Fault → Result Fault Out
or_err (some out) fault = ok out
or_err none fault = err fault

pub or_err-eq-ok {ε α} :
    {Fault : Type ε} {Out : Type α} (found : Option Out) (fault : Fault) (out : Out)
    → or_err found fault ≡ ok out
    → found ≡ some out
or_err-eq-ok (some o) fault out h = cc
or_err-eq-ok none fault out h = cc

infixl 5 ◌>>=◌ ◌>>◌
abbrev pub ◌>>=◌ {ε α β} :
    {Fault : Type ε} {Out : Type α} {Next : Type β}
    → Result Fault Out
    → (Out → Result Fault Next)
    → Result Fault Next
err fault >>= next = err fault
ok out >>= next = next out

pub >>=-eq-ok {ε α β} :
    {Fault : Type ε} {Out : Type α} {Next : Type β} (first : Result Fault Out)
    (next : Out → Result Fault Next) {end : Next}
    → (first >>= next) ≡ ok end
    → (out : Out) × (first ≡ ok out) × (next out ≡ ok end)
>>=-eq-ok (err fault) next reached = cc
>>=-eq-ok (ok out) next reached = (out, refl, reached)

-- `if !test { return Err(fault) }`
abbrev pub guard {ε} : {Fault : Type ε} → Bool → Fault → Result Fault (Unit {0})
guard false fault = err fault
guard true fault = ok tt

abbrev pub ◌>>◌ {ε β} :
    {Fault : Type ε} {Next : Type β}
    → Result Fault (Unit {0})
    → Result Fault Next
    → Result Fault Next
test >> next = test >>= (λ done. next)

pub >>-eq-ok {ε β} :
    {Fault : Type ε} {Next : Type β} (test : Result Fault (Unit {0})) (next : Result Fault Next)
    {end : Next}
    → (test >> next) ≡ ok end
    → (test ≡ ok tt) × (next ≡ ok end)
>>-eq-ok (err fault) next reached = cc
>>-eq-ok (ok tt) next reached = (refl, reached)

pub guard-eq-ok {ε β} :
    {Fault : Type ε} {Next : Type β} (test : Bool) (fault : Fault) (next : Result Fault Next)
    {end : Next}
    → (guard test fault >> next) ≡ ok end
    → (test ≡ true) × (next ≡ ok end)
guard-eq-ok false fault next reached = cc
guard-eq-ok true fault next reached = (refl, reached)

pub ok-injective {ε α} :
    {Fault : Type ε} {Out : Type α} {o p : Out} → Path (Result Fault Out) (ok o) (ok p) → o ≡ p
ok-injective h = cc
