-- ===== src/RunState/Lifecycle.antt =====
-- The steps that `validate_transition` of src/runstate.rs lets a run take, and what they guarantee.
use asterism.Prelude.{
  String, ◌≡◌, refl, ◌↔◌, ◌⊎◌, inl, inr, true, str_eq, arith, if◌then◌else◌, eq_iff,
}
use asterism.Prelude.Results.{Result, ok}
use asterism.RunState.{
  RunStatus, created, starting, running, waiting_for_approval, recovering, completed, failed,
  cancelled, interrupted, lost, UnknownStatus, as_str, parse, is_terminal, is_active,
  validate_transition, from_hermes_status, parse-as_str,
}

-- The five outcomes that the documentation calls terminal.
pub data Outcome : RunStatus → Type 0 where
  completes : Outcome completed
  fails : Outcome failed
  cancels : Outcome cancelled
  interrupts : Outcome interrupted
  loses : Outcome lost

-- The states in which the backend may hold the run.
pub data Submitted : RunStatus → Type 0 where
  in_flight : Submitted starting
  executing : Submitted running
  blocked : Submitted waiting_for_approval
  reconnecting : Submitted recovering

-- One step of a run.
infix 40 ◌⟶◌ ◌⟶*◌
pub data ◌⟶◌ : RunStatus → RunStatus → Type 0 where
  submit : created ⟶ starting
  abandon_failed : created ⟶ failed
  abandon_cancelled : created ⟶ cancelled
  abandon_lost : created ⟶ lost
  accept : starting ⟶ running
  lose_sight : starting ⟶ recovering
  ask : running ⟶ waiting_for_approval
  park : running ⟶ recovering
  answer : waiting_for_approval ⟶ running
  park_waiting : waiting_for_approval ⟶ recovering
  resume : recovering ⟶ running
  resume_waiting : recovering ⟶ waiting_for_approval
  settle : {s t : RunStatus} → Submitted s → Outcome t → s ⟶ t

pub data ◌⟶*◌ : RunStatus → RunStatus → Type 0 where
  here : {s : RunStatus} → s ⟶* s
  next : {s t u : RunStatus} → s ⟶ t → t ⟶* u → s ⟶* u

pub ⟶*-trans : {s t u : RunStatus} → s ⟶* t → t ⟶* u → s ⟶* u
⟶*-trans here q = q
⟶*-trans (next e p) q = next e (⟶*-trans p q)

ruleset edges = (
  submit, abandon_failed, abandon_cancelled, abandon_lost, accept, lose_sight, ask, park, answer,
  park_waiting, resume, resume_waiting,
)

ruleset outcomes = (completes, fails, cancels, interrupts, loses)

ruleset places = (in_flight, executing, blocked, reconnecting)

validate_sound : (a b : RunStatus) → validate_transition a b ≡ ok tt → (a ≡ b) ⊎ (a ⟶ b)
unfolding validate_transition
validate_sound a b h = grind (arith, edges, outcomes, places, settle)

validate_complete : {a b : RunStatus} → a ⟶ b → validate_transition a b ≡ ok tt
unfolding validate_transition
validate_complete (settle in_flight completes) = refl
validate_complete (settle in_flight fails) = refl
validate_complete (settle in_flight cancels) = refl
validate_complete (settle in_flight interrupts) = refl
validate_complete (settle in_flight loses) = refl
validate_complete (settle executing completes) = refl
validate_complete (settle executing fails) = refl
validate_complete (settle executing cancels) = refl
validate_complete (settle executing interrupts) = refl
validate_complete (settle executing loses) = refl
validate_complete (settle blocked completes) = refl
validate_complete (settle blocked fails) = refl
validate_complete (settle blocked cancels) = refl
validate_complete (settle blocked interrupts) = refl
validate_complete (settle blocked loses) = refl
validate_complete (settle reconnecting completes) = refl
validate_complete (settle reconnecting fails) = refl
validate_complete (settle reconnecting cancels) = refl
validate_complete (settle reconnecting interrupts) = refl
validate_complete (settle reconnecting loses) = refl
validate_complete _ = refl

pub validate_self : (a : RunStatus) → validate_transition a a ≡ ok tt
unfolding validate_transition
validate_self created = refl
validate_self _ = refl

pub validate_iff_edge : (a b : RunStatus) → (validate_transition a b ≡ ok tt) ↔ ((a ≡ b) ⊎ (a ⟶ b))
validate_iff_edge a b = (validate_sound a b, back)
  where
    back : (a ≡ b) ⊎ (a ⟶ b) → validate_transition a b ≡ ok tt
    back (inl p) = rw p (validate_self b)
    back (inr e) = validate_complete e

-- No edge leaves a terminal status.
terminal-no-edge : {a b : RunStatus} → a ⟶ b → is_terminal a ≡ true → ⊥
unfolding is_terminal
terminal-no-edge (settle in_flight o) h = cc
terminal-no-edge (settle executing o) h = cc
terminal-no-edge (settle blocked o) h = cc
terminal-no-edge (settle reconnecting o) h = cc
terminal-no-edge _ h = cc

-- A run that has reached a terminal status keeps that status along every sequence of accepted
-- transitions.
pub terminal_absorbs : {a b : RunStatus} → is_terminal a ≡ true → a ⟶* b → b ≡ a
terminal_absorbs h here = refl
terminal_absorbs h (next e r) = absurd (terminal-no-edge e h)

-- From every status that is not terminal, each of the outcomes `failed`, `cancelled` and `lost`
-- is one accepted transition away, so no run is left in a state that nothing can resolve.
pub active_resolves :
    (a : RunStatus)
    → is_active a ≡ true
    → (validate_transition a failed ≡ ok tt)
      × (validate_transition a cancelled ≡ ok tt)
      × (validate_transition a lost ≡ ok tt)
unfolding validate_transition is_active
active_resolves created h = (refl, refl, refl)
active_resolves starting h = (refl, refl, refl)
active_resolves running h = (refl, refl, refl)
active_resolves waiting_for_approval h = (refl, refl, refl)
active_resolves recovering h = (refl, refl, refl)
active_resolves _ h = cc

no-edge-to-created : {a b : RunStatus} → a ⟶ b → b ≡ created → ⊥
no-edge-to-created (settle s completes) h = cc
no-edge-to-created (settle s fails) h = cc
no-edge-to-created (settle s cancels) h = cc
no-edge-to-created (settle s interrupts) h = cc
no-edge-to-created (settle s loses) h = cc
no-edge-to-created submit h = cc
no-edge-to-created _ h = cc

pub never_created_again : {a b : RunStatus} → a ⟶* b → b ≡ created → a ≡ created
never_created_again here h = h
never_created_again (next e r) h = absurd (no-edge-to-created e (never_created_again r h))

-- One arm of the `match` in `parse`: it fires, or the value comes from the arms below.
arm :
    (t n : String) (r s : RunStatus) (rest : Result UnknownStatus RunStatus)
    → (if str_eq t n then ok r else rest) ≡ ok s
    → ((t ≡ n) × (r ≡ s)) ⊎ (rest ≡ ok s)
arm t n r s rest h = ground (arith, eq_iff t n)

parse-exact : (t : String) (s : RunStatus) → parse t ≡ ok s → t ≡ as_str s
unfolding parse as_str
parse-exact t s h₀ = elim (arm t "created" created s _ h₀) [
  | inl (p, q) ↦ rw (← q) p
  | inr h₁ ↦ elim (arm t "starting" starting s _ h₁) [
    | inl (p, q) ↦ rw (← q) p
    | inr h₂ ↦ elim (arm t "running" running s _ h₂) [
      | inl (p, q) ↦ rw (← q) p
      | inr h₃ ↦ elim (arm t "waiting_for_approval" waiting_for_approval s _ h₃) [
        | inl (p, q) ↦ rw (← q) p
        | inr h₄ ↦ elim (arm t "recovering" recovering s _ h₄) [
          | inl (p, q) ↦ rw (← q) p
          | inr h₅ ↦ elim (arm t "completed" completed s _ h₅) [
            | inl (p, q) ↦ rw (← q) p
            | inr h₆ ↦ elim (arm t "failed" failed s _ h₆) [
              | inl (p, q) ↦ rw (← q) p
              | inr h₇ ↦ elim (arm t "cancelled" cancelled s _ h₇) [
                | inl (p, q) ↦ rw (← q) p
                | inr h₈ ↦ elim (arm t "interrupted" interrupted s _ h₈) [
                  | inl (p, q) ↦ rw (← q) p
                  | inr h₉ ↦ elim (arm t "lost" lost s _ h₉) [
                    | inl (p, q) ↦ rw (← q) p
                    | inr hx ↦ cc
                  ]
                ]
              ]
            ]
          ]
        ]
      ]
    ]
  ]
]

-- A text that `parse` accepts is the text form of the status that it returns, and the text form
-- of every status is accepted: stored statuses are exactly the ten names.
pub parse_iff_as_str : (t : String) (s : RunStatus) → (parse t ≡ ok s) ↔ (t ≡ as_str s)
parse_iff_as_str t s = (forth t s, λ e. rw e (parse-as_str s))
  where
    forth : (t : String) (s : RunStatus) → parse t ≡ ok s → t ≡ as_str s
    forth = parse-exact

-- A status reported by the backend becomes terminal only if it is one of the three texts
-- `completed`, `failed` and `cancelled`; every other text leaves the run active.
pub hermes_terminal_iff :
    (t : String)
    → (is_terminal (from_hermes_status t) ≡ true)
      ↔ ((t ≡ "completed") ⊎ (t ≡ "failed") ⊎ (t ≡ "cancelled"))
unfolding from_hermes_status is_terminal
hermes_terminal_iff t = ground (
  arith,
  eq_iff t "completed",
  eq_iff t "failed",
  eq_iff t "cancelled",
  eq_iff t "waiting_for_approval",
)
