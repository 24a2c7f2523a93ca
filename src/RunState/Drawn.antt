-- ===== src/RunState/Drawn.antt =====
-- The diagram of docs/phase-e-node-daemon.md, compared with src/runstate.rs.
use asterism.Prelude.{◌≡◌, refl, ◌↔◌, ◌⊎◌, inl, inr}
use asterism.Prelude.Results.{ok}
use asterism.RunState.{
  RunStatus, created, starting, running, waiting_for_approval, recovering, completed, interrupted,
  validate_transition,
}
use asterism.RunState.Lifecycle.{
  Outcome, completes, fails, cancels, interrupts, loses, Submitted, in_flight, executing, blocked,
  reconnecting, ◌⟶◌, submit, abandon_failed, abandon_cancelled, abandon_lost, accept, lose_sight,
  ask, park, answer, park_waiting, resume, resume_waiting, settle, validate_iff_edge,
}

-- The states that the diagram of docs/phase-e-node-daemon.md calls live.
pub data Live : RunStatus → Type 0 where
  not_submitted : Live created
  submitted : {s : RunStatus} → Submitted s → Live s

-- The arrows of that diagram: the chain, the double arrow, the bar to `recovering` with what leaves
-- it, and the last line, from all live states to the outcomes.
infix 40 ◌⇢◌
pub data ◌⇢◌ : RunStatus → RunStatus → Type 0 where
  to_starting : created ⇢ starting
  to_running : starting ⇢ running
  to_waiting : running ⇢ waiting_for_approval
  from_waiting : waiting_for_approval ⇢ running
  starting_recovers : starting ⇢ recovering
  running_recovers : running ⇢ recovering
  waiting_recovers : waiting_for_approval ⇢ recovering
  recovered : recovering ⇢ running
  recovered_waiting : recovering ⇢ waiting_for_approval
  ends : {s t : RunStatus} → Live s → Outcome t → s ⇢ t

-- An end that the diagram draws for a run that was never submitted.
abbrev pub IsUnsubmittedEnd : RunStatus → RunStatus → Type 0
IsUnsubmittedEnd a b = (a ≡ created) × ((b ≡ completed) ⊎ (b ≡ interrupted))

edge-drawn : {a b : RunStatus} → a ⟶ b → (a ⇢ b) × ¬ IsUnsubmittedEnd a b
edge-drawn submit = (to_starting, λ (p, q). elim q [ inl e ↦ cc | inr e ↦ cc ])
edge-drawn abandon_failed = (ends not_submitted fails, λ (p, q). elim q [ inl e ↦ cc | inr e ↦ cc ])
edge-drawn abandon_cancelled =
    (ends not_submitted cancels, λ (p, q). elim q [ inl e ↦ cc | inr e ↦ cc ])
edge-drawn abandon_lost = (ends not_submitted loses, λ (p, q). elim q [ inl e ↦ cc | inr e ↦ cc ])
edge-drawn accept = (to_running, λ (p, q). cc)
edge-drawn lose_sight = (starting_recovers, λ (p, q). cc)
edge-drawn ask = (to_waiting, λ (p, q). cc)
edge-drawn park = (running_recovers, λ (p, q). cc)
edge-drawn answer = (from_waiting, λ (p, q). cc)
edge-drawn park_waiting = (waiting_recovers, λ (p, q). cc)
edge-drawn resume = (recovered, λ (p, q). cc)
edge-drawn resume_waiting = (recovered_waiting, λ (p, q). cc)
edge-drawn (settle s o) = (ends (submitted s) o, λ (p, q). not_created s p)
  where
    not_created : {s : RunStatus} → Submitted s → s ≡ created → ⊥
    not_created in_flight e = cc
    not_created executing e = cc
    not_created blocked e = cc
    not_created reconnecting e = cc

drawn-edge : {a b : RunStatus} → a ⇢ b → ¬ IsUnsubmittedEnd a b → a ⟶ b
drawn-edge to_starting n = submit
drawn-edge to_running n = accept
drawn-edge to_waiting n = ask
drawn-edge from_waiting n = answer
drawn-edge starting_recovers n = lose_sight
drawn-edge running_recovers n = park
drawn-edge waiting_recovers n = park_waiting
drawn-edge recovered n = resume
drawn-edge recovered_waiting n = resume_waiting
drawn-edge (ends (submitted s) o) n = settle s o
drawn-edge (ends not_submitted completes) n = absurd (n (refl, inl refl))
drawn-edge (ends not_submitted interrupts) n = absurd (n (refl, inr refl))
drawn-edge (ends not_submitted fails) n = abandon_failed
drawn-edge (ends not_submitted cancels) n = abandon_cancelled
drawn-edge (ends not_submitted loses) n = abandon_lost

-- `validate_transition` accepts a change exactly when the status stays the same or the diagram of
-- docs/phase-e-node-daemon.md has an arrow from the old status to the new one, with two exceptions:
-- that diagram lets every live state end in every outcome, and the code refuses to complete or to
-- interrupt a run that is only created.
pub validate_iff_drawn :
    (a b : RunStatus)
    → (validate_transition a b ≡ ok tt) ↔ ((a ≡ b) ⊎ ((a ⇢ b) × ¬ IsUnsubmittedEnd a b))
validate_iff_drawn a b = (forth, back)
  where
    forth : validate_transition a b ≡ ok tt → (a ≡ b) ⊎ ((a ⇢ b) × ¬ IsUnsubmittedEnd a b)
    forth h = elim ((validate_iff_edge a b).0 h) [ inl p ↦ inl p | inr e ↦ inr (edge-drawn e) ]

    back : (a ≡ b) ⊎ ((a ⇢ b) × ¬ IsUnsubmittedEnd a b) → validate_transition a b ≡ ok tt
    back (inl p) = (validate_iff_edge a b).1 (inl p)
    back (inr (e, n)) = (validate_iff_edge a b).1 (inr (drawn-edge e n))
