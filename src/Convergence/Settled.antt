-- ===== src/Convergence/Settled.antt =====
-- Convergence is not decided from one look: what the loop of `converge` keeps true of each target.
use mathlib.Core.Path.{subst}
use asterism.Prelude.{
  ℕ, suc, ◌-◌, ◌≤◌, ◌<◌, ◌≡◌, refl, sym, ap, ◌∙◌, true, false, ◌⊎◌, inl, inr, Option, none, some,
  List, [], ◌∷◌, arith, leb, Bool-cases, Option-cases, if-cases,
}
use asterism.Prelude.Table.{is_some, unwrap_or}
use asterism.Convergence.{Host, Watch, look, look_good, watch_target, Converged}
use asterism.Convergence.Observed.{Target, Held, FileId, same_held, Observation, good, key, observe}

-- The look at a target in a round finds it active, and executing the expected file as `held`.
abbrev pub HeldAt : Host → Target → Held → ℕ → Type 0
HeldAt host target held round =
    let seen = observe (host.sight round target.unit) target in
    (good seen ≡ true) × (key seen ≡ some held)

-- Each look of the rounds from `first` to `last` finds the same process executing the same file,
-- and the clock moved by at least `settle` between them.
pub record HeldFor (settle : ℕ) (host : Host) (target : Target) (pid : ℕ) : Type 0 where
  pub first : ℕ
  pub last : ℕ
  pub file : FileId
  pub long : settle ≤ host.now last - host.now first
  pub held : (round : ℕ) → first ≤ round → round ≤ last → HeldAt host target (pid, file) round

-- Each target, in order, with the process that it settled on.
pub data Settled (settle : ℕ) (host : Host) : List Target → List Converged → Type 0 where
  nil : Settled settle host [] []
  one :
      {target : Target} {targets : List Target} {done : Converged} {rest : List Converged}
      → done.converged_role ≡ target.role
      → HeldFor settle host target done.converged_pid
      → Settled settle host targets rest
      → Settled settle host (target ∷ targets) (done ∷ rest)

-- What a watch says of its target before a round.
pub record IsWatch (settle : ℕ) (host : Host) (round : ℕ) (target : Target) (w : Watch)
    : Type 0 where
  pub when_done : (pid : ℕ) → w.done ≡ some pid → HeldFor settle host target pid
  pub when_since :
      (start : ℕ) (held : Held)
      → w.since ≡ some (start, held)
      → w.done ≡ none
      → (first : ℕ) × (host.now first ≡ start)
        × ((k : ℕ) → first ≤ k → k < round → HeldAt host target held k)

-- What a look does to a watch.
data Looked (settle now : ℕ) (seen : Observation) (w u : Watch) : Type 0 where
  lost : u ≡ record w { since = none } → Looked settle now seen w u
  begun :
      (held : Held)
      → good seen ≡ true
      → key seen ≡ some held
      → u ≡ record w { since = some (now, held) }
      → Looked settle now seen w u
  kept :
      (start : ℕ) (held : Held)
      → good seen ≡ true
      → key seen ≡ some held
      → w.since ≡ some (start, held)
      → u ≡ w
      → Looked settle now seen w u
  settled :
      (start : ℕ) (held : Held)
      → good seen ≡ true
      → key seen ≡ some held
      → w.since ≡ some (start, held)
      → settle ≤ now - start
      → u ≡ record w { done = some held.0 }
      → Looked settle now seen w u

same_held-eq : (a b : Held) → same_held a b ≡ true → a ≡ b
same_held-eq (p, (d, i)) (q, (e, j)) h = ground (arith, h)

look_good-Looked :
    (settle now : ℕ) (seen : Observation) (held : Held) (w : Watch)
    → good seen ≡ true
    → key seen ≡ some held
    → Looked settle now seen w (look_good settle now held w)
unfolding look_good
look_good-Looked settle now seen held w g k = elim (Option-cases w.since) [
  | inl new ↦ begun held g k (ground (arith, new))
  | inr ((start, before), running) ↦ elim (Bool-cases (same_held before held)) [
    | inl same ↦ elim (Bool-cases (leb settle (now - start))) [
      | inl long ↦
          settled start held g k
            (running ∙ ap (λ h. some (start, h)) (same_held-eq before held same))
            (ground (arith, long)) (ground (arith, running, same, long))
      | inr short ↦
          kept start held g k (running ∙ ap (λ h. some (start, h)) (same_held-eq before held same))
            (ground (arith, running, same, short))
    ]
    | inr other ↦ begun held g k (ground (arith, running, other))
  ]
]

look-good :
    (settle now : ℕ) (seen : Observation) (held : Held) (w : Watch)
    → key seen ≡ some held
    → good seen ≡ true
    → look settle now seen w ≡ look_good settle now held w
unfolding look
look-good settle now seen held w k g = ground (arith, k, g)

look-Looked :
    (settle now : ℕ) (seen : Observation) (w : Watch)
    → Looked settle now seen w (look settle now seen w)
unfolding look
look-Looked settle now seen w = elim (Option-cases (key seen)) [
  | inl nothing ↦ lost (ground (arith, nothing))
  | inr (held, k) ↦ elim (Bool-cases (good seen)) [
    | inl g ↦
        subst (λ u. Looked settle now seen w u) (sym (look-good settle now seen held w k g))
          (look_good-Looked settle now seen held w g k)
    | inr bad ↦ lost (ground (arith, k, bad))
  ]
]

pub none-some {ℓ} : {A : Type ℓ} (a : A) → Path (Option A) none (some a) → ⊥
none-some a h = cc

-- One more look in the rounds up to `round`.
held-snoc :
    (host : Host) (target : Target) (held : Held) (first round : ℕ)
    → ((k : ℕ) → first ≤ k → k < round → HeldAt host target held k)
    → HeldAt host target held round
    → (k : ℕ) → first ≤ k
    → k < suc round
    → HeldAt host target held k
held-snoc host target held first round before now k from upto = elim (split k round upto) [
  | inl past ↦ before k from past
  | inr here ↦ rw here now
]
  where
    split : (k round : ℕ) → k < suc round → (k < round) ⊎ (k ≡ round)
    split k round h = ground (arith, h)

module _ (settle : ℕ) (host : Host) (target : Target) (round : ℕ) where
  abbrev pub seen_now : Observation
  seen_now = observe (host.sight round target.unit) target

  -- What a watch claims for the start of its settling.
  SinceAt : ℕ → ℕ × Held → Type 0
  SinceAt bound (start, held) =
      (first : ℕ) × (host.now first ≡ start)
      × ((k : ℕ) → first ≤ k → k < bound → HeldAt host target held k)

  since-IsWatch :
      (w : Watch) (p : ℕ × Held)
      → w.since ≡ some p
      → w.done ≡ none
      → SinceAt (suc round) p
      → IsWatch settle host (suc round) target w
  unfolding SinceAt
  since-IsWatch w p running idle claim = record {
    when_done = λ pid d. absurd (none-some pid (sym idle ∙ d));
    when_since = λ start held e i.
        subst (SinceAt (suc round)) (ap (λ o. unwrap_or o p) (sym running ∙ e)) claim;
  }

  extended :
      (w : Watch) (start : ℕ) (held : Held)
      → IsWatch settle host round target w
      → w.since ≡ some (start, held)
      → w.done ≡ none
      → HeldAt host target held round
      → SinceAt (suc round) (start, held)
  unfolding SinceAt
  extended w start held h running idle now =
      let (first, at, before) = h.when_since start held running idle in
      (first, at, held-snoc host target held first round before now)

  settled-HeldFor :
      (start : ℕ) (held : Held)
      → SinceAt (suc round) (start, held)
      → settle ≤ host.now round - start
      → HeldFor settle host target held.0
  unfolding SinceAt
  settled-HeldFor start (pid, f) (first, at, looks) long = record {
    first = first;
    last = round;
    file = f;
    long = rw at long;
    held = λ k from upto. looks k from (omega arith);
  }

  looked-IsWatch :
      (w u : Watch)
      → IsWatch settle host round target w
      → w.done ≡ none
      → Looked settle (host.now round) seen_now w u
      → IsWatch settle host (suc round) target u
  unfolding SinceAt
  looked-IsWatch w u h idle (lost e) =
      subst (λ x. IsWatch settle host (suc round) target x) (sym e)
        (record {
          when_done = λ pid d. absurd (none-some pid (sym idle ∙ d));
          when_since = λ start held s i. absurd (none-some (start, held) s);
        })
  looked-IsWatch w u h idle (begun held g k e) =
      subst (λ x. IsWatch settle host (suc round) target x) (sym e)
        (since-IsWatch (record w { since = some (host.now round, held) }) (host.now round, held)
          refl idle (round, refl, λ j from upto. rw (same_round j from upto) (g, k)))
    where
      same_round : (j : ℕ) → round ≤ j → j < suc round → j ≡ round
      same_round j from upto = omega arith
  looked-IsWatch w u h idle (kept start held g k running e) =
      subst (λ x. IsWatch settle host (suc round) target x) (sym e)
        (since-IsWatch w (start, held) running idle (extended w start held h running idle (g, k)))
  looked-IsWatch w u h idle (settled start held g k running long e) =
      subst (λ x. IsWatch settle host (suc round) target x) (sym e)
        (record {
          when_done = λ pid d.
              subst (HeldFor settle host target) (ap (λ o. unwrap_or o held.0) d)
                (settled-HeldFor start held (extended w start held h running idle (g, k)) long);
          when_since = λ start' held' s i. absurd (none-some held.0 (sym i));
        })

  -- One round of the loop, for one target.
  pub watch_target-IsWatch :
      (w : Watch)
      → IsWatch settle host round target w
      → IsWatch settle host (suc round) target (watch_target settle (host.now round) seen_now w)
  unfolding watch_target
  watch_target-IsWatch w h =
      if-cases (IsWatch settle host (suc round) target) (is_some w.done) w
        (record (look settle (host.now round) seen_now w) { last_seen = some seen_now })
        (λ finished. later w h finished)
        (λ idle. relabelled _ (
          looked-IsWatch w _ h (idle-none w.done idle)
            (look-Looked settle (host.now round) seen_now w)))
    where
      idle-none : (o : Option ℕ) → is_some o ≡ false → o ≡ none
      idle-none none i = refl
      idle-none (some n) i = ground (arith, i)

      later :
          (w : Watch)
          → IsWatch settle host round target w
          → is_some w.done ≡ true
          → IsWatch settle host (suc round) target w
      later w h finished = record {
        when_done = h.when_done;
        when_since = λ start held e i. ground (arith, finished, i);
      }

      relabelled :
          (u : Watch)
          → IsWatch settle host (suc round) target u
          → IsWatch settle host (suc round) target (record u { last_seen = some seen_now })
      relabelled u k = record { when_done = k.when_done; when_since = k.when_since }
