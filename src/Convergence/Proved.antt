-- ===== src/Convergence/Proved.antt =====
-- What a successful answer of `converge` proves of every target.
use mathlib.Core.Path.{subst}
use asterism.Prelude.{
  ℕ, zero, suc, ◌-◌, ◌≡◌, refl, ap, true, inl, inr, Option, none, some, List, [], ◌∷◌, map, All,
  arith, leb, Bool-cases,
}
use asterism.Prelude.Results.{ok}
use asterism.Prelude.Table.{is_some, unwrap_or}
use asterism.Convergence.{
  Host, Watch, Watches, watch_all, all_done, converged, Converged, Policy, converge_from, converge,
  start_watch,
}
use asterism.Convergence.Observed.{Target}
use asterism.Convergence.Settled.{
  HeldFor, Settled, nil, one, IsWatch, none-some, watch_target-IsWatch,
}

abbrev targets_of : Watches → List Target
targets_of ws = map (λ (p : Target × Watch). p.0) ws

abbrev AllWatch : ℕ → Host → ℕ → Watches → Type 0
AllWatch settle host round ws = All (λ (p : Target × Watch). IsWatch settle host round p.0 p.1) ws

watch_all-AllWatch :
    (settle : ℕ) (host : Host) (round : ℕ) (ws : Watches)
    → AllWatch settle host round ws
    → AllWatch settle host (suc round) (watch_all settle host round ws)
unfolding watch_all
watch_all-AllWatch settle host round [] h = tt
watch_all-AllWatch settle host round ((t, w) ∷ ws) (h, hs) =
    (watch_target-IsWatch settle host t round w h, watch_all-AllWatch settle host round ws hs)

targets_of-watch_all :
    (settle : ℕ) (host : Host) (round : ℕ) (ws : Watches)
    → targets_of (watch_all settle host round ws) ≡ targets_of ws
unfolding watch_all
targets_of-watch_all settle host round [] = refl
targets_of-watch_all settle host round ((t, w) ∷ ws) =
    ap (λ ts. t ∷ ts) (targets_of-watch_all settle host round ws)

done-HeldFor :
    (settle : ℕ) (host : Host) (round : ℕ) (target : Target) (w : Watch) (o : Option ℕ)
    → IsWatch settle host round target w
    → w.done ≡ o
    → is_some o ≡ true
    → HeldFor settle host target (unwrap_or o 0)
done-HeldFor settle host round target w none h e d = ground (arith, d)
done-HeldFor settle host round target w (some pid) h e d = h.when_done pid e

all_done-Settled :
    (settle : ℕ) (host : Host) (round : ℕ) (ws : Watches)
    → AllWatch settle host round ws
    → all_done ws ≡ true
    → Settled settle host (targets_of ws) (map converged ws)
all_done-Settled settle host round [] h d = nil
all_done-Settled settle host round ((t, w) ∷ ws) (h, hs) d =
    one refl (done-HeldFor settle host round t w w.done h refl (ground (arith, d)))
      (all_done-Settled settle host round ws hs (ground (arith, d)))

converge_from-Settled :
    (rounds : ℕ) (policy : Policy) (host : Host) (round : ℕ) (ws : Watches) (done : List Converged)
    → AllWatch policy.settle host round ws
    → converge_from rounds policy host round ws ≡ some (ok done)
    → Settled policy.settle host (targets_of ws) done
unfolding converge_from
converge_from-Settled zero policy host round ws done h e = absurd (none-some (ok done) e)
converge_from-Settled (suc rounds) policy host round ws done h e =
    let seen = watch_all policy.settle host round ws in
    let hs = watch_all-AllWatch policy.settle host round ws h in
    let same = targets_of-watch_all policy.settle host round ws in
    elim (Bool-cases (all_done seen)) [
      | inl finished ↦
          subst (Settled policy.settle host (targets_of ws)) (ground (arith, finished)) (
            subst (λ ts. Settled policy.settle host ts (map converged seen)) same
              (all_done-Settled policy.settle host (suc round) seen hs finished))
      | inr busy ↦ elim (Bool-cases (leb policy.deadline (host.now round - host.started))) [
        | inl late ↦ ground (arith, busy, late)
        | inr early ↦
            subst (λ ts. Settled policy.settle host ts done) same
              (converge_from-Settled rounds policy host (suc round) seen done hs
                (ground (arith, busy, early)))
      ]
    ]

targets_of-start : (targets : List Target) → targets_of (map start_watch targets) ≡ targets
targets_of-start [] = refl
targets_of-start (t ∷ ts) = ap (λ l. t ∷ l) (targets_of-start ts)

AllWatch-start :
    (settle : ℕ) (host : Host) (targets : List Target)
    → AllWatch settle host 0 (map start_watch targets)
AllWatch-start settle host [] = tt
AllWatch-start settle host (t ∷ ts) = (
  record {
    when_done = λ pid d. absurd (none-some pid d);
    when_since = λ start held e i. absurd (none-some (start, held) e);
  },
  AllWatch-start settle host ts,
)

-- If `converge` succeeds, then every target, in order, has been seen active and executing the
-- expected file at each look of a stretch of rounds in which the clock moved by at least the
-- settling time, in one and the same process, whose number is the one that is returned.
pub converge-Settled :
    (rounds : ℕ) (policy : Policy) (host : Host) (targets : List Target) (done : List Converged)
    → converge rounds policy host targets ≡ some (ok done)
    → Settled policy.settle host targets done
unfolding converge
converge-Settled rounds policy host targets done e =
    subst (λ ts. Settled policy.settle host ts done) (targets_of-start targets)
      (converge_from-Settled rounds policy host 0 (map start_watch targets) done
        (AllWatch-start policy.settle host targets) e)
