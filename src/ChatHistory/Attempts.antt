-- ===== src/ChatHistory/Attempts.antt =====
-- The loop over the retries of a run ends where each retry stands above the run that it retries.
use asterism.Prelude.{
  ℕ, zero, suc, ◌+◌, ◌≤◌, ◌<◌, ◌≡◌, ap, ◌∙◌, String, true, inl, inr, Option, none, some, List, [],
  ◌∷◌, ◌++◌, arith, eq_iff, opt_str_eq, All, where_rows, Bool-cases,
}
use asterism.Registry.Requests.{RunRecord}
use asterism.ChatHistory.{is_retry_of, push_ids, grow_chain}

-- Identifiers have heights up to a bound, and a retry stands above the run that it retries.
abbrev pub IsAbove : (String → ℕ) → ℕ → RunRecord → Type 0
IsAbove height top run =
    (height run.run_id ≤ top)
    × ((parent : String) → run.retry_of_run_id ≡ some parent → height parent < height run.run_id)

-- With this many rounds the loop is done with a run and the retries above it.
abbrev pub DoneWith : List RunRecord → String → Type 0
DoneWith runs id =
    (cost : ℕ) × ((m : ℕ) (frontier : List String) (chain : List RunRecord)
      → (grown : List RunRecord) × (grow_chain (cost + m) runs (id ∷ frontier) chain
          ≡ grow_chain m runs frontier grown))

abbrev DonePushed : List RunRecord → List RunRecord → Type 0
DonePushed runs pushed =
    (cost : ℕ) × ((m : ℕ) (frontier : List String) (chain : List RunRecord)
      → (grown : List RunRecord) × (grow_chain (cost + m) runs (push_ids pushed frontier) chain
          ≡ grow_chain m runs frontier grown))

-- The round that takes a run from the frontier.
expanded :
    (runs : List RunRecord) (id : String)
    → DonePushed runs (where_rows (is_retry_of id) runs)
    → DoneWith runs id
unfolding grow_chain
expanded runs id (cost, rest) =
    let retries = where_rows (is_retry_of id) runs in
    (
      suc cost,
      λ m frontier chain.
          let (grown, e) = rest m frontier (chain ++ retries) in
          (grown, ap (λ n. grow_chain n runs (id ∷ frontier) chain) (suc_sum cost m) ∙ e),
    )
  where
    suc_sum : (n m : ℕ) → suc n + m ≡ suc (n + m)
    suc_sum n m = omega arith

retry-parent : (o : Option String) (parent : String) → opt_str_eq o parent ≡ true → o ≡ some parent
retry-parent none parent h = cc
retry-parent (some s) parent h = ap some ((eq_iff s parent).0 h)

retries-All :
    (height : String → ℕ) (top : ℕ) (P : RunRecord → Type 0) (parent : String)
    (rest : List RunRecord)
    → All (IsAbove height top) rest
    → ((run : RunRecord) → IsAbove height top run → run.retry_of_run_id ≡ some parent → P run)
    → All P (where_rows (is_retry_of parent) rest)
retries-All height top P parent [] h f = tt
retries-All height top P parent (run ∷ rest) (h, hs) f =
    elim (Bool-cases (is_retry_of parent run)) [
      | inl retry ↦
          rw (retry, where_rows)
            (
              f run h (retry-parent run.retry_of_run_id parent retry),
              retries-All height top P parent rest hs f,
            )
      | inr other ↦ rw (other, where_rows) (retries-All height top P parent rest hs f)
    ]

pushed-Done :
    (runs pushed : List RunRecord)
    → All (λ (r : RunRecord). DoneWith runs r.run_id) pushed
    → DonePushed runs pushed
pushed-Done runs [] h =
    (0, λ m frontier chain. (chain, ap (λ n. grow_chain n runs frontier chain) (plus_zero m)))
  where
    plus_zero : (m : ℕ) → 0 + m ≡ m
    plus_zero m = omega arith
pushed-Done runs (r ∷ rest) ((a, first), hs) =
    let (b, others) = pushed-Done runs rest hs in
    (
      b + a,
      λ m frontier chain.
          let (grown, e) = others (a + m) (r.run_id ∷ frontier) chain in
          let (grown', e') = first m frontier grown in
          (
            grown',
            ap (λ n. grow_chain n runs (push_ids rest (r.run_id ∷ frontier)) chain)
                  (sum_assoc b a m)
                ∙ (e ∙ e'),
          ),
    )
  where
    sum_assoc : (b a m : ℕ) → (b + a) + m ≡ b + (a + m)
    sum_assoc b a m = omega arith

-- By the distance of the run from the top.
pub run-Done :
    (height : String → ℕ) (top : ℕ) (runs : List RunRecord) (d : ℕ) (id : String)
    → All (IsAbove height top) runs
    → top < height id + d
    → DoneWith runs id
unfolding grow_chain
run-Done height top runs zero id hs far = expanded runs id (
    pushed-Done runs (where_rows (is_retry_of id) runs) (
      retries-All height top (λ r. DoneWith runs r.run_id) id runs hs
        (λ run (low, up) e. absurd (omega (arith, far, low, up id e)))))
run-Done height top runs (suc d) id hs far = expanded runs id (
    pushed-Done runs (where_rows (is_retry_of id) runs) (
      retries-All height top (λ r. DoneWith runs r.run_id) id runs hs
        (λ run (low, up) e.
          run-Done height top runs d run.run_id hs (omega (arith, far, up id e)))))
