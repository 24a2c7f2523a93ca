-- ===== src/ChatHistory/Built.antt =====
-- The history of a run is built after finitely many rounds.
use asterism.Prelude.{
  ℕ, zero, suc, ◌+◌, ◌≡◌, refl, ap, ◌∙◌, String, Bool, true, false, Option, none, some, List, [],
  ◌∷◌, ◌++◌, arith, if◌then◌else◌, All, where_rows,
}
use asterism.Prelude.Table.{map_option}
use asterism.Text.{Text, codes}
use asterism.Registry.Requests.{RunRecord}
use asterism.ChatHistory.{
  Turn, HistoryLimits, BuiltHistory, EncodedLength, has_run_id, grow_chain, sort_by_creation,
  attempt_chain, text_field, turn_of, latest_completed_answer, turn_from, opens_turn, before_turns,
  collect_from, sort_turns, window, build,
}
use asterism.ChatHistory.Attempts.{IsAbove, run-Done}

-- A search with a bound that finds something with every large enough bound.
abbrev Ends : (A : Type 0) → (ℕ → Option A) → Type 0
Ends A search = (rounds : ℕ) × ((more : ℕ) → (found : A) × (search (rounds + more) ≡ some found))

module _ (height : String → ℕ) (top : ℕ) (runs : List RunRecord)
    (hs : All (IsAbove height top) runs) where
  attempt_chain-Ends :
      (root_id : String) → Ends (List RunRecord) (λ n. attempt_chain n runs root_id)
  unfolding attempt_chain grow_chain
  attempt_chain-Ends root_id =
      let (cost, done) = run-Done height top runs (suc top) root_id hs (omega arith) in
      (
        cost,
        λ more.
            let (grown, e) = done more [] (where_rows (has_run_id root_id) runs) in
            (sort_by_creation grown, ap (map_option sort_by_creation) (e ∙ at_end more grown)),
      )
    where
      at_end : (m : ℕ) (grown : List RunRecord) → grow_chain m runs [] grown ≡ some grown
      at_end zero grown = refl
      at_end (suc m) grown = refl

  turn_from-Ends : (run : RunRecord) → Ends (List Turn) (λ n. turn_from n runs run)
  unfolding turn_from
  turn_from-Ends run = asked (text_field run.request_payload (codes "input"))
    where
      asked :
          (o : Option Text)
          → Ends (List Turn) (λ n. elim o [
            | none ↦ some []
            | some user ↦
                map_option
                  (λ attempts. turn_of run user (latest_completed_answer attempts))
                  (attempt_chain n runs run.run_id)
          ])
      asked none = (0, λ more. ([], refl))
      asked (some user) =
          let (cost, ends) = attempt_chain-Ends run.run_id in
          (
            cost,
            λ more.
                let (chain, e) = ends more in
                (
                  turn_of run user (latest_completed_answer chain),
                  ap (map_option (λ attempts. turn_of run user (latest_completed_answer attempts)))
                      e,
                ),
          )

  -- The sum of the bounds serves both searches.
  both-Ends :
      (first later : ℕ → Option (List Turn))
      → Ends (List Turn) first
      → Ends (List Turn) later
      → Ends (List Turn) (λ n. before_turns (first n) (later n))
  both-Ends first later (a, f) (b, g) = (
    a + b,
    λ more.
        let (x, e) = f (b + more) in
        let (y, e') = g (a + more) in
        (
          x ++ y,
          ap (λ o. before_turns o (later ((a + b) + more))) (ap first (left a b more) ∙ e)
              ∙ ap (before_turns (some x)) (ap later (right a b more) ∙ e'),
        ),
  )
    where
      left : (a b m : ℕ) → (a + b) + m ≡ a + (b + m)
      left a b m = omega arith

      right : (a b m : ℕ) → (a + b) + m ≡ b + (a + m)
      right a b m = omega arith

  collect_from-Ends :
      (session_id current_run_id : String) (rest : List RunRecord)
      → Ends (List Turn) (λ n. collect_from n runs session_id current_run_id rest)
  unfolding collect_from
  collect_from-Ends session_id current_run_id [] = (0, λ more. ([], refl))
  collect_from-Ends session_id current_run_id (run ∷ rest) =
      both-Ends
        (λ n. if opens_turn session_id current_run_id run then turn_from n runs run else some [])
        (λ n. collect_from n runs session_id current_run_id rest)
        (opened (opens_turn session_id current_run_id run))
        (collect_from-Ends session_id current_run_id rest)
    where
      opened : (b : Bool) → Ends (List Turn) (λ n. if b then turn_from n runs run else some [])
      opened true = turn_from-Ends run
      opened false = (0, λ more. ([], refl))

-- Where the runs can be given heights up to a bound such that each retry stands above the run that it
-- retries, `build` ends: with some number of rounds, and with every larger one, it has a result.
pub build-ends :
    (height : String → ℕ) (top : ℕ) (runs : List RunRecord) (encoded : EncodedLength)
    (session_id current_run_id : String) (limits : HistoryLimits)
    → All (IsAbove height top) runs
    → (rounds : ℕ) × ((more : ℕ)
        → (built : BuiltHistory) × (build
              (rounds + more)
              encoded
              runs
              session_id
              current_run_id
              limits
            ≡ some built))
unfolding build
build-ends height top runs encoded session_id current_run_id limits hs =
    let (rounds, ends) = collect_from-Ends height top runs hs session_id current_run_id runs in
    (
      rounds,
      λ more.
          let (turns, e) = ends more in
          (
            window encoded limits (sort_turns turns),
            ap (map_option (λ ts. window encoded limits (sort_turns ts))) e,
          ),
    )
