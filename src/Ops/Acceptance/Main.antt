-- ===== src/Ops/Acceptance/Main.antt =====
-- `evaluate` and `main` of scripts/acceptance_checks.py.
use payments_data_platform.Base.{
  ℕ, String, Bool, none, some, List, [], ◌∷◌, length, ltb, ◌==◌, ok, err, if◌then◌else◌,
}
use payments_data_platform.Ops.Text.{starts_with}
use payments_data_platform.Ops.Trino.{Session, Outcome, run_statement}
use payments_data_platform.Ops.Acceptance.{Check, checks, scalar}

unfoldable pub evaluate : String → ℕ → Bool
unfolding starts_with
evaluate name n = if starts_with "has_" name then ltb 0 n else n == 0

-- A failed check: its name, its message and the count.
abbrev pub Failed : Type 0
Failed = String × String × ℕ

-- The end of `main`: it prints, or raises SystemExit with the number of failures.
pub data Verdict : Type 0 where
  passed : Verdict
  exited : ℕ → Verdict

abbrev pub verdict : List Failed → Verdict
verdict [] = passed
verdict (f ∷ fs) = exited (length (f ∷ fs))

module _ {S : Type 0} where
  abbrev pub with_failure : Failed → Outcome S (List Failed) → Outcome S (List Failed)
  with_failure f (some (ok fs), s) = (some (ok (f ∷ fs)), s)
  with_failure f (some (err e), s) = (some (err e), s)
  with_failure f (none, s) = (none, s)

  abbrev pub judged :
      Check → Outcome S (List (List ℕ)) → (S → Outcome S (List Failed)) → Outcome S (List Failed)
  judged c (some (ok rows), s) rest =
      if evaluate c.name (scalar rows)
      then rest s
      else with_failure (c.name, c.message, scalar rows) (rest s)
  judged c (some (err e), s) rest = (some (err e), s)
  judged c (none, s) rest = (none, s)

  abbrev pub ended : Outcome S (List Failed) → Outcome S Verdict
  ended (some (ok fs), s) = (some (ok (verdict fs)), s)
  ended (some (err e), s) = (some (err e), s)
  ended (none, s) = (none, s)

  module _ (http : Session S (List ℕ)) (fuel : ℕ) (env : List (String × String)) where
    -- The loop over the checks.
    unfoldable pub run_checks : List Check → S → Outcome S (List Failed)
    unfolding evaluate
    run_checks [] s = (some (ok []), s)
    run_checks (c ∷ cs) s = judged c (run_statement http fuel c.sql env s) (λ s'. run_checks cs s')

    unfoldable pub main : (String → String → Bool) → S → Outcome S Verdict
    unfolding run_checks
    main regexp_like s = ended (run_checks (checks regexp_like) s)
