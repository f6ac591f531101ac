-- ===== src/Ops/Acceptance/Failing.antt =====
-- Which checks `main` of scripts/acceptance_checks.py reports, on an engine that counts.
use payments_data_platform.Base.{
  ℕ, ◌≡◌, refl, String, some, List, [], ◌∷◌, All, ok, if◌then◌else◌, Bool-cases, inl, inr,
}
use payments_data_platform.Ops.Trino.{Session, Outcome, run_statement}
use payments_data_platform.Ops.Acceptance.{Check, Tables}
use payments_data_platform.Ops.Acceptance.Main.{Failed, evaluate, run_checks, with_failure, judged}

-- The checks that fail on some tables.
unfoldable pub failed : Tables → List Check → List Failed
failed t [] = []
failed t (c ∷ cs) =
    if evaluate c.name (c.counts t)
    then failed t cs
    else (c.name, c.message, c.counts t) ∷ failed t cs

module _ {S : Type 0} (http : Session S (List ℕ)) (fuel : ℕ) (env : List (String × String))
    (t : Tables) where
  -- An engine on these tables gives each statement its count, in any state of the session.
  abbrev pub Answered : Check → Type 0
  Answered c =
      (s : S) → (run_statement http fuel c.sql env s).0 ≡ some (ok ((c.counts t ∷ []) ∷ []))

  add_failed :
      (f : Failed) (fs : List Failed) (o : Outcome S (List Failed))
      → o.0 ≡ some (ok fs)
      → (with_failure f o).0 ≡ some (ok (f ∷ fs))
  add_failed f fs (o, s) e = rw e refl

  step :
      (c : Check) (o : Outcome S (List (List ℕ))) (rest : S → Outcome S (List Failed))
      (fs : List Failed)
      → o.0 ≡ some (ok ((c.counts t ∷ []) ∷ []))
      → ((s : S) → (rest s).0 ≡ some (ok fs))
      → (judged c o rest).0
        ≡ some
            (ok (if evaluate c.name (c.counts t) then fs else (c.name, c.message, c.counts t) ∷ fs))
  step c (r, s) rest fs e h = elim (Bool-cases (evaluate c.name (c.counts t))) [
    | inl holds ↦ rw e (rw holds (h s))
    | inr fails ↦ rw e (rw fails (add_failed (c.name, c.message, c.counts t) fs (rest s) (h s)))
  ]

  pub run_checks-failed :
      (cs : List Check) (s : S)
      → All Answered cs
      → (run_checks http fuel env cs s).0 ≡ some (ok (failed t cs))
  unfolding run_checks failed
  run_checks-failed [] s h = refl
  run_checks-failed (c ∷ cs) s h =
      step c (run_statement http fuel c.sql env s) (run_checks http fuel env cs) (failed t cs)
        (h.0 s) (λ s'. run_checks-failed cs s' h.1)
