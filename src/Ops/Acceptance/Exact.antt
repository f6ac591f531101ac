-- ===== src/Ops/Acceptance/Exact.antt =====
-- What the acceptance checks ask for where gold is computed from clean silver rows.
use payments_data_platform.Base.{
  ℕ, ◌≤◌, ◌≡◌, refl, ◌↔◌, String, Bool, true, false, Option, some, List, [], ◌∷◌, count, length,
  All, ltb, ◌==◌, Result, ok, Bool-cases, inl, inr, arith,
}
use payments_data_platform.Medallion.Rules.{SilverRow}
use payments_data_platform.Medallion.Rules.Merged.{Unique}
use payments_data_platform.Medallion.Validate.{Spark, holds_of}
use payments_data_platform.Medallion.Silver.Quality.{IsClean}
use payments_data_platform.Ops.Trino.{Session, Outcome, Failure}
use payments_data_platform.Ops.Acceptance.{Check, checks, Tables}
use payments_data_platform.Ops.Acceptance.Main.{
  Failed, Verdict, passed, verdict, evaluate, run_checks, main, ended,
}
use payments_data_platform.Ops.Acceptance.Failing.{failed, Answered, run_checks-failed}
use payments_data_platform.Ops.Acceptance.Passes.{medallion, pii_pattern, main-passes}

-- Bronze and silver have rows, and no text of bronze matches the PII pattern.
abbrev pub Loaded : (String → String → Bool) → List (Option String) → List SilverRow → Type 0
Loaded regexp_like bronze silver =
    (1 ≤ length bronze)
    × (1 ≤ length silver)
    × All (λ v. holds_of v (λ s. regexp_like s pii_pattern) ≡ false) bronze

none-failed :
    (t : Tables) (cs : List Check)
    → failed t cs ≡ []
    → All (λ c. evaluate (Check.name c) (Check.counts c t) ≡ true) cs
unfolding failed
none-failed t [] h = tt
none-failed t (c ∷ cs) h = elim (Bool-cases (evaluate (Check.name c) (Check.counts c t))) [
  | inl holds ↦ (holds, none-failed t cs (rw holds at h))
  | inr fails ↦ absurd (cc (rw fails at h))
]

zero-count :
    (p : Option String → Bool) (xs : List (Option String))
    → count p xs ≡ 0
    → All (λ x. p x ≡ false) xs
zero-count p [] h = tt
zero-count p (x ∷ xs) h = elim (Bool-cases (p x)) [
  | inl bad ↦ absurd (omega (arith, rw bad at h))
  | inr good ↦ (good, zero-count p xs (omega (arith, rw good at h)))
]

positive : (n : ℕ) → ltb 0 n ≡ true → 1 ≤ n
positive n h = ground arith

is_zero : (n : ℕ) → (n == 0) ≡ true → n ≡ 0
is_zero n h = ground arith

checks-Loaded :
    (date_trunc : ℕ → ℕ) (regexp_like : String → String → Bool) (bronze : List (Option String))
    (silver : List SilverRow)
    → All
        (λ c. evaluate (Check.name c) (Check.counts c (medallion date_trunc bronze silver)) ≡ true)
        (checks regexp_like)
    → Loaded regexp_like bronze silver
unfolding checks evaluate
checks-Loaded date_trunc regexp_like bronze silver h =
    let matches = λ (v : Option String). holds_of v (λ s. regexp_like s pii_pattern) in
    (
      positive (length bronze) h.0,
      positive (length silver) h.1.0,
      zero-count matches bronze (is_zero (count matches bronze) h.1.1.1.1.1.1.1.1.1.1.0),
    )

no_failure : (fs : List Failed) → verdict fs ≡ passed → fs ≡ []
no_failure [] h = refl
no_failure (f ∷ fs) h = absurd (cc h)

unwrap :
    (fs : List Failed)
    → ◌≡◌ {A = Option (Result Failure Verdict)} (some (ok (verdict fs))) (some (ok passed))
    → verdict fs ≡ passed
unwrap fs h = cc

passed-ended :
    {S : Type 0} (o : Outcome S (List Failed)) (fs : List Failed)
    → o.0 ≡ some (ok fs)
    → (ended o).0 ≡ some (ok passed)
    → fs ≡ []
passed-ended (r, s) fs e h = no_failure fs (unwrap fs (rw e at h))

-- Where an engine gives each check's statement its count, gold is computed from silver, and silver
-- is clean and has no id twice, `main` passes exactly where bronze and silver are not empty and no
-- text of bronze matches the PII pattern: the eight other checks hold of such tables.
pub main-Loaded :
    {S : Type 0} (http : Session S (List ℕ)) (fuel : ℕ) (env : List (String × String)) (k : Spark)
    (date_trunc : ℕ → ℕ) (regexp_like : String → String → Bool) (bronze : List (Option String))
    (silver : List SilverRow) (s : S)
    → All (Answered http fuel env (medallion date_trunc bronze silver)) (checks regexp_like)
    → All (IsClean k) silver
    → Unique silver
    → ((main http fuel env regexp_like s).0 ≡ some (ok passed)) ↔ Loaded regexp_like bronze silver
unfolding main
main-Loaded http fuel env k date_trunc regexp_like bronze silver s answers clean unique =
    let t = medallion date_trunc bronze silver in
    let e = run_checks-failed http fuel env t (checks regexp_like) s answers in
    (
      λ h. checks-Loaded date_trunc regexp_like bronze silver (
          none-failed t (checks regexp_like) (
            passed-ended (run_checks http fuel env (checks regexp_like) s)
              (failed t (checks regexp_like)) e h)),
      λ h.
          let (some_bronze, some_silver, no_pii) = h in
          main-passes http fuel env k date_trunc regexp_like bronze silver s answers clean unique
            some_bronze some_silver no_pii,
    )
