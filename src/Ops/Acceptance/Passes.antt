-- ===== src/Ops/Acceptance/Passes.antt =====
-- The acceptance checks on the tables of the medallion.
use payments_data_platform.Base.{
  ℕ, ◌≤◌, ◌≡◌, refl, ◌∙◌, ap, String, Bool, true, false, not, Option, none, some, List, [], ◌∷◌,
  any, count, length, All, ◌==◌, ◌||◌, is_some, ok, if◌then◌else◌, Bool-cases, lt→ltb, inl, inr,
  arith,
}
use payments_data_platform.Medallion.Rules.{
  SilverRow, contains, sql_eq, allowed_payment_methods, allowed_payment_statuses,
}
use payments_data_platform.Medallion.Rules.Merged.{Unique, lookup_row}
use payments_data_platform.Medallion.Validate.{Spark, holds_of}
use payments_data_platform.Medallion.Silver.Quality.{IsClean}
use payments_data_platform.Medallion.Gold.{GroupKey, Measures, same_hour, gold}
use payments_data_platform.Medallion.Gold.Fits.{Fits, gold-Fits, length-gold}
use payments_data_platform.Ops.Trino.{Session, Outcome}
use payments_data_platform.Ops.Acceptance.{
  Check, checks, Tables, repeated_ids, null_dimension, nonpositive_count, rate_out_of_range,
}
use payments_data_platform.Ops.Acceptance.Main.{Failed, passed, evaluate, run_checks, main, ended}
use payments_data_platform.Ops.Acceptance.Failing.{failed, Answered, run_checks-failed}

-- What no element meets is not counted.
count-zero {ℓ} :
    {A : Type ℓ} → (p : A → Bool) (xs : List A) → All (λ x. p x ≡ false) xs → count p xs ≡ 0
count-zero p [] h = refl
count-zero p (x ∷ xs) h = rw h.0 (omega (arith, count-zero p xs h.1))

All-to {ℓ κ μ} :
    {A : Type ℓ}
    → (P : A → Type κ) (Q : A → Type μ) (xs : List A) → ((x : A) → P x → Q x)
    → All P xs
    → All Q xs
All-to P Q [] f h = tt
All-to P Q (x ∷ xs) f h = (f x h.0, All-to P Q xs f h.1)

no_null : (g : GroupKey × Measures) → Fits g → null_dimension g ≡ false
no_null (k, m) h = ground (arith, h.0, h.1, h.2)

no_nonpositive : (g : GroupKey × Measures) → Fits g → nonpositive_count g ≡ false
no_nonpositive (k, m) h = ground (arith, h.3)

no_wide_rate : (g : GroupKey × Measures) → Fits g → rate_out_of_range g ≡ false
no_wide_rate (k, m) h = ground (arith, h.4)

known_only :
    (o : Option String) (p : String → Bool)
    → holds_of o p ≡ true
    → holds_of o (λ s. not (p s)) ≡ false
known_only none p h = refl
known_only (some s) p h = rw h refl

no_null_key :
    (k : Spark) (r : SilverRow)
    → IsClean k r
    → not (is_some r.payment_id) || not (is_some r.merchant_id) ≡ false
no_null_key k r h = ground (arith, IsClean.has_payment_id h, IsClean.has_merchant_id h)

id_apart :
    (a : ℕ) (o : Option ℕ) (r : SilverRow) (rest : Option SilverRow)
    → (if sql_eq o (some a) then some r else rest) ≡ none
    → (same_hour (some a) o ≡ false) × (rest ≡ none)
unfolding sql_eq
id_apart a none r rest h = (refl, h)
id_apart a (some b) r rest h = elim (Bool-cases (b == a)) [
  | inl same ↦ let e : some r ≡ none = rw same at h in absurd (cc e)
  | inr other ↦ (ground (arith, other), rw other at h)
]

not_repeated :
    (id : Option ℕ) (rs : List SilverRow)
    → is_some id ≡ true
    → lookup_row id rs ≡ none
    → any (λ s. same_hour id (SilverRow.payment_id s)) rs ≡ false
unfolding lookup_row
not_repeated none rs h j = absurd (cc h)
not_repeated (some a) [] h j = refl
not_repeated (some a) (r ∷ rs) h j =
    let (apart, rest) = id_apart a r.payment_id r (lookup_row (some a) rs) j in
    rw apart (not_repeated (some a) rs h rest)

repeated-zero :
    (k : Spark) (seen : List (Option ℕ)) (rs : List SilverRow)
    → All (IsClean k) rs
    → Unique rs
    → repeated_ids seen rs ≡ 0
unfolding repeated_ids
repeated-zero k seen [] c u = refl
repeated-zero k seen (r ∷ rs) c u = ground (
  arith,
  not_repeated r.payment_id rs (IsClean.has_payment_id c.0) u.0,
  repeated-zero k (r.payment_id ∷ seen) rs c.1 u.1,
)

failed-none :
    (t : Tables) (cs : List Check)
    → All (λ c. evaluate (Check.name c) (Check.counts c t) ≡ true) cs
    → failed t cs ≡ []
unfolding failed
failed-none t [] h = refl
failed-none t (c ∷ cs) h = rw h.0 (failed-none t cs h.1)

abbrev pub pii_pattern : String
pii_pattern = "\"shopper_id\"\\s*:\\s*[0-9]"

-- The tables of the medallion, gold being computed from silver.
abbrev pub medallion : (ℕ → ℕ) → List (Option String) → List SilverRow → Tables
medallion date_trunc bronze silver = record {
  bronze_values = bronze;
  silver_rows = silver;
  gold_rows = gold date_trunc silver;
}

-- The checks one by one.
checks-hold :
    (k : Spark) (date_trunc : ℕ → ℕ) (regexp_like : String → String → Bool)
    (bronze : List (Option String)) (silver : List SilverRow)
    → All (IsClean k) silver
    → Unique silver
    → 1 ≤ length bronze
    → 1 ≤ length silver
    → All (λ v. holds_of v (λ s. regexp_like s pii_pattern) ≡ false) bronze
    → All
        (λ c. evaluate (Check.name c) (Check.counts c (medallion date_trunc bronze silver)) ≡ true)
        (checks regexp_like)
unfolding checks evaluate
checks-hold k date_trunc regexp_like bronze silver clean unique b s pii =
    let fits = gold-Fits k date_trunc silver clean in
    let rows = gold date_trunc silver in
    let method = λ (r : SilverRow).
      holds_of r.payment_method (λ s. not (contains allowed_payment_methods s)) in
    let status = λ (r : SilverRow).
      holds_of r.payment_status (λ s. not (contains allowed_payment_statuses s)) in
    let key = λ (r : SilverRow). not (is_some r.payment_id) || not (is_some r.merchant_id) in
    (
      lt→ltb 0 (length bronze) b,
      (
        lt→ltb 0 (length silver) s,
        (
          lt→ltb 0 (length rows) (length-gold k date_trunc silver s),
          (
            rw (count-zero null_dimension rows (All-to Fits _ rows no_null fits)) refl,
            (
              rw (count-zero nonpositive_count rows (All-to Fits _ rows no_nonpositive fits)) refl,
              (
                rw (count-zero rate_out_of_range rows (All-to Fits _ rows no_wide_rate fits)) refl,
                (
                  rw
                      (count-zero method silver (
                        All-to (IsClean k) _ silver
                          (λ r c.
                            known_only r.payment_method (contains allowed_payment_methods)
                              (IsClean.method_fits c))
                          clean))
                      refl,
                  (
                    rw
                        (count-zero status silver (
                          All-to (IsClean k) _ silver
                            (λ r c.
                              known_only r.payment_status (contains allowed_payment_statuses)
                                (IsClean.status_fits c))
                            clean))
                        refl,
                    (
                      rw (count-zero key silver (All-to (IsClean k) _ silver (no_null_key k) clean))
                          refl,
                      (
                        rw (repeated-zero k [] silver clean unique) refl,
                        (
                          rw
                              (count-zero (λ v. holds_of v (λ s. regexp_like s pii_pattern)) bronze
                                pii)
                              refl,
                          tt,
                        ),
                      ),
                    ),
                  ),
                ),
              ),
            ),
          ),
        ),
      ),
    )

ended-passed :
    {S : Type 0} (o : Outcome S (List Failed)) → o.0 ≡ some (ok []) → (ended o).0 ≡ some (ok passed)
ended-passed (r, s) e = rw e refl

-- Where an engine gives each check's statement its count, gold is computed from silver, silver is
-- clean and has no id twice, bronze and silver are not empty and no text of bronze matches the PII
-- pattern, `main` passes.
pub main-passes :
    {S : Type 0} (http : Session S (List ℕ)) (fuel : ℕ) (env : List (String × String)) (k : Spark)
    (date_trunc : ℕ → ℕ) (regexp_like : String → String → Bool) (bronze : List (Option String))
    (silver : List SilverRow) (s : S)
    → All (Answered http fuel env (medallion date_trunc bronze silver)) (checks regexp_like)
    → All (IsClean k) silver
    → Unique silver
    → 1 ≤ length bronze
    → 1 ≤ length silver
    → All (λ v. holds_of v (λ s. regexp_like s pii_pattern) ≡ false) bronze
    → (main http fuel env regexp_like s).0 ≡ some (ok passed)
unfolding main
main-passes http fuel env k date_trunc regexp_like bronze silver s answers clean unique b n pii =
    let t = medallion date_trunc bronze silver in
    let e = run_checks-failed http fuel env t (checks regexp_like) s answers in
    let none_fail =
      failed-none t (checks regexp_like)
        (checks-hold k date_trunc regexp_like bronze silver clean unique b n pii) in
    ended-passed (run_checks http fuel env (checks regexp_like) s)
      (e ∙ ap (λ fs. some (ok fs)) none_fail)
