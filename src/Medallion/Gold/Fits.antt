-- ===== src/Medallion/Gold/Fits.antt =====
-- The rows of gold, computed from clean rows of silver.
use payments_data_platform.Base.{
  ℕ, ◌≤◌, ◌≡◌, refl, String, Bool, true, Option, none, some, List, [], ◌∷◌, length, All, is_some,
  Bool-cases, inl, inr, arith,
}
use payments_data_platform.Medallion.Rules.{SilverRow, contains, allowed_payment_methods}
use payments_data_platform.Medallion.Validate.{Spark, holds_of}
use payments_data_platform.Medallion.Silver.Quality.{IsClean}
use payments_data_platform.Medallion.Gold.{
  GroupKey, Measures, same_group, add_to_group, key_of, gold,
}

-- A row of gold as the aggregation makes it: no null in the key, a row at least, and no more
-- authorized rows than rows.
abbrev pub Fits : GroupKey × Measures → Type 0
Fits (k, m) =
    (is_some k.payment_hour ≡ true)
    × (is_some k.country_code ≡ true)
    × (is_some k.payment_method ≡ true)
    × (1 ≤ m.payment_count)
    × (m.authorized_count ≤ m.payment_count)

abbrev KeyFits : GroupKey → Type 0
KeyFits k =
    (is_some k.payment_hour ≡ true)
    × (is_some k.country_code ≡ true)
    × (is_some k.payment_method ≡ true)

add_to_group-Fits :
    (k : GroupKey) (r : SilverRow) (gs : List (GroupKey × Measures))
    → KeyFits k
    → All Fits gs
    → All Fits (add_to_group k r gs)
unfolding add_to_group
add_to_group-Fits k r [] h f = ((h.0, h.1, h.2, ground arith, ground arith), tt)
add_to_group-Fits k r ((j, m) ∷ gs) h ((a, b, c, p, q), fs) = elim (Bool-cases (same_group j k)) [
  | inl own ↦ rw own ((a, b, c, ground arith, ground (arith, q)), fs)
  | inr other ↦ rw other ((a, b, c, p, q), add_to_group-Fits k r gs h fs)
]

module _ (k : Spark) (date_trunc : ℕ → ℕ) where
  hour_there :
      (r : SilverRow) → IsClean k r → is_some (GroupKey.payment_hour (key_of date_trunc r)) ≡ true
  hour_there r h = ground (arith, IsClean.has_created_at h)

  text_there : (o : Option String) (p : String → Bool) → holds_of o p ≡ true → is_some o ≡ true
  text_there none p h = cc h
  text_there (some s) p h = refl

  pub gold-Fits : (rs : List SilverRow) → All (IsClean k) rs → All Fits (gold date_trunc rs)
  unfolding gold
  gold-Fits [] h = tt
  gold-Fits (r ∷ rs) (c, h) =
      add_to_group-Fits (key_of date_trunc r) r (gold date_trunc rs)
        (
          hour_there r c,
          text_there r.country_code (λ s. Spark.rlike k s "^[A-Z]{2}$") (IsClean.country_fits c),
          text_there r.payment_method (contains allowed_payment_methods) (IsClean.method_fits c),
        )
        (gold-Fits rs h)

  length-add_to_group :
      (j : GroupKey) (r : SilverRow) (gs : List (GroupKey × Measures))
      → 1 ≤ length (add_to_group j r gs)
  unfolding add_to_group
  length-add_to_group j r [] = omega arith
  length-add_to_group j r ((i, m) ∷ gs) = elim (Bool-cases (same_group i j)) [
    | inl own ↦ rw own (omega arith)
    | inr other ↦ rw other (omega arith)
  ]

  pub length-gold : (rs : List SilverRow) → 1 ≤ length rs → 1 ≤ length (gold date_trunc rs)
  unfolding gold
  length-gold [] h = absurd (omega (arith, h))
  length-gold (r ∷ rs) h = length-add_to_group (key_of date_trunc r) r (gold date_trunc rs)
