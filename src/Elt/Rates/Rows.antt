-- ===== src/Elt/Rates/Rows.antt =====
-- How many rows the answer gives.
use payments_data_platform.Base.{
  ℕ, suc, ◌+◌, ◌≡◌, refl, String, Bool, false, not, Option, none, some, List, [], ◌∷◌, length,
  length-append, arith, Bool-cases, inl, inr, count,
}
use payments_data_platform.Base.Order.{text_lt}
use payments_data_platform.Elt.Rates.{
  Floats, Day, day_rows, insert_day, sorted_days, rows_of_days, fetch_fx_rates,
}

module _ {F : Type 0} (k : Floats F) where
  -- A rate that is there and not zero.
  abbrev pub has_rate : String × Option F → Bool
  has_rate (currency, none) = false
  has_rate (currency, some f) = not (Floats.is_zero k f)

  -- The rows that a payload is worth: one for the base on each day, and one for each such rate.
  pub expected_rows : List (Day k) → ℕ
  expected_rows [] = 0
  expected_rows ((date, rates) ∷ days) = suc (count has_rate rates + expected_rows days)

  length-day_rows :
      (date : String) (rates : List (String × Option F))
      → length (day_rows k date rates) ≡ count has_rate rates
  unfolding day_rows
  length-day_rows date [] = refl
  length-day_rows date ((currency, none) ∷ rates) = omega (arith, length-day_rows date rates)
  length-day_rows date ((currency, some f) ∷ rates) = ground (arith, length-day_rows date rates)

  length-rows_of_days :
      (base : String) (days : List (Day k)) → length (rows_of_days k base days) ≡ expected_rows days
  unfolding rows_of_days expected_rows
  length-rows_of_days base [] = refl
  length-rows_of_days base ((date, rates) ∷ days) = omega (
    arith,
    length-append (day_rows k date rates) (rows_of_days k base days),
    length-day_rows date rates,
    length-rows_of_days base days,
  )

  expected_rows-insert_day :
      (d : Day k) (days : List (Day k))
      → expected_rows (insert_day k d days) ≡ expected_rows (d ∷ days)
  unfolding insert_day expected_rows
  expected_rows-insert_day d [] = refl
  expected_rows-insert_day d (e ∷ days) = elim (Bool-cases (text_lt e.0 d.0)) [
    | inl after ↦ rw after (omega (arith, expected_rows-insert_day d days))
    | inr before ↦ rw before refl
  ]

  expected_rows-sorted_days :
      (days : List (Day k)) → expected_rows (sorted_days k days) ≡ expected_rows days
  unfolding sorted_days expected_rows
  expected_rows-sorted_days [] = refl
  expected_rows-sorted_days (d ∷ days) =
      omega (arith, expected_rows-insert_day d (sorted_days k days), expected_rows-sorted_days days)

  -- Whatever the order of the payload's days, the extract has one row for the base currency on each
  -- day and one for each rate that is neither null nor zero, and no more.
  pub length-fetch_fx_rates :
      (base : String) (rates_by_date : List (Day k))
      → length (fetch_fx_rates k base rates_by_date) ≡ expected_rows rates_by_date
  unfolding fetch_fx_rates
  length-fetch_fx_rates base rates_by_date = omega (
    arith,
    length-rows_of_days base (sorted_days k rates_by_date),
    expected_rows-sorted_days rates_by_date,
  )
