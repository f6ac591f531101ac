-- ===== src/Elt/Rates.antt =====
-- FX rates (snowflake_etl/src/extract_fx_rates.py): the retrying request and the rows that are made
-- of the answer. The HTTP client and floating-point numbers are parameters; a delay is counted in
-- multiples of `base_delay`.
pub mod Retry
pub mod Rows
use payments_data_platform.Base.{
  ℕ, zero, suc, ◌+◌, ◌-◌, ◌^◌, String, Bool, true, false, Option, none, some, List, [], ◌∷◌, ◌++◌,
  leb, ◌==◌, ◌||◌, Result, ok, err, if◌then◌else◌,
}
use payments_data_platform.Base.Order.{text_lt}

-- What `requests.get` gives: a status and the body's JSON, or an exception; `none` for a body that is
-- no JSON.
pub data Reply (P : Type 0) : Type 0 where
  response : ℕ → Option P → Reply P
  request_exception : Reply P

-- What the body of the `try` returns. `raise_for_status` raises from 400 on, and the handler catches
-- its exception as it does the others.
abbrev pub accepted : {P : Type 0} → Reply P → Option P
accepted request_exception = none
accepted (response status body) =
    if status == 429 || leb 500 status then none else if leb 400 status then none else body

-- The outcome, the delays slept, and how many requests were made.
pub record Attempted (P : Type 0) : Type 0 where
  pub outcome : Result String P
  pub slept : List ℕ
  pub requests : ℕ

abbrev pub failed : {P : Type 0} → ℕ → Attempted P
failed n = record { outcome = err "FX API failed"; slept = []; requests = n }

abbrev pub after_delay : {P : Type 0} → ℕ → Attempted P → Attempted P
after_delay d a = record a { slept = d ∷ a.slept; requests = suc a.requests }

abbrev pub attempt_result : {P : Type 0} → Option P → ℕ → ℕ → Attempted P → Attempted P
attempt_result (some p) left d rest = record { outcome = ok p; slept = []; requests = 1 }
attempt_result none zero d rest = failed 1
attempt_result none (suc left) d rest = after_delay d rest

module _ {P : Type 0} where
  -- `_get_json_with_retry` from an attempt on, with so many attempts left.
  pub attempts : (ℕ → Reply P) → ℕ → ℕ → Attempted P
  attempts replies attempt zero = failed 0
  attempts replies attempt (suc left) =
      attempt_result (accepted (replies attempt)) left (2 ^ (attempt - 1))
        (attempts replies (suc attempt) left)

  pub get_json_with_retry : (ℕ → Reply P) → ℕ → Attempted P
  unfolding attempts
  get_json_with_retry replies max_attempts = attempts replies 1 max_attempts

pub record FxRate (F : Type 0) : Type 0 where
  pub rate_date : String
  pub currency : String
  pub rate_to_usd : F

-- `round(1.0 / rate, 8)`, the rate of the base, and whether a rate is zero.
pub record Floats (F : Type 0) : Type 0 where
  pub one : F
  pub inverse : F → F
  pub is_zero : F → Bool

module _ {F : Type 0} (k : Floats F) where
  open k use {one, inverse, is_zero}

  -- `if not currency_per_usd: continue`
  abbrev pub rate_row : String → String → Option F → List (FxRate F)
  rate_row date currency none = []
  rate_row date currency (some f) =
      if is_zero f
      then []
      else record { rate_date = date; currency = currency; rate_to_usd = inverse f } ∷ []

  pub day_rows : String → List (String × Option F) → List (FxRate F)
  day_rows date [] = []
  day_rows date ((currency, f) ∷ rates) = rate_row date currency f ++ day_rows date rates

  abbrev base_row : String → String → FxRate F
  base_row base date = record { rate_date = date; currency = base; rate_to_usd = one }

  -- `sorted(rates_by_date)`
  abbrev pub Day : Type 0
  Day = String × List (String × Option F)

  pub insert_day : Day → List Day → List Day
  insert_day d [] = d ∷ []
  insert_day d (e ∷ es) = if text_lt e.0 d.0 then e ∷ insert_day d es else d ∷ e ∷ es

  pub sorted_days : List Day → List Day
  unfolding insert_day
  sorted_days [] = []
  sorted_days (d ∷ ds) = insert_day d (sorted_days ds)

  pub rows_of_days : String → List Day → List (FxRate F)
  unfolding day_rows
  rows_of_days base [] = []
  rows_of_days base ((date, rates) ∷ days) =
      base_row base date ∷ (day_rows date rates ++ rows_of_days base days)

  -- `fetch_fx_rates` of the payload's `rates`.
  pub fetch_fx_rates : String → List Day → List (FxRate F)
  unfolding sorted_days rows_of_days
  fetch_fx_rates base rates_by_date = rows_of_days base (sorted_days rates_by_date)
