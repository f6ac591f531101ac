-- ===== src/Medallion/Gold.antt =====
-- The gold job (config/spark/jobs/gold_metrics.py): the INSERT OVERWRITE that groups silver by hour,
-- country and method. `date_trunc` is a parameter; the casts to DECIMAL(18,2) are taken as exact.
pub mod Groups
pub mod Fits
use payments_data_platform.Base.{
  ℕ, zero, suc, ◌+◌, String, Bool, true, false, Option, none, some, List, [], ◌∷◌, opt_eq, str_eq,
  ◌&&◌, ◌==◌, if◌then◌else◌,
}
use payments_data_platform.Base.Int.{ℤ, pos, ◌+ℤ◌}
use payments_data_platform.Medallion.Rules.{SilverRow}

-- GROUP BY 1, 2, 3: nulls of a column are one group.
pub record GroupKey : Type 0 where
  pub payment_hour : Option ℕ
  pub country_code : Option String
  pub payment_method : Option String

-- The aggregates of a group. A sum skips nulls, and is null if there is nothing to add; the rate is
-- the number of authorized payments over the count.
pub record Measures : Type 0 where
  pub payment_count : ℕ
  pub gross_volume : Option ℤ
  pub authorized_volume : Option ℤ
  pub authorized_count : ℕ

abbrev pub same_hour : Option ℕ → Option ℕ → Bool
same_hour none none = true
same_hour none (some b) = false
same_hour (some a) none = false
same_hour (some a) (some b) = a == b

unfoldable pub same_group : GroupKey → GroupKey → Bool
same_group a b =
    same_hour a.payment_hour b.payment_hour
    && opt_eq a.country_code b.country_code
    && opt_eq a.payment_method b.payment_method

abbrev pub add_null : Option ℤ → Option ℤ → Option ℤ
add_null none b = b
add_null (some a) none = some a
add_null (some a) (some b) = some (a +ℤ b)

abbrev pub is_authorized : SilverRow → Bool
is_authorized r = opt_eq r.payment_status (some "authorized")

-- `count(*)`, `sum(amount)`, `sum(CASE WHEN payment_status = 'authorized' THEN amount ELSE 0 END)`
-- and the sum under `avg(CASE WHEN ... THEN 1.0 ELSE 0.0 END)`, with one row more.
abbrev pub add_row : SilverRow → Measures → Measures
add_row r m = record {
  payment_count = suc m.payment_count;
  gross_volume = add_null r.amount m.gross_volume;
  authorized_volume =
      add_null (if is_authorized r then r.amount else some (pos 0)) m.authorized_volume;
  authorized_count = (if is_authorized r then 1 else 0) + m.authorized_count;
}

abbrev pub no_rows : Measures
no_rows = record {
  payment_count = 0;
  gross_volume = none;
  authorized_volume = none;
  authorized_count = 0;
}

-- One row goes to its group, or begins one.
pub add_to_group : GroupKey → SilverRow → List (GroupKey × Measures) → List (GroupKey × Measures)
unfolding same_group
add_to_group k r [] = (k, add_row r no_rows) ∷ []
add_to_group k r ((j, m) ∷ gs) =
    if same_group j k then (j, add_row r m) ∷ gs else (j, m) ∷ add_to_group k r gs

module _ (date_trunc : ℕ → ℕ) where
  abbrev pub hour_of : Option ℕ → Option ℕ
  hour_of none = none
  hour_of (some t) = some (date_trunc t)

  abbrev pub key_of : SilverRow → GroupKey
  key_of r = record {
    payment_hour = hour_of r.created_at;
    country_code = r.country_code;
    payment_method = r.payment_method;
  }

  -- The whole table, computed again from silver.
  pub gold : List SilverRow → List (GroupKey × Measures)
  unfolding add_to_group
  gold [] = []
  gold (r ∷ rs) = add_to_group (key_of r) r (gold rs)
