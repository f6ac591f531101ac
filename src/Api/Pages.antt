-- ===== src/Api/Pages.antt =====
-- Keyset pagination: the page query against the gold table, the page that `hourly_metrics` of
-- api/src/app.py makes of the rows, and a client that follows `next_cursor`.
pub mod Split
pub mod Sorted
pub mod Complete
use payments_data_platform.Base.{
  ℕ, zero, suc, ◌+◌, Bool, true, false, Option, none, some, List, [], ◌∷◌, ◌++◌, length, take, ltb,
  ◌==◌, str_eq, ◌&&◌, ◌||◌, if◌then◌else◌,
}
use payments_data_platform.Base.Order.{Order}
use payments_data_platform.Base.Sort.{sorted}
use payments_data_platform.Base.{String}
use payments_data_platform.Api.Queries.{
  text, Param, MetricsFilter, Cursor, Clause, PageQuery, SortColumn, by_hour, by_country, by_method,
  page_where, hourly_metrics_sql,
}
use payments_data_platform.Api.Queries.Meaning.{GoldRow, eval_where}

-- `page[-1]`, or `none` for an empty page
unfoldable pub last? {ℓ} : {A : Type ℓ} → List A → Option A
last? [] = none
last? (x ∷ []) = some x
last? (x ∷ y ∷ ys) = last? (y ∷ ys)

-- The cursor of a row.
unfoldable pub cursor_of : GoldRow → Cursor
cursor_of r = record {
  payment_hour = r.payment_hour;
  country_code = text r.country_code;
  payment_method = text r.payment_method;
}

-- `next_cursor = ...` where there are more rows and the page is not empty.
abbrev pub next_of : Bool → Option GoldRow → Option Cursor
next_of false r = none
next_of true none = none
next_of true (some r) = some (cursor_of r)

-- The page and the next cursor, from one row more than the limit.
unfoldable pub page_of : ℕ → List GoldRow → List GoldRow × Option Cursor
unfolding last? cursor_of
page_of limit rows =
    let page = take limit rows in (page, next_of (ltb limit (length rows)) (last? page))

abbrev keep : Option Bool → GoldRow → Option (List GoldRow) → Option (List GoldRow)
keep none r rest = none
keep (some b) r none = none
keep (some b) r (some rs) = some (if b then r ∷ rs else rs)

-- The client's next step: it stops without a next cursor, or asks for the rest.
abbrev pub follow :
    List GoldRow → Option Cursor → (Cursor → Option (List GoldRow)) → Option (List GoldRow)
follow page none more = some page
follow page (some c) more = elim (more c) [ none ↦ none | some rest ↦ some (page ++ rest) ]

module _ (o : Order String) where
  -- The rows that meet the condition, or the engine's error.
  pub select_where : List Clause → List Param → List GoldRow → Option (List GoldRow)
  select_where cs ps [] = some []
  select_where cs ps (r ∷ rs) = keep (eval_where o cs ps r) r (select_where cs ps rs)

  abbrev pub column_lt : SortColumn → GoldRow → GoldRow → Bool
  column_lt by_hour a b = ltb a.payment_hour b.payment_hour
  column_lt by_country a b = o.lt a.country_code b.country_code
  column_lt by_method a b = o.lt a.payment_method b.payment_method

  abbrev pub column_eq : SortColumn → GoldRow → GoldRow → Bool
  column_eq by_hour a b = a.payment_hour == b.payment_hour
  column_eq by_country a b = str_eq a.country_code b.country_code
  column_eq by_method a b = str_eq a.payment_method b.payment_method

  -- ORDER BY: the first column decides, then the next.
  abbrev pub sorts_before : List SortColumn → GoldRow → GoldRow → Bool
  sorts_before [] a b = false
  sorts_before (c ∷ cs) a b = column_lt c a b || (column_eq c a b && sorts_before cs a b)

  -- `hourly_rows`: one row more than the limit is asked for. The engine selects, sorts and cuts;
  -- `table` lists the gold rows in any order.
  pub hourly_rows : List GoldRow → MetricsFilter → ℕ → Option Cursor → Option (List GoldRow)
  unfolding select_where sorted
  hourly_rows table f limit after =
      let q = hourly_metrics_sql f (limit + 1) after in
      let w = page_where f after in
      elim (select_where w.0 q.params table) [
        | none ↦ none
        | some rows ↦ some (take q.limit (sorted (sorts_before q.order_by) rows))
      ]

  -- A client that asks for pages until there is no next cursor; `none` if the engine fails or the
  -- fuel runs out.
  pub fetch_all : ℕ → List GoldRow → MetricsFilter → ℕ → Option Cursor → Option (List GoldRow)
  fetch_all zero table f limit after = none
  fetch_all (suc n) table f limit after =
      let more = λ (c : Cursor). fetch_all n table f limit (some c) in
      elim (hourly_rows table f limit after) [
        | none ↦ none
        | some rows ↦ let p = page_of limit rows in follow p.0 p.1 more
      ]
