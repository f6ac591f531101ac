-- ===== src/Api/Queries.antt =====
-- The SQL builders of api/src/queries.py. Times are numbers of microseconds. A parameter that came
-- out of a client's cursor is whatever JSON scalar it held, as in the source.
pub mod Meaning
use Prim.Native.String.{◌++◌ as ◌^^◌}
use payments_data_platform.Base.{
  ℕ, String, Option, none, some, List, [], ◌∷◌, ◌++◌, map, if◌then◌else◌,
}

-- A value of a JSON document: null, a natural number, a text, or any other by its text (a boolean, a
-- float, an array, an object).
pub data Scalar : Type 0 where
  null : Scalar
  num : ℕ → Scalar
  text : String → Scalar
  other_json : String → Scalar

-- A value that is bound to a `?` of a statement.
pub data Param : Type 0 where
  time : ℕ → Param
  value : Scalar → Param

pub record MetricsFilter : Type 0 where
  pub start : Option ℕ
  pub end : Option ℕ
  pub country_code : Option String
  pub payment_method : Option String

pub record Cursor : Type 0 where
  pub payment_hour : ℕ
  pub country_code : Scalar
  pub payment_method : Scalar

-- The predicates that the builders append to `clauses`.
pub data Clause : Type 0 where
  hour_from hour_before country_is method_is after_cursor : Clause

-- The text of each.
pub clause_text : Clause → String
clause_text hour_from = "payment_hour >= ?"
clause_text hour_before = "payment_hour < ?"
clause_text country_is = "country_code = ?"
clause_text method_is = "payment_method = ?"
clause_text after_cursor =
    "(payment_hour > ? OR (payment_hour = ? AND country_code > ?) OR (payment_hour = ? AND country_code = ? AND payment_method > ?))"

-- `clauses` and `params`, which the builders append to together.
abbrev pub Where : Type 0
Where = List Clause × List Param

-- `if x is not None: clauses.append(c); params.append(x)`
abbrev pub append_when {ℓ} : {A : Type ℓ} → Option A → Clause → (A → Param) → Where → Where
append_when none c p w = w
append_when (some a) c p (cs, ps) = (cs ++ c ∷ [], ps ++ p a ∷ [])

pub filter_predicates : MetricsFilter → Where
filter_predicates f =
    append_when f.payment_method method_is (λ m. value (text m))
      (append_when f.country_code country_is (λ c. value (text c))
        (append_when f.end hour_before time (append_when f.start hour_from time ([], []))))

pub keyset_predicate : Cursor → Clause × List Param
keyset_predicate after = (
  after_cursor,
  time after.payment_hour
      ∷ time after.payment_hour
      ∷ value after.country_code
      ∷ time after.payment_hour
      ∷ value after.country_code
      ∷ value after.payment_method
      ∷ [],
)

-- `' AND '.join(clauses)`
unfoldable pub join : String → List String → String
join sep [] = ""
join sep (s ∷ []) = s
join sep (s ∷ t ∷ rest) = s ^^ sep ^^ join sep (t ∷ rest)

-- The condition of the page query; `extend` keeps the keyset parameters last.
pub page_where : MetricsFilter → Option Cursor → Where
unfolding filter_predicates keyset_predicate
page_where f none = filter_predicates f
page_where f (some after) =
    let (cs, ps) = filter_predicates f in
    let (c, qs) = keyset_predicate after in (cs ++ c ∷ [], ps ++ qs)

-- `WHERE a AND b`, or nothing where there is no condition.
pub where_text : String → String → List Clause → String
unfolding clause_text join
where_text before behind [] = ""
where_text before behind (c ∷ cs) =
    before ^^ "WHERE " ^^ join " AND " (map clause_text (c ∷ cs)) ^^ behind

-- The columns of ORDER BY, and their text.
pub data SortColumn : Type 0 where
  by_hour by_country by_method : SortColumn

pub column_text : SortColumn → String
column_text by_hour = "payment_hour"
column_text by_country = "country_code"
column_text by_method = "payment_method"

abbrev order_text : List SortColumn → String
order_text [] = ""
order_text (c ∷ cs) = "ORDER BY " ^^ join ", " (map column_text (c ∷ cs)) ^^ "\n"

-- The page query. `order_by` are the columns that its text sorts by, `limit` is the number that the source prints behind the text.
pub record PageQuery : Type 0 where
  pub sql : String
  pub params : List Param
  pub order_by : List SortColumn
  pub limit : ℕ

unfoldable pub hourly_metrics_sql : MetricsFilter → ℕ → Option Cursor → PageQuery
unfolding page_where where_text join column_text
hourly_metrics_sql f limit after =
    let (cs, ps) = page_where f after in
    let order_by = by_hour ∷ by_country ∷ by_method ∷ [] in
    record {
      sql =
          "SELECT payment_hour, country_code, payment_method, payment_count, gross_volume, auth_rate\nFROM iceberg.analytics.payment_metrics_gold\n"
          ^^ where_text "" "\n" cs
          ^^ order_text order_by
          ^^ "LIMIT ";
      params = ps;
      order_by = order_by;
      limit = limit;
    }

pub summary_sql : MetricsFilter → String × List Param
unfolding filter_predicates where_text
summary_sql f =
    let (cs, ps) = filter_predicates f in
    (
      "SELECT\n    count(*) AS bucket_count,\n    coalesce(sum(payment_count), 0) AS payment_count,\n    coalesce(sum(gross_volume), CAST(0 AS DECIMAL(18,2))) AS gross_volume,\n    sum(auth_rate * payment_count) / NULLIF(sum(payment_count), 0) AS auth_rate\nFROM iceberg.analytics.payment_metrics_gold"
          ^^ where_text "\n" "" cs,
      ps,
    )

pub current_snapshot_sql : String × List Param
current_snapshot_sql = (
  "SELECT snapshot_id\nFROM iceberg.analytics.\"payment_metrics_gold$snapshots\"\nORDER BY committed_at DESC\nLIMIT 1",
  [],
)
