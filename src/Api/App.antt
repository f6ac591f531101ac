-- ===== src/Api/App.antt =====
-- `GoldRepository` and the endpoints of api/src/app.py, with the counters of api/src/metrics.py.
-- The warehouse behind the connection is a parameter of each call: a request's snapshot query and
-- its data query are two statements, and the table may change between them.
pub mod Keys
use Prim.Native.String.{◌++◌ as ◌^^◌}
use payments_data_platform.Base.{
  ℕ, zero, suc, ◌+◌, String, Bool, true, false, Option, none, some, List, [], ◌∷◌, ◌++◌, length,
  leb, ltb, is_some, Result, ok, err, if◌then◌else◌,
}
use payments_data_platform.Base.Decimal.{decimal}
use payments_data_platform.Api.Cache
use payments_data_platform.Api.Cache.{SnapshotCache}
use payments_data_platform.Api.Queries.{
  Param, MetricsFilter, Cursor, PageQuery, join, hourly_metrics_sql, summary_sql,
  current_snapshot_sql,
}
use payments_data_platform.Api.Queries.Meaning.{GoldRow}
use payments_data_platform.Api.Pages.{page_of}

-- bucket_count, payment_count, gross_volume in hundredths, and the rate as a pair of counts
pub record SummaryRow : Type 0 where
  pub bucket_count : ℕ
  pub payment_count : ℕ
  pub gross_volume : ℕ
  pub auth_rate : Option (ℕ × ℕ)

-- What the cache holds: the rows of a page, or a summary.
pub data Payload : Type 0 where
  rows : List GoldRow → Payload
  summary : SummaryRow → Payload

-- What Trino answers to each statement; `none` stands for an exception of the driver.
pub record Warehouse : Type 0 where
  pub snapshots : String × List Param → Option (List (Option String))
  pub hourly : PageQuery → Option (List GoldRow)
  pub totals : String × List Param → Option (List SummaryRow)

pub data Endpoint : Type 0 where
  hourly_endpoint summary_endpoint : Endpoint

-- The repository's cache and the Prometheus series.
pub record Service : Type 0 where
  pub cache : SnapshotCache Payload
  pub queries_ok : ℕ
  pub queries_error : ℕ
  pub cache_hits : ℕ
  pub cache_misses : ℕ
  pub cache_entries : ℕ
  pub requests : List (Endpoint × Bool)

pub data HttpError : Type 0 where
  bad_request : String → HttpError
  server_error : HttpError

-- A call that changes the service and returns or raises.
abbrev pub Action : Type 0 → Type 0
Action A = Service → Result HttpError A × Service

module _ {A B : Type 0} where
  abbrev pub continue : Result HttpError A → (A → Action B) → Action B
  continue (ok a) f s = f a s
  continue (err e) f s = (err e, s)

  abbrev pub bind : Action A → (A → Action B) → Action B
  bind m f s = let r = m s in continue r.0 f r.1

infixl 5 ◌>>=◌
abbrev pub ◌>>=◌ : {A B : Type 0} → Action A → (A → Action B) → Action B
m >>= f = bind m f

abbrev pub pure : {A : Type 0} → A → Action A
pure a s = (ok a, s)

abbrev pub raise : {A : Type 0} → HttpError → Action A
raise e s = (err e, s)

-- `_query`: the outcome is counted, and an exception is raised again.
unfoldable pub query : {A : Type 0} → Option A → Action A
query none s = (err server_error, record s { queries_error = s.queries_error + 1 })
query (some a) s = (ok a, record s { queries_ok = s.queries_ok + 1 })

-- `str(rows[0][0]) if rows and rows[0][0] is not None else None`
unfoldable pub first_id : List (Option String) → Option String
first_id [] = none
first_id (id ∷ ids) = id

unfoldable pub current_snapshot : Warehouse → Action (Option String)
unfolding query first_id
current_snapshot w = do ids ← query (w.snapshots current_snapshot_sql); pure (first_id ids)

-- `metrics.record_cache`
unfoldable pub record_cache : Bool → Service → Service
record_cache true s = record s { cache_hits = s.cache_hits + 1 }
record_cache false s = record s { cache_misses = s.cache_misses + 1 }

-- The rest of `cached` after the lookup.
unfoldable pub build_unless :
    String → Option String → Action Payload → Option Payload → Action Payload
build_unless key id build (some v) = pure v
build_unless key id build none = do
  v ← build
  λ s.
      let c = Cache.put id key v s.cache in
      (ok v, record s { cache = c; cache_entries = length c.entries })

unfoldable pub cached : String → Option String → Action Payload → Action Payload
unfolding record_cache build_unless
cached key id build s =
    let (hit, c) = Cache.get id key s.cache in
    build_unless key id build hit (record_cache (is_some hit) (record s { cache = c }))

unfoldable pub hourly_rows : Warehouse → MetricsFilter → ℕ → Option Cursor → Action Payload
unfolding query
hourly_rows w f limit after = do
  rs ← query (w.hourly (hourly_metrics_sql f (limit + 1) after))
  pure (rows rs)

abbrev zero_row : SummaryRow
zero_row = record { bucket_count = 0; payment_count = 0; gross_volume = 0; auth_rate = none }

abbrev pub first_row : List SummaryRow → SummaryRow
first_row [] = zero_row
first_row (r ∷ rs) = r

pub summary_row : Warehouse → MetricsFilter → Action Payload
unfolding query
summary_row w f = do rs ← query (w.totals (summary_sql f)); pure (summary (first_row rs))

abbrev pub is_ok : {A : Type 0} → Result HttpError A → Bool
is_ok (ok a) = true
is_ok (err e) = false

-- `metrics.observe`: the request is counted as an error if the body raises, a 400 included.
unfoldable pub observe : {A : Type 0} → Endpoint → Action A → Action A
observe endpoint body s =
    let (r, t) = body s in (r, record t { requests = t.requests ++ (endpoint, is_ok r) ∷ [] })

-- `start is not None and end is not None and end <= start`
unfoldable pub empty_window : Option ℕ → Option ℕ → Bool
empty_window (some start) (some end) = leb end start
empty_window none end = false
empty_window (some start) none = false

abbrev text_or : Option String → String
text_or none = ""
text_or (some s) = s

abbrev time_or : (ℕ → String) → Option ℕ → String
time_or iso none = ""
time_or iso (some t) = iso t

-- `str(limit or "")`
abbrev limit_or : Option ℕ → String
limit_or none = ""
limit_or (some zero) = ""
limit_or (some (suc n)) = decimal (suc n)

-- `datetime.isoformat` is a parameter.
pub cache_key : (ℕ → String) → String → MetricsFilter → Option ℕ → Option String → String
unfolding decimal join
cache_key iso prefix f limit cursor = join "|" (
    prefix
    ∷ time_or iso f.start
    ∷ time_or iso f.end
    ∷ text_or f.country_code
    ∷ text_or f.payment_method
    ∷ limit_or limit
    ∷ text_or cursor
    ∷ [])
