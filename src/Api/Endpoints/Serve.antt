-- ===== src/Api/Endpoints/Serve.antt =====
-- What a request to api/src/app.py is served: its page, its snapshot, its statements.
use payments_data_platform.Base.{
  ℕ, ◌+◌, ◌≤◌, String, ◌≡◌, refl, Bool, true, false, Option, none, some, List, [], ◌∷◌, ◌++◌,
  length, length-take, Result, ok, err, arith, is_some, inl, inr, Bool-cases, Option-cases,
}
use payments_data_platform.Api.Cache
use payments_data_platform.Api.Cache.{SnapshotCache}
use payments_data_platform.Api.Cache.Fresh.{IsValid, get-Serves, put-IsValid}
use payments_data_platform.Api.Queries.{MetricsFilter, Cursor, hourly_metrics_sql}
use payments_data_platform.Api.Queries.Meaning.{GoldRow}
use payments_data_platform.Api.Pages.{page_of}
use payments_data_platform.Api.Wire.{Codec}
use payments_data_platform.Api.App.{
  Payload, rows, summary, Warehouse, Service, Action, HttpError, bad_request, hourly_endpoint,
  current_snapshot, cached, build_unless, record_cache, hourly_rows, observe, empty_window, ◌>>=◌,
  continue, pure,
}
use payments_data_platform.Api.Endpoints.{
  HourlyMetricsPage, respond, hourly_metrics, hourly_body, hourly_checked, hourly_payload,
  parse_after, rows_of,
}

empty_window_lem :
    (a b : ℕ) (start end : Option ℕ)
    → start ≡ some a
    → end ≡ some b
    → b ≤ a
    → empty_window start end ≡ true
unfolding empty_window
empty_window_lem a b start end p q order = rw (p, q) (ground (arith, order))

-- A window that ends where it starts, or before, is refused before the cursor is read and before
-- any statement is issued: the cache and the query counters stay, and the request is counted as
-- an error.
pub hourly_metrics_window :
    (c : Codec) (show : Codec.Token c → String) (w w' : Warehouse) (f : MetricsFilter) (limit : ℕ)
    (token : Option (Codec.Token c)) (s : Service) (a b : ℕ)
    → f.start ≡ some a
    → f.end ≡ some b
    → b ≤ a
    → hourly_metrics c show w w' f limit token s ≡ (
      err (bad_request "end must be after start"),
      record s { requests = s.requests ++ (hourly_endpoint, false) ∷ [] },
    )
unfolding hourly_metrics observe
hourly_metrics_window c show w w' f limit token s a b starts ends order =
    rw (empty_window_lem a b f.start f.end starts ends order) refl

length-page_of : (limit : ℕ) (rs : List GoldRow) → length (page_of limit rs).0 ≤ limit
unfolding page_of
length-page_of limit rs = omega (arith, length-take limit rs)

module _ {κ} (Good : Option String → String → Payload → Type κ) where
  record_cache_keeps : (b : Bool) (s : Service) → (record_cache b s).cache ≡ s.cache
  unfolding record_cache
  record_cache_keeps true s = refl
  record_cache_keeps false s = refl

  -- What a call leaves behind, and what it returned if it did not raise.
  abbrev pub LeavesGood : Option String → String → Result HttpError Payload × Service → Type κ
  LeavesGood id key (ok p, t) = IsValid Good t.cache × Good id key p
  LeavesGood id key (err e, t) = IsValid Good t.cache

  build_Good :
      (key : String) (id : Option String) (w : Warehouse) (f : MetricsFilter) (limit : ℕ)
      (after : Option Cursor) (hit : Option Payload) (s : Service)
      → ((v : Payload) → hit ≡ some v → Good id key v)
      → ((rs : List GoldRow)
          → w.hourly (hourly_metrics_sql f (limit + 1) after) ≡ some rs
          → Good id key (rows rs))
      → IsValid Good s.cache
      → LeavesGood id key (build_unless key id (hourly_rows w f limit after) hit s)
  unfolding build_unless hourly_rows
  build_Good key id w f limit after (some v) s g answer h = (h, g v refl)
  build_Good key id w f limit after none s g answer h =
      elim (Option-cases (w.hourly (hourly_metrics_sql f (limit + 1) after))) [
        | inl failed ↦ rw failed h
        | inr (rs, found) ↦
            rw found
              (put-IsValid Good id key (rows rs) s.cache (answer rs found) h, answer rs found)
      ]

  -- If every entry of the cache is good for its key under the cache's snapshot id, and the rows
  -- that the warehouse answers to this request's statement are good for its key under the
  -- snapshot id that the request read, then a cached lookup that does not raise returns a good
  -- value, and raising or not it leaves a cache with that invariant.
  pub cached_Good :
      (key : String) (id : Option String) (w : Warehouse) (f : MetricsFilter) (limit : ℕ)
      (after : Option Cursor) (s : Service)
      → ((rs : List GoldRow)
          → w.hourly (hourly_metrics_sql f (limit + 1) after) ≡ some rs
          → Good id key (rows rs))
      → IsValid Good s.cache
      → LeavesGood id key (cached key id (hourly_rows w f limit after) s)
  unfolding cached
  cached_Good key id w f limit after s answer h =
      let r = get-Serves Good id key s.cache h in
      let (hit, c) = Cache.get id key s.cache in
      build_Good key id w f limit after hit (record_cache (is_some hit) (record s { cache = c }))
        r.1 answer (rw (record_cache_keeps (is_some hit) (record s { cache = c })) r.0)

-- A hit issues no statement: the query counters stay, and the value is the cached one.
pub cached_hit :
    (key : String) (id : Option String) (build : Action Payload) (v : Payload) (s : Service)
    → (Cache.get id key s.cache).0 ≡ some v
    → let (r, t) = cached key id build s in
      (r ≡ ok v)
      × (t.queries_ok ≡ s.queries_ok)
      × (t.queries_error ≡ s.queries_error)
      × (t.cache_hits ≡ s.cache_hits + 1)
unfolding cached
cached_hit key id build v s h = rw h (refl, refl, refl, refl)

module _ (c : Codec) (show : Codec.Token c → String) where
  -- A page holds at most `limit` rows, and names the snapshot that the request read.
  abbrev pub IsPage : ℕ → Result HttpError (HourlyMetricsPage (Codec.Token c)) × Service → Type 0
  IsPage limit (ok page, t) = length page.rows ≤ limit
  IsPage limit (err e, t) = Unit

  rows-IsPage :
      (id : Option String) (limit : ℕ) (p : Payload) (s : Service)
      → IsPage limit ((rows_of p >>= λ rs. pure (respond c id limit rs)) s)
  unfolding respond
  rows-IsPage id limit (rows rs) s = length-page_of limit rs
  rows-IsPage id limit (summary r) s = tt

  continue-IsPage :
      {A : Type 0} (limit : ℕ) (r : Result HttpError A)
      (f : A → Action (HourlyMetricsPage (Codec.Token c)))
      → ((a : A) (t : Service) → IsPage limit (f a t))
      → (s : Service) → IsPage limit (continue r f s)
  continue-IsPage limit (ok a) f h s = h a s
  continue-IsPage limit (err e) f h s = tt

  bind-IsPage :
      {A : Type 0} (limit : ℕ) (m : Action A) (f : A → Action (HourlyMetricsPage (Codec.Token c)))
      → ((a : A) (t : Service) → IsPage limit (f a t))
      → (s : Service) → IsPage limit ((m >>= f) s)
  bind-IsPage limit m f h s = continue-IsPage limit (m s).0 f h (m s).1

  observe-IsPage :
      (limit : ℕ) (r : Result HttpError (HourlyMetricsPage (Codec.Token c))) (t u : Service)
      → IsPage limit (r, t)
      → IsPage limit (r, u)
  observe-IsPage limit (ok page) t u h = h
  observe-IsPage limit (err e) t u h = tt

  body-IsPage :
      (w w' : Warehouse) (f : MetricsFilter) (limit : ℕ) (token : Option (Codec.Token c))
      (after : Option Cursor) (s : Service)
      → IsPage limit (hourly_body c show w w' f limit token after s)
  unfolding hourly_body
  body-IsPage w w' f limit token after s =
      bind-IsPage limit (current_snapshot w)
        (λ id. hourly_payload c show w' f limit token after id >>= λ p.
          rows_of p >>= λ rs. pure (respond c id limit rs))
        (λ id t.
          bind-IsPage limit (hourly_payload c show w' f limit token after id)
            (λ p. rows_of p >>= λ rs. pure (respond c id limit rs))
            (λ p u. rows-IsPage id limit p u) t)
        s

  checked-IsPage :
      (w w' : Warehouse) (f : MetricsFilter) (limit : ℕ) (token : Option (Codec.Token c))
      (s : Service)
      → IsPage limit (hourly_checked c show w w' f limit token s)
  unfolding hourly_checked
  checked-IsPage w w' f limit token s = elim (Bool-cases (empty_window f.start f.end)) [
    | inl bad ↦ rw bad tt
    | inr fine ↦ rw fine (
        bind-IsPage limit (parse_after c token) (hourly_body c show w w' f limit token)
          (body-IsPage w w' f limit token) s)
  ]

  -- Whatever the cache holds and the warehouse answers, a page that `hourly_metrics` returns has
  -- at most as many rows as were asked for.
  pub hourly_metrics-IsPage :
      (w w' : Warehouse) (f : MetricsFilter) (limit : ℕ) (token : Option (Codec.Token c))
      (s : Service)
      → IsPage limit (hourly_metrics c show w w' f limit token s)
  unfolding hourly_metrics observe
  hourly_metrics-IsPage w w' f limit token s =
      let (r, t) = hourly_checked c show w w' f limit token s in
      observe-IsPage limit r t _ (checked-IsPage w w' f limit token s)
