-- ===== src/Api/Endpoints.antt =====
-- The endpoints of api/src/app.py. The framework has checked the query parameters: a limit is
-- between 1 and `max_page_size`, a country code has two characters.
pub mod Serve
use payments_data_platform.Base.{
  ℕ, String, Bool, true, false, Option, none, some, List, map, Result, ok, err, if◌then◌else◌,
}
use payments_data_platform.Api.Queries.{MetricsFilter, Cursor}
use payments_data_platform.Api.Queries.Meaning.{GoldRow}
use payments_data_platform.Api.Pages.{page_of}
use payments_data_platform.Api.Wire.{Codec, CursorError, decode_cursor, encode_cursor}
use payments_data_platform.Api.App.{
  Payload, rows, summary, SummaryRow, Warehouse, Service, Action, HttpError, bad_request,
  server_error, ◌>>=◌, pure, raise, hourly_endpoint, summary_endpoint, current_snapshot, cached,
  hourly_rows, summary_row, observe, empty_window, cache_key,
}

abbrev pub max_page_size : ℕ
max_page_size = 1000

pub record HourlyMetricsPage (Token : Type 0) : Type 0 where
  pub rows : List GoldRow
  pub next_cursor : Option Token
  pub snapshot_id : Option String

pub record MetricsSummary : Type 0 where
  pub totals : SummaryRow
  pub snapshot_id : Option String

pub record ReadyResponse : Type 0 where
  pub degraded : Bool
  pub trino_reachable : Bool

-- The rows of a cached page, and the row of a cached summary. The two endpoints' keys begin
-- differently, so the other kind raises a TypeError in the source's response model.
abbrev pub rows_of : Payload → Action (List GoldRow)
rows_of (rows rs) = pure rs
rows_of (summary r) = raise server_error

abbrev pub summary_of : Payload → Action SummaryRow
summary_of (summary r) = pure r
summary_of (rows rs) = raise server_error

-- `health` touches nothing.
pub health : Action Bool
health = pure true

-- `ready`: an exception is an answer, not an error.
pub ready : Warehouse → Service → ReadyResponse × Service
ready w s =
    let (r, t) = current_snapshot w s in
    elim r [
      | ok id ↦ (record { degraded = false; trino_reachable = true }, t)
      | err e ↦ (record { degraded = true; trino_reachable = false }, t)
    ]

module _ (c : Codec) where
  open c use {Token, isoformat}

  -- `decode_cursor` where there is a token; its error is a 400.
  abbrev after_result : Result CursorError Cursor → Action (Option Cursor)
  after_result (ok cursor) = pure (some cursor)
  after_result (err e) = raise (bad_request "malformed cursor")

  pub parse_after : Option Token → Action (Option Cursor)
  parse_after none = pure none
  parse_after (some token) = after_result (decode_cursor c token)

  abbrev next_token : Option Cursor → Option Token
  next_token none = none
  next_token (some cursor) = some (encode_cursor c cursor)

  -- The page that is made of the cached rows.
  unfoldable pub respond : Option String → ℕ → List GoldRow → HourlyMetricsPage Token
  respond id limit rs =
      let p = page_of limit rs in
      record { rows = p.0; next_cursor = next_token p.1; snapshot_id = id }

  abbrev shown : (Token → String) → Option Token → Option String
  shown show none = none
  shown show (some token) = some (show token)

  -- The cached lookup of `hourly_metrics`. `show` is the token as text, for the key.
  pub hourly_payload :
      (Token → String)
      → Warehouse
      → MetricsFilter
      → ℕ
      → Option Token
      → Option Cursor
      → Option String
      → Action Payload
  hourly_payload show w f limit token after id =
      cached (cache_key isoformat "hourly" f (some limit) (shown show token)) id
        (hourly_rows w f limit after)

  -- The body once the parameters are checked. The warehouse answers the snapshot query as `w`, and
  -- the data query as `w'`.
  pub hourly_body :
      (Token → String)
      → Warehouse
      → Warehouse
      → MetricsFilter
      → ℕ
      → Option Token
      → Option Cursor
      → Action (HourlyMetricsPage Token)
  unfolding hourly_payload
  hourly_body show w w' f limit token after = do
    id ← current_snapshot w
    payload ← hourly_payload show w' f limit token after id
    rs ← rows_of payload
    pure (respond id limit rs)

  -- The body with its checks.
  pub hourly_checked :
      (Token → String)
      → Warehouse
      → Warehouse
      → MetricsFilter
      → ℕ
      → Option Token
      → Action (HourlyMetricsPage Token)
  unfolding parse_after
  hourly_checked show w w' f limit token =
      if empty_window f.start f.end
      then raise (bad_request "end must be after start")
      else (parse_after token >>= hourly_body show w w' f limit token)

  pub hourly_metrics :
      (Token → String)
      → Warehouse
      → Warehouse
      → MetricsFilter
      → ℕ
      → Option Token
      → Action (HourlyMetricsPage Token)
  unfolding hourly_checked
  hourly_metrics show w w' f limit token =
      observe hourly_endpoint (hourly_checked show w w' f limit token)

  pub metrics_summary : Warehouse → Warehouse → MetricsFilter → Action MetricsSummary
  metrics_summary w w' f = observe summary_endpoint (
      if empty_window f.start f.end then raise (bad_request "end must be after start") else do
        id ← current_snapshot w
        payload ← cached (cache_key isoformat "summary" f none none) id (summary_row w' f)
        r ← summary_of payload
        pure (record { totals = r; snapshot_id = id }))
