-- ===== src/Api/Tests.antt =====
-- The API's theorems at concrete inputs.
use payments_data_platform.Base.{
  ℕ, String, ◌≡◌, refl, false, Option, none, some, List, [], ◌∷◌, ◌&&◌, ok, err, arith, opt_eq,
  if◌then◌else◌, eq_iff,
}
use payments_data_platform.Base.{zero, suc, ap}
use payments_data_platform.Base.Order.{text_order}
use payments_data_platform.Api.Cache
use payments_data_platform.Api.Cache.{SnapshotCache, Call, put_call}
use payments_data_platform.Api.Cache.Fresh.{IsValid, cache_stays-IsValid, cache_never_stale}
use payments_data_platform.Api.Queries.{MetricsFilter, Cursor, text, page_where}
use payments_data_platform.Api.Queries.Meaning.{GoldRow, matches, eval_where, key_lt, keyset_means}
use payments_data_platform.Api.Pages.{fetch_all}
use payments_data_platform.Api.Pages.Complete.{fetch_all_complete, Gathered}
use payments_data_platform.Api.Wire.{Codec, Document, decode_cursor, encode_cursor, decode-encode}
use payments_data_platform.Api.App.{
  Payload, rows, Warehouse, Service, bad_request, hourly_endpoint, cached, hourly_rows, cache_key,
  empty_window,
}
use payments_data_platform.Api.App.Keys.{cache_key_conflates}
use payments_data_platform.Api.Endpoints.{hourly_metrics}
use payments_data_platform.Api.Endpoints.Serve.{
  hourly_metrics_window, cached_Good, LeavesGood, hourly_metrics-IsPage, IsPage,
}

-- The value that a snapshot holds.
abbrev value_of : Option String → ℕ
value_of id = if opt_eq id (some "s1") then 7 else 8

abbrev IsValue : Option String → String → ℕ → Type 0
IsValue id key v = v ≡ value_of id

abbrev two_puts : List (Call ℕ)
two_puts = put_call (some "s1") "k" 7 ∷ put_call (some "s2") "k" 8 ∷ []

cache_stays-IsValid_example : IsValid IsValue (Cache.run two_puts (Cache.new 1))
cache_stays-IsValid_example = cache_stays-IsValid IsValue 1 two_puts (refl, (refl, tt))

cache_never_stale_example : IsValue (some "s2") "k" 8
unfolding Cache.run Cache.new Cache.get Cache.put Cache.lookup Cache.remove Cache.evict
cache_never_stale_example =
    cache_never_stale IsValue 1 two_puts (some "s2") "k" 8 (refl, (refl, tt)) refl

abbrev one_entry : SnapshotCache ℕ
one_entry = record {
  entries = ("a", 1) ∷ [];
  snapshot_id = some "s1";
  max_entries = 1;
  hits = 0;
  misses = 0;
  evictions = 0;
}

abbrev in_france : MetricsFilter
in_france = record { start = some 3; end = some 9; country_code = some "FR"; payment_method = none }

abbrev gold : ℕ → String → String → GoldRow
gold hour country method = record {
  payment_hour = hour;
  country_code = country;
  payment_method = method;
  payment_count = 2;
  gross_volume = 1500;
  auth_rate = (1, 2);
}

abbrev gold_table : List GoldRow
gold_table =
    gold 5 "FR" "card" ∷ gold 3 "FR" "paypal" ∷ gold 4 "DE" "card" ∷ gold 3 "FR" "card" ∷ []

abbrev after_card : Cursor
after_card = record { payment_hour = 3; country_code = text "FR"; payment_method = text "card" }

keyset_means_example :
    eval_where text_order
      (page_where in_france (some after_card)).0
      (page_where in_france (some after_card)).1
      (gold 5 "FR" "card")
    ≡ some (
        matches in_france (gold 5 "FR" "card")
        && key_lt text_order 3 "FR" "card" (gold 5 "FR" "card"))
keyset_means_example = keyset_means text_order in_france 3 "FR" "card" (gold 5 "FR" "card")

fetch_all_complete_example :
    (rows : List GoldRow) × (fetch_all text_order 4 gold_table in_france 2 none ≡ some rows)
    × Gathered text_order gold_table in_france rows
unfolding matches
fetch_all_complete_example =
    fetch_all_complete text_order gold_table in_france
      ((refl, (refl, (refl, tt))), ((refl, (refl, tt)), ((refl, tt), (tt, tt)))) 4 2 (omega arith)
      (omega arith)

char_count : String → ℕ
char_count String.[] = zero
char_count (String.◌∷◌ c s) = suc (char_count s)

abbrev read_hour : String → Option ℕ
read_hour s = some (char_count s)

spaces : ℕ → String
spaces zero = ""
spaces (suc n) = String.◌∷◌ " " (spaces n)

char_count-spaces : (n : ℕ) → char_count (spaces n) ≡ n
unfolding spaces char_count
char_count-spaces zero = refl
char_count-spaces (suc n) = ap suc (char_count-spaces n)

abbrev plain_codec : Codec
plain_codec = record {
  Token = Document;
  dumps = λ d. d;
  loads = λ d. some d;
  isoformat = spaces;
  fromisoformat = read_hour;
  loads-dumps = λ d. refl;
  fromisoformat-isoformat = λ t. ap some (char_count-spaces t);
}

decode-encode_example :
    decode_cursor plain_codec (encode_cursor plain_codec after_card) ≡ ok after_card
decode-encode_example = decode-encode plain_codec after_card

abbrev one_place : SnapshotCache ℕ
one_place = record {
  entries = [];
  snapshot_id = none;
  hits = 0;
  misses = 0;
  evictions = 0;
  max_entries = 1;
}

cache_key_conflates_example :
    (cache_key spaces "hourly" (record in_france { payment_method = some "" }) (some 5) none
      ≡ cache_key spaces "hourly" in_france (some 5) none)
    × (matches (record in_france { payment_method = some "" }) (gold 3 "FR" "card") ≡ false)
    × ((Cache.get
          (some "s1")
          (cache_key spaces "hourly" (record in_france { payment_method = some "" }) (some 5) none)
          (Cache.put (some "s1") (cache_key spaces "hourly" in_france (some 5) none) 7 one_place)).0
        ≡ some 7)
unfolding matches
cache_key_conflates_example =
    cache_key_conflates spaces "hourly" in_france (some 5) none (gold 3 "FR" "card") (some "s1") 7
      one_place refl refl (ground (arith, eq_iff "card" "")) (omega arith)

abbrev warehouse : Warehouse
warehouse = record {
  snapshots = λ q. some (some "s1" ∷ []);
  hourly = λ q. some gold_table;
  totals = λ q. none;
}

abbrev service : Service
service = record {
  cache = record {
    entries = ("k", rows gold_table) ∷ [];
    snapshot_id = some "s1";
    max_entries = 4;
    hits = 0;
    misses = 0;
    evictions = 0;
  };
  queries_ok = 0;
  queries_error = 0;
  cache_hits = 0;
  cache_misses = 0;
  cache_entries = 1;
  requests = [];
}

abbrev no_window : MetricsFilter
no_window = record in_france { end = some 3 }

abbrev shown : Document → String
shown d = "token"

hourly_metrics_window_example :
    hourly_metrics plain_codec shown warehouse warehouse no_window 2 none service ≡ (
      err (bad_request "end must be after start"),
      record service { requests = (hourly_endpoint, false) ∷ [] },
    )
unfolding empty_window
hourly_metrics_window_example =
    hourly_metrics_window plain_codec shown warehouse warehouse no_window 2 none service 3 3 refl
      refl (omega arith)

-- The payload that holds the table.
abbrev IsTable : Option String → String → Payload → Type 0
IsTable id key p = p ≡ rows gold_table

cached_Good_example :
    LeavesGood IsTable
      (some "s2")
      "k"
      (cached "k" (some "s2") (hourly_rows warehouse in_france 2 none) service)
cached_Good_example =
    cached_Good IsTable "k" (some "s2") warehouse in_france 2 none service
      (λ rs e. ground (arith, e))
      (record {
        within = omega arith;
        distinct = unfold Cache.lookup in (refl, tt);
        fresh = (refl, tt);
      })

hourly_metrics-IsPage_example :
    IsPage plain_codec shown 2
      (hourly_metrics plain_codec shown warehouse warehouse in_france 2 none service)
hourly_metrics-IsPage_example =
    hourly_metrics-IsPage plain_codec shown warehouse warehouse in_france 2 none service
