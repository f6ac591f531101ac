-- ===== src/Api/App/Keys.antt =====
-- `_cache_key` of api/src/app.py on an absent and on an empty `payment_method`.
use payments_data_platform.Base.{
  ℕ, ◌<◌, String, ◌≡◌, ◌≢◌, true, false, Option, none, some, arith, eq_iff,
}
use payments_data_platform.Api.Queries.{MetricsFilter}
use payments_data_platform.Api.Queries.Meaning.{GoldRow, matches}
use payments_data_platform.Api.App.{cache_key}
use payments_data_platform.Api.Cache
use payments_data_platform.Api.Cache.{SnapshotCache}
use payments_data_platform.Api.Cache.Lru.{get-put_self}

-- A request with an empty `payment_method` has the cache key of the request with none, whatever
-- the other parameters; but a row with a non-empty method that the second request matches does
-- not match the first. And a response that is put into a cache with room for an entry under the
-- second request's key is what a lookup for the first returns, under the same snapshot id.
pub cache_key_conflates {ℓ} :
    {V : Type ℓ}
    → (iso : ℕ → String) (prefix : String) (f : MetricsFilter) (limit : Option ℕ)
      (cursor : Option String) (r : GoldRow) (id : Option String) (v : V) (c : SnapshotCache V)
    → f.payment_method ≡ none
    → matches f r ≡ true
    → r.payment_method ≢ ""
    → 0 < c.max_entries
    → let g = record f { payment_method = some "" } in
      (cache_key iso prefix g limit cursor ≡ cache_key iso prefix f limit cursor)
      × (matches g r ≡ false)
      × ((Cache.get id
            (cache_key iso prefix g limit cursor)
            (Cache.put id (cache_key iso prefix f limit cursor) v c)).0
          ≡ some v)
unfolding cache_key matches
cache_key_conflates iso prefix f limit cursor r id v c absent m named room = (
  rw absent,
  ground (arith, eq_iff r.payment_method ""),
  rw absent (
      get-put_self id (cache_key iso prefix (record f { payment_method = none }) limit cursor) v c
        room),
)
