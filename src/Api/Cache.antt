-- ===== src/Api/Cache.antt =====
-- `SnapshotCache` of api/src/cache.py: a bounded least-recently-used map whose whole contents
-- belong to one Iceberg snapshot id. `entries` is the `OrderedDict`, least recently used first.
-- Each method holds the lock for its whole body, so it is one step on the state.
pub mod Invariant
pub mod Fresh
pub mod Lru
use payments_data_platform.Base.{
  ℕ, ◌+◌, String, Bool, true, false, Option, none, some, List, [], ◌∷◌, ◌++◌, length, ltb, str_eq,
  opt_eq, not, if◌then◌else◌,
}

pub record SnapshotCache {ℓ} (V : Type ℓ) : Type ℓ where
  pub entries : List (String × V)
  pub snapshot_id : Option String
  pub max_entries : ℕ
  pub hits : ℕ
  pub misses : ℕ
  pub evictions : ℕ

module _ {ℓ} {V : Type ℓ} where
  -- `SnapshotCache(max_entries)`
  unfoldable pub new : ℕ → SnapshotCache V
  new max_entries = record {
    entries = [];
    snapshot_id = none;
    max_entries = max_entries;
    hits = 0;
    misses = 0;
    evictions = 0;
  }

  unfoldable pub lookup : String → List (String × V) → Option V
  lookup key [] = none
  lookup key ((k, v) ∷ es) = if str_eq k key then some v else lookup key es

  unfoldable pub remove : String → List (String × V) → List (String × V)
  remove key [] = []
  remove key ((k, v) ∷ es) = if str_eq k key then remove key es else (k, v) ∷ remove key es

  -- `entries[key] = value; entries.move_to_end(key)`; a hit moves its own value the same way.
  pub store_last : String → V → List (String × V) → List (String × V)
  store_last key value es = remove key es ++ (key, value) ∷ []

  pub reset_locked : Option String → SnapshotCache V → SnapshotCache V
  reset_locked id c = record c { entries = []; snapshot_id = id }

  -- The branch of `get` on whether the key is there.
  pub found : String → Option V → SnapshotCache V → Option V × SnapshotCache V
  unfolding store_last
  found key none c = (none, record c { misses = c.misses + 1 })
  found key (some v) c =
      (some v, record c { entries = store_last key v c.entries; hits = c.hits + 1 })

  unfoldable pub get : Option String → String → SnapshotCache V → Option V × SnapshotCache V
  unfolding reset_locked found
  get id key c =
      if not (opt_eq id c.snapshot_id)
      then (none, record (reset_locked id c) { misses = c.misses + 1 })
      else found key (lookup key c.entries) c

  -- `while len(entries) > max_entries: entries.popitem(last=False); evictions += 1`
  unfoldable pub evict : ℕ → List (String × V) → ℕ → List (String × V) × ℕ
  evict max_entries [] evictions = ([], evictions)
  evict max_entries (e ∷ es) evictions =
      if ltb max_entries (length (e ∷ es))
      then evict max_entries es (evictions + 1)
      else (e ∷ es, evictions)

  -- The snapshot test that `put` begins with.
  pub for_snapshot : Option String → SnapshotCache V → SnapshotCache V
  unfolding reset_locked
  for_snapshot id c = if not (opt_eq id c.snapshot_id) then reset_locked id c else c

  -- The rest of `put`.
  pub write : String → V → SnapshotCache V → SnapshotCache V
  unfolding store_last
  write key value c =
      let (es, n) = evict c.max_entries (store_last key value c.entries) c.evictions in
      record c { entries = es; evictions = n }

  unfoldable pub put : Option String → String → V → SnapshotCache V → SnapshotCache V
  unfolding for_snapshot write
  put id key value c = write key value (for_snapshot id c)

  pub clear : SnapshotCache V → SnapshotCache V
  unfolding reset_locked
  clear c = reset_locked none c

-- A call of a method, as the threads that share a cache make it.
pub data Call {ℓ} (V : Type ℓ) : Type ℓ where
  get_call : Option String → String → Call V
  put_call : Option String → String → V → Call V
  clear_call : Call V

module _ {ℓ} {V : Type ℓ} where
  pub step : Call V → SnapshotCache V → SnapshotCache V
  step (get_call id key) c = (get id key c).1
  step (put_call id key value) c = put id key value c
  step clear_call c = clear c

  -- Calls in the order in which they took the lock.
  unfoldable pub run : List (Call V) → SnapshotCache V → SnapshotCache V
  unfolding step
  run [] c = c
  run (call ∷ calls) c = run calls (step call c)
