-- ===== src/Api/Cache/Lru.antt =====
-- The order of eviction in api/src/cache.py, and lookups after a put.
use payments_data_platform.Base.{
  ℕ, ◌+◌, ◌≤◌, ◌<◌, String, ◌≡◌, refl, ap, Option, none, some, List, [], ◌∷◌, ◌++◌, length, drop,
  length-append, ltb, eq_refl, arith, inl, inr, Bool-cases,
}
use payments_data_platform.Api.Cache
use payments_data_platform.Api.Cache.{SnapshotCache}
use payments_data_platform.Api.Cache.Invariant.{opt_eq_iff, lookup-remove}

module _ {ℓ} {V : Type ℓ} where
  lookup-append_self :
      (k : String) (v : V) (es : List (String × V))
      → Cache.lookup k es ≡ none
      → Cache.lookup k (es ++ (k, v) ∷ []) ≡ some v
  unfolding Cache.lookup
  lookup-append_self k v [] h = ground (arith, eq_refl k)
  lookup-append_self k v (e ∷ es) h = ground (arith, lookup-append_self k v es)

  lookup-evict_last :
      (m : ℕ) (k : String) (v : V) (es : List (String × V)) (n : ℕ)
      → 0 < m
      → Cache.lookup k es ≡ none
      → Cache.lookup k (Cache.evict m (es ++ (k, v) ∷ []) n).0 ≡ some v
  unfolding Cache.lookup Cache.evict
  lookup-evict_last m k v [] n p h = ground (arith, eq_refl k)
  lookup-evict_last m k v (e ∷ es) n p h =
      elim (Bool-cases (ltb m (length (e ∷ es ++ (k, v) ∷ [])))) [
        | inl over ↦ rw over (lookup-evict_last m k v es (n + 1) p (ground arith))
        | inr fits ↦ rw fits (lookup-append_self k v (e ∷ es) h)
      ]

  pub remove-absent :
      (k : String) (es : List (String × V)) → Cache.lookup k es ≡ none → Cache.remove k es ≡ es
  unfolding Cache.lookup Cache.remove
  remove-absent k [] h = refl
  remove-absent k (e ∷ es) h = ground (arith, remove-absent k es)

  evict_within :
      (m : ℕ) (es : List (String × V)) (n : ℕ) → length es ≤ m → Cache.evict m es n ≡ (es, n)
  unfolding Cache.evict
  evict_within m [] n h = refl
  evict_within m (e ∷ es) n h = ground arith

  evict_one :
      (m : ℕ) (es : List (String × V)) (n : ℕ)
      → length es ≡ m + 1
      → Cache.evict m es n ≡ (drop 1 es, n + 1)
  unfolding Cache.evict
  evict_one m [] n h = absurd (omega arith)
  evict_one m (e ∷ es) n h = ground (arith, evict_within m es (n + 1))

  for_snapshot-same :
      (id : Option String) (c : SnapshotCache V) → c.snapshot_id ≡ id → Cache.for_snapshot id c ≡ c
  unfolding Cache.for_snapshot
  for_snapshot-same id c h = ground (arith, opt_eq_iff id c.snapshot_id)

  for_snapshot_limits :
      (id : Option String) (c : SnapshotCache V)
      → ((Cache.for_snapshot id c).snapshot_id ≡ id)
        × ((Cache.for_snapshot id c).max_entries ≡ c.max_entries)
  unfolding Cache.for_snapshot
  for_snapshot_limits id c = ground (arith, opt_eq_iff id c.snapshot_id)

  get_here :
      (id : Option String) (k : String) (c : SnapshotCache V) (v : V)
      → c.snapshot_id ≡ id
      → Cache.lookup k c.entries ≡ some v
      → Cache.get id k c
        ≡ (some v, record c { entries = Cache.store_last k v c.entries; hits = c.hits + 1 })
  unfolding Cache.get
  get_here id k c v s h = ground (arith, opt_eq_iff id c.snapshot_id)

  write_here :
      (k : String) (v : V) (c : SnapshotCache V)
      → 0 < c.max_entries
      → Cache.lookup k (Cache.write k v c).entries ≡ some v
  unfolding Cache.write
  write_here k v c p =
      lookup-evict_last c.max_entries k v (Cache.remove k c.entries) c.evictions p
        (ground (arith, lookup-remove k k c.entries, eq_refl k))

  -- A value that was just put is returned by the next lookup under the same snapshot id, whatever
  -- the cache held before, as long as the cache has room for one entry.
  pub get-put_self :
      (id : Option String) (k : String) (v : V) (c : SnapshotCache V)
      → 0 < c.max_entries
      → (Cache.get id k (Cache.put id k v c)).0 ≡ some v
  unfolding Cache.put
  get-put_self id k v c p =
      let t = Cache.for_snapshot id c in
      let limits = for_snapshot_limits id c in
      ap (λ (r : Option V × SnapshotCache V). r.0)
        (get_here id k (Cache.write k v t) v (unfold Cache.write in limits.0)
          (write_here k v t (omega (arith, limits.1))))

  -- A new key put into a full cache evicts exactly the least recently used entry, and counts it.
  pub put_evicts_oldest :
      (id : Option String) (k : String) (v : V) (c : SnapshotCache V)
      → c.snapshot_id ≡ id
      → length c.entries ≡ c.max_entries
      → Cache.lookup k c.entries ≡ none
      → ((Cache.put id k v c).entries ≡ drop 1 (c.entries ++ (k, v) ∷ []))
        × ((Cache.put id k v c).evictions ≡ c.evictions + 1)
  unfolding Cache.put Cache.write
  put_evicts_oldest id k v c s full new = rw (for_snapshot-same id c s) (
      rw (remove-absent k c.entries new) (
        rw
          (evict_one c.max_entries (c.entries ++ (k, v) ∷ []) c.evictions
            (omega (arith, full, length-append c.entries ((k, v) ∷ []))))
          (refl, refl)))
