-- ===== src/Api/Cache/Fresh.antt =====
-- The cache's entries under its snapshot id, through every call of api/src/cache.py.
use payments_data_platform.Base.{
  ℕ, ◌≤◌, String, ◌≡◌, refl, subst, Option, none, some, List, [], ◌∷◌, length, All, length-append,
  opt_eq, arith, inl, inr, Bool-cases,
}
use payments_data_platform.Api.Cache
use payments_data_platform.Api.Cache.{SnapshotCache, Call, get_call, put_call, clear_call}
use payments_data_platform.Api.Cache.Invariant.{
  length-evict, length-remove_found, All-evict, All-lookup, All-store_last, Distinct,
  Distinct-store_last, Distinct-evict, opt_eq_iff,
}

-- `Good id k v`: the value may be served for the key while the snapshot id is the current one.
module _ {ℓ κ} {V : Type ℓ} (Good : Option String → String → V → Type κ) where
  pub record IsValid (c : SnapshotCache V) : Type (ℓ ⊔ κ) where
    pub within : length c.entries ≤ c.max_entries
    pub distinct : Distinct c.entries
    pub fresh : All (λ e. Good c.snapshot_id e.0 e.1) c.entries

  pub IsValid-new : (m : ℕ) → IsValid (Cache.new m)
  unfolding Cache.new
  IsValid-new m = record { within = omega arith; distinct = tt; fresh = tt }

  reset-IsValid : (id : Option String) (c : SnapshotCache V) → IsValid (Cache.reset_locked id c)
  unfolding Cache.reset_locked
  reset-IsValid id c = record { within = omega arith; distinct = tt; fresh = tt }

  -- What a lookup does to a valid cache, and what it hands out.
  abbrev Serves : Option String → String → Option V × SnapshotCache V → Type (ℓ ⊔ κ)
  Serves id key (r, c) = IsValid c × ((v : V) → r ≡ some v → Good id key v)

  found-Serves :
      (key : String) (r : Option V) (c : SnapshotCache V)
      → Cache.lookup key c.entries ≡ r
      → IsValid c
      → Serves c.snapshot_id key (Cache.found key r c)
  unfolding Cache.found
  found-Serves key none c e h =
      (record { within = h.within; distinct = h.distinct; fresh = h.fresh }, λ v p. cc)
  found-Serves key (some v) c e h =
      let good : Good c.snapshot_id key v =
        All-lookup (λ e. Good c.snapshot_id e.0 e.1) key c.entries v h.fresh e in
      (
        record {
          within =
              unfold Cache.store_last in
              omega (
                arith,
                h.within,
                length-append (Cache.remove key c.entries) ((key, v) ∷ []),
                length-remove_found key c.entries v e,
              );
          distinct = Distinct-store_last key v c.entries h.distinct;
          fresh = All-store_last (λ e. Good c.snapshot_id e.0 e.1) key v c.entries good h.fresh;
        },
        λ w p. subst (Good c.snapshot_id key) (cc p) good,
      )

  -- A lookup keeps the invariant, and a value that it returns is good for the asked snapshot.
  pub get-Serves :
      (id : Option String) (key : String) (c : SnapshotCache V)
      → IsValid c
      → Serves id key (Cache.get id key c)
  unfolding Cache.get
  get-Serves id key c h = elim (Bool-cases (opt_eq id c.snapshot_id)) [
    | inl same ↦ rw same (
        rw ((opt_eq_iff id c.snapshot_id).0 same)
          (found-Serves key (Cache.lookup key c.entries) c refl h))
    | inr other ↦ rw other (record { within = omega arith; distinct = tt; fresh = tt }, λ v p. cc)
  ]

  write-IsValid :
      (key : String) (v : V) (c : SnapshotCache V)
      → Good c.snapshot_id key v
      → IsValid c
      → IsValid (Cache.write key v c)
  unfolding Cache.write
  write-IsValid key v c g h =
      let es = Cache.store_last key v c.entries in
      record {
        within = length-evict c.max_entries es c.evictions;
        distinct =
            Distinct-evict c.max_entries es c.evictions
              (Distinct-store_last key v c.entries h.distinct);
        fresh =
            All-evict (λ e. Good c.snapshot_id e.0 e.1) c.max_entries es c.evictions
              (All-store_last (λ e. Good c.snapshot_id e.0 e.1) key v c.entries g h.fresh);
      }

  for_snapshot-IsValid :
      (id : Option String) (c : SnapshotCache V)
      → IsValid c
      → IsValid (Cache.for_snapshot id c) × ((Cache.for_snapshot id c).snapshot_id ≡ id)
  unfolding Cache.for_snapshot
  for_snapshot-IsValid id c h = elim (Bool-cases (opt_eq id c.snapshot_id)) [
    | inl same ↦ rw same (h, ground (arith, opt_eq_iff id c.snapshot_id))
    | inr other ↦ rw other (reset-IsValid id c, refl)
  ]

  pub put-IsValid :
      (id : Option String) (key : String) (v : V) (c : SnapshotCache V)
      → Good id key v
      → IsValid c
      → IsValid (Cache.put id key v c)
  unfolding Cache.put
  put-IsValid id key v c g h =
      let r = for_snapshot-IsValid id c h in
      write-IsValid key v (Cache.for_snapshot id c) (rw r.1 g) r.0

  -- Every value that the calls put is good for the snapshot that it is put under.
  abbrev pub PutsGood : List (Call V) → Type κ
  PutsGood [] = Unit
  PutsGood (put_call id key v ∷ calls) = Good id key v × PutsGood calls
  PutsGood (call ∷ calls) = PutsGood calls

  pub run-IsValid :
      (calls : List (Call V)) (c : SnapshotCache V)
      → PutsGood calls
      → IsValid c
      → IsValid (Cache.run calls c)
  unfolding Cache.run
  run-IsValid [] c g h = h
  run-IsValid (get_call id key ∷ calls) c g h =
      run-IsValid calls (Cache.get id key c).1 g (get-Serves id key c h).0
  run-IsValid (put_call id key v ∷ calls) c g h =
      run-IsValid calls (Cache.put id key v c) g.1 (put-IsValid id key v c g.0 h)
  run-IsValid (clear_call ∷ calls) c g h =
      run-IsValid calls (Cache.clear c) g (unfold Cache.clear in reset-IsValid none c)

  -- Whatever calls any number of threads make, in the order in which they take the lock: if each
  -- value is good for the snapshot that it was put under, a cache that began empty stays within
  -- its bound, with distinct keys and with values that are good for its snapshot id.
  pub cache_stays-IsValid :
      (m : ℕ) (calls : List (Call V)) → PutsGood calls → IsValid (Cache.run calls (Cache.new m))
  cache_stays-IsValid m calls g = run-IsValid calls (Cache.new m) g (IsValid-new m)

  -- After any such calls, a lookup that hits returns a value that is good for the snapshot id
  -- asked for, also when the cache held another snapshot's entries before.
  pub cache_never_stale :
      (m : ℕ) (calls : List (Call V)) (id : Option String) (key : String) (v : V)
      → PutsGood calls
      → (Cache.get id key (Cache.run calls (Cache.new m))).0 ≡ some v
      → Good id key v
  cache_never_stale m calls id key v g =
      (get-Serves id key (Cache.run calls (Cache.new m)) (cache_stays-IsValid m calls g)).1 v
