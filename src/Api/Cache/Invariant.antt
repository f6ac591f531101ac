-- ===== src/Api/Cache/Invariant.antt =====
-- Lemmas on the entries of the cache: their number, their keys, and what holds of each.
use payments_data_platform.Base.{
  ℕ, ◌+◌, ◌≤◌, String, ◌≡◌, refl, true, false, Option, none, some, List, [], ◌∷◌, ◌++◌, length, All,
  All-append, ltb, str_eq, opt_eq, arith, eq_iff, eq_refl, ◌↔◌, subst, if◌then◌else◌, inl, inr,
  Bool-cases,
}
use payments_data_platform.Api.Cache
use payments_data_platform.Api.Cache.{SnapshotCache}

module _ {ℓ} {V : Type ℓ} where
  pub length-evict : (m : ℕ) (es : List (String × V)) (n : ℕ) → length (Cache.evict m es n).0 ≤ m
  unfolding Cache.evict
  length-evict m [] n = omega arith
  length-evict m (e ∷ es) n = ground (arith, length-evict m es (n + 1))

  -- What is evicted is counted.
  pub evict_counts :
      (m : ℕ) (es : List (String × V)) (n : ℕ)
      → length (Cache.evict m es n).0 + (Cache.evict m es n).1 ≡ length es + n
  unfolding Cache.evict
  evict_counts m [] n = omega arith
  evict_counts m (e ∷ es) n = ground (arith, evict_counts m es (n + 1))

  pub length-remove : (k : String) (es : List (String × V)) → length (Cache.remove k es) ≤ length es
  unfolding Cache.remove
  length-remove k [] = omega arith
  length-remove k (e ∷ es) = ground (arith, length-remove k es)

  -- A hit moves one entry, so the list does not grow.
  pub length-remove_found :
      (k : String) (es : List (String × V)) (v : V)
      → Cache.lookup k es ≡ some v
      → length (Cache.remove k es) + 1 ≤ length es
  unfolding Cache.remove Cache.lookup
  length-remove_found k [] v h = cc
  length-remove_found k (e ∷ es) v h =
      ground (arith, length-remove k es, length-remove_found k es v)

  module _ {κ} (P : String × V → Type κ) where
    pub All-evict :
        (m : ℕ) (es : List (String × V)) (n : ℕ) → All P es → All P (Cache.evict m es n).0
    unfolding Cache.evict
    All-evict m [] n h = tt
    All-evict m (e ∷ es) n h = elim (Bool-cases (ltb m (length (e ∷ es)))) [
      | inl over ↦ rw over (All-evict m es (n + 1) h.1)
      | inr fits ↦ rw fits h
    ]

    pub All-remove : (k : String) (es : List (String × V)) → All P es → All P (Cache.remove k es)
    unfolding Cache.remove
    All-remove k [] h = tt
    All-remove k (e ∷ es) h = elim (Bool-cases (str_eq e.0 k)) [
      | inl same ↦ rw same (All-remove k es h.1)
      | inr other ↦ rw other (h.0, All-remove k es h.1)
    ]

    pub All-lookup :
        (k : String) (es : List (String × V)) (v : V)
        → All P es
        → Cache.lookup k es ≡ some v
        → P (k, v)
    unfolding Cache.lookup
    All-lookup k [] v h e = cc
    All-lookup k ((j, w) ∷ es) v h e = elim (Bool-cases (str_eq j k)) [
      | inl same ↦
          let p : ◌≡◌ {A = String × V} (j, w) (k, v) = ground (arith, eq_iff j k) in subst P p h.0
      | inr other ↦ All-lookup k es v h.1 (rw other at e)
    ]

    pub All-store_last :
        (k : String) (v : V) (es : List (String × V))
        → P (k, v)
        → All P es
        → All P (Cache.store_last k v es)
    unfolding Cache.store_last
    All-store_last k v es p h =
        All-append P (Cache.remove k es) ((k, v) ∷ []) (All-remove k es h) (p, tt)

  -- No key stands twice.
  abbrev pub Distinct : List (String × V) → Type ℓ
  Distinct [] = Unit
  Distinct ((k, v) ∷ es) = (Cache.lookup k es ≡ none) × Distinct es

  pub lookup-remove :
      (k j : String) (es : List (String × V))
      → Cache.lookup j (Cache.remove k es) ≡ (if str_eq k j then none else Cache.lookup j es)
  unfolding Cache.lookup Cache.remove
  lookup-remove k j [] = ground arith
  lookup-remove k j ((i, v) ∷ es) =
      ground (arith, lookup-remove k j es, eq_iff i k, eq_iff i j, eq_iff k j)

  pub Distinct-remove :
      (k : String) (es : List (String × V)) → Distinct es → Distinct (Cache.remove k es)
  unfolding Cache.remove
  Distinct-remove k [] h = tt
  Distinct-remove k ((j, v) ∷ es) h = elim (Bool-cases (str_eq j k)) [
    | inl same ↦ rw same (Distinct-remove k es h.1)
    | inr other ↦ rw other (ground (arith, lookup-remove k j es), Distinct-remove k es h.1)
  ]

  lookup-append_last :
      (j k : String) (v : V) (es : List (String × V))
      → Cache.lookup j es ≡ none
      → str_eq k j ≡ false
      → Cache.lookup j (es ++ (k, v) ∷ []) ≡ none
  unfolding Cache.lookup
  lookup-append_last j k v [] h n = ground arith
  lookup-append_last j k v (e ∷ es) h n = ground (arith, lookup-append_last j k v es)

  Distinct-append_last :
      (k : String) (v : V) (es : List (String × V))
      → Distinct es
      → Cache.lookup k es ≡ none
      → Distinct (es ++ (k, v) ∷ [])
  unfolding Cache.lookup
  Distinct-append_last k v [] h n = (refl, tt)
  Distinct-append_last k v ((j, w) ∷ es) h n = (
    lookup-append_last j k v es h.0 (ground (arith, eq_iff j k, eq_iff k j)),
    Distinct-append_last k v es h.1 (ground arith),
  )

  pub Distinct-store_last :
      (k : String) (v : V) (es : List (String × V))
      → Distinct es
      → Distinct (Cache.store_last k v es)
  unfolding Cache.store_last
  Distinct-store_last k v es h =
      Distinct-append_last k v (Cache.remove k es) (Distinct-remove k es h)
        (ground (arith, lookup-remove k k es, eq_refl k))

  pub Distinct-evict :
      (m : ℕ) (es : List (String × V)) (n : ℕ) → Distinct es → Distinct (Cache.evict m es n).0
  unfolding Cache.evict
  Distinct-evict m [] n h = tt
  Distinct-evict m (e ∷ es) n h = elim (Bool-cases (ltb m (length (e ∷ es)))) [
    | inl over ↦ rw over (Distinct-evict m es (n + 1) h.1)
    | inr fits ↦ rw fits h
  ]

pub opt_eq_iff : (a b : Option String) → (opt_eq a b ≡ true) ↔ (a ≡ b)
opt_eq_iff none none = ground arith
opt_eq_iff none (some t) = ground arith
opt_eq_iff (some s) none = ground arith
opt_eq_iff (some s) (some t) = ground (arith, eq_iff s t)
