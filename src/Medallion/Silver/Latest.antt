-- ===== src/Medallion/Silver/Latest.antt =====
-- The window of `_build_changes` in config/spark/jobs/silver_payments.py against the order of the
-- events of an id.
use payments_data_platform.Base.{
  ℕ, ◌≡◌, refl, Bool, true, false, Option, none, some, List, [], ◌∷◌, map, arith, ltb,
  if◌then◌else◌, inl, inr, Bool-cases, Option-cases,
}
use payments_data_platform.Medallion.Rules.{sql_eq, find_source}
use payments_data_platform.Medallion.Rules.Merged.{UniqueChanges}
use payments_data_platform.Medallion.Silver.{
  Projected, same_group, ranks_before, keep_latest, latest_per_key,
}

abbrev pub id_of : Projected → Option ℕ
id_of p = p.change.row.payment_id

abbrev pub lsn_of : Projected → Option ℕ
lsn_of p = p.change.row.source_lsn

pub find_projected : Option ℕ → List Projected → Option Projected
find_projected id [] = none
find_projected id (p ∷ ps) = if sql_eq id (id_of p) then some p else find_projected id ps

-- The last event of an id, in the order of arrival.
unfoldable pub last_of : Option ℕ → List Projected → Option Projected
last_of id [] = none
last_of id (p ∷ ps) = elim (last_of id ps) [
  | none ↦ if sql_eq id (id_of p) then some p else none
  | some q ↦ some q
]

-- The sequence number is there and greater than the one before.
abbrev pub follows : Option ℕ → Option ℕ → Bool
follows low none = false
follows none (some n) = true
follows (some m) (some n) = ltb m n

-- The events of an id carry rising sequence numbers, the first above `low`.
abbrev pub Rising : Option ℕ → Option ℕ → List Projected → Type 0
Rising id low [] = Unit
Rising id low (p ∷ ps) =
    (sql_eq id (id_of p) ≡ true → follows low (lsn_of p) ≡ true)
    × Rising id (if sql_eq id (id_of p) then lsn_of p else low) ps

abbrev better : Projected → Option Projected → Projected
better p none = p
better p (some q) =
    if ranks_before (lsn_of q) q.kafka_offset (lsn_of p) p.kafka_offset then q else p

find-keep_latest :
    (id : ℕ) (p : Projected) (qs : List Projected)
    → find_projected (some id) (keep_latest p qs) ≡ (
        if sql_eq (some id) (id_of p)
        then some (better p (find_projected (some id) qs))
        else find_projected (some id) qs)
unfolding find_projected keep_latest sql_eq same_group
find-keep_latest id p [] = ground arith
find-keep_latest id p (q ∷ qs) = ground (arith, find-keep_latest id p qs)

follows_trans : (a b c : Option ℕ) → follows a b ≡ true → follows b c ≡ true → follows a c ≡ true
follows_trans none b none h k = ground arith
follows_trans none b (some n) h k = refl
follows_trans (some m) none c h k = cc
follows_trans (some m) (some n) none h k = cc
follows_trans (some m) (some n) (some o) h k = ground arith

-- The last event of an id carries a number above the one that the events began from.
pub Rising-last_of :
    (id low : Option ℕ) (ps : List Projected) (q : Projected)
    → Rising id low ps
    → last_of id ps ≡ some q
    → follows low (lsn_of q) ≡ true
unfolding last_of
Rising-last_of id low [] q h e = cc
Rising-last_of id low (p ∷ ps) q h e = elim (Bool-cases (sql_eq id (id_of p))) [
  | inl mine ↦
      let tail : Rising id (lsn_of p) ps = rw mine at h.1 in
      elim (Option-cases (last_of id ps)) [
        | inl over ↦ ground (arith, h.0 mine)
        | inr (r, f) ↦ ground (
          arith,
          h.0 mine,
          Rising-last_of id (lsn_of p) ps r tail f,
          follows_trans low (lsn_of p) (lsn_of r),
        )
      ]
  | inr other ↦
      let tail : Rising id low ps = rw other at h.1 in
      Rising-last_of id low ps q tail (ground arith)
]

follows-ranks :
    (p q : Projected)
    → follows (lsn_of p) (lsn_of q) ≡ true
    → ranks_before (lsn_of q) q.kafka_offset (lsn_of p) p.kafka_offset ≡ true
unfolding ranks_before
follows-ranks p q h = ground arith

-- Where the numbers of an id rise, the window keeps the id's last event.
pub find-latest_per_key :
    (id : ℕ) (low : Option ℕ) (ps : List Projected)
    → Rising (some id) low ps
    → find_projected (some id) (latest_per_key ps) ≡ last_of (some id) ps
unfolding latest_per_key last_of
find-latest_per_key id low [] h = unfold find_projected in refl
find-latest_per_key id low (p ∷ ps) h = elim (Bool-cases (sql_eq (some id) (id_of p))) [
  | inl mine ↦
      let tail : Rising (some id) (lsn_of p) ps = rw mine at h.1 in
      elim (Option-cases (last_of (some id) ps)) [
        | inl over ↦ ground (
          arith,
          mine,
          find-keep_latest id p (latest_per_key ps),
          find-latest_per_key id (lsn_of p) ps tail,
        )
        | inr (r, f) ↦ ground (
          arith,
          mine,
          find-keep_latest id p (latest_per_key ps),
          find-latest_per_key id (lsn_of p) ps tail,
          follows-ranks p r (Rising-last_of (some id) (lsn_of p) ps r tail f),
        )
      ]
  | inr other ↦
      let tail : Rising (some id) low ps = rw other at h.1 in
      ground (
        arith,
        other,
        find-keep_latest id p (latest_per_key ps),
        find-latest_per_key id low ps tail,
      )
]

-- As the MERGE finds it in the change set.
pub find_source-map :
    (id : Option ℕ) (ps : List Projected)
    → find_source id (map (λ (p : Projected). p.change) ps)
      ≡ elim (find_projected id ps) [ none ↦ none | some p ↦ some p.change ]
unfolding find_source find_projected
find_source-map id [] = refl
find_source-map id (p ∷ ps) = ground (arith, find_source-map id ps)

find_projected-null : (ps : List Projected) → find_projected none ps ≡ none
unfolding find_projected sql_eq
find_projected-null [] = refl
find_projected-null (p ∷ ps) = ground (arith, find_projected-null ps)

abbrev OnePerKey : List Projected → Type 0
OnePerKey [] = Unit
OnePerKey (p ∷ ps) = (find_projected (id_of p) ps ≡ none) × OnePerKey ps

same_group-sql_eq : (a : Option ℕ) (id : ℕ) → same_group a (some id) ≡ sql_eq (some id) a
unfolding same_group sql_eq
same_group-sql_eq none id = refl
same_group-sql_eq (some a) id = ground arith

same_group-eq : (a b : Option ℕ) → same_group a b ≡ true → a ≡ b
unfolding same_group
same_group-eq none none h = refl
same_group-eq none (some b) h = cc
same_group-eq (some a) none h = cc
same_group-eq (some a) (some b) h = ground arith

absent-keep_latest :
    (id : Option ℕ) (p : Projected) (qs : List Projected)
    → find_projected id qs ≡ none
    → same_group (id_of p) id ≡ false
    → find_projected id (keep_latest p qs) ≡ none
absent-keep_latest none p qs h d = find_projected-null (keep_latest p qs)
absent-keep_latest (some id) p qs h d =
    ground (arith, find-keep_latest id p qs, same_group-sql_eq (id_of p) id)

OnePerKey-keep_latest :
    (p : Projected) (qs : List Projected) → OnePerKey qs → OnePerKey (keep_latest p qs)
unfolding keep_latest
OnePerKey-keep_latest p [] h = (unfold find_projected in refl, tt)
OnePerKey-keep_latest p (q ∷ qs) h = elim (Bool-cases (same_group (id_of p) (id_of q))) [
  | inl same ↦ rw same (ground (arith, h.0, same_group-eq (id_of p) (id_of q) same), h.1)
  | inr other ↦
      rw other (absent-keep_latest (id_of q) p qs h.0 other, OnePerKey-keep_latest p qs h.1)
]

OnePerKey-latest : (ps : List Projected) → OnePerKey (latest_per_key ps)
unfolding latest_per_key
OnePerKey-latest [] = tt
OnePerKey-latest (p ∷ ps) = OnePerKey-keep_latest p (latest_per_key ps) (OnePerKey-latest ps)

UniqueChanges-map :
    (ps : List Projected) → OnePerKey ps → UniqueChanges (map (λ (p : Projected). p.change) ps)
UniqueChanges-map [] h = tt
UniqueChanges-map (p ∷ ps) h =
    (ground (arith, find_source-map (id_of p) ps, h.0), UniqueChanges-map ps h.1)

-- The change set of a batch names no id twice, whatever the batch holds.
pub latest_per_key-UniqueChanges :
    (ps : List Projected) → UniqueChanges (map (λ (p : Projected). p.change) (latest_per_key ps))
latest_per_key-UniqueChanges ps = UniqueChanges-map (latest_per_key ps) (OnePerKey-latest ps)
