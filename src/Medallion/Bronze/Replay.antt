-- ===== src/Medallion/Bronze/Replay.antt =====
-- `assert_no_replayed_offsets` of config/spark/jobs/bronze_from_kafka.py against distinctness.
use payments_data_platform.Base.{
  ◌≡◌, ◌≢◌, ℕ, String, Bool, true, refl, false, List, [], ◌∷◌, any, All, ok, eq_iff, arith,
  Bool-cases, inl, inr, ◌↔◌,
}
use payments_data_platform.Medallion.Bronze.{
  BronzeRecord, same_offset, duplicate_offsets, none_offending, assert_no_replayed_offsets,
}

abbrev pub coordinates : BronzeRecord → String × ℕ × ℕ
coordinates r = (r.kafka_topic, r.kafka_partition, r.kafka_offset)

-- No two records share their topic, partition and offset.
abbrev pub DistinctOffsets : List BronzeRecord → Type 0
DistinctOffsets [] = Unit
DistinctOffsets (r ∷ rs) = All (λ s. coordinates r ≢ coordinates s) rs × DistinctOffsets rs

differ : (b : Bool) → b ≡ true → b ≡ false → ⊥
differ b h j = cc

same_offset-eq : (a b : BronzeRecord) → same_offset a b ≡ true → coordinates a ≡ coordinates b
unfolding same_offset
same_offset-eq a b h =
    let p : a.kafka_topic ≡ b.kafka_topic = ground (arith, h, eq_iff a.kafka_topic b.kafka_topic) in
    let q : a.kafka_partition ≡ b.kafka_partition = ground (arith, h) in
    let r : a.kafka_offset ≡ b.kafka_offset = ground (arith, h) in λ i. (p i, q i, r i)

eq-same_offset : (a b : BronzeRecord) → coordinates a ≡ coordinates b → same_offset a b ≡ true
unfolding same_offset
eq-same_offset a b e =
    let p : a.kafka_topic ≡ b.kafka_topic = λ i. (e i).0 in
    let q : a.kafka_partition ≡ b.kafka_partition = λ i. (e i).1 in
    let r : a.kafka_offset ≡ b.kafka_offset = λ i. (e i).2 in
    ground (arith, p, q, r, eq_iff a.kafka_topic b.kafka_topic)

absent-distinct :
    (r : BronzeRecord) (rs : List BronzeRecord)
    → any (same_offset r) rs ≡ false
    → All (λ s. coordinates r ≢ coordinates s) rs
absent-distinct r [] h = tt
absent-distinct r (s ∷ rs) h = (
  λ e. differ (same_offset r s) (eq-same_offset r s e) (ground (arith, h)),
  absent-distinct r rs (ground (arith, h)),
)

distinct-absent :
    (r : BronzeRecord) (rs : List BronzeRecord)
    → All (λ s. coordinates r ≢ coordinates s) rs
    → any (same_offset r) rs ≡ false
distinct-absent r [] h = refl
distinct-absent r (s ∷ rs) h = elim (Bool-cases (same_offset r s)) [
  | inl same ↦ absurd (h.0 (same_offset-eq r s same))
  | inr other ↦ rw other (distinct-absent r rs h.1)
]

abbrev NoneSeen : List BronzeRecord → List BronzeRecord → Type 0
NoneSeen seen rs = All (λ r. any (same_offset r) seen ≡ false) rs

same_offset_comm : (a b : BronzeRecord) → same_offset a b ≡ same_offset b a
unfolding same_offset
same_offset_comm a b =
    ground (arith, eq_iff a.kafka_topic b.kafka_topic, eq_iff b.kafka_topic a.kafka_topic)

NoneSeen-cons :
    (r : BronzeRecord) (seen rs : List BronzeRecord)
    → any (same_offset r) rs ≡ false
    → NoneSeen seen rs
    → NoneSeen (r ∷ seen) rs
NoneSeen-cons r seen [] h n = tt
NoneSeen-cons r seen (s ∷ rs) h n =
    (ground (arith, h, n.0, same_offset_comm r s), NoneSeen-cons r seen rs (ground (arith, h)) n.1)

NoneSeen-nil : (rs : List BronzeRecord) → NoneSeen [] rs
NoneSeen-nil [] = tt
NoneSeen-nil (r ∷ rs) = (refl, NoneSeen-nil rs)

cons-nil : (r : BronzeRecord) (rs : List BronzeRecord) → r ∷ rs ≡ [] → ⊥
cons-nil r rs h = cc

distinct :
    (seen rs : List BronzeRecord)
    → NoneSeen seen rs
    → duplicate_offsets seen rs ≡ []
    → DistinctOffsets rs
unfolding duplicate_offsets
distinct seen [] n h = tt
distinct seen (r ∷ rs) n h = elim (Bool-cases (any (same_offset r) rs)) [
  | inl again ↦ absurd (cons-nil r (duplicate_offsets (r ∷ seen) rs) (rw n.0 at (rw again at h)))
  | inr once ↦
      let rest : duplicate_offsets (r ∷ seen) rs ≡ [] = rw n.0 at (rw once at h) in
      (absent-distinct r rs once, distinct (r ∷ seen) rs (NoneSeen-cons r seen rs once n.1) rest)
]

no_duplicates :
    (seen rs : List BronzeRecord)
    → NoneSeen seen rs
    → DistinctOffsets rs
    → duplicate_offsets seen rs ≡ []
unfolding duplicate_offsets
no_duplicates seen [] n d = refl
no_duplicates seen (r ∷ rs) n d =
    let once = distinct-absent r rs d.0 in
    rw n.0 (rw once (no_duplicates (r ∷ seen) rs (NoneSeen-cons r seen rs once n.1) d.1))

none_offending-nil : (rs : List BronzeRecord) → none_offending rs ≡ ok tt → rs ≡ []
none_offending-nil [] h = refl
none_offending-nil (r ∷ rs) h = cc

-- The check passes exactly where no two records of bronze share their topic, partition and offset.
pub assert-DistinctOffsets :
    (bronze : List BronzeRecord)
    → (assert_no_replayed_offsets bronze ≡ ok tt) ↔ DistinctOffsets bronze
unfolding assert_no_replayed_offsets
assert-DistinctOffsets bronze = (
  λ h.
      distinct [] bronze (NoneSeen-nil bronze) (none_offending-nil (duplicate_offsets [] bronze) h),
  λ d. rw (no_duplicates [] bronze (NoneSeen-nil bronze) d) refl,
)
