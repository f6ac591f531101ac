-- ===== src/Medallion/Rules/Dlq.antt =====
-- `dlq_merge_sql` of config/spark/jobs/payment_rules.py: the dead-letter table under its MERGE,
-- which is keyed by the Kafka coordinates.
use payments_data_platform.Base.{
  ℕ, ◌≡◌, refl, ap, sym, ◌∙◌, Bool, true, false, Option, none, some, String, List, [], ◌∷◌, ◌++◌,
  map, ◌&&◌, arith, ◌==◌, append-nil, if◌then◌else◌, inl, inr, Bool-cases, any, count, ltb, ◌≤◌,
  Result, ok, err,
}

pub record DlqRow : Type 0 where
  pub kafka_partition : ℕ
  pub kafka_offset : ℕ
  pub kafka_value : Option String
  pub batch_id : ℕ
  pub error_reason : String
  pub ingested_at : ℕ

-- `DLQ_KEY`
abbrev pub dlq_key : DlqRow → ℕ × ℕ
dlq_key r = (r.kafka_partition, r.kafka_offset)

abbrev same_key : ℕ × ℕ → ℕ × ℕ → Bool
same_key (p, o) (q, u) = p == q && o == u

pub find_dlq : ℕ × ℕ → List DlqRow → Option DlqRow
find_dlq k [] = none
find_dlq k (s ∷ ss) = if same_key k (dlq_key s) then some s else find_dlq k ss

-- WHEN MATCHED THEN UPDATE: every column but the key.
abbrev pub dlq_update : Option DlqRow → DlqRow → DlqRow
dlq_update none t = t
dlq_update (some s) t = record s {
  kafka_partition = t.kafka_partition;
  kafka_offset = t.kafka_offset;
}

pub dlq_updates : List DlqRow → List DlqRow → List DlqRow
unfolding find_dlq
dlq_updates source [] = []
dlq_updates source (t ∷ ts) = dlq_update (find_dlq (dlq_key t) source) t ∷ dlq_updates source ts

pub dlq_has : ℕ × ℕ → List DlqRow → Bool
dlq_has k [] = false
dlq_has k (t ∷ ts) = if same_key k (dlq_key t) then true else dlq_has k ts

-- WHEN NOT MATCHED THEN INSERT
pub dlq_inserts : List DlqRow → List DlqRow → List DlqRow
unfolding dlq_has
dlq_inserts target [] = []
dlq_inserts target (s ∷ ss) =
    if dlq_has (dlq_key s) target then dlq_inserts target ss else s ∷ dlq_inserts target ss

pub dlq_merged : List DlqRow → List DlqRow → List DlqRow
unfolding dlq_updates dlq_inserts
dlq_merged target source = dlq_updates source target ++ dlq_inserts target source

-- The engine raises where a target row matches more than one source row.
pub data MergeError : Type 0 where
  several_matches : MergeError

pub is_ambiguous : List DlqRow → List DlqRow → Bool
is_ambiguous target source =
    any (λ t. ltb 1 (count (same_key (dlq_key t)) (map dlq_key source))) target

unfoldable pub dlq_merge : List DlqRow → List DlqRow → Result MergeError (List DlqRow)
unfolding is_ambiguous dlq_merged
dlq_merge target source =
    if is_ambiguous target source then err several_matches else ok (dlq_merged target source)

keys-updates : (source ts : List DlqRow) → map dlq_key (dlq_updates source ts) ≡ map dlq_key ts
unfolding dlq_updates
keys-updates source [] = refl
keys-updates source (t ∷ ts) = ground (arith, keys-updates source ts)

-- Whether a key is in a table depends on the table's keys alone.
has-keys :
    (k : ℕ × ℕ) (ts us : List DlqRow)
    → map dlq_key ts ≡ map dlq_key us
    → dlq_has k ts ≡ dlq_has k us
unfolding dlq_has
has-keys k [] [] h = refl
has-keys k [] (u ∷ us) h = cc
has-keys k (t ∷ ts) [] h = cc
has-keys k (t ∷ ts) (u ∷ us) h = ground (arith, has-keys k ts us (cc))

has-append :
    (k : ℕ × ℕ) (ts us : List DlqRow)
    → dlq_has k (ts ++ us) ≡ (if dlq_has k ts then true else dlq_has k us)
unfolding dlq_has
has-append k [] us = refl
has-append k (t ∷ ts) us = ground (arith, has-append k ts us)

-- After the MERGE every source row's key is in the target.
abbrev AllIn : List DlqRow → List DlqRow → Type 0
AllIn target [] = Unit
AllIn target (s ∷ ss) = (dlq_has (dlq_key s) target ≡ true) × AllIn target ss

inserts-AllIn : (target source : List DlqRow) → AllIn target source → dlq_inserts target source ≡ []
unfolding dlq_inserts
inserts-AllIn target [] h = refl
inserts-AllIn target (s ∷ ss) h = ground (arith, inserts-AllIn target ss h.1)

AllIn-merged :
    (x target ss : List DlqRow)
    → ((k : ℕ × ℕ) → dlq_has k target ≡ true → dlq_has k x ≡ true)
    → ((k : ℕ × ℕ) → dlq_has k (dlq_inserts target ss) ≡ true → dlq_has k x ≡ true)
    → AllIn x ss
unfolding dlq_inserts dlq_has
AllIn-merged x target [] old new = tt
AllIn-merged x target (s ∷ ss) old new = (
  elim (Bool-cases (dlq_has (dlq_key s) target)) [
    | inl there ↦ old (dlq_key s) there
    | inr absent ↦ new (dlq_key s) (ground arith)
  ],
  AllIn-merged x target ss old (λ k h. new k (ground arith)),
)

AllIn-keys : (x ss us : List DlqRow) → map dlq_key ss ≡ map dlq_key us → AllIn x ss → AllIn x us
AllIn-keys x [] [] e h = tt
AllIn-keys x [] (u ∷ us) e h = cc
AllIn-keys x (s ∷ ss) [] e h = cc
AllIn-keys x (s ∷ ss) (u ∷ us) e h =
    (ap (λ (k : ℕ × ℕ). dlq_has k x) (sym (cc e)) ∙ h.0, AllIn-keys x ss us (cc e) h.1)

-- The merged table has the key of every source row.
merged-AllIn : (target source : List DlqRow) → AllIn (dlq_merged target source) source
unfolding dlq_merged
merged-AllIn target source =
    AllIn-merged (dlq_updates source target ++ dlq_inserts target source) target source
      (λ k h. ground (
        arith,
        has-append k (dlq_updates source target) (dlq_inserts target source),
        has-keys k (dlq_updates source target) target (keys-updates source target),
      ))
      (λ k h. ground (arith, has-append k (dlq_updates source target) (dlq_inserts target source)))

merged_again :
    (target source again : List DlqRow)
    → map dlq_key source ≡ map dlq_key again
    → map dlq_key (dlq_merged (dlq_merged target source) again)
      ≡ map dlq_key (dlq_merged target source)
merged_again target source again same =
    let x = dlq_merged target source in
    let none_new : dlq_inserts x again ≡ [] =
      inserts-AllIn x again (AllIn-keys x source again same (merged-AllIn target source)) in
    unfold dlq_merged in
    (ap (λ (zs : List DlqRow). map dlq_key (dlq_updates again x ++ zs)) none_new
      ∙ ap (map dlq_key) (append-nil (dlq_updates again x))
      ∙ keys-updates again x)

-- No Kafka coordinate stands twice.
abbrev pub DistinctKeys : List (ℕ × ℕ) → Type 0
DistinctKeys [] = Unit
DistinctKeys (k ∷ ks) = (any (same_key k) ks ≡ false) × DistinctKeys ks

same_key-same : (k j l : ℕ × ℕ) → same_key k j ≡ true → same_key k l ≡ true → same_key j l ≡ true
same_key-same (a, b) (c, d) (e, f) p q = ground arith

none_counted :
    (k : ℕ × ℕ) (ks : List (ℕ × ℕ)) → any (same_key k) ks ≡ false → count (same_key k) ks ≡ 0
none_counted k [] h = refl
none_counted k (j ∷ ks) h = elim (Bool-cases (same_key k j)) [
  | inl same ↦ absurd (cc (rw same at h))
  | inr other ↦ rw other (omega (arith, none_counted k ks (rw other at h)))
]

any-same :
    (k j : ℕ × ℕ) (ks : List (ℕ × ℕ))
    → same_key k j ≡ true
    → any (same_key j) ks ≡ false
    → any (same_key k) ks ≡ false
any-same k j [] same h = refl
any-same k j (l ∷ ks) same h = elim (Bool-cases (same_key k l)) [
  | inl bad ↦ absurd (cc (rw (same_key-same k j l same bad) at h))
  | inr good ↦ rw good (any-same k j ks same (ground (arith, h)))
]

counted_once : (k : ℕ × ℕ) (ks : List (ℕ × ℕ)) → DistinctKeys ks → count (same_key k) ks ≤ 1
counted_once k [] d = omega arith
counted_once k (j ∷ ks) d = elim (Bool-cases (same_key k j)) [
  | inl same ↦ rw same (omega (arith, none_counted k ks (any-same k j ks same d.0)))
  | inr other ↦ rw other (omega (arith, counted_once k ks d.1))
]

distinct_unambiguous :
    (target source : List DlqRow)
    → DistinctKeys (map dlq_key source)
    → is_ambiguous target source ≡ false
unfolding is_ambiguous
distinct_unambiguous [] source d = refl
distinct_unambiguous (t ∷ ts) source d =
    ground
      (arith, counted_once (dlq_key t) (map dlq_key source) d, distinct_unambiguous ts source d)

merges :
    (target source : List DlqRow)
    → DistinctKeys (map dlq_key source)
    → dlq_merge target source ≡ ok (dlq_merged target source)
unfolding dlq_merge
merges target source d = rw (distinct_unambiguous target source d) refl

-- If no Kafka coordinate stands twice among the rejects, then recording them passes, and recording
-- the same coordinates again, also with another batch id, reason or time, passes too, adds no row
-- and changes no key: the table has the same Kafka coordinates in the same order as after the first
-- time.
pub dlq_merge_replay :
    (target source again : List DlqRow)
    → DistinctKeys (map dlq_key source)
    → map dlq_key source ≡ map dlq_key again
    → (once : List DlqRow) × (twice : List DlqRow) × (dlq_merge target source ≡ ok once)
      × (dlq_merge once again ≡ ok twice)
      × (map dlq_key twice ≡ map dlq_key once)
dlq_merge_replay target source again d same =
    let once = dlq_merged target source in
    (
      once,
      dlq_merged once again,
      merges target source d,
      merges once again (rw same at d),
      merged_again target source again same,
    )
