-- ===== src/Medallion/Silver.antt =====
-- The silver job (config/spark/jobs/silver_payments.py): one micro-batch of bronze rows against the
-- silver table and the dead-letter table. Spark's column functions are a parameter.
pub mod Latest
pub mod Converge
pub mod Quality
use payments_data_platform.Base.{
  ℕ, zero, suc, ◌+◌, String, Bool, true, false, not, Option, none, some, List, [], ◌∷◌, ◌++◌, map,
  filter, count, any, ltb, ◌==◌, str_eq, ◌&&◌, ◌||◌, Result, ok, err, is_some, if◌then◌else◌,
}
use payments_data_platform.Base.Int.{ℤ, is_negative}
use payments_data_platform.Medallion.Rules.{
  SilverRow, Change, contains, cdc_upsert_ops, cdc_ops, allowed_payment_methods,
  allowed_payment_statuses, sql_eq, silver_merge,
}
use payments_data_platform.Medallion.Rules.Dlq.{DlqRow, MergeError, dlq_merge}
use payments_data_platform.Medallion.Validate.{Spark, validate_upserts}

pub record BronzeRow : Type 0 where
  pub kafka_partition : ℕ
  pub kafka_offset : ℕ
  pub kafka_value : Option String

-- A projected row before `_kafka_offset` is dropped.
pub record Projected : Type 0 where
  pub change : Change
  pub kafka_offset : ℕ

pub record Lakehouse : Type 0 where
  pub silver : List SilverRow
  pub dlq : List DlqRow

abbrev and_then : Option String → (String → Option ℕ) → Option ℕ
and_then none f = none
and_then (some s) f = f s

abbrev and_then_ℤ : Option String → (String → Option ℤ) → Option ℤ
and_then_ℤ none f = none
and_then_ℤ (some s) f = f s

abbrev on_text : (String → String) → Option String → Option String
on_text f none = none
on_text f (some s) = some (f s)

abbrev coalesce : Option String → Option String → Option String
coalesce none b = b
coalesce (some a) b = some a

abbrev pub text_or : Option String → String
text_or none = ""
text_or (some s) = s

module _ (k : Spark) where
  open k use {
    get_json_object, cast_long, cast_decimal, micros_to_timestamp, upper, lower, trim,
    regexp_replace, rlike,
  }

  -- `get_json_object(col("kafka_value"), path)`
  pub json_path : String → BronzeRow → Option String
  json_path path r = elim r.kafka_value [ none ↦ none | some v ↦ get_json_object v path ]

  -- The projection of `_build_changes`. The operation is not null here: the job has put such rows
  -- aside.
  unfoldable pub project : ℕ → BronzeRow → Projected
  unfolding json_path
  project now r = record {
    change = record {
      op = text_or (json_path "$.op" r);
      row = record {
        payment_id =
            and_then
              (coalesce (json_path "$.after.payment_id" r) (json_path "$.before.payment_id" r))
              cast_long;
        merchant_id = and_then (json_path "$.after.merchant_id" r) cast_long;
        amount = and_then_ℤ (json_path "$.after.amount" r) cast_decimal;
        currency = on_text (λ s. upper (trim s)) (json_path "$.after.currency" r);
        payment_method =
            on_text (λ s. regexp_replace (lower (trim s)) "\\s+" "_")
              (json_path "$.after.payment_method" r);
        payment_status =
            on_text (λ s. regexp_replace (lower (trim s)) "\\s+" "_")
              (json_path "$.after.payment_status" r);
        country_code = on_text (λ s. upper (trim s)) (json_path "$.after.country_code" r);
        created_at =
            and_then
              (coalesce (json_path "$.after.created_at" r) (json_path "$.before.created_at" r))
              micros_to_timestamp;
        updated_at =
            and_then
              (coalesce (json_path "$.after.updated_at" r) (json_path "$.before.updated_at" r))
              micros_to_timestamp;
        source_lsn = and_then (json_path "$.source.lsn" r) cast_long;
        ingested_at = now;
      };
    };
    kafka_offset = r.kafka_offset;
  }

-- The window's partition: nulls are one group.
pub same_group : Option ℕ → Option ℕ → Bool
same_group none none = true
same_group none (some b) = false
same_group (some a) none = false
same_group (some a) (some b) = a == b

-- The window's order: `source_lsn` descending with nulls last, then the offset descending.
pub ranks_before : Option ℕ → ℕ → Option ℕ → ℕ → Bool
ranks_before none o none u = ltb u o
ranks_before none o (some m) u = false
ranks_before (some n) o none u = true
ranks_before (some n) o (some m) u = ltb m n || (n == m && ltb u o)

-- `row_number() == 1` within each group; among rows that tie the engine may take any, here the one
-- that comes first.
pub keep_latest : Projected → List Projected → List Projected
unfolding same_group ranks_before
keep_latest p [] = p ∷ []
keep_latest p (q ∷ qs) =
    if same_group p.change.row.payment_id q.change.row.payment_id
    then (if ranks_before q.change.row.source_lsn q.kafka_offset p.change.row.source_lsn
          p.kafka_offset
        then q
        else p)
      ∷ qs
    else q ∷ keep_latest p qs

pub latest_per_key : List Projected → List Projected
unfolding keep_latest
latest_per_key [] = []
latest_per_key (p ∷ ps) = keep_latest p (latest_per_key ps)

-- `_build_changes`
pub build_changes : Spark → ℕ → List BronzeRow → List Change
unfolding project latest_per_key
build_changes k now rs = map (λ p. p.change) (latest_per_key (map (project k now) rs))

-- `_write_to_dlq`
abbrev pub written :
    Result MergeError (List DlqRow) → List DlqRow → Result MergeError (Unit {0}) × List DlqRow
written (ok after) before = (ok tt, after)
written (err e) before = (err e, before)

pub write_to_dlq :
    ℕ → ℕ → String → List BronzeRow → List DlqRow → Result MergeError (Unit {0}) × List DlqRow
unfolding dlq_merge
write_to_dlq now batch_id reason [] dlq = (ok tt, dlq)
write_to_dlq now batch_id reason (r ∷ rs) dlq =
    written
      (dlq_merge dlq (
        map
          (λ (b : BronzeRow). record {
            kafka_partition = b.kafka_partition;
            kafka_offset = b.kafka_offset;
            kafka_value = b.kafka_value;
            batch_id = batch_id;
            error_reason = reason;
            ingested_at = now;
          })
          (r ∷ rs)))
      dlq

abbrev pub op_in : List String → Option String → Bool
op_in ops none = false
op_in ops (some op) = contains ops op

-- With no failure the batch's effect stands.
abbrev pub accept :
    List (String × ℕ) → Lakehouse → Lakehouse → Result (List (String × ℕ)) (Unit {0}) × Lakehouse
accept [] merged l = (ok tt, merged)
accept (f ∷ fs) merged l = (err (f ∷ fs), l)

-- The change set: raise, or apply it to silver. An empty change set is the early return.
pub apply_changes :
    Spark → List Change → Lakehouse → Result (List (String × ℕ)) (Unit {0}) × Lakehouse
unfolding validate_upserts
apply_changes k [] l = (ok tt, l)
apply_changes k (c ∷ cs) l =
    let upserts =
      map (λ (d : Change). d.row) (filter (λ d. contains cdc_upsert_ops d.op) (c ∷ cs)) in
    accept (validate_upserts k upserts) (record l { silver = silver_merge l.silver (c ∷ cs) }) l

-- `_upsert_to_silver`, in its parts: `records` and `known_ops` of a batch, the rows that it puts
-- aside with their reason, and the rows that it goes on with.
abbrev pub records : List BronzeRow → List BronzeRow
records batch = filter (λ (r : BronzeRow). is_some r.kafka_value) batch

abbrev pub known_ops : Spark → List BronzeRow → List BronzeRow
known_ops k batch = filter (λ (r : BronzeRow). is_some (json_path k "$.op" r)) (records batch)

abbrev pub processable : Spark → List BronzeRow → List BronzeRow
processable k batch =
    filter (λ (r : BronzeRow). op_in cdc_ops (json_path k "$.op" r)) (known_ops k batch)

abbrev pub then_write :
    Result MergeError (Unit {0}) × List DlqRow
    → (List DlqRow → Result MergeError (Unit {0}) × List DlqRow)
    → Result MergeError (Unit {0}) × List DlqRow
then_write (ok u, dlq) next = next dlq
then_write (err e, dlq) next = (err e, dlq)

pub dead_letters :
    Spark → ℕ → List BronzeRow → ℕ → List DlqRow → Result MergeError (Unit {0}) × List DlqRow
unfolding write_to_dlq
dead_letters k now batch batch_id dlq =
    let malformed =
      filter (λ (r : BronzeRow). not (is_some (json_path k "$.op" r))) (records batch) in
    let unexpected =
      filter (λ (r : BronzeRow). not (op_in cdc_ops (json_path k "$.op" r))) (known_ops k batch) in
    then_write (write_to_dlq now batch_id "null_op" malformed dlq)
      (write_to_dlq now batch_id "unexpected_op" unexpected)

-- The engine's exception carries no list of failed checks, which is left empty.
abbrev pub after_dlq :
    Spark
    → List Change
    → Lakehouse
    → Result MergeError (Unit {0}) × List DlqRow
    → Result (List (String × ℕ)) (Unit {0}) × Lakehouse
after_dlq k cs l (ok u, dlq) = apply_changes k cs (record l { dlq = dlq })
after_dlq k cs l (err e, dlq) = (err [], record l { dlq = dlq })

-- The dead-letter rows stay written when the validation raises.
pub upsert_to_silver :
    Spark → ℕ → List BronzeRow → ℕ → Lakehouse → Result (List (String × ℕ)) (Unit {0}) × Lakehouse
unfolding build_changes dead_letters apply_changes
upsert_to_silver k now batch batch_id l =
    after_dlq k (build_changes k now (processable k batch)) l
      (dead_letters k now batch batch_id l.dlq)
