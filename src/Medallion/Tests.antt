-- ===== src/Medallion/Tests.antt =====
-- The medallion's theorems at concrete inputs.
use payments_data_platform.Base.{
  ℕ, zero, suc, String, str_eq, ◌≡◌, refl, true, Option, none, some, List, [], ◌∷◌, All, map,
  if◌then◌else◌,
}
use payments_data_platform.Base.Int.{pos}
use payments_data_platform.Medallion.Rules.{
  SilverRow, Change, silver_merge, newer, contains, find_source, sql_eq,
}
use payments_data_platform.Medallion.Rules.Merged.{Unique, lookup_row}
use payments_data_platform.Medallion.Rules.Outcome.{outcome_of, lookup-silver_merge}
use payments_data_platform.Medallion.Rules.Distinct.{silver_merge-Unique}
use payments_data_platform.Medallion.Rules.Dlq.{DlqRow, dlq_key, dlq_merge, dlq_merge_replay}
use payments_data_platform.Base.{filter, ◌↔◌, ok}
use payments_data_platform.Medallion.Gold.{GroupKey, gold}
use payments_data_platform.Medallion.Gold.Groups.{
  find_group, aggregate_any, in_group, find-gold, gold-totals, total_count, DistinctGroups,
}
use payments_data_platform.Medallion.Bronze.{
  Json, object, number, quoted, Fields, no_fields, field, Python, BronzeRecord,
  assert_no_replayed_offsets,
}
use payments_data_platform.Medallion.Bronze.Masked.{path}
use payments_data_platform.Medallion.Bronze.Replay.{DistinctOffsets, assert-DistinctOffsets}
use payments_data_platform.Medallion.Silver.{BronzeRow, Lakehouse, project}
use payments_data_platform.Medallion.Validate.{Spark}
use payments_data_platform.Medallion.Silver.Converge.{
  Batch, events, run_batches, run_batches_settles, stale_upsert_returns,
}
use payments_data_platform.Medallion.Silver.Converge.Agree.{undated_row, batches_agree}
use payments_data_platform.Medallion.Silver.Converge.Step.{settle}
use payments_data_platform.Medallion.Silver.Quality.{IsClean}
use payments_data_platform.Medallion.Silver.Quality.Kept.{run_batches-IsClean}

abbrev truncated : ℕ → ℕ
truncated t = 0

abbrev a_row : ℕ → ℕ → SilverRow
a_row id lsn = record {
  payment_id = some id;
  merchant_id = some 4;
  amount = some (pos 1500);
  currency = some "EUR";
  payment_method = some "card";
  payment_status = some "pending";
  country_code = some "FR";
  created_at = some 10;
  updated_at = some 12;
  source_lsn = some lsn;
  ingested_at = 20;
}

abbrev upsert : ℕ → ℕ → Change
upsert id lsn = record { op = "u"; row = a_row id lsn }

abbrev delete : ℕ → ℕ → Change
delete id lsn = record { op = "d"; row = a_row id lsn }

abbrev two_rows : List SilverRow
two_rows = a_row 1 5 ∷ a_row 2 5 ∷ []

abbrev two_changes : List Change
two_changes = upsert 2 9 ∷ delete 1 4 ∷ upsert 3 1 ∷ []

lookup-silver_merge_example :
    lookup_row (some 2) (silver_merge two_rows two_changes)
    ≡ outcome_of (find_source (some 2) two_changes) (lookup_row (some 2) two_rows)
unfolding lookup_row find_source sql_eq
lookup-silver_merge_example =
    lookup-silver_merge two_rows two_changes 2 (refl, (refl, tt)) (refl, (refl, (refl, tt)))

silver_merge-Unique_example : Unique (silver_merge two_rows two_changes)
unfolding lookup_row find_source sql_eq
silver_merge-Unique_example =
    silver_merge-Unique two_rows two_changes (refl, (refl, tt)) (refl, (refl, (refl, tt)))

abbrev reject : ℕ → ℕ → DlqRow
reject offset batch_id = record {
  kafka_partition = 0;
  kafka_offset = offset;
  kafka_value = some "{}";
  batch_id = batch_id;
  error_reason = "null_op";
  ingested_at = 20;
}

dlq_merge_replay_example :
    (once : List DlqRow) × (twice : List DlqRow) × (dlq_merge
        (reject 1 1 ∷ [])
        (reject 1 2 ∷ reject 2 2 ∷ [])
      ≡ ok once)
    × (dlq_merge once (reject 1 3 ∷ reject 2 3 ∷ []) ≡ ok twice)
    × (map dlq_key twice ≡ map dlq_key once)
dlq_merge_replay_example =
    dlq_merge_replay (reject 1 1 ∷ []) (reject 1 2 ∷ reject 2 2 ∷ []) (reject 1 3 ∷ reject 2 3 ∷ [])
      (refl, (refl, tt)) refl

-- An envelope here is a text of x's, as long as its sequence number; three make a delete.
x_count : String → ℕ
x_count String.[] = zero
x_count (String.◌∷◌ c s) = suc (x_count s)

abbrev column : String → String → Option String
column value path =
    if str_eq path "$.op"
    then some (if str_eq value "xxx" then "d" else "u")
    else if str_eq path "$.after.payment_id"
    then some "1"
    else if str_eq path "$.after.payment_method"
    then some "card"
    else if str_eq path "$.after.payment_status"
    then some "pending"
    else some value

abbrev toy_spark : Spark
toy_spark = record {
  get_json_object = column;
  cast_long = λ s. some (x_count s);
  cast_decimal = λ s. some (pos 1500);
  micros_to_timestamp = λ s. some 10;
  upper = λ s. s;
  lower = λ s. s;
  trim = λ s. s;
  regexp_replace = λ s p t. s;
  rlike = λ s p. true;
}

abbrev bronze : ℕ → String → BronzeRow
bronze offset value = record {
  kafka_partition = 0;
  kafka_offset = offset;
  kafka_value = some value;
}

abbrev first_cut : List Batch
first_cut =
    record { now = 30; batch_id = 1; rows = bronze 1 "x" ∷ [] }
    ∷ record {
      now = 30;
      batch_id = 2;
      rows = bronze 2 "xx" ∷ bronze 3 "xxx" ∷ bronze 4 "xxxx" ∷ [];
    }
    ∷ []

abbrev second_cut : List Batch
second_cut =
    record { now = 31; batch_id = 1; rows = bronze 1 "x" ∷ bronze 2 "xx" ∷ bronze 3 "xxx" ∷ [] }
    ∷ record { now = 32; batch_id = 2; rows = bronze 4 "xxxx" ∷ [] }
    ∷ []

abbrev empty_lake : Lakehouse
empty_lake = record { silver = []; dlq = [] }

run_batches_settles_example :
    lookup_row (some 1) (run_batches toy_spark first_cut empty_lake).1.silver
    ≡ settle 1 (events toy_spark first_cut) none
unfolding run_batches project x_count sql_eq lookup_row
run_batches_settles_example =
    run_batches_settles toy_spark 1 none first_cut empty_lake tt tt
      ((λ e. refl), ((λ e. refl), ((λ e. refl), ((λ e. refl), tt)))) refl

batches_agree_example :
    undated_row (lookup_row (some 1) (run_batches toy_spark first_cut empty_lake).1.silver)
    ≡ undated_row (lookup_row (some 1) (run_batches toy_spark second_cut empty_lake).1.silver)
unfolding run_batches project x_count sql_eq
batches_agree_example =
    batches_agree toy_spark 1 first_cut second_cut empty_lake refl refl
      ((λ e. refl), ((λ e. refl), ((λ e. refl), ((λ e. refl), tt)))) refl refl

stale_upsert_returns_example :
    lookup_row (some 1) (silver_merge (silver_merge two_rows (delete 1 9 ∷ [])) (upsert 1 7 ∷ []))
    ≡ some (a_row 1 7)
unfolding lookup_row newer contains sql_eq
stale_upsert_returns_example =
    stale_upsert_returns two_rows 1 (a_row 1 5) (delete 1 9) (upsert 1 7) (refl, (refl, tt)) refl
      refl refl refl refl refl

run_batches-IsClean_example :
    All (IsClean toy_spark) (run_batches toy_spark first_cut empty_lake).1.silver
run_batches-IsClean_example = run_batches-IsClean toy_spark first_cut empty_lake tt

abbrev card_group : GroupKey
card_group = record {
  payment_hour = some 0;
  country_code = some "FR";
  payment_method = some "card";
}

find-gold_example :
    find_group card_group (gold truncated two_rows)
    ≡ aggregate_any (filter (in_group truncated card_group) two_rows)
find-gold_example = find-gold truncated card_group two_rows

gold-totals_example :
    (total_count (gold truncated two_rows) ≡ 2) × DistinctGroups (gold truncated two_rows)
gold-totals_example = gold-totals truncated two_rows

abbrev python : Python
python = record { loads = λ s. none; dumps = λ j. "{}"; str = λ j. "42"; sha256 = λ s. "digest" }

abbrev envelope : Fields
envelope = field "before" Json.null (
    field "after"
      (object (field "shopper_id" (number "42") (field "amount" (quoted "15.00") no_fields)))
      no_fields)

abbrev kafka_record : ℕ → BronzeRecord
kafka_record offset = record {
  kafka_topic = "payments";
  kafka_partition = 0;
  kafka_offset = offset;
  kafka_value = none;
}

assert-DistinctOffsets_example :
    (assert_no_replayed_offsets (kafka_record 1 ∷ kafka_record 2 ∷ []) ≡ ok tt)
    ↔ DistinctOffsets (kafka_record 1 ∷ kafka_record 2 ∷ [])
assert-DistinctOffsets_example = assert-DistinctOffsets (kafka_record 1 ∷ kafka_record 2 ∷ [])
