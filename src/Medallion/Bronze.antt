-- ===== src/Medallion/Bronze.antt =====
-- The bronze job: `mask_pii_fields` and `bronze_duplicate_offsets_sql` of
-- config/spark/jobs/payment_rules.py, and the append and the check for replayed records of
-- config/spark/jobs/bronze_from_kafka.py. JSON's text form, `str` and SHA-256 are parameters.
pub mod Masked
pub mod Replay
use payments_data_platform.Base.{
  ℕ, String, Bool, true, false, not, Option, none, some, List, [], ◌∷◌, ◌++◌, any, length, take,
  Result, ok, err, str_eq, ◌&&◌, ◌||◌, ◌==◌, if◌then◌else◌,
}

-- A JSON value; an object's keys are distinct, as `json.loads` leaves them.
mutual
  pub data Json : Type 0 where
    null : Json
    boolean : Bool → Json
    number : String → Json
    quoted : String → Json
    array : Items → Json
    object : Fields → Json

  pub data Items : Type 0 where
    no_items : Items
    item : Json → Items → Items

  pub data Fields : Type 0 where
    no_fields : Fields
    field : String → Json → Fields → Fields

pub record Python : Type 0 where
  pub loads : String → Option Json
  pub dumps : Json → String
  pub str : Json → String
  pub sha256 : String → String

abbrev pub pii_field : String
pii_field = "shopper_id"

module _ (k : Python) where
  open k use {loads, dumps, str, sha256}

  -- The value of a field that holds PII: a null stays.
  abbrev pub digest : Json → Json
  digest null = null
  digest (boolean b) = quoted (sha256 (str (boolean b)))
  digest (number n) = quoted (sha256 (str (number n)))
  digest (quoted s) = quoted (sha256 (str (quoted s)))
  digest (array js) = quoted (sha256 (str (array js)))
  digest (object fs) = quoted (sha256 (str (object fs)))

  pub mask_section_fields : Fields → Fields
  mask_section_fields no_fields = no_fields
  mask_section_fields (field name v fs) =
      field name (if str_eq name pii_field then digest v else v) (mask_section_fields fs)

  -- A section that is no object is left alone.
  abbrev pub mask_section : Json → Json
  mask_section null = null
  mask_section (boolean b) = boolean b
  mask_section (number n) = number n
  mask_section (quoted s) = quoted s
  mask_section (array js) = array js
  mask_section (object fs) = object (mask_section_fields fs)

  pub mask_envelope : Fields → Fields
  unfolding mask_section_fields
  mask_envelope no_fields = no_fields
  mask_envelope (field name v fs) =
      field name (if str_eq name "before" || str_eq name "after" then mask_section v else v)
        (mask_envelope fs)

  -- `envelope.get` of a value that is no object raises an AttributeError, which is not caught.
  abbrev pub masked_text : Json → Result String String
  masked_text (object fs) = ok (dumps (object (mask_envelope fs)))
  masked_text null = err "AttributeError"
  masked_text (boolean b) = err "AttributeError"
  masked_text (number n) = err "AttributeError"
  masked_text (quoted s) = err "AttributeError"
  masked_text (array js) = err "AttributeError"

  abbrev pub masked_or_same : String → Option Json → Result String String
  masked_or_same value none = ok value
  masked_or_same value (some j) = masked_text j

  abbrev pub some_ok : Result String String → Result String (Option String)
  some_ok (ok s) = ok (some s)
  some_ok (err e) = err e

  pub mask_pii_fields : Option String → Result String (Option String)
  unfolding mask_envelope
  mask_pii_fields none = ok none
  mask_pii_fields (some value) = some_ok (masked_or_same value (loads value))

-- A row of bronze by its coordinates and its value.
pub record BronzeRecord : Type 0 where
  pub kafka_topic : String
  pub kafka_partition : ℕ
  pub kafka_offset : ℕ
  pub kafka_value : Option String

abbrev pub append_masked :
    BronzeRecord
    → Result String (Option String)
    → Result String (List BronzeRecord)
    → Result String (List BronzeRecord)
append_masked r (err e) rest = err e
append_masked r (ok v) (err e) = err e
append_masked r (ok v) (ok rs) = ok (record r { kafka_value = v } ∷ rs)

-- The column `mask_udf(col("kafka_value"))` of a micro-batch; one exception fails the batch.
pub masked_batch : Python → List BronzeRecord → Result String (List BronzeRecord)
unfolding mask_pii_fields
masked_batch k [] = ok []
masked_batch k (r ∷ rs) = append_masked r (mask_pii_fields k r.kafka_value) (masked_batch k rs)

abbrev pub appended :
    List BronzeRecord → Result String (List BronzeRecord) → Result String (List BronzeRecord)
appended bronze (ok rs) = ok (bronze ++ rs)
appended bronze (err e) = err e

-- The append-only stream.
pub append_batch :
    Python → List BronzeRecord → List BronzeRecord → Result String (List BronzeRecord)
unfolding masked_batch
append_batch k batch bronze = appended bronze (masked_batch k batch)

unfoldable pub same_offset : BronzeRecord → BronzeRecord → Bool
same_offset a b =
    str_eq a.kafka_topic b.kafka_topic
    && (a.kafka_partition == b.kafka_partition && a.kafka_offset == b.kafka_offset)

-- `bronze_duplicate_offsets_sql`: GROUP BY the coordinates HAVING count(*) > 1. A record stands for
-- its group where it comes first.
unfoldable pub duplicate_offsets : List BronzeRecord → List BronzeRecord → List BronzeRecord
unfolding same_offset
duplicate_offsets seen [] = []
duplicate_offsets seen (r ∷ rs) =
    let rest = duplicate_offsets (r ∷ seen) rs in
    if not (any (same_offset r) seen) && any (same_offset r) rs then r ∷ rest else rest

-- BronzeReplayDetected: how many coordinates, and a sample of them.
pub data ReplayDetected : Type 0 where
  replayed : ℕ → List BronzeRecord → ReplayDetected

abbrev pub none_offending : List BronzeRecord → Result ReplayDetected (Unit {0})
none_offending [] = ok tt
none_offending (r ∷ rs) = err (replayed (length (r ∷ rs)) (take 5 (r ∷ rs)))

unfoldable pub assert_no_replayed_offsets : List BronzeRecord → Result ReplayDetected (Unit {0})
unfolding duplicate_offsets
assert_no_replayed_offsets bronze = none_offending (duplicate_offsets [] bronze)
