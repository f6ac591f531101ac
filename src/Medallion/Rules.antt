-- ===== src/Medallion/Rules.antt =====
-- The CDC rules of config/spark/jobs/payment_rules.py: the operations, and what the two MERGE
-- statements that it builds do to their target tables, branch by branch in their order.

pub mod Merged
pub mod Outcome
pub mod Distinct
pub mod Dlq
use payments_data_platform.Base.{
  ℕ, String, Bool, true, false, not, Option, none, some, List, [], ◌∷◌, ◌++◌, ◌&&◌, ◌||◌, any,
  filter, map, ltb, ◌==◌, str_eq, if◌then◌else◌,
}
use payments_data_platform.Base.Int.{ℤ}

-- `value in names`
unfoldable pub contains : List String → String → Bool
contains [] s = false
contains (n ∷ ns) s = str_eq n s || contains ns s

abbrev pub cdc_upsert_ops : List String
cdc_upsert_ops = "c" ∷ "r" ∷ "u" ∷ []

abbrev pub cdc_delete_op : String
cdc_delete_op = "d"

abbrev pub cdc_ops : List String
cdc_ops = "c" ∷ "d" ∷ "r" ∷ "u" ∷ []

abbrev pub allowed_payment_methods : List String
allowed_payment_methods = "apple_pay" ∷ "bank_transfer" ∷ "card" ∷ "google_pay" ∷ "paypal" ∷ []

abbrev pub allowed_payment_statuses : List String
allowed_payment_statuses =
    "authorized" ∷ "cancelled" ∷ "chargeback" ∷ "failed" ∷ "pending" ∷ "refunded" ∷ []

-- A row of silver, in the order of `SILVER_COLUMNS`; each column may be null. Amounts are in
-- hundredths, times are counts.
pub record SilverRow : Type 0 where
  pub payment_id : Option ℕ
  pub merchant_id : Option ℕ
  pub amount : Option ℤ
  pub currency : Option String
  pub payment_method : Option String
  pub payment_status : Option String
  pub country_code : Option String
  pub created_at : Option ℕ
  pub updated_at : Option ℕ
  pub source_lsn : Option ℕ
  pub ingested_at : ℕ

-- A row of the change set: the columns of silver, and the operation.
pub record Change : Type 0 where
  pub op : String
  pub row : SilverRow

-- `t.payment_id = s.payment_id` in SQL: never true of a null.
unfoldable pub sql_eq : Option ℕ → Option ℕ → Bool
sql_eq none b = false
sql_eq (some a) none = false
sql_eq (some a) (some b) = a == b

-- `s.source_lsn > t.source_lsn`
unfoldable pub newer : Option ℕ → Option ℕ → Bool
newer none t = false
newer (some s) none = false
newer (some s) (some t) = ltb t s

-- The source row that joins with an id.
unfoldable pub find_source : Option ℕ → List Change → Option Change
find_source id [] = none
find_source id (c ∷ cs) = if sql_eq id c.row.payment_id then some c else find_source id cs

-- The WHEN MATCHED branches: delete (`none`), update, or neither. The update assigns every column
-- but the key, and the keys are equal.
unfoldable pub when_matched : Change → SilverRow → Option SilverRow
unfolding contains newer
when_matched c t =
    if newer c.row.source_lsn t.source_lsn && str_eq c.op cdc_delete_op
    then none
    else if newer c.row.source_lsn t.source_lsn && contains cdc_upsert_ops c.op
    then some (record c.row { payment_id = t.payment_id })
    else some t

abbrev pub after_merge : Option Change → SilverRow → Option SilverRow
after_merge none t = some t
after_merge (some c) t = when_matched c t

abbrev pub cons_some : Option SilverRow → List SilverRow → List SilverRow
cons_some none ts = ts
cons_some (some t) ts = t ∷ ts

unfoldable pub merge_targets : List Change → List SilverRow → List SilverRow
unfolding find_source when_matched
merge_targets cs [] = []
merge_targets cs (t ∷ ts) =
    cons_some (after_merge (find_source t.payment_id cs) t) (merge_targets cs ts)

-- Does a source row join with any target row?
pub is_matched : Option ℕ → List SilverRow → Bool
unfolding sql_eq
is_matched id ts = any (λ t. sql_eq t.payment_id id) ts

-- WHEN NOT MATCHED AND s.op IN (upsert ops) THEN INSERT
unfoldable pub inserts : List SilverRow → List Change → List SilverRow
unfolding is_matched
inserts ts [] = []
inserts ts (c ∷ cs) =
    if not (is_matched c.row.payment_id ts) && contains cdc_upsert_ops c.op
    then c.row ∷ inserts ts cs
    else inserts ts cs

-- `silver_merge_sql`: what the statement does to silver where the source names no id twice, as the
-- change set of `_build_changes` does not; on another source the engine may raise.
unfoldable pub silver_merge : List SilverRow → List Change → List SilverRow
unfolding merge_targets inserts
silver_merge target source = merge_targets source target ++ inserts target source
