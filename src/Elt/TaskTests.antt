-- ===== src/Elt/TaskTests.antt =====
-- The theorems on the staging tasks and the load at concrete inputs.
use payments_data_platform.Base.{◌≡◌, refl, String, some, List, [], ◌∷◌, ◌++◌, Result, ok}
use payments_data_platform.Base.Decimal.{decimal}
use payments_data_platform.Elt.Load.{Texts, Connection, raw_tables}
use payments_data_platform.Elt.Load.Command.{ConnectArgs, load_all}
use payments_data_platform.Elt.Stage.{S3}
use payments_data_platform.Elt.Stage.Command.{Sources, Calendar}
use payments_data_platform.Elt.Tasks.{stage_payments, load_raw_statements}
use payments_data_platform.Elt.Tasks.Typed.{mode, staged_as, stage_payments-mode}
use payments_data_platform.Elt.Tasks.Same.{execute_all, load_all-load_raw_statements}

abbrev as_it_is : String → Result String String
as_it_is s = ok s

abbrev object_log : S3 (List (String × String))
object_log = record { put_object = λ bucket key body w. ok (w ++ (key, body) ∷ []) }

abbrev two_sources : Sources String
two_sources = record { fx_records = "fx" ∷ []; payment_records = λ after before. "payment" ∷ [] }

abbrev calendar : Calendar
calendar = record { fromisoformat = as_it_is; today = "2026-01-02"; cli_run_id = "cli-1" }

stage_payments-mode_example :
    stage_payments as_it_is object_log two_sources calendar [] "lake" decimal "2026-01-01" "run-1"
      (some 3)
      (some 5)
      []
    ≡ staged_as as_it_is object_log two_sources calendar [] "lake"
        (mode decimal (some 3) (some 5))
        "2026-01-01"
        "run-1"
        []
stage_payments-mode_example =
    stage_payments-mode as_it_is object_log two_sources calendar [] "lake" decimal "2026-01-01"
      "run-1" (some 3) (some 5) [] refl

abbrev texts : Texts
texts = record { upper = λ s. s; replace = λ s a b. s; str = λ c. "" }

-- A warehouse that keeps the statements.
abbrev statement_log : Connection (List String)
statement_log = record { execute = λ sql params w. ok (w ++ sql ∷ []); fetchall = λ w. [] }

abbrev connected : ConnectArgs → Result String (Connection (List String))
connected args = ok statement_log

load_all-load_raw_statements_example :
    load_all texts connected statement_log "PAYMENTS_LAKE_STAGE" "2026-01-02" raw_tables []
    ≡ execute_all statement_log
        (load_raw_statements "PAYMENTS_LAKE_STAGE" "2026-01-02" raw_tables)
        []
load_all-load_raw_statements_example =
    load_all-load_raw_statements statement_log texts connected "PAYMENTS_LAKE_STAGE" "2026-01-02"
      raw_tables []
