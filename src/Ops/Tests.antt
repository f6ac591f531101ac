-- ===== src/Ops/Tests.antt =====
-- The theorems on the scripts at concrete inputs.
use payments_data_platform.Base.{
  ◌↔◌, ℕ, ◌≡◌, refl, ◌&&◌, ◌==◌, String, Bool, true, false, not, Option, none, some, List, [], ◌∷◌,
  str_eq, ok, if◌then◌else◌,
}
use payments_data_platform.Base.Int.{pos}
use Prim.Native.Char.{code}
use payments_data_platform.Medallion.Rules.{SilverRow, contains}
use payments_data_platform.Medallion.Rules.Merged.{lookup_row}
use payments_data_platform.Medallion.Validate.{Spark}
use payments_data_platform.Ops.Acceptance.{Check, checks}
use payments_data_platform.Ops.Acceptance.Main.{main, passed}
use payments_data_platform.Ops.Acceptance.Passes.{medallion}
use payments_data_platform.Ops.Acceptance.Exact.{Loaded, main-Loaded}
use payments_data_platform.Ops.Text.{is_break}
use payments_data_platform.Ops.Trino.{Page, response, Session, run_statement}

-- A server with one page after each answer to a POST: the state tells whether it is still to come.
abbrev page : Option String → ℕ → Page ℕ
page next n = record { next_uri = next; rows = some (n ∷ []); error = [] }

abbrev two_pages : Session Bool ℕ
two_pages = record {
  post = λ url sql headers s. (response 200 (some (page (some "next") 1)), true);
  get = λ uri s. (response 200 (some (page none 2)), false);
}

abbrev still : Bool → ℕ
still true = 1
still false = 0

abbrev two_chunks : List (List String)
two_chunks = ("-- counts" ∷ "SELECT 1" ∷ []) ∷ ("" ∷ "SELECT" ∷ "  2" ∷ []) ∷ []

abbrev fits_line : String → Bool
fits_line String.[] = true
fits_line (String.◌∷◌ c t) = not (is_break c) && not (code c == 59) && fits_line t

-- Silver with one payment, and the engine that counts on its tables.
abbrev a_payment : SilverRow
a_payment = record {
  payment_id = some 7;
  merchant_id = some 4;
  amount = some (pos 1500);
  currency = some "EUR";
  payment_method = some "card";
  payment_status = some "authorized";
  country_code = some "FR";
  created_at = some 10;
  updated_at = some 12;
  source_lsn = some 1;
  ingested_at = 20;
}

abbrev spark : Spark
spark = record {
  get_json_object = λ v p. none;
  cast_long = λ s. none;
  cast_decimal = λ s. none;
  micros_to_timestamp = λ s. none;
  upper = λ s. s;
  lower = λ s. s;
  trim = λ s. s;
  regexp_replace = λ s p r. s;
  rlike = λ s p. true;
}

abbrev no_match : String → String → Bool
no_match s p = false

abbrev on_the_hour : ℕ → ℕ
on_the_hour t = 0

abbrev one_bronze : List (Option String)
one_bronze = some "{}" ∷ []

abbrev one_silver : List SilverRow
one_silver = a_payment ∷ []

abbrev count_of : String → List Check → ℕ
count_of sql [] = 0
count_of sql (c ∷ cs) =
    if str_eq (Check.sql c) sql
    then Check.counts c (medallion on_the_hour one_bronze one_silver)
    else count_of sql cs

abbrev counting : Session (Unit {0}) (List ℕ)
counting = record {
  post = λ url sql headers s. (
    response 200 (
        some (record {
          next_uri = none;
          rows = some ((count_of sql (checks no_match) ∷ []) ∷ []);
          error = [];
        })),
    s,
  );
  get = λ uri s. (response 404 none, s);
}

main-Loaded_example :
    ((main counting 0 [] no_match tt).0 ≡ some (ok passed)) ↔ Loaded no_match one_bronze one_silver
unfolding checks run_statement lookup_row contains
main-Loaded_example =
    main-Loaded counting 0 [] spark on_the_hour no_match one_bronze one_silver tt
      (
        (λ s. refl),
        (
          (λ s. refl),
          (
            (λ s. refl),
            (
              (λ s. refl),
              (
                (λ s. refl),
                (
                  (λ s. refl),
                  ((λ s. refl), ((λ s. refl), ((λ s. refl), ((λ s. refl), ((λ s. refl), tt))))),
                ),
              ),
            ),
          ),
        ),
      )
      (
        record {
          has_payment_id = refl;
          has_merchant_id = refl;
          amount_fits = refl;
          currency_fits = refl;
          method_fits = refl;
          status_fits = refl;
          country_fits = refl;
          has_created_at = refl;
          has_updated_at = refl;
          in_order = refl;
          has_source_lsn = refl;
        },
        tt,
      )
      (refl, tt)
