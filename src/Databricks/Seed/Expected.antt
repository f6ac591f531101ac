-- ===== src/Databricks/Seed/Expected.antt =====
-- The seed of databricks/src/common.py against the expectations of databricks/src/dlt_pipeline.py.
use payments_data_platform.Base.{
  ℕ, ◌/◌, ◌≤◌, ◌≡◌, refl, ap, String, Bool, true, not, some, List, [], ◌∷◌, map, length, All, ◌==◌,
  ◌&&◌, any, le→leb, get_elem?, All-get_elem?, arith,
}
use payments_data_platform.Base.Int.{pos}
use payments_data_platform.Medallion.Rules.{SilverRow, contains}
use payments_data_platform.Medallion.Validate.{Spark}
use payments_data_platform.Databricks.Seed.{
  Payment, generated, generate_seed_payments, expected_seed_count, range, Envelope,
  to_debezium_envelope,
}
use payments_data_platform.Databricks.Pipeline.{expectations, change_of, DltChange}
use payments_data_platform.Databricks.Seed.Sound.{capitals, is_snake, Sound, seed-Sound}

-- A line of the seed file as the column functions read it: each field as it was written, and a time in
-- whole seconds.
pub record Reads (k : Spark) (line : String) (e : Envelope) : Type 0 where
  pub op : Spark.get_json_object k line "$.op" ≡ some e.op
  pub id_text : String
  pub id : Spark.get_json_object k line "$.after.payment_id" ≡ some id_text
  pub id_cast : Spark.cast_long k id_text ≡ some (Payment.payment_id e.after)
  pub amount_text : String
  pub amount : Spark.get_json_object k line "$.after.amount" ≡ some amount_text
  pub amount_cast : Spark.cast_decimal k amount_text ≡ some (pos (Payment.amount e.after))
  pub currency : Spark.get_json_object k line "$.after.currency" ≡ some (Payment.currency e.after)
  pub method :
      Spark.get_json_object k line "$.after.payment_method" ≡ some (Payment.payment_method e.after)
  pub status :
      Spark.get_json_object k line "$.after.payment_status" ≡ some (Payment.payment_status e.after)
  pub country :
      Spark.get_json_object k line "$.after.country_code" ≡ some (Payment.country_code e.after)
  pub created_text : String
  pub created : Spark.get_json_object k line "$.after.created_at" ≡ some created_text
  pub created_cast :
      Spark.micros_to_timestamp k created_text ≡ some (Payment.created_at e.after / 1000000)
  pub updated_text : String
  pub updated : Spark.get_json_object k line "$.after.updated_at" ≡ some updated_text
  pub updated_cast :
      Spark.micros_to_timestamp k updated_text ≡ some (Payment.updated_at e.after / 1000000)

-- Spark's text functions on texts that are canonical already, and its two patterns.
pub record TextLaws (k : Spark) : Type 0 where
  pub upper_trim : (n : ℕ) (s : String) → capitals n s ≡ true → Spark.upper k (Spark.trim k s) ≡ s
  pub canonical_snake :
      (s : String)
      → is_snake s ≡ true
      → Spark.regexp_replace k (Spark.lower k (Spark.trim k s)) "\\s+" "_" ≡ s
  pub three : (s : String) → capitals 3 s ≡ true → Spark.rlike k s "^[A-Z]{3}$" ≡ true
  pub two : (s : String) → capitals 2 s ≡ true → Spark.rlike k s "^[A-Z]{2}$" ≡ true

module _ (k : Spark) (micros : ℕ → ℕ) (texts : TextLaws k) where
  abbrev pub Meets : SilverRow → Type 0
  Meets r = All (λ e. e.1 r ≡ some true) (expectations k)

  Sound-Meets :
      (p : Payment) (line : String)
      → Sound p
      → micros p.created_at ≤ micros p.updated_at
      → Reads k line (to_debezium_envelope micros p)
      → (DltChange.op (change_of k (some line)) ≡ some "r")
        × Meets (DltChange.row (change_of k (some line)))
  unfolding change_of to_debezium_envelope expectations contains
  Sound-Meets p line s o r = (
    r.op,
    (
      rw (r.id, r.id_cast) refl,
      (
        rw (r.amount, r.amount_cast) refl,
        (
          rw (r.currency, TextLaws.upper_trim texts 3 p.currency s.currency)
              (ap some (TextLaws.three texts p.currency s.currency)),
          (
            rw (r.country, TextLaws.upper_trim texts 2 p.country_code s.country)
                (ap some (TextLaws.two texts p.country_code s.country)),
            (
              rw (r.method, TextLaws.canonical_snake texts p.payment_method s.method_plain)
                  (ap some s.method),
              (
                rw (r.status, TextLaws.canonical_snake texts p.payment_status s.status_plain)
                    (ap some s.status),
                (
                  rw (r.created, r.updated, r.created_cast, r.updated_cast)
                      (ap some (le→leb _ _ (omega arith))),
                  tt,
                ),
              ),
            ),
          ),
        ),
      ),
    ),
  )

  -- Whatever the time of the seeding, each of its payments, read back from its line of the file with
  -- its times in whole seconds, is a snapshot row that meets every expectation of the pipeline; the
  -- conversion to microseconds is monotone, and the column functions leave canonical texts as they are.
  pub seed-Meets :
      (now i : ℕ) (p : Payment) (line : String)
      → ((a b : ℕ) → a ≤ b → micros a ≤ micros b)
      → get_elem? (generate_seed_payments now) i ≡ some p
      → Reads k line (to_debezium_envelope micros p)
      → (DltChange.op (change_of k (some line)) ≡ some "r")
        × Meets (DltChange.row (change_of k (some line)))
  seed-Meets now i p line monotone e r =
      let s = All-get_elem? Sound (generate_seed_payments now) i p (seed-Sound now) e in
      Sound-Meets p line s (monotone p.created_at p.updated_at (Sound.in_order s)) r

abbrev pub distinct_numbers : List ℕ → Bool
distinct_numbers [] = true
distinct_numbers (n ∷ ns) = not (any (λ m. m == n) ns) && distinct_numbers ns

-- Whatever the time of the seeding, there are as many payments as EXPECTED_SEED_COUNT, and no id
-- stands twice.
pub seed_ids :
    (now : ℕ)
    → (length (generate_seed_payments now) ≡ expected_seed_count)
      × (distinct_numbers (map (λ p. Payment.payment_id p) (generate_seed_payments now)) ≡ true)
unfolding generate_seed_payments generated range
seed_ids now = (refl, refl)
