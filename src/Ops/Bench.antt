-- ===== src/Ops/Bench.antt =====
-- The measurements of scripts/bench_api.py: `percentile`, `summarize` and `run_series`. Floating point and
-- the timed request are parameters; the table that is printed is not modelled.
use payments_data_platform.Base.{
  ◌≡◌, refl, ◌∙◌, ap, ℕ, ◌+◌, ◌-◌, ◌<◌, zero, suc, min, max, Bool, true, Option, none, some, String,
  List, [], ◌∷◌, All, length, get_elem?, All-get_elem?, Result, ok, err, ◌>>=◌, if◌then◌else◌,
  arith,
}
use payments_data_platform.Base.Sort.{All-sorted, length-sorted, sorted}

-- `in_unit f` is `0.0 < f <= 1.0`, and `rank_of n f` is `-(-n * f // 1)`.
pub record Float (F : Type 0) : Type 0 where
  pub zero_ms : F
  pub lt : F → F → Bool
  pub in_unit : F → Bool
  pub rank_of : ℕ → F → ℕ
  pub round_two : F → F
  pub p50 : F
  pub p95 : F
  pub p99 : F

pub data BenchError (F : Type 0) : Type 0 where
  bad_fraction : F → BenchError F
  index_error : BenchError F

pub record LatencyReport (F : Type 0) : Type 0 where
  pub label : String
  pub samples : ℕ
  pub errors : ℕ
  pub p50_ms : F
  pub p95_ms : F
  pub p99_ms : F
  pub max_ms : F

module _ {F : Type 0} (k : Float F) where
  abbrev pub at : Option F → Result (BenchError F) F
  at none = err index_error
  at (some v) = ok v

  abbrev pub rank : List F → F → ℕ
  rank ordered fraction = max 1 (min (length ordered) (k.rank_of (length ordered) fraction))

  unfoldable pub percentile : List F → F → Result (BenchError F) F
  unfolding sorted
  percentile [] fraction = ok k.zero_ms
  percentile (v ∷ vs) fraction =
      let ordered = sorted k.lt (v ∷ vs) in
      if k.in_unit fraction
      then at (get_elem? ordered (rank ordered fraction - 1))
      else err (bad_fraction fraction)

  -- `max(values)` keeps the first of equal values.
  abbrev pub largest : F → List F → F
  largest v [] = v
  largest v (w ∷ ws) = largest (if k.lt v w then w else v) ws

  abbrev pub max_or_zero : List F → F
  max_or_zero [] = k.zero_ms
  max_or_zero (v ∷ vs) = k.round_two (largest v vs)

  unfoldable pub summarize : String → List F → ℕ → Result (BenchError F) (LatencyReport F)
  unfolding percentile
  summarize label latencies errors = percentile latencies k.p50 >>= λ a.
      percentile latencies k.p95 >>= λ b. percentile latencies k.p99 >>= λ c. ok record {
        label = label;
        samples = length latencies;
        errors = errors;
        p50_ms = k.round_two a;
        p95_ms = k.round_two b;
        p99_ms = k.round_two c;
        max_ms = max_or_zero latencies;
      }

get_elem?-below {ℓ} :
    {A : Type ℓ} → (xs : List A) (i : ℕ) → i < length xs → (a : A) × (get_elem? xs i ≡ some a)
get_elem?-below [] i h = absurd (omega arith)
get_elem?-below (x ∷ xs) zero h = (x, refl)
get_elem?-below (x ∷ xs) (suc i) h = get_elem?-below xs i (omega arith)

-- A percentile of measurements is one of them, whatever rank the arithmetic computes: it is there
-- and has every property that all the measurements have.
pub percentile-All :
    {F : Type 0}
    → (k : Float F) (P : F → Type 0) (v : F) (vs : List F) (fraction : F)
    → k.in_unit fraction ≡ true
    → All P (v ∷ vs)
    → (p : F) × (percentile k (v ∷ vs) fraction ≡ ok p) × P p
unfolding percentile
percentile-All k P v vs fraction inside h =
    let ordered = sorted k.lt (v ∷ vs) in
    let i = rank k ordered fraction - 1 in
    let n : length ordered ≡ suc (length vs) = length-sorted k.lt (v ∷ vs) in
    let (p, e) = get_elem?-below ordered i (omega arith) in
    (p, rw (inside, e) refl, All-get_elem? P ordered i p (All-sorted k.lt P (v ∷ vs) h) e)

-- A timed request, `none` where it failed.
module _ {F S : Type 0} (time_request : S → Option F × S) where
  abbrev pub tally : Option F → List F × ℕ → List F × ℕ
  tally none (latencies, errors) = (latencies, suc errors)
  tally (some elapsed) (latencies, errors) = (elapsed ∷ latencies, errors)

  unfoldable pub run_series : ℕ → S → List F × ℕ
  run_series zero s = ([], 0)
  run_series (suc count) s =
      let (elapsed, s') = time_request s in tally elapsed (run_series count s')

  tally-total :
      (o : Option F) (r : List F × ℕ)
      → length (tally o r).0 + (tally o r).1 ≡ suc (length r.0 + r.1)
  tally-total none r = omega arith
  tally-total (some v) r = omega arith

  -- Every request of a series is a sample or an error.
  run_series-total :
      (count : ℕ) (s : S) → length (run_series count s).0 + (run_series count s).1 ≡ count
  unfolding run_series
  run_series-total zero s = refl
  run_series-total (suc count) s =
      let (elapsed, s') = time_request s in
      tally-total elapsed (run_series count s') ∙ ap suc (run_series-total count s')
