-- ===== src/Api/Queries/Meaning.antt =====
-- What the engine computes from the conditions of api/src/queries.py: each `?` takes the next bound
-- value, in order.
use payments_data_platform.Base.{
  ℕ, String, ◌≡◌, Bool, true, ◌&&◌, ◌||◌, Option, none, some, List, [], ◌∷◌, ltb, leb, ◌==◌, str_eq,
  eq_iff, arith,
}
use payments_data_platform.Base.Order.{Order}
use payments_data_platform.Api.Queries.{
  text, Param, time, value, MetricsFilter, Clause, hour_from, hour_before, country_is, method_is,
  after_cursor, page_where,
}

-- The columns of a gold row that the API selects. `gross_volume` is in hundredths, and the rate is
-- a pair of counts.
pub record GoldRow : Type 0 where
  pub payment_hour : ℕ
  pub country_code : String
  pub payment_method : String
  pub payment_count : ℕ
  pub gross_volume : ℕ
  pub auth_rate : ℕ × ℕ

-- What each filter asks for, on its own. The end is exclusive.
abbrev pub asks {ℓ} : {A : Type ℓ} → Option A → (A → Bool) → Bool
asks none p = true
asks (some a) p = p a

unfoldable pub matches : MetricsFilter → GoldRow → Bool
matches f r =
    asks f.start (λ t. leb t r.payment_hour)
    && asks f.end (λ t. ltb r.payment_hour t)
    && asks f.country_code (λ c. str_eq r.country_code c)
    && asks f.payment_method (λ m. str_eq r.payment_method m)

-- The engine's order of texts is a parameter.
module _ (o : Order String) where
  -- One condition on a row: its truth, and the values that are left to bind. `none` is an engine
  -- error: too few values, or a value of another type than the column.
  pub holds : Clause → List Param → GoldRow → Option (Bool × List Param)
  holds hour_from (time t ∷ ps) r = some (leb t r.payment_hour, ps)
  holds hour_before (time t ∷ ps) r = some (ltb r.payment_hour t, ps)
  holds country_is (value (text c) ∷ ps) r = some (str_eq r.country_code c, ps)
  holds method_is (value (text m) ∷ ps) r = some (str_eq r.payment_method m, ps)
  holds after_cursor
        (time t ∷ time t₂ ∷ value (text c) ∷ time t₃ ∷ value (text c₂) ∷ value (text m) ∷ ps) r =
      some (
        ltb t r.payment_hour
            || (r.payment_hour == t₂ && o.lt c r.country_code)
            || (r.payment_hour == t₃ && str_eq r.country_code c₂ && o.lt m r.payment_method),
        ps,
      )
  holds c ps r = none

  abbrev and_then : Bool → Option Bool → Option Bool
  and_then b none = none
  and_then b (some c) = some (b && c)

  -- The conjunction of the conditions. A value that no `?` takes is an engine error.
  pub eval_where : List Clause → List Param → GoldRow → Option Bool
  unfolding holds
  eval_where [] [] r = some true
  eval_where [] (p ∷ ps) r = none
  eval_where (c ∷ cs) ps r =
      let rest = λ (ps' : List Param). eval_where cs ps' r in
      elim (holds c ps r) [ none ↦ none | some (b, ps') ↦ and_then b (rest ps') ]

  -- The order of the pages: by hour, then country, then method.
  unfoldable pub key_lt : ℕ → String → String → GoldRow → Bool
  key_lt h c m r =
      ltb h r.payment_hour
      || (h == r.payment_hour
          && (o.lt c r.country_code || (str_eq c r.country_code && o.lt m r.payment_method)))

  -- Without a cursor, the page query's conditions with its bound values hold of a row exactly where the
  -- row matches each filter that is given: not before the start, before the end, and of the country
  -- and the method. No value is left over or missing.
  pub filter_means :
      (f : MetricsFilter) (r : GoldRow)
      → eval_where (page_where f none).0 (page_where f none).1 r ≡ some (matches f r)
  unfolding eval_where page_where matches
  filter_means f r = ground arith

  -- With a cursor of two texts, they hold exactly where the row matches the filters and its key comes
  -- after the cursor's, by hour, then country, then method.
  pub keyset_means :
      (f : MetricsFilter) (h : ℕ) (c m : String) (r : GoldRow)
      → let w =
          page_where f
            (some (record { payment_hour = h; country_code = text c; payment_method = text m })) in
        eval_where w.0 w.1 r ≡ some (matches f r && key_lt h c m r)
  unfolding eval_where page_where matches key_lt
  keyset_means f h c m r = ground (arith, eq_iff c r.country_code, eq_iff r.country_code c)
