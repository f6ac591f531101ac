-- ===== src/Databricks/Seed/Sound.antt =====
-- The values that the seed of databricks/src/common.py draws from.
use payments_data_platform.Base.{
  ℕ, zero, suc, ◌-◌, ◌%◌, ◌≤◌, ◌<◌, ◌≡◌, refl, String, Bool, true, false, List, [], ◌∷◌, map,
  length, All, All-append, leb, ◌==◌, ◌&&◌, ◌||◌, arith,
}
use Prim.Native.Char.{code}
use payments_data_platform.Medallion.Rules.{contains}
use payments_data_platform.Databricks.Seed.{
  Payment, explicit, generated, generate_seed_payments, at, currencies, methods, statuses,
  countries, range,
}
use payments_data_platform.Databricks.Pipeline.{allowed_payment_methods, allowed_payment_statuses}

-- A text of so many capital letters.
abbrev pub capitals : ℕ → String → Bool
capitals zero String.[] = true
capitals zero (String.◌∷◌ c s) = false
capitals (suc n) String.[] = false
capitals (suc n) (String.◌∷◌ c s) = (leb 65 (code c) && leb (code c) 90) && capitals n s

-- A text of small letters and underscores.
abbrev pub is_snake : String → Bool
is_snake String.[] = true
is_snake (String.◌∷◌ c s) = ((leb 97 (code c) && leb (code c) 122) || code c == 95) && is_snake s

abbrev all_texts : (String → Bool) → List String → Bool
all_texts p [] = true
all_texts p (s ∷ ss) = p s && all_texts p ss

at-all :
    (p : String → Bool) (ss : List String) (i : ℕ)
    → all_texts p ss ≡ true
    → i < length ss
    → p (at ss i) ≡ true
unfolding at
at-all p [] i h lt = absurd (omega (arith, lt))
at-all p (s ∷ ss) zero h lt = ground (arith, h)
at-all p (s ∷ ss) (suc i) h lt = at-all p ss i (ground (arith, h)) (omega (arith, lt))

-- What the expectations and the canonical forms ask of a payment.
pub record Sound (p : Payment) : Type 0 where
  pub method : contains allowed_payment_methods p.payment_method ≡ true
  pub status : contains allowed_payment_statuses p.payment_status ≡ true
  pub method_plain : is_snake p.payment_method ≡ true
  pub status_plain : is_snake p.payment_status ≡ true
  pub currency : capitals 3 p.currency ≡ true
  pub country : capitals 2 p.country_code ≡ true
  pub in_order : p.created_at ≤ p.updated_at

generated-Sound : (now gs : ℕ) → Sound (generated now gs)
unfolding generated contains
generated-Sound now gs = record {
  method = at-all (contains allowed_payment_methods) methods ((gs - 1) % 5) refl (omega arith);
  status = at-all (contains allowed_payment_statuses) statuses ((gs - 1) % 8) refl (omega arith);
  method_plain = at-all is_snake methods ((gs - 1) % 5) refl (omega arith);
  status_plain = at-all is_snake statuses ((gs - 1) % 8) refl (omega arith);
  currency = at-all (capitals 3) currencies ((gs - 1) % 4) refl (omega arith);
  country = at-all (capitals 2) countries ((gs - 1) % 8) refl (omega arith);
  in_order = omega arith;
}

explicit-Sound : (now : ℕ) → All Sound (explicit now)
unfolding contains
explicit-Sound now = (
  record {
    method = refl;
    status = refl;
    method_plain = refl;
    status_plain = refl;
    currency = refl;
    country = refl;
    in_order = omega arith;
  },
  (
    record {
      method = refl;
      status = refl;
      method_plain = refl;
      status_plain = refl;
      currency = refl;
      country = refl;
      in_order = omega arith;
    },
    (
      record {
        method = refl;
        status = refl;
        method_plain = refl;
        status_plain = refl;
        currency = refl;
        country = refl;
        in_order = omega arith;
      },
      (
        record {
          method = refl;
          status = refl;
          method_plain = refl;
          status_plain = refl;
          currency = refl;
          country = refl;
          in_order = omega arith;
        },
        tt,
      ),
    ),
  ),
)

every-Sound : (now : ℕ) (gs : List ℕ) → All Sound (map (generated now) gs)
every-Sound now [] = tt
every-Sound now (g ∷ gs) = (generated-Sound now g, every-Sound now gs)

pub seed-Sound : (now : ℕ) → All Sound (generate_seed_payments now)
unfolding generate_seed_payments
seed-Sound now =
    All-append Sound (explicit now) (map (generated now) (range 1 120)) (explicit-Sound now)
      (every-Sound now (range 1 120))
