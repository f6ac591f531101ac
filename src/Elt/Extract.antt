-- ===== src/Elt/Extract.antt =====
-- The extract from Postgres (snowflake_etl/src/extract_payments.py): the statement with its bound
-- values, and the change window that it selects. How Postgres reads a timestamp is a parameter.
pub mod Window
use payments_data_platform.Base.{
  ℕ, String, Bool, true, false, not, Option, none, some, List, [], ◌∷◌, ◌++◌, ltb, leb, str_eq,
  ◌&&◌, if◌then◌else◌, length, filter,
}
use Prim.Native.String.{◌++◌ as ◌^^◌}

abbrev pub payment_columns : List String
payment_columns =
    "payment_id" ∷ "merchant_id" ∷ "shopper_id" ∷ "amount" ∷ "currency" ∷ "payment_method"
    ∷ "payment_status" ∷ "country_code" ∷ "created_at" ∷ "updated_at" ∷ []

-- The conditions of the window.
pub data Bound : Type 0 where
  updated_from : Bound
  updated_until : Bound

abbrev pub bound_text : Bound → String
bound_text updated_from = "updated_at >= %s"
bound_text updated_until = "updated_at < %s"

pub joined : String → List String → String
joined sep [] = ""
joined sep (s ∷ []) = s
joined sep (s ∷ t ∷ ss) = s ^^ sep ^^ joined sep (t ∷ ss)

-- `if updated_after:` of an optional text: an empty one counts as none.
abbrev pub given : Option String → Bound → List (Bound × String)
given none b = []
given (some s) b = if str_eq s "" then [] else (b, s) ∷ []

-- The conditions with their values, in the order of binding.
unfoldable pub window : Option String → Option String → List (Bound × String)
window updated_after updated_before =
    given updated_after updated_from ++ given updated_before updated_until

abbrev texts_of : List (Bound × String) → List String
texts_of [] = []
texts_of ((b, v) ∷ bs) = bound_text b ∷ texts_of bs

abbrev values_of : List (Bound × String) → List String
values_of [] = []
values_of ((b, v) ∷ bs) = v ∷ values_of bs

abbrev where_sql : List (Bound × String) → String
where_sql [] = ""
where_sql (b ∷ bs) = " WHERE " ^^ joined " AND " (texts_of (b ∷ bs))

-- The statement of `fetch_payments` and its parameters.
pub fetch_payments : Option String → Option String → String × List String
unfolding joined window
fetch_payments updated_after updated_before =
    let w = window updated_after updated_before in
    (
      "SELECT "
          ^^ joined ", " payment_columns
          ^^ " FROM payments"
          ^^ where_sql w
          ^^ " ORDER BY payment_id",
      values_of w,
    )

module _ (timestamp : String → ℕ) where
  -- A condition on a row's `updated_at`.
  abbrev pub bound_holds : Bound → String → ℕ → Bool
  bound_holds updated_from v t = leb (timestamp v) t
  bound_holds updated_until v t = ltb t (timestamp v)

  pub window_holds : List (Bound × String) → ℕ → Bool
  window_holds [] t = true
  window_holds ((b, v) ∷ bs) t = bound_holds b v t && window_holds bs t
