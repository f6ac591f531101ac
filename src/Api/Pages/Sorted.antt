-- ===== src/Api/Pages/Sorted.antt =====
-- The ORDER BY of the page query: the rows sorted by their keys.
use payments_data_platform.Base.{
  ◌≡◌, refl, ap, sym, ◌∙◌, Bool, true, false, ◌&&◌, List, [], ◌∷◌, filter, All, String, arith, inl,
  inr, Bool-cases, eq_iff, ◌==◌, str_eq,
}
use payments_data_platform.Base.Order.{Order}
use payments_data_platform.Base.Sort.{insert_sorted, sorted, All-insert_sorted, All-sorted}
use payments_data_platform.Api.Queries.{by_hour, by_country, by_method}
use payments_data_platform.Api.Queries.Meaning.{GoldRow, key_lt}
use payments_data_platform.Api.Pages.{sorts_before}

-- Two rows have the same key.
abbrev pub same_key : GoldRow → GoldRow → Bool
same_key a b =
    a.payment_hour == b.payment_hour
    && (str_eq a.country_code b.country_code && str_eq a.payment_method b.payment_method)

-- No key stands twice.
abbrev pub DistinctKeys : List GoldRow → Type 0
DistinctKeys [] = Unit
DistinctKeys (r ∷ rs) = All (λ s. same_key r s ≡ false) rs × DistinctKeys rs

module _ (o : Order String) where
  abbrev pub row_lt : GoldRow → GoldRow → Bool
  row_lt a b = key_lt o a.payment_hour a.country_code a.payment_method b

  -- The rows stand in the order of their keys, and no key stands twice.
  abbrev pub Ascending : List GoldRow → Type 0
  Ascending [] = Unit
  Ascending (r ∷ rs) = All (λ s. row_lt r s ≡ true) rs × Ascending rs

  pub row_lt_irrefl : (a : GoldRow) → row_lt a a ≡ false
  unfolding key_lt
  row_lt_irrefl a = ground (arith, o.irrefl a.country_code, o.irrefl a.payment_method)

  pub row_lt_asymm : (a b : GoldRow) → row_lt a b ≡ true → row_lt b a ≡ false
  unfolding key_lt
  row_lt_asymm a b h = ground (
    arith,
    eq_iff a.country_code b.country_code,
    eq_iff b.country_code a.country_code,
    o.irrefl a.country_code,
    o.irrefl a.payment_method,
    o.trans a.country_code b.country_code a.country_code,
    o.trans a.payment_method b.payment_method a.payment_method,
  )

  pub All-filter :
      (P : GoldRow → Type 0) (p : GoldRow → Bool) (rs : List GoldRow)
      → All P rs
      → All P (filter p rs)
  All-filter P p [] h = tt
  All-filter P p (r ∷ rs) h = elim (Bool-cases (p r)) [
    | inl e ↦ rw e (h.0, All-filter P p rs h.1)
    | inr e ↦ rw e (All-filter P p rs h.1)
  ]

  sorts_before_lem :
      (a b : GoldRow) → sorts_before o (by_hour ∷ by_country ∷ by_method ∷ []) a b ≡ row_lt a b
  unfolding key_lt
  sorts_before_lem a b = ground arith

  -- What the engine sorts by is the order of the keys.
  pub sorted_by_key :
      (rs : List GoldRow)
      → sorted (sorts_before o (by_hour ∷ by_country ∷ by_method ∷ [])) rs ≡ sorted row_lt rs
  sorted_by_key rs = λ i. sorted (λ a b. sorts_before_lem a b i) rs

  row_lt_trans : (a b c : GoldRow) → row_lt a b ≡ true → row_lt b c ≡ true → row_lt a c ≡ true
  unfolding key_lt
  row_lt_trans a b c p q = ground (
    arith,
    eq_iff a.country_code b.country_code,
    eq_iff b.country_code c.country_code,
    eq_iff a.country_code c.country_code,
    o.trans a.country_code b.country_code c.country_code,
    o.trans a.payment_method b.payment_method c.payment_method,
  )

  row_lt_total : (a b : GoldRow) → same_key a b ≡ false → row_lt b a ≡ false → row_lt a b ≡ true
  unfolding key_lt
  row_lt_total a b d h = ground (
    arith,
    eq_iff a.country_code b.country_code,
    eq_iff b.country_code a.country_code,
    eq_iff a.payment_method b.payment_method,
    o.total a.country_code b.country_code,
    o.total a.payment_method b.payment_method,
  )

  later_too :
      (x y : GoldRow) (zs : List GoldRow)
      → row_lt x y ≡ true
      → All (λ s. row_lt y s ≡ true) zs
      → All (λ s. row_lt x s ≡ true) zs
  later_too x y [] p h = tt
  later_too x y (z ∷ zs) p h = (row_lt_trans x y z p h.0, later_too x y zs p h.1)

  Ascending-insert_sorted :
      (x : GoldRow) (ys : List GoldRow)
      → All (λ s. same_key x s ≡ false) ys
      → Ascending ys
      → Ascending (insert_sorted row_lt x ys)
  unfolding insert_sorted
  Ascending-insert_sorted x [] d h = (tt, tt)
  Ascending-insert_sorted x (y ∷ ys) d h = elim (Bool-cases (row_lt y x)) [
    | inl after ↦ rw after (
      All-insert_sorted row_lt (λ s. row_lt y s ≡ true) x ys after h.0,
      Ascending-insert_sorted x ys d.1 h.1,
    )
    | inr before ↦
        let first = row_lt_total x y d.0 before in
        rw before ((first, later_too x y ys first h.0), h)
  ]

  pub Ascending-sorted : (rs : List GoldRow) → DistinctKeys rs → Ascending (sorted row_lt rs)
  unfolding sorted
  Ascending-sorted [] d = tt
  Ascending-sorted (r ∷ rs) d =
      Ascending-insert_sorted r (sorted row_lt rs)
        (All-sorted row_lt (λ s. same_key r s ≡ false) rs d.0) (Ascending-sorted rs d.1)

  insert_first :
      (x : GoldRow) (zs : List GoldRow)
      → All (λ z. row_lt z x ≡ false) zs
      → insert_sorted row_lt x zs ≡ x ∷ zs
  unfolding insert_sorted
  insert_first x [] h = refl
  insert_first x (z ∷ zs) h = rw h.0 refl

  not_after : (x y z : GoldRow) → row_lt y x ≡ false → row_lt y z ≡ true → row_lt z x ≡ false
  not_after x y z h p = elim (Bool-cases (row_lt z x)) [
    | inl bad ↦ absurd (cc (row_lt_trans y z x p bad, h))
    | inr good ↦ good
  ]

  none_after :
      (x y : GoldRow) (zs : List GoldRow)
      → row_lt y x ≡ false
      → All (λ s. row_lt y s ≡ true) zs
      → All (λ z. row_lt z x ≡ false) zs
  none_after x y [] h a = tt
  none_after x y (z ∷ zs) h a = (not_after x y z h a.0, none_after x y zs h a.1)

  filter-insert_sorted :
      (p : GoldRow → Bool) (x : GoldRow) (ys : List GoldRow)
      → p x ≡ true
      → Ascending ys
      → filter p (insert_sorted row_lt x ys) ≡ insert_sorted row_lt x (filter p ys)
  unfolding insert_sorted
  filter-insert_sorted p x [] e h = rw e refl
  filter-insert_sorted p x (y ∷ ys) e h = elim (Bool-cases (row_lt y x)) [
    | inl after ↦ elim (Bool-cases (p y)) [
      | inl in_it ↦
          rw (after, in_it) (rw after (ap (λ zs. y ∷ zs) (filter-insert_sorted p x ys e h.1)))
      | inr out ↦ rw (after, out) (filter-insert_sorted p x ys e h.1)
    ]
    | inr before ↦
        let rest =
          All-filter (λ z. row_lt z x ≡ false) p (y ∷ ys) (before, none_after x y ys before h.0) in
        rw (before, e) (sym (insert_first x (filter p (y ∷ ys)) rest))
  ]

  filter-skipped :
      (p : GoldRow → Bool) (x : GoldRow) (ys : List GoldRow)
      → p x ≡ false
      → filter p (insert_sorted row_lt x ys) ≡ filter p ys
  unfolding insert_sorted
  filter-skipped p x [] e = rw e refl
  filter-skipped p x (y ∷ ys) e = elim (Bool-cases (row_lt y x)) [
    | inl after ↦ rw after (ground (arith, filter-skipped p x ys e))
    | inr before ↦ rw (before, e) refl
  ]

  -- Selecting and sorting are the same in either order.
  pub sorted-filter :
      (p : GoldRow → Bool) (rs : List GoldRow)
      → DistinctKeys rs
      → sorted row_lt (filter p rs) ≡ filter p (sorted row_lt rs)
  unfolding sorted
  sorted-filter p [] d = refl
  sorted-filter p (r ∷ rs) d = elim (Bool-cases (p r)) [
    | inl in_it ↦ rw in_it (
        ap (insert_sorted row_lt r) (sorted-filter p rs d.1)
        ∙ sym (filter-insert_sorted p r (sorted row_lt rs) in_it (Ascending-sorted rs d.1)))
    | inr out ↦ rw out (sorted-filter p rs d.1 ∙ sym (filter-skipped p r (sorted row_lt rs) out))
  ]
