-- ===== src/Medallion/Gold/Groups.antt =====
-- Gold's groups against the rows of silver.
use payments_data_platform.Base.{
  ℕ, suc, ◌+◌, ◌≡◌, refl, ap, sym, ◌∙◌, String, Bool, true, false, Option, none, some, List, [],
  ◌∷◌, filter, length, map, count, opt_eq, ◌&&◌, eq_iff, arith, Bool-cases, inl, inr, if◌then◌else◌,
}
use payments_data_platform.Medallion.Rules.{SilverRow}
use payments_data_platform.Base.Int.{ℤ, pos, ◌+ℤ◌}
use payments_data_platform.Medallion.Gold.{
  GroupKey, Measures, add_null, same_hour, same_group, add_row, no_rows, add_to_group, key_of,
  hour_of, gold,
}

-- Two keys agree in each of the three columns, a null with a null.
pub same_key : GroupKey → GroupKey → Bool
same_key a b =
    opt_eq a.payment_method b.payment_method
    && opt_eq a.country_code b.country_code
    && same_hour a.payment_hour b.payment_hour

grouped_by_key : (a b : GroupKey) → same_group a b ≡ same_key a b
unfolding same_group same_key
grouped_by_key a b = ground arith

-- The values of a column that are not null.
abbrev pub values : List (Option ℤ) → List ℤ
values [] = []
values (none ∷ xs) = values xs
values (some x ∷ xs) = x ∷ values xs

abbrev pub plus : ℤ → Option ℤ → Option ℤ
plus x none = some x
plus x (some y) = some (x +ℤ y)

-- The sum of values, null if there are none.
abbrev pub sum : List ℤ → Option ℤ
sum [] = none
sum (x ∷ xs) = plus x (sum xs)

abbrev pub has_status : String → SilverRow → Bool
has_status status r = opt_eq r.payment_status (some status)

-- A row's part of the authorized volume: its amount, or zero where it is not authorized.
abbrev pub authorized_part : SilverRow → Option ℤ
authorized_part r = if has_status "authorized" r then r.amount else some (pos 0)

-- The aggregates of some rows, each computed from all of them.
abbrev pub aggregate : List SilverRow → Measures
aggregate rs = record {
  payment_count = length rs;
  gross_volume = sum (values (map (λ r. SilverRow.amount r) rs));
  authorized_volume = sum (values (map authorized_part rs));
  authorized_count = count (has_status "authorized") rs;
}

sum-values :
    (x : Option ℤ) (xs : List (Option ℤ)) → add_null x (sum (values xs)) ≡ sum (values (x ∷ xs))
sum-values none xs = refl
sum-values (some x) xs = plus_lem x (sum (values xs))
  where
    plus_lem : (y : ℤ) (o : Option ℤ) → add_null (some y) o ≡ plus y o
    plus_lem y none = refl
    plus_lem y (some z) = refl

aggregate-add_row :
    (r : SilverRow) (rs : List SilverRow) → add_row r (aggregate rs) ≡ aggregate (r ∷ rs)
aggregate-add_row r rs = λ i. record {
  payment_count = suc (length rs);
  gross_volume = sum-values r.amount (map (λ s. SilverRow.amount s) rs) i;
  authorized_volume = sum-values (authorized_part r) (map authorized_part rs) i;
  authorized_count =
      (if has_status "authorized" r then 1 else 0) + count (has_status "authorized") rs;
}

pub find_group : GroupKey → List (GroupKey × Measures) → Option Measures
find_group k [] = none
find_group k ((j, m) ∷ gs) = if same_key j k then some m else find_group k gs

-- The aggregates of rows, if there are any.
abbrev pub aggregate_any : List SilverRow → Option Measures
aggregate_any [] = none
aggregate_any (r ∷ rs) = some (aggregate (r ∷ rs))

abbrev or_no_rows : Option Measures → Measures
or_no_rows none = no_rows
or_no_rows (some m) = m

same_hour-eq : (a b : Option ℕ) → same_hour a b ≡ true → a ≡ b
same_hour-eq none none h = refl
same_hour-eq none (some b) h = cc
same_hour-eq (some a) none h = cc
same_hour-eq (some a) (some b) h = ground arith

opt_eq-eq : (a b : Option String) → opt_eq a b ≡ true → a ≡ b
opt_eq-eq none none h = refl
opt_eq-eq none (some b) h = cc
opt_eq-eq (some a) none h = cc
opt_eq-eq (some a) (some b) h = ap some ((eq_iff a b).0 h)

same_key-eq : (a b : GroupKey) → same_key a b ≡ true → a ≡ b
unfolding same_key
same_key-eq a b h =
    let p = same_hour-eq a.payment_hour b.payment_hour (ground (arith, h)) in
    let q = opt_eq-eq a.country_code b.country_code (ground (arith, h)) in
    let r = opt_eq-eq a.payment_method b.payment_method (ground (arith, h)) in
    λ i. record { payment_hour = p i; country_code = q i; payment_method = r i }

opt_eq_self : (a : Option String) → opt_eq a a ≡ true
opt_eq_self none = refl
opt_eq_self (some a) = (eq_iff a a).1 refl

same_key_self : (a : GroupKey) → same_key a a ≡ true
unfolding same_key
same_key_self a = ground (arith, opt_eq_self a.country_code, opt_eq_self a.payment_method)

find-add_to_group :
    (key k : GroupKey) (r : SilverRow) (gs : List (GroupKey × Measures))
    → find_group key (add_to_group k r gs) ≡ (
        if same_key k key
        then some (add_row r (or_no_rows (find_group key gs)))
        else find_group key gs)
unfolding find_group add_to_group
find-add_to_group key k r [] = refl
find-add_to_group key k r ((j, m) ∷ gs) = elim (Bool-cases (same_group j k)) [
  | inl own ↦
      let e = ap (λ x. same_key x key) (same_key-eq j k (sym (grouped_by_key j k) ∙ own)) in
      rw own (ground (arith, e))
  | inr other ↦
      let apart = sym (grouped_by_key j k) ∙ other in
      rw other (elim (Bool-cases (same_key k key)) [
        | inl asked ↦
            let e = ap (λ x. same_key j x) (same_key-eq k key asked) in
            ground (arith, apart, asked, e, find-add_to_group key k r gs)
        | inr not_asked ↦ ground (arith, not_asked, find-add_to_group key k r gs)
      ])
]

pub total_count : List (GroupKey × Measures) → ℕ
total_count [] = 0
total_count ((k, m) ∷ gs) = m.payment_count + total_count gs

total_count-add_to_group :
    (k : GroupKey) (r : SilverRow) (gs : List (GroupKey × Measures))
    → total_count (add_to_group k r gs) ≡ suc (total_count gs)
unfolding total_count add_to_group
total_count-add_to_group k r [] = refl
total_count-add_to_group k r ((j, m) ∷ gs) = ground (arith, total_count-add_to_group k r gs)

aggregate_any-add :
    (r : SilverRow) (rs : List SilverRow)
    → aggregate_any (r ∷ rs) ≡ some (add_row r (or_no_rows (aggregate_any rs)))
aggregate_any-add r [] = ap some (sym (aggregate-add_row r []))
aggregate_any-add r (s ∷ rs) = ap some (sym (aggregate-add_row r (s ∷ rs)))

-- No key stands twice.
abbrev pub DistinctGroups : List (GroupKey × Measures) → Type 0
DistinctGroups [] = Unit
DistinctGroups ((k, m) ∷ gs) = (find_group k gs ≡ none) × DistinctGroups gs

same_key-comm_false : (a b : GroupKey) → same_key a b ≡ false → same_key b a ≡ false
same_key-comm_false a b h = elim (Bool-cases (same_key b a)) [
  | inl same ↦ ground (arith, h, same_key_self a, ap (λ x. same_key a x) (same_key-eq b a same))
  | inr other ↦ other
]

DistinctGroups-add_to_group :
    (k : GroupKey) (r : SilverRow) (gs : List (GroupKey × Measures))
    → DistinctGroups gs
    → DistinctGroups (add_to_group k r gs)
unfolding add_to_group
DistinctGroups-add_to_group k r [] h = (unfold find_group in refl, tt)
DistinctGroups-add_to_group k r ((j, m) ∷ gs) h = elim (Bool-cases (same_group j k)) [
  | inl own ↦ rw own h
  | inr other ↦ rw other (
    find-add_to_group j k r gs
        ∙ rw (same_key-comm_false j k (sym (grouped_by_key j k) ∙ other)) h.0,
    DistinctGroups-add_to_group k r gs h.1,
  )
]

module _ (date_trunc : ℕ → ℕ) where
  abbrev pub hour_in : Option ℕ → Option ℕ
  hour_in none = none
  hour_in (some t) = some (date_trunc t)

  abbrev pub in_group : GroupKey → SilverRow → Bool
  in_group key r =
      opt_eq r.payment_method key.payment_method
      && opt_eq r.country_code key.country_code
      && same_hour (hour_in r.created_at) key.payment_hour

  hour_lem : (o : Option ℕ) → hour_of date_trunc o ≡ hour_in o
  hour_lem none = refl
  hour_lem (some t) = refl

  in_group_lem :
      (key : GroupKey) (r : SilverRow) → same_key (key_of date_trunc r) key ≡ in_group key r
  unfolding same_key
  in_group_lem key r =
      ap
        (λ h.
          opt_eq r.payment_method key.payment_method
          && opt_eq r.country_code key.country_code
          && same_hour h key.payment_hour)
        (hour_lem r.created_at)

  -- Gold has a key exactly where silver has a row of that hour, country and method, nulls counting as
  -- one value of a column, and under it stand the count, the sums and the number of authorized rows of
  -- exactly those rows.
  pub find-gold :
      (key : GroupKey) (silver : List SilverRow)
      → find_group key (gold date_trunc silver) ≡ aggregate_any (filter (in_group key) silver)
  unfolding gold
  find-gold key [] = unfold find_group in refl
  find-gold key (r ∷ rs) = elim (Bool-cases (in_group key r)) [
    | inl inside ↦
        find-add_to_group key (key_of date_trunc r) r (gold date_trunc rs)
        ∙ rw (in_group_lem key r) (
            rw inside
              (rw (find-gold key rs) (sym (aggregate_any-add r (filter (in_group key) rs)))))
    | inr outside ↦
        find-add_to_group key (key_of date_trunc r) r (gold date_trunc rs)
        ∙ rw (in_group_lem key r) (rw outside (find-gold key rs))
  ]

  -- The counts of the gold table add up to the number of rows of silver, and no key stands twice.
  pub gold-totals :
      (silver : List SilverRow)
      → (total_count (gold date_trunc silver) ≡ length silver)
        × DistinctGroups (gold date_trunc silver)
  unfolding gold
  gold-totals [] = (unfold total_count in refl, tt)
  gold-totals (r ∷ rs) =
      let rest = gold-totals rs in
      (
        total_count-add_to_group (key_of date_trunc r) r (gold date_trunc rs) ∙ ap suc rest.0,
        DistinctGroups-add_to_group (key_of date_trunc r) r (gold date_trunc rs) rest.1,
      )
