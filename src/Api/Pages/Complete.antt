-- ===== src/Api/Pages/Complete.antt =====
-- The client that follows the cursors against the matching rows of the table.
use payments_data_platform.Base.{
  ℕ, zero, suc, ◌+◌, ◌≤◌, ◌<◌, ◌≡◌, refl, ap, sym, ◌∙◌, Bool, true, ◌&&◌, Option, none, some, List,
  [], ◌∷◌, ◌++◌, length, take, filter, All, count, length-append, String, arith, inl, inr, lt→ltb,
  Bool-cases, append_assoc,
}
use native.Mathlib.Decide.{dec_le}
use payments_data_platform.Base.Order.{Order}
use payments_data_platform.Api.Queries.{
  by_hour, by_country, by_method, Param, MetricsFilter, Cursor, Clause, page_where,
  hourly_metrics_sql,
}
use payments_data_platform.Api.Queries.Meaning.{
  GoldRow, eval_where, matches, filter_means, keyset_means,
}
use payments_data_platform.Api.Pages.{
  sorts_before, cursor_of, page_of, select_where, hourly_rows, fetch_all, follow,
}
use payments_data_platform.Base.Sort.{sorted, count-sorted, length-sorted}
use payments_data_platform.Api.Pages.Sorted.{
  row_lt, Ascending, DistinctKeys, row_lt_irrefl, row_lt_asymm, All-filter, sorted_by_key,
  Ascending-sorted, sorted-filter,
}
use payments_data_platform.Api.Pages.Split.{
  take_all, split_page, take-append_one, take-append_two, last?-append_one,
}

module _ (o : Order String) where
  filter_keeps :
      (p : GoldRow → Bool) (rs : List GoldRow) → All (λ r. p r ≡ true) rs → filter p rs ≡ rs
  filter_keeps p [] h = refl
  filter_keeps p (r ∷ rs) h = rw h.0 (ap (λ zs. r ∷ zs) (filter_keeps p rs h.1))

  Ascending-filter :
      (p : GoldRow → Bool) (rs : List GoldRow) → Ascending o rs → Ascending o (filter p rs)
  Ascending-filter p [] h = tt
  Ascending-filter p (r ∷ rs) h = elim (Bool-cases (p r)) [
    | inl e ↦ rw e (All-filter o (λ s. row_lt o r s ≡ true) p rs h.0, Ascending-filter p rs h.1)
    | inr e ↦ rw e (Ascending-filter p rs h.1)
  ]

  filter_and :
      (p q : GoldRow → Bool) (rs : List GoldRow)
      → filter (λ r. p r && q r) rs ≡ filter q (filter p rs)
  filter_and p q [] = refl
  filter_and p q (r ∷ rs) = ground (arith, filter_and p q rs)

  All-middle :
      (P : GoldRow → Type 0) (xs : List GoldRow) (l : GoldRow) (zs : List GoldRow)
      → All P (xs ++ l ∷ zs)
      → P l
  All-middle P [] l zs h = h.0
  All-middle P (x ∷ xs) l zs h = All-middle P xs l zs h.1

  -- What stands after a row is what is greater than it.
  filter_after :
      (xs : List GoldRow) (l : GoldRow) (zs : List GoldRow)
      → Ascending o (xs ++ l ∷ zs)
      → filter (row_lt o l) (xs ++ l ∷ zs) ≡ zs
  filter_after [] l zs h = rw (row_lt_irrefl o l) (filter_keeps (row_lt o l) zs h.0)
  filter_after (x ∷ xs) l zs h =
      rw (row_lt_asymm o x l (All-middle (λ s. row_lt o x s ≡ true) xs l zs h.0))
        (filter_after xs l zs h.1)

  -- If the condition means `p`, the engine returns the rows that meet `p`.
  select_means :
      (cs : List Clause) (ps : List Param) (p : GoldRow → Bool)
      → ((r : GoldRow) → eval_where o cs ps r ≡ some (p r))
      → (rs : List GoldRow) → select_where o cs ps rs ≡ some (filter p rs)
  unfolding select_where
  select_means cs ps p h [] = refl
  select_means cs ps p h (r ∷ rs) = rw (h r) (rw (select_means cs ps p h rs) (ground arith))

  -- What the client gets: the rows in key order, as many of each kind as there are matching rows
  -- in the table.
  pub record Gathered (table : List GoldRow) (f : MetricsFilter) (rows : List GoldRow)
      : Type 0 where
    pub in_order : Ascending o rows
    pub each_once : (q : GoldRow → Bool) → count q rows ≡ count q (filter (matches f) table)

  -- The matching rows, sorted.
  module _ (table : List GoldRow) (f : MetricsFilter) (distinct : DistinctKeys table) where
    abbrev matching : List GoldRow
    matching = filter (matches f) (sorted (row_lt o) table)

    sorted_means :
        (p : GoldRow → Bool)
        → sorted (sorts_before o (by_hour ∷ by_country ∷ by_method ∷ [])) (filter p table)
          ≡ filter p (sorted (row_lt o) table)
    sorted_means p = sorted_by_key o (filter p table) ∙ sorted-filter o p table distinct

    rows_first : (limit : ℕ) → hourly_rows o table f limit none ≡ some (take (limit + 1) matching)
    unfolding hourly_rows hourly_metrics_sql
    rows_first limit =
        rw
          (
            select_means (page_where f none).0 (page_where f none).1 (matches f) (filter_means o f)
                table,
            hourly_rows,
          )
          (ap (λ rs. some (take (limit + 1) rs)) (sorted_means (matches f)))

    rows_next :
        (limit : ℕ) (l : GoldRow)
        → hourly_rows o table f limit (some (cursor_of l))
          ≡ some (take (limit + 1) (filter (row_lt o l) matching))
    unfolding hourly_rows hourly_metrics_sql cursor_of
    rows_next limit l =
        rw
          (
            select_means (page_where f (some (cursor_of l))).0 (page_where f (some (cursor_of l))).1
                (λ r. matches f r && row_lt o l r)
                (keyset_means o f l.payment_hour l.country_code l.payment_method) table,
            hourly_rows,
          )
          (ap (λ rs. some (take (limit + 1) rs))
            (sorted_means (λ r. matches f r && row_lt o l r)
              ∙ filter_and (matches f) (row_lt o l) (sorted (row_lt o) table)))

    -- A page that is the last one.
    page_last :
        (limit : ℕ) (zs : List GoldRow)
        → length zs ≤ limit
        → page_of limit (take (limit + 1) zs) ≡ (zs, none)
    unfolding page_of
    page_last limit zs h =
        rw (take_all (limit + 1) zs (omega arith)) (rw (take_all limit zs h) (ground arith))

    -- A page with more rows behind it ends in its cursor's row.
    page_more :
        (n : ℕ) (ys : List GoldRow) (l r : GoldRow) (rest : List GoldRow)
        → length ys ≡ n
        → page_of (suc n) (take (suc n + 1) (ys ++ l ∷ r ∷ rest))
          ≡ (ys ++ l ∷ [], some (cursor_of l))
    unfolding page_of
    page_more n ys l r rest h =
        let e : suc n + 1 ≡ suc (suc n) = omega arith in
        rw e (
          rw (take-append_two n ys l r rest h) (
            rw (take-append_one n ys l (r ∷ []) h) (
              rw (last?-append_one ys l) (
                rw
                  (lt→ltb (suc n) (length (ys ++ l ∷ r ∷ []))
                    (omega (arith, h, length-append ys (l ∷ r ∷ []))))
                  refl))))

    fetch_step :
        (fuel limit : ℕ) (after next : Option Cursor) (rows page : List GoldRow)
        → hourly_rows o table f limit after ≡ some rows
        → page_of limit rows ≡ (page, next)
        → fetch_all o (suc fuel) table f limit after
          ≡ follow page next (λ c. fetch_all o fuel table f limit (some c))
    unfolding fetch_all
    fetch_step fuel limit after next rows page h e =
        rw (h, fetch_all)
          (ap
            (λ (q : List GoldRow × Option Cursor).
              follow q.0 q.1 (λ c. fetch_all o fuel table f limit (some c)))
            e)

    -- From a point in the list of matching rows the client gets what stands behind it.
    fetch_from :
        (fuel n : ℕ) (after : Option Cursor) (xs zs : List GoldRow)
        → Ascending o matching
        → matching ≡ xs ++ zs
        → hourly_rows o table f (suc n) after ≡ some (take (suc n + 1) zs)
        → length zs < fuel
        → fetch_all o fuel table f (suc n) after ≡ some zs
    fetch_from zero n after xs zs asc split rows h = absurd (omega arith)
    fetch_from (suc fuel) n after xs zs asc split rows h = elim (dec_le (length zs) (suc n)) [
      | yes last ↦
          fetch_step fuel (suc n) after none (take (suc n + 1) zs) zs rows
            (page_last (suc n) zs last)
      | no more ↦
          let (ys, l, r, rest, cut, k) = split_page n zs (omega arith) in
          let split' : matching ≡ xs ++ (ys ++ l ∷ r ∷ rest) = split ∙ ap (λ ws. xs ++ ws) cut in
          let regroup : matching ≡ (xs ++ ys) ++ l ∷ r ∷ rest =
            split' ∙ sym (append_assoc xs ys (l ∷ r ∷ rest)) in
          let behind : filter (row_lt o l) matching ≡ r ∷ rest =
            rw regroup (filter_after (xs ++ ys) l (r ∷ rest) (rw regroup at asc)) in
          let page : page_of (suc n) (take (suc n + 1) zs) ≡ (ys ++ l ∷ [], some (cursor_of l)) =
            rw cut (page_more n ys l r rest k) in
          let tail : fetch_all o fuel table f (suc n) (some (cursor_of l)) ≡ some (r ∷ rest) =
            fetch_from fuel n (some (cursor_of l)) ((xs ++ ys) ++ l ∷ []) (r ∷ rest) asc
              (regroup ∙ sym (append_assoc (xs ++ ys) (l ∷ []) (r ∷ rest)))
              (rw (rows_next (suc n) l) (rw behind refl))
              (omega (arith, ap length cut, length-append ys (l ∷ r ∷ rest))) in
          fetch_step fuel (suc n) after (some (cursor_of l)) (take (suc n + 1) zs) (ys ++ l ∷ [])
            rows page
          ∙ rw (tail, follow) (ap some (append_assoc ys (l ∷ []) (r ∷ rest) ∙ sym cut))
    ]

    matching-Gathered : Gathered table f matching
    matching-Gathered = record {
      in_order =
          Ascending-filter (matches f) (sorted (row_lt o) table)
            (Ascending-sorted o table distinct);
      each_once = λ q.
          ap (count q) (sym (sorted-filter o (matches f) table distinct))
          ∙ count-sorted (row_lt o) q (filter (matches f) table);
    }

    length-matching : length matching ≡ length (filter (matches f) table)
    length-matching =
        ap length (sym (sorted-filter o (matches f) table distinct))
        ∙ length-sorted (row_lt o) (filter (matches f) table)

    -- If the gold rows have distinct keys, in whatever order the table holds them, a client that asks
    -- for pages of at least one row and follows the cursors gets every row that matches the filter,
    -- once and in key order, without an engine error, given one unit of fuel more than there are
    -- matching rows.
    pub fetch_all_complete :
        (fuel limit : ℕ)
        → 0 < limit
        → length (filter (matches f) table) < fuel
        → (rows : List GoldRow) × (fetch_all o fuel table f limit none ≡ some rows)
          × Gathered table f rows
    fetch_all_complete fuel zero p h = absurd (omega arith)
    fetch_all_complete fuel (suc n) p h = (
      matching,
      fetch_from fuel n none [] matching (Gathered.in_order matching-Gathered) refl
          (rows_first (suc n)) (omega (arith, length-matching)),
      matching-Gathered,
    )
