-- ===== src/Medallion/Rules/Merged.antt =====
-- The MERGE of config/spark/jobs/payment_rules.py key by key.
use payments_data_platform.Base.{
  ℕ, ◌≡◌, refl, ap, sym, ◌∙◌, Bool, true, false, not, Option, none, some, List, [], ◌∷◌, ◌++◌, ◌&&◌,
  arith, is_some, if◌then◌else◌, inl, inr, append-nil, Bool-cases,
}
use payments_data_platform.Medallion.Rules.{
  SilverRow, Change, contains, cdc_upsert_ops, sql_eq, find_source, when_matched, after_merge,
  cons_some, merge_targets, is_matched, inserts, silver_merge,
}

-- The row of silver with an id.
unfoldable pub lookup_row : Option ℕ → List SilverRow → Option SilverRow
lookup_row id [] = none
lookup_row id (t ∷ ts) = if sql_eq t.payment_id id then some t else lookup_row id ts

-- No id stands twice.
abbrev pub Unique : List SilverRow → Type 0
Unique [] = Unit
Unique (t ∷ ts) = (lookup_row t.payment_id ts ≡ none) × Unique ts

abbrev pub UniqueChanges : List Change → Type 0
UniqueChanges [] = Unit
UniqueChanges (c ∷ cs) = (find_source c.row.payment_id cs ≡ none) × UniqueChanges cs

-- One id under the MERGE.
unfoldable pub merge_key : Option Change → Option SilverRow → Option SilverRow
merge_key c (some t) = after_merge c t
merge_key none none = none
merge_key (some c) none = if contains cdc_upsert_ops c.op then some c.row else none

pub sql_eq_iff : (a : Option ℕ) (id : ℕ) → sql_eq a (some id) ≡ true → a ≡ some id
unfolding sql_eq
sql_eq_iff none id h = cc
sql_eq_iff (some a) id h = ground arith

pub sql_eq_refl : (id : ℕ) → sql_eq (some id) (some id) ≡ true
unfolding sql_eq
sql_eq_refl id = ground arith

pub sql_eq_comm : (a b : Option ℕ) → sql_eq a b ≡ sql_eq b a
unfolding sql_eq
sql_eq_comm none none = refl
sql_eq_comm none (some b) = refl
sql_eq_comm (some a) none = refl
sql_eq_comm (some a) (some b) = ground arith

pub lookup-append :
    (id : Option ℕ) (ts us : List SilverRow)
    → lookup_row id (ts ++ us)
      ≡ elim (lookup_row id ts) [ none ↦ lookup_row id us | some t ↦ some t ]
unfolding lookup_row
lookup-append id [] us = refl
lookup-append id (t ∷ ts) us = ground (arith, lookup-append id ts us)

-- An update keeps the key.
pub after_merge-id :
    (c : Option Change) (t u : SilverRow) → after_merge c t ≡ some u → u.payment_id ≡ t.payment_id
unfolding when_matched
after_merge-id none t u h = ground arith
after_merge-id (some c) t u h = ground arith

lookup-cons_here :
    (o : Option SilverRow) (id : ℕ) (ts : List SilverRow)
    → ((u : SilverRow) → o ≡ some u → u.payment_id ≡ some id)
    → lookup_row (some id) ts ≡ none
    → lookup_row (some id) (cons_some o ts) ≡ o
unfolding lookup_row
lookup-cons_here none id ts h e = e
lookup-cons_here (some u) id ts h e = rw (h u refl) (rw (sql_eq_refl id) refl)

lookup-cons_there :
    (o : Option SilverRow) (id p : Option ℕ) (ts : List SilverRow)
    → ((u : SilverRow) → o ≡ some u → u.payment_id ≡ p)
    → sql_eq p id ≡ false
    → lookup_row id (cons_some o ts) ≡ lookup_row id ts
unfolding lookup_row
lookup-cons_there none id p ts h e = refl
lookup-cons_there (some u) id p ts h e = rw (h u refl) (rw e refl)

abbrev pub updated : List Change → ℕ → Option SilverRow → Option SilverRow
updated cs id none = none
updated cs id (some t) = after_merge (find_source (some id) cs) t

pub lookup-merge_targets :
    (cs : List Change) (id : ℕ) (ts : List SilverRow)
    → Unique ts
    → lookup_row (some id) (merge_targets cs ts) ≡ updated cs id (lookup_row (some id) ts)
unfolding lookup_row merge_targets
lookup-merge_targets cs id [] u = refl
lookup-merge_targets cs id (t ∷ ts) u = elim (Bool-cases (sql_eq t.payment_id (some id))) [
  | inl here ↦
      let e = sql_eq_iff t.payment_id id here in
      let gone : lookup_row (some id) ts ≡ none = rw (sym e) u.0 in
      rw here (
        lookup-cons_here (after_merge (find_source t.payment_id cs) t) id (merge_targets cs ts)
          (λ v p. after_merge-id (find_source t.payment_id cs) t v p ∙ e)
          (lookup-merge_targets cs id ts u.1 ∙ ap (updated cs id) gone)
        ∙ ap (λ i. after_merge (find_source i cs) t) e)
  | inr there ↦ rw there (
      lookup-cons_there (after_merge (find_source t.payment_id cs) t) (some id) t.payment_id
        (merge_targets cs ts) (after_merge-id (find_source t.payment_id cs) t) there
      ∙ lookup-merge_targets cs id ts u.1)
]

pub is_matched-lookup :
    (id : ℕ) (ts : List SilverRow) → is_matched (some id) ts ≡ is_some (lookup_row (some id) ts)
unfolding is_matched lookup_row
is_matched-lookup id [] = refl
is_matched-lookup id (t ∷ ts) = ground (arith, is_matched-lookup id ts)

-- What is inserted under an id.
abbrev pub inserted : List SilverRow → ℕ → Option Change → Option SilverRow
inserted ts id none = none
inserted ts id (some c) =
    if not (is_matched (some id) ts) && contains cdc_upsert_ops c.op then some c.row else none

lookup-if_cons :
    (b : Bool) (r : SilverRow) (id : ℕ) (us : List SilverRow)
    → lookup_row (some id) (if b then r ∷ us else us)
      ≡ (if sql_eq r.payment_id (some id) && b then some r else lookup_row (some id) us)
unfolding lookup_row
lookup-if_cons true r id us = ground arith
lookup-if_cons false r id us = ground arith

pub lookup-inserts :
    (id : ℕ) (ts : List SilverRow) (cs : List Change)
    → UniqueChanges cs
    → lookup_row (some id) (inserts ts cs) ≡ inserted ts id (find_source (some id) cs)
unfolding inserts find_source
lookup-inserts id ts [] u = unfold lookup_row in refl
lookup-inserts id ts (c ∷ cs) u =
    let takes = not (is_matched c.row.payment_id ts) && contains cdc_upsert_ops c.op in
    let step = lookup-if_cons takes c.row id (inserts ts cs) in
    elim (Bool-cases (sql_eq c.row.payment_id (some id))) [
      | inl here ↦
          let e = sql_eq_iff c.row.payment_id id here in
          let gone : find_source (some id) cs ≡ none = rw (sym e) u.0 in
          let rest : lookup_row (some id) (inserts ts cs) ≡ none =
            lookup-inserts id ts cs u.1 ∙ ap (inserted ts id) gone in
          ground (arith, step, rest, here, e, sql_eq_comm c.row.payment_id (some id))
      | inr there ↦
          ground (
            arith,
            step,
            there,
            lookup-inserts id ts cs u.1,
            sql_eq_comm c.row.payment_id (some id),
          )
    ]

pub lookup-merge_key :
    (target : List SilverRow) (source : List Change) (id : ℕ)
    → Unique target
    → UniqueChanges source
    → lookup_row (some id) (silver_merge target source)
      ≡ merge_key (find_source (some id) source) (lookup_row (some id) target)
unfolding silver_merge merge_key
lookup-merge_key target source id u v =
    lookup-append (some id) (merge_targets source target) (inserts target source)
    ∙ ground (
      arith,
      lookup-merge_targets source id target u,
      lookup-inserts id target source v,
      is_matched-lookup id target,
    )

merge_targets-nothing : (ts : List SilverRow) → merge_targets [] ts ≡ ts
unfolding merge_targets find_source
merge_targets-nothing [] = refl
merge_targets-nothing (t ∷ ts) = ap (λ us. t ∷ us) (merge_targets-nothing ts)

-- An empty change set leaves silver as it is.
pub silver_merge-nothing : (ts : List SilverRow) → silver_merge ts [] ≡ ts
unfolding silver_merge inserts
silver_merge-nothing ts = append-nil (merge_targets [] ts) ∙ merge_targets-nothing ts
