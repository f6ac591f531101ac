-- ===== src/Medallion/Rules/Distinct.antt =====
-- The ids of silver under the MERGE of config/spark/jobs/payment_rules.py.
use payments_data_platform.Base.{
  ℕ, ◌≡◌, refl, ap, ◌∙◌, true, not, Option, none, some, List, [], ◌∷◌, ◌++◌, ◌&&◌, All, arith,
  is_some, inl, inr, Bool-cases, Option-cases,
}
use payments_data_platform.Medallion.Rules.{
  SilverRow, Change, contains, cdc_upsert_ops, sql_eq, find_source, after_merge, cons_some,
  merge_targets, is_matched, inserts, silver_merge,
}
use payments_data_platform.Medallion.Rules.Merged.{
  lookup_row, Unique, UniqueChanges, updated, inserted, after_merge-id, lookup-merge_targets,
  lookup-inserts, is_matched-lookup, lookup-append, sql_eq_refl,
}

lookup-null : (ts : List SilverRow) → lookup_row none ts ≡ none
unfolding lookup_row sql_eq
lookup-null [] = refl
lookup-null (t ∷ ts) = ground (arith, lookup-null ts)

absent-merge_targets :
    (cs : List Change) (id : Option ℕ) (ts : List SilverRow)
    → Unique ts
    → lookup_row id ts ≡ none
    → lookup_row id (merge_targets cs ts) ≡ none
absent-merge_targets cs none ts u h = lookup-null (merge_targets cs ts)
absent-merge_targets cs (some id) ts u h = lookup-merge_targets cs id ts u ∙ ap (updated cs id) h

Unique-cons :
    (o : Option SilverRow) (ts : List SilverRow)
    → ((t : SilverRow) → o ≡ some t → lookup_row t.payment_id ts ≡ none)
    → Unique ts
    → Unique (cons_some o ts)
Unique-cons none ts h u = u
Unique-cons (some t) ts h u = (h t refl, u)

Unique-merge_targets :
    (cs : List Change) (ts : List SilverRow) → Unique ts → Unique (merge_targets cs ts)
unfolding merge_targets
Unique-merge_targets cs [] u = tt
Unique-merge_targets cs (t ∷ ts) u =
    Unique-cons (after_merge (find_source t.payment_id cs) t) (merge_targets cs ts)
      (λ v p.
        rw (after_merge-id (find_source t.payment_id cs) t v p)
          (absent-merge_targets cs t.payment_id ts u.1 u.0))
      (Unique-merge_targets cs ts u.1)

absent-inserts :
    (id : Option ℕ) (ts : List SilverRow) (cs : List Change)
    → UniqueChanges cs
    → find_source id cs ≡ none
    → lookup_row id (inserts ts cs) ≡ none
absent-inserts none ts cs u h = lookup-null (inserts ts cs)
absent-inserts (some id) ts cs u h = lookup-inserts id ts cs u ∙ ap (inserted ts id) h

Unique-inserts :
    (ts : List SilverRow) (cs : List Change) → UniqueChanges cs → Unique (inserts ts cs)
unfolding inserts
Unique-inserts ts [] u = tt
Unique-inserts ts (c ∷ cs) u =
    elim (Bool-cases (not (is_matched c.row.payment_id ts) && contains cdc_upsert_ops c.op)) [
      | inl taken ↦
          rw taken (absent-inserts c.row.payment_id ts cs u.1 u.0, Unique-inserts ts cs u.1)
      | inr left ↦ rw left (Unique-inserts ts cs u.1)
    ]

-- A row whose id is in the target blocks an insert under that id.
matched-inserts :
    (id : Option ℕ) (ts : List SilverRow) (cs : List Change)
    → UniqueChanges cs
    → is_some (lookup_row id ts) ≡ true
    → lookup_row id (inserts ts cs) ≡ none
matched-inserts none ts cs u h = lookup-null (inserts ts cs)
matched-inserts (some id) ts cs u h =
    ground (arith, lookup-inserts id ts cs u, is_matched-lookup id ts)

abbrev Blocked : List SilverRow → List Change → SilverRow → Type 0
Blocked ts cs r = lookup_row r.payment_id (inserts ts cs) ≡ none

head-found :
    (r : SilverRow) (us : List SilverRow) (id : ℕ)
    → r.payment_id ≡ some id
    → is_some (lookup_row (some id) (r ∷ us)) ≡ true
unfolding lookup_row
head-found r us id e = ground (arith, sql_eq_refl id)

tail-found :
    (r : SilverRow) (us : List SilverRow) (id : ℕ)
    → is_some (lookup_row (some id) us) ≡ true
    → is_some (lookup_row (some id) (r ∷ us)) ≡ true
unfolding lookup_row
tail-found r us id h = ground arith

-- Every row of a suffix of the target is in the target, or has no id.
Blocked-suffix :
    (ts : List SilverRow) (cs : List Change) (us : List SilverRow)
    → UniqueChanges cs
    → ((id : ℕ)
        → is_some (lookup_row (some id) us) ≡ true
        → is_some (lookup_row (some id) ts) ≡ true)
    → All (Blocked ts cs) us
Blocked-suffix ts cs [] u sub = tt
Blocked-suffix ts cs (r ∷ us) u sub = (
  elim (Option-cases r.payment_id) [
    | inl null ↦ rw null (lookup-null (inserts ts cs))
    | inr (id, e) ↦ rw e (matched-inserts (some id) ts cs u (sub id (head-found r us id e)))
  ],
  Blocked-suffix ts cs us u (λ id h. sub id (tail-found r us id h)),
)

Blocked-cons :
    (ts : List SilverRow) (cs ds : List Change) (r : SilverRow) (us : List SilverRow)
    → Blocked ts cs r
    → All (Blocked ts cs) us
    → All (Blocked ts cs) (cons_some (after_merge (find_source r.payment_id ds) r) us)
Blocked-cons ts cs ds r us b h = elim (Option-cases (after_merge (find_source r.payment_id ds) r)) [
  | inl gone ↦ rw gone h
  | inr (v, e) ↦ rw e (rw (after_merge-id (find_source r.payment_id ds) r v e) b, h)
]

Blocked-merge_targets :
    (ts : List SilverRow) (cs ds : List Change) (us : List SilverRow)
    → All (Blocked ts cs) us
    → All (Blocked ts cs) (merge_targets ds us)
unfolding merge_targets
Blocked-merge_targets ts cs ds [] h = tt
Blocked-merge_targets ts cs ds (r ∷ us) h =
    Blocked-cons ts cs ds r (merge_targets ds us) h.0 (Blocked-merge_targets ts cs ds us h.1)

lookup_both :
    (id : Option ℕ) (us vs : List SilverRow)
    → lookup_row id us ≡ none
    → lookup_row id vs ≡ none
    → lookup_row id (us ++ vs) ≡ none
lookup_both id us vs h k = ground (arith, lookup-append id us vs)

Unique-append :
    (us vs : List SilverRow)
    → Unique us
    → Unique vs
    → All (λ r. lookup_row r.payment_id vs ≡ none) us
    → Unique (us ++ vs)
Unique-append [] vs u v h = v
Unique-append (r ∷ us) vs u v h =
    (lookup_both r.payment_id us vs u.0 h.0, Unique-append us vs u.1 v h.1)

-- One row for an id stays one row for an id under the MERGE of a change set that names no id twice.
pub silver_merge-Unique :
    (target : List SilverRow) (source : List Change)
    → Unique target
    → UniqueChanges source
    → Unique (silver_merge target source)
unfolding silver_merge
silver_merge-Unique target source u v =
    Unique-append (merge_targets source target) (inserts target source)
      (Unique-merge_targets source target u) (Unique-inserts target source v)
      (Blocked-merge_targets target source source target
        (Blocked-suffix target source target v (λ id h. h)))
