-- ===== src/Medallion/Rules/Outcome.antt =====
-- What a change makes of the row of its id, apart from the branches of the MERGE.
use payments_data_platform.Base.{
  ℕ, ◌≡◌, refl, ap, sym, ◌∙◌, Bool, false, not, Option, none, some, List, [], ◌∷◌, arith,
  if◌then◌else◌, String, ◌||◌, ltb, str_eq, subst, some_eq, inl, inr, Bool-cases,
}
use payments_data_platform.Medallion.Rules.{
  SilverRow, Change, contains, newer, cdc_upsert_ops, sql_eq, find_source, when_matched,
  silver_merge,
}
use payments_data_platform.Medallion.Rules.Merged.{
  lookup_row, Unique, UniqueChanges, merge_key, lookup-merge_key, sql_eq_iff, sql_eq_comm,
}

-- A sequence number after another; null is neither after nor before any.
abbrev pub after_lsn : Option ℕ → Option ℕ → Bool
after_lsn (some s) (some t) = ltb t s
after_lsn (some s) none = false
after_lsn none t = false

-- What a change says: a row to have, no row, or nothing.
abbrev pub written_row : Change → Option SilverRow
written_row c = if str_eq "c" c.op || str_eq "r" c.op || str_eq "u" c.op then some c.row else none

-- What an id has after a change, from what it had: without a change what it had; a row yields only
-- to a change with a later sequence number, a delete to no row and an upsert to its row, and to
-- no other operation; without a row an upsert is inserted.
abbrev pub applied : Change → SilverRow → Option SilverRow
applied c t =
    if not (after_lsn c.row.source_lsn t.source_lsn)
    then some t
    else if str_eq c.op "d"
    then none
    else if str_eq "c" c.op || str_eq "r" c.op || str_eq "u" c.op
    then some c.row
    else some t

unfoldable pub outcome_of : Option Change → Option SilverRow → Option SilverRow
outcome_of none o = o
outcome_of (some c) none = written_row c
outcome_of (some c) (some t) = applied c t

newer_lem : (s t : Option ℕ) → newer s t ≡ after_lsn s t
unfolding newer
newer_lem none t = refl
newer_lem (some s) none = refl
newer_lem (some s) (some t) = refl

upserts_lem :
    (op : String) → contains cdc_upsert_ops op ≡ (str_eq "c" op || str_eq "r" op || str_eq "u" op)
unfolding contains
upserts_lem op = ground arith

same_row_key :
    (c : Change) (t : SilverRow)
    → c.row.payment_id ≡ t.payment_id
    → record c.row { payment_id = t.payment_id } ≡ c.row
same_row_key c t e = λ i. record c.row { payment_id = sym e i }

when_matched_lem :
    (c : Change) (t : SilverRow) → c.row.payment_id ≡ t.payment_id → when_matched c t ≡ applied c t
unfolding when_matched
when_matched_lem c t e =
    ground (
      arith,
      newer_lem c.row.source_lsn t.source_lsn,
      upserts_lem c.op,
      ap some (same_row_key c t e),
    )

merge_key_lem :
    (oc : Option Change) (ot : Option SilverRow)
    → ((c : Change) (t : SilverRow) → oc ≡ some c → ot ≡ some t → c.row.payment_id ≡ t.payment_id)
    → merge_key oc ot ≡ outcome_of oc ot
unfolding merge_key outcome_of
merge_key_lem none none h = refl
merge_key_lem none (some t) h = refl
merge_key_lem (some c) none h = ground (arith, upserts_lem c.op)
merge_key_lem (some c) (some t) h = when_matched_lem c t (h c t refl refl)

find_source-id :
    (id : ℕ) (cs : List Change) (c : Change)
    → find_source (some id) cs ≡ some c
    → c.row.payment_id ≡ some id
unfolding find_source
find_source-id id [] c h = absurd (cc h)
find_source-id id (d ∷ ds) c h = elim (Bool-cases (sql_eq (some id) d.row.payment_id)) [
  | inl here ↦
      let e : some d ≡ some c = rw here at h in
      let own = sql_eq_iff d.row.payment_id id (sql_eq_comm d.row.payment_id (some id) ∙ here) in
      subst (λ (x : Change). x.row.payment_id ≡ some id) (some_eq d c e) own
  | inr there ↦ find_source-id id ds c (rw there at h)
]

lookup_row-id :
    (id : ℕ) (ts : List SilverRow) (t : SilverRow)
    → lookup_row (some id) ts ≡ some t
    → t.payment_id ≡ some id
unfolding lookup_row
lookup_row-id id [] t h = absurd (cc h)
lookup_row-id id (u ∷ us) t h = elim (Bool-cases (sql_eq u.payment_id (some id))) [
  | inl here ↦
      let e : some u ≡ some t = rw here at h in
      subst (λ (x : SilverRow). x.payment_id ≡ some id) (some_eq u t e)
        (sql_eq_iff u.payment_id id here)
  | inr there ↦ lookup_row-id id us t (rw there at h)
]

-- If silver holds no id twice and the change set names no id twice, then after the MERGE each id
-- has the outcome of its own change on its own row: a row is deleted or replaced only by a change
-- with a later sequence number, and only an upsert is inserted.
pub lookup-silver_merge :
    (target : List SilverRow) (source : List Change) (id : ℕ)
    → Unique target
    → UniqueChanges source
    → lookup_row (some id) (silver_merge target source)
      ≡ outcome_of (find_source (some id) source) (lookup_row (some id) target)
lookup-silver_merge target source id u v =
    lookup-merge_key target source id u v
    ∙ merge_key_lem (find_source (some id) source) (lookup_row (some id) target)
        (λ c t p q. find_source-id id source c p ∙ sym (lookup_row-id id target t q))
