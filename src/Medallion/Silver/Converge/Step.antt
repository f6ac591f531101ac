-- ===== src/Medallion/Silver/Converge/Step.antt =====
-- One batch of projected events under the MERGE, for one id.
use payments_data_platform.Base.{
  ℕ, ◌≡◌, refl, ap, subst, sym, ◌∙◌, String, true, not, Option, none, some, List, [], ◌∷◌, ◌++◌,
  map, str_eq, eq_iff, is_some, if◌then◌else◌, arith, Bool-cases, Option-cases, inl, inr,
}
use payments_data_platform.Medallion.Rules.{
  SilverRow, contains, cdc_upsert_ops, cdc_ops, cdc_delete_op, sql_eq, newer, when_matched,
  silver_merge,
}
use payments_data_platform.Medallion.Rules.Merged.{
  Unique, lookup_row, merge_key, lookup-merge_key, sql_eq_iff, sql_eq_comm,
}
use payments_data_platform.Medallion.Silver.{Projected, latest_per_key}
use payments_data_platform.Medallion.Silver.Latest.{
  id_of, lsn_of, last_of, follows, Rising, Rising-last_of, find-latest_per_key, find_source-map,
  latest_per_key-UniqueChanges,
}

abbrev pub KnownOps : List Projected → Type 0
KnownOps [] = Unit
KnownOps (p ∷ ps) = (contains cdc_ops p.change.op ≡ true) × KnownOps ps

-- What an event leaves of its id: its row, or nothing if it is a delete.
abbrev pub left_by : Projected → Option SilverRow
left_by p = if contains cdc_upsert_ops p.change.op then some p.change.row else none

abbrev pub after_last : Option Projected → Option SilverRow → Option SilverRow
after_last none before = before
after_last (some p) before = left_by p

-- What stands under an id after some events on what stood there before.
abbrev pub settle : ℕ → List Projected → Option SilverRow → Option SilverRow
settle id ps before = after_last (last_of (some id) ps) before

abbrev pub low_of : Option Projected → Option ℕ → Option ℕ
low_of none low = low
low_of (some p) low = lsn_of p

abbrev pub low_after : Option ℕ → Option ℕ → List Projected → Option ℕ
low_after id low ps = low_of (last_of id ps) low

-- The stored row carries the number that the events go on from.
abbrev pub Below : Option SilverRow → Option ℕ → Type 0
Below none low = Unit
Below (some t) low = (t.source_lsn ≡ low) × (is_some low ≡ true)

pub last_of-append :
    (id : Option ℕ) (ps qs : List Projected)
    → last_of id (ps ++ qs) ≡ elim (last_of id qs) [ none ↦ last_of id ps | some q ↦ some q ]
unfolding last_of
last_of-append id [] qs = ground arith
last_of-append id (p ∷ ps) qs = ground (arith, last_of-append id ps qs)

last_of-id :
    (id : Option ℕ) (ps : List Projected) (p : Projected)
    → last_of id ps ≡ some p
    → sql_eq id (id_of p) ≡ true
unfolding last_of
last_of-id id [] p h = cc
last_of-id id (q ∷ ps) p h = ground (arith, last_of-id id ps p)

last_of-KnownOps :
    (id : Option ℕ) (ps : List Projected) (p : Projected)
    → KnownOps ps
    → last_of id ps ≡ some p
    → contains cdc_ops p.change.op ≡ true
unfolding last_of
last_of-KnownOps id [] p k h = cc
last_of-KnownOps id (q ∷ ps) p k h = ground (arith, k.0, last_of-KnownOps id ps p k.1)

lookup_row-id :
    (id : ℕ) (ts : List SilverRow) (t : SilverRow)
    → lookup_row (some id) ts ≡ some t
    → t.payment_id ≡ some id
unfolding lookup_row
lookup_row-id id [] t h = cc
lookup_row-id id (u ∷ ts) t h = ground (arith, lookup_row-id id ts t, sql_eq_iff u.payment_id id)

op_cases :
    (op : String)
    → contains cdc_ops op ≡ true
    → contains cdc_upsert_ops op ≡ not (str_eq op cdc_delete_op)
unfolding contains
op_cases op h = elim (Bool-cases (str_eq op cdc_delete_op)) [
  | inl deletes ↦ let e : op ≡ "d" = (eq_iff op cdc_delete_op).0 deletes in rw e refl
  | inr other ↦ ground (arith, h, eq_iff "d" op, eq_iff op "d")
]

follows-newer : (low l : Option ℕ) → is_some low ≡ true → follows low l ≡ true → newer l low ≡ true
unfolding newer
follows-newer low l s h = ground arith

take_key : (r : SilverRow) (i : Option ℕ) → r.payment_id ≡ i → (record r { payment_id = i }) ≡ r
take_key r i e = ap (λ j. record r { payment_id = j }) (sym e)

merge_key-event :
    (p : Projected) (low : Option ℕ) (t : SilverRow)
    → contains cdc_ops p.change.op ≡ true
    → follows low (lsn_of p) ≡ true
    → Below (some t) low
    → p.change.row.payment_id ≡ t.payment_id
    → when_matched p.change t ≡ left_by p
unfolding when_matched
merge_key-event p low t known f b e =
    let fresh : newer p.change.row.source_lsn t.source_lsn ≡ true =
      rw b.0 (follows-newer low (lsn_of p) b.1 f) in
    ground (arith, fresh, op_cases p.change.op known, take_key p.change.row t.payment_id e)

changed_to :
    (id : ℕ) (ps : List Projected) (low : Option ℕ) (before : Option SilverRow) (p : Projected)
    → KnownOps ps
    → Rising (some id) low ps
    → Below before low
    → ((t : SilverRow) → before ≡ some t → t.payment_id ≡ some id)
    → last_of (some id) ps ≡ some p
    → merge_key (some p.change) before ≡ left_by p
unfolding merge_key
changed_to id ps low none p known rising below key e = refl
changed_to id ps low (some t) p known rising below key e =
    merge_key-event p low t (last_of-KnownOps (some id) ps p known e)
      (Rising-last_of (some id) low ps p rising e) below
      (sql_eq_iff (id_of p) id (sql_eq_comm (id_of p) (some id) ∙ last_of-id (some id) ps p e)
        ∙ sym (key t refl))

merge_key-quiet : (before : Option SilverRow) → merge_key none before ≡ before
unfolding merge_key
merge_key-quiet none = refl
merge_key-quiet (some t) = refl

-- One batch: what stood under the id settles.
pub batch_settles :
    (id : ℕ) (silver : List SilverRow) (ps : List Projected) (low : Option ℕ)
    → Unique silver
    → KnownOps ps
    → Rising (some id) low ps
    → Below (lookup_row (some id) silver) low
    → lookup_row
        (some id)
        (silver_merge silver (map (λ (p : Projected). p.change) (latest_per_key ps)))
      ≡ settle id ps (lookup_row (some id) silver)
batch_settles id silver ps low u known rising below =
    lookup-merge_key silver (map (λ (p : Projected). p.change) (latest_per_key ps)) id u
      (latest_per_key-UniqueChanges ps)
    ∙ ap (λ c. merge_key c (lookup_row (some id) silver))
        (find_source-map (some id) (latest_per_key ps))
    ∙ rw (find-latest_per_key id low ps rising) (elim (Option-cases (last_of (some id) ps)) [
      | inl quiet ↦ rw quiet (merge_key-quiet (lookup_row (some id) silver))
      | inr (p, e) ↦ rw e (
          changed_to id ps low (lookup_row (some id) silver) p known rising below
            (lookup_row-id id silver) e)
    ])

low_after-cons :
    (id low : Option ℕ) (p : Projected) (ps : List Projected)
    → low_after id (if sql_eq id (id_of p) then lsn_of p else low) ps ≡ low_after id low (p ∷ ps)
unfolding last_of
low_after-cons id low p ps = ground arith

pub Rising-append :
    (id low : Option ℕ) (ps qs : List Projected)
    → Rising id low (ps ++ qs)
    → Rising id low ps × Rising id (low_after id low ps) qs
unfolding last_of
Rising-append id low [] qs h = (tt, h)
Rising-append id low (p ∷ ps) qs h =
    let rest = Rising-append id (if sql_eq id (id_of p) then lsn_of p else low) ps qs h.1 in
    ((h.0, rest.0), subst (λ l. Rising id l qs) (low_after-cons id low p ps) rest.1)

Below-left_by :
    (low : Option ℕ) (p : Projected) → follows low (lsn_of p) ≡ true → Below (left_by p) (lsn_of p)
Below-left_by low p h = elim (Bool-cases (contains cdc_upsert_ops p.change.op)) [
  | inl kept ↦ rw kept (refl, ground arith)
  | inr gone ↦ rw gone tt
]

Below-after :
    (last : Option Projected) (low : Option ℕ) (before : Option SilverRow)
    → ((p : Projected) → last ≡ some p → follows low (lsn_of p) ≡ true)
    → Below before low
    → Below (after_last last before) (low_of last low)
Below-after none low before f below = below
Below-after (some p) low before f below = Below-left_by low p (f p refl)

pub Below-settle :
    (id : ℕ) (ps : List Projected) (low : Option ℕ) (before : Option SilverRow)
    → Rising (some id) low ps
    → Below before low
    → Below (settle id ps before) (low_after (some id) low ps)
Below-settle id ps low before rising below =
    Below-after (last_of (some id) ps) low before (λ p. Rising-last_of (some id) low ps p rising)
      below

settle-join :
    (last later : Option Projected) (before : Option SilverRow)
    → after_last (elim later [ none ↦ last | some q ↦ some q ]) before
      ≡ after_last later (after_last last before)
settle-join last none before = refl
settle-join last (some q) before = refl

pub settle-append :
    (id : ℕ) (ps qs : List Projected) (before : Option SilverRow)
    → settle id (ps ++ qs) before ≡ settle id qs (settle id ps before)
settle-append id ps qs before =
    ap (λ l. after_last l before) (last_of-append (some id) ps qs)
    ∙ settle-join (last_of (some id) ps) (last_of (some id) qs) before
