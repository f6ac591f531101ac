-- ===== src/Medallion/Silver/Quality/Kept.antt =====
-- The quality of the rows of silver through the MERGE and the micro-batches.
use payments_data_platform.Base.{
  Result, ℕ, ◌≡◌, refl, String, str_eq, true, not, Option, none, some, List, [], ◌∷◌, map, filter,
  All, All-append, ok, err, ◌&&◌, arith, Bool-cases, inl, inr,
}
use payments_data_platform.Medallion.Rules.{
  SilverRow, Change, contains, cdc_upsert_ops, silver_merge, merge_targets, inserts, when_matched,
  after_merge, is_matched, sql_eq, newer, cdc_delete_op, cons_some, find_source,
}
use payments_data_platform.Medallion.Rules.Dlq.{DlqRow, MergeError}
use payments_data_platform.Medallion.Silver.{
  after_dlq, Lakehouse, processable, dead_letters, build_changes, accept, apply_changes,
  upsert_to_silver,
}
use payments_data_platform.Medallion.Validate.{Spark, validate_upserts}
use payments_data_platform.Medallion.Silver.Converge.{Batch, Outcome, unless_raised, run_batches}
use payments_data_platform.Medallion.Silver.Quality.{IsClean, contradicts, validate_upserts-IsClean}

-- The rows that a change set may write.
abbrev Writes : (k : Spark) → Change → Type 0
Writes k c = contains cdc_upsert_ops c.op ≡ true → IsClean k c.row

Writes-filter :
    (k : Spark) (cs : List Change)
    → All
        (IsClean k)
        (map (λ (d : Change). d.row) (filter (λ (d : Change). contains cdc_upsert_ops d.op) cs))
    → All (Writes k) cs
Writes-filter k [] h = tt
Writes-filter k (c ∷ cs) h = elim (Bool-cases (contains cdc_upsert_ops c.op)) [
  | inl writes ↦
      let both : All (IsClean k) (
          c.row
          ∷ map (λ (d : Change). d.row)
              (filter (λ (d : Change). contains cdc_upsert_ops d.op) cs)) =
        rw writes at h in
      (λ e. both.0, Writes-filter k cs both.1)
  | inr deletes ↦
      let rest : All (IsClean k)
          (map (λ (d : Change). d.row) (filter (λ (d : Change). contains cdc_upsert_ops d.op) cs)) =
        rw deletes at h in
      (λ e. absurd (contradicts (contains cdc_upsert_ops c.op) e deletes), Writes-filter k cs rest)
]

-- An update keeps the key of a clean row and takes the rest from a clean row.
keyed :
    (k : Spark) (r t : SilverRow)
    → IsClean k r
    → IsClean k t
    → IsClean k (record r { payment_id = t.payment_id })
keyed k r t h j = record {
  has_payment_id = j.has_payment_id;
  has_merchant_id = h.has_merchant_id;
  amount_fits = h.amount_fits;
  currency_fits = h.currency_fits;
  method_fits = h.method_fits;
  status_fits = h.status_fits;
  country_fits = h.country_fits;
  has_created_at = h.has_created_at;
  has_updated_at = h.has_updated_at;
  in_order = h.in_order;
  has_source_lsn = h.has_source_lsn;
}

abbrev CleanOption : Spark → Option SilverRow → Type 0
CleanOption k none = Unit
CleanOption k (some r) = IsClean k r

when_matched-CleanOption :
    (k : Spark) (c : Change) (t : SilverRow)
    → Writes k c
    → IsClean k t
    → CleanOption k (when_matched c t)
unfolding when_matched
when_matched-CleanOption k c t w h =
    elim (Bool-cases (newer c.row.source_lsn t.source_lsn && str_eq c.op cdc_delete_op)) [
      | inl deletes ↦ rw deletes tt
      | inr other ↦
          rw other
            (elim (Bool-cases
              (newer c.row.source_lsn t.source_lsn && contains cdc_upsert_ops c.op)) [
                | inl updates ↦ rw updates (keyed k c.row t (w (ground (arith, updates))) h)
                | inr neither ↦ rw neither h
              ])
    ]

after_merge-CleanOption :
    (k : Spark) (cs : List Change) (t : SilverRow)
    → All (Writes k) cs
    → IsClean k t
    → CleanOption k (after_merge (find_source t.payment_id cs) t)
unfolding find_source
after_merge-CleanOption k [] t w h = h
after_merge-CleanOption k (c ∷ cs) t w h =
    elim (Bool-cases (sql_eq t.payment_id c.row.payment_id)) [
      | inl joins ↦ rw joins (when_matched-CleanOption k c t w.0 h)
      | inr other ↦ rw other (after_merge-CleanOption k cs t w.1 h)
    ]

cons_some-IsClean :
    (k : Spark) (o : Option SilverRow) (ts : List SilverRow)
    → CleanOption k o
    → All (IsClean k) ts
    → All (IsClean k) (cons_some o ts)
cons_some-IsClean k none ts h j = j
cons_some-IsClean k (some r) ts h j = (h, j)

merge_targets-IsClean :
    (k : Spark) (cs : List Change) (ts : List SilverRow)
    → All (Writes k) cs
    → All (IsClean k) ts
    → All (IsClean k) (merge_targets cs ts)
unfolding merge_targets
merge_targets-IsClean k cs [] w h = tt
merge_targets-IsClean k cs (t ∷ ts) w h =
    cons_some-IsClean k (after_merge (find_source t.payment_id cs) t) (merge_targets cs ts)
      (after_merge-CleanOption k cs t w h.0) (merge_targets-IsClean k cs ts w h.1)

inserts-IsClean :
    (k : Spark) (ts : List SilverRow) (cs : List Change)
    → All (Writes k) cs
    → All (IsClean k) (inserts ts cs)
unfolding inserts
inserts-IsClean k ts [] w = tt
inserts-IsClean k ts (c ∷ cs) w =
    elim (Bool-cases (not (is_matched c.row.payment_id ts) && contains cdc_upsert_ops c.op)) [
      | inl fresh ↦ rw fresh (w.0 (ground (arith, fresh)), inserts-IsClean k ts cs w.1)
      | inr stays ↦ rw stays (inserts-IsClean k ts cs w.1)
    ]

accept-IsClean :
    (k : Spark) (fs : List (String × ℕ)) (merged l : Lakehouse)
    → (fs ≡ [] → All (IsClean k) merged.silver)
    → All (IsClean k) l.silver
    → All (IsClean k) (accept fs merged l).1.silver
accept-IsClean k [] merged l f h = f refl
accept-IsClean k (g ∷ fs) merged l f h = h

apply_changes-IsClean :
    (k : Spark) (cs : List Change) (l : Lakehouse)
    → All (IsClean k) l.silver
    → All (IsClean k) (apply_changes k cs l).1.silver
unfolding apply_changes silver_merge
apply_changes-IsClean k [] l h = h
apply_changes-IsClean k (c ∷ cs) l h =
    accept-IsClean k
      (validate_upserts k (
        map (λ (d : Change). d.row)
          (filter (λ (d : Change). contains cdc_upsert_ops d.op) (c ∷ cs))))
      _ l
      (λ e.
        let w = Writes-filter k (c ∷ cs) (
          validate_upserts-IsClean k
            (map (λ (d : Change). d.row)
              (filter (λ (d : Change). contains cdc_upsert_ops d.op) (c ∷ cs)))
            e) in
        All-append (IsClean k) (merge_targets (c ∷ cs) l.silver) (inserts l.silver (c ∷ cs))
          (merge_targets-IsClean k (c ∷ cs) l.silver w h) (inserts-IsClean k l.silver (c ∷ cs) w))
      h

after_dlq-IsClean :
    (k : Spark) (cs : List Change) (l : Lakehouse) (d : Result MergeError (Unit {0}) × List DlqRow)
    → All (IsClean k) l.silver
    → All (IsClean k) (after_dlq k cs l d).1.silver
after_dlq-IsClean k cs l (ok u, dlq) h = apply_changes-IsClean k cs (record l { dlq = dlq }) h
after_dlq-IsClean k cs l (err e, dlq) h = h

unless_raised-IsClean :
    (k : Spark) (step rest : Outcome)
    → All (IsClean k) step.1.silver
    → All (IsClean k) rest.1.silver
    → All (IsClean k) (unless_raised step rest).1.silver
unless_raised-IsClean k (ok u, after) rest h j = j
unless_raised-IsClean k (err fs, after) rest h j = h

-- If every row of silver is clean, then every row is clean after any run of micro-batches, whatever
-- the batches hold and whether or not one of them raises.
pub run_batches-IsClean :
    (k : Spark) (bs : List Batch) (l : Lakehouse)
    → All (IsClean k) l.silver
    → All (IsClean k) (run_batches k bs l).1.silver
unfolding run_batches upsert_to_silver
run_batches-IsClean k [] l h = h
run_batches-IsClean k (b ∷ bs) l h =
    let step = upsert_to_silver k b.now b.rows b.batch_id l in
    let next : All (IsClean k) step.1.silver =
      after_dlq-IsClean k (build_changes k b.now (processable k b.rows)) l
        (dead_letters k b.now b.rows b.batch_id l.dlq) h in
    unless_raised-IsClean k step (run_batches k bs step.1) next
      (run_batches-IsClean k bs step.1 next)
