-- ===== src/Medallion/Silver/Converge.antt =====
-- Runs of the micro-batches of `foreachBatch` in config/spark/jobs/silver_payments.py, against the
-- last event of an id.
pub mod Step
pub mod Agree
use payments_data_platform.Base.{
  ℕ, ◌≡◌, refl, ap, sym, ◌∙◌, String, Bool, true, false, not, Option, none, some, List, [], ◌∷◌,
  ◌++◌, map, filter, append-nil, Result, ok, err, is_some, if◌then◌else◌, str_eq, ◌&&◌, arith,
  Bool-cases, Option-cases, inl, inr,
}
use payments_data_platform.Medallion.Rules.{
  SilverRow, Change, contains, cdc_upsert_ops, cdc_ops, cdc_delete_op, newer, find_source,
  when_matched, sql_eq, silver_merge,
}
use payments_data_platform.Medallion.Rules.Merged.{
  Unique, lookup_row, UniqueChanges, silver_merge-nothing, merge_key, lookup-merge_key, sql_eq_refl,
}
use payments_data_platform.Medallion.Rules.Dlq.{DlqRow, MergeError}
use payments_data_platform.Medallion.Rules.Distinct.{silver_merge-Unique}
use payments_data_platform.Medallion.Silver.{
  BronzeRow, Projected, Lakehouse, json_path, project, op_in, known_ops, processable, dead_letters,
  build_changes, latest_per_key, text_or, accept, after_dlq, apply_changes, upsert_to_silver,
}
use payments_data_platform.Medallion.Validate.{Spark, validate_upserts}
use payments_data_platform.Medallion.Silver.Latest.{last_of, Rising, latest_per_key-UniqueChanges}
use Step.{
  KnownOps, after_last, Below, low_after, settle, settle-append, Below-settle, last_of-append,
  Rising-append, batch_settles,
}

-- A micro-batch: the clock's reading, Spark's number for it, its rows.
pub record Batch : Type 0 where
  pub now : ℕ
  pub batch_id : ℕ
  pub rows : List BronzeRow

abbrev pub Outcome : Type 0
Outcome = Result (List (String × ℕ)) (Unit {0}) × Lakehouse

abbrev pub unless_raised : Outcome → Outcome → Outcome
unless_raised (ok u, after) rest = rest
unless_raised (err fs, after) rest = (err fs, after)

-- The batches in turn; the query stops at the first that raises.
unfoldable pub run_batches :
    Spark → List Batch → Lakehouse → Result (List (String × ℕ)) (Unit {0}) × Lakehouse
unfolding upsert_to_silver
run_batches k [] l = (ok tt, l)
run_batches k (b ∷ bs) l =
    let step = upsert_to_silver k b.now b.rows b.batch_id l in
    unless_raised step (run_batches k bs step.1)

-- All the events of some batches, in their order.
abbrev pub events : Spark → List Batch → List Projected
events k [] = []
events k (b ∷ bs) = map (project k b.now) (processable k b.rows) ++ events k bs

op_in-text : (op : Option String) → op_in cdc_ops op ≡ true → contains cdc_ops (text_or op) ≡ true
op_in-text none h = cc
op_in-text (some s) h = h

KnownOps-project :
    (k : Spark) (now : ℕ) (rs : List BronzeRow)
    → KnownOps
        (map (project k now) (filter (λ (r : BronzeRow). op_in cdc_ops (json_path k "$.op" r)) rs))
unfolding project
KnownOps-project k now [] = tt
KnownOps-project k now (r ∷ rs) = elim (Bool-cases (op_in cdc_ops (json_path k "$.op" r))) [
  | inl known ↦ rw known (op_in-text (json_path k "$.op" r) known, KnownOps-project k now rs)
  | inr unknown ↦ rw unknown (KnownOps-project k now rs)
]

accept_ok :
    (fs : List (String × ℕ)) (merged l : Lakehouse)
    → (accept fs merged l).0 ≡ ok tt
    → (accept fs merged l).1 ≡ merged
accept_ok [] merged l h = refl
accept_ok (f ∷ fs) merged l h = cc

-- Where the change set passes, the MERGE is what happens to silver.
apply_changes-merges :
    (k : Spark) (cs : List Change) (l : Lakehouse)
    → (apply_changes k cs l).0 ≡ ok tt
    → (apply_changes k cs l).1.silver ≡ silver_merge l.silver cs
unfolding apply_changes
apply_changes-merges k [] l h = sym (silver_merge-nothing l.silver)
apply_changes-merges k (c ∷ cs) l h =
    ap (λ (m : Lakehouse). m.silver)
      (accept_ok
        (validate_upserts k (
          map (λ (d : Change). d.row)
            (filter (λ (d : Change). contains cdc_upsert_ops d.op) (c ∷ cs))))
        (record l { silver = silver_merge l.silver (c ∷ cs) }) l h)

after_dlq-merges :
    (k : Spark) (cs : List Change) (l : Lakehouse) (d : Result MergeError (Unit {0}) × List DlqRow)
    → (after_dlq k cs l d).0 ≡ ok tt
    → (after_dlq k cs l d).1.silver ≡ silver_merge l.silver cs
after_dlq-merges k cs l (ok u, dlq) h = apply_changes-merges k cs (record l { dlq = dlq }) h
after_dlq-merges k cs l (err e, dlq) h = absurd (cc h)

upsert-merges :
    (k : Spark) (b : Batch) (l : Lakehouse)
    → (upsert_to_silver k b.now b.rows b.batch_id l).0 ≡ ok tt
    → (upsert_to_silver k b.now b.rows b.batch_id l).1.silver
      ≡ silver_merge l.silver (
          map
            (λ (p : Projected). p.change)
            (latest_per_key (map (project k b.now) (processable k b.rows))))
unfolding upsert_to_silver build_changes
upsert-merges k b l h =
    after_dlq-merges k (build_changes k b.now (processable k b.rows)) l
      (dead_letters k b.now b.rows b.batch_id l.dlq) h

first_ok :
    (step rest : Outcome)
    → (unless_raised step rest).0 ≡ ok tt
    → (step.0 ≡ ok tt) × (unless_raised step rest ≡ rest)
first_ok (ok u, after) rest h = (refl, refl)
first_ok (err fs, after) rest h = cc

-- If silver holds no id twice, every batch of a run passes, and the events of an id carry rising
-- sequence numbers, the first above the number of the id's row in silver, then after the run the id
-- has the row of its last event, or no row if that event is a delete; without an event it keeps
-- what it had.
pub run_batches_settles :
    (k : Spark) (id : ℕ) (low : Option ℕ) (bs : List Batch) (l : Lakehouse)
    → Unique l.silver
    → Below (lookup_row (some id) l.silver) low
    → Rising (some id) low (events k bs)
    → (run_batches k bs l).0 ≡ ok tt
    → lookup_row (some id) (run_batches k bs l).1.silver
      ≡ settle id (events k bs) (lookup_row (some id) l.silver)
unfolding run_batches
run_batches_settles k id low [] l u below rising h = unfold last_of in refl
run_batches_settles k id low (b ∷ bs) l u below rising h =
    let step = upsert_to_silver k b.now b.rows b.batch_id l in
    let ps = map (project k b.now) (processable k b.rows) in
    let (passed, same) = first_ok step (run_batches k bs step.1) h in
    let (now, later) = Rising-append (some id) low ps (events k bs) rising in
    let merged = upsert-merges k b l passed in
    let settled : lookup_row (some id) step.1.silver
        ≡ settle id ps (lookup_row (some id) l.silver) =
      rw merged (
        batch_settles id l.silver ps low u (KnownOps-project k b.now (known_ops k b.rows)) now
          below) in
    rw same (
      run_batches_settles k id (low_after (some id) low ps) bs step.1
        (rw merged (
          silver_merge-Unique l.silver (map (λ (p : Projected). p.change) (latest_per_key ps)) u
            (latest_per_key-UniqueChanges ps)))
        (rw settled (Below-settle id ps low (lookup_row (some id) l.silver) now below)) later
        (rw same at h)
      ∙ rw settled (sym (settle-append id ps (events k bs) (lookup_row (some id) l.silver))))

merge_one :
    (silver : List SilverRow) (id : ℕ) (c : Change)
    → Unique silver
    → c.row.payment_id ≡ some id
    → lookup_row (some id) (silver_merge silver (c ∷ []))
      ≡ merge_key (some c) (lookup_row (some id) silver)
unfolding find_source
merge_one silver id c u e =
    lookup-merge_key silver (c ∷ []) id u (refl, tt)
    ∙ ap (λ s. merge_key s (lookup_row (some id) silver)) (rw e (rw (sql_eq_refl id) refl))

-- If a row was deleted by a change that is newer than it, then an upsert of its id that arrives in a
-- later batch is inserted whatever its sequence number is, also where it is older than the delete.
pub stale_upsert_returns :
    (silver : List SilverRow) (id : ℕ) (t : SilverRow) (delete upsert : Change)
    → Unique silver
    → lookup_row (some id) silver ≡ some t
    → delete.row.payment_id ≡ some id
    → str_eq delete.op cdc_delete_op ≡ true
    → newer delete.row.source_lsn t.source_lsn ≡ true
    → upsert.row.payment_id ≡ some id
    → contains cdc_upsert_ops upsert.op ≡ true
    → lookup_row (some id) (silver_merge (silver_merge silver (delete ∷ [])) (upsert ∷ []))
      ≡ some upsert.row
unfolding merge_key when_matched
stale_upsert_returns silver id t delete upsert u e d o n i c =
    let gone : lookup_row (some id) (silver_merge silver (delete ∷ [])) ≡ none =
      merge_one silver id delete u d ∙ rw e (rw n (rw o refl)) in
    merge_one (silver_merge silver (delete ∷ [])) id upsert
      (silver_merge-Unique silver (delete ∷ []) u (unfold find_source in (refl, tt))) i
    ∙ rw gone (rw c refl)
