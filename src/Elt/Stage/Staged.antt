-- ===== src/Elt/Stage/Staged.antt =====
-- What a run of `stage_dataset` reports, and the reconciliation of a load that delivers it.
use payments_data_platform.Base.{
  ℕ, zero, suc, ◌-◌, ap₂, ◌≡◌, ◌≤◌, refl, ap, sym, ◌∙◌, String, false, List, [], ◌∷◌, ◌==◌, str_eq,
  length, length-append, Result, ok, err, Result-cases, ◌&&◌, arith, inl, inr,
}
use Prim.Native.String.{◌++◌ as ◌^^◌, len}
use payments_data_platform.Base.Decimal.{decimal}
use payments_data_platform.Elt.Load.{CopyOutcome, file_count, reconcile_snapshot, snapshot_full}
use payments_data_platform.Elt.Load.Complete.{reconcile-Accounts}
use payments_data_platform.Elt.Stage.{
  Part, Yields, zeros, S3, StagedSnapshot, part_count, total_rows, part_key, encoded,
  snapshot_prefix, sanitize_run_id, iter_jsonl_chunks, put_parts, or_empty_part, stage_dataset,
}
use payments_data_platform.Elt.Stage.Chunks.{
  flatten, rendered, iter_jsonl_chunks-Chunked, cons_ok-cases,
}

total_rows-flatten : (ps : List Part) → total_rows ps ≡ length (flatten ps)
total_rows-flatten [] = refl
total_rows-flatten (p ∷ ps) = omega (arith, total_rows-flatten ps, length-append p (flatten ps))

err-ok :
    (e : String) (lines : List String)
    → ◌≡◌ {A = Result String (List String)} (err e) (ok lines)
    → ⊥
err-ok e lines h = cc

module _ {R : Type 0} (dumps : R → Result String String) where
  rendered-length :
      (rs : List R) (lines : List String) → rendered dumps rs ≡ ok lines → length lines ≡ length rs
  unfolding rendered
  rendered-length [] lines h = ground (arith, h)
  rendered-length (r ∷ rs) lines h = elim (Result-cases (dumps r)) [
    | inl (line, e) ↦
        let (tail, t, f) = cons_ok-cases line (rendered dumps rs) lines (rw (e, rendered) at h) in
        rw (sym f) (ap suc (rendered-length rs tail t))
    | inr (e, f) ↦ absurd (err-ok e lines (rw (f, rendered) at h))
  ]

-- The keys of a staging run, the first numbered `n`.
abbrev pub numbered : String → ℕ → ℕ → List String
numbered key_prefix n zero = []
numbered key_prefix n (suc m) = part_key key_prefix n ∷ numbered key_prefix (suc n) m

abbrev reported : String → String → String → String → List String → ℕ → StagedSnapshot
reported dataset run_id run_date prefix parts row_count = record {
  dataset = dataset;
  run_id = run_id;
  run_date = run_date;
  prefix = prefix;
  parts = parts;
  row_count = row_count;
}

-- A snapshot has a part even where it has no rows.
abbrev pub at_least_one : ℕ → ℕ
at_least_one zero = 1
at_least_one (suc n) = suc n

-- The S3 client takes every object.
abbrev pub Takes : {W : Type 0} → S3 W → Type 0
Takes {W} c =
    (bucket key body : String) (w : W) → (v : W) × (S3.put_object c bucket key body w ≡ ok v)

module _ {W : Type 0} (c : S3 W) (takes : Takes c) where
  put_parts-numbered :
      (bucket key_prefix : String) (n : ℕ) (ps : List Part) (w : W)
      → (v : W) × (put_parts c bucket key_prefix n ps (ok tt) w
          ≡ ok (numbered key_prefix n (length ps), v))
  unfolding put_parts
  put_parts-numbered bucket key_prefix n [] w = (w, refl)
  put_parts-numbered bucket key_prefix n (p ∷ ps) w =
      let (v, e) = takes bucket (part_key key_prefix n) (encoded p) w in
      let (u, f) = put_parts-numbered bucket key_prefix (suc n) ps v in (u, rw e (rw f refl))

  or_empty_part-numbered :
      (bucket key_prefix : String) (m : ℕ) (w : W)
      → (v : W) × (or_empty_part c bucket key_prefix (numbered key_prefix 1 m, w)
          ≡ ok (numbered key_prefix 1 (at_least_one m), v))
  unfolding or_empty_part
  or_empty_part-numbered bucket key_prefix zero w =
      let (v, e) = takes bucket (part_key key_prefix 1) "" w in (v, rw e refl)
  or_empty_part-numbered bucket key_prefix (suc m) w = (w, refl)

abbrev pub zeros_of : ℕ → String
zeros_of zero = ""
zeros_of (suc n) = "0" ^^ zeros_of n

-- A number's digits with zeros in front to make five.
abbrev pub five_digits : ℕ → String → String
five_digits n behind = zeros_of (5 - len (decimal n)) ^^ decimal n ^^ behind

-- The prefix of a run, and the keys of so many parts from a number on.
abbrev pub run_prefix : String → String → String → String → String
run_prefix prefix dataset run_date cleaned =
    prefix ^^ "/" ^^ dataset ^^ "/dt=" ^^ run_date ^^ "/run=" ^^ cleaned ^^ "/"

abbrev pub part_names : String → ℕ → ℕ → List String
part_names prefix n zero = []
part_names prefix n (suc m) =
    (prefix ^^ "part-" ^^ five_digits n ".jsonl") ∷ part_names prefix (suc n) m

zeros_lem : (n : ℕ) → zeros n ≡ zeros_of n
unfolding zeros
zeros_lem zero = refl
zeros_lem (suc n) = ap (λ (u : String). "0" ^^ u) (zeros_lem n)

part_key_lem :
    (prefix : String) (n : ℕ) → part_key prefix n ≡ prefix ^^ "part-" ^^ five_digits n ".jsonl"
unfolding part_key
part_key_lem prefix n =
    ap (λ (u : String). prefix ^^ "part-" ^^ u ^^ decimal n ^^ ".jsonl")
      (zeros_lem (5 - len (decimal n)))

numbered_lem : (prefix : String) (n m : ℕ) → numbered prefix n m ≡ part_names prefix n m
numbered_lem prefix n zero = refl
numbered_lem prefix n (suc m) =
    ap₂ (λ key keys. key ∷ keys) (part_key_lem prefix n) (numbered_lem prefix (suc n) m)

snapshot_prefix_lem :
    (prefix dataset run_date cleaned : String)
    → snapshot_prefix prefix dataset run_date cleaned ≡ run_prefix prefix dataset run_date cleaned
unfolding snapshot_prefix
snapshot_prefix_lem prefix dataset run_date cleaned = refl

abbrev pub staged : String → String → String → String → ℕ → ℕ → StagedSnapshot
staged dataset cleaned run_date prefix parts rows = record {
  dataset = dataset;
  run_id = cleaned;
  run_date = run_date;
  prefix = run_prefix prefix dataset run_date cleaned;
  parts = part_names (run_prefix prefix dataset run_date cleaned) 1 parts;
  row_count = rows;
}

module _ {R W : Type 0} (dumps : R → Result String String) (c : S3 W) (takes : Takes c) where
  -- If the client takes every object, every record renders, the bound is at least one and the run's
  -- id cleans to a text, then staging succeeds, and it reports that id, the number of records as its
  -- row count, and as its parts those that the generator yields, or one if it yields none, numbered
  -- from one in five digits under the prefix of the run, which is made of the prefix, the dataset,
  -- the date and the id.
  pub stage_dataset-stages :
      (bucket dataset : String) (records : List R) (lines : List String)
      (run_id cleaned run_date prefix : String) (chunk_rows : ℕ) (w : W)
      → rendered dumps records ≡ ok lines
      → sanitize_run_id run_id ≡ ok cleaned
      → 1 ≤ chunk_rows
      → (v : W) × (stage_dataset dumps c bucket dataset records run_id run_date prefix chunk_rows w
          ≡ ok (
            staged dataset cleaned run_date prefix
                (at_least_one (length (Yields.parts (iter_jsonl_chunks dumps chunk_rows records))))
                (length records),
            v,
          ))
  unfolding stage_dataset
  stage_dataset-stages bucket dataset records lines run_id cleaned run_date prefix chunk_rows w r s
        b =
      let y = iter_jsonl_chunks dumps chunk_rows records in
      let ch = iter_jsonl_chunks-Chunked dumps chunk_rows records lines b r in
      let key_prefix = snapshot_prefix prefix dataset run_date cleaned in
      let (u, e) = put_parts-numbered c takes bucket key_prefix 1 y.parts w in
      let (v, f) = or_empty_part-numbered c takes bucket key_prefix (length y.parts) u in
      let rows : total_rows y.parts ≡ length records =
        total_rows-flatten y.parts
        ∙ ap length ch.keeps_lines
        ∙ rendered-length dumps records lines r in
      let names =
        numbered_lem key_prefix 1 (at_least_one (length y.parts))
        ∙ ap (λ at. part_names at 1 (at_least_one (length y.parts)))
            (snapshot_prefix_lem prefix dataset run_date cleaned) in
      (
        v,
        rw s (
            rw ch.ends (
              rw e (
                rw f (
                  rw rows (
                    ap₂
                      (λ at keys.
                        ok (reported dataset cleaned run_date at keys (length records), v))
                      (snapshot_prefix_lem prefix dataset run_date cleaned) names))))),
      )

-- If a load's report has no skip and counts the parts and rows of a staged snapshot, then it
-- reconciles, unless the snapshot is a full one of no rows.
pub delivered_reconciles :
    (snapshot : StagedSnapshot) (o : CopyOutcome) (type : String)
    → o.skipped ≡ []
    → file_count o ≡ part_count snapshot
    → o.rows_loaded ≡ snapshot.row_count
    → str_eq type snapshot_full && (snapshot.row_count == 0) ≡ false
    → reconcile_snapshot (part_count snapshot) snapshot.row_count o type false ≡ ok tt
delivered_reconciles snapshot o type k f r e =
    (reconcile-Accounts (part_count snapshot) snapshot.row_count o type false).1 (record {
      none_skipped = k;
      parts_arrived = omega (arith, f);
      rows_arrived = omega (arith, r);
      not_empty = ground (arith, e);
    })
