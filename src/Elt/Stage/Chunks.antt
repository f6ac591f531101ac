-- ===== src/Elt/Stage/Chunks.antt =====
-- The parts that `iter_jsonl_chunks` yields.
use payments_data_platform.Base.{
  ℕ, ◌≡◌, ◌≤◌, ◌<◌, refl, ap, subst, Result-cases, sym, ◌∙◌, String, false, List, [], ◌∷◌, ◌++◌,
  append_assoc, append-nil, ltb, All, length, length-append, Result, ok, err, arith, Bool-cases,
  inl, inr,
}
use payments_data_platform.Elt.Stage.{
  Part, Yields, yield_first, last_part, after_line, chunk_loop, iter_jsonl_chunks,
}

abbrev pub flatten : List Part → List String
flatten [] = []
flatten (p ∷ ps) = p ++ flatten ps

-- A part's length stands between one and the bound.
abbrev pub Fits : ℕ → Part → Type 0
Fits chunk_rows p = (1 ≤ length p) × (length p ≤ chunk_rows)

-- Every part but the last is full.
abbrev pub FullButLast : ℕ → List Part → Type 0
FullButLast chunk_rows [] = Unit
FullButLast chunk_rows (p ∷ []) = Unit
FullButLast chunk_rows (p ∷ q ∷ ps) = (length p ≡ chunk_rows) × FullButLast chunk_rows (q ∷ ps)

-- The lines of all the records, or the first exception.
abbrev pub cons_ok : String → Result String (List String) → Result String (List String)
cons_ok line (ok lines) = ok (line ∷ lines)
cons_ok line (err e) = err e

module _ {R : Type 0} (dumps : R → Result String String) where
  unfoldable pub rendered : List R → Result String (List String)
  rendered [] = ok []
  rendered (r ∷ rs) = elim (dumps r) [ ok line ↦ cons_ok line (rendered rs) | err e ↦ err e ]

pub record Chunked (chunk_rows : ℕ) (lines : List String) (y : Yields) : Type 0 where
  pub ends : y.ending ≡ ok tt
  pub keeps_lines : flatten y.parts ≡ lines
  pub fits : All (Fits chunk_rows) y.parts
  pub full_but_last : FullButLast chunk_rows y.parts

last_part-Chunked :
    (chunk_rows : ℕ) (lines : Part)
    → length lines < chunk_rows
    → Chunked chunk_rows lines (last_part lines)
last_part-Chunked chunk_rows [] h = record {
  ends = refl;
  keeps_lines = refl;
  fits = tt;
  full_but_last = tt;
}
last_part-Chunked chunk_rows (line ∷ lines) h = record {
  ends = refl;
  keeps_lines = append-nil (line ∷ lines);
  fits = ((omega arith, omega (arith, h)), tt);
  full_but_last = tt;
}

FullButLast-cons :
    (chunk_rows : ℕ) (p : Part) (ps : List Part)
    → length p ≡ chunk_rows
    → FullButLast chunk_rows ps
    → FullButLast chunk_rows (p ∷ ps)
FullButLast-cons chunk_rows p [] e h = tt
FullButLast-cons chunk_rows p (q ∷ ps) e h = (e, h)

yield_first-Chunked :
    (chunk_rows : ℕ) (p : Part) (lines : List String) (y : Yields)
    → 1 ≤ chunk_rows
    → length p ≡ chunk_rows
    → Chunked chunk_rows lines y
    → Chunked chunk_rows (p ++ lines) (yield_first p y)
yield_first-Chunked chunk_rows p lines y h e c = record {
  ends = c.ends;
  keeps_lines = ap (λ ls. p ++ ls) c.keeps_lines;
  fits = ((omega (arith, h, e), omega (arith, e)), c.fits);
  full_but_last = FullButLast-cons chunk_rows p y.parts e c.full_but_last;
}

after_line-Chunked :
    (chunk_rows : ℕ) (p : Part) (lines : List String) (full short : Yields)
    → 1 ≤ chunk_rows
    → length p ≤ chunk_rows
    → Chunked chunk_rows lines full
    → (length p < chunk_rows → Chunked chunk_rows (p ++ lines) short)
    → Chunked chunk_rows (p ++ lines) (after_line chunk_rows p full short)
after_line-Chunked chunk_rows p lines full short h b f s =
    elim (Bool-cases (ltb (length p) chunk_rows)) [
      | inl room ↦ rw room (s (ground (arith, room)))
      | inr filled ↦
          rw filled (yield_first-Chunked chunk_rows p lines full h (ground (arith, filled, b)) f)
    ]

pub cons_ok-cases :
    (line : String) (rest : Result String (List String)) (lines : List String)
    → cons_ok line rest ≡ ok lines
    → (tail : List String) × (rest ≡ ok tail) × (line ∷ tail ≡ lines)
cons_ok-cases line (ok tail) lines h = (tail, refl, ground (arith, h))
cons_ok-cases line (err e) lines h = cc

err-ok :
    (e : String) (lines : List String)
    → ◌≡◌ {A = Result String (List String)} (err e) (ok lines)
    → ⊥
err-ok e lines h = cc

module _ {R : Type 0} (dumps : R → Result String String) where
  chunk_loop-Chunked :
      (chunk_rows : ℕ) (before : Part) (rs : List R) (lines : List String)
      → length before < chunk_rows
      → rendered dumps rs ≡ ok lines
      → Chunked chunk_rows (before ++ lines) (chunk_loop dumps chunk_rows before rs)
  unfolding chunk_loop rendered
  chunk_loop-Chunked chunk_rows before [] lines b h =
      let e : [] ≡ lines = ground (arith, h) in
      subst (λ ls. Chunked chunk_rows ls (last_part before))
        (sym (append-nil before) ∙ ap (λ ls. before ++ ls) e)
        (last_part-Chunked chunk_rows before b)
  chunk_loop-Chunked chunk_rows before (r ∷ rs) lines b h = elim (Result-cases (dumps r)) [
    | inl (line, e) ↦
        let (tail, t, f) = cons_ok-cases line (rendered dumps rs) lines (rw (e, rendered) at h) in
        let p = before ++ line ∷ [] in
        rw (e, chunk_loop)
          (subst
            (λ ls. Chunked chunk_rows ls (
              after_line chunk_rows p (chunk_loop dumps chunk_rows [] rs)
                (chunk_loop dumps chunk_rows p rs)))
            (append_assoc before (line ∷ []) tail ∙ ap (λ ls. before ++ ls) f)
            (after_line-Chunked chunk_rows p tail _ _ (omega (arith, b))
              (omega (arith, b, length-append before (line ∷ [])))
              (chunk_loop-Chunked chunk_rows [] rs tail (omega (arith, b)) t)
              (λ room. chunk_loop-Chunked chunk_rows p rs tail room t)))
    | inr (e, f) ↦ absurd (err-ok e lines (rw (f, rendered) at h))
  ]

  -- If the bound is at least one and every record renders, then the generator ends without an
  -- exception, its parts hold the lines of the records in their order and no more, each part has from
  -- one line to as many as the bound, and every part but the last has as many as the bound.
  pub iter_jsonl_chunks-Chunked :
      (chunk_rows : ℕ) (rs : List R) (lines : List String)
      → 1 ≤ chunk_rows
      → rendered dumps rs ≡ ok lines
      → Chunked chunk_rows lines (iter_jsonl_chunks dumps chunk_rows rs)
  unfolding iter_jsonl_chunks
  iter_jsonl_chunks-Chunked chunk_rows rs lines b h =
      let e : ltb chunk_rows 1 ≡ false = ground (arith, b) in
      rw e (chunk_loop-Chunked chunk_rows [] rs lines (omega (arith, b)) h)
