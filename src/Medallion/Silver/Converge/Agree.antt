-- ===== src/Medallion/Silver/Converge/Agree.antt =====
-- Two cuts of the same events into micro-batches, which are projected at different times.
use payments_data_platform.Base.{
  ℕ, ◌≡◌, refl, ap, sym, ◌∙◌, Option, none, some, List, [], ◌∷◌, map, ok, if◌then◌else◌, arith,
  Option-cases, Bool-cases, inl, inr,
}
use payments_data_platform.Medallion.Rules.{SilverRow, sql_eq}
use payments_data_platform.Medallion.Rules.Merged.{Unique, lookup_row}
use payments_data_platform.Medallion.Silver.{Projected, Lakehouse}
use payments_data_platform.Medallion.Validate.{Spark}
use payments_data_platform.Medallion.Silver.Latest.{id_of, last_of, Rising}
use payments_data_platform.Medallion.Silver.Converge.{
  Batch, events, run_batches, run_batches_settles,
}
use payments_data_platform.Medallion.Silver.Converge.Step.{Below, settle, after_last}

-- A row, and an event, apart from the time at which its batch was projected.
abbrev pub undated : SilverRow → SilverRow
undated t = record t { ingested_at = 0 }

abbrev pub undated_event : Projected → Projected
undated_event p = record p { change = record p.change { row = undated p.change.row } }

abbrev pub undated_row : Option SilverRow → Option SilverRow
undated_row none = none
undated_row (some t) = some (undated t)

abbrev undated_last : Option Projected → Option Projected
undated_last none = none
undated_last (some p) = some (undated_event p)

last_of-undated :
    (id : Option ℕ) (ps : List Projected)
    → last_of id (map undated_event ps) ≡ undated_last (last_of id ps)
unfolding last_of
last_of-undated id [] = refl
last_of-undated id (p ∷ ps) = elim (Option-cases (last_of id ps)) [
  | inl over ↦ rw (last_of-undated id ps) (
      rw over (elim (Bool-cases (sql_eq id (id_of p))) [
        | inl own ↦ rw own refl
        | inr other ↦ rw other refl
      ]))
  | inr (q, e) ↦ rw (last_of-undated id ps) (rw e refl)
]

undated-after_last :
    (o : Option Projected) → undated_row (after_last o none) ≡ after_last (undated_last o) none
undated-after_last none = refl
undated-after_last (some p) = ground arith

settle-undated :
    (id : ℕ) (ps : List Projected)
    → undated_row (settle id ps none) ≡ settle id (map undated_event ps) none
settle-undated id ps =
    undated-after_last (last_of (some id) ps)
    ∙ sym (ap (λ o. after_last o none) (last_of-undated (some id) ps))

Rising-undated :
    (id low : Option ℕ) (ps : List Projected)
    → Rising id low ps
    → Rising id low (map undated_event ps)
Rising-undated id low [] h = tt
Rising-undated id low (p ∷ ps) h =
    (h.0, Rising-undated id (if sql_eq id (id_of p) then p.change.row.source_lsn else low) ps h.1)

Rising-dated :
    (id low : Option ℕ) (ps : List Projected)
    → Rising id low (map undated_event ps)
    → Rising id low ps
Rising-dated id low [] h = tt
Rising-dated id low (p ∷ ps) h =
    (h.0, Rising-dated id (if sql_eq id (id_of p) then p.change.row.source_lsn else low) ps h.1)

-- If two runs on an empty silver pass all their batches, and their events are the same apart from
-- the times at which their batches were projected and carry rising sequence numbers for an id, then
-- silver ends with the same row for that id, or none in both, apart from that time, however the
-- events were cut into batches.
pub batches_agree :
    (k : Spark) (id : ℕ) (bs cs : List Batch) (l : Lakehouse)
    → l.silver ≡ []
    → map undated_event (events k bs) ≡ map undated_event (events k cs)
    → Rising (some id) none (events k bs)
    → (run_batches k bs l).0 ≡ ok tt
    → (run_batches k cs l).0 ≡ ok tt
    → undated_row (lookup_row (some id) (run_batches k bs l).1.silver)
      ≡ undated_row (lookup_row (some id) (run_batches k cs l).1.silver)
batches_agree k id bs cs l e same rising h j =
    let u : Unique l.silver = rw e tt in
    let below : Below (lookup_row (some id) l.silver) none = rw e (unfold lookup_row in tt) in
    let nothing : lookup_row (some id) l.silver ≡ none = rw e (unfold lookup_row in refl) in
    let rising' =
      Rising-dated (some id) none (events k cs)
        (rw same at (Rising-undated (some id) none (events k bs) rising)) in
    let settled =
      run_batches_settles k id none bs l u below rising h ∙ ap (settle id (events k bs)) nothing in
    let settled' =
      run_batches_settles k id none cs l u below rising' j ∙ ap (settle id (events k cs)) nothing in
    ap undated_row settled
    ∙ settle-undated id (events k bs)
    ∙ ap (λ ps. settle id ps none) same
    ∙ sym (settle-undated id (events k cs))
    ∙ sym (ap undated_row settled')
