-- ===== src/Elt/Stage/RunId.antt =====
-- What the cleaned id of a run looks like.
use payments_data_platform.Base.{
  ◌≡◌, refl, subst, ◌||◌, String, Bool, true, false, not, Result, ok, err, if◌then◌else◌, arith,
  Bool-cases, inl, inr,
}
use Prim.Native.Char.{Char}
use payments_data_platform.Elt.Stage.{
  is_usable, is_dash, sub_runs, strip_left, strip_right, put_before, unless_blank, sanitize_run_id,
}

-- Letters, digits, `_` and `-` only.
abbrev pub Usable : String → Type 0
Usable String.[] = Unit
Usable (String.◌∷◌ c s) = (is_usable c ≡ true) × Usable s

-- There is a first character and it is no dash, and likewise a last one.
abbrev pub starts_plain : String → Bool
starts_plain String.[] = false
starts_plain (String.◌∷◌ c s) = not (is_dash c)

abbrev pub ends_plain : String → Bool
ends_plain String.[] = false
ends_plain (String.◌∷◌ c String.[]) = not (is_dash c)
ends_plain (String.◌∷◌ c (String.◌∷◌ d s)) = ends_plain (String.◌∷◌ d s)

Usable-dash_unless : (b : Bool) (s : String) → Usable s → Usable (if b then s else String.◌∷◌ "-" s)
unfolding is_usable
Usable-dash_unless true s h = h
Usable-dash_unless false s h = (refl, h)

Usable-sub_runs : (b : Bool) (s : String) → Usable (sub_runs b s)
unfolding sub_runs
Usable-sub_runs b String.[] = tt
Usable-sub_runs b (String.◌∷◌ c s) = elim (Bool-cases (is_usable c)) [
  | inl fits ↦ rw fits (fits, Usable-sub_runs false s)
  | inr other ↦ rw other (Usable-dash_unless b (sub_runs true s) (Usable-sub_runs true s))
]

Usable-strip_left : (s : String) → Usable s → Usable (strip_left s)
unfolding strip_left
Usable-strip_left String.[] h = tt
Usable-strip_left (String.◌∷◌ c s) h = elim (Bool-cases (is_dash c)) [
  | inl dash ↦ rw dash (Usable-strip_left s h.1)
  | inr plain ↦ rw plain h
]

Usable-put_before :
    (c : Char) (s : String) → is_usable c ≡ true → Usable s → Usable (put_before c s)
Usable-put_before c String.[] e h = elim (Bool-cases (is_dash c)) [
  | inl dash ↦ rw dash tt
  | inr plain ↦ rw plain (e, tt)
]
Usable-put_before c (String.◌∷◌ d s) e h = (e, h)

Usable-strip_right : (s : String) → Usable s → Usable (strip_right s)
unfolding strip_right
Usable-strip_right String.[] h = tt
Usable-strip_right (String.◌∷◌ c s) h =
    Usable-put_before c (strip_right s) h.0 (Usable-strip_right s h.1)

err-ok : (e s : String) → ◌≡◌ {A = Result String String} (err e) (ok s) → ⊥
err-ok e s h = cc

abbrev is_blank : String → Bool
is_blank String.[] = true
is_blank (String.◌∷◌ c s) = false

strip_left-starts_plain :
    (s : String) → is_blank (strip_left s) || starts_plain (strip_left s) ≡ true
unfolding strip_left
strip_left-starts_plain String.[] = refl
strip_left-starts_plain (String.◌∷◌ c s) = elim (Bool-cases (is_dash c)) [
  | inl dash ↦ rw dash (strip_left-starts_plain s)
  | inr plain ↦ rw plain (rw plain refl)
]

put_before-starts_plain :
    (c : Char) (s : String) → is_dash c ≡ false → starts_plain (put_before c s) ≡ true
put_before-starts_plain c String.[] e = rw e (rw e refl)
put_before-starts_plain c (String.◌∷◌ d s) e = rw e refl

strip_right-starts_plain :
    (s : String)
    → is_blank s || starts_plain s ≡ true
    → is_blank (strip_right s) || starts_plain (strip_right s) ≡ true
unfolding strip_right
strip_right-starts_plain String.[] h = refl
strip_right-starts_plain (String.◌∷◌ c s) h =
    ground (arith, put_before-starts_plain c (strip_right s))

put_before-ends_plain :
    (c : Char) (s : String)
    → is_blank s || ends_plain s ≡ true
    → is_blank (put_before c s) || ends_plain (put_before c s) ≡ true
put_before-ends_plain c String.[] h = elim (Bool-cases (is_dash c)) [
  | inl dash ↦ rw dash refl
  | inr plain ↦ rw plain (rw plain refl)
]
put_before-ends_plain c (String.◌∷◌ d s) h = h

strip_right-ends_plain :
    (s : String) → is_blank (strip_right s) || ends_plain (strip_right s) ≡ true
unfolding strip_right
strip_right-ends_plain String.[] = refl
strip_right-ends_plain (String.◌∷◌ c s) =
    put_before-ends_plain c (strip_right s) (strip_right-ends_plain s)

-- A segment of a key that reads back: allowed characters only, and no dash at either end.
pub record IsSegment (s : String) : Type 0 where
  pub usable : Usable s
  pub starts : starts_plain s ≡ true
  pub ends : ends_plain s ≡ true

unless_blank-IsSegment :
    (run_id s cleaned : String)
    → Usable s
    → is_blank s || starts_plain s ≡ true
    → is_blank s || ends_plain s ≡ true
    → unless_blank run_id s ≡ ok cleaned
    → IsSegment cleaned
unless_blank-IsSegment run_id String.[] cleaned u a b h = absurd (err-ok _ cleaned h)
unless_blank-IsSegment run_id (String.◌∷◌ c s) cleaned u a b h =
    let e : String.◌∷◌ c s ≡ cleaned = ground (arith, h) in
    subst IsSegment e (record { usable = u; starts = a; ends = b })

-- If cleaning a run's id gives a text, then that text has at least one character, it holds letters,
-- digits, `_` and `-` only, and it neither begins nor ends with a dash.
pub sanitize_run_id-IsSegment :
    (run_id cleaned : String) → sanitize_run_id run_id ≡ ok cleaned → IsSegment cleaned
unfolding sanitize_run_id
sanitize_run_id-IsSegment run_id cleaned h =
    let s = strip_left (sub_runs false run_id) in
    unless_blank-IsSegment run_id (strip_right s) cleaned
      (Usable-strip_right s
        (Usable-strip_left (sub_runs false run_id) (Usable-sub_runs false run_id)))
      (strip_right-starts_plain s (strip_left-starts_plain (sub_runs false run_id)))
      (strip_right-ends_plain s) h
