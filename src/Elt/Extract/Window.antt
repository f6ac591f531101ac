-- ===== src/Elt/Extract/Window.antt =====
-- The change windows of consecutive extracts.
use payments_data_platform.Base.{
  ℕ, ◌+◌, ◌≤◌, ◌≡◌, refl, String, true, false, Option, none, some, List, [], ◌∷◌, ltb, leb, str_eq,
  ◌&&◌, count, arith,
}
use payments_data_platform.Elt.Extract.{window, window_holds}

module _ (timestamp : String → ℕ) where
  -- The number of rows that an extract selects, by their `updated_at`.
  abbrev pub selected : Option String → Option String → List ℕ → ℕ
  selected a b ts = count (window_holds timestamp (window a b)) ts

  window-between :
      (a b : String) (t : ℕ)
      → str_eq a "" ≡ false
      → str_eq b "" ≡ false
      → window_holds timestamp (window (some a) (some b)) t
        ≡ (leb (timestamp a) t && ltb t (timestamp b))
  unfolding window_holds window
  window-between a b t h j = rw h (rw j (ground arith))

  -- If three bounds are given and stand in order, then two consecutive windows together select as many
  -- rows as the window that spans them: a row on the middle bound is extracted once.
  pub windows_join :
      (a b c : String) (ts : List ℕ)
      → str_eq a "" ≡ false
      → str_eq b "" ≡ false
      → str_eq c "" ≡ false
      → timestamp a ≤ timestamp b
      → timestamp b ≤ timestamp c
      → selected (some a) (some b) ts + selected (some b) (some c) ts
        ≡ selected (some a) (some c) ts
  windows_join a b c [] ha hb hc p q = refl
  windows_join a b c (t ∷ ts) ha hb hc p q = ground (
    arith,
    p,
    q,
    window-between a b t ha hb,
    window-between b c t hb hc,
    window-between a c t ha hc,
    windows_join a b c ts ha hb hc p q,
  )

  -- Without bounds, or with empty ones, an extract selects every row.
  pub no_window_selects_all :
      (ts : List ℕ)
      → (selected none none ts ≡ count (λ t. true) ts)
        × (selected (some "") (some "") ts ≡ count (λ t. true) ts)
  unfolding window_holds window
  no_window_selects_all [] = (refl, refl)
  no_window_selects_all (t ∷ ts) =
      let rest = no_window_selects_all ts in (omega (arith, rest.0), omega (arith, rest.1))
