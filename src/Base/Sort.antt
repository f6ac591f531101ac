-- ===== src/Base/Sort.antt =====
-- `sorted` under a strict order given as a test.
use mathlib.Core.Path.{◌≡◌, refl, ap, ◌∙◌}
use Prim.Native.Nat.{suc}
use native.Mathlib.Omega.{arith}
use payments_data_platform.Base.Lists.{All, length, count}
use mathlib.Core.Bool.{Bool}
use mathlib.Core.List.{List, [], ◌∷◌}
use payments_data_platform.Base.Tests.{if◌then◌else◌, Bool-cases}
use mathlib.Core.Logic.{inl, inr}

module _ {ℓ} {A : Type ℓ} (lt : A → A → Bool) where
  unfoldable pub insert_sorted : A → List A → List A
  insert_sorted x [] = x ∷ []
  insert_sorted x (y ∷ ys) = if lt y x then y ∷ insert_sorted x ys else x ∷ y ∷ ys

  unfoldable pub sorted : List A → List A
  unfolding insert_sorted
  sorted [] = []
  sorted (x ∷ xs) = insert_sorted x (sorted xs)

  insert_sorted-some : (x : A) (ys : List A) → insert_sorted x ys ≡ [] → ⊥
  unfolding insert_sorted
  insert_sorted-some x [] h = cc
  insert_sorted-some x (y ∷ ys) h = elim (Bool-cases (lt y x)) [
    | inl after ↦ let e : y ∷ insert_sorted x ys ≡ [] = rw after at h in cc
    | inr before ↦ let e : x ∷ y ∷ ys ≡ [] = rw before at h in cc
  ]

  pub sorted-nil : (xs : List A) → sorted xs ≡ [] → xs ≡ []
  unfolding sorted
  sorted-nil [] h = refl
  sorted-nil (x ∷ xs) h = absurd (insert_sorted-some x (sorted xs) h)

  pub All-insert_sorted {κ} :
      (P : A → Type κ) (x : A) (ys : List A) → P x → All P ys → All P (insert_sorted x ys)
  unfolding insert_sorted
  All-insert_sorted P x [] p h = (p, tt)
  All-insert_sorted P x (y ∷ ys) p (q, h) = elim (Bool-cases (lt y x)) [
    | inl after ↦ rw after (q, All-insert_sorted P x ys p h)
    | inr before ↦ rw before (p, (q, h))
  ]

  pub All-sorted {κ} : (P : A → Type κ) (xs : List A) → All P xs → All P (sorted xs)
  unfolding sorted
  All-sorted P [] h = tt
  All-sorted P (x ∷ xs) (p, h) = All-insert_sorted P x (sorted xs) p (All-sorted P xs h)

  pub length-insert_sorted : (x : A) (ys : List A) → length (insert_sorted x ys) ≡ suc (length ys)
  unfolding insert_sorted
  length-insert_sorted x [] = refl
  length-insert_sorted x (y ∷ ys) = elim (Bool-cases (lt y x)) [
    | inl after ↦ rw (after, length-insert_sorted x ys) refl
    | inr before ↦ rw before refl
  ]

  pub length-sorted : (xs : List A) → length (sorted xs) ≡ length xs
  unfolding sorted
  length-sorted [] = refl
  length-sorted (x ∷ xs) = length-insert_sorted x (sorted xs) ∙ ap suc (length-sorted xs)

  count-insert_sorted :
      (q : A → Bool) (x : A) (ys : List A) → count q (insert_sorted x ys) ≡ count q (x ∷ ys)
  unfolding insert_sorted
  count-insert_sorted q x [] = refl
  count-insert_sorted q x (y ∷ ys) = elim (Bool-cases (lt y x)) [
    | inl after ↦ rw after (omega (arith, count-insert_sorted q x ys))
    | inr before ↦ rw before refl
  ]

  -- Sorting keeps how many elements meet a test.
  pub count-sorted : (q : A → Bool) (xs : List A) → count q (sorted xs) ≡ count q xs
  unfolding sorted
  count-sorted q [] = refl
  count-sorted q (x ∷ xs) = count-insert_sorted q x (sorted xs) ∙ omega (arith, count-sorted q xs)
