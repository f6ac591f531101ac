-- ===== src/Api/Pages/Split.antt =====
-- Cutting a list at a page boundary.
use payments_data_platform.Base.{
  ℕ, zero, suc, ◌≤◌, ◌<◌, ◌≡◌, refl, ap, some, List, [], ◌∷◌, ◌++◌, length, take, arith,
}
use payments_data_platform.Api.Pages.{last?}

module _ {ℓ} {A : Type ℓ} where
  pub take_all : (n : ℕ) (xs : List A) → length xs ≤ n → take n xs ≡ xs
  take_all zero [] h = refl
  take_all zero (x ∷ xs) h = absurd (omega arith)
  take_all (suc n) [] h = refl
  take_all (suc n) (x ∷ xs) h = ap (λ ys. x ∷ ys) (take_all n xs (omega arith))

  -- A list longer than a page: the page without its last row, that row, and a rest.
  pub split_page :
      (n : ℕ) (xs : List A)
      → suc n < length xs
      → (ys : List A) × (l : A) × (r : A) × (rest : List A) × (xs ≡ ys ++ l ∷ r ∷ rest)
        × (length ys ≡ n)
  split_page n [] h = absurd (omega arith)
  split_page n (x ∷ []) h = absurd (omega arith)
  split_page zero (x ∷ y ∷ xs) h = ([], x, y, xs, refl, refl)
  split_page (suc n) (x ∷ y ∷ xs) h =
      let (ys, l, r, rest, e, k) = split_page n (y ∷ xs) (omega arith) in
      (x ∷ ys, l, r, rest, ap (λ zs. x ∷ zs) e, ap suc k)

  pub take-append_one :
      (n : ℕ) (ys : List A) (l : A) (rest : List A)
      → length ys ≡ n
      → take (suc n) (ys ++ l ∷ rest) ≡ ys ++ l ∷ []
  take-append_one zero [] l rest h = refl
  take-append_one zero (y ∷ ys) l rest h = absurd (omega arith)
  take-append_one (suc n) [] l rest h = absurd (omega arith)
  take-append_one (suc n) (y ∷ ys) l rest h =
      ap (λ zs. y ∷ zs) (take-append_one n ys l rest (omega arith))

  pub take-append_two :
      (n : ℕ) (ys : List A) (l r : A) (rest : List A)
      → length ys ≡ n
      → take (suc (suc n)) (ys ++ l ∷ r ∷ rest) ≡ ys ++ l ∷ r ∷ []
  take-append_two zero [] l r rest h = refl
  take-append_two zero (y ∷ ys) l r rest h = absurd (omega arith)
  take-append_two (suc n) [] l r rest h = absurd (omega arith)
  take-append_two (suc n) (y ∷ ys) l r rest h =
      ap (λ zs. y ∷ zs) (take-append_two n ys l r rest (omega arith))

  pub last?-append_one : (ys : List A) (l : A) → last? (ys ++ l ∷ []) ≡ some l
  unfolding last?
  last?-append_one [] l = refl
  last?-append_one (y ∷ []) l = refl
  last?-append_one (y ∷ z ∷ ys) l = last?-append_one (z ∷ ys) l
