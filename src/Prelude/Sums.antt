-- ===== src/Prelude/Sums.antt =====
-- Sums of signed numbers over a list.
use mathlib.Core.Path.{◌≡◌, refl}
use mathlib.Core.List.{List, [], ◌∷◌, ◌++◌}
use native.Mathlib.Omega.{arith}
use rch.Prelude.Int.{ℤ, pos, ◌+ℤ◌, ◌≤ℤ◌, int_laws}
use rch.Prelude.Lists.{All}
use rch.Prelude.Round.{IsMilli, add-IsMilli}

module _ {ℓ} {A : Type ℓ} where
  abbrev pub sum_of : (A → ℤ) → List A → ℤ
  sum_of f [] = pos 0
  sum_of f (x ∷ xs) = f x +ℤ sum_of f xs

  pub sum_of-append :
      (f : A → ℤ) (xs ys : List A) → sum_of f (xs ++ ys) ≡ sum_of f xs +ℤ sum_of f ys
  sum_of-append f [] ys = omega int_laws
  sum_of-append f (x ∷ xs) ys = rw (sum_of-append f xs ys) (omega int_laws)

  pub sum_of-IsMilli :
      (f : A → ℤ) (xs : List A) → All (λ x. IsMilli (f x)) xs → IsMilli (sum_of f xs)
  sum_of-IsMilli f [] h = (refl, refl)
  sum_of-IsMilli f (x ∷ xs) h = add-IsMilli (f x) (sum_of f xs) h.0 (sum_of-IsMilli f xs h.1)

  pub sum_of_nonneg : (f : A → ℤ) (xs : List A) → All (λ x. pos 0 ≤ℤ f x) xs → pos 0 ≤ℤ sum_of f xs
  sum_of_nonneg f [] h = omega arith
  sum_of_nonneg f (x ∷ xs) h = omega (int_laws, sum_of_nonneg f xs h.1)
