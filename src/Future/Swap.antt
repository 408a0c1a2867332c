-- ===== src/Future/Swap.antt =====
-- `swap_remove` and `set` at the index where the first part of a list ends.
use modrun.Base.{◌≡◌, refl, ap, none, some, List, [], ◌∷◌, ◌++◌, length, get_elem?, set}
use modrun.Future.{last_first, swap_remove}

module _ {ℓ} {A : Type ℓ} where
  pub get_elem?-middle :
      (front : List A) (x : A) (rest : List A)
      → get_elem? (front ++ x ∷ rest) (length front) ≡ some x
  get_elem?-middle [] x rest = refl
  get_elem?-middle (y ∷ front) x rest = get_elem?-middle front x rest

  pub get_elem?-end : (front : List A) → get_elem? front (length front) ≡ none
  get_elem?-end [] = refl
  get_elem?-end (y ∷ front) = get_elem?-end front

  pub set-middle :
      (front : List A) (x y : A) (rest : List A)
      → set (front ++ x ∷ rest) (length front) y ≡ front ++ y ∷ rest
  set-middle [] x y rest = refl
  set-middle (z ∷ front) x y rest = ap (λ xs. z ∷ xs) (set-middle front x y rest)

  pub swap_remove-middle :
      (front : List A) (x : A) (rest : List A)
      → swap_remove (front ++ x ∷ rest) (length front) ≡ front ++ last_first rest
  swap_remove-middle [] x rest = refl
  swap_remove-middle (z ∷ front) x rest = ap (λ xs. z ∷ xs) (swap_remove-middle front x rest)
