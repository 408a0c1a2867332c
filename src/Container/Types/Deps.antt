-- ===== src/Container/Types/Deps.antt =====
-- The eight places of a list of dependencies give back what they were made of.
use modrun.Base.{ℕ, zero, suc, ◌≤◌, ◌≡◌, refl, ap, some, List, [], ◌∷◌, length, take, arith}
use modrun.Base.Lists.{replicate}
use modrun.Container.Types.{Dep, DepList, no_dep, max_deps, fill, from_array, as_slice}

length-replicate : (n : ℕ) → length (replicate n no_dep) ≡ n
length-replicate zero = refl
length-replicate (suc n) = omega (arith, length-replicate n)

length-fill : (n : ℕ) (ds : List Dep) → length (fill n ds) ≡ n
unfolding fill
length-fill n [] = length-replicate n
length-fill zero (d ∷ ds) = refl
length-fill (suc n) (d ∷ ds) = omega (arith, length-fill n ds)

take-fill : (n : ℕ) (ds : List Dep) → length ds ≤ n → take (length ds) (fill n ds) ≡ ds
unfolding fill
take-fill n [] le = refl
take-fill zero (d ∷ ds) le = absurd (omega arith)
take-fill (suc n) (d ∷ ds) le = ap (λ xs. d ∷ xs) (take-fill n ds (omega (arith, le)))

-- Up to eight dependencies fit, they take eight places, and `as_slice` gives them back.
pub from_array-as_slice :
    (ds : List Dep)
    → length ds ≤ max_deps
    → (d : DepList) × (from_array ds ≡ some d) × (as_slice d ≡ ds) × (length d.items ≡ max_deps)
unfolding from_array as_slice
from_array-as_slice ds le = (
  record { items = fill max_deps ds; len = length ds },
  ground (arith, le),
  take-fill max_deps ds le,
  length-fill max_deps ds,
)
