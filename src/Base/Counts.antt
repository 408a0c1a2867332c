-- ===== src/Base/Counts.antt =====
-- How often an element stands in a list, and the stable sort of the Rust standard library by a key.
use Prim.Native.Nat.{ℕ, suc, ◌+◌, ◌-◌, ◌≤◌, ◌<◌}
use mathlib.Core.Path.{◌≡◌, refl, subst}
use mathlib.Core.Logic.{inl, inr}
use mathlib.Core.List.{List, [], ◌∷◌, ◌++◌}
use native.Mathlib.Omega.{arith}
use modrun.Base.Tests.{if◌then◌else◌, leb, Bool-cases}
use modrun.Base.Equality.{Eq, ◌==◌}
use modrun.Base.Lists.{length, All}

module _ {ℓ} {A : Type ℓ} where
  insert_by_key : (A → ℕ) → A → List A → List A
  insert_by_key key x [] = x ∷ []
  insert_by_key key x (y ∷ ys) =
      let rest = insert_by_key key x ys in if leb (key x) (key y) then x ∷ y ∷ ys else y ∷ rest

  -- `sort_by_key`
  unfoldable pub sort_by_key : (A → ℕ) → List A → List A
  unfolding insert_by_key
  sort_by_key key [] = []
  sort_by_key key (x ∷ xs) = insert_by_key key x (sort_by_key key xs)

module _ {ℓ} {A : Type ℓ} ⦃e : Eq A⦄ where
  unfoldable pub count : List A → A → ℕ
  count [] a = 0
  count (x ∷ xs) a = let rest = count xs a in if x == a then suc rest else rest

  pub count-append : (xs ys : List A) (a : A) → count (xs ++ ys) a ≡ count xs a + count ys a
  unfolding count
  count-append [] ys a = omega arith
  count-append (x ∷ xs) ys a = ground (arith, count-append xs ys a)

  count-insert_by_key :
      (key : A → ℕ) (x : A) (xs : List A) (a : A)
      → count (insert_by_key key x xs) a ≡ count (x ∷ xs) a
  unfolding count insert_by_key
  count-insert_by_key key x [] a = refl
  count-insert_by_key key x (y ∷ ys) a = ground (arith, count-insert_by_key key x ys a)

  pub count-sort_by_key :
      (key : A → ℕ) (xs : List A) (a : A) → count (sort_by_key key xs) a ≡ count xs a
  unfolding count sort_by_key
  count-sort_by_key key [] a = refl
  count-sort_by_key key (x ∷ xs) a =
      ground (arith, count-insert_by_key key x (sort_by_key key xs) a, count-sort_by_key key xs a)

  -- The list without the first of these elements.
  erase : List A → A → List A
  erase [] a = []
  erase (x ∷ xs) a = let rest = erase xs a in if x == a then xs else x ∷ rest

  count-erase :
      (xs : List A) (a b : A)
      → count (erase xs a) b ≡ (if a == b then count xs b - 1 else count xs b)
  unfolding count erase
  count-erase [] a b = ground arith
  count-erase (x ∷ xs) a b =
      ground (arith, count-erase xs a b, e.beq_iff x a, e.beq_iff x b, e.beq_iff a b)

  length-erase : (xs : List A) (a : A) → 0 < count xs a → length xs ≡ suc (length (erase xs a))
  unfolding count erase
  length-erase [] a h = absurd (omega arith)
  length-erase (x ∷ xs) a h = ground (arith, length-erase xs a)

  -- A list that has each of its elements at most as often as another is not longer.
  pub length-count_le :
      (xs ys : List A) → ((a : A) → count xs a ≤ count ys a) → length xs ≤ length ys
  unfolding count
  length-count_le [] ys h = omega arith
  length-count_le (x ∷ xs) ys h =
      let there : 0 < count ys x = ground (arith, h x, e.beq_iff x x) in
      let rest =
        length-count_le xs (erase ys x)
          (λ a. ground (arith, h a, count-erase ys x a, e.beq_iff x a)) in
      omega (arith, rest, length-erase ys x there)

  -- What holds of all elements, and of those that stand in the list.
  pub All-count {κ} : (P : A → Type κ) (xs : List A) (a : A) → All P xs → 0 < count xs a → P a
  unfolding count
  All-count P [] a h there = absurd (omega arith)
  All-count P (x ∷ xs) a (p, ps) there = elim (Bool-cases (x == a)) [
    | inl same ↦ subst P ((e.beq_iff x a).0 same) p
    | inr other ↦ All-count P xs a ps (ground (arith, there, other))
  ]

  pub count-All {κ} : (P : A → Type κ) (xs : List A) → ((a : A) → 0 < count xs a → P a) → All P xs
  unfolding count
  count-All P [] h = tt
  count-All P (x ∷ xs) h =
      (h x (ground (arith, e.beq_iff x x)), count-All P xs (λ a there. h a (ground (arith, there))))
