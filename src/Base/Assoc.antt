-- ===== src/Base/Assoc.antt =====
-- `HashMap` and `HashSet` as association lists without repeated keys. The order of iteration,
-- which Rust leaves open, is the order of first insertion.
use mathlib.Core.Path.{◌≡◌, refl}
use mathlib.Core.Bool.{Bool, true, false, ◌||◌}
use mathlib.Core.List.{List, [], ◌∷◌}
use mathlib.Core.Option.{Option, none, some}
use native.Mathlib.Omega.{arith}
use modrun.Base.Tests.{if◌then◌else◌}
use modrun.Base.Equality.{Eq, ◌==◌}

abbrev pub Map {ℓ κ} : Type ℓ → Type κ → Type (ℓ ⊔ κ)
Map K V = List (K × V)

module _ {ℓ κ} {K : Type ℓ} {V : Type κ} ⦃e : Eq K⦄ where
  unfoldable pub get : Map K V → K → Option V
  get [] k = none
  get ((j, v) ∷ m) k = if j == k then some v else get m k

  unfoldable pub insert : Map K V → K → V → Map K V
  insert [] k v = (k, v) ∷ []
  insert ((j, w) ∷ m) k v = if j == k then (k, v) ∷ m else (j, w) ∷ insert m k v

  unfoldable pub remove : Map K V → K → Map K V
  remove [] k = []
  remove ((j, w) ∷ m) k = let rest = remove m k in if j == k then rest else (j, w) ∷ rest

  unfoldable pub contains_key : Map K V → K → Bool
  contains_key [] k = false
  contains_key ((j, v) ∷ m) k = j == k || contains_key m k

  pub get-insert :
      (m : Map K V) (k j : K) (v : V) → get (insert m k v) j ≡ (if k == j then some v else get m j)
  unfolding get insert
  get-insert [] k j v = refl
  get-insert ((i, w) ∷ m) k j v =
      ground (arith, get-insert m k j v, e.beq_iff i k, e.beq_iff i j, e.beq_iff k j)

  pub get-remove : (m : Map K V) (k j : K) → get (remove m k) j ≡ (if k == j then none else get m j)
  unfolding get remove
  get-remove [] k j = ground arith
  get-remove ((i, w) ∷ m) k j =
      ground (arith, get-remove m k j, e.beq_iff i k, e.beq_iff i j, e.beq_iff k j)

  pub contains_key-get :
      (m : Map K V) (k : K) → contains_key m k ≡ elim (get m k) [ none ↦ false | some _ ↦ true ]
  unfolding contains_key get
  contains_key-get [] k = refl
  contains_key-get ((j, v) ∷ m) k = ground (arith, contains_key-get m k)

module _ {ℓ} {K : Type ℓ} ⦃e : Eq K⦄ where
  unfoldable pub contains : List K → K → Bool
  contains [] k = false
  contains (j ∷ s) k = j == k || contains s k

  -- `HashSet::insert` without its result: an element that is there stays where it is.
  unfoldable pub add : List K → K → List K
  add [] k = k ∷ []
  add (j ∷ s) k = if j == k then j ∷ s else j ∷ add s k

  unfoldable pub discard : List K → K → List K
  discard [] k = []
  discard (j ∷ s) k = let rest = discard s k in if j == k then rest else j ∷ rest

  pub contains-add : (s : List K) (k j : K) → contains (add s k) j ≡ (k == j || contains s j)
  unfolding contains add
  contains-add [] k j = refl
  contains-add (i ∷ s) k j =
      ground (arith, contains-add s k j, e.beq_iff i k, e.beq_iff i j, e.beq_iff k j)

  pub contains-discard :
      (s : List K) (k j : K) → contains (discard s k) j ≡ (if k == j then false else contains s j)
  unfolding contains discard
  contains-discard [] k j = ground arith
  contains-discard (i ∷ s) k j =
      ground (arith, contains-discard s k j, e.beq_iff i k, e.beq_iff i j, e.beq_iff k j)

pub ruleset map_laws = (get-insert, get-remove, contains_key-get, contains-add, contains-discard)
