-- ===== src/Container/State/Marks.antt =====
-- `mark_private_scope` marks the given scope and no other.
use modrun.Base.{
  ℕ, zero, suc, ◌+◌, ◌-◌, ◌<◌, ◌≡◌, refl, Bool, true, false, ◌||◌, List, [], ◌∷◌, ◌++◌, length,
  get_elem?, set, arith, leb, ◌==◌, nat_eq, length-append, Bool-cases, inl, inr,
}
use modrun.Base.Lists.{replicate}
use modrun.Scope.{ScopeId}
use modrun.Container.State.{is_marked, resize, mark_scope, has_mark}

length-replicate : (n : ℕ) → length (replicate n false) ≡ n
length-replicate zero = refl
length-replicate (suc n) = omega (arith, length-replicate n)

marked-replicate : (n i : ℕ) → is_marked (get_elem? (replicate n false) i) ≡ false
unfolding is_marked
marked-replicate zero i = refl
marked-replicate (suc n) zero = refl
marked-replicate (suc n) (suc i) = marked-replicate n i

marked-append :
    (marks : List Bool) (n i : ℕ)
    → is_marked (get_elem? (marks ++ replicate n false) i) ≡ is_marked (get_elem? marks i)
unfolding is_marked
marked-append [] n i = marked-replicate n i
marked-append (b ∷ marks) n zero = refl
marked-append (b ∷ marks) n (suc i) = marked-append marks n i

marked-set :
    (marks : List Bool) (i j : ℕ)
    → i < length marks
    → is_marked (get_elem? (set marks i true) j) ≡ ((i == j) || is_marked (get_elem? marks j))
unfolding is_marked
marked-set [] i j h = elim h [ ]
marked-set (b ∷ marks) zero zero h = refl
marked-set (b ∷ marks) zero (suc j) h = ground arith
marked-set (b ∷ marks) (suc i) zero h = ground arith
marked-set (b ∷ marks) (suc i) (suc j) h = ground (arith, marked-set marks i j)

pub has_mark-mark_scope :
    (marks : List Bool) (i j : ScopeId)
    → has_mark (mark_scope marks i) j ≡ ((i == j) || has_mark marks j)
unfolding mark_scope resize has_mark
has_mark-mark_scope marks i j = elim (Bool-cases (leb (length marks) i)) [
  | inl short ↦
      let gap = i + 1 - length marks in
      let more = marks ++ replicate gap false in
      let long : i < length more =
        ground (arith, length-append marks (replicate gap false), length-replicate gap) in
      rw short (rw (marked-set more i j long) (rw (marked-append marks gap j) refl))
  | inr long ↦ rw long (marked-set marks i j (ground arith))
]
