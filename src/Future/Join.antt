-- ===== src/Future/Join.antt =====
-- Joined futures are polled until all are done, or one fails.
use modrun.Base.{
  ℕ, zero, suc, ◌+◌, ◌≤◌, ◌≡◌, refl, ap, ◌∙◌, Option, some, List, [], ◌∷◌, ◌++◌, length, get_elem?,
  arith, append_assoc, append-nil, length-append, subst,
}
use mathlib.Core.List.Perm
use modrun.Error.{Result, ok, err, panicked}
use modrun.Future.{
  Future, pending, ready, poll_future, last_first, TryJoinAll, Polled, finish, poll_round,
  poll_at_index, poll_loop, poll, try_join_all, again, join,
}
use modrun.Future.Swap.{get_elem?-middle, get_elem?-end, set-middle, swap_remove-middle}
use modrun.Future.Sweep.{
  outcomes, contents, total, joining, IsJoined, Progress, finish-Progress, Progress-perm,
  contents-middle, contents-done, total-append, total-last_first, length-last_first, Joined-perm,
}

-- The loop with this much fuel makes progress on the futures before its index and behind it.
abbrev Sweeps {ℓ ℓ'} : Type ℓ → Type ℓ' → ℕ → Type (ℓ ⊔ ℓ')
Sweeps K T n =
    (front rest : List (K × Future (Result T))) (done : List (K × T))
    → length rest ≤ n
    → Progress (contents (joining (front ++ rest) done)) (total front + length front + total rest)
        (poll_loop n (length front) (joining (front ++ rest) done))

module _ {ℓ ℓ'} {K : Type ℓ} {T : Type ℓ'} where
  ended :
      (front : List (K × Future (Result T))) (done : List (K × T))
      → Progress
          (contents (joining (front ++ []) done))
          (total front + length front + 0)
          (finish (joining (front ++ []) done))
  ended front done = rw (append-nil front) (
      Progress-perm _ _ (total front + length front) _ (finish (joining front done)) (Perm.refl _)
        (omega arith) (finish-Progress front done))

  round :
      (n : ℕ) (front rest : List (K × Future (Result T))) (done : List (K × T)) (key : K) (p : ℕ)
      (r : Result T)
      → Sweeps K T n
      → length rest ≤ n
      → let f : Future (Result T) = record { pending = p; ready = r } in
        Progress
          (contents (joining (front ++ (key, f) ∷ rest) done))
          (total front + length front + (p + total rest))
          (poll_round key
            (poll_future f)
            (length front)
            (joining (front ++ (key, f) ∷ rest) done)
            (poll_loop n))
  unfolding poll_round
  round n front rest done key zero (ok v) ih le =
      let f : Future (Result T) = record { pending = 0; ready = ok v } in
      rw (swap_remove-middle front (key, f) rest) (
        Progress-perm _ _ (total front + length front + total (last_first rest)) _ _
          (Perm.trans (contents-done front rest done key v) (contents-middle front rest done key f))
          (omega (arith, total-last_first rest))
          (ih front (last_first rest) (done ++ (key, v) ∷ [])
            (omega (arith, length-last_first rest))))
  round n front rest done key zero (err e) ih le = (
    key,
    contents (joining (front ++ rest) done),
    contents-middle front rest done key (record { pending = 0; ready = err e }),
  )
  round n front rest done key zero (panicked m) ih le = (
    key,
    contents (joining (front ++ rest) done),
    contents-middle front rest done key (record { pending = 0; ready = panicked m }),
  )
  round n front rest done key (suc p) r ih le =
      let f : Future (Result T) = record { pending = suc p; ready = r } in
      let g : Future (Result T) = record { pending = p; ready = r } in
      let moved : length (front ++ (key, g) ∷ []) ≡ suc (length front) =
        omega (arith, length-append front ((key, g) ∷ [])) in
      let at : (front ++ (key, g) ∷ []) ++ rest ≡ front ++ (key, g) ∷ rest =
        append_assoc front ((key, g) ∷ []) rest in
      let bound = total (front ++ (key, g) ∷ []) + length (front ++ (key, g) ∷ []) + total rest in
      rw (set-middle front (key, f) (key, g) rest) (
        Progress-perm (contents (joining (front ++ (key, g) ∷ rest) done)) _ bound _ _
          (Perm.trans (Perm.symm (contents-middle front rest done key g))
            (contents-middle front rest done key f))
          (omega (arith, total-append front ((key, g) ∷ []), length-append front ((key, g) ∷ [])))
          (subst
            (λ i.
              Progress (contents (joining (front ++ (key, g) ∷ rest) done)) bound
                (poll_loop n i (joining (front ++ (key, g) ∷ rest) done)))
            moved
            (subst
              (λ xs.
                Progress (contents (joining xs done)) bound
                  (poll_loop n (length (front ++ (key, g) ∷ [])) (joining xs done)))
              at (ih (front ++ (key, g) ∷ []) rest done le))))

  poll_loop-Sweeps : (n : ℕ) → Sweeps K T n
  unfolding poll_loop poll_at_index
  poll_loop-Sweeps zero front [] done le = ended front done
  poll_loop-Sweeps zero front (x ∷ rest) done le = absurd (omega arith)
  poll_loop-Sweeps (suc n) front [] done le =
      rw (ap (λ xs. get_elem? xs (length front)) (append-nil front) ∙ get_elem?-end front)
        (ended front done)
  poll_loop-Sweeps (suc n) front ((key, f) ∷ rest) done le =
      rw (get_elem?-middle front (key, f) rest)
        (round n front rest done key f.pending f.ready (poll_loop-Sweeps n) (omega arith))

  -- One poll.
  pub poll-Progress : (s : TryJoinAll K T) → Progress (contents s) (total s.inflight) (poll s)
  unfolding poll
  poll-Progress s =
      Progress-perm _ _ _ _ (poll s) (Perm.refl _) (omega arith)
        (poll_loop-Sweeps (length s.inflight) [] s.inflight s.done (omega arith))

  -- The result is there, and it is that of the contents.
  abbrev pub JoinsTo : List (K × Result T) → Option (Result (List (K × T))) → Type (ℓ ⊔ ℓ')
  JoinsTo cs o = (r : Result (List (K × T))) × (o ≡ some r) × IsJoined cs r

  again-JoinsTo :
      (cs : List (K × Result T)) (m : ℕ) (p : Polled K T)
      (more : TryJoinAll K T → Option (Result (List (K × T))))
      → Progress cs m p
      → ((s : TryJoinAll K T) → suc (total s.inflight) ≤ m → JoinsTo (contents s) (more s))
      → JoinsTo cs (again p more)
  unfolding again
  again-JoinsTo cs m (s, ready r) more h k = (r, refl, h)
  again-JoinsTo cs m (s, pending) more (same, some_left, few) k =
      let (r, e, j) = k s (omega arith) in (r, e, Joined-perm (contents s) cs r same j)

  join-JoinsTo :
      (n : ℕ) (s : TryJoinAll K T) → suc (total s.inflight) ≤ n → JoinsTo (contents s) (join n s)
  unfolding join
  join-JoinsTo zero s le = absurd (omega arith)
  join-JoinsTo (suc n) s le =
      again-JoinsTo (contents s) (total s.inflight) (poll s) (join n) (poll-Progress s)
        (λ s' few. join-JoinsTo n s' (omega arith))

  -- Joining ends, after at most one poll more than the futures answer `Pending` altogether. Its
  -- result is every value under its key, each once, if all futures succeed; otherwise it is the
  -- error, or the panic, of one of the futures.
  pub try_join_all-JoinsTo :
      (items : List (K × Future (Result T))) (n : ℕ)
      → suc (total items) ≤ n
      → JoinsTo (outcomes items) (join n (try_join_all items))
  unfolding try_join_all
  try_join_all-JoinsTo items n le = join-JoinsTo n (try_join_all items) le
