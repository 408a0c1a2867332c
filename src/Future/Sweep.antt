-- ===== src/Future/Sweep.antt =====
-- One `poll` of joined futures: what it keeps, and how it ends.
use modrun.Base.{
  ℕ, ◌+◌, ◌≤◌, ◌≡◌, refl, ap, List, [], ◌∷◌, ◌++◌, length, Perm, perm_middle, arith, append_assoc,
  append-nil,
}
use mathlib.Core.List.Perm
use modrun.Error.{Result, ok, err, panicked}
use modrun.Future.{Future, pending, ready, last_of, init_of, last_first, TryJoinAll, Polled, finish}

module _ {ℓ ℓ'} {K : Type ℓ} {T : Type ℓ'} where
  -- What each future will give.
  abbrev pub outcomes : List (K × Future (Result T)) → List (K × Result T)
  outcomes [] = []
  outcomes ((key, f) ∷ fs) = (key, f.ready) ∷ outcomes fs

  abbrev pub successes : List (K × T) → List (K × Result T)
  successes [] = []
  successes ((key, v) ∷ vs) = (key, ok v) ∷ successes vs

  -- What is done, and what is still to come.
  abbrev pub contents : TryJoinAll K T → List (K × Result T)
  contents s = successes s.done ++ outcomes s.inflight

  -- How often the futures will answer `Pending`.
  abbrev pub total : List (K × Future (Result T)) → ℕ
  total [] = 0
  total ((key, f) ∷ fs) = f.pending + total fs

  outcomes-append :
      (xs ys : List (K × Future (Result T))) → outcomes (xs ++ ys) ≡ outcomes xs ++ outcomes ys
  outcomes-append [] ys = refl
  outcomes-append (x ∷ xs) ys = ap (λ zs. (x.0, x.1.ready) ∷ zs) (outcomes-append xs ys)

  successes-append : (xs ys : List (K × T)) → successes (xs ++ ys) ≡ successes xs ++ successes ys
  successes-append [] ys = refl
  successes-append (x ∷ xs) ys = ap (λ zs. (x.0, ok x.1) ∷ zs) (successes-append xs ys)

  pub total-append : (xs ys : List (K × Future (Result T))) → total (xs ++ ys) ≡ total xs + total ys
  total-append [] ys = omega arith
  total-append (x ∷ xs) ys = omega (arith, total-append xs ys)

  outcomes-last_of :
      (x : K × Future (Result T)) (xs : List (K × Future (Result T)))
      → Perm (outcomes (last_of x xs ∷ init_of x xs)) (outcomes (x ∷ xs))
  outcomes-last_of x [] = Perm.refl _
  outcomes-last_of x (y ∷ ys) =
      Perm.trans
        (Perm.swap (x.0, x.1.ready) ((last_of y ys).0, (last_of y ys).1.ready)
          (outcomes (init_of y ys)))
        (Perm.cons (x.0, x.1.ready) (outcomes-last_of y ys))

  outcomes-last_first :
      (xs : List (K × Future (Result T))) → Perm (outcomes (last_first xs)) (outcomes xs)
  outcomes-last_first [] = Perm.refl []
  outcomes-last_first (x ∷ xs) = outcomes-last_of x xs

  total-last_of :
      (x : K × Future (Result T)) (xs : List (K × Future (Result T)))
      → total (last_of x xs ∷ init_of x xs) ≡ total (x ∷ xs)
  total-last_of x [] = refl
  total-last_of x (y ∷ ys) = omega (arith, total-last_of y ys)

  pub total-last_first : (xs : List (K × Future (Result T))) → total (last_first xs) ≡ total xs
  total-last_first [] = refl
  total-last_first (x ∷ xs) = total-last_of x xs

  length-last_of :
      (x : K × Future (Result T)) (xs : List (K × Future (Result T)))
      → length (init_of x xs) ≡ length xs
  length-last_of x [] = refl
  length-last_of x (y ∷ ys) = omega (arith, length-last_of y ys)

  pub length-last_first : (xs : List (K × Future (Result T))) → length (last_first xs) ≡ length xs
  length-last_first [] = refl
  length-last_first (x ∷ xs) = omega (arith, length-last_of x xs)

  -- The result of joining: every value under its key, each once; or the error (or the panic) of one
  -- of the futures.
  abbrev pub IsJoined : List (K × Result T) → Result (List (K × T)) → Type (ℓ ⊔ ℓ')
  IsJoined cs (ok vs) = Perm (successes vs) cs
  IsJoined cs (err e) = (key : K) × (others : List (K × Result T)) × Perm ((key, err e) ∷ others) cs
  IsJoined cs (panicked m) =
      (key : K) × (others : List (K × Result T)) × Perm ((key, panicked m) ∷ others) cs

  -- A poll of futures with these contents that may answer `Pending` so often: it is ready with the
  -- result, or it keeps the contents, and each future that is left was polled.
  abbrev pub Progress : List (K × Result T) → ℕ → Polled K T → Type (ℓ ⊔ ℓ')
  Progress cs n (s, ready r) = IsJoined cs r
  Progress cs n (s, pending) =
      Perm (contents s) cs × (1 ≤ length s.inflight) × (total s.inflight + length s.inflight ≤ n)

  pub finish-Progress :
      (front : List (K × Future (Result T))) (done : List (K × T))
      → let s : TryJoinAll K T = record { inflight = front; done = done } in
        Progress (contents s) (total front + length front) (finish s)
  finish-Progress [] done = rw (append-nil (successes done)) (Perm.refl (successes done))
  finish-Progress (x ∷ front) done = (Perm.refl _, omega arith, omega arith)

  abbrev pub joining : List (K × Future (Result T)) → List (K × T) → TryJoinAll K T
  joining fs done = record { inflight = fs; done = done }

  pub Joined-perm :
      (cs ds : List (K × Result T)) (r : Result (List (K × T)))
      → Perm cs ds
      → IsJoined cs r
      → IsJoined ds r
  Joined-perm cs ds (ok vs) e h = Perm.trans h e
  Joined-perm cs ds (err x) e (key, others, h) = (key, others, Perm.trans h e)
  Joined-perm cs ds (panicked m) e (key, others, h) = (key, others, Perm.trans h e)

  pub Progress-perm :
      (cs ds : List (K × Result T)) (m n : ℕ) (p : Polled K T)
      → Perm cs ds
      → m ≤ n
      → Progress cs m p
      → Progress ds n p
  Progress-perm cs ds m n (s, ready r) e le h = Joined-perm cs ds r e h
  Progress-perm cs ds m n (s, pending) e le (h, some_left, few) =
      (Perm.trans h e, some_left, omega arith)

  -- The contents with one future in the middle, and those once it is done.
  pub contents-middle :
      (front rest : List (K × Future (Result T))) (done : List (K × T)) (key : K)
      (f : Future (Result T))
      → Perm
          ((key, f.ready) ∷ contents (joining (front ++ rest) done))
          (contents (joining (front ++ (key, f) ∷ rest) done))
  contents-middle front rest done key f =
      rw (outcomes-append front rest, outcomes-append front ((key, f) ∷ rest))
        (Perm.trans (Perm.symm (perm_middle (successes done) (outcomes front ++ outcomes rest))) (
          Perm.append_left (successes done)
            (Perm.symm (perm_middle (outcomes front) (outcomes rest)))))

  pub contents-done :
      (front rest : List (K × Future (Result T))) (done : List (K × T)) (key : K) (v : T)
      → Perm
          (contents (joining (front ++ last_first rest) (done ++ (key, v) ∷ [])))
          ((key, ok v) ∷ contents (joining (front ++ rest) done))
  contents-done front rest done key v =
      rw
        (
          outcomes-append front rest,
          outcomes-append front (last_first rest),
          successes-append done ((key, v) ∷ []),
        )
        (Perm.trans
          (Perm.append_left (successes done ++ (key, ok v) ∷ [])
            (Perm.append_left (outcomes front) (outcomes-last_first rest)))
          (rw (append_assoc (successes done) ((key, ok v) ∷ []) (outcomes front ++ outcomes rest))
            (perm_middle (successes done) (outcomes front ++ outcomes rest))))
