-- ===== src/Future.antt =====
-- Joining futures (src/future.rs). A future is how often `poll` answers `Pending`, and what it is
-- ready with then.
pub mod Swap
pub mod Sweep
pub mod Join
use modrun.Base.{ℕ, zero, suc, ◌+◌, Option, none, some, List, [], ◌∷◌, ◌++◌, length, get_elem?, set}
use modrun.Error.{Result, ok, err, panicked}

pub record Future {ℓ} (A : Type ℓ) : Type ℓ where
  pub pending : ℕ
  pub ready : A

pub data Poll {ℓ} (A : Type ℓ) : Type ℓ where
  pending : Poll A
  ready : A → Poll A

abbrev poll_at {ℓ} : {A : Type ℓ} → ℕ → A → Future A × Poll A
poll_at zero a = (record { pending = zero; ready = a }, ready a)
poll_at (suc n) a = (record { pending = n; ready = a }, pending)

abbrev pub poll_future {ℓ} : {A : Type ℓ} → Future A → Future A × Poll A
poll_future f = poll_at f.pending f.ready

-- The last element of `x ∷ xs`, and the others.
abbrev last_of {ℓ} : {A : Type ℓ} → A → List A → A
last_of x [] = x
last_of x (y ∷ ys) = last_of y ys

abbrev init_of {ℓ} : {A : Type ℓ} → A → List A → List A
init_of x [] = []
init_of x (y ∷ ys) = x ∷ init_of y ys

-- The last element comes first.
abbrev last_first {ℓ} : {A : Type ℓ} → List A → List A
last_first [] = []
last_first (x ∷ xs) = last_of x xs ∷ init_of x xs

-- `Vec::swap_remove`: the last element takes the place of the one that is removed.
abbrev pub swap_remove {ℓ} : {A : Type ℓ} → List A → ℕ → List A
swap_remove [] i = []
swap_remove (x ∷ xs) zero = last_first xs
swap_remove (x ∷ xs) (suc i) = x ∷ swap_remove xs i

module _ {ℓ ℓ'} (K : Type ℓ) (T : Type ℓ') where
  pub record TryJoinAll : Type (ℓ ⊔ ℓ') where
    pub inflight : List (K × Future (Result T))
    pub done : List (K × T)

abbrev pub Polled {ℓ ℓ'} : Type ℓ → Type ℓ' → Type (ℓ ⊔ ℓ')
Polled K T = TryJoinAll K T × Poll (Result (List (K × T)))

module _ {ℓ ℓ'} {K : Type ℓ} {T : Type ℓ'} where
  unfoldable pub try_join_all : List (K × Future (Result T)) → TryJoinAll K T
  try_join_all items = record { inflight = items; done = [] }

  -- The end of `poll`, behind its loop.
  abbrev finish_in : List (K × Future (Result T)) → TryJoinAll K T → Polled K T
  finish_in [] s = (record s { done = [] }, ready (ok s.done))
  finish_in (_ ∷ _) s = (s, pending)

  abbrev finish : TryJoinAll K T → Polled K T
  finish s = finish_in s.inflight s

  -- The `match` on one future that was polled; `more` goes on from an index and a state.
  poll_round :
      K
      → Future (Result T) × Poll (Result T)
      → ℕ
      → TryJoinAll K T
      → (ℕ → TryJoinAll K T → Polled K T)
      → Polled K T
  poll_round key (f, pending) i s more =
      more (suc i) (record s { inflight = set s.inflight i (key, f) })
  poll_round key (f, ready (ok v)) i s more =
      more i (record s { inflight = swap_remove s.inflight i; done = s.done ++ (key, v) ∷ [] })
  poll_round key (f, ready (err e)) i s more = (record s { inflight = [] }, ready (err e))
  poll_round key (f, ready (panicked m)) i s more = (s, ready (panicked m))

  poll_at_index :
      Option (K × Future (Result T))
      → ℕ
      → TryJoinAll K T
      → (ℕ → TryJoinAll K T → Polled K T)
      → Polled K T
  unfolding poll_round
  poll_at_index none i s more = finish s
  poll_at_index (some (key, f)) i s more = poll_round key (poll_future f) i s more

  -- The loop of `poll` from the index `i`, for at most as many rounds as the fuel.
  poll_loop : ℕ → ℕ → TryJoinAll K T → Polled K T
  unfolding poll_at_index
  poll_loop zero i s = finish s
  poll_loop (suc n) i s = poll_at_index (get_elem? s.inflight i) i s (poll_loop n)

  -- Each round moves the index on or removes a future.
  pub poll : TryJoinAll K T → Polled K T
  unfolding poll_loop
  poll s = poll_loop (length s.inflight) 0 s

  again :
      Polled K T
      → (TryJoinAll K T → Option (Result (List (K × T))))
      → Option (Result (List (K × T)))
  again (s, pending) more = more s
  again (s, ready r) more = some r

  -- `.await`: the future is polled until it is ready, at most so often.
  unfoldable pub join : ℕ → TryJoinAll K T → Option (Result (List (K × T)))
  unfolding again poll
  join zero s = none
  join (suc n) s = again (poll s) (join n)
