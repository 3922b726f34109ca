-- ===== src/Pool/Order.antt =====
-- The pool of src/broker_impl/pool.h seen as a queue.
use mathlib.Core.List.{reverse, reverse-cons, reverse-reverse}
use capy_amqp_cpp.Prelude.{
  ℕ, zero, suc, ◌+◌, ◌≡◌, refl, sym, ap, ◌∙◌, Option, none, some, List, [], ◌∷◌, ◌++◌, arith,
  length, length-append, append_assoc, append-nil, map, indices,
}
use capy_amqp_cpp.Pool.{
  Pool, fill, init, keep_front, take_back, with_rest, acquire, release, get_available,
}

module _ {ℓ} {O : Type ℓ} where
  -- The free objects, the one to be handed out next first.
  abbrev pub queue : Pool O → List O
  queue p = reverse p.available_objects

  take_back-append : (xs : List O) (x : O) → take_back (xs ++ x ∷ []) ≡ some (x, xs)
  unfolding take_back
  take_back-append [] x = refl
  take_back-append (y ∷ []) x = refl
  take_back-append (y ∷ z ∷ r) x = ap (keep_front y) (take_back-append (z ∷ r) x)

  -- `acquire` hands out the first object of the queue, and waits on the empty queue only.
  abbrev pub dequeue : Pool O → List O → Option (O × Pool O)
  dequeue p [] = none
  dequeue p (x ∷ xs) = some (x, record p { available_objects = reverse xs })

  acquire-reverse :
      (p : Pool O) (xs : List O) → p.available_objects ≡ reverse xs → acquire p ≡ dequeue p xs
  unfolding acquire
  acquire-reverse p [] h = rw h refl
  acquire-reverse p (x ∷ xs) h =
      ap (with_rest p) (ap take_back (h ∙ reverse-cons x xs) ∙ take_back-append (reverse xs) x)

  -- `acquire` takes the first object of the pool, seen as a queue, and waits exactly if the queue
  -- is empty.
  pub acquire-queue : (p : Pool O) → acquire p ≡ dequeue p (queue p)
  acquire-queue p = acquire-reverse p (queue p) (sym (reverse-reverse p.available_objects))

  -- `release` puts an object at the end of the pool, seen as a queue.
  pub queue-release : (o : O) (p : Pool O) → queue (release o p) ≡ queue p ++ o ∷ []
  unfolding release
  queue-release o p = reverse-cons o p.available_objects

  pub fill-map :
      (factory : ℕ → O) (i n : ℕ) (xs : List O)
      → fill factory i n xs ≡ xs ++ map factory (indices i n)
  unfolding fill indices
  fill-map factory i zero xs = sym (append-nil xs)
  fill-map factory i (suc n) xs = fill-map factory (suc i) n _ ∙ append_assoc xs _ _

  -- A new pool holds the objects of the factory, the last that it made first in the queue.
  pub queue-init :
      (size : ℕ) (factory : ℕ → O)
      → queue (init size factory) ≡ reverse (map factory (indices 0 size))
  unfolding init
  queue-init size factory = ap reverse (fill-map factory 0 size [])

  length-fill :
      (factory : ℕ → O) (i n : ℕ) (xs : List O) → length (fill factory i n xs) ≡ length xs + n
  unfolding fill
  length-fill factory i zero xs = omega arith
  length-fill factory i (suc n) xs = omega (
    arith,
    length-fill factory (suc i) n (xs ++ factory i ∷ []),
    length-append xs (factory i ∷ []),
  )

  pub get_available-init : (size : ℕ) (factory : ℕ → O) → get_available (init size factory) ≡ size
  unfolding get_available init
  get_available-init size factory = omega (arith, length-fill factory 0 size [])
