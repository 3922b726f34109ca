-- ===== src/Pool.antt =====
-- src/broker_impl/pool.h: a pool of objects, shared by threads behind a mutex. Each method holds the
-- mutex throughout, and gives it up only where `acquire` waits. The vector of free objects is a list,
-- its front first; an object is the pointer to it.
pub mod Order
pub mod Threads
mod Tests
use capy_amqp_cpp.Prelude.{
  ℕ, zero, suc, ◌+◌, Bool, Option, none, some, List, [], ◌∷◌, ◌++◌, length, is_empty,
}

-- class Node: a value in place. `construct` builds it anew over the old one.
pub record Node {ℓ} (T : Type ℓ) : Type ℓ where
  pub m_val : T

module _ {ℓ} {T : Type ℓ} where
  unfoldable pub construct : T → Node T → Node T
  construct t node = record node { m_val = t }

  unfoldable pub assign : T → Node T → Node T × T
  assign t node = (record node { m_val = t }, t)

  unfoldable pub val : Node T → T
  val node = node.m_val

pub record Pool {ℓ} (O : Type ℓ) : Type ℓ where
  pub size : ℕ
  pub available_objects : List O

module _ {ℓ} {O : Type ℓ} where
  -- The loop of `fill`, from index `i` on.
  unfoldable pub fill : (ℕ → O) → ℕ → ℕ → List O → List O
  fill factory i zero available = available
  fill factory i (suc n) available = fill factory (suc i) n (available ++ factory i ∷ [])

  -- The constructor. The factory is a parameter.
  unfoldable pub init : ℕ → (ℕ → O) → Pool O
  unfolding fill
  init size factory = record { size = size; available_objects = fill factory 0 size [] }

  abbrev pub keep_front : O → Option (O × List O) → Option (O × List O)
  keep_front x none = none
  keep_front x (some (last, rest)) = some (last, x ∷ rest)

  -- `back` and `pop_back`, on a vector that may be empty.
  unfoldable pub take_back : List O → Option (O × List O)
  take_back [] = none
  take_back (x ∷ []) = some (x, [])
  take_back (x ∷ y ∷ r) = keep_front x (take_back (y ∷ r))

  abbrev pub with_rest : Pool O → Option (O × List O) → Option (O × Pool O)
  with_rest p none = none
  with_rest p (some (last, rest)) = some (last, record p { available_objects = rest })

  -- One turn of the loop in `acquire`; `none` means that it waits.
  unfoldable pub acquire : Pool O → Option (O × Pool O)
  unfolding take_back
  acquire p = with_rest p (take_back p.available_objects)

  -- `release`; that it also wakes the waiting threads is in `Threads`.
  unfoldable pub release : O → Pool O → Pool O
  release object p = record p { available_objects = object ∷ p.available_objects }

  unfoldable pub get_size : Pool O → ℕ
  get_size p = p.size

  unfoldable pub get_available : Pool O → ℕ
  get_available p = length p.available_objects

  unfoldable pub empty : Pool O → Bool
  empty p = is_empty p.available_objects

  -- The destructor: the objects that it deletes, in order.
  unfoldable pub destroy : Pool O → List O
  destroy p = p.available_objects
