-- ===== src/Pool/Tests.antt =====
-- Tests of the pool: the properties at two threads.
use capy_amqp_cpp.Prelude.{ℕ, ◌+◌, ◌<◌, ◌≤◌, ◌≡◌, refl, arith}
use capy_amqp_cpp.Pool.{Pool, init, fill, acquire, take_back}
use capy_amqp_cpp.Pool.Threads.{
  System, Reach, started, later, start, try_acquire, acquires, waiting, copies,
}
use capy_amqp_cpp.Pool.Threads.Safety.{owned, Reach-owned, Reach-exclusive}
use capy_amqp_cpp.Pool.Threads.Wakeup.{Reach-holder}

abbrev factory : ℕ → ℕ
factory i = i + 40

abbrev pool : Pool ℕ
pool = init 3 factory

-- Thread 0 takes the one object, and thread 1 waits for it.
abbrev first : System
first = try_acquire (start 1 factory) 0

abbrev second : System
second = try_acquire first 1

first-Reach : Reach 2 1 factory first
first-Reach = later started (acquires 0 (omega arith) refl)

second-Reach : Reach 2 1 factory second
unfolding try_acquire acquire init fill take_back
second-Reach = later first-Reach (acquires 1 (omega arith) refl)

thread_0 : 0 < copies 40 (second.held 0)
unfolding try_acquire acquire init fill take_back
thread_0 = omega arith

thread_1 : second.phase 1 ≡ waiting
unfolding try_acquire acquire init fill take_back
thread_1 = refl

one_object : (a : ℕ) → copies a (init 1 factory).available_objects ≤ 1
unfolding init fill
one_object a = ground arith

Reach-owned_example : owned 2 40 second ≡ copies 40 (init 1 factory).available_objects
Reach-owned_example = Reach-owned 40 second-Reach

abbrev taker : ℕ
taker = 0

Reach-exclusive_example : taker ≡ taker
Reach-exclusive_example =
    Reach-exclusive one_object second-Reach taker taker 40 (omega arith) (omega arith) thread_0
      thread_0

Reach-holder_example : (j : ℕ) × (j < 2) × (0 < copies (factory 0) (second.held j))
Reach-holder_example = Reach-holder (omega arith) second-Reach 1 thread_1
