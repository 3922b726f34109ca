-- ===== src/Pool/Threads.antt =====
-- Threads that share a pool of src/broker_impl/pool.h, interleaved in any order.
pub mod Safety
pub mod Wakeup
use capy_amqp_cpp.Prelude.{
  ℕ, zero, suc, ◌+◌, ◌<◌, ◌≡◌, Bool, Option, none, some, List, [], ◌∷◌, ◌==◌, if◌then◌else◌,
  indices, update,
}
use capy_amqp_cpp.Pool.{Pool, init, acquire, release}

-- Where a thread stands. Objects are pointers, so numbers.
pub data Phase : Type 0 where
  idle : Phase  -- outside the pool
  waiting : Phase  -- in `wait_for_release_.wait`, without the mutex
  woken : Phase  -- notified, or woken with no reason, and about to test again

-- notify_all
abbrev pub wake : Phase → Phase
wake waiting = woken
wake idle = idle
wake woken = woken

-- `held` has the objects that `acquire` returned to a thread and that were not returned since.
pub record System : Type 0 where
  pub pool : Pool ℕ
  pub phase : ℕ → Phase
  pub held : ℕ → List ℕ

-- How often a list has an object.
abbrev pub copies : ℕ → List ℕ → ℕ
copies o [] = 0
copies o (free ∷ others) = copies o others + (if free == o then 1 else 0)

abbrev pub without : ℕ → List ℕ → List ℕ
without o [] = []
without o (x ∷ xs) = let rest = without o xs in if x == o then xs else x ∷ rest

-- Thread `i` runs the loop of `acquire` up to its return or its wait.
abbrev pub enter : System → ℕ → Option (ℕ × Pool ℕ) → System
enter s i none = record s { phase = update s.phase i waiting }
enter s i (some (o, p)) = record {
  pool = p;
  phase = update s.phase i idle;
  held = update s.held i (o ∷ s.held i);
}

unfoldable pub try_acquire : System → ℕ → System
unfolding acquire
try_acquire s i = enter s i (acquire s.pool)

-- `release` of an object that thread `k` has; all that wait are woken.
unfoldable pub give_back : System → ℕ → ℕ → System
unfolding release
give_back s k o = record {
  pool = release o s.pool;
  phase = λ j. wake (s.phase j);
  held = update s.held k (without o (s.held k));
}

-- A step of one of the `n` threads. A thread may acquire while it has objects, and return an object
-- that another thread acquired; the client is taken to return only what `acquire` returned, and once,
-- which `release` does not test.
pub data Step (n : ℕ) (s : System) : System → Type 0 where
  acquires : (i : ℕ) → i < n → s.phase i ≡ idle → Step n s (try_acquire s i)
  retries : (i : ℕ) → i < n → s.phase i ≡ woken → Step n s (try_acquire s i)
  releases :
      (i k o : ℕ)
      → i < n
      → k < n
      → s.phase i ≡ idle
      → 0 < copies o (s.held k)
      → Step n s (give_back s k o)
  wakes_spuriously :
      (i : ℕ) → i < n → s.phase i ≡ waiting → Step n s (record s { phase = update s.phase i woken })

abbrev pub start : ℕ → (ℕ → ℕ) → System
start size factory = record { pool = init size factory; phase = λ i. idle; held = λ i. [] }

pub data Reach (n size : ℕ) (factory : ℕ → ℕ) : System → Type 0 where
  started : Reach n size factory (start size factory)
  later : {s t : System} → Reach n size factory s → Step n s t → Reach n size factory t
