-- ===== src/Pool/Threads/Wakeup.antt =====
-- The threads that wait for an object of src/broker_impl/pool.h.
use native.Mathlib.Decide.{ℕ_discrete}
use capy_amqp_cpp.Prelude.{
  ℕ, zero, suc, ◌<◌, ◌≡◌, ◌≢◌, refl, sym, ap, ◌∙◌, Option, none, some, [], ◌∷◌, arith, indices,
  sum_from-pos,
}
use capy_amqp_cpp.Pool.{Pool, init, acquire}
use capy_amqp_cpp.Pool.Order.{fill-map}
use capy_amqp_cpp.Pool.Threads.{
  Phase, idle, waiting, woken, wake, System, copies, enter, try_acquire, give_back, Step, acquires,
  retries, releases, wakes_spuriously, Reach, started, later,
}
use capy_amqp_cpp.Pool.Threads.Safety.{acquire-eq-none, update_at, update_other, Reach-owned}

-- Threads wait only on an empty pool.
abbrev pub NoneMissed : System → Type 0
NoneMissed s = (i : ℕ) → s.phase i ≡ waiting → s.pool.available_objects ≡ []

wake-ne-waiting : (p : Phase) → wake p ≢ waiting
wake-ne-waiting idle h = cc
wake-ne-waiting waiting h = cc
wake-ne-waiting woken h = cc

acquire_nil : (p : Pool ℕ) → p.available_objects ≡ [] → acquire p ≡ none
unfolding acquire
acquire_nil p h = rw h refl

enter-NoneMissed :
    (s : System) (i : ℕ) (r : Option (ℕ × Pool ℕ))
    → acquire s.pool ≡ r
    → NoneMissed s
    → NoneMissed (enter s i r)
enter-NoneMissed s i none h v j w = acquire-eq-none s.pool h
enter-NoneMissed s i (some (o, q)) h v j w = elim (ℕ_discrete j i) [
  | yes e ↦ cc (sym (update_at s.phase i idle), w, e)
  | no ne ↦ cc (h, acquire_nil s.pool (v j (sym (update_other s.phase i j idle ne) ∙ w)))
]

give_back-NoneMissed : (s : System) (k o : ℕ) → NoneMissed (give_back s k o)
unfolding give_back
give_back-NoneMissed s k o j w = absurd (wake-ne-waiting (s.phase j) w)

Step-NoneMissed : {n : ℕ} {s t : System} → Step n s t → NoneMissed s → NoneMissed t
unfolding try_acquire
Step-NoneMissed {n} {s} (acquires i lt h) v j w = enter-NoneMissed s i (acquire s.pool) refl v j w
Step-NoneMissed {n} {s} (retries i lt h) v j w = enter-NoneMissed s i (acquire s.pool) refl v j w
Step-NoneMissed {n} {s} (releases i k o lt lt' h has) v j w = give_back-NoneMissed s k o j w
Step-NoneMissed {n} {s} (wakes_spuriously i lt h) v j w = v i h

-- In every reachable state, a thread that waits for a release waits on an empty pool.
pub Reach-NoneMissed :
    {n size : ℕ} {factory : ℕ → ℕ} {s : System} → Reach n size factory s → NoneMissed s
Reach-NoneMissed started i w = cc
Reach-NoneMissed (later r st) i w = Step-NoneMissed st (Reach-NoneMissed r) i w

one_at : (a : ℕ) → copies a (a ∷ []) ≡ 1
one_at a = ground arith

copies-init :
    (size : ℕ) (factory : ℕ → ℕ)
    → 0 < size
    → 0 < copies (factory 0) (init size factory).available_objects
unfolding init indices
copies-init zero factory h = absurd (omega arith)
copies-init (suc n) factory h =
    let e = fill-map factory 0 (suc n) [] in
    omega (arith, ap (copies (factory 0)) e, one_at (factory 0))

-- If the pool was made with an object, then in every reachable state in which a thread waits in
-- `acquire`, some thread, which may be that one, holds the first object of the factory: no wakeup
-- is lost. A thread may have several objects, and may return one that another thread acquired; a
-- client is taken to return only what `acquire` returned, and once.
pub Reach-holder :
    {n size : ℕ} {factory : ℕ → ℕ} {s : System}
    → 0 < size
    → Reach n size factory s
    → (i : ℕ) → s.phase i ≡ waiting
    → (j : ℕ) × (j < n) × (0 < copies (factory 0) (s.held j))
Reach-holder {n} {size} {factory} {s} pos r i w =
    let a : ℕ = factory 0 in
    let e : copies a s.pool.available_objects ≡ 0 = ap (copies a) (Reach-NoneMissed r i w) in
    let (j, lo, hi, p) =
      sum_from-pos (λ k. copies a (s.held k)) 0 n
        (omega (arith, e, Reach-owned a r, copies-init size factory pos)) in
    (j, omega arith, p)
