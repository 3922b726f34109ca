-- ===== src/Pool/Threads/Safety.antt =====
-- Where the objects of a pool of src/broker_impl/pool.h are: free, or held by a thread.
use native.Mathlib.Decide.{ℕ_discrete}
use capy_amqp_cpp.Prelude.{
  ℕ, ◌+◌, ◌≤◌, ◌<◌, ◌≡◌, ◌≢◌, refl, sym, ap, ◌∙◌, Option, none, some, List, [], ◌∷◌, ◌++◌, arith,
  ◌==◌, ==_iff, ==_refl, if◌then◌else◌, Bool-cases, inl, inr, update, sum_from, sum_from_zero,
  sum_from-update, sum_from-ge,
}
use capy_amqp_cpp.Pool.{Pool, init, take_back, keep_front, with_rest, acquire}
use capy_amqp_cpp.Pool.Threads.{
  System, copies, without, enter, try_acquire, give_back, Step, acquires, retries, releases,
  wakes_spuriously, Reach, started, later,
}

-- How often an object is free or held, over the first `n` threads.
abbrev pub owned : ℕ → ℕ → System → ℕ
owned n a s = copies a s.pool.available_objects + sum_from (λ i. copies a (s.held i)) 0 n

copies-append :
    (o : ℕ) (front back : List ℕ) → copies o (front ++ back) ≡ copies o back + copies o front
copies-append o [] back = omega arith
copies-append o (free ∷ front) back = omega (arith, copies-append o front back)

keep_front-eq-some :
    (x : ℕ) (r : Option (ℕ × List ℕ)) (o : ℕ) (rest : List ℕ)
    → keep_front x r ≡ some (o, rest)
    → (r' : List ℕ) × (r ≡ some (o, r')) × (rest ≡ x ∷ r')
keep_front-eq-some x none o rest h = absurd (cc)
keep_front-eq-some x (some (o', r')) o rest h = (r', ground arith, ground arith)

keep_front-eq-none : (x : ℕ) (r : Option (ℕ × List ℕ)) → keep_front x r ≡ none → r ≡ none
keep_front-eq-none x none h = refl
keep_front-eq-none x (some (o, r)) h = cc

with_rest-eq-some :
    (p : Pool ℕ) (r : Option (ℕ × List ℕ)) (o : ℕ) (q : Pool ℕ)
    → with_rest p r ≡ some (o, q)
    → (rest : List ℕ) × (r ≡ some (o, rest)) × (q.available_objects ≡ rest)
with_rest-eq-some p none o q h = absurd (cc)
with_rest-eq-some p (some (o', rest)) o q h = (rest, ground arith, ground arith)

with_rest-eq-none : (p : Pool ℕ) (r : Option (ℕ × List ℕ)) → with_rest p r ≡ none → r ≡ none
with_rest-eq-none p none h = refl
with_rest-eq-none p (some (o, r)) h = cc

copies-take_back :
    (a o : ℕ) (xs rest : List ℕ)
    → take_back xs ≡ some (o, rest)
    → copies a xs ≡ copies a rest + (if o == a then 1 else 0)
unfolding take_back
copies-take_back a o [] rest h = cc
copies-take_back a o (x ∷ []) rest h = ground arith
copies-take_back a o (x ∷ y ∷ r) rest h =
    let (r', p, q) = keep_front-eq-some x (take_back (y ∷ r)) o rest h in
    omega (arith, copies-take_back a o (y ∷ r) r' p, ap (copies a) q)

take_back-eq-none : (xs : List ℕ) → take_back xs ≡ none → xs ≡ []
unfolding take_back
take_back-eq-none [] h = refl
take_back-eq-none (x ∷ []) h = cc
take_back-eq-none (x ∷ y ∷ r) h =
    cc (take_back-eq-none (y ∷ r) (keep_front-eq-none x (take_back (y ∷ r)) h))

pub acquire-eq-none : (p : Pool ℕ) → acquire p ≡ none → p.available_objects ≡ []
unfolding acquire
acquire-eq-none p h =
    take_back-eq-none p.available_objects (with_rest-eq-none p (take_back p.available_objects) h)

copies-acquire :
    (a o : ℕ) (p q : Pool ℕ)
    → acquire p ≡ some (o, q)
    → copies a p.available_objects ≡ copies a q.available_objects + (if o == a then 1 else 0)
unfolding acquire
copies-acquire a o p q h =
    let (rest, e, e') = with_rest-eq-some p (take_back p.available_objects) o q h in
    copies-take_back a o p.available_objects q.available_objects
      (e ∙ ap (λ r. some (o, r)) (sym e'))

copies-without :
    (a o : ℕ) (xs : List ℕ)
    → 0 < copies o xs
    → copies a xs ≡ copies a (without o xs) + (if o == a then 1 else 0)
copies-without a o [] h = absurd (omega arith)
copies-without a o (x ∷ xs) h = elim (Bool-cases (x == o)) [
  | inl same ↦ rw same (ap (λ y. copies a xs + (if y == a then 1 else 0)) ((==_iff x o).0 same))
  | inr other ↦
      let rest : copies a xs ≡ copies a (without o xs) + (if o == a then 1 else 0) =
        let more : 1 ≤ copies o xs + 0 = rw other at h in
        copies-without a o xs (omega (arith, more)) in
      rw other (omega (arith, rest))
]

pub update_at {ℓ} : {A : Type ℓ} (f : ℕ → A) (i : ℕ) (p : A) → update f i p i ≡ p
update_at f i p = rw (==_refl i)

pub update_other {ℓ} : {A : Type ℓ} (f : ℕ → A) (i j : ℕ) (p : A) → j ≢ i → update f i p j ≡ f j
update_other f i j p ne = elim (Bool-cases (i == j)) [
  | inl same ↦ absurd (ne (sym ((==_iff i j).0 same)))
  | inr other ↦ rw other
]

module _ {n : ℕ} (a : ℕ) (s : System) (i : ℕ) (lt : i < n) where
  -- A change of what thread `i` has.
  held-update :
      (xs : List ℕ)
      → sum_from (λ j. copies a (update s.held i xs j)) 0 n + copies a (s.held i)
        ≡ sum_from (λ j. copies a (s.held j)) 0 n + copies a xs
  held-update xs = rw (ap (copies a) (update_at s.held i xs)) at (
      sum_from-update (λ j. copies a (update s.held i xs j)) (λ j. copies a (s.held j)) 0 n i
        (omega arith) (omega arith) (λ j ne. ap (copies a) (update_other s.held i j xs ne)))

  owned-enter :
      (r : Option (ℕ × Pool ℕ)) → acquire s.pool ≡ r → owned n a (enter s i r) ≡ owned n a s
  owned-enter none h = refl
  owned-enter (some (o, q)) h =
      omega (arith, held-update (o ∷ s.held i), copies-acquire a o s.pool q h)

  owned-give_back : (o : ℕ) → 0 < copies o (s.held i) → owned n a (give_back s i o) ≡ owned n a s
  unfolding give_back
  owned-give_back o h =
      omega (arith, held-update (without o (s.held i)), copies-without a o (s.held i) h)

-- A step loses no object and makes none up.
Step-owned : {n : ℕ} (a : ℕ) {s t : System} → Step n s t → owned n a t ≡ owned n a s
unfolding try_acquire
Step-owned a {s} (acquires i lt h) = owned-enter a s i lt (acquire s.pool) refl
Step-owned a {s} (retries i lt h) = owned-enter a s i lt (acquire s.pool) refl
Step-owned a {s} (releases i k o lt lt' h has) = owned-give_back a s k lt' o has
Step-owned a {s} (wakes_spuriously i lt h) = refl

-- In every state that the threads can reach, each object is free in the pool or held by a thread
-- exactly as often as the factory made it. A thread may have several objects, and may return one
-- that another thread acquired; a client is taken to return only what `acquire` returned, and
-- once.
pub Reach-owned :
    {n size : ℕ} {factory : ℕ → ℕ} {s : System} (a : ℕ)
    → Reach n size factory s
    → owned n a s ≡ copies a (init size factory).available_objects
Reach-owned {n} {size} {factory} a started =
    omega (arith, sum_from_zero (λ i. 0) 0 n (λ j lo hi. refl))
Reach-owned a (later r st) = Step-owned a st ∙ Reach-owned a r

-- If the factory makes no pointer twice, then in every state that the threads can reach, in any
-- interleaving, no two threads hold the same object of the pool. A thread may have several
-- objects, and may return one that another thread acquired; a client is taken to return only what
-- `acquire` returned, and once.
pub Reach-exclusive :
    {n size : ℕ} {factory : ℕ → ℕ} {s : System}
    → ((a : ℕ) → copies a (init size factory).available_objects ≤ 1)
    → Reach n size factory s
    → (i j o : ℕ) → i < n
    → j < n
    → 0 < copies o (s.held i)
    → 0 < copies o (s.held j)
    → i ≡ j
Reach-exclusive {n} {s} distinct r i j o lt_i lt_j p q = elim (ℕ_discrete i j) [
  | yes e ↦ e
  | no ne ↦ absurd (
      omega (
        arith,
        distinct o,
        Reach-owned o r,
        held-update o s i lt_i [],
        sum_from-ge (λ k. copies o (update s.held i [] k)) 0 n j (omega arith) (omega arith),
        ap (copies o) (update_other s.held i j [] (λ e. ne (sym e))),
        p,
        q,
      ))
]
