-- ===== src/Connections/Paired.antt =====
-- Threads and their connections in `ConnectionCache` of src/broker_impl/broker.h.
use capy_amqp_cpp.Prelude.{
  ℕ, suc, ◌<◌, ◌≤◌, ◌≡◌, ◌⊎◌, refl, sym, ap, ◌∙◌, true, false, Option, none, some, ◌==◌, ==_iff,
  if◌then◌else◌, is_some, Key, ◌=?=◌, =?=_refl, =?=_iff, arith, inl, inr, Bool-cases, Option-cases,
}
use capy_amqp_cpp.Cache.Shards.{CacheItem, write_always, expired}
use capy_amqp_cpp.Cache.Shards.Laws.{live}
use capy_amqp_cpp.Cache.{set, get, has}
use capy_amqp_cpp.Cache.View.{view, view-set, get_result, has_result}
use capy_amqp_cpp.Cache.Permanent.{
  kept, live-kept, view-has_kept, view-get_kept, view-get-has, kept_or, live-permanent,
}
use capy_amqp_cpp.Connections.{ConnectionCache, new_channel, get_connection, make_connection}

pub last : (n m : ℕ) → n < suc m → (n < m) ⊎ (m ≡ n)
last n m h = elim (Bool-cases (m == n)) [
  | inl q ↦ inr ((==_iff m n).0 q)
  | inr q ↦ inl (ground arith)
]

module _ {ℓ} {K : Type ℓ} ⦃e : Key K⦄ (hash : K → ℕ) where
  abbrev pub item_of : ConnectionCache K → K → Option (CacheItem ℕ)
  item_of c id = view hash c.connections id

  -- Every thread's connection is there for good, was created, and is no other thread's; and every
  -- connection that was created is some thread's.
  pub record IsPaired (c : ConnectionCache K) : Type ℓ where
    pub permanent : (id : K) (i : CacheItem ℕ) → item_of c id ≡ some i → i.expiration ≡ 0
    pub known : (id : K) (i : CacheItem ℕ) → item_of c id ≡ some i → i.payload < c.created
    pub apart :
        (id id' : K) (i i' : CacheItem ℕ)
        → item_of c id ≡ some i
        → item_of c id' ≡ some i'
        → i.payload ≡ i'.payload
        → id ≡ id'
    pub complete :
        (n : ℕ)
        → n < c.created
        → (id : K) × (i : CacheItem ℕ) × (item_of c id ≡ some i) × (i.payload ≡ n)

  -- The number of the connection that a thread has, or would be given.
  abbrev number_or : ℕ → Option (CacheItem ℕ) → ℕ
  number_or n none = n
  number_or n (some i) = i.payload

  abbrev pub own : ConnectionCache K → K → ℕ
  own c id = number_or c.created (item_of c id)

  module _ (now : ℕ) (id : K) (c : ConnectionCache K) (w : IsPaired c) where
    live_own : live now (item_of c id) ≡ item_of c id
    live_own = live-permanent now (item_of c id) (w.permanent id)

    pub found : (has hash now id c.connections).1 ≡ is_some (item_of c id)
    found = has_result hash now id c.connections ∙ ap is_some live_own

    pub new_channel_result : (new_channel hash now id c).1 ≡ some (own c id)
    unfolding new_channel make_connection
    new_channel_result = elim (Option-cases (item_of c id)) [
      | inl e ↦ let f : (has hash now id c.connections).1 ≡ false = rw e at found in rw (f, e)
      | inr (i, e) ↦
          let f : (has hash now id c.connections).1 ≡ true = rw e at found in
          rw (f, get_result, view-has_kept hash now id id c.connections live_own, live_own, e)
    ]

    pub item_of-new_channel :
        (j : K)
        → item_of (new_channel hash now id c).0 j
          ≡ (if id =?= j then some (kept (own c id)) else item_of c j)
    unfolding new_channel make_connection
    item_of-new_channel j = elim (Option-cases (item_of c id)) [
      | inl e ↦
          let f : (has hash now id c.connections).1 ≡ false = rw e at found in
          rw (f, e)
            (view-set hash id j c.created 0 write_always _
              ∙ ap (λ o. if id =?= j then some (kept c.created) else o)
                  (view-has_kept hash now id j c.connections live_own))
      | inr (i, e) ↦
          let f : (has hash now id c.connections).1 ≡ true = rw e at found in
          rw (f, e)
            (view-get-has hash now id j c.connections live_own
              ∙ kept_or hash id j i (item_of c) e (w.permanent id i e))
    ]

    put_then_get :
        (j : K)
        → view hash
            (get hash now id
              (set hash id c.created 0 write_always (has hash now id c.connections).0).0).0
            j
          ≡ (if id =?= j then some (kept c.created) else item_of c j)
    put_then_get j =
        let put : (k : K)
            → view hash (set hash id c.created 0 write_always (has hash now id c.connections).0).0 k
              ≡ (if id =?= k then some (kept c.created) else item_of c k) =
          λ k.
            view-set hash id k c.created 0 write_always _
            ∙ ap (λ o. if id =?= k then some (kept c.created) else o)
                (view-has_kept hash now id k c.connections live_own) in
        view-get_kept hash now id j _ (rw (put id, =?=_refl id) (live-kept now c.created)) ∙ put j

    pub own_apart : (k : K) (i : CacheItem ℕ) → item_of c k ≡ some i → own c id ≡ i.payload → id ≡ k
    own_apart k i h p = elim (Option-cases (item_of c id)) [
      | inl e ↦
          let q : c.created ≡ i.payload = rw e at p in absurd (omega (arith, w.known k i h, q))
      | inr (i', e) ↦ w.apart id k i' i e h (rw e at p)
    ]

    -- An item that is there after the operation is the thread's own, or was there before.
    entry_cases :
        (o : Option (CacheItem ℕ)) (k : K) (i : CacheItem ℕ)
        → o ≡ (if id =?= k then some (kept (own c id)) else item_of c k)
        → o ≡ some i
        → ((id ≡ k) × (kept (own c id) ≡ i)) ⊎ (item_of c k ≡ some i)
    entry_cases o k i h p =
        let g : (if id =?= k then some (kept (own c id)) else item_of c k) ≡ some i = sym h ∙ p in
        elim (Bool-cases (id =?= k)) [
          | inl q ↦
              let r : some (kept (own c id)) ≡ some i = rw q at g in inl ((=?=_iff id k).0 q, cc)
          | inr q ↦ inr (rw q at g)
        ]

    -- What an operation does to the map is enough for the invariant.
    pub preserved :
        (c' : ConnectionCache K)
        → ((j : K) → item_of c' j ≡ (if id =?= j then some (kept (own c id)) else item_of c j))
        → own c id < c'.created
        → c.created ≤ c'.created
        → ((n : ℕ) → n < c'.created → (n < c.created) ⊎ (own c id ≡ n))
        → IsPaired c'
    preserved c' h fits more all = record {
      complete = λ n lt. elim (all n lt) [
        | inl old ↦
            let (k, i, e, p) = w.complete n old in
            elim (Bool-cases (id =?= k)) [
              | inl q ↦
                  let same : item_of c id ≡ some i = ap (item_of c) ((=?=_iff id k).0 q) ∙ e in
                  (k, kept (own c id), h k ∙ rw q refl, rw same p)
              | inr q ↦ (k, i, h k ∙ rw q e, p)
            ]
        | inr new ↦ (id, kept (own c id), h id ∙ rw (=?=_refl id) refl, new)
      ];
      permanent = λ k i p. elim (entry_cases (item_of c' k) k i (h k) p) [
        | inl (q, r) ↦ sym (ap (λ x. x.expiration) r)
        | inr r ↦ w.permanent k i r
      ];
      known = λ k i p. elim (entry_cases (item_of c' k) k i (h k) p) [
        | inl (q, r) ↦ omega (arith, fits, ap (λ x. x.payload) r)
        | inr r ↦ omega (arith, more, w.known k i r)
      ];
      apart = λ k k' i i' p p' same. elim (entry_cases (item_of c' k) k i (h k) p) [
        | inl (q, r) ↦ elim (entry_cases (item_of c' k') k' i' (h k') p') [
          | inl (q', r') ↦ sym q ∙ q'
          | inr r' ↦ sym q ∙ own_apart k' i' r' (ap (λ x. x.payload) r ∙ same)
        ]
        | inr r ↦ elim (entry_cases (item_of c' k') k' i' (h k') p') [
          | inl (q', r') ↦ sym (own_apart k i r (ap (λ x. x.payload) r' ∙ sym same)) ∙ q'
          | inr r' ↦ w.apart k k' i i' r r' same
        ]
      ];
    }

    own-lt : own c id < suc c.created
    own-lt = elim (Option-cases (item_of c id)) [
      | inl e ↦ rw e (omega arith)
      | inr (i, e) ↦ rw e (omega (arith, w.known id i e))
    ]

    created-new_channel :
        (own c id < (new_channel hash now id c).0.created)
        × (c.created ≤ (new_channel hash now id c).0.created)
        × ((n : ℕ) → n < (new_channel hash now id c).0.created → (n < c.created) ⊎ (own c id ≡ n))
    unfolding new_channel make_connection
    created-new_channel = elim (Option-cases (item_of c id)) [
      | inl e ↦
          let f : (has hash now id c.connections).1 ≡ false = rw e at found in
          rw (f, e) (omega arith, omega arith, λ n lt. last n c.created lt)
      | inr (i, e) ↦
          let f : (has hash now id c.connections).1 ≡ true = rw e at found in
          rw (f, e) (w.known id i e, omega arith, λ n lt. inl lt)
    ]

    -- `new_channel` keeps the invariant of the connections: each thread that has a connection has
    -- it for good, it was created, and no other thread has it; and every connection that was
    -- created is the connection of a thread.
    pub new_channel-IsPaired : IsPaired (new_channel hash now id c).0
    new_channel-IsPaired =
        preserved (new_channel hash now id c).0 item_of-new_channel created-new_channel.0
          created-new_channel.1 created-new_channel.2

    -- The two ways to a connection find the same one.
    pub get_connection_result : (get_connection hash now id c).1 ≡ some (own c id)
    unfolding get_connection make_connection expired
    get_connection_result = elim (Option-cases (item_of c id)) [
      | inl e ↦
          let f : (has hash now id c.connections).1 ≡ false = rw e at found in
          rw (f, get_result, view-set, =?=_refl, e) refl
      | inr (i, e) ↦
          let f : (has hash now id c.connections).1 ≡ true = rw e at found in
          rw (f, get_result, view-has_kept hash now id id c.connections live_own, live_own, e)
    ]

    pub item_of-get_connection :
        (j : K)
        → item_of (get_connection hash now id c).0 j
          ≡ (if id =?= j then some (kept (own c id)) else item_of c j)
    unfolding get_connection make_connection
    item_of-get_connection j = elim (Option-cases (item_of c id)) [
      | inl e ↦
          let f : (has hash now id c.connections).1 ≡ false = rw e at found in
          rw (f, e) (put_then_get j)
      | inr (i, e) ↦
          let f : (has hash now id c.connections).1 ≡ true = rw e at found in
          rw (f, e)
            (view-get-has hash now id j c.connections live_own
              ∙ kept_or hash id j i (item_of c) e (w.permanent id i e))
    ]

    pub objects-get_connection :
        (n : ℕ) → n < c.created → (get_connection hash now id c).0.objects n ≡ c.objects n
    unfolding get_connection make_connection
    objects-get_connection n h = elim (Bool-cases (has hash now id c.connections).1) [
      | inl f ↦ rw f refl
      | inr f ↦ let ne : (c.created == n) ≡ false = ground arith in rw (f, ne)
    ]

    -- In paired connections, `new_channel` and `get_connection` find the same connection for a
    -- thread, old or new, and leave the same connections to all threads.
    pub new_channel-get_connection :
        ((new_channel hash now id c).1 ≡ (get_connection hash now id c).1)
        × ((k : K)
            → item_of (new_channel hash now id c).0 k ≡ item_of (get_connection hash now id c).0 k)
    new_channel-get_connection = (
      new_channel_result ∙ sym get_connection_result,
      λ k. item_of-new_channel k ∙ sym (item_of-get_connection k),
    )
