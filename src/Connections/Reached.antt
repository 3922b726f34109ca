-- ===== src/Connections/Reached.antt =====
-- Which deferred objects the connections of src/broker_impl/broker.h point to, and the operations that
-- find, open and assign a connection.
use capy_amqp_cpp.Prelude.{
  ℕ, ◌<◌, ◌≤◌, ◌≡◌, ◌⊎◌, sym, ap, ◌∙◌, subst, ==_iff, true, false, Option, none, some, ◌==◌, Key,
  arith, inl, inr, Bool-cases, Option-cases,
}
use capy_amqp_cpp.Cache.{has}
use capy_amqp_cpp.Connections.{ConnectionCache, new_channel, get_connection, make_connection}
use capy_amqp_cpp.Connections.Paired.{
  IsPaired, item_of, own, last, found, preserved, item_of-get_connection, objects-get_connection,
}
use capy_amqp_cpp.Connections.Lost.{assigned}

-- The connection `k` was opened, and its deferred object is `n`.
abbrev pub PointsTo {ℓ} : {K : Type ℓ} → ConnectionCache K → ℕ → ℕ → Type 0
PointsTo c k n = (k < c.created) × ((c.objects k).deferred ≡ some n)

module _ {ℓ} {K : Type ℓ} where
  PointsTo-make_connection :
      (c : ConnectionCache K) (k n : ℕ) → PointsTo (make_connection c).0 k n → PointsTo c k n
  unfolding make_connection
  PointsTo-make_connection c k n (lt, h) = elim (Bool-cases (c.created == k)) [
    | inl e ↦ let bad : none ≡ some n = rw e at h in absurd (cc)
    | inr e ↦ (ground arith, rw e at h)
  ]

  -- What an assignment leaves.
  pub PointsTo-assigned :
      (d : Option ℕ) (i : ℕ) (c : ConnectionCache K) (k n : ℕ)
      → PointsTo (assigned d i c) k n
      → (d ≡ some n) ⊎ PointsTo c k n
  PointsTo-assigned d i c k n (lt, h) = elim (Bool-cases (i == k)) [
    | inl e ↦ inl (rw e at h)
    | inr e ↦ inr (lt, rw e at h)
  ]

  -- What an assignment takes away: the object that the connection pointed to.
  pub assigned_or :
      (d : Option ℕ) (i : ℕ) (c : ConnectionCache K) (k n : ℕ)
      → PointsTo c k n
      → ((c.objects i).deferred ≡ some n) ⊎ PointsTo (assigned d i c) k n
  assigned_or d i c k n (lt, h) = elim (Bool-cases (i == k)) [
    | inl e ↦ inl (subst (λ x. (c.objects x).deferred ≡ some n) (sym ((==_iff i k).0 e)) h)
    | inr e ↦ inr (lt, rw e h)
  ]

module _ {ℓ} {K : Type ℓ} ⦃e : Key K⦄ (hash : K → ℕ) where
  pub assigned-IsPaired :
      (d : Option ℕ) (i : ℕ) (c : ConnectionCache K)
      → IsPaired hash c
      → IsPaired hash (assigned d i c)
  assigned-IsPaired d i c w = record {
    permanent = w.permanent;
    known = w.known;
    apart = w.apart;
    complete = w.complete;
  }

  module _ (now : ℕ) (id : K) (c : ConnectionCache K) where
    -- A connection that is opened points to nothing, and the others are left alone.
    pub PointsTo-new_channel :
        (k n : ℕ) → PointsTo (new_channel hash now id c).0 k n → PointsTo c k n
    unfolding new_channel
    PointsTo-new_channel k n h = elim (Bool-cases (has hash now id c.connections).1) [
      | inl f ↦ rw f at h
      | inr f ↦ PointsTo-make_connection c k n (rw f at h)
    ]

    pub PointsTo-get_connection :
        (k n : ℕ) → PointsTo (get_connection hash now id c).0 k n → PointsTo c k n
    unfolding get_connection
    PointsTo-get_connection k n h = elim (Bool-cases (has hash now id c.connections).1) [
      | inl f ↦ rw f at h
      | inr f ↦ PointsTo-make_connection c k n (rw f at h)
    ]

    module _ (w : IsPaired hash c) where
      pub created-get_connection :
          (own hash c id < (get_connection hash now id c).0.created)
          × (c.created ≤ (get_connection hash now id c).0.created)
          × ((n : ℕ)
              → n < (get_connection hash now id c).0.created
              → (n < c.created) ⊎ (own hash c id ≡ n))
      unfolding get_connection make_connection
      created-get_connection = elim (Option-cases (item_of hash c id)) [
        | inl e ↦
            let f : (has hash now id c.connections).1 ≡ false = rw e at (found hash now id c w) in
            rw (f, e) (omega arith, omega arith, λ n lt. last n c.created lt)
        | inr (i, e) ↦
            let f : (has hash now id c.connections).1 ≡ true = rw e at (found hash now id c w) in
            rw (f, e) (w.known id i e, omega arith, λ n lt. inl lt)
      ]

      pub get_connection-IsPaired : IsPaired hash (get_connection hash now id c).0
      get_connection-IsPaired =
          preserved hash now id c w (get_connection hash now id c).0
            (item_of-get_connection hash now id c w) created-get_connection.0
            created-get_connection.1 created-get_connection.2

      pub get_connection-PointsTo :
          (k n : ℕ) → PointsTo c k n → PointsTo (get_connection hash now id c).0 k n
      get_connection-PointsTo k n (lt, h) = (
        omega (arith, lt, created-get_connection.1),
        ap (λ x. x.deferred) (objects-get_connection hash now id c w k lt) ∙ h,
      )

    pub new_channel-PointsTo :
        (k n : ℕ) → PointsTo c k n → PointsTo (new_channel hash now id c).0 k n
    unfolding new_channel make_connection
    new_channel-PointsTo k n (lt, h) = elim (Bool-cases (has hash now id c.connections).1) [
      | inl f ↦ rw f (lt, h)
      | inr f ↦ let ne : (c.created == k) ≡ false = ground arith in rw (f, ne) (omega arith, h)
    ]
