-- ===== src/Broker/Teardown/Released.antt =====
-- Pointers that go one after another in the destructor of `BrokerImpl` (src/broker_impl/broker.cc).
use capy_amqp_cpp.Prelude.{
  ℕ, ◌≡◌, ◌⊎◌, refl, sym, ap, ◌∙◌, subst, ◌||◌, Option, none, some, List, [], ◌∷◌, ◌++◌, map, ◌==◌,
  ==_iff, append_assoc, append-nil, text_key, update, inl, inr, Bool-cases,
}
use capy_amqp_cpp.Deferred.{destroy}
use capy_amqp_cpp.Broker.Registry.{Registry, Object, Effect, call, release_object}
use capy_amqp_cpp.Broker.Listen.Owners.{
  Listening, drop_pointer, destroy_object, is_registered, is_held,
}
use capy_amqp_cpp.Broker.Teardown.{
  drop_pointers, release_connection, release_connections, release_objects,
}

-- `xs` is done somewhere in `ys`.
abbrev pub Part {ℓ} : {A : Type ℓ} → List A → List A → Type ℓ
Part {A} xs ys = (before : List A) × (after : List A) × (ys ≡ before ++ (xs ++ after))

module _ {ℓ} {A : Type ℓ} where
  pub Part-append_left : (xs ys zs : List A) → Part xs ys → Part xs (ys ++ zs)
  Part-append_left xs ys zs (b, a, h) =
      (b, a ++ zs, rw h (append_assoc b (xs ++ a) zs ∙ ap (λ t. b ++ t) (append_assoc xs a zs)))

  pub Part-append_right : (xs ys zs : List A) → Part xs zs → Part xs (ys ++ zs)
  Part-append_right xs ys zs (b, a, h) = (ys ++ b, a, rw h (sym (append_assoc ys b (xs ++ a))))

  pub Part-all : (xs : List A) → Part xs xs
  Part-all xs = ([], [], sym (append-nil xs))

module _ {D : Type 0} where
  -- An object stays as it is, or its destructor is run.
  abbrev pub Destroys : (ℕ → Option Object) → (ℕ → Option Object) → List (Effect D) → Type 0
  Destroys objects objects' es =
      (n : ℕ) (o : Object)
      → objects n ≡ some o
      → (objects' n ≡ some o) ⊎ Part (map call (destroy o.deferred)) es

  pub append-Destroys :
      (f g h : ℕ → Option Object) (es es' : List (Effect D))
      → Destroys f g es
      → Destroys g h es'
      → Destroys f h (es ++ es')
  append-Destroys f g h es es' p q n o e = elim (p n o e) [
    | inl a ↦ elim (q n o a) [ inl b ↦ inl b | inr b ↦ inr (Part-append_right _ es es' b) ]
    | inr a ↦ inr (Part-append_left _ es es' a)
  ]

  pub gone-Destroys :
      (objects : ℕ → Option Object) (n : ℕ) (x : Object)
      → objects n ≡ some x
      → Destroys objects (update objects n none) (map call (destroy x.deferred))
  gone-Destroys objects n x h m o e = elim (Bool-cases (n == m)) [
    | inl q ↦
        let same : some x ≡ some o = sym h ∙ ap objects ((==_iff n m).0 q) ∙ e in
        let same' : x ≡ o = cc in
        inr (
          subst
            (λ y.
              Part {A = Effect D} (map call (destroy y.deferred)) (map call (destroy x.deferred)))
            same' (Part-all _))
    | inr q ↦ inl (rw q e)
  ]

  module _ {ℓ} {K : Type ℓ} where
    destroy_object-Destroys :
        (n : ℕ) (x : Option Object) (s : Listening K)
        → s.listeners.objects n ≡ x
        → Destroys s.listeners.objects
            (destroy_object {D = D} n x s).0.listeners.objects
            (destroy_object {D = D} n x s).1
    destroy_object-Destroys n none s h = λ m o e. inl e
    destroy_object-Destroys n (some x) s h = gone-Destroys s.listeners.objects n x h

    pub drop_pointer-Destroys :
        (p : Option ℕ) (s : Listening K)
        → Destroys s.listeners.objects
            (drop_pointer {D = D} p s).0.listeners.objects
            (drop_pointer {D = D} p s).1
    drop_pointer-Destroys none s = λ n o e. inl e
    drop_pointer-Destroys (some m) s =
        elim (Bool-cases (is_registered m s.listeners.ids || is_held m s.connections)) [
          | inl q ↦ rw q (λ n o e. inl e)
          | inr q ↦ rw q (destroy_object-Destroys m (s.listeners.objects m) s refl)
        ]

    pub release_connections-Destroys :
        (ns : List ℕ) (s : Listening K)
        → Destroys s.listeners.objects
            (release_connections {D = D} ns s).0.listeners.objects
            (release_connections {D = D} ns s).1
    unfolding release_connections release_connection
    release_connections-Destroys [] s = λ n o e. inl e
    release_connections-Destroys (n ∷ ns) s =
        append-Destroys s.listeners.objects (release_connection {D = D} n s).0.listeners.objects _
          (release_connection {D = D} n s).1 _
          (drop_pointer-Destroys (s.connections.objects n).deferred _)
          (release_connections-Destroys ns (release_connection {D = D} n s).0)

    pub drop_pointers-Destroys :
        (ns : List ℕ) (s : Listening K)
        → Destroys s.listeners.objects
            (drop_pointers {D = D} ns s).0.listeners.objects
            (drop_pointers {D = D} ns s).1
    unfolding drop_pointers
    drop_pointers-Destroys [] s = λ n o e. inl e
    drop_pointers-Destroys (n ∷ ns) s =
        append-Destroys s.listeners.objects (drop_pointer {D = D} (some n) s).0.listeners.objects _
          (drop_pointer {D = D} (some n) s).1 _ (drop_pointer-Destroys (some n) s)
          (drop_pointers-Destroys ns (drop_pointer {D = D} (some n) s).0)

  release_object-Destroys :
      (n : ℕ) (x : Option Object) (r : Registry)
      → r.objects n ≡ x
      → Destroys r.objects (release_object {D = D} n x r).0.objects (release_object {D = D} n x r).1
  release_object-Destroys n none r h = λ m o e. inl e
  release_object-Destroys n (some x) r h = gone-Destroys r.objects n x h

  pub release_objects-Destroys :
      (ns : List ℕ) (r : Registry)
      → Destroys r.objects (release_objects {D = D} ns r).0.objects (release_objects {D = D} ns r).1
  unfolding release_objects
  release_objects-Destroys [] r = λ n o e. inl e
  release_objects-Destroys (n ∷ ns) r =
      let r' = (release_object {D = D} n (r.objects n) r).0 in
      append-Destroys r.objects r'.objects _ (release_object {D = D} n (r.objects n) r).1 _
        (release_object-Destroys n (r.objects n) r refl) (release_objects-Destroys ns r')
