-- ===== src/Broker/Fetch/History.antt =====
-- A history of callbacks of many fetches (src/broker_impl/broker.cc), in any order.
use capy_amqp_cpp.Prelude.{
  ℕ, ◌≡◌, ◌≢◌, refl, subst, ap, ap₂, ◌∙◌, true, Option, none, some, List, [], ◌∷◌, ◌++◌, map,
  if◌then◌else◌, Text, text_key, ◌=?=◌, Bool-cases, inl, inr, =?=_iff,
}
use capy_amqp_cpp.Broker.Json.{Json}
use capy_amqp_cpp.Broker.Registry.{Registry, Object, Effect}
use capy_amqp_cpp.Broker.Registry.Laws.{lookup, IsSound}
use capy_amqp_cpp.Broker.Fetch.{Event, step}
use capy_amqp_cpp.Broker.Fetch.Outcome.{outcome, step-outcome}

-- A callback: when, of which fetch, and what.
pub record Entry {ℓ} (J : Type ℓ) : Type ℓ where
  pub now : ℕ
  pub id : Text
  pub event : Event J

module _ {ℓ} {J : Type ℓ} (json : Json J) (exchange : Text) (hash : Text → ℕ) where
  -- The effects of a history, each with the id of its fetch.
  abbrev tag : Text → List (Effect J) → List (Text × Effect J)
  tag id = map (λ x. (id, x))

  abbrev put_before :
      List (Text × Effect J)
      → Option (Registry × List (Text × Effect J))
      → Option (Registry × List (Text × Effect J))
  put_before es none = none
  put_before es (some (r, es')) = some (r, es ++ es')

  abbrev and_tagged :
      Text
      → Option (Registry × List (Effect J))
      → (Registry → Option (Registry × List (Text × Effect J)))
      → Option (Registry × List (Text × Effect J))
  and_tagged id none rest = none
  and_tagged id (some (r, es)) rest = put_before (tag id es) (rest r)

  unfoldable pub run : List (Entry J) → Registry → Option (Registry × List (Text × Effect J))
  run [] r = some (r, [])
  run (x ∷ xs) r = and_tagged x.id (step json exchange hash x.now x.id x.event r) (run xs)

  -- The effects of one fetch, and what the history does to its object alone.
  abbrev pub of_id : Text → List (Text × Effect J) → List (Effect J)
  of_id id [] = []
  of_id id ((k, x) ∷ es) = let rest = of_id id es in if k =?= id then x ∷ rest else rest

  abbrev pub outcomes : Text → List (Entry J) → Option Object → Option Object × List (Effect J)
  outcomes id [] o = (o, [])
  outcomes id (x ∷ xs) o =
      let (o', es) = outcome json exchange id x.event o in
      let (o'', es') = outcomes id xs o' in
      let skipped = outcomes id xs o in if x.id =?= id then (o'', es ++ es') else skipped

  of_id-tag :
      (id k : Text) (es : List (Effect J)) (rest : List (Text × Effect J))
      → of_id id (tag k es ++ rest) ≡ (if k =?= id then es ++ of_id id rest else of_id id rest)
  of_id-tag id k [] rest = elim (Bool-cases (k =?= id)) [ inl q ↦ rw q refl | inr q ↦ rw q refl ]
  of_id-tag id k (x ∷ es) rest = elim (Bool-cases (k =?= id)) [
    | inl q ↦ rw (q, of_id-tag id k es rest, q) refl
    | inr q ↦ rw (q, of_id-tag id k es rest, q) refl
  ]

  -- Any history of the callbacks of any number of fetches, in any order, runs without a fault from
  -- a registry of fetches that is sound (each id has an object of its own, for good). It leaves a
  -- sound registry, and at each id its effects and the object that is left are those of the
  -- callbacks of that id alone, as `outcome` tells them for one object: fetches do not interfere,
  -- and a callback of a fetch that is over does nothing.
  pub run-outcomes :
      (xs : List (Entry J)) (r : Registry)
      → IsSound hash r
      → (r' : Registry) × (es : List (Text × Effect J)) × (run xs r ≡ some (r', es))
        × IsSound hash r'
        × ((id : Text)
            → (lookup hash r' id ≡ (outcomes id xs (lookup hash r id)).0)
              × (of_id id es ≡ (outcomes id xs (lookup hash r id)).1))
  unfolding run
  run-outcomes [] r w = (r, [], refl, w, λ id. (refl, refl))
  run-outcomes (x ∷ xs) r w =
      let m = step-outcome json exchange hash x.now x.id x.event r w in
      let (r', es, runs, sound, at) = run-outcomes xs m.after m.sound in
      (
        r',
        tag x.id m.effects ++ es,
        rw (m.runs, runs) refl,
        sound,
        λ id. elim (Bool-cases (x.id =?= id)) [
          | inl q ↦
              let here : (lookup hash m.after id
                    ≡ (outcome json exchange id x.event (lookup hash r id)).0)
                  × (m.effects ≡ (outcome json exchange id x.event (lookup hash r id)).1) =
                subst
                  (λ k.
                    (lookup hash m.after k ≡ (outcome json exchange k x.event (lookup hash r k)).0)
                    × (m.effects ≡ (outcome json exchange k x.event (lookup hash r k)).1))
                  ((=?=_iff x.id id).0 q) (m.here, m.made) in
              rw (q, of_id-tag id x.id m.effects es, q)
                (
                  (at id).0 ∙ ap (λ o. (outcomes id xs o).0) here.0,
                  ap₂ ◌++◌ here.1 ((at id).1 ∙ ap (λ o. (outcomes id xs o).1) here.0),
                )
          | inr q ↦
              let ne : x.id ≢ id =
                λ p. let t : (x.id =?= id) ≡ true = (=?=_iff x.id id).1 p in cc in
              rw (q, of_id-tag id x.id m.effects es, q)
                (
                  (at id).0 ∙ ap (λ o. (outcomes id xs o).0) (m.elsewhere id ne),
                  (at id).1 ∙ ap (λ o. (outcomes id xs o).1) (m.elsewhere id ne),
                )
        ],
      )
