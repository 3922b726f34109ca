-- ===== src/Broker/Numbered.antt =====
-- The ids of `create_unique_id` (src/broker_impl/broker.cc) in the maps of the broker.
use capy_amqp_cpp.Prelude.{
  ℕ, suc, ◌<◌, ◌≤◌, ◌≡◌, sym, none, some, Text, text_key, arith, inl, inr, Option-cases,
}
use capy_amqp_cpp.Cache.Shards.{CacheItem}
use capy_amqp_cpp.Cache.View.{view}
use capy_amqp_cpp.Broker.Ids.{print, print-injective}
use capy_amqp_cpp.Broker.Registry.{Registry, Object}
use capy_amqp_cpp.Broker.Registry.Laws.{lookup, lookup-some, IsSound}
use capy_amqp_cpp.Broker.Registry.Adding.{added, entry_cases}

-- The ids in use are those that the counter gave out.
abbrev pub IsNumbered : (Text → ℕ) → ℕ → Registry → Type 0
IsNumbered hash counter r =
    (id : Text) (i : CacheItem ℕ)
    → view hash r.ids id ≡ some i
    → (m : ℕ) × (m < counter) × (id ≡ print m)

pub numbered_fresh :
    (hash : Text → ℕ) (counter : ℕ) (r : Registry)
    → IsNumbered hash counter r
    → view hash r.ids (print counter) ≡ none
numbered_fresh hash counter r num = elim (Option-cases (view hash r.ids (print counter))) [
  | inl e ↦ e
  | inr (i, e) ↦
      let (m, lt, p) = num (print counter) i e in
      absurd (omega (arith, lt, print-injective counter m p))
]

module _ (hash : Text → ℕ) where
  -- The next id makes the next counter.
  pub added-IsNumbered :
      (counter : ℕ) (o : Object) (r : Registry)
      → IsNumbered hash counter r
      → IsNumbered hash (suc counter) (added hash (print counter) o r)
  added-IsNumbered counter o r num k i h = elim (entry_cases hash (print counter) o r k i h) [
    | inl (p, q) ↦ (counter, omega arith, sym p)
    | inr (ne, q) ↦ let (m, lt, p) = num k i q in (m, omega arith, p)
  ]

  pub later-IsNumbered :
      (m n : ℕ) (r : Registry) → m ≤ n → IsNumbered hash m r → IsNumbered hash n r
  later-IsNumbered m n r le num k i h = let (j, lt, p) = num k i h in (j, omega arith, p)

  -- The ids of the first registry are ids of the second.
  abbrev pub Within : Registry → Registry → Type 0
  Within r' r =
      (k : Text) (o : Object)
      → lookup hash r' k ≡ some o
      → (o' : Object) × (lookup hash r k ≡ some o')

  pub lookup-view :
      (r : Registry) (k : Text) (i : CacheItem ℕ)
      → IsSound hash r
      → view hash r.ids k ≡ some i
      → (o : Object) × (lookup hash r k ≡ some o)
  lookup-view r k i w h = let (o, q) = w.alive k i h in (o, rw h q)

  -- A registry of the same ids, or fewer.
  pub Within-view :
      (r' r : Registry)
      → IsSound hash r
      → ((k : Text) (i : CacheItem ℕ) → view hash r'.ids k ≡ some i → view hash r.ids k ≡ some i)
      → Within r' r
  Within-view r' r w h k o q =
      let (i, a, b) = lookup-some hash r' k o q in lookup-view r k i w (h k i a)

  pub Within-IsNumbered :
      (counter : ℕ) (r' r : Registry)
      → IsSound hash r'
      → Within r' r
      → IsNumbered hash counter r
      → IsNumbered hash counter r'
  Within-IsNumbered counter r' r w h num k i a =
      let (o, b) = lookup-view r' k i w a in
      let (o', c) = h k o b in let (i', d, q) = lookup-some hash r k o' c in num k i' d
