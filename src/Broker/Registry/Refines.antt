-- ===== src/Broker/Registry/Refines.antt =====
-- Operations on a registry that do to one id what a function does to the object behind it, and
-- nothing to the others.
use capy_amqp_cpp.Broker.Registry.Others.{
  different, other_object, behind-update, alter-IsSound, without, without-IsSound, lookup-without,
}
use capy_amqp_cpp.Broker.Registry.Reachable.{
  AllReached, altered-AllReached, absent-AllReached, without-AllReached,
}
use capy_amqp_cpp.Prelude.{
  ℕ, ◌≡◌, ◌≢◌, refl, ap, ap₂, ◌∙◌, Option, none, some, List, [], ◌++◌, map, ==_refl, Text, update,
  text_key, =?=_refl, inl, inr, Option-cases,
}
use capy_amqp_cpp.Deferred.{destroy}
use capy_amqp_cpp.Cache.View.{view}
use capy_amqp_cpp.Cache.Idle.{get-idle}
use capy_amqp_cpp.Broker.Registry.{
  Registry, Object, Effect, call, add_effects, and_then, at_id, if_has, forget,
}
use capy_amqp_cpp.Broker.Registry.Laws.{lookup, lookup-some, IsSound, if_has-open, if_has-closed}
use capy_amqp_cpp.Cache.Permanent.{live-permanent}

module _ {ℓ} {D : Type ℓ} where
  -- What happens to one object: nothing if there is none.
  abbrev pub alter :
      (Object → Object × List (Effect D)) → Option Object → Option Object × List (Effect D)
  alter f none = (none, [])
  alter f (some o) = let (o', es) = f o in (some o', es)

  abbrev pub finish : Option Object → Option Object × List (Effect D)
  finish none = (none, [])
  finish (some o) = (none, map call (destroy o.deferred))

  abbrev pub followed_by :
      (Option Object → Option Object × List (Effect D))
      → (Option Object → Option Object × List (Effect D))
      → Option Object
      → Option Object × List (Effect D)
  followed_by g g' o = let (o', es) = g o in let (o'', es') = g' o' in (o'', es ++ es')

module _ {ℓ} {D : Type ℓ} (hash : Text → ℕ) (id : Text) where
  -- The operation runs, and at `id` it is `g`.
  pub record Meets (g : Option Object → Option Object × List (Effect D)) (r : Registry)
      (x : Option (Registry × List (Effect D))) : Type ℓ where
    pub after : Registry
    pub effects : List (Effect D)
    pub runs : x ≡ some (after, effects)
    pub sound : IsSound hash after
    pub reached : AllReached hash r → AllReached hash after
    pub here : lookup hash after id ≡ (g (lookup hash r id)).0
    pub made : effects ≡ (g (lookup hash r id)).1
    pub elsewhere : (k : Text) → id ≢ k → lookup hash after k ≡ lookup hash r k

  pub if_has-Meets :
      (now : ℕ) (f : Registry → Option (Registry × List (Effect D)))
      (g : Option Object → Option Object × List (Effect D)) (r : Registry)
      → IsSound hash r
      → g none ≡ (none, [])
      → ((o : Object) → lookup hash r id ≡ some o → Meets g r (f r))
      → Meets g r (if_has hash now id f r)
  if_has-Meets now f g r w z h = elim (Option-cases (lookup hash r id)) [
    | inl e ↦ record {
      after = r;
      effects = [];
      runs = if_has-closed hash now id f r w e;
      sound = w;
      reached = λ x. x;
      here = rw (e, z);
      made = rw (e, z);
      elsewhere = λ k ne. refl;
    }
    | inr (o, e) ↦
        let m = h o e in
        record {
          after = m.after;
          effects = m.effects;
          runs = if_has-open hash now id f r o w e ∙ m.runs;
          sound = m.sound;
          reached = m.reached;
          here = m.here;
          made = m.made;
          elsewhere = m.elsewhere;
        }
  ]

  pub and_then-Meets :
      (x : Option (Registry × List (Effect D))) (f : Registry → Option (Registry × List (Effect D)))
      (g g' : Option Object → Option Object × List (Effect D)) (r : Registry)
      → Meets g r x
      → ((r' : Registry) → IsSound hash r' → Meets g' r' (f r'))
      → Meets (followed_by g g') r (and_then x f)
  and_then-Meets x f g g' r m h =
      let n = h m.after m.sound in
      record {
        after = n.after;
        effects = m.effects ++ n.effects;
        runs = rw m.runs (ap (add_effects m.effects) n.runs);
        sound = n.sound;
        reached = λ x. n.reached (m.reached x);
        here = n.here ∙ ap (λ o. (g' o).0) m.here;
        made = ap₂ ◌++◌ m.made (n.made ∙ ap (λ o. (g' o).1) m.here);
        elsewhere = λ k ne. n.elsewhere k ne ∙ m.elsewhere k ne;
      }

  pub nothing-Meets : (r : Registry) → IsSound hash r → Meets (λ o. (o, [])) r (some (r, []))
  nothing-Meets r w = record {
    after = r;
    effects = [];
    runs = refl;
    sound = w;
    reached = λ x. x;
    here = refl;
    made = refl;
    elsewhere = λ k ne. refl;
  }

  pub at_id-Meets :
      (now : ℕ) (f : Object → Object × List (Effect D)) (r : Registry) (o : Object)
      → IsSound hash r
      → lookup hash r id ≡ some o
      → Meets (alter f) r (at_id hash now id f r)
  unfolding at_id
  at_id-Meets now f r o w h =
      let (i, e, q) = lookup-some hash r id o h in
      record {
        after = record r { objects = update r.objects i.payload (some (f o).0) };
        effects = (f o).1;
        runs =
            rw
              (
                get-idle hash now id r.ids
                    (live-permanent now (view hash r.ids id) (w.permanent id)),
                e,
                q,
              )
              refl;
        sound = alter-IsSound hash id r i (f o).0 w e;
        reached = λ x. altered-AllReached hash id r x i (f o).0 e;
        here = rw (e, ==_refl i.payload, q) refl;
        made = rw h refl;
        elsewhere = λ k ne. behind-update hash id r k i (some (f o).0) w e ne;
      }

  pub forget-Meets :
      (now : ℕ) (r : Registry) → IsSound hash r → Meets finish r (some (forget hash now id r))
  unfolding forget
  forget-Meets now r w = elim (Option-cases (view hash r.ids id)) [
    | inl e ↦ record {
      after = without hash id r.objects r;
      effects = [];
      runs = rw e refl;
      sound = without-IsSound hash id r.objects r w (λ k j ne h. refl);
      reached = λ x. absent-AllReached hash id r x e;
      here = lookup-without hash id r.objects r id ∙ rw (=?=_refl id, e) refl;
      made = rw e refl;
      elsewhere = λ k ne. lookup-without hash id r.objects r k ∙ rw (different id k ne) refl;
    }
    | inr (i, e) ↦
        let (o, q) = w.alive id i e in
        record {
          after = without hash id (update r.objects i.payload none) r;
          effects = map call (destroy o.deferred);
          runs = rw (e, q) refl;
          sound =
              without-IsSound hash id (update r.objects i.payload none) r w
                (λ k j ne h. rw (other_object hash id r k i j w e h ne) refl);
          reached = λ x. without-AllReached hash id r x i e;
          here =
              lookup-without hash id (update r.objects i.payload none) r id
              ∙ rw (=?=_refl id, e, q) refl;
          made = rw (e, q) refl;
          elsewhere = λ k ne.
              lookup-without hash id (update r.objects i.payload none) r k
              ∙ rw (different id k ne) (behind-update hash id r k i none w e ne);
        }
  ]
