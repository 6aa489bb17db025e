-- ===== src/Condition/Targets.antt =====
-- Where `Route` sends an observation.
use ding.Base.{
  ℕ, suc, ◌≡◌, refl, ◌∙◌, ap, String, Bool, true, false, ◌&&◌, ◌||◌, not, List, [], ◌∷◌, ok, str_eq,
  length, arith, All, and_left, not-true,
}
use ding.Base.Ensures.{Ensures, Ensures-if, Ensures-then}
use ding.Watch.{
  Observation, Health, healthy, unknown, unchanged, gap, timer, clock, waiting, is_healthy,
  is_timer, entity_key,
}
use ding.Condition.Model.{Evaluator, Runtime}
use ding.Condition.Evaluate.{matches_all, observed_key}
use ding.Condition.Routing.{
  source_entity, insert_text, sort_strings, is_empty, listed, keyed, unhealthy, route,
}

pub listed-insert_text :
    (k x : String) (xs : List String) → listed k (insert_text x xs) ≡ (str_eq x k || listed k xs)
unfolding listed insert_text
listed-insert_text k x [] = refl
listed-insert_text k x (y ∷ xs) = ground (arith, listed-insert_text k x xs)

length-insert_text : (x : String) (xs : List String) → length (insert_text x xs) ≡ suc (length xs)
unfolding insert_text
length-insert_text x [] = refl
length-insert_text x (y ∷ xs) = ground (arith, length-insert_text x xs)

pub listed-sort_strings : (k : String) (xs : List String) → listed k (sort_strings xs) ≡ listed k xs
unfolding listed sort_strings
listed-sort_strings k [] = refl
listed-sort_strings k (x ∷ xs) =
    listed-insert_text k x (sort_strings xs) ∙ ap (λ b. str_eq x k || b) (listed-sort_strings k xs)

pub length-sort_strings : (xs : List String) → length (sort_strings xs) ≡ length xs
unfolding sort_strings
length-sort_strings [] = refl
length-sort_strings (x ∷ xs) =
    length-insert_text x (sort_strings xs) ∙ ap suc (length-sort_strings xs)

module _ {F : Type 0} (rt : Runtime F) (ev : Evaluator F) (now : ℕ) where
  -- The keys for an observation: those of all entities when the source itself is in trouble, and
  -- else keys that the evaluation accepts as the observation's own.
  pub record Routed (existing : List String) (o : Observation F) (r : List String × Bool)
      : Type 0 where
    pub own : is_healthy o.health ≡ true → All (λ k. observed_key rt ev o now ≡ ok k) r.0
    pub fan_out :
        is_healthy o.health ≡ false
        → (is_timer o.health && not (str_eq o.entity "")) ≡ false
        → is_empty existing ≡ false
        → (length r.0 ≡ length existing) × ((k : String) → listed k r.0 ≡ listed k existing)
    pub recovers :
        r.1 ≡ true → (is_healthy o.health ≡ true) × (listed source_entity existing ≡ true)

  timer_unhealthy : (h : Health) → is_timer h ≡ true → is_healthy h ≡ false
  timer_unhealthy timer e = refl
  timer_unhealthy healthy e = cc
  timer_unhealthy unknown e = cc
  timer_unhealthy unchanged e = cc
  timer_unhealthy gap e = cc
  timer_unhealthy clock e = cc
  timer_unhealthy waiting e = cc

  -- The key of the fields is the one that the evaluation computes.
  own_key :
      (o : Observation F) (k : String)
      → is_healthy o.health ≡ true
      → entity_key rt.encode_parts ev.group_by o.fields ≡ ok k
      → observed_key rt ev o now ≡ ok k
  unfolding observed_key
  own_key o k h e = ground (arith, h, e, timer_unhealthy o.health)

  keyed-Routed :
      (existing : List String) (clear : Bool) (o : Observation F)
      → (is_healthy o.health ≡ false → is_empty existing ≡ true)
      → (clear ≡ true → (is_healthy o.health ≡ true) × (listed source_entity existing ≡ true))
      → Ensures (Routed existing o) (keyed rt ev clear o)
  unfolding keyed
  keyed-Routed existing clear o lone clears =
      Ensures-then (Routed existing o) (entity_key rt.encode_parts ev.group_by o.fields) _ (λ k e.
        record {
          own = λ h. (own_key o k h e, tt);
          fan_out = λ h t x. ground (arith, x, lone h);
          recovers = clears;
        })

  sorted_Routed :
      (existing : List String) (o : Observation F)
      → is_healthy o.health ≡ false
      → Routed existing o (sort_strings existing, false)
  sorted_Routed existing o q = record {
    own = λ h. ground (arith, h, q);
    fan_out = λ h t x. (length-sort_strings existing, λ k. listed-sort_strings k existing);
    recovers = λ c. cc;
  }

  unhealthy-Routed :
      (existing : List String) (o : Observation F)
      → is_healthy o.health ≡ false
      → Ensures (Routed existing o) (unhealthy rt ev existing o)
  unfolding unhealthy
  unhealthy-Routed existing o q =
      Ensures-if (Routed existing o) (not (is_empty existing)) (ok (sort_strings existing, false)) _
        (λ p. sorted_Routed existing o q)
        (λ p.
          Ensures-if (Routed existing o) (not (is_empty ev.group_by))
            (ok (source_entity ∷ [], false)) _
            (λ g. record {
              own = λ h. ground (arith, h, q);
              fan_out = λ h t x. ground (arith, x, p);
              recovers = λ c. cc;
            })
            (λ g. keyed-Routed existing false o (λ h. ground (arith, p)) (λ c. cc)))

  -- Route gives a healthy observation no key but the one that Evaluate computes for it. An
  -- observation of any other health that is no timer's with an entity gets, if there are
  -- existing keys, as many keys as these and the same ones. Only a healthy observation clears
  -- the source entity, and only if it exists.
  pub route-Routed :
      (existing : List String) (o : Observation F)
      → Ensures (Routed existing o) (route rt ev existing o)
  unfolding route
  route-Routed existing o =
      Ensures-if (Routed existing o) (is_timer o.health && not (str_eq o.entity ""))
        (ok (o.entity ∷ [], false)) _
        (λ t. record {
          own = λ h. ground (arith, h, timer_unhealthy o.health (and_left _ _ t));
          fan_out = λ h f x. ground (arith, t, f);
          recovers = λ c. cc;
        })
        (λ t.
          Ensures-if (Routed existing o) (not (is_healthy o.health)) (unhealthy rt ev existing o) _
            (λ q. unhealthy-Routed existing o (not-true _ q))
            (λ q.
              Ensures-if (Routed existing o) (not (matches_all rt ev.match o.fields))
                (ok ([], false)) _
                (λ m. record {
                  own = λ h. tt;
                  fan_out = λ h f x. ground (arith, h, q);
                  recovers = λ c. cc;
                })
                (λ m.
                  keyed-Routed existing (listed source_entity existing) o
                    (λ h. ground (arith, h, q)) (λ c. (ground (arith, q), c)))))
