-- ===== src/Runtime/Steps.antt =====
-- Each operation on the cache of an acceptance keeps it coherent and does to the entities what the
-- operation on the table does.
use ding.Base.{
  ℕ, suc, ◌+◌, ◌-◌, ◌≡◌, refl, sym, ◌∙◌, ap, subst, String, Bool, true, false, not, List, [], ◌∷◌,
  Option, none, some, str_eq, if◌then◌else◌, length, arith, Bool-cases, Option-cases, eq_iff, inl,
  inr, Each, if_cases,
}
use ding.Base.Maps.{
  find, put, remove, has, has-put, length-put, Unique, Unique-put, Unique-remove, find-put_same,
  find-put_other, find-remove_same, find-remove_other, has-remove,
}
use ding.Condition.Model.{State}
use ding.Condition.Routing.{listed, is_empty}
use ding.Runtime.Tables.{save_all, save_entities, delete_entity}
use ding.Runtime.Cache.{
  Work, is_known, load_all, flush, count, saved, removed, delete_loaded, step_count,
}
use ding.Runtime.Overlay.{
  is_some, is_some-find, find-save_all, has-save_all, Unique-save_all, length-save_all-put,
  save_all-remove, length-remove, find-put_eq, has-find_eq,
}
use ding.Runtime.Coherent.{over, Coherent, length-save_all}

-- The counter follows the number of keys.
step_count-Each :
    (f : ℕ → ℕ) (b : Bool) (o : Option ℕ) (m m' : ℕ)
    → Each (λ n. n ≡ m) o
    → (b ≡ true → f m ≡ m')
    → (b ≡ false → m ≡ m')
    → Each (λ n. n ≡ m') (step_count f b o)
unfolding step_count
step_count-Each f true none m m' h up stay = tt
step_count-Each f true (some n) m m' h up stay = ap f h ∙ up refl
step_count-Each f false none m m' h up stay = tt
step_count-Each f false (some n) m m' h up stay = h ∙ stay refl

step_count-none : (f : ℕ → ℕ) (b : Bool) (o : Option ℕ) → step_count f b o ≡ none → o ≡ none
unfolding step_count
step_count-none f true none h = refl
step_count-none f true (some n) h = cc
step_count-none f false o h = h

empty_list : {A : Type 0} (xs : List A) → is_empty xs ≡ true → xs ≡ []
empty_list [] h = refl
empty_list (x ∷ xs) h = cc

module _ {F : Type 0} where
  -- The counter was read: the number of the rows, all pending keys being among them.
  counted_first :
      (w : Work F)
      → Coherent w
      → w.0.n ≡ none
      → (length w.1.entities ≡ length (over w))
        × Coherent (record w.0 { n = some (length w.1.entities) }, w.1)
  unfolding over is_known
  counted_first (c, db) h q =
      let e = sym (length-save_all c.pending db.entities (h.complete q)) in
      (
        e,
        record {
          reads = h.reads;
          writes = h.writes;
          held = h.held;
          counts = e;
          complete = λ p. cc;
          whole = h.whole;
          unique = h.unique;
        },
      )

  pub known_has :
      (k : String) (w : Work F)
      → Coherent w
      → is_known k w.0 ≡ true
      → has k w.0.states ≡ has k (over w)
  known_has k w h q = has-find_eq k w.0.states (over w) (h.reads k q)

  pub count_lem :
      (w : Work F)
      → Coherent w
      → ((count w).0 ≡ length (over w)) × Coherent (count w).1 × (over (count w).1 ≡ over w)
  unfolding count over
  count_lem (c, db) h = elim (Option-cases c.n) [
    | inl q ↦ let (e, coherent) = counted_first (c, db) h q in rw (q, count) (e, coherent, refl)
    | inr (n, q) ↦ rw (q, count) (subst (Each (λ i. i ≡ length (over (c, db)))) q h.counts, h, refl)
  ]

  pub find-saved :
      (k j : String) (s : State F) (w : Work F)
      → find j (over (saved k s w)) ≡ find j (put k s (over w))
  unfolding saved over
  find-saved k j s (c, db) = elim (Bool-cases (str_eq k j)) [
    | inl p ↦ ground (
      arith,
      (eq_iff k j).0 p,
      find-save_all k (put k s c.pending) db.entities,
      find-put_same k s c.pending,
      find-put_same k s (save_all c.pending db.entities),
    )
    | inr p ↦ ground (
      arith,
      find-save_all j (put k s c.pending) db.entities,
      find-save_all j c.pending db.entities,
      find-put_other k j s c.pending p,
      find-put_other k j s (save_all c.pending db.entities) p,
    )
  ]

  pub saved-Coherent :
      (k : String) (s : State F) (w : Work F)
      → Coherent w
      → is_known k w.0 ≡ true
      → (w.0.n ≡ none → has k (over w) ≡ true)
      → Coherent (saved k s w)
  unfolding saved over is_known listed step_count
  saved-Coherent k s (c, db) h known there = record {
    reads = λ j q. elim (Bool-cases (str_eq k j)) [
      | inl p ↦
          find-put_eq k j s c.states (over (c, db)) (
            subst (λ i. find i c.states ≡ find i (over (c, db))) ((eq_iff k j).0 p)
              (h.reads k known))
          ∙ sym (find-saved k j s (c, db))
      | inr p ↦
          find-put_eq k j s c.states (over (c, db)) (h.reads j ground (arith, p, q))
          ∙ sym (find-saved k j s (c, db))
    ];
    writes = λ j q. ground (arith, has-put k j s c.pending, h.writes j, q);
    held = λ j q. ground (arith, has-put k j s c.states, h.held j, q);
    counts =
        step_count-Each suc (not (has k c.states)) c.n (length (over (c, db)))
          (length (over (saved k s (c, db)))) h.counts
          (λ q.
            ground (
              arith,
              q,
              known_has k (c, db) h known,
              length-save_all-put k s c.pending db.entities,
            ))
          (λ q.
            ground (
              arith,
              q,
              known_has k (c, db) h known,
              length-save_all-put k s c.pending db.entities,
            ));
    complete = λ e j q.
        let none_before = step_count-none suc (not (has k c.states)) c.n e in
        ground (
          arith,
          has-put k j s c.pending,
          h.complete none_before j,
          h.complete none_before k,
          there none_before,
          has-save_all k c.pending db.entities,
          (eq_iff k j).0,
          q,
        );
    whole = λ q. (
      ground (
        arith,
        h.whole q,
        known_has k (c, db) h known,
        length-put k s c.states,
        length-save_all-put k s c.pending db.entities,
      ),
      Unique-put k s c.states (h.whole q).1,
    );
    unique = h.unique;
  }

  pub over-delete_loaded : (k : String) (w : Work F) → over (delete_loaded k w) ≡ remove k (over w)
  unfolding delete_loaded removed over delete_entity
  over-delete_loaded k (c, db) = save_all-remove k c.pending db.entities

  pub Unique-over : (w : Work F) → Coherent w → Unique (over w)
  unfolding over
  Unique-over (c, db) h = Unique-save_all c.pending db.entities h.unique

  pub length-saved :
      (k : String) (s : State F) (w : Work F)
      → length (over (saved k s w)) ≡ (if has k (over w) then 0 else 1) + length (over w)
  unfolding saved over
  length-saved k s (c, db) = length-save_all-put k s c.pending db.entities

  -- A key other than the removed one.
  has-remove_other :
      (k j : String) (m : List (String × State F))
      → str_eq k j ≡ false
      → has j (remove k m) ≡ has j m
  has-remove_other k j m e = has-find_eq j (remove k m) m (find-remove_other k j m e)

  has-remove_same : (k : String) (m : List (String × State F)) → has k (remove k m) ≡ false
  has-remove_same k m = sym (is_some-find k (remove k m)) ∙ ap is_some (find-remove_same k m)

  pub length-delete_loaded :
      (k : String) (w : Work F)
      → Coherent w
      → length (over (delete_loaded k w)) + (if has k (over w) then 1 else 0) ≡ length (over w)
  length-delete_loaded k w h =
      ground (arith, over-delete_loaded k w, length-remove k (over w) (Unique-over w h))

  pub delete_loaded-Coherent :
      (k : String) (w : Work F) → Coherent w → is_known k w.0 ≡ true → Coherent (delete_loaded k w)
  unfolding delete_loaded removed is_known listed delete_entity
  delete_loaded-Coherent k (c, db) h known = record {
    reads = λ j q. elim (Bool-cases (str_eq k j)) [
      | inl p ↦ ground (
        arith,
        (eq_iff k j).0 p,
        find-remove_same k c.states,
        find-remove_same k (over (c, db)),
        over-delete_loaded k (c, db),
      )
      | inr p ↦ ground (
        arith,
        p,
        h.reads j,
        q,
        find-remove_other k j c.states p,
        find-remove_other k j (over (c, db)) p,
        over-delete_loaded k (c, db),
      )
    ];
    writes = λ j q. ground (arith, h.writes j, has-remove k j c.pending, q);
    held = λ j q. ground (arith, h.held j, has-remove k j c.states, q);
    counts =
        step_count-Each (λ n. n - 1) (has k c.states) c.n (length (over (c, db)))
          (length (over (delete_loaded k (c, db)))) h.counts
          (λ q. ground (arith, q, known_has k (c, db) h known, length-delete_loaded k (c, db) h))
          (λ q. ground (arith, q, known_has k (c, db) h known, length-delete_loaded k (c, db) h));
    complete = λ e j q. elim (Bool-cases (str_eq k j)) [
      | inl p ↦ ground (arith, (eq_iff k j).0 p, has-remove_same k c.pending, q)
      | inr p ↦ ground (
        arith,
        has-remove_other k j c.pending p,
        has-remove_other k j db.entities p,
        h.complete (step_count-none (λ n. n - 1) (has k c.states) c.n e) j,
        q,
      )
    ];
    whole = λ q. (
      ground (
        arith,
        h.whole q,
        known_has k (c, db) h known,
        length-remove k c.states (h.whole q).1,
        length-delete_loaded k (c, db) h,
      ),
      Unique-remove k c.states (h.whole q).1,
    );
    unique = Unique-remove k db.entities h.unique;
  }

  -- A flush leaves nothing pending, and the entities as they were read.
  pub flush_lem : (w : Work F) → ((flush w).0.pending ≡ []) × ((flush w).1.entities ≡ over w)
  unfolding flush save_entities over save_all
  flush_lem (c, db) =
      if_cases (λ (w : Work F). (w.0.pending ≡ []) × (w.1.entities ≡ over (c, db)))
        (is_empty c.pending) (c, db) (record c { pending = [] }, save_entities c.pending db)
        (λ q. let e = empty_list c.pending q in (e, ap (λ p. save_all p db.entities) (sym e)))
        (λ q. (refl, refl))

  -- All rows are read into the cache.
  abbrev pub reloaded : Work F → Work F
  reloaded (c, db) =
      (record c { states = db.entities; all = true; n = some (length db.entities) }, db)

  reloaded-Coherent :
      (w : Work F)
      → w.0.pending ≡ []
      → Unique w.1.entities
      → Coherent (reloaded w) × (over (reloaded w) ≡ w.1.entities)
  unfolding over is_known save_all has
  reloaded-Coherent (c, db) e u =
      let same = ap (λ p. save_all p db.entities) e in
      (
        record {
          reads = λ k q. ap (find k) (sym same);
          writes = λ k q. refl;
          held = λ k q. refl;
          counts = ap length (sym same);
          complete = λ p. cc;
          whole = λ q. (ap length (sym same), u);
          unique = u;
        },
        same,
      )

  pub load_all_lem :
      (w : Work F)
      → Coherent w
      → Coherent (load_all w)
        × (over (load_all w) ≡ over w)
        × (length (load_all w).0.states ≡ length (over w))
  unfolding load_all
  load_all_lem w h =
      if_cases
        (λ (v : Work F). Coherent v × (over v ≡ over w) × (length v.0.states ≡ length (over w)))
        w.0.all w (reloaded (flush w)) (λ q. (h, refl, (h.whole q).0))
        (λ q.
          let (e, p) = flush_lem w in
          let (coherent, same) =
            reloaded-Coherent (flush w) e (subst Unique (sym p) (Unique-over w h)) in
          (coherent, same ∙ p, ap length p))
