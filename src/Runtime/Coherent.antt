-- ===== src/Runtime/Coherent.antt =====
-- The cache of an acceptance: what it reads is what the tables will hold after the flush.
use ding.Base.{
  ◌≡◌, refl, sym, ◌∙◌, ap, subst, String, true, false, List, [], ◌∷◌, none, some, str_eq, length,
  arith, Bool-cases, Option-cases, eq_iff, inl, inr, Each,
}
use ding.Base.Maps.{find, put, has, has-find, length-put, Unique, find-put_same, find-put_other}
use ding.Condition.Model.{State}
use ding.Condition.Routing.{listed}
use ding.Runtime.Tables.{save_all}
use ding.Runtime.Cache.{Work, is_known, read, load}
use ding.Runtime.Overlay.{find-save_all, has-save_all, has-find_eq}

module _ {F : Type 0} where
  -- The entities after a flush.
  unfoldable pub over : Work F → List (String × State F)
  over (c, db) = save_all c.pending db.entities

  pub record Coherent (w : Work F) : Type 0 where
    pub reads : (k : String) → is_known k w.0 ≡ true → find k w.0.states ≡ find k (over w)
    pub writes : (k : String) → has k w.0.pending ≡ true → is_known k w.0 ≡ true
    pub held : (k : String) → has k w.0.states ≡ true → is_known k w.0 ≡ true
    pub counts : Each (λ n. n ≡ length (over w)) w.0.n
    pub complete :
        w.0.n ≡ none → (k : String) → has k w.0.pending ≡ true → has k w.1.entities ≡ true
    pub whole : w.0.all ≡ true → (length w.0.states ≡ length (over w)) × Unique w.0.states
    pub unique : Unique w.1.entities

  pub length-save_all :
      (p m : List (String × State F))
      → ((k : String) → has k p ≡ true → has k m ≡ true)
      → length (save_all p m) ≡ length m
  unfolding save_all has
  length-save_all [] m h = refl
  length-save_all ((j, s) ∷ p) m h = ground (
    arith,
    length-put j s (save_all p m),
    has-save_all j p m,
    h j,
    (eq_iff j j).1 refl,
    length-save_all p m (λ k q. h k (ground (arith, q))),
  )

  -- An unknown key is read from the table.
  unknown_key :
      (k : String) (w : Work F)
      → Coherent w
      → is_known k w.0 ≡ false
      → find k w.1.entities ≡ find k (over w)
  unfolding over
  unknown_key k (c, db) h e =
      ground (arith, find-save_all k c.pending db.entities, has-find k c.pending, h.writes k, e)

  -- A key becomes known, with the state that the table holds.
  learn : String → List (String × State F) → Work F → Work F
  learn k states (c, db) = (record c { known = k ∷ c.known; states = states }, db)

  learn-Coherent :
      (k : String) (states : List (String × State F)) (w : Work F)
      → Coherent w
      → is_known k w.0 ≡ false
      → find k states ≡ find k (over w)
      → ((j : String) → str_eq k j ≡ false → find j states ≡ find j w.0.states)
      → Coherent (learn k states w)
  unfolding learn over is_known listed
  learn-Coherent k states (c, db) h unknown e others = record {
    reads = λ j q. elim (Bool-cases (str_eq k j)) [
      | inl p ↦ subst (λ i. find i states ≡ find i (over (c, db))) ((eq_iff k j).0 p) e
      | inr p ↦ others j p ∙ h.reads j ground (arith, q, p)
    ];
    writes = λ j q. ground (arith, h.writes j q);
    held = λ j q. elim (Bool-cases (str_eq k j)) [
      | inl p ↦ ground (arith, p)
      | inr p ↦ ground (arith, h.held j (sym (has-find_eq j states c.states (others j p)) ∙ q))
    ];
    counts = h.counts;
    complete = h.complete;
    whole = λ q. ground (arith, unknown, q);
    unique = h.unique;
  }

  -- What a step leaves: a coherent cache before the same entities.
  pub record Kept (w w' : Work F) : Type 0 where
    pub coherent : Coherent w'
    pub same : over w' ≡ over w
    pub counter : w'.0.n ≡ w.0.n

  missing_key :
      (k : String) (w : Work F)
      → Coherent w
      → is_known k w.0 ≡ false
      → find k w.1.entities ≡ none
      → Kept w (learn k w.0.states w)
  unfolding learn over
  missing_key k (c, db) h e q = record {
    coherent =
        learn-Coherent k c.states (c, db) h e
          (has-find k c.states ground (arith, h.held k, e) ∙ sym q ∙ unknown_key k (c, db) h e)
          (λ j p. refl);
    same = refl;
    counter = refl;
  }

  present_key :
      (k : String) (s : State F) (w : Work F)
      → Coherent w
      → is_known k w.0 ≡ false
      → find k w.1.entities ≡ some s
      → Kept w (learn k (put k s w.0.states) w)
  unfolding learn over
  present_key k s (c, db) h e q = record {
    coherent =
        learn-Coherent k (put k s c.states) (c, db) h e
          (find-put_same k s c.states ∙ sym q ∙ unknown_key k (c, db) h e)
          (λ j p. find-put_other k j s c.states p);
    same = refl;
    counter = refl;
  }

  read-Kept :
      (k : String) (w : Work F) → Coherent w → is_known k w.0 ≡ false → Kept w (read k w, w.1)
  unfolding read learn
  read-Kept k (c, db) h e = elim (Option-cases (find k db.entities)) [
    | inl q ↦ rw (q, read) (missing_key k (c, db) h e q)
    | inr (s, q) ↦ rw (q, read) (present_key k s (c, db) h e q)
  ]

  read_known : (k : String) (w : Work F) → is_known k (read k w) ≡ true
  unfolding read is_known listed
  read_known k (c, db) = elim (Option-cases (find k db.entities)) [
    | inl q ↦ ground (arith, q, (eq_iff k k).1 refl)
    | inr (s, q) ↦ ground (arith, q, (eq_iff k k).1 refl)
  ]

  -- `load` finds what the table will hold.
  pub load_lem :
      (k : String) (w : Work F)
      → Coherent w
      → ((load k w).0 ≡ find k (over w)) × Kept w (load k w).1 × (is_known k (load k w).1.0 ≡ true)
  unfolding load
  load_lem k (c, db) h = elim (Bool-cases (is_known k c)) [
    | inl e ↦ rw e (h.reads k e, record { coherent = h; same = refl; counter = refl }, e)
    | inr e ↦
        let kept = read-Kept k (c, db) h e in
        rw e (
          kept.coherent.reads k (read_known k (c, db)) ∙ ap (find k) kept.same,
          kept,
          read_known k (c, db),
        )
  ]
