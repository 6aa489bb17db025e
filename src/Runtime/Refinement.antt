-- ===== src/Runtime/Refinement.antt =====
-- A whole acceptance through the cache of entities, and the same on the table.
use ding.Base.{
  ℕ, suc, ◌≡◌, refl, sym, ◌∙◌, ap, subst, String, Bool, true, false, List, [], ◌∷◌, Option, none,
  some, if◌then◌else◌, length, arith, Bool-cases, Option-cases, eq_iff, inl, inr, Result, ok, err,
  ◌>>=◌, leb,
}
use ding.Base.Maps.{find, put, has, Unique}
use ding.Condition.Model.{State}
use ding.Condition.Routing.{listed}
use ding.Runtime.Tables.{Db, quota, save_all}
use ding.Runtime.Cache.{
  Work, is_known, load, load_all, count, admit, admitted, room, saved, keys, flush, loaded, subset,
  with_row, fresh_cache,
}
use ding.Runtime.Coherent.{over, load_lem}
use ding.Runtime.Steps.{load_all_lem, count_lem, flush_lem}
use ding.Runtime.Overlay.{is_some, is_some-find}
use ding.Runtime.Direct.{
  Access, touch, drop, fan_out, Answer, found, counted, touched, dropped, listing, cached,
  insert_under, direct, Stands, Matches, saved-Stands, delete_loaded-Stands, Kept-Stands,
}

module _ {F : Type 0} where
  pub count-is_known : (k : String) (w : Work F) → is_known k (count w).1.0 ≡ is_known k w.0
  unfolding count is_known
  count-is_known k (c, db) = elim (Option-cases c.n) [
    | inl q ↦ rw (q, count) refl
    | inr (n, q) ↦ rw (q, count) refl
  ]

  pub count-n : (w : Work F) → (count w).1.0.n ≡ some (count w).0
  unfolding count
  count-n (c, db) = elim (Option-cases c.n) [
    | inl q ↦ rw (q, count) refl
    | inr (n, q) ↦ rw (q, count) q
  ]

  length-keys : (m : List (String × State F)) → length (keys m) ≡ length m
  unfolding keys
  length-keys [] = refl
  length-keys ((k, s) ∷ m) = ap suc (length-keys m)

  module _ (limit : ℕ) (k : String) (s : State F) where
    room-Matches :
        (n : ℕ) (w : Work F) (m : List (String × State F))
        → n ≡ length m
        → Stands (saved k s w) (put k s m)
        → Matches (room limit (n, w) >>= (λ r. ok (touched k s r))) (insert_under limit k s none m)
    unfolding room touched insert_under
    room-Matches n w m e h =
        subst
          (λ i.
            Matches (room limit (n, w) >>= (λ r. ok (touched k s r)))
              (if leb limit i then err quota else ok (found none, put k s m)))
          e (cases (leb limit n))
      where
        cases :
            (b : Bool)
            → Matches
                ((if b then err quota else ok (none, w)) >>= (λ r. ok (touched k s r)))
                (if b then err quota else ok (found none, put k s m))
        cases true = refl
        cases false = (refl, h)

    touch-Matches :
        (o : Option (State F)) (w : Work F) (m : List (String × State F))
        → o ≡ find k m
        → Stands w m
        → is_known k w.0 ≡ true
        → Matches (admitted limit (o, w) >>= (λ r. ok (touched k s r))) (insert_under limit k s o m)
    unfolding admitted touched insert_under
    touch-Matches (some t) w m e h known = (
      refl,
      saved-Stands k s w m h known
          (λ _. sym (is_some-find k (over w)) ∙ ap is_some (h.agree k ∙ sym e)),
    )
    touch-Matches none w m e h known =
        let (n, coherent, same) = count_lem w h.coherent in
        room-Matches (count w).0 (count w).1 m (n ∙ h.sizes) (
          saved-Stands k s (count w).1 m (Kept-Stands w (count w).1 m h coherent same)
            (count-is_known k w ∙ known) (λ q. ground (arith, q, count-n w)))

  -- Each operation through the cache matches the operation on the table.
  step-Matches :
      (limit : ℕ) (a : Access F) (w : Work F) (m : List (String × State F))
      → Stands w m
      → Matches (cached limit a w) (direct limit a m)
  unfolding cached direct admit dropped listing
  step-Matches limit (touch k s) w m h =
      let (value, kept, known) = load_lem k w h.coherent in
      subst
        (λ o. Matches (admit limit k w >>= (λ r. ok (touched k s r))) (insert_under limit k s o m))
        (value ∙ h.agree k)
        (touch-Matches limit k s (load k w).0 (load k w).1 m (value ∙ h.agree k)
          (Kept-Stands w (load k w).1 m h kept.coherent kept.same) known)
  step-Matches limit (drop k) w m h =
      let (value, kept, known) = load_lem k w h.coherent in
      (
        ap found (value ∙ h.agree k),
        delete_loaded-Stands k (load k w).1 m
            (Kept-Stands w (load k w).1 m h kept.coherent kept.same) known,
      )
  step-Matches limit fan_out w m h =
      let (coherent, same, size) = load_all_lem w h.coherent in
      (
        ap counted (length-keys (load_all w).0.states ∙ size ∙ h.sizes),
        Kept-Stands w (load_all w) m h coherent same,
      )

  unfoldable pub run_cached :
      ℕ → List (Access F) → Work F → Result (List (Answer F) × List (String × State F))
  unfolding cached flush
  run_cached limit [] w = ok ([], (flush w).1.entities)
  run_cached limit (a ∷ rest) w =
      cached limit a w >>= (λ r. run_cached limit rest r.1 >>= (λ q. ok (r.0 ∷ q.0, q.1)))

  unfoldable pub run_direct :
      ℕ
      → List (Access F)
      → List (String × State F)
      → Result (List (Answer F) × List (String × State F))
  unfolding direct
  run_direct limit [] m = ok ([], m)
  run_direct limit (a ∷ rest) m =
      direct limit a m >>= (λ r. run_direct limit rest r.1 >>= (λ q. ok (r.0 ∷ q.0, q.1)))

  -- The same answers, and the same table: as many keys, each with the same state.
  abbrev pub Same :
      Result (List (Answer F) × List (String × State F))
      → Result (List (Answer F) × List (String × State F))
      → Type 0
  Same (ok (xs, m)) (ok (ys, m')) =
      (xs ≡ ys) × (length m ≡ length m') × ((k : String) → find k m ≡ find k m')
  Same (err e) (err f) = e ≡ f
  Same _ _ = ⊥

  Same-cons :
      (a b : Answer F) (r r' : Result (List (Answer F) × List (String × State F)))
      → a ≡ b
      → Same r r'
      → Same (r >>= (λ q. ok (a ∷ q.0, q.1))) (r' >>= (λ q. ok (b ∷ q.0, q.1)))
  Same-cons a b (ok (xs, m)) (ok (ys, m')) e h = (ground (arith, e, h.0), h.1, h.2)
  Same-cons a b (err x) (err y) e h = h
  Same-cons a b (ok q) (err y) e h = absurd h
  Same-cons a b (err x) (ok q) e h = absurd h

  Same-bind :
      (limit : ℕ) (rest : List (Access F)) (r : Result (Answer F × Work F))
      (r' : Result (Answer F × List (String × State F)))
      → ((w : Work F) (m : List (String × State F))
          → Stands w m
          → Same (run_cached limit rest w) (run_direct limit rest m))
      → Matches r r'
      → Same
          (r >>= (λ q. run_cached limit rest q.1 >>= (λ p. ok (q.0 ∷ p.0, p.1))))
          (r' >>= (λ q. run_direct limit rest q.1 >>= (λ p. ok (q.0 ∷ p.0, p.1))))
  Same-bind limit rest (ok (a, w)) (ok (b, m)) run h =
      Same-cons a b (run_cached limit rest w) (run_direct limit rest m) h.0 (run w m h.1)
  Same-bind limit rest (err x) (err y) run h = h
  Same-bind limit rest (ok q) (err y) run h = absurd h
  Same-bind limit rest (err x) (ok q) run h = absurd h

  run-Same :
      (limit : ℕ) (ops : List (Access F)) (w : Work F) (m : List (String × State F))
      → Stands w m
      → Same (run_cached limit ops w) (run_direct limit ops m)
  unfolding run_cached run_direct
  run-Same limit [] w m h =
      let e = (flush_lem w).1 in (refl, ap length e ∙ h.sizes, λ k. ap (find k) e ∙ h.agree k)
  run-Same limit (a ∷ rest) w m h =
      Same-bind limit rest (cached limit a w) (direct limit a m) (run-Same limit rest)
        (step-Matches limit a w m h)

  find-subset :
      (k : String) (ks : List String) (m : List (String × State F))
      → find k (subset ks m) ≡ (if listed k ks then find k m else none)
  unfolding subset listed find with_row
  find-subset k [] m = refl
  find-subset k (j ∷ ks) m = elim (Option-cases (find j m)) [
    | inl q ↦ ground (arith, q, find-subset k ks m, eq_iff j k)
    | inr (s, q) ↦ ground (arith, q, find-subset k ks m, eq_iff j k)
  ]

  subset-listed :
      (k : String) (ks : List String) (m : List (String × State F))
      → has k (subset ks m) ≡ true
      → listed k ks ≡ true
  subset-listed k ks m h = elim (Bool-cases (listed k ks)) [
    | inl e ↦ e
    | inr e ↦
        let absent = find-subset k ks m ∙ ap (λ b. if b then find k m else none) e in
        ground (arith, h, is_some-find k (subset ks m), absent)
  ]

  -- The cache after the preload, before anything is written.
  pub preloaded-Stands :
      (wanted : List String) (db : Db F)
      → Unique db.entities
      → Stands (loaded wanted (fresh_cache, db)) db.entities
  unfolding loaded over is_known save_all has
  preloaded-Stands wanted db u = record {
    coherent = record {
      reads = λ k q.
          find-subset k wanted db.entities ∙ ap (λ b. if b then find k db.entities else none) q;
      writes = λ k q. cc;
      held = λ k q. subset-listed k wanted db.entities q;
      counts = tt;
      complete = λ e k q. cc;
      whole = λ q. cc;
      unique = u;
    };
    agree = λ k. refl;
    sizes = refl;
    unique = u;
  }

  -- From an empty cache, with any keys preloaded, any sequence of reads, writes, removals and
  -- fan-outs of one acceptance gives the same answers through the cache as on the table,
  -- refuses a new key at the same limit, and leaves after the flush the same table: as many
  -- keys, each with the same state. Keys stand once in the table.
  pub cache-table :
      (limit : ℕ) (ops : List (Access F)) (wanted : List String) (db : Db F)
      → Unique db.entities
      → Same
          (run_cached limit ops (loaded wanted (fresh_cache, db)))
          (run_direct limit ops db.entities)
  cache-table limit ops wanted db u =
      run-Same limit ops (loaded wanted (fresh_cache, db)) db.entities
        (preloaded-Stands wanted db u)
