-- ===== src/Runtime/Direct.antt =====
-- The cache of an acceptance against the same operations made on the table of entities directly.
use ding.Base.{
  ℕ, ◌≡◌, sym, ◌∙◌, ap, subst, String, true, List, Option, none, some, str_eq, if◌then◌else◌,
  length, arith, Bool-cases, eq_iff, inl, inr, Result, ok, err, ◌>>=◌, leb, Each,
}
use ding.Base.Maps.{
  find, put, remove, has, length-put, Unique, Unique-put, Unique-remove, find-remove_same,
  find-remove_other,
}
use ding.Condition.Model.{State}
use ding.Runtime.Tables.{Db, save_all, quota}
use ding.Runtime.Cache.{Cache, Work, is_known, load, load_all, admit, saved, delete_loaded, keys}
use ding.Runtime.Coherent.{over, Coherent}
use ding.Runtime.Steps.{
  find-saved, saved-Coherent, length-saved, delete_loaded-Coherent, over-delete_loaded,
  length-delete_loaded,
}
use ding.Runtime.Overlay.{length-remove, find-put_eq, has-find_eq}

-- What an acceptance does with the state of a key, or of every key.
pub data Access (F : Type 0) : Type 0 where
  touch : String → State F → Access F
  drop : String → Access F
  fan_out : Access F

pub data Answer (F : Type 0) : Type 0 where
  found : Option (State F) → Answer F
  counted : ℕ → Answer F

-- What is left of a step once the state is read.
module _ {F : Type 0} where
  unfoldable pub touched : String → State F → Option (State F) × Work F → Answer F × Work F
  unfolding saved
  touched k s (o, w) = (found o, saved k s w)

  unfoldable pub dropped : String → Option (State F) × Work F → Answer F × Work F
  unfolding delete_loaded
  dropped k (o, w) = (found o, delete_loaded k w)

  unfoldable pub listing : Work F → Answer F × Work F
  unfolding keys
  listing w = (counted (length (keys w.0.states)), w)

-- The operations through the cache, and directly.
module _ {F : Type 0} (limit : ℕ) where
  unfoldable pub cached : Access F → Work F → Result (Answer F × Work F)
  unfolding admit load load_all touched dropped listing
  cached (touch k s) w = admit limit k w >>= (λ r. ok (touched k s r))
  cached (drop k) w = ok (dropped k (load k w))
  cached fan_out w = ok (listing (load_all w))

  unfoldable pub insert_under :
      String
      → State F
      → Option (State F)
      → List (String × State F)
      → Result (Answer F × List (String × State F))
  insert_under k s (some t) m = ok (found (some t), put k s m)
  insert_under k s none m = if leb limit (length m) then err quota else ok (found none, put k s m)

  unfoldable pub direct :
      Access F → List (String × State F) → Result (Answer F × List (String × State F))
  unfolding insert_under
  direct (touch k s) m = insert_under k s (find k m) m
  direct (drop k) m = ok (found (find k m), remove k m)
  direct fan_out m = ok (counted (length m), m)

module _ {F : Type 0} where
  -- The cache stands for the entities `m`.
  pub record Stands (w : Work F) (m : List (String × State F)) : Type 0 where
    pub coherent : Coherent w
    pub agree : (k : String) → find k (over w) ≡ find k m
    pub sizes : length (over w) ≡ length m
    pub unique : Unique m

  -- Both fail alike, or both answer alike and the cache still stands for the entities.
  abbrev pub Matches :
      Result (Answer F × Work F) → Result (Answer F × List (String × State F)) → Type 0
  Matches (ok (a, w)) (ok (b, m)) = (a ≡ b) × Stands w m
  Matches (err e) (err f) = e ≡ f
  Matches _ _ = ⊥

  pub saved-Stands :
      (k : String) (s : State F) (w : Work F) (m : List (String × State F))
      → Stands w m
      → is_known k w.0 ≡ true
      → (w.0.n ≡ none → has k (over w) ≡ true)
      → Stands (saved k s w) (put k s m)
  saved-Stands k s w m h known there = record {
    coherent = saved-Coherent k s w h.coherent known there;
    agree = λ j. find-saved k j s w ∙ find-put_eq k j s (over w) m (h.agree j);
    sizes = ground (
      arith,
      length-saved k s w,
      length-put k s m,
      has-find_eq k (over w) m (h.agree k),
      h.sizes,
    );
    unique = Unique-put k s m h.unique;
  }

  pub delete_loaded-Stands :
      (k : String) (w : Work F) (m : List (String × State F))
      → Stands w m
      → is_known k w.0 ≡ true
      → Stands (delete_loaded k w) (remove k m)
  delete_loaded-Stands k w m h known = record {
    coherent = delete_loaded-Coherent k w h.coherent known;
    agree = λ j. elim (Bool-cases (str_eq k j)) [
      | inl p ↦ ground (
        arith,
        (eq_iff k j).0 p,
        find-remove_same k (over w),
        find-remove_same k m,
        over-delete_loaded k w,
      )
      | inr p ↦ ground (
        arith,
        find-remove_other k j (over w) p,
        find-remove_other k j m p,
        over-delete_loaded k w,
        h.agree j,
      )
    ];
    sizes = ground (
      arith,
      length-delete_loaded k w h.coherent,
      length-remove k m h.unique,
      has-find_eq k (over w) m (h.agree k),
      h.sizes,
    );
    unique = Unique-remove k m h.unique;
  }

  -- A step that writes nothing.
  pub Kept-Stands :
      (w w' : Work F) (m : List (String × State F))
      → Stands w m
      → Coherent w'
      → over w' ≡ over w
      → Stands w' m
  Kept-Stands w w' m h coherent e = record {
    coherent = coherent;
    agree = λ k. ap (find k) e ∙ h.agree k;
    sizes = ap length e ∙ h.sizes;
    unique = h.unique;
  }

  -- Other tables change.
  pub tables-Stands :
      (c : Cache F) (d d' : Db F) (m : List (String × State F))
      → d'.entities ≡ d.entities
      → Stands (c, d) m
      → Stands (c, d') m
  unfolding over
  tables-Stands c d d' m e h =
      let same : save_all c.pending d'.entities ≡ save_all c.pending d.entities =
        ap (save_all c.pending) e in
      record {
        coherent = record {
          reads = λ k q. h.coherent.reads k q ∙ ap (find k) (sym same);
          writes = h.coherent.writes;
          held = h.coherent.held;
          counts = subst (λ l. Each (λ n. n ≡ length l) c.n) (sym same) h.coherent.counts;
          complete = λ p k q. ap (has k) e ∙ h.coherent.complete p k q;
          whole = λ q. ((h.coherent.whole q).0 ∙ ap length (sym same), (h.coherent.whole q).1);
          unique = subst Unique (sym e) h.coherent.unique;
        };
        agree = λ k. ap (find k) same ∙ h.agree k;
        sizes = ap length same ∙ h.sizes;
        unique = h.unique;
      }
