-- ===== src/Condition/Emit/Evidence.antt =====
-- The evidence list of an event: strictly ascending, and with the sequence of its observation.
use ding.Base.{
  ℕ, ◌<◌, ◌≡◌, refl, ◌∙◌, false, ◌||◌, List, [], ◌∷◌, ◌++◌, ◌==◌, arith, Bool-cases, inl, inr,
}
use ding.Watch.{Observation, Kind}
use ding.Condition.Model.{State, Evaluator, Runtime}
use ding.Condition.Emit.{
  contains, add_once, add_all, insert_sorted, sort, evidence_of, incident_evidence,
}

abbrev pub Ascending : List ℕ → Type 0
Ascending [] = Unit
Ascending (x ∷ []) = Unit
Ascending (x ∷ (y ∷ ys)) = (x < y) × Ascending (y ∷ ys)

abbrev Distinct : List ℕ → Type 0
Distinct [] = Unit
Distinct (x ∷ xs) = (contains x xs ≡ false) × Distinct xs

contains-append :
    (k : ℕ) (xs ys : List ℕ) → contains k (xs ++ ys) ≡ (contains k xs || contains k ys)
unfolding contains
contains-append k [] ys = refl
contains-append k (x ∷ xs) ys = ground (arith, contains-append k xs ys)

contains-insert_sorted :
    (k n : ℕ) (xs : List ℕ) → contains k (insert_sorted n xs) ≡ ((n == k) || contains k xs)
unfolding contains insert_sorted
contains-insert_sorted k n [] = ground arith
contains-insert_sorted k n (x ∷ xs) = ground (arith, contains-insert_sorted k n xs)

contains-sort : (k : ℕ) (xs : List ℕ) → contains k (sort xs) ≡ contains k xs
unfolding contains sort
contains-sort k [] = refl
contains-sort k (x ∷ xs) = ground (arith, contains-insert_sorted k x (sort xs), contains-sort k xs)

-- The head of an ascending list is below any other element that is put in.
insert_sorted-Ascending :
    (n : ℕ) (xs : List ℕ) → contains n xs ≡ false → Ascending xs → Ascending (insert_sorted n xs)
unfolding contains insert_sorted
insert_sorted-Ascending n [] h a = tt
insert_sorted-Ascending n (x ∷ []) h a = ground arith
insert_sorted-Ascending n (x ∷ (y ∷ ys)) h a = ground (arith, insert_sorted-Ascending n (y ∷ ys))

sort-Ascending : (xs : List ℕ) → Distinct xs → Ascending (sort xs)
unfolding sort
sort-Ascending [] d = tt
sort-Ascending (x ∷ xs) d =
    insert_sorted-Ascending x (sort xs) (contains-sort x xs ∙ d.0) (sort-Ascending xs d.1)

Distinct-snoc :
    (xs : List ℕ) (n : ℕ) → contains n xs ≡ false → Distinct xs → Distinct (xs ++ (n ∷ []))
unfolding contains
Distinct-snoc [] n h d = (refl, tt)
Distinct-snoc (x ∷ xs) n h d =
    (ground (arith, contains-append x xs (n ∷ [])), Distinct-snoc xs n (ground arith) d.1)

add_once-Distinct : (xs : List ℕ) (n : ℕ) → Distinct xs → Distinct (add_once xs n)
unfolding add_once
add_once-Distinct xs n d = elim (Bool-cases (contains n xs)) [
  | inl p ↦ rw p d
  | inr p ↦ rw p (Distinct-snoc xs n p d)
]

add_all-Distinct : (ns xs : List ℕ) → Distinct xs → Distinct (add_all xs ns)
unfolding add_all
add_all-Distinct [] xs d = d
add_all-Distinct (n ∷ ns) xs d = add_all-Distinct ns (add_once xs n) (add_once-Distinct xs n d)

contains-add_once :
    (k : ℕ) (xs : List ℕ) (n : ℕ) → contains k (add_once xs n) ≡ (contains k xs || (n == k))
unfolding add_once contains
contains-add_once k xs n = ground (arith, contains-append k xs (n ∷ []))

contains-add_all :
    (k : ℕ) (ns xs : List ℕ) → contains k (add_all xs ns) ≡ (contains k xs || contains k ns)
unfolding add_all contains
contains-add_all k [] xs = ground arith
contains-add_all k (n ∷ ns) xs =
    ground (arith, contains-add_all k ns (add_once xs n), contains-add_once k xs n)

module _ {F : Type 0} (rt : Runtime F) (ev : Evaluator F) (o : Observation F) where
  -- A number is evidence exactly if it is one of the sources, whatever their order and repetition.
  pub evidence_of-contains :
      (kind : Kind) (s : State F) (k : ℕ)
      → contains k (evidence_of rt ev o kind s) ≡ (
          contains k (incident_evidence rt ev o kind s)
          || (contains k s.evidence || (o.sequence == k)))
  unfolding evidence_of contains
  evidence_of-contains kind s k =
      let own = s.evidence ++ (o.sequence ∷ []) in
      let all = incident_evidence rt ev o kind s ++ own in
      ground (
        arith,
        contains-sort k (add_all [] all),
        contains-add_all k all [],
        contains-append k (incident_evidence rt ev o kind s) own,
        contains-append k s.evidence (o.sequence ∷ []),
      )

  pub evidence_of-Ascending : (kind : Kind) (s : State F) → Ascending (evidence_of rt ev o kind s)
  unfolding evidence_of
  evidence_of-Ascending kind s = sort-Ascending _ (add_all-Distinct _ [] tt)
