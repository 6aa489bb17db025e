-- ===== src/Outbox/Pause.antt =====
-- A delivery that is to be repeated pauses its destination for every stream.
use ding.Base.{
  ℕ, ◌≡◌, ◌<◌, refl, sym, subst, String, Bool, true, false, ◌&&◌, List, [], ◌∷◌, Option, none, some,
  if◌then◌else◌, arith, Bool-cases, inl, inr, str_eq, eq_iff, Each, ok, err,
}
use ding.Base.Ensures.{Ensures, Ensures-if, ensured}
use ding.Delivery.Http as Sent
use ding.Outbox.Rows.{Row, Store, Backoff, by_id, any, back_off, is_backed_off}
use ding.Outbox.Operations.{claimable, lease_row, claim, finished, is_owner, finish, backoff_until}
use ding.Outbox.Fencing.{Grant, claim-Grant}

back_off-is_backed_off :
    (d v : String) (until t : ℕ) (backoffs : List Backoff)
    → t < until
    → is_backed_off d v t (back_off d v until backoffs) ≡ true
unfolding back_off is_backed_off any
back_off-is_backed_off d v until t [] h = ground (arith, (eq_iff d d).1 refl, (eq_iff v v).1 refl)
back_off-is_backed_off d v until t (b ∷ backoffs) h =
    ground (arith, h, back_off-is_backed_off d v until t backoffs h)

finish-finished :
    (st : Store) (i : Row) (result : Sent.Result) (next now : ℕ)
    → Ensures (λ st'. st' ≡ finished st i result next now) (finish st i result next now)
unfolding finish
finish-finished st i result next now = cases (by_id i.id st.rows)
  where
    cases :
        (o : Option Row)
        → Ensures
            (λ st'. st' ≡ finished st i result next now)
            (elim o [
              | none ↦ err "stale generation"
              | some r ↦
                  if is_owner i r
                  then ok (finished st i result next now)
                  else err "stale generation"
            ])
    cases none = tt
    cases (some r) =
        Ensures-if (λ st'. st' ≡ finished st i result next now) (is_owner i r)
          (ok (finished st i result next now)) (err "stale generation") (λ _. refl) (λ _. tt)

finished-is_backed_off :
    (st : Store) (i : Row) (result : Sent.Result) (next now t : ℕ)
    → Sent.is_retryable result.outcome ≡ true
    → now < next
    → t < next
    → is_backed_off i.destination_id i.revision t (finished st i result next now).backoffs ≡ true
unfolding finished
finished-is_backed_off st i result next now t r n h = ground (
  arith,
  r,
  back_off-is_backed_off i.destination_id i.revision (backoff_until result next) t st.backoffs,
)

claimable-unpaused :
    (st : Store) (t : ℕ) (r : Row)
    → claimable st t r ≡ true
    → is_backed_off r.destination_id r.revision t st.backoffs ≡ false
unfolding claimable
claimable-unpaused st t r h = ground (arith, h)

apart :
    (f : String → String → Bool) (d v d' v' : String)
    → f d v ≡ true
    → f d' v' ≡ false
    → str_eq d' d && str_eq v' v ≡ false
apart f d v d' v' h k = elim (Bool-cases (str_eq d' d && str_eq v' v)) [
  | inr e ↦ e
  | inl e ↦
      let p : d' ≡ d = (eq_iff d' d).0 (ground (arith, e)) in
      let q : v' ≡ v = (eq_iff v' v).0 (ground (arith, e)) in
      ground (arith, h, subst (λ w. f d w ≡ false) q (subst (λ x. f x v' ≡ false) p k))
]

-- After a successful acknowledgment that a delivery is to be repeated at a time later than its
-- own, no claim before that time gives an intent of the same revision of the same destination,
-- whatever its watch.
pub finish-claim :
    (less : String → String → Bool) (st : Store) (i : Row) (result : Sent.Result) (next now : ℕ)
    (st' : Store) (t lease : ℕ) (token : String) (j : Row) (st'' : Store)
    → finish st i result next now ≡ ok st'
    → Sent.is_retryable result.outcome ≡ true
    → now < next
    → t < next
    → claim less st' t lease token ≡ ok (some j, st'')
    → str_eq j.destination_id i.destination_id && str_eq j.revision i.revision ≡ false
unfolding lease_row
finish-claim less st i result next now st' t lease token j st'' e r n h c =
    let done =
      ensured (λ s. s ≡ finished st i result next now) (finish st i result next now)
        (finish-finished st i result next now) e in
    let g : Grant st' t lease token j st'' =
      ensured {A = Option Row × Store} (λ x. Each (λ i. Grant st' t lease token i x.1) x.0)
        (claim less st' t lease token) (claim-Grant less st' t lease token) c in
    apart (λ d v. is_backed_off d v t st'.backoffs) i.destination_id i.revision j.destination_id
      j.revision
      (subst (λ s. is_backed_off i.destination_id i.revision t s.backoffs ≡ true) (sym done)
        (finished-is_backed_off st i result next now t r n h))
      (subst (λ x. is_backed_off x.destination_id x.revision t st'.backoffs ≡ false) (sym g.intent)
        (claimable-unpaused st' t g.row g.chosen.eligible))
