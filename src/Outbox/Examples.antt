-- ===== src/Outbox/Examples.antt =====
-- Two intents of one stream: the first is claimed, refused and repeated before the second.
use Prim.Native.String.{compare}
use Prim.Native.Nat.{Ordering}
use ding.Base.{
  ℕ, ◌≡◌, ◌≤◌, refl, String, Bool, true, false, ◌&&◌, List, [], ◌∷◌, some, ok, err, arith, here,
  there, str_eq,
}
use ding.Delivery.Http as Sent
use ding.Outbox.Rows.{first, Stream, Row, Store, leased}
use ding.Outbox.Operations.{claimable, Draft, queued, claim, finish, finished, granted, drafted}
use ding.Outbox.Manual.{Call, enqueued, claimed, acknowledged, cancelled, requeued}
use ding.Outbox.Ids.{Keyed, ids, count}
use ding.Outbox.Leases.{Exclusive}
use ding.Outbox.Exclusion.{Safe, clock}
use ding.Outbox.Trace.{run, last_clock, run-Safe}
use ding.Outbox.Fencing.{claim-oldest, claim-finish, claim-finish_stale}
use ding.Outbox.Due.{Due, Asked-Due}
use ding.Outbox.Progress.{gives, claim-Due}
use ding.Outbox.Pause.{finish-claim}

abbrev less : String → String → Bool
less a b = elim (compare a b) [ Ordering.lt ↦ true | _ ↦ false ]

abbrev empty : Store
empty = record { rows = []; streams = []; backoffs = []; log = []; next_id = 1 }

abbrev draft : String → Draft
draft event = record {
  event_id = event;
  watch_id = "w";
  destination_id = "d";
  revision = "r1";
  payload = "{}";
  next_at = 10;
  created_at = 10;
}

abbrev row : ℕ → String → Row
row id event = record {
  id = id;
  event_id = event;
  watch_id = "w";
  destination_id = "d";
  revision = "r1";
  payload = "{}";
  status = leased;
  attempts = 1;
  next_at = 10;
  created_at = 10;
  lease_token = "t1";
  lease_until = 50;
  last_error = "";
  retry_started_at = 0;
}

unfoldable two_queued : Store
unfolding queued
two_queued = queued (queued empty (draft "e1")) (draft "e2")

unfoldable after_claim : Store
unfolding two_queued granted
after_claim = granted two_queued "t1" 50 (drafted 1 (draft "e1"))

two_queued-Keyed : Keyed two_queued
unfolding two_queued ids drafted
two_queued-Keyed = record {
  ascending = ((omega arith, tt), (tt, tt));
  below = (omega arith, (omega arith, tt));
}

two_queued-claim : claim less two_queued 20 30 "t1" ≡ ok (some (row 1 "e1"), after_claim)
unfolding two_queued after_claim claim
two_queued-claim = refl

claim-oldest_example : 1 ≤ 2
unfolding two_queued drafted
claim-oldest_example =
    claim-oldest less two_queued 20 30 "t1" (row 1 "e1") after_claim two_queued-Keyed
      two_queued-claim (drafted 2 (draft "e2")) (there (here refl)) refl

abbrev unavailable : Sent.Result
unavailable = Sent.failure Sent.retryable "HTTP 503"

claim-finish_example :
    finish after_claim (row 1 "e1") unavailable 100 21
    ≡ ok (finished after_claim (row 1 "e1") unavailable 100 21)
claim-finish_example =
    claim-finish less two_queued 20 30 "t1" (row 1 "e1") after_claim two_queued-Keyed
      two_queued-claim unavailable 100 21

abbrev late : Row
late = record (row 1 "e1") { lease_token = "t0" }

claim-finish_stale_example : finish after_claim late unavailable 100 21 ≡ err "stale generation"
claim-finish_stale_example =
    claim-finish_stale less two_queued 20 30 "t1" (row 1 "e1") after_claim two_queued-Keyed
      two_queued-claim late unavailable 100 21 refl refl

abbrev other : Draft
other = record (draft "e3") { destination_id = "x" }

unfoldable other_claimed : Store
unfolding two_queued queued granted drafted
other_claimed = granted (queued two_queued other) "t1" 50 (drafted 1 (draft "e1"))

unfoldable paused : Store
unfolding other_claimed finished
paused = finished other_claimed (row 1 "e1") unavailable 100 21

abbrev other_row : Row
other_row = record (row 3 "e3") { destination_id = "x"; lease_token = "t2"; lease_until = 60 }

unfoldable other_granted : Store
unfolding paused granted
other_granted = granted paused "t2" 60 (drafted 3 other)

finish-claim_example : (str_eq "x" "d" && str_eq "r1" "r1") ≡ false
unfolding paused other_claimed other_granted finish claim
finish-claim_example =
    finish-claim less other_claimed (row 1 "e1") unavailable 100 21 paused 30 30 "t2" other_row
      other_granted refl refl (omega arith) (omega arith) refl

abbrev calls : List Call
calls =
    enqueued (draft "e1")
    ∷ enqueued (draft "e2")
    ∷ claimed 20 30 "t1"
    ∷ acknowledged (row 1 "e1") unavailable 100 21
    ∷ requeued 1 40
    ∷ claimed 120 30 "t2"
    ∷ cancelled "w" 130
    ∷ []

empty-Safe : Safe 0 empty
unfolding Exclusive ids count
empty-Safe = record {
  keyed = record { ascending = tt; below = tt };
  exclusive = λ w d v. omega arith;
}

run-Safe_example : Safe (last_clock 0 calls) (run less calls empty)
unfolding clock
run-Safe_example =
    run-Safe less 0 calls empty
      (
        omega arith,
        (
          omega arith,
          (omega arith, (omega arith, (omega arith, (omega arith, (omega arith, tt))))),
        ),
      )
      empty-Safe

-- Another watch holds a live lease on the same destination and revision.
abbrev foreign : Draft
foreign = record (draft "e4") { watch_id = "x" }

unfoldable shared : Store
unfolding two_queued queued granted drafted
shared = granted (queued two_queued foreign) "t9" 50 (drafted 3 foreign)

shared-Keyed : Keyed shared
unfolding shared ids
shared-Keyed = record {
  ascending = ((omega arith, (omega arith, tt)), ((omega arith, tt), (tt, tt)));
  below = (omega arith, (omega arith, (omega arith, tt)));
}

abbrev due_stream : Stream
due_stream = record { watch_id = "w"; destination_id = "d"; last_turn = 1; active = true }

shared-Due : Due shared 20 (drafted 1 (draft "e1"))
unfolding shared two_queued queued granted drafted first claimable
shared-Due =
    Asked-Due shared 20 due_stream (drafted 1 (draft "e1")) shared-Keyed (here refl)
      record { active = refl; head = refl; eligible = refl }

claim-Due_example : gives (claim less shared 20 30 "t1") ≡ true
claim-Due_example =
    (claim-Due less shared 20 30 "t1" (omega arith) shared-Keyed).1
      (drafted 1 (draft "e1"), shared-Due)
