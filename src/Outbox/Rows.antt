-- ===== src/Outbox/Rows.antt =====
-- The tables that the outbox keeps: outbox, delivery_streams, delivery_attempts and the backoff
-- keys of metadata, and the statements on single tables.
use ding.Base.{
  ℕ, suc, String, Bool, true, false, ◌&&◌, ◌||◌, List, [], ◌∷◌, ◌++◌, Option, none, some, ltb, ◌==◌,
  str_eq, if◌then◌else◌, max,
}

pub data Status : Type 0 where
  pending leased delivered permanent exhausted canceled : Status

-- A row of outbox. Times are nanoseconds of the Unix epoch and 0 is no time.
pub record Row : Type 0 where
  pub id : ℕ
  pub event_id : String
  pub watch_id : String
  pub destination_id : String
  pub revision : String
  pub payload : String
  pub status : Status
  pub attempts : ℕ
  pub next_at : ℕ
  pub created_at : ℕ
  pub lease_token : String
  pub lease_until : ℕ
  pub last_error : String
  pub retry_started_at : ℕ

pub record Stream : Type 0 where
  pub watch_id : String
  pub destination_id : String
  pub last_turn : ℕ
  pub active : Bool

pub record Backoff : Type 0 where
  pub destination_id : String
  pub revision : String
  pub until : ℕ

pub record Attempt : Type 0 where
  pub outbox_id : ℕ
  pub attempt : ℕ
  pub at : ℕ
  pub outcome : String
  pub detail : String

pub record Store : Type 0 where
  pub rows : List Row
  pub streams : List Stream
  pub backoffs : List Backoff
  pub log : List Attempt
  pub next_id : ℕ

abbrev pub is_live : Status → Bool
is_live pending = true
is_live leased = true
is_live _ = false

abbrev pub is_leased : Status → Bool
is_leased leased = true
is_leased _ = false

abbrev pub is_pending : Status → Bool
is_pending pending = true
is_pending _ = false

-- A row of the stream of a watch and a destination.
abbrev pub in_stream : String → String → Row → Bool
in_stream w d r = str_eq r.watch_id w && str_eq r.destination_id d

abbrev pub live_in : String → String → Row → Bool
live_in w d r = is_live r.status && in_stream w d r

-- The row is leased beyond `now`, for a watch and a revision of a destination.
abbrev pub holds : String → String → String → ℕ → Row → Bool
holds w d v now r =
    (is_leased r.status && ltb now r.lease_until) && (in_stream w d r && str_eq r.revision v)

unfoldable pub any {ℓ} : {A : Type ℓ} → (A → Bool) → List A → Bool
any p [] = false
any p (x ∷ xs) = p x || any p xs

unfoldable pub first {ℓ} : {A : Type ℓ} → (A → Bool) → List A → Option A
first p [] = none
first p (x ∷ xs) = let rest = first p xs in if p x then some x else rest

-- The row of a primary key.
unfoldable pub by_id : ℕ → List Row → Option Row
unfolding first
by_id n rows = first (λ r. r.id == n) rows

-- UPDATE of the row of a primary key.
unfoldable pub update : ℕ → (Row → Row) → List Row → List Row
update n f [] = []
update n f (r ∷ rows) = let rest = update n f rows in (if r.id == n then f r else r) ∷ rest

unfoldable pub last_turn : List Stream → ℕ
last_turn [] = 0
last_turn (s ∷ streams) = max s.last_turn (last_turn streams)

abbrev pub of_stream : String → String → Stream → Bool
of_stream w d s = str_eq s.watch_id w && str_eq s.destination_id d

unfoldable pub set_stream : String → String → (Stream → Stream) → List Stream → List Stream
set_stream w d f [] = []
set_stream w d f (s ∷ streams) =
    let rest = set_stream w d f streams in (if of_stream w d s then f s else s) ∷ rest

-- The triggers stream_enqueue and stream_retry.
unfoldable pub activate : String → String → List Stream → List Stream
unfolding any set_stream last_turn
activate w d streams =
    if any (of_stream w d) streams
    then set_stream w d (λ s. record s { active = true }) streams
    else streams
      ++ (record {
        watch_id = w;
        destination_id = d;
        last_turn = suc (last_turn streams);
        active = true;
      }
          ∷ [])

-- The trigger stream_finish, after a row of the stream left the live statuses.
unfoldable pub settle : List Row → String → String → List Stream → List Stream
unfolding any set_stream
settle rows w d streams = set_stream w d (λ s. record s { active = any (live_in w d) rows }) streams

-- qDeliveryTurn: the stream goes behind every other one.
unfoldable pub take_turn : String → String → List Stream → List Stream
unfolding set_stream last_turn
take_turn w d streams =
    set_stream w d (λ s. record s { last_turn = suc (last_turn streams) }) streams

-- qDeliveryBackoff: a backoff is never shortened.
unfoldable pub back_off : String → String → ℕ → List Backoff → List Backoff
back_off d v until [] = record { destination_id = d; revision = v; until = until } ∷ []
back_off d v until (b ∷ backoffs) =
    let rest = back_off d v until backoffs in
    if str_eq b.destination_id d && str_eq b.revision v
    then record b { until = max b.until until } ∷ backoffs
    else b ∷ rest

unfoldable pub is_backed_off : String → String → ℕ → List Backoff → Bool
unfolding any
is_backed_off d v now backoffs =
    any (λ b. (str_eq b.destination_id d && str_eq b.revision v) && ltb now b.until) backoffs
