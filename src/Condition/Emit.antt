-- ===== src/Condition/Emit.antt =====
-- internal/condition/transition.go: the closure `emit` of `Evaluate` and `messageWriter`. The key of
-- an event is the entity of the state, which `Evaluate` sets before it emits anything.
pub mod Evidence
use Prim.Native.String.{len, ◌++◌ as append}
use ding.Base.{
  ℕ, ◌+◌, String, Bool, true, false, ◌&&◌, ◌||◌, Option, none, some, List, [], ◌∷◌, ◌++◌, ltb, ◌==◌,
  if◌then◌else◌, Result, ok, err, ◌>>=◌,
}
use ding.Watch.{
  Value, null, Fields, lookup, json_copy_fields, Observation, Kind, firing, recovered, changed,
  new_event, Event,
}
use ding.Condition.Model.{Sample, State, Evaluator, Runtime}

abbrev pub message_limit : ℕ
message_limit = 65536

-- `messageWriter.Write` on the text of the buffer.
unfoldable pub write : String → String → Result String
write buffer p =
    if ltb message_limit (len buffer + len p)
    then err "rendered message exceeds limit"
    else ok (append buffer p)

-- The writes of a template; the first that fails ends it.
unfoldable pub write_all : String → List String → Result String
write_all buffer [] = ok buffer
write_all buffer (p ∷ ps) = elim (write buffer p) [
  | err e ↦ err e
  | ok buffer' ↦ write_all buffer' ps
]

abbrev has_template : Kind → Bool
has_template firing = true
has_template recovered = true
has_template changed = true
has_template new_event = true
has_template _ = false

abbrev pub is_incident : Kind → Bool
is_incident firing = true
is_incident recovered = true
is_incident _ = false

unfoldable pub contains : ℕ → List ℕ → Bool
contains n [] = false
contains n (x ∷ xs) = (x == n) || contains n xs

-- `add` in `emit`.
add_once : List ℕ → ℕ → List ℕ
unfolding contains
add_once xs n = if contains n xs then xs else xs ++ (n ∷ [])

unfoldable pub add_all : List ℕ → List ℕ → List ℕ
unfolding add_once
add_all xs [] = xs
add_all xs (n ∷ ns) = add_all (add_once xs n) ns

insert_sorted : ℕ → List ℕ → List ℕ
insert_sorted n [] = n ∷ []
insert_sorted n (x ∷ xs) = let rest = x ∷ insert_sorted n xs in if ltb n x then n ∷ x ∷ xs else rest

unfoldable pub sort : List ℕ → List ℕ
unfolding insert_sorted
sort [] = []
sort (x ∷ xs) = insert_sorted x (sort xs)

sample_sequences : {F : Type 0} → List (Sample F) → List ℕ
sample_sequences [] = []
sample_sequences (x ∷ xs) = x.sequence ∷ sample_sequences xs

unfoldable pub is_set : {A : Type 0} → Option A → Bool
is_set none = false
is_set (some a) = true

module _ {F : Type 0} (rt : Runtime F) (ev : Evaluator F) (o : Observation F) where
  open rt use {floats, identity, execute}

  condition_value : Value F
  condition_value = elim (lookup ev.field o.fields) [ none ↦ null | some v ↦ v ]

  rendered : Kind → Result String
  unfolding condition_value
  rendered kind =
      let (chunks, completed) = execute kind condition_value o.fields in
      write_all "" chunks >>= (λ text.
        if completed
        then if ltb message_limit (len text) then err "rendered message exceeds limit" else ok text
        else err "message template execution failed")

  unfoldable pub message_of : Kind → String → Result String
  unfolding rendered
  message_of kind reason = if ev.has_message && has_template kind then rendered kind else ok reason

  missing_evidence : Kind → State F → List ℕ
  unfolding is_set
  missing_evidence kind s =
      if is_set ev.missing_for && ltb 0 s.fresh_sequence then s.fresh_sequence ∷ [] else []

  unfoldable pub incident_evidence : Kind → State F → List ℕ
  unfolding missing_evidence sample_sequences
  incident_evidence kind s =
      if is_incident kind then missing_evidence kind s ++ sample_sequences s.samples else []

  unfoldable pub evidence_of : Kind → State F → List ℕ
  unfolding incident_evidence
  evidence_of kind s =
      sort (add_all [] (incident_evidence kind s ++ (s.evidence ++ (o.sequence ∷ []))))

  unfoldable pub event_id : Kind → State F → String
  event_id kind s = identity ev.watch_id ev.revision s.entity kind o.sequence

  event_of : ℕ → Kind → State F → String → Fields F → Event F
  unfolding evidence_of event_id
  event_of now kind s message fields = record {
    id = event_id kind s;
    watch_id = ev.watch_id;
    revision = ev.revision;
    entity = s.entity;
    kind = kind;
    at = now;
    message = message;
    fields = fields;
    evidence = evidence_of kind s;
  }

  copied : Result (Fields F)
  copied = elim (json_copy_fields floats o.fields) [ none ↦ err "json" | some f ↦ ok f ]

  -- The event that `emit` appends.
  unfoldable pub emit : ℕ → Kind → String → State F → Result (Event F)
  unfolding event_of copied
  emit now kind reason s = do
    message ← message_of kind reason
    fields ← copied
    ok (event_of now kind s message fields)
