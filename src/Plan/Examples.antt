-- ===== src/Plan/Examples.antt =====
-- Instances of the theorems about the compiler of declarations.
use ding.Base.{length, ◌≤◌, List, String, ◌≡◌, refl, ◌*◌, [], ◌∷◌, some, ok}
use ding.Base.Int.{pos}
use ding.Plan.Binary.{durations, reads_back, prints}
use ding.Plan.Durations.{second, day_long, normal_duration}
use ding.Plan.Destination.{Destination, CompiledDestination, compile_destination}
use ding.Plan.Policy.{WatchPolicy, Limits, compile_policy, compile_limits}
use ding.Plan.Targets.{WatchTarget, compile_targets}
use ding.Plan.Clean.{Clean, compile_targets-Clean}
use ding.Plan.Groups.{compile_groups}
use ding.Plan.Sorted.{compile_groups-again}
use ding.Condition.Routing.{listed}
use ding.Plan.Kept.{compile_targets-again}
use ding.Plan.Again.{compile_destination-again}
use ding.Plan.Settled.{compile_policy-again}
use ding.Plan.Bounds.{Between, Supported, compile_policy-bounds, compile_limits-Supported}

abbrev digest : Destination → String
digest d = d.metadata.id

-- A webhook with one secret header and the default retries.
abbrev pager : Destination
pager = record {
  api_version = "ding.ing/v1alpha1";
  kind = "Destination";
  metadata = record { id = "pager"; name = "Pager" };
  spec = record {
    kind = "webhook";
    url_ref = some "PAGER_URL";
    headers = ("Authorization", "PAGER_TOKEN") ∷ [];
    max_attempts = pos 0;
    max_age = "";
    initial_backoff = "5s";
  };
}

abbrev compiled_pager : CompiledDestination
compiled_pager = record {
  definition = record pager {
    spec = record (pager.spec) {
      max_attempts = pos 8;
      max_age = durations.print day_long;
      initial_backoff = durations.print (5 * second);
    };
  };
  revision = "pager";
}

compile_destination-again_example :
    compile_destination durations digest compiled_pager.definition ≡ ok compiled_pager
unfolding compile_destination durations
compile_destination-again_example =
    compile_destination-again durations reads_back prints digest pager compiled_pager refl

-- A transition policy with the gap of a cadence of five seconds.
abbrev plain : WatchPolicy
plain = record {
  trigger = "";
  consecutive = pos 3;
  recover_after = pos 0;
  on_unknown = "";
  interval = "";
  max_gap = "";
}

abbrev compiled_plain : WatchPolicy
compiled_plain = record {
  trigger = "transition";
  consecutive = pos 3;
  recover_after = pos 1;
  on_unknown = "hold-incident";
  interval = "";
  max_gap = durations.print (10 * second);
}

compile_policy-again_example :
    compile_policy durations
      (normal_duration durations "5s")
      (normal_duration durations "")
      "gt"
      compiled_plain
    ≡ ok compiled_plain
unfolding compile_policy durations
compile_policy-again_example =
    compile_policy-again durations reads_back prints "5s" "" "gt" plain compiled_plain refl

compile_policy-bounds_example :
    Between 1 10000 compiled_plain.consecutive × Between 1 10000 compiled_plain.recover_after
unfolding compile_policy durations
compile_policy-bounds_example =
    compile_policy-bounds durations "5s" "" "gt" plain compiled_plain refl

abbrev unlimited : Limits
unlimited = record {
  max_entities = pos 0;
  max_samples = pos 0;
  max_bytes = pos 0;
  max_outputs = pos 7;
  idle_ttl = "";
}

abbrev limited : Limits
limited = record {
  max_entities = pos 1000;
  max_samples = pos 10000;
  max_bytes = pos 1048576;
  max_outputs = pos 7;
  idle_ttl = durations.print day_long;
}

compile_limits-Supported_example : Supported limited
unfolding compile_limits durations
compile_limits-Supported_example = compile_limits-Supported durations unlimited limited refl

-- Two destinations, out of order; the first takes the default events.
abbrev targets : List WatchTarget
targets =
    record { ref = "pager"; events = [] }
    ∷ record { ref = "desk"; events = "recovered" ∷ "firing" ∷ [] }
    ∷ []

abbrev compiled_targets : List WatchTarget
compiled_targets =
    record { ref = "desk"; events = "firing" ∷ "recovered" ∷ [] }
    ∷ record {
      ref = "pager";
      events =
          "changed" ∷ "firing" ∷ "new-event" ∷ "recovered" ∷ "source_error" ∷ "source_recovered"
          ∷ [];
    }
    ∷ []

compile_targets-Clean_example : Clean targets compiled_targets
unfolding compile_targets ding.Plan.Names.is_identifier
compile_targets-Clean_example = compile_targets-Clean (λ s. s) targets compiled_targets refl

-- The grouping fields of one watch, as declared and as compiled.
abbrev groups : List String
groups = "region" ∷ "host" ∷ []

abbrev compiled_groups : List String
compiled_groups = "host" ∷ "region" ∷ []

compile_groups-again_example :
    (compile_groups compiled_groups ≡ ok compiled_groups)
    × ((length compiled_groups ≤ 16) × ((k : String) → listed k compiled_groups ≡ listed k groups))
unfolding compile_groups ding.Plan.Names.is_field_name
compile_groups-again_example = compile_groups-again groups compiled_groups refl

compile_targets-again_example : compile_targets (λ s. s) compiled_targets ≡ ok compiled_targets
unfolding compile_targets ding.Plan.Names.is_identifier
compile_targets-again_example = compile_targets-again (λ s. s) targets compiled_targets refl
