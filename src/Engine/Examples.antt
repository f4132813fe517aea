-- ===== src/Engine/Examples.antt =====
-- Applications of the theorems about the engine to concrete inputs.
use feishu_super_search.Prelude.{
  String, ℕ, ◌≡◌, refl, false, none, some, List, [], ◌∷◌, pos, lookup, insert, ◌≤◌, All, count, eqb,
  sort_by, sort_into,
}
use feishu_super_search.Kernel.Refs.{Identity, normalized}
use feishu_super_search.Kernel.Refs.{ObjectRef}
use feishu_super_search.Kernel.Objects.{Artifact}
use feishu_super_search.Kernel.Projection.{union}
use feishu_super_search.Kernel.Requests.{FetchRequest}
use feishu_super_search.Session.{new_record, SnapshotOps}
use feishu_super_search.Session.Memory.{MemoryStore, create, new_memory_store}
use feishu_super_search.Engine.Access.{
  delete_session, ordered_sources, distinct_sources, get_or_create_session, sessions,
}
use feishu_super_search.Engine.Access.Isolation.{
  caller, delete_session-others, IsOwn, sessions-IsOwn,
}
use feishu_super_search.Engine.Flights.{
  Flight, FlightGroup, no_flights, acquire, close_flight, here, next, acquires, closes, delivered,
  flying, closed,
}
use feishu_super_search.Engine.Flights.Sharing.{acquire_joins}
use feishu_super_search.Engine.Flights.Outcomes.{Waits-agree}
use feishu_super_search.Engine.Fetch.{
  ProviderFetchRequest, fetch_key, group_items, read_items, dedup_fetch_items, is_identified, pick,
  match_identified, match_in_order, unused, match_positions, artifacts_at, match_batch_artifacts,
}
use feishu_super_search.Engine.Fetch.Grouping.{new_keys, by_keys, dedup_fetch_items-by_keys}
use feishu_super_search.Engine.Fetch.Matching.{Fits, is_at, match_positions-Fits}

program : Unit {0}
unfolding new_record create new_memory_store normalized lookup insert acquire close_flight union
    sort_by sort_into ordered_sources distinct_sources fetch_key group_items read_items
    dedup_fetch_items is_identified pick match_identified match_in_order unused match_positions
    artifacts_at match_batch_artifacts
program = tt

abbrev stranger : Identity
stranger = record { profile = "p"; mode = "user"; scope_key = "other" }

abbrev store : MemoryStore
store = (create "rs_1" 10 "tenant" (new_memory_store [] (pos 100))).0

delete_session-others_example :
    lookup "rs_1" (delete_session (λ s. s) 20 "rs_1" stranger store).0.records ≡ some 0
delete_session-others_example =
    delete_session-others (λ s. s) stranger 20 "rs_1" "rs_1" store 0 (unfold program in refl)
      (unfold program in refl) (unfold program in λ e. cc e)

abbrev lone : FlightGroup String
lone = (acquire "key" no_flights).0

abbrev landed : FlightGroup String
landed = close_flight 0 "value" lone

acquire_joins_example : acquire "key" lone ≡ (lone, 0, false)
acquire_joins_example =
    acquire_joins "key" {f = record { key = "key"; phase = flying; outcome = none }}
      (next here (acquires "key")) (unfold program in refl) refl refl

abbrev landed_flight : Flight String
landed_flight = record { key = "key"; phase = closed; outcome = some "value" }

Waits-agree_example : ◌≡◌ {A = String} "value" "value"
Waits-agree_example =
    Waits-agree {g = landed} {h = landed} {p = 0}
      (next (next here (acquires "key")) (closes 0 "value")) here
      (delivered landed_flight "value" (unfold program in refl) refl)
      (delivered landed_flight "value" (unfold program in refl) refl)

abbrev ops : SnapshotOps
ops = record { equal = eqb; greater = λ a b. false; clone = λ r. r }

sessions-IsOwn_example :
    IsOwn
      (caller (λ s. s) stranger)
      (get_or_create_session (λ s. s) "rs_2" 20 "rs_1" stranger store)
    × All
        (λ snap. snap.scope_key ≡ caller (λ s. s) stranger)
        (sessions (λ s. s) ops 20 stranger store).1
sessions-IsOwn_example = sessions-IsOwn (λ s. s) stranger ops 20 "rs_2" "rs_1" store

ordered : ordered_sources ("mail" ∷ "docs" ∷ "" ∷ "mail" ∷ []) ≡ "docs" ∷ "mail" ∷ []
unfolding program
ordered = refl

abbrev ref : String → ObjectRef
ref id = record {
  platform = "feishu";
  scope_key = "tenant";
  kind = "document";
  native_id = "";
  canonical_id = id;
  provider_id = "p";
  source = "docs";
  url = "";
}

abbrev item : String → ℕ → FetchRequest
item id projection = record { ref = ref id; projection = projection }

abbrev items : List FetchRequest
items = item "a" 1 ∷ item "b" 2 ∷ item "a" 16 ∷ []

grouped : dedup_fetch_items items ≡ item "a" 17 ∷ item "b" 2 ∷ []
unfolding program
grouped = refl

dedup_fetch_items-by_keys_example :
    dedup_fetch_items items ≡ by_keys (new_keys items (λ _. false)) items
dedup_fetch_items-by_keys_example = dedup_fetch_items-by_keys items

abbrev provider_request : String → ProviderFetchRequest
provider_request id = record {
  ref = ref id;
  projection = 1;
  identity = stranger;
  session_id = "rs_1";
}

abbrev artifact : String → Artifact
artifact id = record {
  ref = ref id;
  projection = 1;
  metadata = none;
  chunks = [];
  summary = none;
  relations = [];
  attachments = [];
  version = "";
  provenance = record {
    provider_id = "p";
    backend = "";
    operation = "";
    retrieved_at = 0;
    source_rank = pos 0;
    raw_ref = none;
  };
}

abbrev requests : List ProviderFetchRequest
requests = provider_request "a" ∷ provider_request "b" ∷ []

-- The provider answers in the other order.
swapped : match_positions requests (artifact "b" ∷ artifact "a" ∷ []) ≡ some 1 ∷ some 0 ∷ []
unfolding program
swapped = refl

-- An artifact that says it is another object is taken for the one that was asked for.
mislabelled :
    match_batch_artifacts (provider_request "a" ∷ []) (artifact "b" ∷ []) ≡ some (artifact "b") ∷ []
unfolding program
mislabelled = refl

match_positions-Fits_example :
    Fits 0 requests (artifact "b" ∷ []) (match_positions requests (artifact "b" ∷ []))
    × (count (is_at 0) (match_positions requests (artifact "b" ∷ [])) ≤ 1)
match_positions-Fits_example = match_positions-Fits requests (artifact "b" ∷ []) 0
