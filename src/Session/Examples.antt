-- ===== src/Session/Examples.antt =====
-- A store with one session, and applications of the theorems to it.
use feishu_super_search.Prelude.{
  String, ℕ, ◌≡◌, refl, false, List, [], ◌∷◌, eqb, pos, arith, sort_by, sort_into, lookup, insert,
}
use feishu_super_search.Kernel.Snapshots.{RetrievalEvent}
use feishu_super_search.Session.{Record, SnapshotOps, new_record, snapshot, add_event, newest}
use feishu_super_search.Session.Memory.{
  MemoryStore, StoreCall, creating, getting, listing, new_memory_store, create, get, list,
  snapshots, cleanup_expired, sweep, run_store_call, run_store_calls,
}
use feishu_super_search.Session.Events.{HoldsNewest, add_events-HoldsNewest}
use feishu_super_search.Session.Expiry.{keep_calls, view, found}
use feishu_super_search.Session.Refinement.{get-run}

program : Unit {0}
unfolding new_record snapshot add_event newest new_memory_store create get list snapshots
    cleanup_expired sweep run_store_call run_store_calls lookup insert sort_by sort_into
program = tt

abbrev ops : SnapshotOps
ops = record { equal = eqb; greater = λ a b. false; clone = λ r. r }

abbrev event : String → RetrievalEvent
event id = record {
  id = id;
  session_id = "";
  kind = "node.started";
  time = 0;
  node_id = "";
  source = "docs";
  payload = "";
}

abbrev session : Record
session = new_record "rs_1" 10 "tenant" 100

abbrev two_events : List (String × ℕ × RetrievalEvent)
two_events = ("ev_1", 20, event "") ∷ ("ev_2", 21, event "given") ∷ []

add_events-HoldsNewest_example : HoldsNewest two_events session
add_events-HoldsNewest_example =
    add_events-HoldsNewest two_events session (unfold program in omega arith)

-- A session is made at 10, the sessions are listed at 500, and nothing answers at 600.
abbrev calls : List (ℕ × StoreCall)
calls = (10, creating "rs_1" "tenant") ∷ (20, getting "rs_1") ∷ (500, listing) ∷ []

abbrev store : MemoryStore
store = new_memory_store [] (pos 100)

swept : (run_store_calls ops calls store).records ≡ []
unfolding program
swept = refl

get-run_example :
    found (get 600 "rs_1" (run_store_calls ops calls store)).1
    ≡ view 600 "rs_1" (keep_calls ops calls store)
get-run_example =
    get-run ops 600 calls store "rs_1" (unfold program in tt) (unfold program in omega arith)
