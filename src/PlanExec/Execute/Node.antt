-- ===== src/PlanExec/Execute/Node.antt =====
-- executeNode of internal/planexec/executor.go: one branch for each operation of a plan.
use feishu_super_search.Prelude.{
  String, ℤ, pos, is_nonpos, List, [], ◌∷◌, Dict, length, ◌==◌, if◌then◌else◌, Result, ok, err,
}
use feishu_super_search.Kernel.Plan.{
  PlanOp, resolve, search, query, fetch, expand, merge, dedup, rank, limit, project, map_fetch,
  other, PlanNode, RetrievalPlan, NodeResult,
}
use feishu_super_search.Kernel.Requests.{
  SearchRequest, QueryRequest, FetchRequest, FetchBatchRequest, ExpandRequest,
}
use feishu_super_search.PlanValidate.NodeRequest.{SearchNode}
use feishu_super_search.PlanExec.Execute.{
  Services, Executed, base_result, failed_result, after_search, after_query, after_fetch,
  after_expand, after_resolve, merge_deps, dep_candidates, dep_artifacts, dep_relations, at_most,
  map_fetch_items,
}

-- `if err := json.Unmarshal(...); err != nil { return failed(...) }`
abbrev pub on_request : {A : Type 0} → String → String → Result String A → (A → Executed) → Executed
on_request id session (err message) k = (failed_result id message, session)
on_request id session (ok request) k = k request

abbrev pub node_search_request : RetrievalPlan → String → SearchNode → SearchRequest
node_search_request plan session raw = record {
  query = raw.query;
  source_queries = raw.source_queries;
  sources = if raw.source == "" then raw.sources else raw.source ∷ [];
  filters = raw.filters;
  identity = plan.identity;
  limit = raw.limit;
  limit_per_source = raw.limit_per_source;
  budget = plan.budget;
  strategy = raw.strategy;
  session_id = session;
}

abbrev pub default_top : ℤ → ℤ
default_top k = if is_nonpos k then pos 20 else k

module _ (plan : RetrievalPlan) (session : String) where
  -- The identity, the session and the budget of the plan.
  abbrev pub query_request : QueryRequest → QueryRequest
  query_request r = record r {
    identity = plan.identity;
    session_id = session;
    budget = plan.budget;
  }

  abbrev pub batch_request : FetchBatchRequest → FetchBatchRequest
  batch_request r = record r {
    identity = plan.identity;
    session_id = session;
    budget = plan.budget;
  }

  abbrev pub expand_request : ExpandRequest → ExpandRequest
  expand_request r = record r {
    identity = plan.identity;
    session_id = session;
    budget = plan.budget;
  }

  abbrev pub items_request : List FetchRequest → FetchBatchRequest
  items_request items = record {
    session_id = session;
    identity = plan.identity;
    items = items;
    budget = plan.budget;
  }

module _ (s : Services) (plan : RetrievalPlan) (node : PlanNode) (deps : Dict NodeResult)
    (session : String) where
  unfoldable pub execute_op : PlanOp → Executed
  execute_op search =
      on_request node.id session (s.search_node node.request)
        λ r. after_search node.id (s.do_search (node_search_request plan session r))
  execute_op query =
      on_request node.id session (s.query_node node.request)
        λ r. after_query node.id (s.do_query (query_request plan session r))
  execute_op fetch =
      on_request node.id session (s.fetch_node node.request)
        λ r. after_fetch node.id (s.do_fetch (batch_request plan session r))
  execute_op expand =
      on_request node.id session (s.expand_node node.request)
        λ r. after_expand node.id (s.do_expand (expand_request plan session r))
  execute_op resolve =
      on_request node.id session (s.resolve_node node.request)
        λ r. after_resolve node.id session (s.do_resolve (record r { identity = plan.identity }))
  execute_op merge = (merge_deps deps (base_result node.id), session)
  execute_op dedup = (
    record (base_result node.id) { candidates = s.dedup_all (dep_candidates deps) plan.identity },
    session,
  )
  execute_op rank =
      let r = s.rank_node node.request in
      let cands = dep_candidates deps in
      (
        record (base_result node.id) {
          candidates =
              s.fuse
                (record r { limit = if is_nonpos r.limit then pos (length cands) else r.limit })
                cands plan.identity;
        },
        session,
      )
  execute_op limit =
      let top = default_top (s.top_k node.request) in
      (
        record (base_result node.id) {
          candidates = at_most top (dep_candidates deps);
          artifacts = at_most top (dep_artifacts deps);
        },
        session,
      )
  execute_op project = (
    record (base_result node.id) {
      candidates = dep_candidates deps;
      artifacts = dep_artifacts deps;
      relations = dep_relations deps;
    },
    session,
  )
  execute_op map_fetch = on_request node.id session (s.map_fetch_node node.request) λ r.
      after_fetch node.id (s.do_fetch (items_request plan session (map_fetch_items node r deps)))
  -- The message is left without the quoted name of the operation.
  execute_op (other op) = (failed_result node.id "unsupported plan op", session)

  unfoldable pub execute_node : Executed
  execute_node = execute_op node.op
