-- ===== src/Kernel/Requests/Examples.antt =====
-- A search request that says little, and an application of the theorem on its check.
use feishu_super_search.Prelude.{◌≡◌, refl, true, false, none, [], pos, negsuc, is_blank}
use feishu_super_search.Kernel.Requests.{SearchRequest, TextOps, request_defaults, validate_request}
use feishu_super_search.Kernel.Requests.Defaults.{is_ok, is_acceptable, validate_request-defaults}

abbrev ops : TextOps
ops = record { to_lower = λ s. s; digest = λ s. s }

abbrev request : SearchRequest
request = record {
  query = "q";
  source_queries = [];
  sources = [];
  filters = record {
    after = none;
    before = none;
    sender_ids = [];
    person_ids = [];
    chat_ids = [];
    doc_types = [];
    folder_tokens = [];
    space_ids = [];
    mine = false;
    completed = none;
    only_title = false;
    extra = [];
  };
  identity = record { profile = ""; mode = ""; scope_key = "" };
  limit = negsuc 4;
  limit_per_source = pos 0;
  budget = record {
    deadline_ms = pos 0;
    max_calls = pos 0;
    max_pages_per_source = pos 0;
    max_fetches = pos 0;
    max_expanded_nodes = pos 0;
    max_bytes = pos 0;
  };
  strategy = record {
    profile = " deep";
    fusion = "";
    pagination = "";
    source_quota = false;
    disable_source_quota = false;
    weights = [];
    quotas = [];
    k0 = 0;
  };
  session_id = "";
}

request-acceptable : is_acceptable ops request ≡ true
unfolding is_acceptable is_blank
request-acceptable = refl

validate_request-defaults_example :
    is_ok (validate_request (request_defaults ops request)) ≡ is_acceptable ops request
validate_request-defaults_example = validate_request-defaults ops request
