-- ===== src/Fusion/Examples.antt =====
-- Small lists of candidates, hints and discoveries, and applications of the theorems to them.
use feishu_super_search.Prelude.{
  trim_space, chars, from_chars, some, ℕ, ◌≤◌, ◌+◌, String, ◌≡◌, refl, true, none, List, [], ◌∷◌,
  pos, length, count, any, All, lookup, insert, arith, Dict, ℤ,
}
use feishu_super_search.Kernel.Objects.{Candidate, RelationHint, Discovery}
use feishu_super_search.Fusion.Canonical.{
  IdentityOps, canonicalize, fill_candidate, native_id_of, identify, id_from_url, last_segment,
  last_part, drop_slashes, IsCanonical,
}
use feishu_super_search.Fusion.Identity.{canonicalize-IsCanonical}
use feishu_super_search.Fusion.Selection.{
  count_at, quota_at, effective_limit, effective_quota, split, select_by_quota,
}
use feishu_super_search.Fusion.Quotas.{is_from, returned, split-quota, length-select_by_quota}
use feishu_super_search.Fusion.Hints.{hint_key, keep_unseen, merge_hints}
use feishu_super_search.Fusion.Discoveries.{
  discovery_key, improve, best_of, sort_in, sort_texts, values_at, merge_discoveries,
  covers_discovery,
}
use feishu_super_search.Fusion.Best.{merge_discoveries-covers}

program : Unit {0}
unfolding count_at quota_at effective_limit effective_quota split select_by_quota hint_key
    keep_unseen merge_hints discovery_key improve best_of sort_in sort_texts values_at
    merge_discoveries lookup insert
program = tt

abbrev make_candidate : String → String → Candidate
make_candidate source id = record {
  ref = record {
    platform = "feishu";
    scope_key = "s";
    kind = "document";
    native_id = id;
    canonical_id = id;
    provider_id = "p";
    source = source;
    url = "";
  };
  source = source;
  kind = "document";
  title = id;
  snippet = "";
  url = "";
  timestamp = none;
  actors = [];
  container = none;
  native_rank = pos 1;
  native_score = none;
  fused_score = 0;
  projection = 1;
  available_projection = 1;
  relation_hints = [];
  discovered_by = [];
  provenance = record {
    provider_id = "p";
    backend = "b";
    operation = "search";
    retrieved_at = 0;
    source_rank = pos 1;
    raw_ref = none;
  };
}

abbrev ops : IdentityOps
ops = record { to_lower = λ s. s; path = λ s. some s; digest = λ s. s }

-- A candidate that names itself by its address alone.
abbrev bare : Candidate
bare = record (make_candidate "docs" "") { kind = ""; url = "/docx/abc/"; native_rank = pos 0 }

bare-named : (canonicalize ops bare "u").ref.native_id ≡ "abc"
unfolding canonicalize fill_candidate native_id_of identify id_from_url last_segment last_part
    drop_slashes trim_space chars from_chars
bare-named = refl

canonicalize-IsCanonical_example : IsCanonical "u" (canonicalize ops bare "u")
canonicalize-IsCanonical_example = canonicalize-IsCanonical ops bare "u"

abbrev items : List Candidate
items =
    make_candidate "docs" "d1"
    ∷ make_candidate "docs" "d2"
    ∷ make_candidate "docs" "d3"
    ∷ make_candidate "mail" "m1"
    ∷ []

abbrev quotas : Dict ℤ
quotas = ("docs", pos 1) ∷ []

-- The mail passes the second and third document, and the first of them fills the place left.
selected-three :
    select_by_quota (pos 3) quotas items
    ≡ make_candidate "docs" "d1" ∷ make_candidate "mail" "m1" ∷ make_candidate "docs" "d2" ∷ []
unfolding program
selected-three = refl

length-select_by_quota_example :
    length (select_by_quota (pos 3) quotas items) ≡ returned (pos 3) (length items)
length-select_by_quota_example = length-select_by_quota (pos 3) quotas items

split-quota_example :
    count (is_from "docs") (split 3 quotas items [] 0).0 + count_at "docs" []
    ≤ effective_quota 3 quotas "docs"
split-quota_example = split-quota 3 quotas "docs" items [] 0 (unfold program in omega arith)

abbrev hint : String → RelationHint
hint id = record { kind = "reply"; target_kind = "message"; target_id = id }

abbrev discovery : String → ℕ → Discovery
discovery source rank = record {
  provider_id = "p";
  source = source;
  rank = pos rank;
  score = none;
  cursor = "";
}

merged-sorted :
    merge_discoveries (discovery "mail" 3 ∷ discovery "docs" 2 ∷ []) (discovery "mail" 1 ∷ [])
    ≡ discovery "docs" 2 ∷ discovery "mail" 1 ∷ []
unfolding program
merged-sorted = refl

merge_discoveries-covers_example :
    All
      (λ x.
        any
          (covers_discovery x)
          (merge_discoveries (discovery "mail" 3 ∷ []) (discovery "mail" 1 ∷ []))
        ≡ true)
      (discovery "mail" 3 ∷ discovery "mail" 1 ∷ [])
merge_discoveries-covers_example =
    merge_discoveries-covers (discovery "mail" 3 ∷ []) (discovery "mail" 1 ∷ [])
