-- ===== src/Kernel/Provider.antt =====
-- kernel/provider.go: what a provider says of itself. Operations are texts, as in the program.
use feishu_super_search.Prelude.{String, ℕ, ℤ, Bool, false, List, Dict, lookup, none, some}
use feishu_super_search.Kernel.Refs.{SourceId, ProviderId, ObjectKind}

abbrev pub Operation : Type 0
Operation = String

pub record SearchLimits : Type 0 where
  pub max_query_runes : ℤ
  pub max_page_size : ℤ
  pub max_pages : ℤ

-- `batch_limit` is `BatchLimits.MaxFetchItems`; the projections are sets of bits.
pub record ProviderDescriptor : Type 0 where
  pub id : ProviderId
  pub source : SourceId
  pub object_kinds : List ObjectKind
  pub operations : Dict Bool
  pub required_identity : List String
  pub required_scopes : List String
  pub search_limits : SearchLimits
  pub batch_limit : ℤ
  pub returned_projection : ℕ
  pub fetchable_projection : ℕ
  pub supports_pagination : Bool
  pub supports_streaming : Bool
  pub backend : String
  pub version : String

-- `d.Operations[op]`: a missing key reads as false.
unfoldable pub supports : ProviderDescriptor → Operation → Bool
supports d op = elim (lookup op d.operations) [ none ↦ false | some b ↦ b ]
