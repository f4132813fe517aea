-- ===== src/Engine/Search/Coherent.antt =====
-- searchOne: what the result of one page says of itself.
use feishu_super_search.Prelude.{
  String, ℕ, ℤ, suc, ◌≤◌, ◌≡◌, refl, sym, Bool, true, false, not, Option, none, some, List, [], ◌∷◌,
  length, ap, Option-cases, Bool-cases, inl, inr, arith,
}
use feishu_super_search.Kernel.Errors.{ErrorDetail, ErrorType}
use feishu_super_search.Kernel.Refs.{SourceId, ProviderId}
use feishu_super_search.Kernel.Objects.{Candidate}
use feishu_super_search.Kernel.Provider.{ProviderDescriptor}
use feishu_super_search.Kernel.Requests.{SearchRequest}
use feishu_super_search.Kernel.Snapshots.{SourceStatus}
use feishu_super_search.Registry.{Registry, for_operation}
use feishu_super_search.Engine.Access.{status_for_error, validate_provider_operation}
use feishu_super_search.Engine.Search.{
  PageResult, Reply, Answers, refusal, answered, status_of, label_all, provider_query, is_too_long,
  search_with, search_one,
}
use feishu_super_search.Engine.Search.Runs.{is_whole}

abbrev pub is_error {ℓ} : {A : Type ℓ} → Option A → Bool
is_error none = false
is_error (some _) = true

-- The status is ok or empty exactly if there is no error, which the run repeats.
pub record IsCoherent (source : SourceId) (r : PageResult) : Type 0 where
  pub same_source : (r.source ≡ source) × (r.run.source ≡ source)
  pub same_provider : r.run.provider_id ≡ r.provider
  pub same_error : r.run.error ≡ r.err
  pub whole : is_whole r.run.status ≡ not (is_error r.err)
  pub one_page : r.run.pages ≤ 1
  pub counted : r.run.hit_count ≡ length r.page.candidates

status_for_error-is_whole : (kind : ErrorType) → is_whole (status_for_error kind) ≡ false
unfolding status_for_error
status_for_error-is_whole kind = ground arith

refusal-IsCoherent :
    (source : SourceId) (provider : ProviderId) (status : SourceStatus) (e : ErrorDetail)
    → is_whole status ≡ false
    → IsCoherent source (refusal source provider status e)
refusal-IsCoherent source provider status e h = record {
  same_source = (refl, refl);
  same_provider = refl;
  same_error = refl;
  whole = h;
  one_page = omega arith;
  counted = refl;
}

status_of-is_whole : (reply : Reply) → is_whole (status_of reply) ≡ not (is_error reply.1)
status_of-is_whole (page, some d) = status_for_error-is_whole d.kind
status_of-is_whole (page, none) = ground arith

length-label_all :
    (source : SourceId) (provider : ProviderId) (cursor : String) (i : ℕ) (cs : List Candidate)
    → length (label_all source provider cursor i cs) ≡ length cs
unfolding label_all
length-label_all source provider cursor i [] = refl
length-label_all source provider cursor i (c ∷ cs) =
    ap suc (length-label_all source provider cursor (suc i) cs)

answered-IsCoherent :
    (source : SourceId) (provider : ProviderId) (cursor : String) (elapsed : ℤ) (reply : Reply)
    → IsCoherent source (answered source provider cursor elapsed reply)
answered-IsCoherent source provider cursor elapsed reply = record {
  same_source = (refl, refl);
  same_provider = refl;
  same_error = refl;
  whole = status_of-is_whole reply;
  one_page = omega arith;
  counted = sym (length-label_all source provider cursor 0 reply.0.candidates);
}

search_with-IsCoherent :
    (d : ProviderDescriptor) (req : SearchRequest) (a : Answers) (source : SourceId)
    (cursor : String)
    → IsCoherent source (search_with d req a source cursor)
unfolding search_with
search_with-IsCoherent d req a source cursor =
    elim (Option-cases (validate_provider_operation d "search" req.identity)) [
      | inr (e, refused) ↦
          rw (search_with, refused)
            (refusal-IsCoherent source d.id _ e (status_for_error-is_whole e.kind))
      | inl valid ↦ elim (Bool-cases a.implements) [
        | inr other ↦ rw (search_with, valid, other) (refusal-IsCoherent source d.id _ _ refl)
        | inl searcher ↦ elim (Bool-cases (is_too_long d (provider_query req source))) [
          | inl long ↦
              rw (search_with, valid, searcher, long) (refusal-IsCoherent source d.id _ _ refl)
          | inr short ↦ elim (Bool-cases a.reserved) [
            | inr spent ↦
                rw (search_with, valid, searcher, short, spent)
                  (refusal-IsCoherent source d.id _ _ refl)
            | inl paid ↦
                rw (search_with, valid, searcher, short, paid)
                  (answered-IsCoherent source d.id cursor a.elapsed _)
          ]
        ]
      ]
    ]

-- The result of a page of a source is coherent on every branch: it is of that source and its
-- run repeats its provider and its error, the status is ok or empty exactly if there is no
-- error, at most one page is counted, and the hits are the candidates of the page.
pub search_one-IsCoherent :
    (registry : Registry) (req : SearchRequest) (a : Answers) (source : SourceId) (cursor : String)
    → IsCoherent source (search_one registry req a source cursor)
unfolding search_one
search_one-IsCoherent registry req a source cursor =
    elim (Option-cases (for_operation source "search" registry)) [
      | inl absent ↦ rw (search_one, absent) (refusal-IsCoherent source "" _ _ refl)
      | inr (d, found) ↦ rw (search_one, found) (search_with-IsCoherent d req a source cursor)
    ]
