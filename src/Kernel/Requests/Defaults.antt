-- ===== src/Kernel/Requests/Defaults.antt =====
-- The defaults of a search request, and the check that follows them.
use feishu_super_search.Prelude.{
  String, ℕ, ℤ, ◌≡◌, refl, ◌∙◌, Bool, true, false, not, ◌&&◌, ◌||◌, is_neg, ◌==◌, arith, Bool-cases,
  inl, inr, if◌then◌else◌, trim_space, is_blank, Result, ok, err, refuse, ◌>>◌,
}
use feishu_super_search.Kernel.Limits.{or_default}
use feishu_super_search.Kernel.Requests.{
  SearchRequest, TextOps, strategy_defaults, request_defaults, validate_request, profile_of,
  is_profile, is_pagination, or_text,
}

abbrev pub is_ok {ℓ} : {E A : Type ℓ} → Result E A → Bool
is_ok (ok _) = true
is_ok (err _) = false

abbrev pub lowered : TextOps → String → String
lowered ops s = ops.to_lower (trim_space s)

-- What a request must say for itself; the limits may be anything.
unfoldable pub is_acceptable : TextOps → SearchRequest → Bool
is_acceptable ops r =
    not (is_blank r.query)
    && (lowered ops r.strategy.profile == "" || is_profile (lowered ops r.strategy.profile))
    && (r.strategy.fusion == "" || r.strategy.fusion == "weighted_rrf")
    && (r.strategy.pagination == "" || is_pagination r.strategy.pagination)

or_default-not_neg : (x : ℤ) (d : ℕ) → is_neg (or_default x d) ≡ false
or_default-not_neg x d = ground arith

profile-after : (p : String) → is_profile (or_text p "balanced") ≡ p == "" || is_profile p
profile-after p = elim (Bool-cases (p == "")) [ inl e ↦ rw e refl | inr e ↦ rw e refl ]

fusion-after :
    (f : String) → (or_text f "weighted_rrf" == "weighted_rrf") ≡ f == "" || f == "weighted_rrf"
fusion-after f = elim (Bool-cases (f == "")) [ inl e ↦ rw e refl | inr e ↦ rw e refl ]

pagination-after :
    (fast : Bool) (p : String)
    → is_pagination (or_text p (if fast then "none" else "adaptive")) ≡ p == "" || is_pagination p
pagination-after true p = elim (Bool-cases (p == "")) [ inl e ↦ rw e refl | inr e ↦ rw e refl ]
pagination-after false p = elim (Bool-cases (p == "")) [ inl e ↦ rw e refl | inr e ↦ rw e refl ]

-- The check of five tests in a row.
five :
    {E : Type 0} (a b c d e : Bool) (u v w x y : E)
    → is_ok (refuse a u >> (refuse b v >> (refuse c w >> (refuse d x >> refuse e y))))
      ≡ not a && (not b && (not c && (not d && not e)))
five a b c d e u v w x y = ground arith

all_five :
    (a : Bool) {b c d e c' d' e' : Bool}
    → b ≡ false
    → c ≡ c'
    → d ≡ d'
    → e ≡ e'
    → (not a && (not b && (not (not c) && (not (not d) && not (not e))))) ≡ not a && c' && d' && e'
all_five a p q r s = ground arith

-- With its defaults filled in, a search request is valid exactly if its query is not blank, and
-- its profile (trimmed and in lower case), its fusion and its pagination are each empty or a
-- supported one; its limits do not matter.
pub validate_request-defaults :
    (ops : TextOps) (r : SearchRequest)
    → is_ok (validate_request (request_defaults ops r)) ≡ is_acceptable ops r
unfolding validate_request request_defaults strategy_defaults is_acceptable
validate_request-defaults ops r =
    let q = request_defaults ops r in
    let name = or_text (lowered ops r.strategy.profile) "balanced" in
    five (is_blank r.query) (is_neg q.limit || is_neg q.limit_per_source)
      (not (is_profile q.strategy.profile)) (not (q.strategy.fusion == "weighted_rrf"))
      (not (is_pagination q.strategy.pagination)) _ _ _ _ _
    ∙ all_five (is_blank r.query)
        (ground (
          arith,
          or_default-not_neg r.limit (profile_of name).limit,
          or_default-not_neg r.limit_per_source (profile_of name).limit_per_source,
        ))
        (profile-after (lowered ops r.strategy.profile)) (fusion-after r.strategy.fusion)
        (pagination-after (name == "fast") r.strategy.pagination)
