-- ===== src/Fusion/Identity.antt =====
-- Canonicalize of internal/fusion/fusion.go: the identity of what it returns.
use Prim.Native.String.{◌++◌ as cat, count as count_text}
use text.Mathlib.TextLemmas.{length-append}
use feishu_super_search.Prelude.{
  ap, eq_iff, String, ◌≡◌, refl, Bool, true, false, List, [], ◌∷◌, ℤ, pos, is_nonpos, trim_space,
  ◌==◌, if◌then◌else◌, arith, Bool-cases, inl, inr,
}
use feishu_super_search.Kernel.Objects.{Candidate, Discovery}
use feishu_super_search.Fusion.Canonical.{
  IdentityOps, kind_from_source, id_from_url, fingerprint, fill_text, fill_candidate, native_id_of,
  or_first, first_discovery, identify, canonicalize, IsCanonical,
}

fill_text-given : (s d : String) → (d == "") ≡ false → (fill_text s d == "") ≡ false
fill_text-given s d h = elim (Bool-cases (s == "")) [ inl e ↦ rw e h | inr e ↦ rw e e ]

kind_from_source-given : (s : String) → (kind_from_source s == "") ≡ false
unfolding kind_from_source
kind_from_source-given s = fill_kind (s == "docs") "document" _ refl (
    fill_kind (s == "messages") "message" _ refl (
      fill_kind (s == "chats") "chat" _ refl (
        fill_kind (s == "people") "person" _ refl (
          fill_kind (s == "minutes") "minute" _ refl (
            fill_kind (s == "meetings") "meeting" _ refl (
              fill_kind (s == "calendar") "event" _ refl (
                fill_kind (s == "tasks") "task" _ refl (
                  fill_kind (s == "mail") "mail" _ refl (
                    fill_kind (s == "base") "record" _ refl
                      (fill_kind (s == "sheets") "cell" "unknown" refl refl))))))))))
  where
    fill_kind :
        (b : Bool) (s d : String)
        → (s == "") ≡ false
        → (d == "") ≡ false
        → ((if b then s else d) == "") ≡ false
    fill_kind true s d h k = h
    fill_kind false s d h k = k

-- A text with a prefix is longer than the empty one.
prefixed : (s : String) → (cat "fp_" s == "") ≡ false
prefixed s = elim (Bool-cases (cat "fp_" s == "")) [
  | inr other ↦ other
  | inl same ↦
      let e : count_text (cat "fp_" s) ≡ count_text "" =
        ap count_text ((eq_iff (cat "fp_" s) "").0 same) in
      absurd (omega (arith, e, length-append "fp_" s))
]

fingerprint-given : (ops : IdentityOps) (c : Candidate) → (fingerprint ops c == "") ≡ false
unfolding fingerprint
fingerprint-given ops c = prefixed _

or_first-given :
    (ds : List Discovery) (c : Candidate) (rank : ℤ)
    → (or_first ds (first_discovery c rank) ≡ [])
    → ⊥
or_first-given [] c rank h = cc
or_first-given (d ∷ ds) c rank h = cc

identify-IsCanonical :
    (native scope : String) (c : Candidate)
    → (c.kind == "") ≡ false
    → (c.ref.kind == "") ≡ false
    → (c.ref.platform == "") ≡ false
    → (native == "") ≡ false
    → IsCanonical scope (identify native scope c)
unfolding identify
identify-IsCanonical native scope c kind ref_kind platform given =
    let rank = if is_nonpos c.native_rank then pos 1 else c.native_rank in
    record {
      kind = kind;
      ref_kind = ref_kind;
      platform = platform;
      native = given;
      scope_key = refl;
      canonical = refl;
      rank = ground arith;
      discovered = or_first-given c.discovered_by c rank;
    }

-- Every candidate leaves Canonicalize with a kind, a platform and a native id that are not
-- empty, the scope of the caller, the canonical id built of these, a positive rank and at least
-- one discovery.
pub canonicalize-IsCanonical :
    (ops : IdentityOps) (c : Candidate) (scope : String)
    → IsCanonical scope (canonicalize ops c scope)
unfolding canonicalize fill_candidate native_id_of
canonicalize-IsCanonical ops c scope =
    let kind =
      fill_text-given c.kind (kind_from_source c.source) (kind_from_source-given c.source) in
    identify-IsCanonical (native_id_of ops (fill_candidate c)) scope (fill_candidate c) kind
      (fill_text-given c.ref.kind _ kind) (fill_text-given c.ref.platform "feishu" refl)
      (fill_text-given
        (fill_text (trim_space (fill_candidate c).ref.native_id)
          (id_from_url ops (fill_candidate c).url))
        (fingerprint ops (fill_candidate c)) (fingerprint-given ops (fill_candidate c)))
