-- ===== src/Kernel/Projection.antt =====
-- kernel/projection.go: sets of projections as bits, their names, and the parser of the names.
pub mod RoundTrip
pub mod Examples
use Prim.Native.Nat.{bit_or, bit_and, bit_xor}
use feishu_super_search.Prelude.{
  String, ℕ, Bool, not, none, some, List, [], ◌∷◌, lookup, eqb, ◌==◌, if◌then◌else◌, trim_space,
  Result, ok, err,
}

abbrev pub projection_names : List (String × ℕ)
projection_names =
    ("head", 1)
    ∷ ("snippet", 2)
    ∷ ("summary", 4)
    ∷ ("structure", 8)
    ∷ ("content", 16)
    ∷ ("context", 32)
    ∷ ("relations", 64)
    ∷ ("attachments", 128)
    ∷ []

-- ProjectionSet.Has, Any, Union, Intersect, Missing and Empty.
unfoldable pub has_bits : ℕ → ℕ → Bool
has_bits p bits = eqb (bit_and p bits) bits

unfoldable pub any_bits : ℕ → ℕ → Bool
any_bits p bits = not (eqb (bit_and p bits) 0)

unfoldable pub union : ℕ → ℕ → ℕ
union p other = bit_or p other

unfoldable pub intersect : ℕ → ℕ → ℕ
intersect p other = bit_and p other

-- `p &^ have`
unfoldable pub missing_bits : ℕ → ℕ → ℕ
missing_bits p have = bit_xor p (bit_and p have)

unfoldable pub no_bits : ℕ → Bool
no_bits p = eqb p 0

module _ (to_lower : String → String) where
  -- The loop of ParseProjectionSet, on the bits found so far; the error is the unknown text.
  unfoldable pub parse_from : List String → ℕ → Result String ℕ
  unfolding union
  parse_from [] out = ok out
  parse_from (raw ∷ values) out =
      let v = to_lower (trim_space raw) in
      let blank = parse_from values out in
      let found : Result String ℕ = elim (lookup v projection_names) [
        | none ↦ err raw
        | some bit ↦ parse_from values (union out bit)
      ] in
      if v == "" then blank else found

  unfoldable pub parse_projection_set : List String → Result String ℕ
  parse_projection_set values = parse_from values 0

-- The loop of ProjectionSet.Strings.
unfoldable pub names_in : ℕ → List (String × ℕ) → List String
unfolding any_bits
names_in p [] = []
names_in p ((name, bit) ∷ items) =
    let rest = names_in p items in if any_bits p bit then name ∷ rest else rest

unfoldable pub strings : ℕ → List String
strings p = names_in p projection_names
