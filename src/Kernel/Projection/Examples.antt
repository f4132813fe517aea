-- ===== src/Kernel/Projection/Examples.antt =====
-- A set of projections, and its names read back.
use feishu_super_search.Prelude.{◌≡◌, refl, [], ◌∷◌, ok, err, arith, lookup, trim_space}
use feishu_super_search.Kernel.Projection.{
  parse_from, parse_projection_set, strings, names_in, any_bits, has_bits, missing_bits, union,
}
use feishu_super_search.Kernel.Projection.RoundTrip.{parse_projection_set-strings}

program : Unit {0}
unfolding parse_from parse_projection_set strings names_in any_bits has_bits missing_bits union
    lookup trim_space
program = tt

named : strings 17 ≡ "head" ∷ "content" ∷ []
unfolding program
named = refl

unknown : parse_projection_set (λ s. s) (" head" ∷ "body" ∷ []) ≡ err "body"
unfolding program
unknown = refl

missing-content : missing_bits 17 1 ≡ 16
unfolding program
missing-content = refl

parse_projection_set-strings_example : parse_projection_set (λ s. s) (strings 17) ≡ ok 17
parse_projection_set-strings_example =
    parse_projection_set-strings (λ s. s)
      (refl, (refl, (refl, (refl, (refl, (refl, (refl, (refl, tt)))))))) 17 (omega arith)
