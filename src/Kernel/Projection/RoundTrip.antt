-- ===== src/Kernel/Projection/RoundTrip.antt =====
-- ProjectionSet.Strings and ParseProjectionSet undo each other on the eight projections.
use feishu_super_search.Prelude.{
  String, ℕ, zero, suc, ◌<◌, ◌≡◌, refl, Bool, true, false, ◌&&◌, some, List, [], ◌∷◌, All, lookup,
  eqb, ◌==◌, if◌then◌else◌, trim_space, ok, arith, ap, ◌∙◌, Bool-cases, inl, inr,
}
use feishu_super_search.Kernel.Projection.{
  projection_names, any_bits, union, parse_from, parse_projection_set, names_in, strings,
}

-- A test passes at the first `bound` sets.
passes : (ℕ → Bool) → ℕ → Bool
passes test zero = true
passes test (suc bits) = passes test bits && test bits

passes-at :
    (test : ℕ → Bool) (bound bits : ℕ) → bits < bound → passes test bound ≡ true → test bits ≡ true
unfolding passes
passes-at test zero bits below h = elim below [ ]
passes-at test (suc bound) bits below h = elim (Bool-cases (eqb bits bound)) [
  | inl last ↦ let e : bits ≡ bound = ground arith in rw e (ground (arith, h))
  | inr earlier ↦ passes-at test bound bits (ground arith) (ground (arith, h))
]

-- The bits of the names that a set holds, gathered again.
gather : ℕ → List (String × ℕ) → ℕ → ℕ
gather p [] out = out
gather p ((name, bit) ∷ items) out = gather p items (if any_bits p bit then union out bit else out)

regathers : ℕ → Bool
regathers p = eqb (gather p projection_names 0) p

all_regather : passes regathers 256 ≡ true
unfolding passes regathers gather any_bits union
all_regather = refl

gather_self : (p : ℕ) → p < 256 → gather p projection_names 0 ≡ p
unfolding regathers
gather_self p h = ground (arith, passes-at regathers 256 p h all_regather)

module _ (to_lower : String → String) where
  -- The parser reads the name as the bit.
  abbrev Reads : String × ℕ → Type 0
  Reads item =
      (to_lower (trim_space item.0) ≡ item.0)
      × ((item.0 == "") ≡ false)
      × (lookup item.0 projection_names ≡ some item.1)

  parse-names :
      (p : ℕ) (items : List (String × ℕ)) (out : ℕ)
      → All Reads items
      → parse_from to_lower (names_in p items) out ≡ ok (gather p items out)
  unfolding names_in gather parse_from
  parse-names p [] out h = refl
  parse-names p ((name, bit) ∷ items) out h = elim (Bool-cases (any_bits p bit)) [
    | inl there ↦
        rw (there, parse_from, h.0.0, h.0.1, h.0.2) (parse-names p items (union out bit) h.1)
    | inr absent ↦ rw absent (parse-names p items out h.1)
  ]

  names-Reads : All (λ item. to_lower item.0 ≡ item.0) projection_names → All Reads projection_names
  unfolding trim_space lookup
  names-Reads
        (
          head,
          (snippet, (summary, (structure, (content, (context, (relations, (attachments, _))))))),
        ) =
      (
        (head, refl, refl),
        (
          (snippet, refl, refl),
          (
            (summary, refl, refl),
            (
              (structure, refl, refl),
              (
                (content, refl, refl),
                ((context, refl, refl), ((relations, refl, refl), ((attachments, refl, refl), tt))),
              ),
            ),
          ),
        ),
      )

  -- If the lower-case mapping leaves the eight names of projections as they are, then parsing
  -- the names of a set of these projections gives the set back.
  pub parse_projection_set-strings :
      All (λ item. to_lower item.0 ≡ item.0) projection_names
      → (p : ℕ) → p < 256
      → parse_projection_set to_lower (strings p) ≡ ok p
  unfolding parse_projection_set strings
  parse_projection_set-strings plain p h =
      parse-names p projection_names 0 (names-Reads plain) ∙ ap ok (gather_self p h)
