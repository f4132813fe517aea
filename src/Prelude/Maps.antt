-- ===== src/Prelude/Maps.antt =====
-- Go's `map[K]V` for string keys, as an association list: `m[k]`, `m[k] = v` and `delete(m, k)`.
-- The order of the entries stands for an iteration order; no lemma here depends on it.
use Prim.Native.String.{String}
use mathlib.Core.Path.{◌≡◌, refl}
use mathlib.Core.Bool.{Bool, false, ◌||◌}
use mathlib.Core.Option.{Option, none, some}
use mathlib.Core.List.{List, [], ◌∷◌}
use native.Mathlib.Omega.{arith}
use text.Mathlib.Text.{◌==◌}
use text.Mathlib.TextEquality.{eq_iff}
use feishu_super_search.Prelude.Tests.{if◌then◌else◌}

abbrev pub Dict {ℓ} : Type ℓ → Type ℓ
Dict V = List (String × V)

module _ {ℓ} {V : Type ℓ} where
  unfoldable pub lookup : String → Dict V → Option V
  lookup k [] = none
  lookup k ((j, v) ∷ m) = if j == k then some v else lookup k m

  unfoldable pub insert : String → V → Dict V → Dict V
  insert k v [] = (k, v) ∷ []
  insert k v ((j, w) ∷ m) = if j == k then (j, v) ∷ m else (j, w) ∷ insert k v m

  unfoldable pub remove : String → Dict V → Dict V
  remove k [] = []
  remove k ((j, v) ∷ m) = let rest = remove k m in if j == k then rest else (j, v) ∷ rest

  -- A write is read back under its key, and under no other.
  pub lookup-insert :
      (key other : String) (new : V) (dict : Dict V)
      → lookup other (insert key new dict) ≡ (if key == other then some new else lookup other dict)
  unfolding lookup insert
  lookup-insert key other new [] = refl
  lookup-insert key other new ((first, _) ∷ tail) = ground (
    arith,
    lookup-insert key other new tail,
    eq_iff first other,
    eq_iff first key,
    eq_iff key other,
  )

  pub lookup-remove :
      (k j : String) (m : Dict V) → lookup j (remove k m) ≡ (if k == j then none else lookup j m)
  unfolding lookup remove
  lookup-remove k j [] = ground arith
  lookup-remove k j ((first, _) ∷ tail) =
      ground (arith, lookup-remove k j tail, eq_iff first j, eq_iff first k, eq_iff k j)

-- Whether a text is in a list of texts.
abbrev pub contains : String → List String → Bool
contains k [] = false
contains k (j ∷ l) = j == k || contains k l
