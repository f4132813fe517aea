-- ===== src/Fusion/Discoveries.antt =====
-- mergeDiscoveries of internal/fusion/fusion.go: the best discovery for each provider and source.
use Prim.Native.String.{◌++◌ as cat, compare}
use Prim.Native.Nat.{lt, eq, gt}
use feishu_super_search.Prelude.{
  String, Bool, true, false, not, ◌&&◌, none, some, List, [], ◌∷◌, ◌++◌, Dict, lookup, insert, ltz,
  ◌==◌, if◌then◌else◌,
}
use feishu_super_search.Kernel.Objects.{Discovery}

unfoldable pub discovery_key : Discovery → String
discovery_key d = cat d.provider_id (cat "|" d.source)

-- One turn of the loop that fills the map.
unfoldable pub improve : Discovery → Dict Discovery → Dict Discovery
improve x m = elim (lookup (discovery_key x) m) [
  | none ↦ insert (discovery_key x) x m
  | some old ↦ if ltz x.rank old.rank then insert (discovery_key x) x m else m
]

unfoldable pub best_of : List Discovery → Dict Discovery → Dict Discovery
best_of [] m = m
best_of (x ∷ xs) m = best_of xs (improve x m)

-- `<` on texts.
abbrev pub text_less : String → String → Bool
text_less a b = elim (compare a b) [ lt ↦ true | eq ↦ false | gt ↦ false ]

unfoldable pub sort_in : String → List String → List String
sort_in k [] = k ∷ []
sort_in k (j ∷ ks) = let rest = sort_in k ks in if text_less k j then k ∷ j ∷ ks else j ∷ rest

-- sort.Strings
unfoldable pub sort_texts : List String → List String
sort_texts [] = []
sort_texts (k ∷ ks) = sort_in k (sort_texts ks)

abbrev pub keys_of : Dict Discovery → List String
keys_of [] = []
keys_of ((k, _) ∷ m) = k ∷ keys_of m

unfoldable pub values_at : List String → Dict Discovery → List Discovery
values_at [] m = []
values_at (k ∷ ks) m =
    let rest = values_at ks m in elim (lookup k m) [ none ↦ rest | some d ↦ d ∷ rest ]

unfoldable pub merge_discoveries : List Discovery → List Discovery → List Discovery
merge_discoveries a b = let best = best_of (a ++ b) [] in values_at (sort_texts (keys_of best)) best

-- `y` stands for `x`: it has the same key, and no greater rank.
abbrev pub covers_discovery : Discovery → Discovery → Bool
covers_discovery x y = discovery_key y == discovery_key x && not (ltz x.rank y.rank)
